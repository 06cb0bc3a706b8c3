-- ===== src/MessageBus/DualMode/Tests.antt =====
-- Concrete requests (message_bus/src/dual-mode-handler.ts): the theorems at inputs that meet their
-- hypotheses.
use Prim.Native.String.{String}
use kpm_cursor.Base.{String, ◌≡◌, refl, Bool, true, false, List, [], ◌∷◌, arith}
use kpm_cursor.MessageBus.DualMode.{
  Hashes, BatchedEvent, QueueEntry, Timer, running, fired, Handler, batch_line, fire, settle,
}
use kpm_cursor.MessageBus.DualMode.Waiting.{add_all, add_all-fired, settle-loses}
use kpm_cursor.MessageBus.DualMode.Served.{
  request, timer_due, requested, IsServed, serve_all, serve_all-IsServed,
}

abbrev joining : List String → String
joining [] = ""
joining (s ∷ ss) = s

abbrev hashes : Hashes
hashes = record { event_hash = λ s. s; merkle_root = joining }

abbrev event : String → BatchedEvent
event content = record { content = content; company_id = "ACME"; timestamp = 1 }

abbrev handler : Timer → List (QueueEntry × Bool) → Handler
handler timer appending = record {
  batched_events = event "a" ∷ [];
  batch_timer = timer;
  appending = appending;
  lines = [];
  replies = [];
}

serve_all-IsServed_example :
    let inputs = request 2 (event "b") true ∷ timer_due 9 true ∷ request 10 (event "c") true ∷ [] in
    IsServed hashes
      (requested inputs)
      (handler running [])
      (serve_all hashes inputs (handler running []))
serve_all-IsServed_example =
    serve_all-IsServed hashes
      (request 2 (event "b") true ∷ timer_due 9 true ∷ request 10 (event "c") true ∷ [])
      (handler running []) refl

add_all-fired_example :
    let written = settle true (fire hashes 900 (handler running [])) in
    let after = fire hashes 1800 (add_all hashes ((901, event "b") ∷ []) written) in
    (after.batched_events ≡ event "b" ∷ [])
    × (after.batch_timer ≡ fired)
    × (after.appending ≡ [])
    × (after.lines ≡ written.lines)
add_all-fired_example =
    add_all-fired hashes 900 1800 true ((901, event "b") ∷ []) (handler running []) refl refl
      (omega arith)

settle-loses_example :
    let line = batch_line hashes 1 (event "a" ∷ []) in
    let after =
      settle true (add_all hashes ((2, event "b") ∷ []) (handler fired ((line, false) ∷ []))) in
    (after.batched_events ≡ []) × (after.appending ≡ []) × (after.lines ≡ line ∷ [])
settle-loses_example =
    settle-loses hashes ((2, event "b") ∷ [])
      (handler fired ((batch_line hashes 1 (event "a" ∷ []), false) ∷ [])) refl (omega arith)
