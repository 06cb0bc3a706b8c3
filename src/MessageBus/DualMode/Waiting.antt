-- ===== src/MessageBus/DualMode/Waiting.antt =====
-- What becomes of the events that wait for a batch.
use mathlib.Core.List.{append-nil, append_assoc}
use kpm_cursor.Base.{
  ℕ, ◌+◌, ◌<◌, ◌≡◌, refl, sym, ap, ◌∙◌, inl, inr, Bool, true, false, List, [], ◌∷◌, ◌++◌, map,
  arith, leb, if◌then◌else◌, Bool-cases, length, length-append,
}
use kpm_cursor.MessageBus.DualMode.{
  Hashes, BatchedEvent, QueueEntry, running, fired, Handler, batch_size, started, start_batch,
  add_to_batch, fire, settle, start_with, fire_when,
}

module _ (H : Hashes) where
  abbrev pub add_all : List (ℕ × BatchedEvent) → Handler → Handler
  add_all [] h = h
  add_all ((now, event) ∷ requests) h = add_all requests (add_to_batch H now event h)

  add_to_batch-few :
      (now : ℕ) (event : BatchedEvent) (h : Handler)
      → length h.batched_events + 1 < batch_size
      → let after = add_to_batch H now event h in
        (after.batched_events ≡ h.batched_events ++ event ∷ [])
        × (after.batch_timer ≡ started h.batch_timer)
        × (after.appending ≡ h.appending)
        × (after.lines ≡ h.lines)
  unfolding add_to_batch
  add_to_batch-few now event h few =
      let e : (leb batch_size (length (h.batched_events ++ event ∷ [])) ≡ false) =
        ground (arith, length-append h.batched_events (event ∷ [])) in
      rw e (refl, refl, refl, refl)

  abbrev Waits : List BatchedEvent → Handler → Handler → Type 0
  Waits events h after =
      (after.batched_events ≡ h.batched_events ++ events)
      × (h.batch_timer ≡ fired → after.batch_timer ≡ fired)
      × (after.appending ≡ h.appending)
      × (after.lines ≡ h.lines)

  add_all-Waits :
      (requests : List (ℕ × BatchedEvent)) (h : Handler)
      → length h.batched_events + length requests < batch_size
      → Waits (map (λ r. r.1) requests) h (add_all requests h)
  add_all-Waits [] h few = (sym (append-nil h.batched_events), λ e. e, refl, refl)
  add_all-Waits ((now, event) ∷ requests) h few =
      let (pushed, timer, appending, lines) = add_to_batch-few now event h (omega arith) in
      let (pushed_all, timer_all, appending_all, lines_all) =
        add_all-Waits requests (add_to_batch H now event h)
          (rw pushed (omega (arith, length-append h.batched_events (event ∷ [])))) in
      (
        pushed_all
            ∙ ap (λ l. l ++ map (λ r. r.1) requests) pushed
            ∙ append_assoc h.batched_events _ _,
        λ e. timer_all (timer ∙ ap started e),
        appending_all ∙ appending,
        lines_all ∙ lines,
      )

  settle-start :
      (now : ℕ) (appended : Bool) (events : List BatchedEvent) (h : Handler)
      → h.appending ≡ []
      → let written = settle appended (
          start_with H now false events
            (record h { batched_events = events; batch_timer = fired })) in
        (written.batched_events ≡ (if appended then [] else events))
        × (written.batch_timer ≡ fired)
        × (written.appending ≡ [])
  unfolding settle
  settle-start now true [] h none_before = rw none_before (refl, refl, refl)
  settle-start now false [] h none_before = rw none_before (refl, refl, refl)
  settle-start now true (e ∷ events) h none_before = rw none_before (refl, refl, refl)
  settle-start now false (e ∷ events) h none_before = rw none_before (refl, refl, refl)

  -- What the callback of the timer and the end of its append leave.
  settle-fire :
      (now : ℕ) (appended : Bool) (h : Handler)
      → h.batch_timer ≡ running
      → h.appending ≡ []
      → let written = settle appended (fire H now h) in
        (written.batched_events ≡ (if appended then [] else h.batched_events))
        × (written.batch_timer ≡ fired)
        × (written.appending ≡ [])
  unfolding fire settle
  settle-fire now appended h r none_before =
      let e : fire H now h ≡ start_batch H now false (record h { batch_timer = fired }) =
        ap (λ t. fire_when H now t h) r in
      rw e (settle-start now appended h.batched_events h none_before)

  -- The timer fires once only: from a handler whose timer is running and that appends nothing, let the
  -- timer fire, let its append be settled, and let requests follow that leave fewer than fifty events
  -- waiting. Then the timer is not set, so that when it would fire nothing happens: all these events
  -- still wait, none is being appended, and the file is as the first batch left it.
  pub add_all-fired :
      (now later : ℕ) (appended : Bool) (requests : List (ℕ × BatchedEvent)) (h : Handler)
      → h.batch_timer ≡ running
      → h.appending ≡ []
      → length h.batched_events + length requests < batch_size
      → let written = settle appended (fire H now h) in
        let after = fire H later (add_all requests written) in
        (after.batched_events
          ≡ (if appended then [] else h.batched_events) ++ map (λ r. r.1) requests)
        × (after.batch_timer ≡ fired)
        × (after.appending ≡ [])
        × (after.lines ≡ written.lines)
  unfolding fire
  add_all-fired now later appended requests h r none_before few =
      let written = settle appended (fire H now h) in
      let (left, timer, appending) = settle-fire now appended h r none_before in
      let fewer : length written.batched_events + length requests < batch_size =
        rw left
          (elim (Bool-cases appended) [ inl a ↦ rw a (omega (arith, few)) | inr a ↦ rw a few ]) in
      let (pushed, timer_all, appending_all, lines) = add_all-Waits requests written fewer in
      rw (timer_all timer) (
        pushed ∙ ap (λ l. l ++ map (λ q. q.1) requests) left,
        timer_all timer,
        appending_all ∙ appending,
        lines,
      )

  -- Requests that come while a batch line is appended are lost when the append succeeds, if fewer than
  -- fifty events wait: they wait no longer, and the one line that is written is that of the batch before.
  pub settle-loses :
      (requests : List (ℕ × BatchedEvent)) (h : Handler) {line : QueueEntry} {asked : Bool}
      → h.appending ≡ (line, asked) ∷ []
      → length h.batched_events + length requests < batch_size
      → let after = settle true (add_all requests h) in
        (after.batched_events ≡ []) × (after.appending ≡ []) × (after.lines ≡ h.lines ++ line ∷ [])
  unfolding settle
  settle-loses requests h {line} {asked} e few =
      let (pushed, timer, appending, lines) = add_all-Waits requests h few in
      rw (appending ∙ e) (elim (Bool-cases asked) [
        | inl a ↦ rw a (refl, refl, ap (λ l. l ++ line ∷ []) lines)
        | inr a ↦ rw a (refl, refl, ap (λ l. l ++ line ∷ []) lines)
      ])
