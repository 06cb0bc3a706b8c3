-- ===== src/MessageBus/DualMode/Served.antt =====
-- Requests and timers whose appends are settled before the next one comes.
use mathlib.Core.List.{append-nil, append_assoc, map-append}
use kpm_cursor.Base.{
  sym, ap, subst, ◌∙◌, Bool-cases, inl, inr, true, false, leb, length, ℕ, ◌≡◌, refl, Bool, List, [],
  ◌∷◌, ◌++◌, map,
}
use kpm_cursor.MessageBus.DualMode.{
  Timer, Reply, unset, running, fired, QueueEntry, batch_size, Hashes, BatchedEvent, Handler,
  batch_line, start_batch, add_to_batch, fire, settle,
}

pub data Input : Type 0 where
  request : ℕ → BatchedEvent → Bool → Input
  timer_due : ℕ → Bool → Input

abbrev pub requested : List Input → List BatchedEvent
requested [] = []
requested (request now event appended ∷ inputs) = event ∷ requested inputs
requested (timer_due now appended ∷ inputs) = requested inputs

abbrev pub joined : List (ℕ × List BatchedEvent) → List BatchedEvent
joined [] = []
joined ((now, events) ∷ batches) = events ++ joined batches

module _ (H : Hashes) where
  abbrev pub serve : Input → Handler → Handler
  serve (request now event appended) h = settle appended (add_to_batch H now event h)
  serve (timer_due now appended) h = settle appended (fire H now h)

  abbrev pub serve_all : List Input → Handler → Handler
  serve_all [] h = h
  serve_all (input ∷ inputs) h = serve_all inputs (serve input h)

  -- The lines that were added are those of batches that, with the waiting events, are all the events.
  abbrev pub IsServed : List BatchedEvent → Handler → Handler → Type 0
  IsServed events h after =
      (batches : List (ℕ × List BatchedEvent)) × (after.lines
        ≡ h.lines ++ map (λ b. batch_line H b.0 b.1) batches)
      × (joined batches ++ after.batched_events ≡ h.batched_events ++ events)
      × (after.appending ≡ [])

  abbrev idle_handler : List BatchedEvent → Timer → List QueueEntry → List Reply → Handler
  idle_handler events timer lines replies = record {
    batched_events = events;
    batch_timer = timer;
    appending = [];
    lines = lines;
    replies = replies;
  }

  IsServed-start :
      (now : ℕ) (asked appended : Bool) (events : List BatchedEvent) (timer : Timer)
      (lines : List QueueEntry) (replies : List Reply)
      → let h = idle_handler events timer lines replies in
        IsServed [] h (settle appended (start_batch H now asked h))
  unfolding settle
  IsServed-start now asked appended [] timer lines replies =
      ([], sym (append-nil lines), refl, refl)
  IsServed-start now true true (event ∷ events) timer lines replies =
      ((now, event ∷ events) ∷ [], refl, append-nil _, refl)
  IsServed-start now false true (event ∷ events) timer lines replies =
      ((now, event ∷ events) ∷ [], refl, append-nil _, refl)
  IsServed-start now true false (event ∷ events) timer lines replies =
      ([], sym (append-nil lines), sym (append-nil _), refl)
  IsServed-start now false false (event ∷ events) timer lines replies =
      ([], sym (append-nil lines), sym (append-nil _), refl)

  IsServed-none : (h : Handler) → h.appending ≡ [] → IsServed [] h h
  IsServed-none h idle = ([], sym (append-nil h.lines), sym (append-nil h.batched_events), idle)

  IsServed-request :
      (now : ℕ) (event : BatchedEvent) (appended : Bool) (events : List BatchedEvent)
      (timer : Timer) (lines : List QueueEntry) (replies : List Reply)
      → let h = idle_handler events timer lines replies in
        IsServed (event ∷ []) h (settle appended (add_to_batch H now event h))
  unfolding add_to_batch settle
  IsServed-request now event appended events timer lines replies =
      elim (Bool-cases (leb batch_size (length (events ++ event ∷ [])))) [
        | inl e ↦
            let (batches, l, w, idle) =
              IsServed-start now true appended (events ++ event ∷ []) unset lines replies in
            rw e (batches, l, w ∙ append-nil _, idle)
        | inr e ↦ rw e ([], sym (append-nil lines), refl, refl)
      ]

  IsServed-timer :
      (now : ℕ) (appended : Bool) (events : List BatchedEvent) (timer : Timer)
      (lines : List QueueEntry) (replies : List Reply)
      → let h = idle_handler events timer lines replies in
        IsServed [] h (settle appended (fire H now h))
  unfolding fire settle
  IsServed-timer now appended events running lines replies =
      IsServed-start now false appended events fired lines replies
  IsServed-timer now appended events unset lines replies =
      IsServed-none (idle_handler events unset lines replies) refl
  IsServed-timer now appended events fired lines replies =
      IsServed-none (idle_handler events fired lines replies) refl

  IsServed-idle :
      (input : Input) (events : List BatchedEvent) (timer : Timer) (lines : List QueueEntry)
      (replies : List Reply)
      → let h = idle_handler events timer lines replies in
        IsServed (requested (input ∷ [])) h (serve input h)
  IsServed-idle (request now event appended) events timer lines replies =
      IsServed-request now event appended events timer lines replies
  IsServed-idle (timer_due now appended) events timer lines replies =
      IsServed-timer now appended events timer lines replies

  IsServed-serve :
      (input : Input) (h : Handler)
      → h.appending ≡ []
      → IsServed (requested (input ∷ [])) h (serve input h)
  IsServed-serve input h idle =
      let e : (record h { appending = [] } ≡ h) = ap (λ a. record h { appending = a }) (sym idle) in
      subst (λ g. IsServed (requested (input ∷ [])) g (serve input g)) e
        (IsServed-idle input h.batched_events h.batch_timer h.lines h.replies)

  requested-cons :
      (input : Input) (inputs : List Input)
      → requested (input ∷ inputs) ≡ requested (input ∷ []) ++ requested inputs
  requested-cons (request now event appended) inputs = refl
  requested-cons (timer_due now appended) inputs = refl

  joined-append :
      (xs ys : List (ℕ × List BatchedEvent)) → joined (xs ++ ys) ≡ joined xs ++ joined ys
  joined-append [] ys = refl
  joined-append ((now, events) ∷ xs) ys =
      ap (λ l. events ++ l) (joined-append xs ys) ∙ sym (append_assoc events _ _)

  IsServed-then :
      (some_events more : List BatchedEvent) (h middle after : Handler)
      → IsServed some_events h middle
      → IsServed more middle after
      → IsServed (some_events ++ more) h after
  IsServed-then some_events more h middle after (xs, l1, w1, idle1) (ys, l2, w2, idle2) = (
    xs ++ ys,
    l2
        ∙ ap (λ l. l ++ map (λ b. batch_line H b.0 b.1) ys) l1
        ∙ append_assoc h.lines _ _
        ∙ ap (λ l. h.lines ++ l) (sym (map-append (λ b. batch_line H b.0 b.1) xs ys)),
    ap (λ l. l ++ after.batched_events) (joined-append xs ys)
        ∙ append_assoc (joined xs) _ _
        ∙ ap (λ l. joined xs ++ l) w2
        ∙ sym (append_assoc (joined xs) _ _)
        ∙ ap (λ l. l ++ more) w1
        ∙ append_assoc h.batched_events _ _,
    idle2,
  )

  -- When each append is settled before the next request or timer, no event is lost or written twice: the
  -- lines that are added are those of batches that, followed by the waiting events, are the events that
  -- waited before and those that were requested, in order, whether or not the appends succeed.
  pub serve_all-IsServed :
      (inputs : List Input) (h : Handler)
      → h.appending ≡ []
      → IsServed (requested inputs) h (serve_all inputs h)
  serve_all-IsServed [] h idle = IsServed-none h idle
  serve_all-IsServed (input ∷ inputs) h idle =
      let (xs, l, w, idle_again) = IsServed-serve input h idle in
      rw (requested-cons input inputs) (
        IsServed-then (requested (input ∷ [])) (requested inputs) h (serve input h)
          (serve_all inputs (serve input h)) (xs, l, w, idle_again)
          (serve_all-IsServed inputs (serve input h) idle_again))
