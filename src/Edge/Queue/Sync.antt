-- ===== src/Edge/Queue/Sync.antt =====
-- The loop of `processOfflineSync` (integration-service/src/edge/device-manager.ts): which events
-- stay in the queue.
use mathlib.Core.List.{append_assoc}
use kpm_cursor.Base.{
  ℕ, zero, suc, ◌+◌, ◌≤◌, String, ◌≡◌, ◌≢◌, ◌∙◌, sym, ap, refl, List, [], ◌∷◌, ◌++◌, All,
  All-append, arith, length, take, drop, length-drop, Bool-cases, inl, inr, ltb, eq_iff,
  if◌then◌else◌,
}
use kpm_cursor.Edge.Types.{OfflineEvent, OfflineQueue}
use kpm_cursor.Edge.Queue.{
  remove_first, remove_event, Sent, resolved, rejected, count_retry, max_retries, settle,
  sync_batch, batch_size, sync_batches,
}
use kpm_cursor.Edge.Queue.Prune.{sizes, IsCounted}

abbrev pub Differs : String → OfflineEvent → Type 0
Differs id e = e.event_id ≢ id

-- No two events have one id.
abbrev pub IsDistinct : List OfflineEvent → Type 0
IsDistinct [] = Unit
IsDistinct (e ∷ es) = All (Differs e.event_id) es × IsDistinct es

-- What is left of one event: nothing, if its `fetch` resolved or this was its fourth failure.
unfoldable pub kept_of : Sent → OfflineEvent → List OfflineEvent
kept_of resolved e = []
kept_of rejected e =
    if ltb max_retries (e.retry_count + 1)
    then []
    else record e { retry_count = e.retry_count + 1 } ∷ []

-- What is left of a queue, in its order.
unfoldable pub survivors : (OfflineEvent → Sent) → List OfflineEvent → List OfflineEvent
unfolding kept_of
survivors sent [] = []
survivors sent (e ∷ es) = kept_of (sent e) e ++ survivors sent es

remove_first-middle :
    (front back : List OfflineEvent) (e : OfflineEvent)
    → All (Differs e.event_id) front
    → remove_first e.event_id (front ++ e ∷ back) ≡ (front ++ back, e.size)
unfolding remove_first
remove_first-middle [] back e h = ground (arith, eq_iff e.event_id e.event_id)
remove_first-middle (x ∷ front) back e h =
    ground (arith, remove_first-middle front back e h.1, eq_iff x.event_id e.event_id)

count_retry-middle :
    (front back : List OfflineEvent) (e : OfflineEvent)
    → All (Differs e.event_id) front
    → count_retry e.event_id (front ++ e ∷ back)
      ≡ front ++ record e { retry_count = e.retry_count + 1 } ∷ back
unfolding count_retry
count_retry-middle [] back e h = ground (arith, eq_iff e.event_id e.event_id)
count_retry-middle (x ∷ front) back e h =
    ground (arith, count_retry-middle front back e h.1, eq_iff x.event_id e.event_id)

sizes-middle :
    (front back : List OfflineEvent) (e : OfflineEvent)
    → sizes (front ++ e ∷ back) ≡ e.size + sizes (front ++ back)
sizes-middle [] back e = refl
sizes-middle (x ∷ front) back e = omega (arith, sizes-middle front back e)

remove_event-middle :
    (front back : List OfflineEvent) (e : OfflineEvent) (q : OfflineQueue)
    → q.queued_events ≡ front ++ e ∷ back
    → All (Differs e.event_id) front
    → IsCounted q
    → ((remove_event e.event_id q).queued_events ≡ front ++ back)
      × IsCounted (remove_event e.event_id q)
unfolding remove_event
remove_event-middle front back e q h d c =
    let r : remove_first e.event_id q.queued_events ≡ (front ++ back, e.size) =
      ap (remove_first e.event_id) h ∙ remove_first-middle front back e d in
    let total : q.total_size ≡ e.size + sizes (front ++ back) =
      c ∙ ap sizes h ∙ sizes-middle front back e in
    (ap (λ x. x.0) r, rw r (omega (arith, total)))

-- Settling the event behind `front` leaves `front`, what is kept of it, and the rest; and the
-- recorded size stays right.
settle-middle :
    (s : Sent) (front back : List OfflineEvent) (e : OfflineEvent) (q : OfflineQueue)
    → q.queued_events ≡ front ++ e ∷ back
    → All (Differs e.event_id) front
    → IsCounted q
    → ((settle s e q).queued_events ≡ front ++ (kept_of s e ++ back)) × IsCounted (settle s e q)
unfolding settle kept_of
settle-middle resolved front back e q h d c = remove_event-middle front back e q h d c
settle-middle rejected front back e q h d c =
    elim (Bool-cases (ltb max_retries (e.retry_count + 1))) [
      | inl last ↦ rw last (remove_event-middle front back e q h d c)
      | inr again ↦
          let counted : count_retry e.event_id q.queued_events
              ≡ front ++ record e { retry_count = e.retry_count + 1 } ∷ back =
            ap (count_retry e.event_id) h ∙ count_retry-middle front back e d in
          rw again (
            counted,
            c
                ∙ ap sizes h
                ∙ sizes-middle front back e
                ∙ sym (sizes-middle front back (record e { retry_count = e.retry_count + 1 }))
                ∙ sym (ap sizes counted),
          )
    ]

-- Every event of `es` has another id than all of `front`.
abbrev pub AreApart : List OfflineEvent → List OfflineEvent → Type 0
AreApart front = All (λ e. All (Differs e.event_id) front)

pub AreApart-nil : (es : List OfflineEvent) → AreApart [] es
AreApart-nil [] = tt
AreApart-nil (e ∷ es) = (tt, AreApart-nil es)

kept_of-Differs :
    (s : Sent) (e : OfflineEvent) (id : String) → id ≢ e.event_id → All (Differs id) (kept_of s e)
unfolding kept_of
kept_of-Differs resolved e id h = tt
kept_of-Differs rejected e id h = elim (Bool-cases (ltb max_retries (e.retry_count + 1))) [
  | inl last ↦ rw last tt
  | inr again ↦ rw again (λ p. h (sym p), tt)
]

AreApart-kept_of :
    (s : Sent) (e : OfflineEvent) (front es : List OfflineEvent)
    → AreApart front es
    → All (Differs e.event_id) es
    → AreApart (front ++ kept_of s e) es
AreApart-kept_of s e front [] p d = tt
AreApart-kept_of s e front (x ∷ es) p d = (
  All-append (Differs x.event_id) front (kept_of s e) p.0 (kept_of-Differs s e x.event_id d.0),
  AreApart-kept_of s e front es p.1 d.1,
)

pub sync_batch-survivors :
    (sent : OfflineEvent → Sent) (front es : List OfflineEvent) (q : OfflineQueue)
    → q.queued_events ≡ front ++ es
    → AreApart front es
    → IsDistinct es
    → IsCounted q
    → ((sync_batch sent es q).queued_events ≡ front ++ survivors sent es)
      × IsCounted (sync_batch sent es q)
unfolding sync_batch survivors
sync_batch-survivors sent front [] q h a d c = (h, c)
sync_batch-survivors sent front (e ∷ es) q h a d c =
    let kept = kept_of (sent e) e in
    let (events, counted) = settle-middle (sent e) front es e q h a.0 c in
    let ih =
      sync_batch-survivors sent (front ++ kept) es (settle (sent e) e q)
        (events ∙ sym (append_assoc front kept es)) (AreApart-kept_of (sent e) e front es a.1 d.0)
        d.1 counted in
    (ih.0 ∙ append_assoc front kept (survivors sent es), ih.1)

-- The batches of fifty, one after the other, do what one pass over all the events does.
sync_batch-append :
    (sent : OfflineEvent → Sent) (xs ys : List OfflineEvent) (q : OfflineQueue)
    → sync_batch sent (xs ++ ys) q ≡ sync_batch sent ys (sync_batch sent xs q)
unfolding sync_batch
sync_batch-append sent [] ys q = refl
sync_batch-append sent (x ∷ xs) ys q = sync_batch-append sent xs ys (settle (sent x) x q)

take-append-drop : (n : ℕ) (xs : List OfflineEvent) → take n xs ++ drop n xs ≡ xs
take-append-drop zero xs = refl
take-append-drop (suc n) [] = refl
take-append-drop (suc n) (x ∷ xs) = ap (◌∷◌ x) (take-append-drop n xs)

pub sync_batches-sync_batch :
    (fuel : ℕ) (sent : OfflineEvent → Sent) (events : List OfflineEvent) (q : OfflineQueue)
    → length events ≤ fuel
    → sync_batches fuel sent events q ≡ sync_batch sent events q
unfolding sync_batches
sync_batches-sync_batch zero sent [] q h = unfold sync_batch in refl
sync_batches-sync_batch zero sent (e ∷ es) q h = absurd (omega arith)
sync_batches-sync_batch (suc fuel) sent [] q h = unfold sync_batch in refl
sync_batches-sync_batch (suc fuel) sent (e ∷ es) q h =
    sync_batches-sync_batch fuel sent (drop batch_size (e ∷ es))
      (sync_batch sent (take batch_size (e ∷ es)) q)
      (omega (arith, length-drop batch_size (e ∷ es)))
    ∙ sym (sync_batch-append sent (take batch_size (e ∷ es)) (drop batch_size (e ∷ es)) q)
    ∙ ap (λ xs. sync_batch sent xs q) (take-append-drop batch_size (e ∷ es))
