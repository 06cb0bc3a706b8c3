-- ===== src/Edge/Queue/Report.antt =====
-- `processOfflineSync` as a whole (integration-service/src/edge/device-manager.ts): the queue that
-- it leaves, the report to the device, and events that keep failing.
use kpm_cursor.Base.{
  ℕ, suc, ◌+◌, ◌≤◌, ◌≡◌, ◌⊎◌, ◌∙◌, sym, ap, subst, refl, String, Bool, true, false, none, some,
  List, [], ◌∷◌, All, arith, length, length-append, filter, ltb, if◌then◌else◌,
}
use kpm_cursor.Edge.Types.{OfflineEvent, OfflineQueue}
use kpm_cursor.Edge.Queue.{Sent, resolved, rejected, max_retries, process_offline_sync}
use kpm_cursor.Edge.Queue.Prune.{IsCounted}
use kpm_cursor.Edge.Queue.Sync.{
  Differs, IsDistinct, AreApart-nil, kept_of, survivors, sync_batch-survivors,
  sync_batches-sync_batch,
}

abbrev pub is_resolved : Sent → Bool
is_resolved resolved = true
is_resolved rejected = false

-- This was the event's fourth failure.
abbrev pub is_given_up : Sent → OfflineEvent → Bool
is_given_up resolved e = false
is_given_up rejected e = ltb max_retries (e.retry_count + 1)

module _ (sent : OfflineEvent → Sent) where
  abbrev pub resolved_count : List OfflineEvent → ℕ
  resolved_count es = length (filter (λ e. is_resolved (sent e)) es)

  abbrev pub given_up_count : List OfflineEvent → ℕ
  given_up_count es = length (filter (λ e. is_given_up (sent e) e) es)

  length-kept_of :
      (s : Sent) (e : OfflineEvent)
      → length (kept_of s e) + (if is_resolved s then 1 else 0) + (if is_given_up s e then 1 else 0)
        ≡ 1
  unfolding kept_of
  length-kept_of resolved e = refl
  length-kept_of rejected e = ground arith

  length-survivors :
      (es : List OfflineEvent)
      → length (survivors sent es) + resolved_count es + given_up_count es ≡ length es
  unfolding survivors
  length-survivors [] = refl
  length-survivors (e ∷ es) = ground (
    arith,
    length-kept_of (sent e) e,
    length-survivors es,
    length-append (kept_of (sent e) e) (survivors sent es),
  )

  -- A sync of a counted queue with distinct event ids, whose device is connected and which no other
  -- sync is working on, leaves in order exactly the events whose `fetch` was rejected for at most the
  -- third time, each with one more retry; the recorded size is right, the queue is free again, and
  -- the device is told as "synced" the resolved events and those given up, and as "failed" the rest.
  pub process_offline_sync-survivors :
      (now : ℕ) (q : OfflineQueue)
      → q.sync_in_progress ≡ false
      → IsDistinct q.queued_events
      → IsCounted q
      → let (q', report) = process_offline_sync sent true now q in
        (q'.queued_events ≡ survivors sent q.queued_events)
        × IsCounted q'
        × (q'.sync_in_progress ≡ false)
        × (report
            ≡ some (record {
              synced_count = resolved_count q.queued_events + given_up_count q.queued_events;
              failed_count = length (survivors sent q.queued_events);
              last_sync = now;
            }))
  unfolding process_offline_sync
  process_offline_sync-survivors now q free d c =
      let started = record q { sync_in_progress = true } in
      let events = q.queued_events in
      let flat = sync_batches-sync_batch (length events) sent events started (omega arith) in
      let (left, counted) =
        sync_batch-survivors sent [] events started refl (AreApart-nil events) d c in
      rw (free, flat) (left, counted, refl, ground (arith, left, length-survivors events))

  -- While another sync runs, or when the device has no socket, the queue keeps its events and their
  -- size, and nothing is reported.
  pub process_offline_sync_idle :
      (connected : Bool) (now : ℕ) (q : OfflineQueue)
      → (q.sync_in_progress ≡ true) ⊎ (connected ≡ false)
      → let (q', report) = process_offline_sync sent connected now q in (q' ≡ q) × (report ≡ none)
  unfolding process_offline_sync
  process_offline_sync_idle connected now q h = ground arith

abbrev fail : List OfflineEvent → List OfflineEvent
fail = survivors (λ e. rejected)

fail-older :
    (n : ℕ) (es : List OfflineEvent)
    → All (λ e. n ≤ e.retry_count) es
    → All (λ e. suc n ≤ e.retry_count) (fail es)
unfolding survivors
fail-older n [] h = tt
fail-older n (e ∷ es) h = ground (arith, fail-older n es h.1)

fail-nil : (es : List OfflineEvent) → All (λ e. max_retries ≤ e.retry_count) es → fail es ≡ []
unfolding survivors
fail-nil [] h = refl
fail-nil (e ∷ es) h = ground (arith, fail-nil es h.1)

any_age : (es : List OfflineEvent) → All (λ e. 0 ≤ e.retry_count) es
any_age [] = tt
any_age (e ∷ es) = (omega arith, any_age es)

survivors_four_rejections : (es : List OfflineEvent) → fail (fail (fail (fail es))) ≡ []
survivors_four_rejections es =
    fail-nil (fail (fail (fail es)))
      (fail-older 2 (fail (fail es)) (fail-older 1 (fail es) (fail-older 0 es (any_age es))))

Differs-fail :
    (id : String) (es : List OfflineEvent) → All (Differs id) es → All (Differs id) (fail es)
unfolding survivors kept_of
Differs-fail id [] h = tt
Differs-fail id (e ∷ es) h = ground (arith, h, Differs-fail id es h.1)

IsDistinct-fail : (es : List OfflineEvent) → IsDistinct es → IsDistinct (fail es)
unfolding survivors kept_of
IsDistinct-fail [] d = tt
IsDistinct-fail (e ∷ es) d =
    ground (arith, d, Differs-fail e.event_id es d.0, IsDistinct-fail es d.1)

-- A queue that a sync can start from.
record IsReady (q : OfflineQueue) : Type 0 where
  free : q.sync_in_progress ≡ false
  distinct : IsDistinct q.queued_events
  counted : IsCounted q

-- A sync at the given time in which every `fetch` is rejected.
abbrev pub failing_sync : ℕ → OfflineQueue → OfflineQueue
failing_sync now q = (process_offline_sync (λ e. rejected) true now q).0

failing_sync-IsReady :
    (now : ℕ) (q : OfflineQueue)
    → IsReady q
    → IsReady (failing_sync now q) × ((failing_sync now q).queued_events ≡ fail q.queued_events)
failing_sync-IsReady now q r =
    let (left, counted, free, _) =
      process_offline_sync-survivors (λ e. rejected) now q r.free r.distinct r.counted in
    (
      record {
        free = free;
        distinct = subst IsDistinct (sym left) (IsDistinct-fail q.queued_events r.distinct);
        counted = counted;
      },
      left,
    )

-- Four syncs in which every `fetch` is rejected empty any counted queue with distinct event ids that
-- no sync is working on.
pub failing_sync_four :
    (a b c d : ℕ) (q : OfflineQueue)
    → q.sync_in_progress ≡ false
    → IsDistinct q.queued_events
    → IsCounted q
    → (failing_sync d (failing_sync c (failing_sync b (failing_sync a q)))).queued_events ≡ []
failing_sync_four a b c d q free distinct counted =
    let (r1, e1) =
      failing_sync-IsReady a q (record { free = free; distinct = distinct; counted = counted }) in
    let (r2, e2) = failing_sync-IsReady b (failing_sync a q) r1 in
    let (r3, e3) = failing_sync-IsReady c (failing_sync b (failing_sync a q)) r2 in
    let (_, e4) = failing_sync-IsReady d (failing_sync c (failing_sync b (failing_sync a q))) r3 in
    e4 ∙ ap fail (e3 ∙ ap fail (e2 ∙ ap fail e1)) ∙ survivors_four_rejections q.queued_events
