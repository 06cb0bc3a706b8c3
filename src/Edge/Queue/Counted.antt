-- ===== src/Edge/Queue/Counted.antt =====
-- The recorded size of a queue under `processOfflineSync`
-- (integration-service/src/edge/device-manager.ts).
use kpm_cursor.Base.{
  ℕ, zero, suc, ◌+◌, ◌≡◌, refl, String, Bool, true, false, List, [], ◌∷◌, arith, take, drop,
  Bool-cases, inl, inr,
}
use kpm_cursor.Edge.Types.{OfflineEvent, OfflineQueue}
use kpm_cursor.Edge.Queue.{
  Sent, resolved, rejected, remove_first, remove_event, count_retry, settle, sync_batch, batch_size,
  sync_batches, process_offline_sync,
}
use kpm_cursor.Edge.Queue.Prune.{sizes, IsCounted}

remove_first-sizes :
    (id : String) (es : List OfflineEvent)
    → sizes (remove_first id es).0 + (remove_first id es).1 ≡ sizes es
unfolding remove_first
remove_first-sizes id [] = refl
remove_first-sizes id (e ∷ es) = ground (arith, remove_first-sizes id es)

count_retry-sizes : (id : String) (es : List OfflineEvent) → sizes (count_retry id es) ≡ sizes es
unfolding count_retry
count_retry-sizes id [] = refl
count_retry-sizes id (e ∷ es) = ground (arith, count_retry-sizes id es)

settle-IsCounted :
    (s : Sent) (e : OfflineEvent) (q : OfflineQueue) → IsCounted q → IsCounted (settle s e q)
unfolding settle remove_event
settle-IsCounted resolved e q h = omega (arith, h, remove_first-sizes e.event_id q.queued_events)
settle-IsCounted rejected e q h = ground (
  arith,
  h,
  remove_first-sizes e.event_id q.queued_events,
  count_retry-sizes e.event_id q.queued_events,
)

module _ (sent : OfflineEvent → Sent) where
  sync_batch-IsCounted :
      (es : List OfflineEvent) (q : OfflineQueue) → IsCounted q → IsCounted (sync_batch sent es q)
  unfolding sync_batch
  sync_batch-IsCounted [] q h = h
  sync_batch-IsCounted (e ∷ es) q h =
      sync_batch-IsCounted es (settle (sent e) e q) (settle-IsCounted (sent e) e q h)

  sync_batches-IsCounted :
      (fuel : ℕ) (es : List OfflineEvent) (q : OfflineQueue)
      → IsCounted q
      → IsCounted (sync_batches fuel sent es q)
  unfolding sync_batches
  sync_batches-IsCounted zero es q h = h
  sync_batches-IsCounted (suc fuel) [] q h = h
  sync_batches-IsCounted (suc fuel) (e ∷ es) q h =
      sync_batches-IsCounted fuel (drop batch_size (e ∷ es))
        (sync_batch sent (take batch_size (e ∷ es)) q)
        (sync_batch-IsCounted (take batch_size (e ∷ es)) q h)

  pub process_offline_sync-IsCounted :
      (connected : Bool) (now : ℕ) (q : OfflineQueue)
      → IsCounted q
      → IsCounted (process_offline_sync sent connected now q).0
  unfolding process_offline_sync
  process_offline_sync-IsCounted connected now q h = elim (Bool-cases q.sync_in_progress) [
    | inl e ↦ rw e h
    | inr e ↦ elim connected as (λ c. IsCounted (process_offline_sync sent c now q).0) [
      | false ↦ rw e h
      | true ↦
          rw e (sync_batches-IsCounted _ q.queued_events (record q { sync_in_progress = true }) h)
    ]
  ]
