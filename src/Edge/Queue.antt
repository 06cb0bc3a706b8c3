-- ===== src/Edge/Queue.antt =====
-- The offline queue of one device: `queueOfflineEvent`, `pruneOfflineQueue` and the loop of
-- `processOfflineSync` (integration-service/src/edge/device-manager.ts).
pub mod Order
pub mod Prune
pub mod Sync
pub mod Counted
pub mod Report
use kpm_cursor.Base.{
  ℕ, zero, suc, ◌+◌, ◌-◌, ◌*◌, String, Bool, true, false, ◌&&◌, ◌||◌, Option, none, some, List, [],
  ◌∷◌, ◌++◌, map, filter, length, take, drop, not, str_eq, ltb, leb, ◌==◌, if◌then◌else◌,
}
use mathlib.Core.List.{reverse}
use kpm_cursor.Edge.Types.{EventPriority, low, medium, high, critical, OfflineEvent, OfflineQueue}

-- The table `priorityOrder`.
pub priority_order : EventPriority → ℕ
priority_order critical = 4
priority_order high = 3
priority_order medium = 2
priority_order low = 1

-- The comparison returns 0 or less: `a` has the higher priority, or the same and is not older.
pub comes_first : OfflineEvent → OfflineEvent → Bool
comes_first a b =
    if priority_order a.priority == priority_order b.priority
    then leb b.timestamp a.timestamp
    else ltb (priority_order b.priority) (priority_order a.priority)

-- `Array.prototype.sort`, which is stable.
pub insert : OfflineEvent → List OfflineEvent → List OfflineEvent
insert e [] = e ∷ []
insert e (x ∷ xs) = if comes_first e x then e ∷ x ∷ xs else x ∷ insert e xs

pub sort : List OfflineEvent → List OfflineEvent
sort [] = []
sort (e ∷ es) = insert e (sort es)

-- The `while` loop over the queue from its end: what is left (last event first) and its size.
pub pop_until : ℕ → ℕ → List OfflineEvent → List OfflineEvent × ℕ
pop_until limit total [] = ([], total)
pop_until limit total (e ∷ es) = elim (ltb limit total) [
  | true ↦ pop_until limit (total - e.size) es
  | false ↦ (e ∷ es, total)
]

pub prune_offline_queue : OfflineQueue → ℕ → OfflineQueue
unfolding sort pop_until
prune_offline_queue q limit_mb =
    let limit = limit_mb * 1024 * 1024 in
    let (kept, total) = pop_until limit q.total_size (reverse (sort q.queued_events)) in
    record q { queued_events = reverse kept; total_size = total }

-- The part of `queueOfflineEvent` after the event is built; `limit_mb` is the device's limit.
pub push_event : OfflineEvent → ℕ → OfflineQueue → OfflineQueue
unfolding prune_offline_queue
push_event e limit_mb q =
    let pushed = record q {
      queued_events = q.queued_events ++ e ∷ [];
      total_size = q.total_size + e.size;
    } in
    if ltb (limit_mb * 1024 * 1024) pushed.total_size
    then prune_offline_queue pushed limit_mb
    else pushed

-- `findIndex` by id and `splice`: the list without the event, and the size that it had.
pub remove_first : String → List OfflineEvent → List OfflineEvent × ℕ
remove_first id [] = ([], 0)
remove_first id (e ∷ es) =
    let (rest, size) = remove_first id es in
    if str_eq e.event_id id then (es, e.size) else (e ∷ rest, size)

pub remove_event : String → OfflineQueue → OfflineQueue
unfolding remove_first
remove_event id q =
    let (rest, size) = remove_first id q.queued_events in
    record q { queued_events = rest; total_size = q.total_size - size }

-- What became of one `fetch`: it resolved, whatever the status of the response, or was rejected.
pub data Sent : Type 0 where
  resolved rejected : Sent

-- `event.retryCount++`: the snapshot and the queue share the event objects.
pub count_retry : String → List OfflineEvent → List OfflineEvent
count_retry id [] = []
count_retry id (e ∷ es) =
    if str_eq e.event_id id
    then record e { retry_count = e.retry_count + 1 } ∷ es
    else e ∷ count_retry id es

abbrev pub max_retries : ℕ
max_retries = 3

-- One round of the inner loop of `processOfflineSync`, by what became of the event.
pub settle : Sent → OfflineEvent → OfflineQueue → OfflineQueue
unfolding remove_event count_retry
settle resolved e q = remove_event e.event_id q
settle rejected e q =
    if ltb max_retries (e.retry_count + 1)
    then remove_event e.event_id q
    else record q { queued_events = count_retry e.event_id q.queued_events }

pub sync_batch : (OfflineEvent → Sent) → List OfflineEvent → OfflineQueue → OfflineQueue
sync_batch sent [] q = q
sync_batch sent (e ∷ es) q = sync_batch sent es (settle (sent e) e q)

abbrev pub batch_size : ℕ
batch_size = 50

-- `for (let i = 0; i < events.length; i += batchSize)`, on fuel.
pub sync_batches : ℕ → (OfflineEvent → Sent) → List OfflineEvent → OfflineQueue → OfflineQueue
sync_batches zero sent events q = q
sync_batches (suc fuel) sent events q = elim events [
  | [] ↦ q
  | e ∷ es ↦
      sync_batches fuel sent (drop batch_size (e ∷ es))
        (sync_batch sent (take batch_size (e ∷ es)) q)
]

pub record SyncReport : Type 0 where
  pub synced_count : ℕ
  pub failed_count : ℕ
  pub last_sync : ℕ

-- `processOfflineSync` from a queue to the queue after it and the report to the device, if one is
-- sent; `connected` is whether the device has a socket. Fuel: a round for each event is enough.
pub process_offline_sync :
    (OfflineEvent → Sent) → Bool → ℕ → OfflineQueue → OfflineQueue × Option SyncReport
unfolding sync_batches
process_offline_sync sent connected now q =
    if q.sync_in_progress
    then (q, none)
    else if not connected
    then (record q { sync_in_progress = false }, none)
    else let events = q.queued_events in
      let q' = sync_batches (length events) sent events (record q { sync_in_progress = true }) in
      (
        record q' { last_sync = now; sync_in_progress = false },
        some (record {
          synced_count = length events - length q'.queued_events;
          failed_count = length q'.queued_events;
          last_sync = now;
        }),
      )
