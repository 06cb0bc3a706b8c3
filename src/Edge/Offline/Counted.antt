-- ===== src/Edge/Offline/Counted.antt =====
-- The recorded sizes of all queues under the operations on offline events
-- (integration-service/src/edge/device-manager.ts).
use kpm_cursor.Base.{
  ℕ, String, Bool, true, false, List, [], ◌∷◌, Bool-cases, Option-cases, inl, inr, get_or, map,
}
use kpm_cursor.Base.Dict
use kpm_cursor.Base.Dict.{Dict, All-set, All-get}
use kpm_cursor.Edge.Types.{OfflineEvent}
use kpm_cursor.Edge.Manager.{Manager}
use kpm_cursor.Edge.Registry.Queues.{AllCounted, queue_put}
use kpm_cursor.Edge.Queue.{Sent, resolved, rejected}
use kpm_cursor.Edge.Queue.Counted.{process_offline_sync-IsCounted}
use kpm_cursor.Edge.Queue.Prune.{IsCounted, push_event-IsCounted}
use kpm_cursor.Edge.Offline.{
  wants_sync, scan_request, EventRequest, full_event, storage_limit, queue_offline_event,
  process_scan_data, sync_device, sync_each, force_sync_offline_queues,
}

pub sync_device-AllCounted :
    (sent : OfflineEvent → Sent) (now : ℕ) (id : String) (m : Manager)
    → AllCounted m
    → AllCounted (sync_device sent now id m)
unfolding sync_device
sync_device-AllCounted sent now id m h = elim (Option-cases (Dict.get id m.offline_queues)) [
  | inl e ↦ rw (e, sync_device) h
  | inr (q, e) ↦
      rw (e, sync_device)
        (queue_put id _ m
          (process_offline_sync-IsCounted sent _ now q
            (All-get IsCounted id m.offline_queues {v = q} h e))
          h)
]

pub sync_each-AllCounted :
    (sent : OfflineEvent → Sent) (now : ℕ) (ids : List String) (m : Manager)
    → AllCounted m
    → AllCounted (sync_each sent now ids m)
unfolding sync_each
sync_each-AllCounted sent now [] m h = h
sync_each-AllCounted sent now (id ∷ ids) m h = elim (Bool-cases (wants_sync id m)) [
  | inl e ↦
      rw (e, sync_each)
        (sync_each-AllCounted sent now ids (sync_device sent now id m)
          (sync_device-AllCounted sent now id m h))
  | inr e ↦ rw (e, sync_each) (sync_each-AllCounted sent now ids m h)
]

module _ (text_length : String → ℕ) where
  pub queue_offline_event-AllCounted :
      (event_id : String) (now : ℕ) (id : String) (r : EventRequest) (m : Manager)
      → AllCounted m
      → AllCounted (get_or (queue_offline_event text_length event_id now id r m) m)
  unfolding queue_offline_event
  queue_offline_event-AllCounted event_id now id r m h =
      elim (Option-cases (Dict.get id m.offline_queues)) [
        | inl e ↦ rw (e, queue_offline_event) h
        | inr (q, e) ↦ elim (Option-cases r.payload) [
          | inl f ↦ rw (e, f, queue_offline_event) h
          | inr (payload, f) ↦
              rw (e, f, queue_offline_event)
                (queue_put id _ m
                  (push_event-IsCounted (full_event text_length event_id now r payload)
                    (storage_limit (Dict.get id m.active_devices)) q
                    (All-get IsCounted id m.offline_queues {v = q} h e)).0
                  h)
        ]
      ]

  pub process_scan_data-AllCounted :
      (event_id : String) (now : ℕ) (id : String) (c : Bool) (s : Sent) (payload : String)
      (m : Manager)
      → AllCounted m
      → AllCounted (process_scan_data text_length event_id now id c s payload m)
  unfolding process_scan_data
  process_scan_data-AllCounted event_id now id false s payload m h =
      queue_offline_event-AllCounted event_id now id (scan_request payload) m h
  process_scan_data-AllCounted event_id now id true resolved payload m h = h
  process_scan_data-AllCounted event_id now id true rejected payload m h =
      queue_offline_event-AllCounted event_id now id (scan_request payload) _ h

pub force_sync-AllCounted :
    (sent : OfflineEvent → Sent) (now : ℕ) (m : Manager)
    → AllCounted m
    → AllCounted (force_sync_offline_queues sent now m)
unfolding force_sync_offline_queues
force_sync-AllCounted sent now m = sync_each-AllCounted sent now (map (λ e. e.0) m.offline_queues) m
