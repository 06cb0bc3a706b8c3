-- ===== src/Edge/Operations/Counted.antt =====
-- The recorded sizes of all queues under any operations
-- (integration-service/src/edge/device-manager.ts).
use kpm_cursor.Base.{ℕ, ◌≡◌, sym, subst, String, List, [], ◌∷◌, All}
use kpm_cursor.Base.Dict.{Dict}
use kpm_cursor.Edge.Types.{OfflineQueue}
use kpm_cursor.Edge.Manager.{Manager}
use kpm_cursor.Edge.Queue.Prune.{IsCounted}
use kpm_cursor.Edge.Updates.Queues.{
  process_update_response-queues, create_ota_update-queues, check_scheduled_updates-queues,
}
use kpm_cursor.Edge.Registry.Queues.{
  AllCounted, register_device-AllCounted, unregister_device-queues, process_heartbeat-queues,
}
use kpm_cursor.Edge.Monitor.Queues.{
  check_device_heartbeats-queues, cleanup_old_heartbeats-queues, process_error_report-queues,
  process_configuration_ack-queues, update_device_configuration-queues,
}
use kpm_cursor.Edge.Offline.Counted.{
  queue_offline_event-AllCounted, process_scan_data-AllCounted, sync_device-AllCounted,
  force_sync-AllCounted,
}
use kpm_cursor.Edge.Operations.{
  Operation, register, disconnect, beat, scan, queue, sync, force_sync, check_heartbeats,
  cleanup_heartbeats, create_update, check_updates, respond, configure, acknowledge, report_error,
  apply, run,
}

keep :
    {qs qs' : Dict OfflineQueue}
    → qs' ≡ qs
    → All (λ e. IsCounted e.1) qs
    → All (λ e. IsCounted e.1) qs'
keep same = subst (All (λ e. IsCounted e.1)) (sym same)

module _ (default_name : String → String) (text_length : String → ℕ)
    (rollout_count : ℕ → ℕ → ℕ) where
  apply-AllCounted :
      (now : ℕ) (op : Operation) (m : Manager)
      → AllCounted m
      → AllCounted (apply default_name text_length rollout_count now op m)
  unfolding apply
  apply-AllCounted now (register generated socket_id r) m h =
      register_device-AllCounted default_name generated now socket_id r m h
  apply-AllCounted now (disconnect socket_id) m h =
      keep (unregister_device-queues now socket_id m) h
  apply-AllCounted now (beat id r) m h = keep (process_heartbeat-queues id now r m) h
  apply-AllCounted now (scan event_id id c sent payload) m h =
      process_scan_data-AllCounted text_length event_id now id c sent payload m h
  apply-AllCounted now (queue event_id id r) m h =
      queue_offline_event-AllCounted text_length event_id now id r m h
  apply-AllCounted now (sync sent id) m h = sync_device-AllCounted sent now id m h
  apply-AllCounted now (force_sync sent) m h = force_sync-AllCounted sent now m h
  apply-AllCounted now check_heartbeats m h = keep (check_device_heartbeats-queues now m) h
  apply-AllCounted now cleanup_heartbeats m h = keep (cleanup_old_heartbeats-queues now m) h
  apply-AllCounted now (create_update update_id r) m h =
      keep (create_ota_update-queues rollout_count update_id now r m) h
  apply-AllCounted now check_updates m h =
      keep (check_scheduled_updates-queues rollout_count now m) h
  apply-AllCounted now (respond id update_id a) m h =
      keep (process_update_response-queues id update_id a m) h
  apply-AllCounted now (configure id r) m h = keep (update_device_configuration-queues id r m) h
  apply-AllCounted now (acknowledge id) m h = keep (process_configuration_ack-queues id m) h
  apply-AllCounted now (report_error id c) m h = keep (process_error_report-queues id c m) h

  -- Whatever operations run, in whatever order, and whatever becomes of their `fetch` calls: if every
  -- offline queue recorded the sum of its events' sizes before, every queue does afterwards.
  pub run-AllCounted :
      (ops : List (ℕ × Operation)) (m : Manager)
      → AllCounted m
      → AllCounted (run default_name text_length rollout_count ops m)
  unfolding run
  run-AllCounted [] m h = h
  run-AllCounted ((now, op) ∷ ops) m h =
      run-AllCounted ops (apply default_name text_length rollout_count now op m)
        (apply-AllCounted now op m h)
