-- ===== src/Edge/Operations.antt =====
-- What reaches `EdgeDeviceManager` (integration-service/src/edge/device-manager.ts): the events of its
-- sockets, calls of its public methods, and its timers, as one sequence of operations.
pub mod Counted
use kpm_cursor.Base.{ℕ, String, Bool, Option, none, some, List, [], ◌∷◌, get_or}
use kpm_cursor.Edge.Types.{OfflineEvent}
use kpm_cursor.Edge.Manager.{Manager}
use kpm_cursor.Edge.Queue.{Sent}
use kpm_cursor.Edge.Updates.{
  OtaRequest, create_ota_update, check_scheduled_updates, Answer, process_update_response,
}
use kpm_cursor.Edge.Registry.{
  DeviceRequest, register_device, unregister_device, HeartbeatRequest, process_heartbeat,
}
use kpm_cursor.Edge.Monitor.{
  check_device_heartbeats, cleanup_old_heartbeats, process_error_report, ConfigurationRequest,
  update_device_configuration, process_configuration_ack,
}
use kpm_cursor.Edge.Offline.{
  EventRequest, queue_offline_event, process_scan_data, sync_device, force_sync_offline_queues,
}

-- The first text of `register` is the id that `generateDeviceId` returns, and a fresh UUID leads
-- `queue`, `scan` and `create_update`. `Sent` is what became of each `fetch`.
pub data Operation : Type 0 where
  register : String → String → DeviceRequest → Operation
  disconnect : String → Operation
  beat : String → HeartbeatRequest → Operation
  scan : String → String → Bool → Sent → String → Operation
  queue : String → String → EventRequest → Operation
  sync : (OfflineEvent → Sent) → String → Operation
  force_sync : (OfflineEvent → Sent) → Operation
  check_heartbeats : Operation
  cleanup_heartbeats : Operation
  create_update : String → OtaRequest → Operation
  check_updates : Operation
  respond : String → String → Answer → Operation
  configure : String → ConfigurationRequest → Operation
  acknowledge : String → Operation
  report_error : String → Bool → Operation

module _ (default_name : String → String) (text_length : String → ℕ)
    (rollout_count : ℕ → ℕ → ℕ) where
  -- One operation at a time; one that throws leaves the manager as it was.
  pub apply : ℕ → Operation → Manager → Manager
  apply now (register generated socket_id r) m =
      (register_device default_name generated now socket_id r m).0
  apply now (disconnect socket_id) m = unregister_device now socket_id m
  apply now (beat id r) m = process_heartbeat id now r m
  apply now (scan event_id id is_connected sent payload) m =
      process_scan_data text_length event_id now id is_connected sent payload m
  apply now (queue event_id id r) m = get_or (queue_offline_event text_length event_id now id r m) m
  apply now (sync sent id) m = sync_device sent now id m
  apply now (force_sync sent) m = force_sync_offline_queues sent now m
  apply now check_heartbeats m = check_device_heartbeats now m
  apply now cleanup_heartbeats m = cleanup_old_heartbeats now m
  apply now (create_update update_id r) m = (create_ota_update rollout_count update_id now r m).0
  apply now check_updates m = check_scheduled_updates rollout_count now m
  apply now (respond id update_id a) m = process_update_response id update_id a m
  apply now (configure id r) m = get_or (update_device_configuration id r m) m
  apply now (acknowledge id) m = process_configuration_ack id m
  apply now (report_error id is_critical) m = process_error_report id is_critical m

  -- Operations with their times.
  pub run : List (ℕ × Operation) → Manager → Manager
  unfolding apply
  run [] m = m
  run ((now, op) ∷ ops) m = run ops (apply now op m)
