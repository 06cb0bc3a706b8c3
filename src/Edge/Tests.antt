-- ===== src/Edge/Tests.antt =====
-- A concrete offline queue (integration-service/src/edge/device-manager.ts): runs of the model, and
-- the theorems at inputs that meet their hypotheses.
pub mod Devices
use Prim.Native.String
use mathlib.Core.Option
use kpm_cursor.Base.{
  ℕ, ◌+◌, ◌*◌, ◌≤◌, ◌≡◌, ◌↔◌, inl, inr, refl, String, true, false, none, some, List, [], ◌∷◌,
  length, arith, All, filter, eq_iff, is_some,
}
use kpm_cursor.Base.Dict
use kpm_cursor.Edge.Types.{
  negsuc, EventPriority, low, high, critical, OfflineEvent, OfflineQueue, DeviceInfo, scanner,
  OtaUpdate, deploying, completed, online, offline, connected, DeviceHeartbeat,
}
use kpm_cursor.Edge.Manager.{Manager, Socket}
use kpm_cursor.Edge.Queue.{
  Sent, resolved, rejected, push_event, prune_offline_queue, process_offline_sync,
}
use kpm_cursor.Edge.Queue.Prune.{
  IsCounted, Pruned, prune_offline_queue-Pruned, push_event-IsCounted,
}
use kpm_cursor.Edge.Queue.Sync.{IsDistinct, survivors}
use kpm_cursor.Edge.Queue.Report.{
  resolved_count, given_up_count, process_offline_sync-survivors, process_offline_sync_idle,
  failing_sync, failing_sync_four,
}
use kpm_cursor.Edge.Updates.{done, failed_there, process_update_response}
use kpm_cursor.Edge.Updates.Responses.{
  answer_updates, IsAccounted, process_update_response-IsAccounted, answer_updates-few,
  one_device_answers_twice,
}
use kpm_cursor.Edge.Registry.{
  get_default_configuration, DeviceRequest, register_device, unregister_device, device_alerts,
}
use kpm_cursor.Edge.Registry.Reconnect.{
  register_device-connected, unregister_device-known, reconnect_then_close,
}
use kpm_cursor.Edge.Registry.Alerts.{IsFineBattery, IsFineSignal, device_alerts-nil_iff}
use kpm_cursor.Edge.Registry.Queues.{AllCounted}
use kpm_cursor.Edge.Monitor.{
  timeout, has_timed_out, check_device, check_device_heartbeats, heartbeat_age,
  cleanup_old_heartbeats, get_device, get_active_device_count,
}
use kpm_cursor.Edge.Monitor.Presence.{
  check_device_heartbeats-online, get_active_device_count-check, cleanup_old_heartbeats-recent,
}
use kpm_cursor.Edge.Operations.{register, queue, sync, disconnect, run}
use kpm_cursor.Edge.Operations.Counted.{run-AllCounted}

abbrev event : String → EventPriority → ℕ → ℕ → OfflineEvent
event id priority retries size = record {
  event_id = id;
  timestamp = 7;
  event_type = "SCAN";
  payload = "{}";
  retry_count = retries;
  priority = priority;
  size = size;
}

abbrev megabyte : ℕ
megabyte = 1024 * 1024

-- A new event, one that has failed three times, and one more; together more than one megabyte.
abbrev events : List OfflineEvent
events = event "a" low 0 megabyte ∷ event "b" critical 3 10 ∷ event "c" high 1 20 ∷ []

events-IsDistinct : IsDistinct events
events-IsDistinct = ground (arith, eq_iff "b" "a", eq_iff "c" "a", eq_iff "c" "b")

abbrev full : OfflineQueue
full = record {
  device_id = "dev";
  queued_events = events;
  total_size = megabyte + 30;
  last_sync = 0;
  sync_in_progress = false;
}

abbrev outcome : OfflineEvent → Sent
outcome e = elim e.priority [ low ↦ resolved | _ ↦ rejected ]

process_offline_sync-survivors_example :
    let (q', report) = process_offline_sync outcome true 9 full in
    (q'.queued_events ≡ survivors outcome events)
    × IsCounted q'
    × (q'.sync_in_progress ≡ false)
    × (report
        ≡ some (record {
          synced_count = resolved_count outcome events + given_up_count outcome events;
          failed_count = length (survivors outcome events);
          last_sync = 9;
        }))
process_offline_sync-survivors_example =
    process_offline_sync-survivors outcome 9 full refl events-IsDistinct refl

prune_offline_queue-Pruned_example : Pruned (1 * 1024 * 1024) full (prune_offline_queue full 1)
prune_offline_queue-Pruned_example = prune_offline_queue-Pruned full 1 refl
