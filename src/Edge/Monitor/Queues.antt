-- ===== src/Edge/Monitor/Queues.antt =====
-- The offline queues under monitoring and configuration
-- (integration-service/src/edge/device-manager.ts).
use kpm_cursor.Base.{ℕ, ◌≡◌, refl, String, Bool, Option-cases, inl, inr, get_or}
use kpm_cursor.Base.Dict
use kpm_cursor.Edge.Manager.{Manager}
use kpm_cursor.Edge.Monitor.{
  check_device_heartbeats, cleanup_old_heartbeats, process_error_report, ConfigurationRequest,
  update_device_configuration, process_configuration_ack,
}

pub check_device_heartbeats-queues :
    (now : ℕ) (m : Manager) → (check_device_heartbeats now m).offline_queues ≡ m.offline_queues
unfolding check_device_heartbeats
check_device_heartbeats-queues now m = refl

pub cleanup_old_heartbeats-queues :
    (now : ℕ) (m : Manager) → (cleanup_old_heartbeats now m).offline_queues ≡ m.offline_queues
unfolding cleanup_old_heartbeats
cleanup_old_heartbeats-queues now m = refl

pub process_error_report-queues :
    (id : String) (is_critical : Bool) (m : Manager)
    → (process_error_report id is_critical m).offline_queues ≡ m.offline_queues
unfolding process_error_report
process_error_report-queues id is_critical m = refl

pub process_configuration_ack-queues :
    (id : String) (m : Manager) → (process_configuration_ack id m).offline_queues ≡ m.offline_queues
unfolding process_configuration_ack
process_configuration_ack-queues id m = refl

pub update_device_configuration-queues :
    (id : String) (r : ConfigurationRequest) (m : Manager)
    → (get_or (update_device_configuration id r m) m).offline_queues ≡ m.offline_queues
unfolding update_device_configuration
update_device_configuration-queues id r m = elim (Option-cases (Dict.get id m.active_devices)) [
  | inl e ↦ rw (e, update_device_configuration) refl
  | inr (d, e) ↦ rw (e, update_device_configuration) refl
]
