-- ===== src/Edge/Tests/Devices.antt =====
-- A concrete manager (integration-service/src/edge/device-manager.ts): runs of the model, and the
-- theorems at inputs that meet their hypotheses.
use Prim.Native.String
use kpm_cursor.Base.{ℕ, inl, refl, String, false, none, some, [], ◌∷◌, All}
use kpm_cursor.Edge.Types.{
  negsuc, DeviceInfo, scanner, OtaUpdate, deploying, online, connected, DeviceHeartbeat,
}
use kpm_cursor.Edge.Manager.{Manager, Socket}
use kpm_cursor.Edge.Updates.{failed_there, process_update_response}
use kpm_cursor.Edge.Updates.Responses.{IsAccounted, process_update_response-IsAccounted}
use kpm_cursor.Edge.Registry.{get_default_configuration, DeviceRequest}
use kpm_cursor.Edge.Registry.Queues.{AllCounted}
use kpm_cursor.Edge.Operations.{register, queue, sync, disconnect, run}
use kpm_cursor.Edge.Operations.Counted.{run-AllCounted}
use kpm_cursor.Edge.Tests.{full, outcome}

abbrev device_request : DeviceRequest
device_request = record {
  device_id = some "dev";
  device_type = none;
  device_name = some "Dock";
  location = none;
  company_id = none;
  mac_address = none;
  ip_address = none;
  firmware_version = none;
  hardware_version = none;
  operating_system = none;
  battery_level = some 80;
  signal_strength = some (negsuc 49);
  capabilities = none;
  configuration = none;
}

abbrev name_of : String → String
name_of id = String.◌++◌ "Device-" id

-- A server with two sockets, of which the first belongs to the device.
abbrev one_socket : Socket
one_socket = record { device_id = some "dev"; handlers = "dev" ∷ [] }

abbrev two_socket : Socket
two_socket = record { device_id = none; handlers = [] }

abbrev update : OtaUpdate
update = record {
  update_id = "u";
  device_id = none;
  device_type = none;
  version = "2.0.0";
  release_notes = "";
  package_url = "";
  package_size = 0;
  package_hash = "";
  mandatory = false;
  rollout_percentage = 100;
  created_at = 0;
  scheduled_at = none;
  status = deploying;
  target_devices = "dev" ∷ "other" ∷ [];
  completed_devices = [];
  failed_devices = [];
}

abbrev empty : Manager
empty = record {
  io_sockets = ("s1", one_socket) ∷ ("s2", two_socket) ∷ [];
  active_devices = [];
  device_sockets = [];
  device_heartbeats = [];
  ota_updates = ("u", update) ∷ [];
  offline_queues = ("dev", full) ∷ [];
  outbox = [];
  emitted = [];
}

abbrev device : DeviceInfo
device = record {
  device_id = "dev";
  device_type = scanner;
  device_name = "Dock";
  location = "UNKNOWN";
  company_id = "DEFAULT";
  mac_address = "";
  ip_address = "";
  firmware_version = "1.0.0";
  hardware_version = "1.0.0";
  operating_system = "UNKNOWN";
  battery_level = some 80;
  signal_strength = some (negsuc 49);
  last_seen = 100;
  status = online;
  capabilities = [];
  configuration = get_default_configuration;
}

-- A manager that knows the device.
abbrev knowing : DeviceInfo → Manager
knowing d = record empty { active_devices = ("dev", d) ∷ []; device_sockets = ("dev", "s1") ∷ [] }

run-AllCounted_example : AllCounted (
    run name_of String.len
      (λ n p. n)
      ((1, register "id" "s1" device_request)
        ∷ (
          2,
          queue "e" "dev" (record {
            timestamp = none;
            event_type = none;
            payload = some "{}";
            priority = none;
          }),
        )
        ∷ (3, sync outcome "dev")
        ∷ (4, disconnect "s1")
        ∷ [])
      empty)
run-AllCounted_example =
    run-AllCounted name_of String.len (λ n p. n)
      ((1, register "id" "s1" device_request)
        ∷ (
          2,
          queue "e" "dev" (record {
            timestamp = none;
            event_type = none;
            payload = some "{}";
            priority = none;
          }),
        )
        ∷ (3, sync outcome "dev")
        ∷ (4, disconnect "s1")
        ∷ [])
      empty (refl, tt)

process_update_response-IsAccounted_example :
    All (λ e. IsAccounted e.1) (process_update_response "dev" "u" failed_there empty).ota_updates
process_update_response-IsAccounted_example =
    process_update_response-IsAccounted "dev" "u" failed_there empty (inl refl, tt)

abbrev seen : ℕ → DeviceInfo
seen t = record device { last_seen = t }

abbrev beat_at : ℕ → DeviceHeartbeat
beat_at t = record {
  device_id = "dev";
  timestamp = t;
  battery_level = some 0;
  signal_strength = none;
  memory_usage = 95;
  storage_usage = 0;
  cpu_usage = 0;
  network_status = connected;
  last_sync_time = none;
  error_count = 0;
  warning_count = 0;
  pending_updates = false;
}

abbrev with_beat : Manager
with_beat = record empty { device_heartbeats = ("dev", beat_at 5) ∷ [] }
