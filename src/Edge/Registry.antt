-- ===== src/Edge/Registry.antt =====
-- Registration, heartbeats and configuration of devices (`registerDevice` to `checkDeviceAlerts`,
-- `updateDeviceConfiguration`, `processErrorReport`, `cleanupOldHeartbeats` and the getters of
-- integration-service/src/edge/device-manager.ts).
pub mod Reconnect
pub mod Alerts
pub mod Queues
use kpm_cursor.Base.{
  ℕ, zero, suc, ◌-◌, ◌*◌, String, Bool, true, false, ◌&&◌, not, Option, none, some, List, [], ◌∷◌,
  ◌++◌, filter, length, str_eq, ltb, ◌==◌, get_or, is_some, if◌then◌else◌,
}
use kpm_cursor.Base.Dict
use kpm_cursor.Base.Dict.{Dict}
use kpm_cursor.Edge.Types.{
  DeviceType, scanner, tablet, raspberry_pi, embedded, DeviceStatus, online, offline, error,
  CapabilityType, barcode_scan, rfid_read, camera, gps, wifi, cellular, bluetooth, sensors,
  DeviceCapability, triggered, ℤ, pos, negsuc, DeviceConfiguration, ScanningMode, DeviceInfo,
  NetworkStatus, connected, DeviceHeartbeat, OtaUpdate, OfflineQueue,
}
use kpm_cursor.Edge.Manager.{
  Manager, Socket, Alert, low_battery, weak_signal, high_memory, high_storage, errors_reported,
  config_update, Signal, device_registered, device_disconnected, heartbeat, device_timeout,
  device_alert, configuration_updated, configuration_acknowledged, device_error, or_text,
}
use kpm_cursor.Edge.Updates.{check_pending_updates}

abbrev scanner_capabilities : List DeviceCapability
scanner_capabilities =
    record { kind = barcode_scan; enabled = true }
    ∷ record { kind = wifi; enabled = true }
    ∷ record { kind = bluetooth; enabled = false }
    ∷ []

-- `getDefaultCapabilities`, which falls back on those of a scanner.
pub get_default_capabilities : DeviceType → List DeviceCapability
get_default_capabilities tablet =
    record { kind = barcode_scan; enabled = true }
    ∷ record { kind = camera; enabled = true }
    ∷ record { kind = gps; enabled = true }
    ∷ record { kind = wifi; enabled = true }
    ∷ record { kind = cellular; enabled = false }
    ∷ []
get_default_capabilities raspberry_pi =
    record { kind = barcode_scan; enabled = true }
    ∷ record { kind = rfid_read; enabled = false }
    ∷ record { kind = sensors; enabled = true }
    ∷ record { kind = wifi; enabled = true }
    ∷ []
get_default_capabilities embedded =
    record { kind = sensors; enabled = true } ∷ record { kind = wifi; enabled = true } ∷ []
get_default_capabilities _ = scanner_capabilities

abbrev pub get_default_configuration : DeviceConfiguration
get_default_configuration = record {
  scanning_mode = triggered;
  sync_interval = 15;
  offline_storage_limit = 10;
  compression_enabled = true;
  encryption_enabled = true;
  auto_update_enabled = true;
  debug_mode = false;
  custom_settings = "{}";
}

-- `Partial<DeviceInfo>`, as far as `registerDevice` reads it.
pub record DeviceRequest : Type 0 where
  pub device_id : Option String
  pub device_type : Option DeviceType
  pub device_name : Option String
  pub location : Option String
  pub company_id : Option String
  pub mac_address : Option String
  pub ip_address : Option String
  pub firmware_version : Option String
  pub hardware_version : Option String
  pub operating_system : Option String
  pub battery_level : Option ℕ
  pub signal_strength : Option ℤ
  pub capabilities : Option (List DeviceCapability)
  pub configuration : Option DeviceConfiguration

-- The registered device. `default_name` is `Device-` with the end of an id.
pub full_device_info : (String → String) → String → ℕ → DeviceRequest → DeviceInfo
unfolding get_default_capabilities
full_device_info default_name device_id now r = record {
  device_id = device_id;
  device_type = get_or r.device_type scanner;
  device_name = or_text r.device_name (default_name device_id);
  location = or_text r.location "UNKNOWN";
  company_id = or_text r.company_id "DEFAULT";
  mac_address = or_text r.mac_address "";
  ip_address = or_text r.ip_address "";
  firmware_version = or_text r.firmware_version "1.0.0";
  hardware_version = or_text r.hardware_version "1.0.0";
  operating_system = or_text r.operating_system "UNKNOWN";
  battery_level = r.battery_level;
  signal_strength = r.signal_strength;
  last_seen = now;
  status = online;
  capabilities = get_or r.capabilities (get_default_capabilities (get_or r.device_type scanner));
  configuration = get_or r.configuration get_default_configuration;
}

-- The part about the socket: the map, `socket.data.deviceId`, and one more set of handlers.
pub attach_socket : String → String → Manager → Manager
attach_socket socket_id id m = elim (Dict.get socket_id m.io_sockets) [
  | none ↦ m
  | some socket ↦ record m {
    device_sockets = Dict.set id socket_id m.device_sockets;
    io_sockets =
        Dict.set socket_id (record { device_id = some id; handlers = socket.handlers ++ id ∷ [] })
          m.io_sockets;
  }
]

pub ensure_queue : String → ℕ → Manager → Manager
ensure_queue id now m = if is_some (Dict.get id m.offline_queues) then m else record m {
  offline_queues =
      Dict.set id
        (record {
          device_id = id;
          queued_events = [];
          total_size = 0;
          last_sync = now;
          sync_in_progress = false;
        })
        m.offline_queues;
}

-- `generated` is the result of `generateDeviceId`.
pub register_device :
    (String → String) → String → ℕ → String → DeviceRequest → Manager → Manager × DeviceInfo
unfolding full_device_info attach_socket ensure_queue
register_device default_name generated now socket_id r m =
    let id = or_text r.device_id generated in
    let d = full_device_info default_name id now r in
    let stored = record m { active_devices = Dict.set id d m.active_devices } in
    let ready =
      check_pending_updates id (ensure_queue id now (attach_socket socket_id id stored)) in
    (record ready { emitted = ready.emitted ++ device_registered d ∷ [] }, d)

-- What the disconnection of a socket does.
pub unregister_device : ℕ → String → Manager → Manager
unregister_device now socket_id m = elim (Dict.get socket_id m.io_sockets) [
  | none ↦ m
  | some socket ↦ elim socket.device_id [
    | none ↦ m
    | some id ↦ elim (Dict.get id m.active_devices) [
      | none ↦ m
      | some d ↦
          let gone = record d { status = offline; last_seen = now } in
          record m {
            active_devices = Dict.set id gone m.active_devices;
            device_sockets = Dict.delete id m.device_sockets;
            emitted = m.emitted ++ device_disconnected gone ∷ [];
          }
    ]
  ]
]

-- `Partial<DeviceHeartbeat>`
pub record HeartbeatRequest : Type 0 where
  pub battery_level : Option ℕ
  pub signal_strength : Option ℤ
  pub memory_usage : Option ℕ
  pub storage_usage : Option ℕ
  pub cpu_usage : Option ℕ
  pub network_status : Option NetworkStatus
  pub last_sync_time : Option ℕ
  pub error_count : Option ℕ
  pub warning_count : Option ℕ
  pub pending_updates : Option Bool

abbrev battery_alerts : Option ℕ → List Alert
battery_alerts none = []
battery_alerts (some zero) = []
battery_alerts (some (suc n)) = if ltb (suc n) 20 then low_battery (suc n) ∷ [] else []

-- `-(n + 1) < -80`
abbrev signal_alerts : Option ℤ → List Alert
signal_alerts none = []
signal_alerts (some (pos n)) = []
signal_alerts (some (negsuc n)) = if ltb 79 n then weak_signal (negsuc n) ∷ [] else []

-- The alerts of `checkDeviceAlerts`.
pub device_alerts : DeviceHeartbeat → List Alert
device_alerts h =
    battery_alerts h.battery_level
    ++ signal_alerts h.signal_strength
    ++ (if ltb 90 h.memory_usage then high_memory h.memory_usage ∷ [] else [])
    ++ (if ltb 85 h.storage_usage then high_storage h.storage_usage ∷ [] else [])
    ++ (if ltb 0 h.error_count then errors_reported h.error_count ∷ [] else [])

pub full_heartbeat : String → ℕ → HeartbeatRequest → DeviceHeartbeat
full_heartbeat id now r = record {
  device_id = id;
  timestamp = now;
  battery_level = r.battery_level;
  signal_strength = r.signal_strength;
  memory_usage = get_or r.memory_usage 0;
  storage_usage = get_or r.storage_usage 0;
  cpu_usage = get_or r.cpu_usage 0;
  network_status = get_or r.network_status connected;
  last_sync_time = r.last_sync_time;
  error_count = get_or r.error_count 0;
  warning_count = get_or r.warning_count 0;
  pending_updates = get_or r.pending_updates false;
}

pub process_heartbeat : String → ℕ → HeartbeatRequest → Manager → Manager
unfolding full_heartbeat device_alerts
process_heartbeat id now r m = elim (Dict.get id m.active_devices) [
  | none ↦ m
  | some device ↦
      let h = full_heartbeat id now r in
      let d = record device {
        last_seen = now;
        battery_level = r.battery_level;
        signal_strength = r.signal_strength;
        status = online;
      } in
      let alerts = device_alerts h in
      let alerted =
        if length alerts == 0 then m.emitted else m.emitted ++ device_alert d alerts h ∷ [] in
      record m {
        active_devices = Dict.set id d m.active_devices;
        device_heartbeats = Dict.set id h m.device_heartbeats;
        emitted = alerted ++ heartbeat d h ∷ [];
      }
]
