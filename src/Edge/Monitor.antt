-- ===== src/Edge/Monitor.antt =====
-- Presence and configuration of registered devices: `checkDeviceHeartbeats`, `cleanupOldHeartbeats`,
-- `processErrorReport`, `updateDeviceConfiguration`, `processConfigurationAck` and the getters of
-- integration-service/src/edge/device-manager.ts.
pub mod Presence
pub mod Queues
use kpm_cursor.Base.{
  ℕ, ◌-◌, ◌*◌, String, Bool, true, false, ◌&&◌, not, Option, none, some, List, [], ◌∷◌, ◌++◌, map,
  filter, length, str_eq, ltb, leb, get_or, if◌then◌else◌,
}
use kpm_cursor.Base.Dict
use kpm_cursor.Base.Dict.{Dict}
use kpm_cursor.Edge.Types.{
  DeviceStatus, online, offline, maintenance, error, DeviceConfiguration, ScanningMode, DeviceInfo,
  DeviceHeartbeat, OtaUpdate, OfflineQueue,
}
use kpm_cursor.Edge.Manager.{
  Manager, Outgoing, config_update, Signal, device_timeout, configuration_updated,
  configuration_acknowledged, device_error,
}

abbrev pub is_online : DeviceStatus → Bool
is_online online = true
is_online _ = false

-- Five minutes.
abbrev pub timeout : ℕ
timeout = 5 * 60 * 1000

-- `ℕ` subtraction: a device seen after `now` has been silent for no time.
abbrev pub has_timed_out : ℕ → DeviceInfo → Bool
has_timed_out now d = ltb timeout (now - d.last_seen) && is_online d.status

unfoldable pub check_device : ℕ → DeviceInfo → DeviceInfo
check_device now d = if has_timed_out now d then record d { status = offline } else d

unfoldable pub check_device_heartbeats : ℕ → Manager → Manager
unfolding check_device
check_device_heartbeats now m =
    let late = filter (has_timed_out now) (Dict.values m.active_devices) in
    record m {
      active_devices = Dict.map_values (check_device now) m.active_devices;
      emitted = m.emitted ++ map (λ d. device_timeout (check_device now d)) late;
    }

-- One day.
abbrev pub heartbeat_age : ℕ
heartbeat_age = 24 * 60 * 60 * 1000

pub drop_old : ℕ → Dict DeviceHeartbeat → Dict DeviceHeartbeat
drop_old now [] = []
drop_old now ((id, h) ∷ rest) =
    if ltb h.timestamp (now - heartbeat_age) then drop_old now rest else (id, h) ∷ drop_old now rest

pub cleanup_old_heartbeats : ℕ → Manager → Manager
unfolding drop_old
cleanup_old_heartbeats now m = record m { device_heartbeats = drop_old now m.device_heartbeats }

-- `is_critical` is whether the report's severity is CRITICAL.
pub process_error_report : String → Bool → Manager → Manager
process_error_report id is_critical m =
    let marked : Dict DeviceInfo = elim (Dict.get id m.active_devices) [
      | none ↦ m.active_devices
      | some d ↦
          if is_critical
          then Dict.set id (record d { status = error }) m.active_devices
          else m.active_devices
    ] in
    record m { active_devices = marked; emitted = m.emitted ++ device_error id ∷ [] }

-- `Partial<DeviceConfiguration>`
pub record ConfigurationRequest : Type 0 where
  pub scanning_mode : Option ScanningMode
  pub sync_interval : Option ℕ
  pub offline_storage_limit : Option ℕ
  pub compression_enabled : Option Bool
  pub encryption_enabled : Option Bool
  pub auto_update_enabled : Option Bool
  pub debug_mode : Option Bool
  pub custom_settings : Option String

-- `{ ...device.configuration, ...config }`
pub merge_configuration : DeviceConfiguration → ConfigurationRequest → DeviceConfiguration
merge_configuration c r = record {
  scanning_mode = get_or r.scanning_mode c.scanning_mode;
  sync_interval = get_or r.sync_interval c.sync_interval;
  offline_storage_limit = get_or r.offline_storage_limit c.offline_storage_limit;
  compression_enabled = get_or r.compression_enabled c.compression_enabled;
  encryption_enabled = get_or r.encryption_enabled c.encryption_enabled;
  auto_update_enabled = get_or r.auto_update_enabled c.auto_update_enabled;
  debug_mode = get_or r.debug_mode c.debug_mode;
  custom_settings = get_or r.custom_settings c.custom_settings;
}

abbrev send_configuration : Option String → DeviceConfiguration → List Outgoing
send_configuration none c = []
send_configuration (some socket) c = config_update socket c ∷ []

-- `none` is the error that the device is not found.
pub update_device_configuration : String → ConfigurationRequest → Manager → Option Manager
unfolding merge_configuration
update_device_configuration id r m = elim (Dict.get id m.active_devices) [
  | none ↦ none
  | some d ↦
      let c = merge_configuration d.configuration r in
      some (record m {
        active_devices = Dict.set id (record d { configuration = c }) m.active_devices;
        outbox = m.outbox ++ send_configuration (Dict.get id m.device_sockets) c;
        emitted = m.emitted ++ configuration_updated id c ∷ [];
      })
]

pub process_configuration_ack : String → Manager → Manager
process_configuration_ack id m = record m {
  emitted = m.emitted ++ configuration_acknowledged id ∷ [];
}

pub get_active_device_count : Manager → ℕ
get_active_device_count m = length (filter (λ d. is_online d.status) (Dict.values m.active_devices))

pub get_all_devices : Manager → List DeviceInfo
get_all_devices m = Dict.values m.active_devices

unfoldable pub get_device : String → Manager → Option DeviceInfo
get_device id m = Dict.get id m.active_devices

pub get_devices_by_company : String → Manager → List DeviceInfo
get_devices_by_company company m =
    filter (λ d. str_eq d.company_id company) (Dict.values m.active_devices)

pub get_devices_by_location : String → Manager → List DeviceInfo
get_devices_by_location place m =
    filter (λ d. str_eq d.location place) (Dict.values m.active_devices)

pub get_offline_queue_status : String → Manager → Option OfflineQueue
get_offline_queue_status id m = Dict.get id m.offline_queues

pub get_ota_update_status : String → Manager → Option OtaUpdate
get_ota_update_status id m = Dict.get id m.ota_updates
