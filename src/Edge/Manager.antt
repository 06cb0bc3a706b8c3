-- ===== src/Edge/Manager.antt =====
-- The state of `EdgeDeviceManager` (integration-service/src/edge/device-manager.ts): its maps, the
-- sockets of the server, what was sent to devices, and what was emitted to listeners.
use kpm_cursor.Base.{ℕ, String, Bool, Option, none, some, List, str_eq, if◌then◌else◌}
use kpm_cursor.Base.Dict.{Dict}
use kpm_cursor.Edge.Types.{
  ℤ, DeviceInfo, DeviceHeartbeat, DeviceConfiguration, OtaUpdate, OfflineEvent, OfflineQueue,
}
use kpm_cursor.Edge.Queue.{SyncReport}

-- `socket.data.deviceId`, and the devices whose handlers were added to the socket, oldest first.
pub record Socket : Type 0 where
  pub device_id : Option String
  pub handlers : List String

pub data Alert : Type 0 where
  low_battery : ℕ → Alert
  weak_signal : ℤ → Alert
  high_memory : ℕ → Alert
  high_storage : ℕ → Alert
  errors_reported : ℕ → Alert

-- The body of `update:available`.
pub record Offer : Type 0 where
  pub update_id : String
  pub version : String
  pub release_notes : String
  pub package_url : String
  pub package_size : ℕ
  pub package_hash : String
  pub mandatory : Bool

-- A message to a socket, by its id.
pub data Outgoing : Type 0 where
  update_available : String → Offer → Outgoing
  config_update : String → DeviceConfiguration → Outgoing
  sync_complete : String → SyncReport → Outgoing

pub data Signal : Type 0 where
  device_registered : DeviceInfo → Signal
  device_disconnected : DeviceInfo → Signal
  heartbeat : DeviceInfo → DeviceHeartbeat → Signal
  device_timeout : DeviceInfo → Signal
  device_alert : DeviceInfo → List Alert → DeviceHeartbeat → Signal
  ota_update_deployed : OtaUpdate → Signal
  ota_update_completed : OtaUpdate → Signal
  offline_event_queued : String → OfflineEvent → Signal
  configuration_updated : String → DeviceConfiguration → Signal
  configuration_acknowledged : String → Signal
  scan_data : String → Signal
  device_error : String → Signal

pub record Manager : Type 0 where
  pub io_sockets : Dict Socket
  pub active_devices : Dict DeviceInfo
  pub device_sockets : Dict String
  pub device_heartbeats : Dict DeviceHeartbeat
  pub ota_updates : Dict OtaUpdate
  pub offline_queues : Dict OfflineQueue
  pub outbox : List Outgoing
  pub emitted : List Signal

-- `text || d`: an absent or empty text is replaced.
abbrev pub or_text : Option String → String → String
or_text none d = d
or_text (some s) d = if str_eq s "" then d else s
