-- ===== src/Edge/Types.antt =====
-- The interfaces of integration-service/src/edge/device-manager.ts. Times are milliseconds, shares are
-- whole percents, and a JSON value that the manager only passes on is its text.
use kpm_cursor.Base.{ℕ, String, Bool, Option, List}
pub use kpm_cursor.Base.Integers.{ℤ, pos, negsuc}

pub data DeviceType : Type 0 where
  scanner tablet raspberry_pi embedded gateway sensor : DeviceType

pub DeviceType-discrete : Discrete DeviceType
DeviceType-discrete = hlevel

pub data DeviceStatus : Type 0 where
  online offline maintenance error : DeviceStatus

pub DeviceStatus-discrete : Discrete DeviceStatus
DeviceStatus-discrete = hlevel

pub data CapabilityType : Type 0 where
  barcode_scan rfid_read nfc camera gps wifi cellular bluetooth sensors : CapabilityType

pub record DeviceCapability : Type 0 where
  pub kind : CapabilityType
  pub enabled : Bool

pub data ScanningMode : Type 0 where
  continuous triggered batch : ScanningMode

pub record DeviceConfiguration : Type 0 where
  pub scanning_mode : ScanningMode
  pub sync_interval : ℕ
  pub offline_storage_limit : ℕ
  pub compression_enabled : Bool
  pub encryption_enabled : Bool
  pub auto_update_enabled : Bool
  pub debug_mode : Bool
  pub custom_settings : String

pub record DeviceInfo : Type 0 where
  pub device_id : String
  pub device_type : DeviceType
  pub device_name : String
  pub location : String
  pub company_id : String
  pub mac_address : String
  pub ip_address : String
  pub firmware_version : String
  pub hardware_version : String
  pub operating_system : String
  pub battery_level : Option ℕ
  -- in dBm
  pub signal_strength : Option ℤ
  pub last_seen : ℕ
  pub status : DeviceStatus
  pub capabilities : List DeviceCapability
  pub configuration : DeviceConfiguration

pub data NetworkStatus : Type 0 where
  connected disconnected limited : NetworkStatus

pub record DeviceHeartbeat : Type 0 where
  pub device_id : String
  pub timestamp : ℕ
  pub battery_level : Option ℕ
  -- in dBm
  pub signal_strength : Option ℤ
  pub memory_usage : ℕ
  pub storage_usage : ℕ
  pub cpu_usage : ℕ
  pub network_status : NetworkStatus
  pub last_sync_time : Option ℕ
  pub error_count : ℕ
  pub warning_count : ℕ
  pub pending_updates : Bool

pub data UpdateStatus : Type 0 where
  pending deploying completed failed cancelled : UpdateStatus

pub record OtaUpdate : Type 0 where
  pub update_id : String
  pub device_id : Option String
  pub device_type : Option DeviceType
  pub version : String
  pub release_notes : String
  pub package_url : String
  pub package_size : ℕ
  pub package_hash : String
  pub mandatory : Bool
  pub rollout_percentage : ℕ
  pub created_at : ℕ
  pub scheduled_at : Option ℕ
  pub status : UpdateStatus
  pub target_devices : List String
  pub completed_devices : List String
  pub failed_devices : List String

pub data EventPriority : Type 0 where
  low medium high critical : EventPriority

-- `payload` is the JSON text of `data`, and `size` its length.
pub record OfflineEvent : Type 0 where
  pub event_id : String
  pub timestamp : ℕ
  pub event_type : String
  pub payload : String
  pub retry_count : ℕ
  pub priority : EventPriority
  pub size : ℕ

pub record OfflineQueue : Type 0 where
  pub device_id : String
  pub queued_events : List OfflineEvent
  pub total_size : ℕ
  pub last_sync : ℕ
  pub sync_in_progress : Bool
