-- ===== src/Edge/Registry/Alerts.antt =====
-- `checkDeviceAlerts` (integration-service/src/edge/device-manager.ts).
use kpm_cursor.Base.{ℕ, ◌≤◌, ◌<◌, ◌≡◌, ◌⊎◌, ◌↔◌, Option, none, some, [], arith}
use kpm_cursor.Edge.Types.{ℤ, pos, negsuc, DeviceHeartbeat}
use kpm_cursor.Edge.Registry.{device_alerts}

-- A level that is missing, 0, or at least 20.
abbrev pub IsFineBattery : Option ℕ → Type 0
IsFineBattery none = Unit
IsFineBattery (some n) = (n ≡ 0) ⊎ (20 ≤ n)

-- A strength that is missing or at least -80.
abbrev pub IsFineSignal : Option ℤ → Type 0
IsFineSignal none = Unit
IsFineSignal (some (pos n)) = Unit
IsFineSignal (some (negsuc n)) = n < 80

-- A heartbeat raises no alert exactly when its battery level is missing, 0 or at least 20, its signal
-- missing or at least -80, its memory use at most 90, its storage use at most 85, and no error was
-- counted.
pub device_alerts-nil_iff :
    (h : DeviceHeartbeat)
    → (device_alerts h ≡ []) ↔ (
        IsFineBattery h.battery_level
        × IsFineSignal h.signal_strength
        × (h.memory_usage ≤ 90)
        × (h.storage_usage ≤ 85)
        × (h.error_count ≡ 0))
unfolding device_alerts
device_alerts-nil_iff h = ground arith
