-- ===== src/Edge/Monitor/Presence.antt =====
-- `checkDeviceHeartbeats` and `cleanupOldHeartbeats` (integration-service/src/edge/device-manager.ts).
use kpm_cursor.Base.{
  ℕ, ◌+◌, ◌≤◌, ◌≡◌, refl, sym, ap, ◌∙◌, String, some, [], ◌∷◌, All, arith, filter, length,
  Option-cases, get_or, inl, inr,
}
use mathlib.Core.Option
use kpm_cursor.Base.Dict
use kpm_cursor.Base.Dict.{Dict, get-map_values}
use kpm_cursor.Edge.Types.{online, DeviceInfo, DeviceHeartbeat}
use kpm_cursor.Edge.Manager.{Manager}
use kpm_cursor.Edge.Monitor.{
  is_online, timeout, has_timed_out, check_device, check_device_heartbeats, heartbeat_age, drop_old,
  cleanup_old_heartbeats, get_active_device_count, get_device,
}

check_device_online :
    (now : ℕ) (d : DeviceInfo)
    → (check_device now d).status ≡ online
    → (now ≤ d.last_seen + timeout) × (check_device now d ≡ d)
unfolding check_device
check_device_online now d h = ground (arith, h)

-- After a check at `now`, a device that is online was seen in the last five minutes, and the check
-- did not change it.
pub check_device_heartbeats-online :
    (now : ℕ) (id : String) (m : Manager) (d : DeviceInfo)
    → get_device id (check_device_heartbeats now m) ≡ some d
    → d.status ≡ online
    → (now ≤ d.last_seen + timeout) × (get_device id m ≡ some d)
unfolding check_device_heartbeats get_device
check_device_heartbeats-online now id m d found on =
    let checked = sym (get-map_values (check_device now) id m.active_devices) ∙ found in
    elim (Option-cases (Dict.get id m.active_devices)) [
      | inl e ↦ ground (arith, checked, e)
      | inr (d0, e) ↦
          let same : check_device now d0 ≡ d =
            ap (λ o. get_or o d) (sym (ap (Option.map (check_device now)) e) ∙ checked) in
          let (seen, unchanged) =
            check_device_online now d0 (ap (λ (x : DeviceInfo). x.status) same ∙ on) in
          let kept : d0 ≡ d = sym unchanged ∙ same in
          (omega (arith, seen, ap (λ (x : DeviceInfo). x.last_seen) kept), e ∙ ap some kept)
    ]

count_checked :
    (now : ℕ) (ds : Dict DeviceInfo)
    → length
          (filter (λ d. is_online d.status) (Dict.values (Dict.map_values (check_device now) ds)))
        + length (filter (has_timed_out now) (Dict.values ds))
      ≡ length (filter (λ d. is_online d.status) (Dict.values ds))
unfolding check_device
count_checked now [] = refl
count_checked now ((id, d) ∷ ds) = ground (arith, count_checked now ds)

-- A check lowers the number of active devices by exactly the devices that have timed out.
pub get_active_device_count-check :
    (now : ℕ) (m : Manager)
    → get_active_device_count (check_device_heartbeats now m)
        + length (filter (has_timed_out now) (Dict.values m.active_devices))
      ≡ get_active_device_count m
unfolding check_device_heartbeats get_active_device_count
get_active_device_count-check now m = count_checked now m.active_devices

drop_old-recent :
    (now : ℕ) (hs : Dict DeviceHeartbeat)
    → All (λ e. now ≤ e.1.timestamp + heartbeat_age) (drop_old now hs)
unfolding drop_old
drop_old-recent now [] = tt
drop_old-recent now ((id, h) ∷ hs) = ground (arith, drop_old-recent now hs)

-- After a cleanup no heartbeat is older than a day.
pub cleanup_old_heartbeats-recent :
    (now : ℕ) (m : Manager)
    → All
        (λ e. now ≤ e.1.timestamp + heartbeat_age)
        (cleanup_old_heartbeats now m).device_heartbeats
unfolding cleanup_old_heartbeats
cleanup_old_heartbeats-recent now m = drop_old-recent now m.device_heartbeats
