-- ===== src/Edge/Registry/Reconnect.antt =====
-- `registerDevice` and `unregisterDevice` (integration-service/src/edge/device-manager.ts), and a
-- device that reconnects on a new socket before its old one closes.
use mathlib.Core.Option
use kpm_cursor.Base.{
  ℕ, ◌≡◌, ◌≢◌, refl, ap, ◌∙◌, String, true, none, some, arith, Bool-cases, Option-cases, inl, inr,
  eq_iff, is_some,
}
use kpm_cursor.Base.Dict
use kpm_cursor.Base.Dict.{Dict, get-set_same, get-set_other, get-delete}
use kpm_cursor.Edge.Types.{online, offline, DeviceInfo}
use kpm_cursor.Edge.Manager.{Manager, Socket, or_text}
use kpm_cursor.Edge.Updates.Queues.{check_pending_updates-rest}
use kpm_cursor.Edge.Registry.{
  full_device_info, DeviceRequest, attach_socket, ensure_queue, register_device, unregister_device,
}

ensure_queue-rest :
    (id : String) (now : ℕ) (m : Manager)
    → ((ensure_queue id now m).active_devices ≡ m.active_devices)
      × ((ensure_queue id now m).device_sockets ≡ m.device_sockets)
      × ((ensure_queue id now m).io_sockets ≡ m.io_sockets)
      × (is_some (Dict.get id (ensure_queue id now m).offline_queues) ≡ true)
unfolding ensure_queue
ensure_queue-rest id now m = elim (Bool-cases (is_some (Dict.get id m.offline_queues))) [
  | inl e ↦ rw (e, ensure_queue) (refl, refl, refl, e)
  | inr e ↦ rw (e, ensure_queue) (refl, refl, refl, ap is_some (get-set_same id _ m.offline_queues))
]

attach_socket-rest :
    (socket_id id : String) (m : Manager) (s : Socket)
    → Dict.get socket_id m.io_sockets ≡ some s
    → ((attach_socket socket_id id m).active_devices ≡ m.active_devices)
      × (Dict.get id (attach_socket socket_id id m).device_sockets ≡ some socket_id)
      × (Option.map
            (λ x. x.device_id)
            (Dict.get socket_id (attach_socket socket_id id m).io_sockets)
          ≡ some (some id))
unfolding attach_socket
attach_socket-rest socket_id id m s known =
    rw (known, attach_socket)
      (
        refl,
        get-set_same id socket_id m.device_sockets,
        ap (Option.map (λ (x : Socket). x.device_id)) (get-set_same socket_id _ m.io_sockets),
      )

module _ (default_name : String → String) (generated : String) (now : ℕ) where
  -- Registering a device under its own id on a socket of the server stores it online, maps it to that
  -- socket, tells the socket its id, and gives it a queue, an old one if it had one.
  pub register_device-connected :
      (socket_id id : String) (r : DeviceRequest) (m : Manager) (s : Socket)
      → Dict.get socket_id m.io_sockets ≡ some s
      → or_text r.device_id generated ≡ id
      → let (m', d) = register_device default_name generated now socket_id r m in
        (Dict.get id m'.active_devices ≡ some d)
        × (d.status ≡ online)
        × (Dict.get id m'.device_sockets ≡ some socket_id)
        × (Option.map (λ x. x.device_id) (Dict.get socket_id m'.io_sockets) ≡ some (some id))
        × (is_some (Dict.get id m'.offline_queues) ≡ true)
  unfolding register_device
  register_device-connected socket_id id r m s known same =
      let stored : Manager = record m {
        active_devices = Dict.set id (full_device_info default_name id now r) m.active_devices;
      } in
      let attached = attach_socket socket_id id stored in
      let (devices, sockets, told) = attach_socket-rest socket_id id stored s known in
      let (devices', sockets', told', queued) = ensure_queue-rest id now attached in
      let (devices'', sockets'', told'', queued') =
        check_pending_updates-rest id (ensure_queue id now attached) in
      rw same (
        ap (Dict.get id) (devices'' ∙ devices' ∙ devices)
            ∙ get-set_same id (full_device_info default_name id now r) m.active_devices,
        refl,
        ap (Dict.get id) (sockets'' ∙ sockets') ∙ sockets,
        ap (λ ss. Option.map (λ (x : Socket). x.device_id) (Dict.get socket_id ss)) (told'' ∙ told')
            ∙ told,
        ap (λ qs. is_some (Dict.get id qs)) queued' ∙ queued,
      )

-- Disconnecting a socket that was told the id of a known device takes that device offline, leaves its
-- queue, and removes its socket.
pub unregister_device-known :
    (now : ℕ) (socket_id id : String) (m : Manager) (s : Socket) (d : DeviceInfo)
    → Dict.get socket_id m.io_sockets ≡ some s
    → s.device_id ≡ some id
    → Dict.get id m.active_devices ≡ some d
    → let m' = unregister_device now socket_id m in
      (Dict.get id m'.active_devices ≡ some (record d { status = offline; last_seen = now }))
      × (Dict.get id m'.device_sockets ≡ none)
      × (m'.offline_queues ≡ m.offline_queues)
unfolding unregister_device
unregister_device-known now socket_id id m s d known told found =
    rw (known, told, found, unregister_device)
      (
        get-set_same id _ m.active_devices,
        ground (arith, eq_iff id id, get-delete id id m.device_sockets),
        refl,
      )

attach_socket-other :
    (new old id : String) (m : Manager)
    → old ≢ new
    → Dict.get old (attach_socket new id m).io_sockets ≡ Dict.get old m.io_sockets
unfolding attach_socket
attach_socket-other new old id m apart = elim (Option-cases (Dict.get new m.io_sockets)) [
  | inl e ↦ rw (e, attach_socket) refl
  | inr (s, e) ↦ rw (e, attach_socket) (get-set_other new old _ m.io_sockets apart)
]

register_device-other_socket :
    (default_name : String → String) (generated : String) (now : ℕ) (new old : String)
    (r : DeviceRequest) (m : Manager)
    → old ≢ new
    → Dict.get old (register_device default_name generated now new r m).0.io_sockets
      ≡ Dict.get old m.io_sockets
unfolding register_device
register_device-other_socket default_name generated now new old r m apart =
    let id = or_text r.device_id generated in
    let stored : Manager = record m {
      active_devices = Dict.set id (full_device_info default_name id now r) m.active_devices;
    } in
    let attached = attach_socket new id stored in
    let (_, _, told', _) = ensure_queue-rest id now attached in
    let (_, _, told'', _) = check_pending_updates-rest id (ensure_queue id now attached) in
    ap (Dict.get old) (told'' ∙ told') ∙ attach_socket-other new old id stored apart

-- A device that was registered on one socket and reconnects on another before the first closes is
-- offline, and not reachable on either, once the first closes.
pub reconnect_then_close :
    (default_name : String → String) (generated : String) (now later : ℕ) (old new id : String)
    (r : DeviceRequest) (m : Manager) (s t : Socket)
    → old ≢ new
    → Dict.get old m.io_sockets ≡ some s
    → s.device_id ≡ some id
    → Dict.get new m.io_sockets ≡ some t
    → or_text r.device_id generated ≡ id
    → let m' = unregister_device later old (register_device default_name generated now new r m).0 in
      (Option.map (λ x. x.status) (Dict.get id m'.active_devices) ≡ some offline)
      × (Dict.get id m'.device_sockets ≡ none)
reconnect_then_close default_name generated now later old new id r m s t apart known told free
      same =
    let registered = register_device default_name generated now new r m in
    let (found, _, _, _, _) =
      register_device-connected default_name generated now new id r m t free same in
    let known' : Dict.get old registered.0.io_sockets ≡ some s =
      register_device-other_socket default_name generated now new old r m apart ∙ known in
    let (gone, unreachable, _) =
      unregister_device-known later old id registered.0 s registered.1 known' told found in
    (ap (Option.map (λ (x : DeviceInfo). x.status)) gone, unreachable)
