-- ===== src/Edge/Registry/Queues.antt =====
-- The offline queues under registration, disconnection and heartbeats
-- (integration-service/src/edge/device-manager.ts).
use kpm_cursor.Base.{
  ℕ, ◌≡◌, refl, sym, String, All, Bool-cases, Option-cases, inl, inr, is_some, subst,
}
use kpm_cursor.Base.Dict
use kpm_cursor.Base.Dict.{Dict, All-set}
use kpm_cursor.Edge.Types.{OfflineQueue}
use kpm_cursor.Edge.Manager.{Manager, or_text}
use kpm_cursor.Edge.Queue.Prune.{IsCounted}
use kpm_cursor.Edge.Updates.Queues.{check_pending_updates-queues}
use kpm_cursor.Edge.Registry.{
  DeviceRequest, attach_socket, ensure_queue, register_device, unregister_device, HeartbeatRequest,
  process_heartbeat,
}

-- Every queue of the manager records the sum of its events' sizes.
abbrev pub AllCounted : Manager → Type 0
AllCounted m = All (λ e. IsCounted e.1) m.offline_queues

pub queue_put :
    (id : String) (q : OfflineQueue) (m : Manager)
    → IsCounted q
    → AllCounted m
    → All (λ e. IsCounted e.1) (Dict.set id q m.offline_queues)
queue_put id q m = All-set IsCounted id q m.offline_queues

ensure_queue-AllCounted :
    (id : String) (now : ℕ) (m : Manager) → AllCounted m → AllCounted (ensure_queue id now m)
unfolding ensure_queue
ensure_queue-AllCounted id now m h = elim (Bool-cases (is_some (Dict.get id m.offline_queues))) [
  | inl e ↦ rw (e, ensure_queue) h
  | inr e ↦ rw (e, ensure_queue) (queue_put id _ m refl h)
]

attach_socket-queues :
    (socket_id id : String) (m : Manager)
    → (attach_socket socket_id id m).offline_queues ≡ m.offline_queues
unfolding attach_socket
attach_socket-queues socket_id id m = elim (Option-cases (Dict.get socket_id m.io_sockets)) [
  | inl e ↦ rw (e, attach_socket) refl
  | inr (s, e) ↦ rw (e, attach_socket) refl
]

pub register_device-AllCounted :
    (default_name : String → String) (generated : String) (now : ℕ) (socket_id : String)
    (r : DeviceRequest) (m : Manager)
    → AllCounted m
    → AllCounted (register_device default_name generated now socket_id r m).0
unfolding register_device
register_device-AllCounted default_name generated now socket_id r m h =
    let id = or_text r.device_id generated in
    subst (All (λ e. IsCounted e.1)) (sym (check_pending_updates-queues id _)) (
      ensure_queue-AllCounted id now _
        (subst (All (λ e. IsCounted e.1)) (sym (attach_socket-queues socket_id id _)) h))

pub unregister_device-queues :
    (now : ℕ) (socket_id : String) (m : Manager)
    → (unregister_device now socket_id m).offline_queues ≡ m.offline_queues
unfolding unregister_device
unregister_device-queues now socket_id m = elim (Option-cases (Dict.get socket_id m.io_sockets)) [
  | inl e ↦ rw (e, unregister_device) refl
  | inr (s, e) ↦ elim (Option-cases s.device_id) [
    | inl f ↦ rw (e, f, unregister_device) refl
    | inr (id, f) ↦ elim (Option-cases (Dict.get id m.active_devices)) [
      | inl g ↦ rw (e, f, g, unregister_device) refl
      | inr (d, g) ↦ rw (e, f, g, unregister_device) refl
    ]
  ]
]

pub process_heartbeat-queues :
    (id : String) (now : ℕ) (r : HeartbeatRequest) (m : Manager)
    → (process_heartbeat id now r m).offline_queues ≡ m.offline_queues
unfolding process_heartbeat
process_heartbeat-queues id now r m = elim (Option-cases (Dict.get id m.active_devices)) [
  | inl e ↦ rw (e, process_heartbeat) refl
  | inr (d, e) ↦ rw (e, process_heartbeat) refl
]
