-- ===== src/Edge/Updates/Queues.antt =====
-- Devices, sockets and offline queues under updates
-- (integration-service/src/edge/device-manager.ts).
use kpm_cursor.Base.{ℕ, ◌≡◌, ◌∙◌, refl, String, List, [], ◌∷◌, Bool-cases, Option-cases, inl, inr}
use kpm_cursor.Base.Dict
use kpm_cursor.Edge.Types.{OtaUpdate}
use kpm_cursor.Edge.Manager.{Manager}
use kpm_cursor.Edge.Updates.{
  OtaRequest, deploy_ota_update, create_ota_update, is_due, deploy_due, check_scheduled_updates,
  check_pending_updates, Answer, process_update_response,
}

-- What checking for updates leaves alone.
pub check_pending_updates-rest :
    (id : String) (m : Manager)
    → ((check_pending_updates id m).active_devices ≡ m.active_devices)
      × ((check_pending_updates id m).device_sockets ≡ m.device_sockets)
      × ((check_pending_updates id m).io_sockets ≡ m.io_sockets)
      × ((check_pending_updates id m).offline_queues ≡ m.offline_queues)
unfolding check_pending_updates
check_pending_updates-rest id m = elim (Option-cases (Dict.get id m.device_sockets)) [
  | inl e ↦ rw (e, check_pending_updates) (refl, refl, refl, refl)
  | inr (s, e) ↦ rw (e, check_pending_updates) (refl, refl, refl, refl)
]

pub check_pending_updates-queues :
    (id : String) (m : Manager) → (check_pending_updates id m).offline_queues ≡ m.offline_queues
check_pending_updates-queues id m =
    let (_, _, _, queues) = check_pending_updates-rest id m in queues

pub process_update_response-queues :
    (id update_id : String) (a : Answer) (m : Manager)
    → (process_update_response id update_id a m).offline_queues ≡ m.offline_queues
unfolding process_update_response
process_update_response-queues id update_id a m =
    elim (Option-cases (Dict.get update_id m.ota_updates)) [
      | inl e ↦ rw (e, process_update_response) refl
      | inr (u, e) ↦ rw (e, process_update_response) refl
    ]

module _ (rollout_count : ℕ → ℕ → ℕ) where
  deploy_ota_update-queues :
      (update_id : String) (m : Manager)
      → (deploy_ota_update rollout_count update_id m).offline_queues ≡ m.offline_queues
  unfolding deploy_ota_update
  deploy_ota_update-queues update_id m = elim (Option-cases (Dict.get update_id m.ota_updates)) [
    | inl e ↦ rw (e, deploy_ota_update) refl
    | inr (u, e) ↦ rw (e, deploy_ota_update) refl
  ]

  pub create_ota_update-queues :
      (update_id : String) (now : ℕ) (r : OtaRequest) (m : Manager)
      → (create_ota_update rollout_count update_id now r m).0.offline_queues ≡ m.offline_queues
  unfolding create_ota_update
  create_ota_update-queues update_id now r m = elim (Option-cases r.scheduled_at) [
    | inl e ↦ rw (e, create_ota_update) (deploy_ota_update-queues update_id _)
    | inr (at, e) ↦ rw (e, create_ota_update) refl
  ]

  deploy_due-queues :
      (now : ℕ) (us : List OtaUpdate) (m : Manager)
      → (deploy_due rollout_count now us m).offline_queues ≡ m.offline_queues
  unfolding deploy_due
  deploy_due-queues now [] m = refl
  deploy_due-queues now (u ∷ us) m = elim (Bool-cases (is_due rollout_count now u)) [
    | inl e ↦
        rw (e, deploy_due)
          (deploy_due-queues now us (deploy_ota_update rollout_count u.update_id m)
            ∙ deploy_ota_update-queues u.update_id m)
    | inr e ↦ rw (e, deploy_due) (deploy_due-queues now us m)
  ]

  pub check_scheduled_updates-queues :
      (now : ℕ) (m : Manager)
      → (check_scheduled_updates rollout_count now m).offline_queues ≡ m.offline_queues
  unfolding check_scheduled_updates
  check_scheduled_updates-queues now m = deploy_due-queues now (Dict.values m.ota_updates) m
