-- ===== src/Edge/Updates.antt =====
-- Over-the-air updates: `createOTAUpdate`, `deployOTAUpdate`, `checkPendingUpdates`,
-- `processUpdateResponse` and `checkScheduledUpdates` of
-- integration-service/src/edge/device-manager.ts. `Math.ceil(n * (percentage / 100))` is floating-point
-- arithmetic and stands as the parameter `rollout_count`.
pub mod Responses
pub mod Queues
use kpm_cursor.Base.{
  ℕ, zero, suc, ◌+◌, String, Bool, true, false, not, ◌&&◌, ◌||◌, Option, none, some, List, [], ◌∷◌,
  ◌++◌, map, filter, any, length, take, str_eq, leb, ◌==◌, get_or, if◌then◌else◌,
}
use kpm_cursor.Base.Dict
use kpm_cursor.Base.Dict.{Dict}
use kpm_cursor.Edge.Types.{
  DeviceType, DeviceType-discrete, DeviceInfo, OtaUpdate, UpdateStatus, pending, deploying,
  completed, failed, cancelled,
}
use kpm_cursor.Edge.Manager.{
  Manager, Offer, Outgoing, update_available, Signal, ota_update_deployed, ota_update_completed,
  or_text,
}
use mathlib.Core.Logic.{ite}

-- `Partial<OTAUpdate>`, as far as it is read.
pub record OtaRequest : Type 0 where
  pub device_id : Option String
  pub device_type : Option DeviceType
  pub version : Option String
  pub release_notes : Option String
  pub package_url : Option String
  pub package_size : Option ℕ
  pub package_hash : Option String
  pub mandatory : Option Bool
  pub rollout_percentage : Option ℕ
  pub scheduled_at : Option ℕ
  pub target_devices : Option (List String)

abbrev pub includes : String → List String → Bool
includes x = any (λ y. str_eq y x)

-- `percentage || 100`: no percentage and 0 both mean 100.
pub rollout_or_full : Option ℕ → ℕ
rollout_or_full none = 100
rollout_or_full (some zero) = 100
rollout_or_full (some (suc n)) = suc n

-- Whether a device is one of the wanted type, if one is wanted.
abbrev is_of_type : Option DeviceType → DeviceInfo → Bool
is_of_type none d = true
is_of_type (some t) d = ite (DeviceType-discrete d.device_type t) true false

-- An update for one device, for the devices that are listed, or for all of a type.
pub choose_targets : OtaRequest → Dict DeviceInfo → List String
choose_targets r devices =
    let listed = get_or r.target_devices [] in
    let one = or_text r.device_id "" in
    if not (str_eq one "")
    then one ∷ []
    else if length listed == 0
    then map (λ d. d.device_id) (filter (is_of_type r.device_type) (Dict.values devices))
    else listed

pub offer_of : OtaUpdate → Offer
offer_of u = record {
  update_id = u.update_id;
  version = u.version;
  release_notes = u.release_notes;
  package_url = u.package_url;
  package_size = u.package_size;
  package_hash = u.package_hash;
  mandatory = u.mandatory;
}

-- The offers to those of the devices that have a socket.
pub send_offers : OtaUpdate → List String → Dict String → List Outgoing
unfolding offer_of
send_offers u [] sockets = []
send_offers u (id ∷ ids) sockets =
    let rest = send_offers u ids sockets in
    elim (Dict.get id sockets) [
      | none ↦ rest
      | some socket ↦ update_available socket (offer_of u) ∷ rest
    ]

module _ (rollout_count : ℕ → ℕ → ℕ) where
  pub deploy_ota_update : String → Manager → Manager
  unfolding send_offers
  deploy_ota_update update_id m = elim (Dict.get update_id m.ota_updates) [
    | none ↦ m
    | some update ↦
        let u = record update { status = deploying } in
        let count = rollout_count (length u.target_devices) u.rollout_percentage in
        record m {
          ota_updates = Dict.set update_id u m.ota_updates;
          outbox = m.outbox ++ send_offers u (take count u.target_devices) m.device_sockets;
          emitted = m.emitted ++ ota_update_deployed u ∷ [];
        }
  ]

  -- `update_id` is a fresh UUID.
  pub create_ota_update : String → ℕ → OtaRequest → Manager → Manager × OtaUpdate
  unfolding deploy_ota_update choose_targets rollout_or_full
  create_ota_update update_id now r m =
      let u : OtaUpdate = record {
        update_id = update_id;
        device_id = r.device_id;
        device_type = r.device_type;
        version = or_text r.version "1.0.0";
        release_notes = or_text r.release_notes "";
        package_url = or_text r.package_url "";
        package_size = get_or r.package_size 0;
        package_hash = or_text r.package_hash "";
        mandatory = get_or r.mandatory false;
        rollout_percentage = rollout_or_full r.rollout_percentage;
        created_at = now;
        scheduled_at = r.scheduled_at;
        status = pending;
        target_devices = choose_targets r m.active_devices;
        completed_devices = [];
        failed_devices = [];
      } in
      let stored = record m { ota_updates = Dict.set update_id u m.ota_updates } in
      elim r.scheduled_at [
        | some at ↦ (stored, u)
        | none ↦ (deploy_ota_update update_id stored, record u { status = deploying })
      ]

  abbrev is_due : ℕ → OtaUpdate → Bool
  is_due now u = elim u.status [
    | pending ↦ elim u.scheduled_at [ none ↦ false | some at ↦ leb at now ]
    | _ ↦ false
  ]

  -- The loop of `checkScheduledUpdates`.
  pub deploy_due : ℕ → List OtaUpdate → Manager → Manager
  unfolding deploy_ota_update
  deploy_due now [] m = m
  deploy_due now (u ∷ us) m =
      deploy_due now us (if is_due now u then deploy_ota_update u.update_id m else m)

  pub check_scheduled_updates : ℕ → Manager → Manager
  unfolding deploy_due
  check_scheduled_updates now m = deploy_due now (Dict.values m.ota_updates) m

abbrev is_deploying : UpdateStatus → Bool
is_deploying deploying = true
is_deploying _ = false

-- The device is a target of an update that is being deployed, and has not answered.
abbrev pub awaits : String → OtaUpdate → Bool
awaits id u =
    includes id u.target_devices
    && is_deploying u.status
    && not (includes id u.completed_devices)
    && not (includes id u.failed_devices)

pub pending_offers : String → String → List OtaUpdate → List Outgoing
unfolding offer_of
pending_offers id socket us =
    map (λ u. update_available socket (offer_of u)) (filter (awaits id) us)

pub check_pending_updates : String → Manager → Manager
unfolding pending_offers
check_pending_updates id m = elim (Dict.get id m.device_sockets) [
  | none ↦ m
  | some socket ↦ record m {
    outbox = m.outbox ++ pending_offers id socket (Dict.values m.ota_updates);
  }
]

-- The `status` of a response.
pub data Answer : Type 0 where
  done failed_there other : Answer

-- The effect of a response on its update, and whether the update is then complete.
pub answer_update : String → Answer → OtaUpdate → OtaUpdate × Bool
answer_update id answer u =
    let v : OtaUpdate = elim answer [
      | done ↦ record u { completed_devices = u.completed_devices ++ id ∷ [] }
      | failed_there ↦ record u { failed_devices = u.failed_devices ++ id ∷ [] }
      | other ↦ u
    ] in
    if leb (length v.target_devices) (length v.completed_devices + length v.failed_devices)
    then (record v { status = if length v.failed_devices == 0 then completed else failed }, true)
    else (v, false)

pub process_update_response : String → String → Answer → Manager → Manager
unfolding answer_update
process_update_response id update_id answer m = elim (Dict.get update_id m.ota_updates) [
  | none ↦ m
  | some update ↦
      let (u, complete) = answer_update id answer update in
      record m {
        ota_updates = Dict.set update_id u m.ota_updates;
        emitted = if complete then m.emitted ++ ota_update_completed u ∷ [] else m.emitted;
      }
]
