-- ===== src/Edge/Updates/Responses.antt =====
-- `processUpdateResponse` (integration-service/src/edge/device-manager.ts): when the status of an
-- update changes, and how it agrees with the answers.
use kpm_cursor.Base.{
  ℕ, ◌+◌, ◌≤◌, ◌<◌, ◌≡◌, ◌⊎◌, ◌∙◌, ap, refl, String, List, [], ◌∷◌, All, arith, length,
  length-append, Option-cases, inl, inr,
}
use kpm_cursor.Base.Dict
use kpm_cursor.Base.Dict.{Dict, All-set, All-get}
use kpm_cursor.Edge.Types.{OtaUpdate, completed, failed}
use kpm_cursor.Edge.Manager.{Manager}
use kpm_cursor.Edge.Updates.{
  Answer, done, failed_there, other, answer_update, process_update_response,
}

abbrev pub answered : OtaUpdate → ℕ
answered u = length u.completed_devices + length u.failed_devices

-- The update still waits: nobody answered it, or fewer answers came than it has targets.
abbrev pub IsOpen : OtaUpdate → Type 0
IsOpen u = (answered u ≡ 0) ⊎ (answered u < length u.target_devices)

-- The status agrees with the answers: a completed update has no failure and a success for each target,
-- a failed one has a failure and an answer for each target, and any other update is open.
abbrev pub IsAccounted : OtaUpdate → Type 0
IsAccounted u = elim u.status [
  | completed ↦
      (length u.failed_devices ≡ 0) × (length u.target_devices ≤ length u.completed_devices)
  | failed ↦ (0 < length u.failed_devices) × (length u.target_devices ≤ answered u)
  | _ ↦ IsOpen u
]

-- The devices that answered, and how.
abbrev pub answer_updates : List (String × Answer) → OtaUpdate → OtaUpdate
answer_updates [] u = u
answer_updates ((id, a) ∷ rest) u = answer_updates rest (answer_update id a u).0

answer_update-IsAccounted :
    (id : String) (a : Answer) (u : OtaUpdate)
    → IsAccounted u
    → IsAccounted (answer_update id a u).0
unfolding answer_update
answer_update-IsAccounted id done u h = ground (arith, length-append u.completed_devices (id ∷ []))
answer_update-IsAccounted id failed_there u h =
    ground (arith, length-append u.failed_devices (id ∷ []))
answer_update-IsAccounted id other u h = ground arith

-- Whatever a device answers to a known or unknown update, the status of every update still agrees with
-- its answers, if it did before.
pub process_update_response-IsAccounted :
    (id update_id : String) (a : Answer) (m : Manager)
    → All (λ e. IsAccounted e.1) m.ota_updates
    → All (λ e. IsAccounted e.1) (process_update_response id update_id a m).ota_updates
unfolding process_update_response
process_update_response-IsAccounted id update_id a m h =
    elim (Option-cases (Dict.get update_id m.ota_updates)) [
      | inl e ↦ rw (e, process_update_response) h
      | inr (u, e) ↦
          rw (e, process_update_response)
            (All-set IsAccounted update_id (answer_update id a u).0 m.ota_updates
              (answer_update-IsAccounted id a u
                (All-get IsAccounted update_id m.ota_updates {v = u} h e))
              h)
    ]

answer_update-few :
    (id : String) (a : Answer) (u : OtaUpdate)
    → 1 + answered u < length u.target_devices
    → ((answer_update id a u).0.status ≡ u.status)
      × ((answer_update id a u).0.target_devices ≡ u.target_devices)
      × (answered (answer_update id a u).0 ≤ 1 + answered u)
unfolding answer_update
answer_update-few id done u h = ground (arith, length-append u.completed_devices (id ∷ []))
answer_update-few id failed_there u h = ground (arith, length-append u.failed_devices (id ∷ []))
answer_update-few id other u h = ground arith

-- While fewer answers came than an update has targets, its status stays what it was, whatever they
-- say and whoever sent them.
pub answer_updates-few :
    (rs : List (String × Answer)) (u : OtaUpdate)
    → length rs + answered u < length u.target_devices
    → (answer_updates rs u).status ≡ u.status
answer_updates-few [] u h = refl
answer_updates-few ((id, a) ∷ rs) u h =
    let (same, targets, more) = answer_update-few id a u (omega (arith, h)) in
    answer_updates-few rs (answer_update id a u).0 (omega (arith, h, more, ap length targets))
    ∙ same

-- A device that answers COMPLETED twice to an untouched update of two targets completes it, whether or
-- not the other target was reached.
pub one_device_answers_twice :
    (id one two : String) (u : OtaUpdate)
    → u.target_devices ≡ one ∷ two ∷ []
    → u.completed_devices ≡ []
    → u.failed_devices ≡ []
    → (answer_updates ((id, done) ∷ (id, done) ∷ []) u).status ≡ completed
unfolding answer_update
one_device_answers_twice id one two u targets none_done none_failed =
    rw (targets, none_done, none_failed) refl
