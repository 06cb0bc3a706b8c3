-- ===== src/Edge/Offline.antt =====
-- Offline events of registered devices: `queueOfflineEvent`, `processScanData`, `processOfflineSync`
-- and `forceSyncOfflineQueues` of integration-service/src/edge/device-manager.ts. A sync is one step:
-- nothing else reaches the manager between its `fetch` calls.
pub mod Counted
use kpm_cursor.Base.{
  ℕ, zero, suc, String, Bool, true, false, ◌&&◌, ◌||◌, not, Option, none, some, List, [], ◌∷◌, ◌++◌,
  map, any, length, str_eq, ◌==◌, get_or, is_some, if◌then◌else◌,
}
use kpm_cursor.Base.Dict
use kpm_cursor.Base.Dict.{Dict}
use kpm_cursor.Edge.Types.{EventPriority, medium, DeviceInfo, OfflineEvent, OfflineQueue}
use kpm_cursor.Edge.Manager.{
  Manager, Outgoing, sync_complete, Signal, offline_event_queued, scan_data, or_text,
}
use kpm_cursor.Edge.Queue.{Sent, resolved, rejected, SyncReport, push_event, process_offline_sync}
use kpm_cursor.Edge.Monitor.{is_online}

-- `Partial<OfflineEvent>`; `payload` is the JSON text of `data`, if there is data.
pub record EventRequest : Type 0 where
  pub timestamp : Option ℕ
  pub event_type : Option String
  pub payload : Option String
  pub priority : Option EventPriority

-- `data || {}`, on the JSON text.
abbrev data_or_empty : String → String
data_or_empty s = if any (str_eq s) ("null" ∷ "false" ∷ "0" ∷ "\"\"" ∷ []) then "{}" else s

abbrev limit_or_default : ℕ → ℕ
limit_or_default zero = 10
limit_or_default (suc n) = suc n

-- `device?.configuration.offlineStorageLimit || 10`
pub storage_limit : Option DeviceInfo → ℕ
storage_limit none = 10
storage_limit (some d) = limit_or_default d.configuration.offline_storage_limit

abbrev pub scan_request : String → EventRequest
scan_request payload = record {
  timestamp = none;
  event_type = some "SCAN";
  payload = some payload;
  priority = some medium;
}

-- `text_length` is the length of a text in UTF-16 units.
module _ (text_length : String → ℕ) where
  pub full_event : String → ℕ → EventRequest → String → OfflineEvent
  full_event event_id now r payload = record {
    event_id = event_id;
    timestamp = get_or r.timestamp now;
    event_type = or_text r.event_type "UNKNOWN";
    payload = data_or_empty payload;
    retry_count = 0;
    priority = get_or r.priority medium;
    size = text_length payload;
  }

  -- `event_id` is a fresh UUID. `none` is the error of an event without data, whose JSON text is
  -- undefined and has no length.
  pub queue_offline_event : String → ℕ → String → EventRequest → Manager → Option Manager
  unfolding full_event storage_limit
  queue_offline_event event_id now id r m = elim (Dict.get id m.offline_queues) [
    | none ↦ some m
    | some q ↦ elim r.payload [
      | none ↦ none
      | some payload ↦
          let e = full_event event_id now r payload in
          let limit = storage_limit (Dict.get id m.active_devices) in
          some (record m {
            offline_queues = Dict.set id (push_event e limit q) m.offline_queues;
            emitted = m.emitted ++ offline_event_queued id e ∷ [];
          })
    ]
  ]

  abbrev queue_scan : String → ℕ → String → String → Manager → Manager
  queue_scan event_id now id payload m =
      get_or (queue_offline_event event_id now id (scan_request payload) m) m

  -- `is_connected` is `scanData.online !== false`, and `sent` what became of its `fetch`, whose failure
  -- is seen after `scanData` is emitted.
  pub process_scan_data : String → ℕ → String → Bool → Sent → String → Manager → Manager
  unfolding queue_offline_event
  process_scan_data event_id now id is_connected sent payload m =
      let announce = λ (x : Manager). record x { emitted = x.emitted ++ scan_data id ∷ [] } in
      if not is_connected then announce (queue_scan event_id now id payload m) else (elim sent [
        | resolved ↦ announce m
        | rejected ↦ queue_scan event_id now id payload (announce m)
      ])

abbrev send_report : Option String → Option SyncReport → List Outgoing
send_report (some socket) (some report) = sync_complete socket report ∷ []
send_report _ _ = []

-- `processOfflineSync`
pub sync_device : (OfflineEvent → Sent) → ℕ → String → Manager → Manager
sync_device sent now id m = elim (Dict.get id m.offline_queues) [
  | none ↦ m
  | some q ↦
      let socket = Dict.get id m.device_sockets in
      let (q', report) = process_offline_sync sent (is_some socket) now q in
      record m {
        offline_queues = Dict.set id q' m.offline_queues;
        outbox = m.outbox ++ send_report socket report;
      }
]

abbrev device_is_online : String → Manager → Bool
device_is_online id m = elim (Dict.get id m.active_devices) [
  | none ↦ false
  | some d ↦ is_online d.status
]

abbrev wants_sync : String → Manager → Bool
wants_sync id m = elim (Dict.get id m.offline_queues) [
  | none ↦ false
  | some q ↦ not (length q.queued_events == 0) && not q.sync_in_progress && device_is_online id m
]

pub sync_each : (OfflineEvent → Sent) → ℕ → List String → Manager → Manager
unfolding sync_device
sync_each sent now [] m = m
sync_each sent now (id ∷ ids) m =
    sync_each sent now ids (if wants_sync id m then sync_device sent now id m else m)

pub force_sync_offline_queues : (OfflineEvent → Sent) → ℕ → Manager → Manager
unfolding sync_each
force_sync_offline_queues sent now m = sync_each sent now (map (λ e. e.0) m.offline_queues) m
