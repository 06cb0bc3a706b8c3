-- ===== src/Integration/Epcis/Handler.antt =====
-- The class `EpcisHandler` of integration-service/src/connectors/epcis-handler.ts for documents that are
-- objects or JSON texts: validation, master data, and the events that are posted. XML is read and
-- written by another library and is left out; what `JSON.parse` makes of a text is an argument.
use Prim.Native.String.{String}
use kpm_cursor.Base.{
  ℕ, String, ◌⊎◌, inl, inr, Bool, true, false, not, ◌||◌, Option, none, some, List, [], ◌∷◌, ◌++◌,
  str_eq, if◌then◌else◌, get_or, find,
}
use kpm_cursor.Base.Dict.{Dict, get, set, values}
use kpm_cursor.Base.Text.{is_empty}
use kpm_cursor.Integration.Epcis.Types.{
  EventClass, object_event, aggregation_event, Place, EpcisEvent, EpcisVocabularyElement,
  EpcisMasterData, EpcisDocument, EpcisError, missing_event_list, missing_event_time,
  missing_time_zone_offset, empty_epc_list, invalid_action, kmp_request_failed, KmpEvent,
  EpcisHandler, EventTime, missing, date, DocumentInput, document_object, json_text, invalid_json,
}
use kpm_cursor.Integration.Epcis.Transform.{filled, transform_epcis_to_kmp}

abbrev is_action : String → Bool
is_action a = str_eq a "ADD" || (str_eq a "OBSERVE" || str_eq a "DELETE")

abbrev has_no_epc : EventClass → Bool
has_no_epc (object_event [] quantity_list) = true
has_no_epc _ = false

-- An Invalid Date is an object, and so counts as a time.
abbrev has_time : EventTime → Bool
has_time missing = false
has_time _ = true

-- none: the event is valid.
unfoldable pub validate_epcis_event : EpcisEvent → Option EpcisError
validate_epcis_event e =
    if not (has_time e.event_time)
    then some missing_event_time
    else if is_empty e.event_time_zone_offset
    then some missing_time_zone_offset
    else if not (is_action e.action)
    then some (invalid_action e.action)
    else if has_no_epc e.event_class
    then some empty_epc_list
    else none

abbrev pub first_error : List EpcisEvent → Option EpcisError
first_error [] = none
first_error (e ∷ events) = elim (validate_epcis_event e) [
  | none ↦ first_error events
  | some error ↦ some error
]

abbrev pub validate_epcis_document : Option (List EpcisEvent) → Option EpcisError
validate_epcis_document none = some missing_event_list
validate_epcis_document (some events) = first_error events

-- The first master data that has a vocabulary of the kind decides, with or without the element.
unfoldable pub find_master_data_element :
    String → String → List EpcisMasterData → Option EpcisVocabularyElement
find_master_data_element kind id [] = none
find_master_data_element kind id (data_set ∷ later) =
    elim (find (λ v. str_eq v.kind kind) data_set) [
      | none ↦ find_master_data_element kind id later
      | some vocabulary ↦ find (λ e. str_eq e.id id) vocabulary.vocabulary_element_list
    ]

-- `Object.assign(place, attributes)`
abbrev pub assign : Dict String → Place → Place
assign [] place = place
assign ((k, v) ∷ attributes) place = assign attributes (set k v place)

abbrev pub assign_found : Option EpcisVocabularyElement → Place → Place
assign_found none place = place
assign_found (some element) place = assign element.attributes place

abbrev pub enrich_place_at : String → Option String → List EpcisMasterData → Place → Place
enrich_place_at kind none sets place = place
enrich_place_at kind (some id) sets place =
    if is_empty id then place else assign_found (find_master_data_element kind id sets) place

abbrev pub enrich_place : String → List EpcisMasterData → Option Place → Option Place
enrich_place kind sets none = none
enrich_place kind sets (some place) = some (enrich_place_at kind (get "id" place) sets place)

unfoldable pub enrich_event_with_master_data : List EpcisMasterData → EpcisEvent → EpcisEvent
enrich_event_with_master_data sets e = record e {
  read_point = enrich_place "ReadPoint" sets e.read_point;
  biz_location = enrich_place "BizLocation" sets e.biz_location;
}

module _ (fetch : KmpEvent → Bool) where
  abbrev pub post : KmpEvent → EpcisHandler → EpcisHandler
  post k h = record h {
    posted = h.posted ++ (k, fetch k) ∷ [];
    errors = if fetch k then h.errors else h.errors ++ kmp_request_failed ∷ [];
  }

  abbrev pub fail : EpcisError → EpcisHandler → EpcisHandler
  fail error h = record h { errors = h.errors ++ error ∷ [] }

  abbrev pub post_transformed : EpcisError ⊎ KmpEvent → EpcisHandler → EpcisHandler
  post_transformed (inl error) h = fail error h
  post_transformed (inr k) h = post k h

  abbrev pub post_if_valid : EpcisEvent → Option EpcisError → EpcisHandler → EpcisHandler
  post_if_valid e (some error) h = fail error h
  post_if_valid e none h = post_transformed (transform_epcis_to_kmp e) h

  -- An error is emitted and goes no further.
  unfoldable pub process_epcis_event : EpcisEvent → EpcisHandler → EpcisHandler
  process_epcis_event event h =
      let e : EpcisEvent = enrich_event_with_master_data (values h.master_data) event in
      post_if_valid e (validate_epcis_event e) h

  abbrev pub process_events : List EpcisEvent → EpcisHandler → EpcisHandler
  process_events [] h = h
  process_events (e ∷ events) h = process_events events (process_epcis_event e h)

  -- `masterdata-${Date.now()}` is the key.
  abbrev pub process_master_data : String → Option EpcisMasterData → EpcisHandler → EpcisHandler
  process_master_data key none h = h
  process_master_data key (some vocabularies) h = record h {
    master_data = set key vocabularies h.master_data;
  }

  abbrev pub process_valid :
      String → EpcisDocument → Option EpcisError → EpcisHandler → Option EpcisError × EpcisHandler
  process_valid key document (some error) h = (some error, h)
  process_valid key document none h = (
    none,
    process_events (get_or document.event_list []) (process_master_data key document.master_data h),
  )

  abbrev pub process_object :
      String → EpcisDocument → EpcisHandler → Option EpcisError × EpcisHandler
  process_object key document h =
      process_valid key document (validate_epcis_document document.event_list) h

  abbrev pub process_read :
      String → Option EpcisDocument → EpcisHandler → Option EpcisError × EpcisHandler
  process_read key none h = (some invalid_json, h)
  process_read key (some document) h = process_object key document h

  -- `read_json` is `JSON.parse`, with none for the error that it throws.
  unfoldable pub process_epcis_document :
      (String → Option EpcisDocument)
      → String
      → DocumentInput
      → EpcisHandler
      → Option EpcisError × EpcisHandler
  process_epcis_document read_json key (document_object document) h = process_object key document h
  process_epcis_document read_json key (json_text text) h = process_read key (read_json text) h

abbrev pub clear_master_data : EpcisHandler → EpcisHandler
clear_master_data h = record h { master_data = [] }

pub record EventOptions : Type 0 where
  pub action : String
  pub biz_step : Option String
  pub disposition : Option String
  pub read_point : Option String
  pub biz_location : Option String
  pub event_time : EventTime
  pub event_time_zone_offset : Option String

-- `id ? { id } : undefined`
abbrev place_with : Option String → Option Place
place_with none = none
place_with (some id) = if is_empty id then none else some (("id", id) ∷ [])

-- `options.eventTime || new Date()`
abbrev time_or : EventTime → ℕ → EventTime
time_or missing now = date now
time_or time now = time

abbrev create_event : ℕ → EventClass → EventOptions → EpcisEvent
create_event now event_class options = record {
  event_id = none;
  event_time = time_or options.event_time now;
  event_time_zone_offset = filled options.event_time_zone_offset "+00:00";
  action = options.action;
  biz_step = options.biz_step;
  disposition = options.disposition;
  read_point = place_with options.read_point;
  biz_location = place_with options.biz_location;
  event_class = event_class;
  passed_on = "{}";
}

abbrev pub create_object_event : ℕ → List String → EventOptions → EpcisEvent
create_object_event now epc_list options = create_event now (object_event epc_list []) options

abbrev pub create_aggregation_event : ℕ → Option String → List String → EventOptions → EpcisEvent
create_aggregation_event now parent_id child_epcs options =
    create_event now (aggregation_event parent_id child_epcs) options
