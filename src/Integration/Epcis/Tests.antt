-- ===== src/Integration/Epcis/Tests.antt =====
-- Concrete EPCIS documents (integration-service/src/connectors/epcis-handler.ts): the theorems at inputs
-- that meet their hypotheses.
use kpm_cursor.Base.{
  String, ◌≡◌, refl, Bool, false, Option, none, some, List, [], ◌∷◌, map, str_eq, if◌then◌else◌,
}
use kpm_cursor.Base.Dict.{values}
use kpm_cursor.Integration.Epcis.Types.{
  EventTime, plain_value, invalid_date, date, EpcisEvent, object_event, EpcisMasterData,
  EpcisDocument, document_object, json_text, not_a_function, invalid_time_value, kmp_request_failed,
  KmpEvent, EpcisHandler,
}
use kpm_cursor.Integration.Epcis.Transform.{transform_epcis_to_kmp}
use kpm_cursor.Integration.Epcis.Handler.{
  validate_epcis_event, find_master_data_element, enrich_event_with_master_data,
  process_epcis_event, process_master_data, process_epcis_document,
}
use kpm_cursor.Integration.Epcis.Posts.{IsExtended, process_epcis_document-posts}

abbrev event_at : EventTime → EpcisEvent
event_at time = record {
  event_id = none;
  event_time = time;
  event_time_zone_offset = "+00:00";
  action = "OBSERVE";
  biz_step = none;
  disposition = none;
  read_point = some (("id", "dock") ∷ []);
  biz_location = none;
  event_class = object_event ("urn:epc:id:sgtin:1.2.3" ∷ []) [];
  passed_on = "{}";
}

abbrev docks : EpcisMasterData
docks =
    record {
      kind = "ReadPoint";
      vocabulary_element_list = record { id = "dock"; attributes = ("city", "Turin") ∷ [] } ∷ [];
    }
    ∷ []

abbrev events : List EpcisEvent
events = event_at (date 5) ∷ event_at invalid_date ∷ []

abbrev document : EpcisDocument
document = record { event_list = some events; master_data = some docks }

abbrev read_document : EpcisDocument
read_document = record { event_list = some (event_at plain_value ∷ []); master_data = none }

abbrev read_json : String → Option EpcisDocument
read_json text = if str_eq text "{}" then none else some read_document

abbrev handler : EpcisHandler
handler = record { master_data = []; posted = []; errors = [] }

abbrev refuse : KmpEvent → Bool
refuse k = false

process_epcis_document-posts_example :
    let result =
      process_epcis_document refuse read_json "masterdata-5" (document_object document) handler in
    (result.0 ≡ none)
    × IsExtended refuse
        (values
          (process_master_data refuse "masterdata-5" document.master_data handler).master_data)
        events
        handler
        result.1
unfolding validate_epcis_event
process_epcis_document-posts_example =
    process_epcis_document-posts refuse read_json "masterdata-5" (document_object document) document
      events handler refl refl refl

-- The post that is refused has the attributes of the dock, and the Invalid Date adds its own error.
enriched_post :
    map
      (λ post. post.0.event.read_point)
      (process_epcis_document refuse read_json "masterdata-5"
        (document_object document)
        handler).1.posted
    ≡ some (("id", "dock") ∷ ("city", "Turin") ∷ []) ∷ []
unfolding process_epcis_document process_epcis_event enrich_event_with_master_data
    find_master_data_element validate_epcis_event transform_epcis_to_kmp
enriched_post = refl

errors_of_document :
    (process_epcis_document refuse read_json "masterdata-5"
      (document_object document)
      handler).1.errors
    ≡ kmp_request_failed ∷ invalid_time_value ∷ []
unfolding process_epcis_document process_epcis_event enrich_event_with_master_data
    find_master_data_element validate_epcis_event transform_epcis_to_kmp
errors_of_document = refl

-- The times of a JSON document are texts, and none of its events is posted.
json_document :
    process_epcis_document refuse read_json "masterdata-5" (json_text "doc") handler
    ≡ (none, record handler { errors = not_a_function ∷ [] })
unfolding process_epcis_document process_epcis_event enrich_event_with_master_data
    find_master_data_element validate_epcis_event transform_epcis_to_kmp
json_document = refl
