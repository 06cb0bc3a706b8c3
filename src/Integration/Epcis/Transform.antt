-- ===== src/Integration/Epcis/Transform.antt =====
-- From an EPCIS event to a KMP event, lines 498-639 of
-- integration-service/src/connectors/epcis-handler.ts, and `generateEPC`.
use Prim.Native.String
use Prim.Native.String.{String}
use kpm_cursor.Base.{
  ℕ, zero, suc, String, Option, none, some, List, [], ◌∷◌, str_eq, if◌then◌else◌, get_or, ◌⊎◌, inl,
  inr,
}
use kpm_cursor.Base.Dict.{Dict, get}
use kpm_cursor.Base.Text.{is_empty, has_prefix, split}
use kpm_cursor.Integration.Epcis.Types.{
  EventClass, object_event, aggregation_event, transformation_event, transaction_event, Place,
  EpcisEvent, KmpEvent, EventTime, missing, plain_value, invalid_date, date, EpcisError,
  not_a_function, invalid_time_value,
}

-- The text, or the default where it is empty or missing.
abbrev pub filled : Option String → String → String
filled none d = d
filled (some s) d = if is_empty s then d else s

abbrev pub place_id : Option Place → Option String
place_id none = none
place_id (some place) = get "id" place

-- `event.bizLocation?.id || event.readPoint?.id || 'UNKNOWN'`
abbrev pub location_of : EpcisEvent → String
location_of e = filled (place_id e.biz_location) (filled (place_id e.read_point) "UNKNOWN")

abbrev nth_part : ℕ → List String → String
nth_part i [] = "undefined"
nth_part zero (s ∷ ss) = s
nth_part (suc i) (s ∷ ss) = nth_part i ss

-- `${parts[0]}.${parts[1]}` of the fifth part
abbrev pub two_parts : String → String
two_parts body =
    let parts = split b'.' body in
    String.◌++◌ (nth_part 0 parts) (String.◌++◌ "." (nth_part 1 parts))

abbrev pub fifth : (String → String) → String → List String → String
fifth f epc (a ∷ (b ∷ (c ∷ (d ∷ (e ∷ rest))))) = f e
fifth f epc _ = epc

unfoldable pub extract_product_id_from_epc : String → String
extract_product_id_from_epc epc =
    if is_empty epc
    then "UNKNOWN"
    else if has_prefix "urn:epc:id:sgtin:" epc
    then fifth two_parts epc (split b':' epc)
    else if has_prefix "urn:epc:id:sscc:" epc
    then fifth (λ e. e) epc (split b':' epc)
    else if has_prefix "urn:epc:id:grai:" epc
    then fifth two_parts epc (split b':' epc)
    else epc

abbrev step : String → String
step name = String.◌++◌ "urn:epcglobal:cbv:bizstep:" name

abbrev pub biz_step_map : Dict String
biz_step_map =
    (step "receiving", "GOODS_RECEIPT")
    ∷ (step "shipping", "SHIPMENT_CREATED")
    ∷ (step "accepting", "QUALITY_APPROVED")
    ∷ (step "inspecting", "QUALITY_CHECK")
    ∷ (step "packing", "PACKAGING")
    ∷ (step "unpacking", "UNPACKAGING")
    ∷ (step "loading", "LOADING")
    ∷ (step "unloading", "UNLOADING")
    ∷ (step "departing", "DEPARTURE")
    ∷ (step "arriving", "ARRIVAL")
    ∷ (step "storing", "STORAGE")
    ∷ (step "picking", "PICKING")
    ∷ (step "cycle_counting", "INVENTORY_COUNT")
    ∷ (step "commissioning", "COMMISSIONING")
    ∷ (step "decommissioning", "DECOMMISSIONING")
    ∷ (step "installing", "INSTALLATION")
    ∷ (step "removing", "REMOVAL")
    ∷ (step "retail_selling", "SALE")
    ∷ (step "destroying", "DESTRUCTION")
    ∷ (step "dispensing", "DISPENSING")
    ∷ []

-- Names that every object inherits, such as "constructor", are left aside.
unfoldable pub map_biz_step_to_kmp_event_type : Option String → String
map_biz_step_to_kmp_event_type none = "OBSERVATION"
map_biz_step_to_kmp_event_type (some s) =
    if is_empty s then "OBSERVATION" else get_or (get s biz_step_map) "EPCIS_EVENT"

abbrev pub first_of : List String → Option String
first_of [] = none
first_of (s ∷ ss) = some s

-- The product, the type and the class name of the KMP event.
abbrev pub product_of : EventClass → String
product_of (object_event epc_list quantity_list) =
    extract_product_id_from_epc (get_or (first_of epc_list) "")
product_of (aggregation_event parent_id child_epcs) =
    extract_product_id_from_epc (filled parent_id (filled (first_of child_epcs) "UNKNOWN"))
product_of (transformation_event input_epcs output_epcs) =
    extract_product_id_from_epc
      (filled (first_of output_epcs) (filled (first_of input_epcs) "UNKNOWN"))
product_of transaction_event = "TRANSACTION"

abbrev pub type_of : EpcisEvent → EventClass → String
type_of e (object_event epc_list quantity_list) = map_biz_step_to_kmp_event_type e.biz_step
type_of e (aggregation_event parent_id child_epcs) =
    if str_eq e.action "ADD" then "AGGREGATION" else "DISAGGREGATION"
type_of e (transformation_event input_epcs output_epcs) = "TRANSFORMATION"
type_of e transaction_event = "TRANSACTION_EVENT"

abbrev pub determine_event_type : EventClass → String
determine_event_type (object_event epc_list quantity_list) = "ObjectEvent"
determine_event_type (aggregation_event parent_id child_epcs) = "AggregationEvent"
determine_event_type (transformation_event input_epcs output_epcs) = "TransformationEvent"
determine_event_type transaction_event = "TransactionEvent"

-- `eventTime.toISOString()`, as the instant that it shows
abbrev pub to_iso_string : EventTime → EpcisError ⊎ ℕ
to_iso_string missing = inl not_a_function
to_iso_string plain_value = inl not_a_function
to_iso_string invalid_date = inl invalid_time_value
to_iso_string (date t) = inr t

abbrev pub kmp_event : EpcisEvent → EpcisError ⊎ ℕ → EpcisError ⊎ KmpEvent
kmp_event e (inl error) = inl error
kmp_event e (inr t) = inr (record {
  timestamp = t;
  product_id = product_of e.event_class;
  location = location_of e;
  event_type = type_of e e.event_class;
  class_name = determine_event_type e.event_class;
  event = e;
})

unfoldable pub transform_epcis_to_kmp : EpcisEvent → EpcisError ⊎ KmpEvent
transform_epcis_to_kmp e = kmp_event e (to_iso_string e.event_time)

pub data EpcFormat : Type 0 where
  sgtin sscc grai : EpcFormat

-- A missing option is shown as "undefined".
abbrev shown : Option String → String
shown none = "undefined"
shown (some s) = s

abbrev pub dotted : String → String → String
dotted a b = String.◌++◌ a (String.◌++◌ "." b)

unfoldable pub generate_epc :
    EpcFormat → String → Option String → Option String → Option String → String
generate_epc sgtin company_prefix item_ref serial_number asset_ref =
    String.◌++◌ "urn:epc:id:sgtin:"
      (dotted company_prefix (dotted (shown item_ref) (shown serial_number)))
generate_epc sscc company_prefix item_ref serial_number asset_ref =
    String.◌++◌ "urn:epc:id:sscc:" (dotted company_prefix (shown serial_number))
generate_epc grai company_prefix item_ref serial_number asset_ref =
    String.◌++◌ "urn:epc:id:grai:"
      (dotted company_prefix (dotted (shown asset_ref) (shown serial_number)))
