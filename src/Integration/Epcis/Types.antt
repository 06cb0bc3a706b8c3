-- ===== src/Integration/Epcis/Types.antt =====
-- The interfaces of integration-service/src/connectors/epcis-handler.ts. A place (`readPoint`,
-- `bizLocation`) is the dictionary of its properties, since master data assigns further ones.
use Prim.Native.String.{String}
use kpm_cursor.Base.{ℕ, String, Bool, Option, List}
use kpm_cursor.Base.Dict.{Dict}

pub record EpcisQuantityElement : Type 0 where
  pub epc_class : String
  pub quantity : String
  pub uom : Option String

-- By the keys that the object has: `epcList`; `parentID` and `childEPCs`; `inputEPCList` and
-- `outputEPCList`; or none of these.
pub data EventClass : Type 0 where
  object_event : (epc_list : List String) (quantity_list : List EpcisQuantityElement) → EventClass
  aggregation_event : (parent_id : Option String) (child_epcs : List String) → EventClass
  transformation_event : (input_epcs output_epcs : List String) → EventClass
  transaction_event : EventClass

-- What stands in `eventTime`: nothing (or another falsy value), a Date, an Invalid Date, or a value that
-- is no Date, such as the text or the number that JSON has for a time.
pub data EventTime : Type 0 where
  missing invalid_date plain_value : EventTime
  date : ℕ → EventTime

abbrev pub Place : Type 0
Place = Dict String

pub record EpcisEvent : Type 0 where
  pub event_id : Option String
  pub event_time : EventTime
  pub event_time_zone_offset : String
  pub action : String
  pub biz_step : Option String
  pub disposition : Option String
  pub read_point : Option Place
  pub biz_location : Option Place
  pub event_class : EventClass
  -- the JSON text of the further properties (lists of transactions, sources, destinations, sensors and
  -- quantities, and times of recording), which are only passed on
  pub passed_on : String

pub record EpcisVocabularyElement : Type 0 where
  pub id : String
  pub attributes : Dict String

pub record EpcisVocabulary : Type 0 where
  pub kind : String
  pub vocabulary_element_list : List EpcisVocabularyElement

abbrev pub EpcisMasterData : Type 0
EpcisMasterData = List EpcisVocabulary

pub record EpcisDocument : Type 0 where
  pub event_list : Option (List EpcisEvent)
  pub master_data : Option EpcisMasterData

-- The argument of `processEpcisDocument`: an object, or a text with the format JSON.
pub data DocumentInput : Type 0 where
  document_object : EpcisDocument → DocumentInput
  json_text : String → DocumentInput

pub data EpcisError : Type 0 where
  missing_event_list missing_event_time missing_time_zone_offset empty_epc_list : EpcisError
  invalid_action : String → EpcisError
  kmp_request_failed : EpcisError
  -- the RangeError of `toISOString`, the TypeError of a value without it, the SyntaxError of JSON
  invalid_time_value not_a_function invalid_json : EpcisError

pub record KmpEvent : Type 0 where
  pub timestamp : ℕ
  pub product_id : String
  pub location : String
  pub event_type : String
  pub class_name : String
  pub event : EpcisEvent

pub record EpcisHandler : Type 0 where
  pub master_data : Dict EpcisMasterData
  -- the events that were posted, each with whether the message bus took it, and the errors emitted
  pub posted : List (KmpEvent × Bool)
  pub errors : List EpcisError
