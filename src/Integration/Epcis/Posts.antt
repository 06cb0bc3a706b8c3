-- ===== src/Integration/Epcis/Posts.antt =====
-- What becomes of the events of an EPCIS document
-- (integration-service/src/connectors/epcis-handler.ts).
use Prim.Native.String.{String}
use mathlib.Core.List.{append-nil, append_assoc}
use kpm_cursor.Base.{
  String, ◌≡◌, refl, sym, ap, ◌∙◌, subst, ◌≢◌, ◌⊎◌, inl, inr, Bool, true, false, Option, none, some,
  List, [], ◌∷◌, ◌++◌, arith, if◌then◌else◌, Bool-cases, Option-cases, get_or,
}
use kpm_cursor.Base.Dict.{values}
use kpm_cursor.Integration.Epcis.Types.{
  EventTime, missing, invalid_date, plain_value, date, EpcisEvent, EpcisMasterData, EpcisDocument,
  DocumentInput, document_object, json_text, EpcisError, not_a_function, invalid_time_value,
  kmp_request_failed, KmpEvent, EpcisHandler,
}
use kpm_cursor.Integration.Epcis.Transform.{
  location_of, product_of, type_of, determine_event_type, to_iso_string, kmp_event,
  transform_epcis_to_kmp,
}
use kpm_cursor.Integration.Epcis.Handler.{
  validate_epcis_event, first_error, enrich_event_with_master_data, post_transformed,
  process_epcis_event, process_events, process_master_data, process_object, process_epcis_document,
  post_if_valid, process_read, process_valid, validate_epcis_document,
}
use kpm_cursor.Integration.Epcis.Enriched.{IsEnriched, enrich_place-IsEnriched}

-- The KMP event of an EPCIS event with a date, by the master data that is known: it shows that date, it
-- carries the event with its two places enriched and nothing else changed, its location is read after
-- the enrichment, and its product and kinds are those of the event.
pub record IsKmpOf (sets : List EpcisMasterData) (e : EpcisEvent) (k : KmpEvent) : Type 0 where
  pub dated : e.event_time ≡ date k.timestamp
  pub read_point : IsEnriched "ReadPoint" sets e.read_point k.event.read_point
  pub biz_location : IsEnriched "BizLocation" sets e.biz_location k.event.biz_location
  pub rest :
      k.event ≡ record e { read_point = k.event.read_point; biz_location = k.event.biz_location }
  pub located : k.location ≡ location_of k.event
  pub product : k.product_id ≡ product_of e.event_class
  pub kind : k.event_type ≡ type_of e e.event_class
  pub class : k.class_name ≡ determine_event_type e.event_class

-- The posts and the errors of a list of events, in order: one of each event, or both where the message
-- bus refuses the post.
pub data Settles (fetch : KmpEvent → Bool) (sets : List EpcisMasterData)
    : List EpcisEvent → List (KmpEvent × Bool) → List EpcisError → Type 0 where
  nothing : Settles fetch sets [] [] []
  timeless :
      (e : EpcisEvent) (events : List EpcisEvent) (posts : List (KmpEvent × Bool))
      (errors : List EpcisError)
      → e.event_time ≡ plain_value
      → Settles fetch sets events posts errors
      → Settles fetch sets (e ∷ events) posts (not_a_function ∷ errors)
  invalid :
      (e : EpcisEvent) (events : List EpcisEvent) (posts : List (KmpEvent × Bool))
      (errors : List EpcisError)
      → e.event_time ≡ invalid_date
      → Settles fetch sets events posts errors
      → Settles fetch sets (e ∷ events) posts (invalid_time_value ∷ errors)
  taken :
      (e : EpcisEvent) (k : KmpEvent) (events : List EpcisEvent) (posts : List (KmpEvent × Bool))
      (errors : List EpcisError)
      → IsKmpOf sets e k
      → fetch k ≡ true
      → Settles fetch sets events posts errors
      → Settles fetch sets (e ∷ events) ((k, true) ∷ posts) errors
  refused :
      (e : EpcisEvent) (k : KmpEvent) (events : List EpcisEvent) (posts : List (KmpEvent × Bool))
      (errors : List EpcisError)
      → IsKmpOf sets e k
      → fetch k ≡ false
      → Settles fetch sets events posts errors
      → Settles fetch sets (e ∷ events) ((k, false) ∷ posts) (kmp_request_failed ∷ errors)

-- The handler after the events: its posts and errors are extended by those that settle them.
pub record IsExtended (fetch : KmpEvent → Bool) (sets : List EpcisMasterData)
    (events : List EpcisEvent) (h later : EpcisHandler) : Type 0 where
  pub posts : List (KmpEvent × Bool)
  pub new_errors : List EpcisError
  pub settles : Settles fetch sets events posts new_errors
  pub posted : later.posted ≡ h.posted ++ posts
  pub errors : later.errors ≡ h.errors ++ new_errors

-- Enriching an event changes nothing that is validated.
validate-enrich :
    (sets : List EpcisMasterData) (e : EpcisEvent)
    → validate_epcis_event (enrich_event_with_master_data sets e) ≡ validate_epcis_event e
unfolding validate_epcis_event enrich_event_with_master_data
validate-enrich sets e = refl

valid-present : (e : EpcisEvent) → validate_epcis_event e ≡ none → e.event_time ≢ missing
unfolding validate_epcis_event
valid-present e valid gone = ground (arith, valid, gone)

-- What the transformation of an enriched event makes of its time.
data IsMade (sets : List EpcisMasterData) (e : EpcisEvent) : EpcisError ⊎ KmpEvent → Type 0 where
  made_plain : e.event_time ≡ plain_value → IsMade sets e (inl not_a_function)
  made_invalid : e.event_time ≡ invalid_date → IsMade sets e (inl invalid_time_value)
  made : (k : KmpEvent) → IsKmpOf sets e k → IsMade sets e (inr k)

kmp_event-IsMade :
    (sets : List EpcisMasterData) (e : EpcisEvent) (t : EventTime)
    → e.event_time ≡ t
    → t ≢ missing
    → IsMade sets e (kmp_event (enrich_event_with_master_data sets e) (to_iso_string t))
unfolding enrich_event_with_master_data
kmp_event-IsMade sets e missing same present = elim (present refl) [ ]
kmp_event-IsMade sets e invalid_date same present = made_invalid same
kmp_event-IsMade sets e plain_value same present = made_plain same
kmp_event-IsMade sets e (date t) same present = made _ (record {
  dated = same;
  read_point = enrich_place-IsEnriched "ReadPoint" sets e.read_point;
  biz_location = enrich_place-IsEnriched "BizLocation" sets e.biz_location;
  rest = refl;
  located = refl;
  product = refl;
  kind = refl;
  class = refl;
})

transform_epcis_to_kmp-IsMade :
    (sets : List EpcisMasterData) (e : EpcisEvent)
    → validate_epcis_event e ≡ none
    → IsMade sets e (transform_epcis_to_kmp (enrich_event_with_master_data sets e))
unfolding transform_epcis_to_kmp enrich_event_with_master_data
transform_epcis_to_kmp-IsMade sets e valid =
    kmp_event-IsMade sets e e.event_time refl (λ gone. valid-present e valid gone)

first_error-none :
    (e : EpcisEvent) (events : List EpcisEvent)
    → first_error (e ∷ events) ≡ none
    → (validate_epcis_event e ≡ none) × (first_error events ≡ none)
first_error-none e events valid = elim (Option-cases (validate_epcis_event e)) [
  | inl fine ↦ (fine, ground (arith, fine, valid))
  | inr (error, bad) ↦ ground (arith, bad, valid)
]

abbrev errors_after : Bool → EpcisHandler → List EpcisError
errors_after ok h = if ok then h.errors else h.errors ++ kmp_request_failed ∷ []

module _ (fetch : KmpEvent → Bool) (sets : List EpcisMasterData) where
  post_transformed-IsExtended :
      (e : EpcisEvent) (events : List EpcisEvent) (h later : EpcisHandler)
      (result : EpcisError ⊎ KmpEvent)
      → IsMade sets e result
      → IsExtended fetch sets events (post_transformed fetch result h) later
      → IsExtended fetch sets (e ∷ events) h later
  post_transformed-IsExtended e events h later _ (made_plain time) x = record {
    posts = x.posts;
    new_errors = not_a_function ∷ x.new_errors;
    settles = timeless e events x.posts x.new_errors time x.settles;
    posted = x.posted;
    errors = x.errors ∙ append_assoc h.errors (not_a_function ∷ []) x.new_errors;
  }
  post_transformed-IsExtended e events h later _ (made_invalid time) x = record {
    posts = x.posts;
    new_errors = invalid_time_value ∷ x.new_errors;
    settles = invalid e events x.posts x.new_errors time x.settles;
    posted = x.posted;
    errors = x.errors ∙ append_assoc h.errors (invalid_time_value ∷ []) x.new_errors;
  }
  post_transformed-IsExtended e events h later _ (made k is_kmp) x = elim (Bool-cases (fetch k)) [
    | inl ok ↦ record {
      posts = (k, true) ∷ x.posts;
      new_errors = x.new_errors;
      settles = taken e k events x.posts x.new_errors is_kmp ok x.settles;
      posted =
          x.posted
          ∙ append_assoc h.posted ((k, fetch k) ∷ []) x.posts
          ∙ ap (λ b. h.posted ++ (k, b) ∷ x.posts) ok;
      errors = x.errors ∙ ap (λ b. errors_after b h ++ x.new_errors) ok;
    }
    | inr bad ↦ record {
      posts = (k, false) ∷ x.posts;
      new_errors = kmp_request_failed ∷ x.new_errors;
      settles = refused e k events x.posts x.new_errors is_kmp bad x.settles;
      posted =
          x.posted
          ∙ append_assoc h.posted ((k, fetch k) ∷ []) x.posts
          ∙ ap (λ b. h.posted ++ (k, b) ∷ x.posts) bad;
      errors =
          x.errors
          ∙ ap (λ b. errors_after b h ++ x.new_errors) bad
          ∙ append_assoc h.errors (kmp_request_failed ∷ []) x.new_errors;
    }
  ]

  process_epcis_event-post :
      (e : EpcisEvent) (h : EpcisHandler)
      → values h.master_data ≡ sets
      → validate_epcis_event e ≡ none
      → process_epcis_event fetch e h
        ≡ post_transformed fetch (transform_epcis_to_kmp (enrich_event_with_master_data sets e)) h
  unfolding process_epcis_event
  process_epcis_event-post e h same valid =
      ap
        (λ ds.
          post_if_valid fetch (enrich_event_with_master_data ds e)
            (validate_epcis_event (enrich_event_with_master_data ds e)) h)
        same
      ∙ ap (λ error. post_if_valid fetch (enrich_event_with_master_data sets e) error h)
          (validate-enrich sets e ∙ valid)

  post_transformed-master_data :
      (result : EpcisError ⊎ KmpEvent) (h : EpcisHandler)
      → (post_transformed fetch result h).master_data ≡ h.master_data
  post_transformed-master_data (inl error) h = refl
  post_transformed-master_data (inr k) h = refl

  process_events-IsExtended :
      (events : List EpcisEvent) (h : EpcisHandler)
      → values h.master_data ≡ sets
      → first_error events ≡ none
      → IsExtended fetch sets events h (process_events fetch events h)
  process_events-IsExtended [] h same valid = record {
    posts = [];
    new_errors = [];
    settles = nothing;
    posted = sym (append-nil h.posted);
    errors = sym (append-nil h.errors);
  }
  process_events-IsExtended (e ∷ events) h same valid =
      let ok = first_error-none e events valid in
      let result : EpcisError ⊎ KmpEvent =
        transform_epcis_to_kmp (enrich_event_with_master_data sets e) in
      subst (λ g. IsExtended fetch sets (e ∷ events) h (process_events fetch events g))
        (sym (process_epcis_event-post e h same ok.0))
        (post_transformed-IsExtended e events h _ result (transform_epcis_to_kmp-IsMade sets e ok.0)
          (process_events-IsExtended events (post_transformed fetch result h)
            (ap values (post_transformed-master_data result h) ∙ same) ok.1))

-- The document of an argument, none where its text is no JSON.
abbrev pub document_of : (String → Option EpcisDocument) → DocumentInput → Option EpcisDocument
document_of read_json (document_object document) = some document
document_of read_json (json_text text) = read_json text

process_epcis_document-object :
    (fetch : KmpEvent → Bool) (read_json : String → Option EpcisDocument) (key : String)
    (input : DocumentInput) (document : EpcisDocument) (h : EpcisHandler)
    → document_of read_json input ≡ some document
    → process_epcis_document fetch read_json key input h ≡ process_object fetch key document h
unfolding process_epcis_document
process_epcis_document-object fetch read_json key (document_object d) document h e =
    ap (λ o. process_object fetch key (get_or o document) h) e
process_epcis_document-object fetch read_json key (json_text text) document h e =
    ap (λ o. process_read fetch key o h) e

process_object-events :
    (fetch : KmpEvent → Bool) (key : String) (document : EpcisDocument) (events : List EpcisEvent)
    (h : EpcisHandler)
    → document.event_list ≡ some events
    → first_error events ≡ none
    → process_object fetch key document h
      ≡ (none, process_events fetch events (process_master_data fetch key document.master_data h))
process_object-events fetch key document events h listed valid =
    ap (λ error. process_valid fetch key document error h)
      (ap validate_epcis_document listed ∙ valid)
    ∙ ap
        (λ found. (
          none,
          process_events fetch (get_or found [])
              (process_master_data fetch key document.master_data h),
        ))
        listed

process_master_data-keeps :
    (fetch : KmpEvent → Bool) (key : String) (data_set : Option EpcisMasterData) (h : EpcisHandler)
    (events : List EpcisEvent) (sets : List EpcisMasterData) (later : EpcisHandler)
    → IsExtended fetch sets events (process_master_data fetch key data_set h) later
    → IsExtended fetch sets events h later
process_master_data-keeps fetch key none h events sets later x = x
process_master_data-keeps fetch key (some vocabularies) h events sets later x = record {
  posts = x.posts;
  new_errors = x.new_errors;
  settles = x.settles;
  posted = x.posted;
  errors = x.errors;
}

-- A document with an event list whose events pass the validation, given as an object or as a JSON text
-- that reads as it, is processed without an error of its own, and its events are settled in order, each
-- by the master data known once the document's is stored: a date is posted as the event's KMP event, with
-- one error where the message bus refuses it; an Invalid Date, or a value that is no Date, is not posted
-- and adds one error. Earlier posts and errors stay.
pub process_epcis_document-posts :
    (fetch : KmpEvent → Bool) (read_json : String → Option EpcisDocument) (key : String)
    (input : DocumentInput) (document : EpcisDocument) (events : List EpcisEvent) (h : EpcisHandler)
    → document_of read_json input ≡ some document
    → document.event_list ≡ some events
    → first_error events ≡ none
    → let result = process_epcis_document fetch read_json key input h in
      (result.0 ≡ none)
      × IsExtended fetch
          (values (process_master_data fetch key document.master_data h).master_data)
          events
          h
          result.1
process_epcis_document-posts fetch read_json key input document events h given listed valid =
    let known = process_master_data fetch key document.master_data h in
    let done =
      process_epcis_document-object fetch read_json key input document h given
      ∙ process_object-events fetch key document events h listed valid in
    (
      ap (λ r. r.0) done,
      subst (λ r. IsExtended fetch (values known.master_data) events h r.1) (sym done)
          (process_master_data-keeps fetch key document.master_data h events _ _
            (process_events-IsExtended fetch (values known.master_data) events known refl valid)),
    )
