-- ===== src/Integration/Epcis/Enriched.antt =====
-- What master data adds to the places of an event (integration-service/src/connectors/epcis-handler.ts),
-- described key by key.
use kpm_cursor.Base.{
  String, ◌≡◌, refl, inl, inr, Bool, true, false, Option, none, some, List, [], ◌∷◌, arith, str_eq,
  if◌then◌else◌, Bool-cases, Option-cases, find, any,
}
use kpm_cursor.Base.Dict.{Dict, get, set, get-set}
use kpm_cursor.Base.Text.{is_empty}
use kpm_cursor.Integration.Epcis.Types.{
  Place, EpcisVocabularyElement, EpcisVocabulary, EpcisMasterData,
}
use kpm_cursor.Integration.Epcis.Handler.{
  find_master_data_element, assign, assign_found, enrich_place_at, enrich_place,
}

abbrev is_kind : String → EpcisVocabulary → Bool
is_kind kind v = str_eq v.kind kind

abbrev element_in : String → Option EpcisVocabulary → Option EpcisVocabularyElement
element_in id none = none
element_in id (some v) = find (λ e. str_eq e.id id) v.vocabulary_element_list

-- The element in the vocabulary of the kind, in the first master data that has one.
abbrev pub described : String → String → Option EpcisMasterData → Option EpcisVocabularyElement
described kind id none = none
described kind id (some data_set) = element_in id (find (is_kind kind) data_set)

abbrev pub attributes : Option EpcisVocabularyElement → Dict String
attributes none = []
attributes (some element) = element.attributes

-- What master data has for a place; an empty or missing id has nothing.
abbrev pub known_of : String → List EpcisMasterData → Option String → Dict String
known_of kind sets none = []
known_of kind sets (some id) =
    if is_empty id
    then []
    else attributes (described kind id (find (λ data_set. any (is_kind kind) data_set) sets))

abbrev or_old : Option String → Option String → Option String
or_old none old = old
or_old (some v) old = some v

-- The last value of a key.
abbrev pub last_value : String → Dict String → Option String
last_value key [] = none
last_value key ((k, v) ∷ m) = or_old (last_value key m) (if str_eq k key then some v else none)

-- A missing place stays missing, and a place has for each key the value of master data, or else its own.
abbrev pub IsEnriched : String → List EpcisMasterData → Option Place → Option Place → Type 0
IsEnriched kind sets none later = later ≡ none
IsEnriched kind sets (some place) later =
    (p : Place) × (later ≡ some p)
    × ((key : String)
        → get key p ≡ or_old (last_value key (known_of kind sets (get "id" place))) (get key place))

get-assign :
    (key : String) (m : Dict String) (place : Place)
    → get key (assign m place) ≡ or_old (last_value key m) (get key place)
get-assign key [] place = refl
get-assign key ((k, v) ∷ m) place =
    ground (arith, get-assign key m (set k v place), get-set k key v place)

find-any :
    (kind : String) (data_set : EpcisMasterData)
    → find (is_kind kind) data_set ≡ none
    → any (is_kind kind) data_set ≡ false
find-any kind [] e = refl
find-any kind (v ∷ vs) e = ground (arith, e, find-any kind vs)

find-some :
    (kind : String) (data_set : EpcisMasterData) (v : EpcisVocabulary)
    → find (is_kind kind) data_set ≡ some v
    → any (is_kind kind) data_set ≡ true
find-some kind [] v e = ground (arith, e)
find-some kind (w ∷ ws) v e = ground (arith, e, find-some kind ws v)

find_master_data_element-described :
    (kind id : String) (sets : List EpcisMasterData)
    → find_master_data_element kind id sets
      ≡ described kind id (find (λ data_set. any (is_kind kind) data_set) sets)
unfolding find_master_data_element
find_master_data_element-described kind id [] = refl
find_master_data_element-described kind id (data_set ∷ sets) =
    elim (Option-cases (find (is_kind kind) data_set)) [
      | inl e ↦
          rw (find_master_data_element, e, find-any kind data_set e)
            (find_master_data_element-described kind id sets)
      | inr (v, e) ↦ rw (find_master_data_element, e, find-some kind data_set v e, e)
    ]

get-assign_found :
    (key : String) (found : Option EpcisVocabularyElement) (place : Place)
    → get key (assign_found found place)
      ≡ or_old (last_value key (attributes found)) (get key place)
get-assign_found key none place = refl
get-assign_found key (some element) place = get-assign key element.attributes place

get-enrich_place_at :
    (key kind : String) (id : Option String) (sets : List EpcisMasterData) (place : Place)
    → get key (enrich_place_at kind id sets place)
      ≡ or_old (last_value key (known_of kind sets id)) (get key place)
get-enrich_place_at key kind none sets place = refl
get-enrich_place_at key kind (some id) sets place = elim (Bool-cases (is_empty id)) [
  | inl e ↦ rw e
  | inr e ↦
      rw (e, ← find_master_data_element-described kind id sets)
        (get-assign_found key (find_master_data_element kind id sets) place)
]

pub enrich_place-IsEnriched :
    (kind : String) (sets : List EpcisMasterData) (place : Option Place)
    → IsEnriched kind sets place (enrich_place kind sets place)
enrich_place-IsEnriched kind sets none = refl
enrich_place-IsEnriched kind sets (some place) =
    (_, refl, λ key. get-enrich_place_at key kind (get "id" place) sets place)
