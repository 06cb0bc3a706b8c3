-- ===== src/Gateway.antt =====
-- The scanner gateway, scanner-gateway/src/index.ts: the registry of scanners and the handlers of its
-- routes. What the request validators, the rate limit, the uuids and the POST to the message bus give
-- are arguments.
pub mod Scans
mod Tests
use Prim.Native.Char.{Char}
use Prim.Native.String
use Prim.Native.String.{String}
use mathlib.Core.Option
use kpm_cursor.Base.{
  map, ℕ, ◌+◌, String, ◌⊎◌, inl, inr, Bool, true, false, Option, none, some, List, [], str_eq, ◌==◌,
  if◌then◌else◌, get_or, length, filter, find, sum_by,
}
use kpm_cursor.Base.Dict.{Dict, get, set, values}
use kpm_cursor.Base.Text.{is_empty, has_prefix, text_drop}

pub data ScannerType : Type 0 where
  handheld fixed mobile integrated : ScannerType

pub data ScannerStatus : Type 0 where
  active inactive : ScannerStatus

pub record Scanner : Type 0 where
  pub id : String
  pub api_key : String
  pub company_id : ℕ
  pub name : String
  pub location : String
  pub scanner_type : ScannerType
  pub status : ScannerStatus
  pub last_seen : ℕ
  pub total_scans : ℕ

abbrev pub is_active : Scanner → Bool
is_active s = elim s.status [ active ↦ true | inactive ↦ false ]

-- `text.replace('Bearer ', '')`: the first occurrence
abbrev pub without_bearer : String → String
without_bearer String.[] = ""
without_bearer (String.◌∷◌ c s) =
    let later = without_bearer s in
    if has_prefix "Bearer " (String.◌∷◌ c s)
    then text_drop 7 (String.◌∷◌ c s)
    else String.◌∷◌ c later

pub record Headers : Type 0 where
  pub x_api_key : Option String
  pub authorization : Option String

abbrev bearer_of : Option String → String
bearer_of none = ""
bearer_of (some text) = without_bearer text

-- The key of a request; an undefined key and an empty one are refused alike.
abbrev pub api_key_of : Headers → String
api_key_of h = elim h.x_api_key [
  | none ↦ bearer_of h.authorization
  | some key ↦ if is_empty key then bearer_of h.authorization else key
]

pub data Refusal : Type 0 where
  api_key_required invalid_or_inactive rate_limited invalid_request : Refusal

abbrev pub has_key : String → Scanner → Bool
has_key key s = str_eq s.api_key key

abbrev active_only : Option Scanner → Refusal ⊎ Scanner
active_only none = inl invalid_or_inactive
active_only (some s) = if is_active s then inr s else inl invalid_or_inactive

unfoldable pub authenticate_scanner : Headers → Dict Scanner → Refusal ⊎ Scanner
authenticate_scanner headers scanners =
    if is_empty (api_key_of headers)
    then inl api_key_required
    else active_only (find (has_key (api_key_of headers)) (values scanners))

pub record Registration : Type 0 where
  pub name : String
  pub company_id : ℕ
  pub location : String
  pub scanner_type : ScannerType

abbrev pub registered : Registration → String → String → ℕ → Scanner
registered r id api_key now = record {
  id = id;
  api_key = api_key;
  company_id = r.company_id;
  name = r.name;
  location = r.location;
  scanner_type = r.scanner_type;
  status = active;
  last_seen = now;
  total_scans = 0;
}

-- POST /api/scanners/register; the scanner's id and key are the answer.
unfoldable pub register_scanner :
    Bool → Registration → String → String → ℕ → Dict Scanner → Option Scanner × Dict Scanner
register_scanner valid r id api_key now scanners =
    if valid
    then (some (registered r id api_key now), set id (registered r id api_key now) scanners)
    else (none, scanners)

pub record ScanRequest : Type 0 where
  pub headers : Headers
  pub product_id : String
  pub event_type : Option String
  pub timestamp : Option String
  pub location : Option String
  pub operator : Option String
  pub payload : Option String

-- What is posted to the message bus.
pub record KmpScan : Type 0 where
  pub product_id : String
  pub event_type : String
  pub location : String
  pub timestamp : String
  pub payload : String
  pub operator : String
  pub scanner : Scanner

abbrev pub kmp_scan : ScanRequest → String → Scanner → KmpScan
kmp_scan request now s = record {
  product_id = request.product_id;
  event_type = get_or request.event_type "SCAN";
  location = get_or request.location s.location;
  timestamp = get_or request.timestamp now;
  payload = get_or request.payload "{}";
  operator = get_or request.operator "Scanner";
  scanner = s;
}

pub data ScanReply : Type 0 where
  -- 401, 429 or 400; 201; 500
  refused : Refusal → ScanReply
  processed : String → ScanReply
  failed : String → ScanReply

-- The outside of a scan: whether the limiter and the validators let it through, the time, and whether
-- the message bus takes an event.
pub record ScanEnv : Type 0 where
  pub within_limit : Bool
  pub valid : Bool
  pub now : ℕ
  pub now_text : String
  pub post : KmpScan → Bool

abbrev pub counted : ℕ → Scanner → Scanner
counted now s = record s { last_seen = now; total_scans = s.total_scans + 1 }

abbrev pub forward : ScanEnv → ScanRequest → Scanner → ScanReply
forward env request s =
    if env.post (kmp_scan request env.now_text s)
    then processed (get_or request.timestamp env.now_text)
    else failed (get_or request.timestamp env.now_text)

-- The scanner is counted before its event is posted.
abbrev pub scan_by :
    ScanEnv → ScanRequest → Refusal ⊎ Scanner → Dict Scanner → ScanReply × Dict Scanner
scan_by env request (inl e) scanners = (refused e, scanners)
scan_by env request (inr s) scanners =
    if env.valid
    then (forward env request (counted env.now s), set s.id (counted env.now s) scanners)
    else (refused invalid_request, scanners)

-- POST /api/scan
unfoldable pub scan : ScanEnv → ScanRequest → Dict Scanner → ScanReply × Dict Scanner
scan env request scanners =
    if env.within_limit
    then scan_by env request (authenticate_scanner request.headers scanners) scanners
    else (refused rate_limited, scanners)

-- What is shown of a scanner: all but its key and its company.
pub record ScannerView : Type 0 where
  pub id : String
  pub name : String
  pub location : String
  pub scanner_type : ScannerType
  pub status : ScannerStatus
  pub last_seen : ℕ
  pub total_scans : ℕ

abbrev pub view_of : Scanner → ScannerView
view_of s = record {
  id = s.id;
  name = s.name;
  location = s.location;
  scanner_type = s.scanner_type;
  status = s.status;
  last_seen = s.last_seen;
  total_scans = s.total_scans;
}

abbrev pub is_active_view : ScannerView → Bool
is_active_view s = elim s.status [ active ↦ true | inactive ↦ false ]

pub record Dashboard : Type 0 where
  pub company_id : ℕ
  pub total_scanners : ℕ
  pub active_scanners : ℕ
  pub total_scans : ℕ
  pub scanners : List ScannerView

-- GET /api/company/:companyId/scanners
unfoldable pub company_dashboard : ℕ → Dict Scanner → Dashboard
company_dashboard company_id scanners =
    let company_scanners =
      map view_of (filter (λ s. s.company_id == company_id) (values scanners)) in
    record {
      company_id = company_id;
      total_scanners = length company_scanners;
      active_scanners = length (filter is_active_view company_scanners);
      total_scans = sum_by (λ s. s.total_scans) company_scanners;
      scanners = company_scanners;
    }

-- GET /health
abbrev pub active_scanners_count : Dict Scanner → ℕ
active_scanners_count scanners = length (filter is_active (values scanners))

-- GET /api/scanners/:scannerId
abbrev pub scanner_status : String → Dict Scanner → Option ScannerView
scanner_status id scanners = Option.map view_of (get id scanners)
