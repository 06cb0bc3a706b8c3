-- ===== src/Gateway/Scans.antt =====
-- Who may scan, and what the gateway counts.
use Prim.Native.String.{String}
use kpm_cursor.Base.{
  ℕ, ◌+◌, String, ◌≡◌, refl, ◌⊎◌, inl, inr, Bool, true, false, Option, none, some, List, [], ◌∷◌,
  arith, eq_iff, Bool-cases, Option-cases, find, sum_by,
}
use kpm_cursor.Base.Dict.{get-set, Dict, get, set, values}
use kpm_cursor.Base.Text.{is_empty}
use kpm_cursor.Gateway.{
  Scanner, Headers, api_key_of, has_key, Refusal, authenticate_scanner, Registration, registered,
  register_scanner, ScanRequest, ScanReply, refused, processed, failed, ScanEnv, counted, scan,
  scan_by, kmp_scan,
}

-- Every scanner is stored under its id, once.
abbrev pub IsKeyed : Dict Scanner → Type 0
IsKeyed [] = Unit
IsKeyed ((id, s) ∷ scanners) = (s.id ≡ id) × (get id scanners ≡ none) × IsKeyed scanners

abbrev pub all_scans : Dict Scanner → ℕ
all_scans scanners = sum_by (λ s. s.total_scans) (values scanners)

get-find :
    (p : Scanner → Bool) (scanners : Dict Scanner) {s : Scanner}
    → IsKeyed scanners
    → find p (values scanners) ≡ some s
    → get s.id scanners ≡ some s
get-find p [] h e = ground arith
get-find p ((id, t) ∷ scanners) {s} (ht, once, h) e =
    ground (arith, eq_iff id s.id, eq_iff id t.id, get-find p scanners {s = s} h)

all_scans-set :
    (id : String) (s new : Scanner) (scanners : Dict Scanner)
    → get id scanners ≡ some s
    → all_scans (set id new scanners) + s.total_scans ≡ all_scans scanners + new.total_scans
all_scans-set id s new [] e = ground arith
all_scans-set id s new ((j, t) ∷ scanners) e = ground (arith, all_scans-set id s new scanners)

IsKeyed-set :
    (id : String) (new : Scanner) (scanners : Dict Scanner)
    → new.id ≡ id
    → IsKeyed scanners
    → IsKeyed (set id new scanners)
IsKeyed-set id new [] e h = (e, refl, tt)
IsKeyed-set id new ((j, t) ∷ scanners) e (ht, once, h) =
    ground
      (arith, eq_iff j id, eq_iff id j, get-set id j new scanners, IsKeyed-set id new scanners e h)

abbrev pub is_counted : ScanReply → ℕ
is_counted (refused e) = 0
is_counted (processed t) = 1
is_counted (failed t) = 1

authenticate_scanner-get :
    (headers : Headers) (scanners : Dict Scanner) {s : Scanner}
    → IsKeyed scanners
    → authenticate_scanner headers scanners ≡ inr s
    → get s.id scanners ≡ some s
unfolding authenticate_scanner
authenticate_scanner-get headers scanners {s} h e =
    elim (Option-cases (find (has_key (api_key_of headers)) (values scanners))) [
      | inl none_found ↦ ground arith
      | inr (t, found) ↦
          ground (arith, get-find (has_key (api_key_of headers)) scanners {s = t} h found)
    ]

scan_by-step :
    (env : ScanEnv) (request : ScanRequest) (who : Refusal ⊎ Scanner) (scanners : Dict Scanner)
    → IsKeyed scanners
    → ((s : Scanner) → who ≡ inr s → get s.id scanners ≡ some s)
    → let result = scan_by env request who scanners in
      (all_scans result.1 ≡ all_scans scanners + is_counted result.0) × IsKeyed result.1
scan_by-step env request (inl e) scanners h known = (omega arith, h)
scan_by-step env request (inr s) scanners h known = elim (Bool-cases env.valid) [
  | inl e ↦
      let total = all_scans-set s.id s (counted env.now s) scanners (known s refl) in
      elim (Bool-cases (env.post (kmp_scan request env.now_text (counted env.now s)))) [
        | inl f ↦ rw (e, f) (omega (arith, total), IsKeyed-set s.id _ scanners refl h)
        | inr f ↦ rw (e, f) (omega (arith, total), IsKeyed-set s.id _ scanners refl h)
      ]
  | inr e ↦ rw e (omega arith, h)
]

scan-step :
    (env : ScanEnv) (request : ScanRequest) (scanners : Dict Scanner)
    → IsKeyed scanners
    → let result = scan env request scanners in
      (all_scans result.1 ≡ all_scans scanners + is_counted result.0) × IsKeyed result.1
unfolding scan
scan-step env request scanners h = elim (Bool-cases env.within_limit) [
  | inl e ↦ rw e (
      scan_by-step env request (authenticate_scanner request.headers scanners) scanners h
        (λ s. authenticate_scanner-get request.headers scanners h))
  | inr e ↦ rw e (omega arith, h)
]

abbrev pub scan_all : List (ScanEnv × ScanRequest) → Dict Scanner → List ScanReply × Dict Scanner
scan_all [] scanners = ([], scanners)
scan_all ((env, request) ∷ requests) scanners =
    let result = scan env request scanners in
    let later = scan_all requests result.1 in (result.0 ∷ later.0, later.1)

-- Where every scanner is stored under its id, the counts of all scanners grow by the number of scans
-- that were neither refused nor invalid, whether or not their events reached the message bus.
pub scan_all-counts :
    (requests : List (ScanEnv × ScanRequest)) (scanners : Dict Scanner)
    → IsKeyed scanners
    → let result = scan_all requests scanners in
      all_scans result.1 ≡ all_scans scanners + sum_by is_counted result.0
scan_all-counts [] scanners h = omega arith
scan_all-counts ((env, request) ∷ requests) scanners h =
    let (total, keyed) = scan-step env request scanners h in
    omega (arith, total, scan_all-counts requests (scan env request scanners).1 keyed)

-- The id and the key are new, and the key is not empty.
find-set :
    (key id : String) (new : Scanner) (scanners : Dict Scanner)
    → get id scanners ≡ none
    → find (has_key key) (values scanners) ≡ none
    → new.api_key ≡ key
    → find (has_key key) (values (set id new scanners)) ≡ some new
find-set key id new [] hid hkey e = ground (arith, eq_iff new.api_key key)
find-set key id new ((j, t) ∷ scanners) hid hkey e = ground (arith, find-set key id new scanners)

-- A registered scanner may scan: with its key in the header x-api-key it is the one that is recognised,
-- if its id and its key were not in use and the key is not empty.
pub authenticate_scanner-register :
    (r : Registration) (id key : String) (now : ℕ) (authorization : Option String)
    (scanners : Dict Scanner)
    → get id scanners ≡ none
    → find (has_key key) (values scanners) ≡ none
    → is_empty key ≡ false
    → let after = (register_scanner true r id key now scanners).1 in
      authenticate_scanner (record { x_api_key = some key; authorization = authorization }) after
      ≡ inr (registered r id key now)
unfolding authenticate_scanner register_scanner
authenticate_scanner-register r id key now authorization scanners hid hkey filled =
    rw (filled, filled, find-set key id (registered r id key now) scanners hid hkey refl)
