-- ===== src/Gateway/Tests.antt =====
-- Concrete scanners (scanner-gateway/src/index.ts): the theorems at inputs that meet their hypotheses.
use kpm_cursor.Base.{◌+◌, ◌≡◌, refl, Bool, true, false, none, some, [], ◌∷◌, sum_by}
use kpm_cursor.Base.Dict.{Dict}
use kpm_cursor.Gateway.{Scanner, handheld, Registration, registered, ScanRequest, ScanEnv}
use kpm_cursor.Gateway.Scans.{all_scans, is_counted, scan_all, scan_all-counts}

abbrev registration : Registration
registration = record {
  name = "Dock 1";
  company_id = 1;
  location = "Warehouse A";
  scanner_type = handheld;
}

abbrev scanners : Dict Scanner
scanners = ("u1", registered registration "u1" "k1" 0) ∷ []

abbrev request : ScanRequest
request = record {
  headers = record { x_api_key = none; authorization = some "Bearer k1" };
  product_id = "SKU1";
  event_type = none;
  timestamp = none;
  location = none;
  operator = none;
  payload = none;
}

abbrev scan_env : Bool → ScanEnv
scan_env accepted = record {
  within_limit = true;
  valid = true;
  now = 7;
  now_text = "1970";
  post = λ _. accepted;
}

scan_all-counts_example :
    let result = scan_all ((scan_env true, request) ∷ (scan_env false, request) ∷ []) scanners in
    all_scans result.1 ≡ all_scans scanners + sum_by is_counted result.0
scan_all-counts_example =
    scan_all-counts ((scan_env true, request) ∷ (scan_env false, request) ∷ []) scanners
      (refl, refl, tt)
