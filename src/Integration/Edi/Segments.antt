-- ===== src/Integration/Edi/Segments.antt =====
-- Splitting a document, lines 313-368 and 750-829 of
-- integration-service/src/connectors/edi-processor.ts: `parseEdiEnvelope`, `parseSegments`,
-- `extractPartyInfo` and `parseEdiDate`, with `formatEdiDate` (lines 874-879). Elements are counted from
-- 0, as in the source; a segment is found with the segments after it, which `indexOf` counts.
pub mod RoundTrip
pub mod Dates
use Prim.Native.String.{String}
use Prim.Native.String
use mathlib.Core.Option
use kpm_cursor.Base.{
  ℕ, zero, suc, ◌+◌, String, ◌⊎◌, inl, inr, Bool, false, not, ◌&&◌, Option, none, some, List, [],
  ◌∷◌, map, str_eq, ltb, ◌==◌, if◌then◌else◌, get_or, filter, find,
}
use kpm_cursor.Base.Integers.{ℤ, parse_int, pred, add, below, decimal, pad_start}
use kpm_cursor.Base.Text.{has_prefix, is_empty, text_length, split, trim, text_take, text_drop}
use kpm_cursor.Integration.Edi.Types.{
  EdiDate, now, calendar, TradingPartner, Party, Envelope, Segment, EdiError, missing_segment,
}

-- `xs[i]`
abbrev pub at {ℓ} : {A : Type ℓ} → ℕ → List A → Option A
at i [] = none
at zero (x ∷ xs) = some x
at (suc i) (x ∷ xs) = at i xs

-- `o || d` for a text that may be undefined
abbrev pub or_text : Option String → String → String
or_text none d = d
or_text (some s) d = if is_empty s then d else s

-- `a || b` for two texts that may be undefined
abbrev pub or_else : Option String → Option String → Option String
or_else none b = b
or_else (some s) b = if is_empty s then b else some s

abbrev pub is_text : Option String → String → Bool
is_text none t = false
is_text (some s) t = str_eq s t

abbrev pub nth : ℕ → Segment → Option String
nth i s = at i s.elements

abbrev pub has_tag : String → Segment → Bool
has_tag tag s = str_eq s.tag tag

abbrev parse_segment : String → Segment
parse_segment text = record { tag = get_or (at 0 (split b'*' text)) ""; elements = split b'*' text }

abbrev non_empty : String → Bool
non_empty text = not (is_empty text)

unfoldable pub parse_segments : String → List Segment
parse_segments raw_data = map parse_segment (filter non_empty (map trim (split b'~' raw_data)))

-- The elements that pass a test, each with those after it.
abbrev pub with_rest {ℓ} : {A : Type ℓ} → (A → Bool) → List A → List (A × List A)
with_rest p [] = []
with_rest p (x ∷ xs) = if p x then (x, xs) ∷ with_rest p xs else with_rest p xs

-- `segments.find(p)` with the segments after it
abbrev pub find_with_rest {ℓ} : {A : Type ℓ} → (A → Bool) → List A → Option (A × List A)
find_with_rest p [] = none
find_with_rest p (x ∷ xs) = if p x then some (x, xs) else find_with_rest p xs

-- The same among the first `n`; the rest is not cut short.
abbrev pub find_within {ℓ} : {A : Type ℓ} → ℕ → (A → Bool) → List A → Option (A × List A)
find_within zero p xs = none
find_within (suc n) p [] = none
find_within (suc n) p (x ∷ xs) = if p x then some (x, xs) else find_within n p xs

abbrev unknown_party : Party
unknown_party = record {
  name = "Unknown";
  address = record {
    line1 = "";
    line2 = none;
    city = "";
    state = "";
    postal_code = "";
    country = "US";
  };
}

-- `segments[i]?.tag === tag ? segments[i] : null`, and then an element of it
abbrev element_of : Option Segment → String → ℕ → Option String
element_of none tag i = none
element_of (some s) tag i = if has_tag tag s then nth i s else none

abbrev party_of : Option (Segment × List Segment) → Party
party_of none = unknown_party
party_of (some (n1, rest)) = record {
  name = or_text (nth 2 n1) "Unknown";
  address = record {
    line1 = or_text (element_of (at 0 rest) "N3" 1) "";
    line2 = some (or_text (element_of (at 0 rest) "N3" 2) "");
    city = or_text (element_of (at 1 rest) "N4" 1) "";
    state = or_text (element_of (at 1 rest) "N4" 2) "";
    postal_code = or_text (element_of (at 1 rest) "N4" 3) "";
    country = or_text (element_of (at 1 rest) "N4" 4) "US";
  };
}

unfoldable pub extract_party_info : List Segment → String → Party
extract_party_info segments qualifier_code =
    party_of (find_with_rest (λ s. has_tag "N1" s && is_text (nth 1 s) qualifier_code) segments)

-- The window of two-digit years; NaN is not below 50 and stays NaN.
abbrev century : Option ℤ → Option ℤ
century none = none
century (some yy) = some (if below yy 50 then add 2000 yy else add 1900 yy)

-- `text.substring(from, from + n)` read by `parseInt`
abbrev part : ℕ → ℕ → String → Option ℤ
part from n text = parse_int (text_take n (text_drop from text))

abbrev date_of : String → EdiDate
date_of text =
    if text_length text == 8
    then calendar (part 0 4 text) (Option.map pred (part 4 2 text)) (part 6 2 text)
    else if text_length text == 6
    then calendar (century (part 0 2 text)) (Option.map pred (part 2 2 text)) (part 4 2 text)
    else now

unfoldable pub parse_edi_date : Option String → EdiDate
parse_edi_date none = now
parse_edi_date (some text) = if ltb (text_length text) 6 then now else date_of text

-- The date of a year, a month counted from 0 and a day.
unfoldable pub format_edi_date : ℕ → ℕ → ℕ → String
format_edi_date year month day =
    String.◌++◌ (text_drop 2 (decimal year))
      (String.◌++◌ (pad_start 2 (decimal (month + 1))) (pad_start 2 (decimal day)))

unfoldable pub format_edi_time : ℕ → ℕ → String
format_edi_time hours minutes =
    String.◌++◌ (pad_start 2 (decimal hours)) (pad_start 2 (decimal minutes))

abbrev pub lines_of : String → List String
lines_of raw_data = filter non_empty (map trim (split b'\n' raw_data))

abbrev direct_partner : Option String → Option String → Option String → TradingPartner
direct_partner id qualifier_id indicator = record {
  id = id;
  name = id;
  qualifier_id = qualifier_id;
  edi_address = id;
  connection_type = "DIRECT";
  capabilities = [];
  test_indicator = is_text indicator "T";
}

abbrev envelope_of : List String → List String → Envelope
envelope_of isa gs = record {
  transaction_type = at 1 gs;
  control_number = at 6 gs;
  sender = direct_partner (at 6 isa) (at 5 isa) (at 15 isa);
  receiver = direct_partner (at 8 isa) (at 7 isa) (at 15 isa);
}

abbrev envelope_with : Option String → Option String → EdiError ⊎ Envelope
envelope_with none gs = inl (missing_segment "ISA")
envelope_with (some isa) none = inl (missing_segment "GS")
envelope_with (some isa) (some gs) = inr (envelope_of (split b'*' isa) (split b'*' gs))

unfoldable pub parse_edi_envelope : String → EdiError ⊎ Envelope
parse_edi_envelope raw_data =
    envelope_with (find (has_prefix "ISA") (lines_of raw_data))
      (find (has_prefix "GS") (lines_of raw_data))
