-- ===== src/Integration/Edi/Documents.antt =====
-- The parsers of the five kinds of documents, lines 371-418, 457-554, 596-654, 689-725 and 940-943 of
-- integration-service/src/connectors/edi-processor.ts.
pub mod Lines
use Prim.Native.String
use Prim.Native.String.{String}
use kpm_cursor.Base.{
  ℕ, zero, String, ◌⊎◌, inl, inr, Bool, true, false, ◌&&◌, Option, none, some, List, [], ◌∷◌, ◌++◌,
  map, if◌then◌else◌, take, filter, find,
}
use kpm_cursor.Base.Text.{is_empty}
use kpm_cursor.Integration.Edi.Types.{
  Numbers, EdiDate, now, calendar, TradingPartner, Address, Party, Envelope, Segment, Carrier,
  Edi850LineItem, Edi850PurchaseOrder, Edi856Item, Edi856Package, Edi856ShipNotice, Edi810LineItem,
  Edi810Invoice, EdiAcknowledgment, ParsedData, purchase_order, order_acknowledged, ship_notice,
  invoice, functional_ack, Status, received, parsed, processed, error, acknowledged, EdiTransaction,
  EdiError, missing_segment, unknown_trading_partner, unsupported_type, kmp_request_failed,
}
use kpm_cursor.Integration.Edi.Segments.{
  at, or_text, or_else, is_text, nth, has_tag, parse_segments, with_rest, find_within,
  extract_party_info, parse_edi_date,
}

-- `xs.filter(Boolean)`
abbrev pub present : List (Option String) → List String
present [] = []
present (none ∷ os) = present os
present (some s ∷ os) = if is_empty s then present os else s ∷ present os

-- `a === b` for texts that may be undefined
abbrev pub same_text : Option String → Option String → Bool
same_text none none = true
same_text none (some t) = false
same_text (some s) o = is_text o s

-- `${o}` in a template
abbrev pub shown : Option String → String
shown none = "undefined"
shown (some s) = s

-- A document needs its first segment.
abbrev pub required {ℓ} :
    {A : Type ℓ} → String → Option Segment → (Segment → EdiError ⊎ A) → EdiError ⊎ A
required tag none next = inl (missing_segment tag)
required tag (some s) next = next s

abbrev pub concat_map {ℓ κ} : {A : Type ℓ} {B : Type κ} → (A → List B) → List A → List B
concat_map f [] = []
concat_map f (x ∷ xs) = f x ++ concat_map f xs

abbrev pub is_item_in : Option String → Segment → Bool
is_item_in package_id hl =
    has_tag "HL" hl && (same_text (nth 2 hl) package_id && is_text (nth 3 hl) "I")

abbrev is_package : Segment → Bool
is_package hl = has_tag "HL" hl && is_text (nth 3 hl) "P"

abbrev carrier_of : Option Segment → Carrier
carrier_of none = record { scac = ""; name = ""; method = "" }
carrier_of (some td5) = record {
  scac = or_text (nth 2 td5) "";
  name = or_text (nth 3 td5) "";
  method = or_text (nth 4 td5) "";
}

abbrev nth_of : ℕ → Option Segment → Option String
nth_of i none = none
nth_of i (some s) = nth i s

-- The description in the segment that follows the line, if it is a PID.
abbrev item_description_after : List Segment → String
item_description_after [] = "Item Description"
item_description_after (s ∷ rest) =
    if has_tag "PID" s then or_text (nth 5 s) "Item Description" else "Item Description"

abbrev payment_terms_of : Option Segment → String
payment_terms_of none = ""
payment_terms_of (some itd) = String.◌++◌ (shown (nth 3 itd)) (String.◌++◌ "/" (shown (nth 4 itd)))

abbrev date_if_text : Option String → Option EdiDate
date_if_text none = none
date_if_text (some s) = if is_empty s then none else some (parse_edi_date (some s))

module _ (N : Numbers) where
  abbrev pub order_line : Segment × List Segment → Edi850LineItem N
  order_line (po1, rest) = record {
    line_number = nth 1 po1;
    item_number = or_else (nth 7 po1) (nth 9 po1);
    item_description = item_description_after rest;
    quantity = N.parse_float (nth 2 po1);
    unit_of_measure = nth 3 po1;
    unit_price = N.parse_float (nth 4 po1);
    total_price = N.times (N.parse_float (nth 2 po1)) (N.parse_float (nth 4 po1));
    requested_delivery_date = none;
    buyer_part_number = nth 7 po1;
    vendor_part_number = nth 9 po1;
  }

  -- `items.reduce((sum, item) => sum + f(item), 0)`
  abbrev pub total_from {ℓ} : {A : Type ℓ} → N.Num → (A → N.Num) → List A → N.Num
  total_from sum f [] = sum
  total_from sum f (x ∷ xs) = total_from (N.plus sum (f x)) f xs

  abbrev pub purchase_order_of : List Segment → Segment → Edi850PurchaseOrder N
  purchase_order_of segments beg =
      let line_items : List (Edi850LineItem N) =
        map order_line (with_rest (has_tag "PO1") segments) in
      record {
        po_number = nth 3 beg;
        po_date = parse_edi_date (nth 4 beg);
        buyer = extract_party_info segments "BY";
        vendor = extract_party_info segments "SE";
        ship_to = extract_party_info segments "ST";
        currency = "USD";
        line_items = line_items;
        total_amount = total_from N.zero (λ item. item.total_price) line_items;
      }

  unfoldable pub parse850_purchase_order : List Segment → EdiError ⊎ Edi850PurchaseOrder N
  parse850_purchase_order segments =
      required "BEG" (find (has_tag "BEG") segments) (λ beg. inr (purchase_order_of segments beg))

  abbrev shipped_item : Segment → Segment → Option Segment → Edi856Item N
  shipped_item hl lin none = record {
    line_number = nth 1 hl;
    item_number = nth 3 lin;
    item_description = "Item Description";
    quantity_shipped = N.zero;
    unit_of_measure = "EA";
    lot_number = none;
    serial_numbers = none;
  }
  shipped_item hl lin (some sn1) = record {
    line_number = nth 1 hl;
    item_number = nth 3 lin;
    item_description = "Item Description";
    quantity_shipped = N.parse_float (nth 2 sn1);
    unit_of_measure = or_text (nth 3 sn1) "EA";
    lot_number = none;
    serial_numbers = none;
  }

  -- The item of an HL segment: its LIN is among the next four segments, and the SN1 among the two
  -- after that.
  abbrev item_with : Segment → Option (Segment × List Segment) → List (Edi856Item N)
  item_with hl none = []
  item_with hl (some (lin, rest)) = shipped_item hl lin (find (has_tag "SN1") (take 2 rest)) ∷ []

  abbrev pub item_of : Segment × List Segment → List (Edi856Item N)
  item_of (hl, rest) = item_with hl (find_within 4 (has_tag "LIN") rest)

  abbrev pub package_of : List Segment → Segment → Edi856Package N
  package_of segments package_hl = record {
    package_id = nth 1 package_hl;
    packaging_type = "CTN";
    items = concat_map item_of (with_rest (is_item_in (nth 1 package_hl)) segments);
  }

  abbrev ship_notice_of : List Segment → Segment → Edi856ShipNotice N
  ship_notice_of segments bsn = record {
    shipment_number = nth 2 bsn;
    ship_date = parse_edi_date (nth 3 bsn);
    estimated_delivery_date = none;
    carrier = carrier_of (find (has_tag "TD5") segments);
    tracking_number = nth_of 2 (find (has_tag "TD3") segments);
    ship_from = extract_party_info segments "SF";
    ship_to = extract_party_info segments "ST";
    packages = map (package_of segments) (filter is_package segments);
    related_orders = map (nth 1) (filter (has_tag "PRF") segments);
  }

  unfoldable pub parse856_ship_notice : List Segment → EdiError ⊎ Edi856ShipNotice N
  parse856_ship_notice segments =
      required "BSN" (find (has_tag "BSN") segments) (λ bsn. inr (ship_notice_of segments bsn))

  abbrev pub invoice_line : Segment → Edi810LineItem N
  invoice_line it1 = record {
    line_number = nth 1 it1;
    item_number = or_else (nth 7 it1) (nth 9 it1);
    item_description = "Item Description";
    quantity = N.parse_float (nth 2 it1);
    unit_of_measure = nth 3 it1;
    unit_price = N.parse_float (nth 4 it1);
    total_price = N.times (N.parse_float (nth 2 it1)) (N.parse_float (nth 4 it1));
  }

  abbrev invoice_total : Option Segment → List (Edi810LineItem N) → N.Num
  invoice_total none line_items = total_from N.zero (λ item. item.total_price) line_items
  invoice_total (some tds) line_items = N.parse_float (nth 1 tds)

  abbrev invoice_of : List Segment → Segment → Edi810Invoice N
  invoice_of segments big =
      let line_items : List (Edi810LineItem N) =
        map invoice_line (filter (has_tag "IT1") segments) in
      let total = invoice_total (find (has_tag "TDS") segments) line_items in
      record {
        invoice_number = nth 2 big;
        invoice_date = parse_edi_date (nth 1 big);
        po_number = nth 4 big;
        bill_to = extract_party_info segments "BT";
        remit_to = extract_party_info segments "RE";
        payment_terms = payment_terms_of (find (has_tag "ITD") segments);
        due_date = date_if_text (nth_of 7 (find (has_tag "ITD") segments));
        currency = "USD";
        line_items = line_items;
        subtotal = total;
        total_amount = total;
      }

  unfoldable pub parse810_invoice : List Segment → EdiError ⊎ Edi810Invoice N
  parse810_invoice segments =
      required "BIG" (find (has_tag "BIG") segments) (λ big. inr (invoice_of segments big))

-- The number that is acknowledged is that of the envelope at hand.
abbrev acknowledgment_of : Envelope → List Segment → Segment → EdiAcknowledgment
acknowledgment_of envelope segments ak9 = record {
  original_transaction_id = envelope.control_number;
  accepted = is_text (nth 1 ak9) "A";
  error_codes =
      present (map (nth 4) (filter (has_tag "AK3") segments))
      ++ present (map (nth 4) (filter (has_tag "AK4") segments));
  error_messages = [];
}

unfoldable pub parse997_functional_ack : List Segment → Envelope → EdiError ⊎ EdiAcknowledgment
parse997_functional_ack segments envelope = required "AK1" (find (has_tag "AK1") segments) (λ _.
    required "AK9" (find (has_tag "AK9") segments)
      (λ ak9. inr (acknowledgment_of envelope segments ak9)))
