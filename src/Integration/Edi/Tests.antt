-- ===== src/Integration/Edi/Tests.antt =====
-- Concrete documents (integration-service/src/connectors/edi-processor.ts): the theorems at inputs that
-- meet their hypotheses.
use Prim.Native.String.{String}
use kpm_cursor.Base.{
  ℕ, ◌+◌, ◌*◌, String, ◌≡◌, refl, inl, true, false, Option, none, some, [], ◌∷◌, arith, str_eq,
  if◌then◌else◌,
}
use kpm_cursor.Base.Integers.{ℤ, pos, parse_int}
use kpm_cursor.Base.Text.{has_char, split, join, trim_start, trim_end}
use kpm_cursor.Integration.Edi.Types.{
  Numbers, calendar, TradingPartner, Party, Envelope, Edi850LineItem, Edi850PurchaseOrder,
  purchase_order, parsed, processed, EdiTransaction, missing_segment,
}
use kpm_cursor.Integration.Edi.Segments.{
  parse_segments, parse_edi_envelope, parse_edi_date, format_edi_date, extract_party_info,
}
use kpm_cursor.Integration.Edi.Segments.RoundTrip.{
  document_text, segment_of, parse_segments-document_text,
}
use kpm_cursor.Integration.Edi.Segments.Dates.{parse_edi_date-format}
use kpm_cursor.Integration.Edi.Documents.{parse850_purchase_order, parse997_functional_ack}
use kpm_cursor.Integration.Edi.Acknowledgments.{Clock, generate997_acknowledgment}
use kpm_cursor.Integration.Edi.Acknowledgments.Refused.{parse_edi_envelope-generated}
use kpm_cursor.Integration.Edi.Events.{events_of}
use kpm_cursor.Integration.Edi.Processor.{
  Env, EdiProcessor, purchase_order_rule, rule_of, parse_document, process_edi_document,
}
use kpm_cursor.Integration.Edi.Processor.Outcomes.{stored_status, process_edi_document-outcome}
use kpm_cursor.Integration.Edi.Processor.Sends.{refusal, all_pass, until_refused}
use kpm_cursor.Integration.Edi.Processor.Sound.{AllSound, process_all, process_all-AllSound}
use kpm_cursor.Integration.Edi.Processor.Unmatched.{process_edi_document-own_record}

-- Whole numbers in place of floating point ones.
abbrev whole : Option ℤ → ℕ
whole (some (pos n)) = n
whole _ = 0

abbrev read_number : Option String → ℕ
read_number none = 0
read_number (some s) = whole (parse_int s)

abbrev naturals : Numbers
naturals = record {
  Num = ℕ;
  zero = 0;
  plus = λ a b. a + b;
  times = λ a b. a * b;
  parse_float = read_number;
}

abbrev noon : Clock
noon = record { time = 5; year = 2024; month = 0; day = 9; hours = 12; minutes = 0 }

abbrev env : Env naturals
env = record {
  clock = noon;
  transaction_id = "EDI-5-A";
  control_number = "000000042";
  fetch = λ e. elim e.product_id [ none ↦ false | some s ↦ str_eq s "A1" ];
}

abbrev supplier : TradingPartner
supplier = record {
  id = some "ACME";
  name = some "Acme";
  qualifier_id = some "ZZ";
  edi_address = some "ACME";
  connection_type = "DIRECT";
  capabilities = [];
  test_indicator = false;
}

abbrev processor : EdiProcessor naturals
processor = record {
  trading_partners = ("ACME", supplier) ∷ [];
  transactions = [];
  sent = [];
  emitted = [];
}

abbrev order : String
order =
    "ISA*00*a*00*b*ZZ*ACME*ZZ*US*240109*1200*U*00401*77*0*P*:~\nGS*850*ACME*US*20240109*1200*77*X*004010~\nBEG*00*SA*PO9*20240109~PO1*1*2*EA*5**BP*A1~PO1*2*3*EA*4**BP*B2~"

parse_segments-document_text_example :
    parse_segments (document_text (("ST" ∷ "850" ∷ "1" ∷ []) ∷ ("BEG" ∷ "00" ∷ []) ∷ []))
    ≡ segment_of ("ST" ∷ "850" ∷ "1" ∷ []) ∷ segment_of ("BEG" ∷ "00" ∷ []) ∷ []
unfolding join trim_start trim_end
parse_segments-document_text_example =
    parse_segments-document_text (("ST" ∷ "850" ∷ "1" ∷ []) ∷ ("BEG" ∷ "00" ∷ []) ∷ []) (
      record {
        not_nil = λ e. ground arith;
        separate = (refl, (refl, (refl, tt)));
        closed = refl;
        not_empty = refl;
        trimmed = refl;
      },
      (
        record {
          not_nil = λ e. ground arith;
          separate = (refl, (refl, tt));
          closed = refl;
          not_empty = refl;
          trimmed = refl;
        },
        tt,
      ),
    )

parse_edi_date-format_example :
    parse_edi_date (some (format_edi_date 2024 0 9))
    ≡ calendar (some (pos 2024)) (some (pos 0)) (some (pos 9))
parse_edi_date-format_example =
    parse_edi_date-format 2024 0 9 (omega arith) (omega arith) (omega arith) (omega arith)

parse_edi_envelope-generated_example :
    let written = generate997_acknowledgment (some "850") (some "77") true noon "000000042" in
    (has_char 10 written ≡ false) × (parse_edi_envelope written ≡ inl (missing_segment "GS"))
parse_edi_envelope-generated_example =
    parse_edi_envelope-generated (some "850") (some "77") true noon "000000042" refl refl refl

abbrev direct : String → TradingPartner
direct name = record {
  id = some name;
  name = some name;
  qualifier_id = some "ZZ";
  edi_address = some name;
  connection_type = "DIRECT";
  capabilities = [];
  test_indicator = false;
}

abbrev order_envelope : Envelope
order_envelope = record {
  transaction_type = some "850";
  control_number = some "77";
  sender = direct "ACME";
  receiver = direct "US";
}

abbrev unknown : Party
unknown = extract_party_info [] ""

abbrev order_item : String → String → ℕ → ℕ → Edi850LineItem naturals
order_item line number quantity price = record {
  line_number = some line;
  item_number = some number;
  item_description = "Item Description";
  quantity = quantity;
  unit_of_measure = some "EA";
  unit_price = price;
  total_price = quantity * price;
  requested_delivery_date = none;
  buyer_part_number = some number;
  vendor_part_number = none;
}

abbrev order_content : Edi850PurchaseOrder naturals
order_content = record {
  po_number = some "PO9";
  po_date = calendar (some (pos 2024)) (some (pos 0)) (some (pos 9));
  buyer = unknown;
  vendor = unknown;
  ship_to = unknown;
  currency = "USD";
  line_items = order_item "1" "A1" 2 5 ∷ order_item "2" "B2" 3 4 ∷ [];
  total_amount = 22;
}

process_edi_document-outcome_example :
    let events = events_of naturals (some "ACME") "EDI-5-A" (purchase_order order_content) in
    let result = process_edi_document naturals env order "ACME" processor in
    (result.0 ≡ refusal (all_pass env.fetch events))
    × (result.1.sent ≡ until_refused env.fetch events)
    × (stored_status "EDI-5-A" result.1.transactions
        ≡ some (if all_pass env.fetch events then processed else parsed))
unfolding parse_edi_envelope split trim_start trim_end rule_of parse_document
    parse850_purchase_order parse_segments parse_edi_date parse_int extract_party_info
process_edi_document-outcome_example =
    process_edi_document-outcome env order "ACME" processor {envelope = order_envelope}
      {partner = supplier} {rule = purchase_order_rule} {content = purchase_order order_content}
      refl refl refl refl

process_all-AllSound_example :
    AllSound (process_all ((env, order, "ACME") ∷ (env, "", "ACME") ∷ []) processor)
process_all-AllSound_example =
    process_all-AllSound ((env, order, "ACME") ∷ (env, "", "ACME") ∷ []) processor tt

abbrev acknowledgment : String
acknowledgment =
    "ISA*00*a*00*b*ZZ*ACME*ZZ*US*240109*1200*U*00401*78*0*P*:~\nGS*997*ACME*US*20240109*1200*78*X*004010~\nAK1*PO*77~AK9*A*1*1*1~"

process_edi_document-own_record_example :
    (t : EdiTransaction naturals) × ((process_edi_document naturals env acknowledgment "ACME"
        processor).1.transactions
      ≡ ("EDI-5-A", t) ∷ [])
    × (t.status ≡ processed)
    × (t.acknowledgment_sent ≡ some 5)
unfolding parse_edi_envelope split trim_start trim_end rule_of parse997_functional_ack
    parse_segments
process_edi_document-own_record_example =
    process_edi_document-own_record env acknowledgment "ACME" processor
      {envelope = record order_envelope {
        transaction_type = some "997";
        control_number = some "78";
      }}
      {partner = supplier}
      {ack = record {
        original_transaction_id = some "78";
        accepted = true;
        error_codes = [];
        error_messages = [];
      }}
      refl refl refl refl refl refl
