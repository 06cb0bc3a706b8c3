-- ===== src/Integration/Edi/Processor.antt =====
-- The class `EdiProcessor` of integration-service/src/connectors/edi-processor.ts: `processEdiDocument`,
-- the processors of the kinds of documents, the acknowledgments and the public methods. A transaction is
-- an object that the map shares with the method that works on it, so it is changed in the map, under its
-- id. `Env` says what the clock, the random numbers and `fetch` give.
pub mod Changes
pub mod Sends
pub mod Sound
pub mod Unmatched
pub mod Outcomes
use Prim.Native.String.{String}
use kpm_cursor.Base.{
  String, ◌⊎◌, inl, inr, Bool, true, false, Option, none, some, List, [], ◌∷◌, ◌++◌, str_eq,
  if◌then◌else◌, filter, find,
}
use kpm_cursor.Base.Dict.{Dict, get, set, values}
use kpm_cursor.Integration.Edi.Types.{
  Numbers, TradingPartner, Envelope, EdiAcknowledgment, ParsedData, purchase_order,
  order_acknowledged, ship_notice, invoice, functional_ack, Status, received, parsed, processed,
  error, acknowledged, EdiTransaction, EdiError, unknown_trading_partner, unsupported_type,
  kmp_request_failed,
}
use kpm_cursor.Integration.Edi.Segments.{is_text, parse_segments, parse_edi_envelope}
use kpm_cursor.Integration.Edi.Documents.{
  same_text, parse850_purchase_order, parse856_ship_notice, parse810_invoice,
  parse997_functional_ack,
}
use kpm_cursor.Integration.Edi.Acknowledgments.{Clock, generate997_acknowledgment}
use kpm_cursor.Integration.Edi.Events.{KmpEvent, events_of}

-- What is emitted, less the objects that come along.
pub data Emitted : Type 0 where
  purchase_order_processed ship_notice_processed invoice_processed : String → Emitted
  functional_ack_processed : String → Option String → Emitted
  acknowledgment_emitted : String → String → Emitted
  transaction_processed : String → Emitted

pub record Env (N : Numbers) : Type 0 where
  pub clock : Clock
  pub transaction_id : String
  pub control_number : String
  -- whether the message bus accepts the event
  pub fetch : KmpEvent N → Bool

pub record EdiProcessor (N : Numbers) : Type 0 where
  pub trading_partners : Dict TradingPartner
  pub transactions : Dict (EdiTransaction N)
  -- the events that the message bus accepted, and what was emitted
  pub sent : List (KmpEvent N)
  pub emitted : List Emitted

-- The kinds of documents that `initializeProcessingRules` knows.
pub data Rule : Type 0 where
  purchase_order_rule acknowledgment_rule ship_notice_rule invoice_rule functional_ack_rule : Rule

abbrev rule_table : Dict Rule
rule_table =
    ("850", purchase_order_rule)
    ∷ ("855", acknowledgment_rule)
    ∷ ("856", ship_notice_rule)
    ∷ ("810", invoice_rule)
    ∷ ("997", functional_ack_rule)
    ∷ []

unfoldable pub rule_of : Option String → Option Rule
rule_of none = none
rule_of (some kind) = get kind rule_table

abbrev pub requires_acknowledgment : Rule → Bool
requires_acknowledgment purchase_order_rule = true
requires_acknowledgment acknowledgment_rule = false
requires_acknowledgment ship_notice_rule = true
requires_acknowledgment invoice_rule = true
requires_acknowledgment functional_ack_rule = false

abbrev pub Outcome : Numbers → Type 0
Outcome N = Option EdiError × EdiProcessor N

abbrev wrap {ℓ} : {A B : Type ℓ} → (A → B) → EdiError ⊎ A → EdiError ⊎ B
wrap f (inl e) = inl e
wrap f (inr a) = inr (f a)

-- A change of the object that is stored under a key.
abbrev pub change {ℓ} : {V : Type ℓ} → String → (V → V) → Dict V → Dict V
change k f [] = []
change k f ((j, v) ∷ m) = if str_eq j k then (j, f v) ∷ m else (j, v) ∷ change k f m

module _ (N : Numbers) where
  unfoldable pub parse_document : Rule → String → Envelope → EdiError ⊎ ParsedData N
  parse_document purchase_order_rule raw envelope =
      wrap purchase_order (parse850_purchase_order N (parse_segments raw))
  parse_document acknowledgment_rule raw envelope = inr order_acknowledged
  parse_document ship_notice_rule raw envelope =
      wrap ship_notice (parse856_ship_notice N (parse_segments raw))
  parse_document invoice_rule raw envelope = wrap invoice (parse810_invoice N (parse_segments raw))
  parse_document functional_ack_rule raw envelope =
      wrap functional_ack (parse997_functional_ack (parse_segments raw) envelope)

  abbrev pub change_transaction :
      String → (EdiTransaction N → EdiTransaction N) → EdiProcessor N → EdiProcessor N
  change_transaction id f p = record p { transactions = change id f p.transactions }

  abbrev pub emit : Emitted → EdiProcessor N → EdiProcessor N
  emit e p = record p { emitted = p.emitted ++ e ∷ [] }

  abbrev pub send_to_kmp : Env N → KmpEvent N → EdiProcessor N → Outcome N
  send_to_kmp env event p =
      if env.fetch event
      then (none, record p { sent = p.sent ++ event ∷ [] })
      else (some kmp_request_failed, p)

  abbrev pub then_do : (EdiProcessor N → Outcome N) → Outcome N → Outcome N
  then_do next (none, p) = next p
  then_do next (some e, p) = (some e, p)

  -- `for (const event of events) await this.sendToKMP(event)`
  unfoldable pub send_each : Env N → List (KmpEvent N) → EdiProcessor N → Outcome N
  send_each env [] p = (none, p)
  send_each env (event ∷ events) p = then_do (send_each env events) (send_to_kmp env event p)

  -- The first transaction with the acknowledged number, in the order of the map.
  abbrev pub acknowledged_entry :
      EdiAcknowledgment → Dict (EdiTransaction N) → Option (String × EdiTransaction N)
  acknowledged_entry ack transactions =
      find (λ e. same_text e.1.control_number ack.original_transaction_id) transactions

  abbrev pub mark_original :
      Env N → String → Option (String × EdiTransaction N) → EdiProcessor N → EdiProcessor N
  mark_original env id none p = emit (functional_ack_processed id none) p
  mark_original env id (some (original, t)) p =
      emit (functional_ack_processed id (some original)) (
        change_transaction original (λ t. record t { acknowledgment_sent = some env.clock.time }) p)

  -- What the processor of a kind does after it has sent the events.
  abbrev pub conclude : Env N → String → ParsedData N → EdiProcessor N → EdiProcessor N
  conclude env id (purchase_order po) p = emit (purchase_order_processed id) p
  conclude env id order_acknowledged p = p
  conclude env id (ship_notice notice) p = emit (ship_notice_processed id) p
  conclude env id (invoice bill) p = emit (invoice_processed id) p
  conclude env id (functional_ack ack) p =
      mark_original env id (acknowledged_entry ack p.transactions) p

  unfoldable pub process_document :
      Env N → Option String → String → ParsedData N → EdiProcessor N → Outcome N
  process_document env sender id content p =
      then_do (λ q. (none, conclude env id content q))
        (send_each env (events_of N sender id content) p)

  abbrev pub send_functional_acknowledgment :
      Env N → String → Envelope → EdiProcessor N → EdiProcessor N
  send_functional_acknowledgment env id envelope p =
      emit
        (acknowledgment_emitted id (
          generate997_acknowledgment envelope.transaction_type envelope.control_number true
            env.clock env.control_number))
        (change_transaction id (λ t. record t { acknowledgment_sent = some env.clock.time }) p)

  abbrev pub received_transaction : Env N → Envelope → String → EdiTransaction N
  received_transaction env envelope raw = record {
    transaction_id = env.transaction_id;
    transaction_type = envelope.transaction_type;
    sender = envelope.sender;
    receiver = envelope.receiver;
    timestamp = env.clock.time;
    control_number = envelope.control_number;
    raw_data = raw;
    parsed_data = none;
    status = received;
    error_messages = [];
    acknowledgment_required = false;
    acknowledgment_sent = none;
  }

  -- The transaction is processed: its status, the acknowledgment and the last event.
  abbrev pub finish : Env N → Rule → Envelope → EdiProcessor N → Outcome N
  finish env rule envelope p =
      let done = change_transaction env.transaction_id (λ t. record t { status = processed }) p in
      (
        none,
        emit (transaction_processed env.transaction_id) (
            if requires_acknowledgment rule
            then send_functional_acknowledgment env env.transaction_id envelope done
            else done),
      )

  abbrev pub process_parsed :
      Env N → Rule → Envelope → EdiError ⊎ ParsedData N → EdiProcessor N → Outcome N
  process_parsed env rule envelope (inl e) p = (some e, p)
  process_parsed env rule envelope (inr content) p = then_do (finish env rule envelope) (
      process_document env envelope.sender.id env.transaction_id content (
        change_transaction env.transaction_id
          (λ t. record t {
            parsed_data = some content;
            status = parsed;
            acknowledgment_required = requires_acknowledgment rule;
          })
          p))

  abbrev pub process_by : Env N → Option Rule → Envelope → String → EdiProcessor N → Outcome N
  process_by env none envelope raw p = (some (unsupported_type envelope.transaction_type), p)
  process_by env (some rule) envelope raw p =
      process_parsed env rule envelope (parse_document rule raw envelope) p

  abbrev pub process_from :
      Env N
      → String
      → String
      → Option TradingPartner
      → EdiError ⊎ Envelope
      → EdiProcessor N
      → Outcome N
  process_from env raw partner_id partner (inl e) p = (some e, p)
  process_from env raw partner_id none (inr envelope) p =
      (some (unknown_trading_partner partner_id), p)
  process_from env raw partner_id (some partner) (inr envelope) p =
      process_by env (rule_of envelope.transaction_type) envelope raw (record p {
        transactions =
            set env.transaction_id (received_transaction env envelope raw) p.transactions;
      })

  -- The transaction that is returned is the one under the id of `env`.
  unfoldable pub process_edi_document : Env N → String → String → EdiProcessor N → Outcome N
  process_edi_document env raw partner_id p =
      process_from env raw partner_id (get partner_id p.trading_partners) (parse_edi_envelope raw) p

  -- `id` is the partner's own, which is a text here.
  unfoldable pub add_trading_partner : String → TradingPartner → EdiProcessor N → EdiProcessor N
  add_trading_partner id partner p = record p {
    trading_partners = set id partner p.trading_partners;
  }

  abbrev pub get_trading_partner : String → EdiProcessor N → Option TradingPartner
  get_trading_partner id p = get id p.trading_partners

  abbrev pub get_transaction : String → EdiProcessor N → Option (EdiTransaction N)
  get_transaction id p = get id p.transactions

  abbrev is_status : Status → Status → Bool
  is_status received received = true
  is_status parsed parsed = true
  is_status processed processed = true
  is_status error error = true
  is_status acknowledged acknowledged = true
  is_status _ _ = false

  abbrev pub get_transactions_by_status : Status → EdiProcessor N → List (EdiTransaction N)
  get_transactions_by_status status p =
      filter (λ t. is_status t.status status) (values p.transactions)

  abbrev pub get_transactions_by_type : String → EdiProcessor N → List (EdiTransaction N)
  get_transactions_by_type kind p =
      filter (λ t. is_text t.transaction_type kind) (values p.transactions)
