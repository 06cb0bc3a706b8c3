-- ===== src/Integration/Edi/Processor/Outcomes.antt =====
-- How a document that parses ends: the error, what was sent, and the status that is stored.
use Prim.Native.String.{String}
use mathlib.Core.Option
use kpm_cursor.Base.{
  String, ◌≡◌, refl, ap, ◌∙◌, inl, inr, Option, some, ◌++◌, arith, eq_iff, str_eq, if◌then◌else◌,
  Bool-cases, Option-cases,
}
use kpm_cursor.Base.Dict.{Dict, get, get-set_same}
use kpm_cursor.Integration.Edi.Types.{
  Numbers, TradingPartner, Envelope, ParsedData, purchase_order, order_acknowledged, ship_notice,
  invoice, functional_ack, Status, received, parsed, processed, EdiTransaction,
}
use kpm_cursor.Integration.Edi.Segments.{parse_edi_envelope}
use kpm_cursor.Integration.Edi.Events.{events_of}
use kpm_cursor.Integration.Edi.Processor.{
  Env, EdiProcessor, Rule, rule_of, change, change_transaction, requires_acknowledgment,
  acknowledged_entry, parse_document, conclude, finish, process_parsed, process_edi_document,
}
use kpm_cursor.Integration.Edi.Processor.Changes.{get-change}
use kpm_cursor.Integration.Edi.Processor.Sends.{
  all_pass, until_refused, refusal, process_document-accepted, process_document-refused,
  process_parsed-sends,
}

module _ {N : Numbers} where
  abbrev pub stored_status : String → Dict (EdiTransaction N) → Option Status
  stored_status id m = Option.map (λ t. t.status) (get id m)

  stored_status-change :
      (k id : String) (f : EdiTransaction N → EdiTransaction N) (m : Dict (EdiTransaction N))
      → ((t : EdiTransaction N) → (f t).status ≡ t.status)
      → stored_status id (change k f m) ≡ stored_status id m
  stored_status-change k id f m keeps =
      ap (Option.map (λ t. t.status)) (get-change k id f m) ∙ elim (Bool-cases (str_eq k id)) [
        | inl e ↦ rw e (elim (Option-cases (get id m)) [
          | inl g ↦ rw g
          | inr (t, g) ↦ rw g (ap some (keeps t))
        ])
        | inr e ↦ rw e
      ]

  stored_status-set :
      (id : String) (status : Status) (f : EdiTransaction N → EdiTransaction N)
      (m : Dict (EdiTransaction N)) (before : Status)
      → ((t : EdiTransaction N) → (f t).status ≡ status)
      → stored_status id m ≡ some before
      → stored_status id (change id f m) ≡ some status
  stored_status-set id status f m before sets known =
      ap (Option.map (λ t. t.status)) (get-change id id f m) ∙ elim (Option-cases (get id m)) [
        | inl g ↦ ground (arith, eq_iff id id)
        | inr (t, g) ↦ rw g (ground (arith, eq_iff id id, sets t))
      ]

  module _ (env : Env N) where
    conclude-status :
        (id : String) (content : ParsedData N) (p : EdiProcessor N)
        → stored_status id (conclude N env id content p).transactions
          ≡ stored_status id p.transactions
    conclude-status id (functional_ack ack) p =
        elim (Option-cases (acknowledged_entry N ack p.transactions)) [
          | inl e ↦ rw e
          | inr ((k, t), e) ↦ rw e (stored_status-change k id _ p.transactions (λ t. refl))
        ]
    conclude-status id (purchase_order po) p = refl
    conclude-status id order_acknowledged p = refl
    conclude-status id (ship_notice notice) p = refl
    conclude-status id (invoice bill) p = refl

    finish-status :
        (rule : Rule) (envelope : Envelope) (p : EdiProcessor N) (before : Status)
        → stored_status env.transaction_id p.transactions ≡ some before
        → stored_status env.transaction_id (finish N env rule envelope p).1.transactions
          ≡ some processed
    finish-status rule envelope p before known =
        let done =
          stored_status-set env.transaction_id processed (λ t. record t { status = processed })
            p.transactions before (λ t. refl) known in
        elim (Bool-cases (requires_acknowledgment rule)) [
          | inl e ↦
              rw e
                (stored_status-change env.transaction_id env.transaction_id _ _ (λ t. refl) ∙ done)
          | inr e ↦ rw e done
        ]

    process_parsed-status :
        (rule : Rule) (envelope : Envelope) (content : ParsedData N) (p : EdiProcessor N)
        (before : Status)
        → stored_status env.transaction_id p.transactions ≡ some before
        → let events = events_of N envelope.sender.id env.transaction_id content in
          let result = process_parsed N env rule envelope (inr content) p in
          stored_status env.transaction_id result.1.transactions
          ≡ some (if all_pass env.fetch events then processed else parsed)
    process_parsed-status rule envelope content p before known =
        let id = env.transaction_id in
        let after : EdiProcessor N =
          change_transaction N id
            (λ t. record t {
              parsed_data = some content;
              status = parsed;
              acknowledgment_required = requires_acknowledgment rule;
            })
            p in
        let is_parsed : (stored_status id after.transactions ≡ some parsed) =
          stored_status-set id parsed _ p.transactions before (λ t. refl) known in
        elim (Bool-cases (all_pass env.fetch (events_of N envelope.sender.id id content))) [
          | inl e ↦
              rw (process_document-accepted env envelope.sender.id id content after e, e)
                (finish-status rule envelope _ parsed (conclude-status id content _ ∙ is_parsed))
          | inr e ↦
              rw (process_document-refused env envelope.sender.id id content after e, e) is_parsed
        ]

-- A document that has an envelope, comes from a known partner, is of a supported kind and parses: its
-- events are sent in order until the message bus refuses one. If none is refused the call succeeds and
-- the transaction is stored as processed; otherwise the call fails and it stays stored as parsed, with
-- the events before the refused one sent.
pub process_edi_document-outcome :
    {N : Numbers} (env : Env N) (raw partner_id : String) (p : EdiProcessor N) {envelope : Envelope}
    {partner : TradingPartner} {rule : Rule} {content : ParsedData N}
    → parse_edi_envelope raw ≡ inr envelope
    → get partner_id p.trading_partners ≡ some partner
    → rule_of envelope.transaction_type ≡ some rule
    → parse_document N rule raw envelope ≡ inr content
    → let events = events_of N envelope.sender.id env.transaction_id content in
      let result = process_edi_document N env raw partner_id p in
      (result.0 ≡ refusal (all_pass env.fetch events))
      × (result.1.sent ≡ p.sent ++ until_refused env.fetch events)
      × (stored_status env.transaction_id result.1.transactions
          ≡ some (if all_pass env.fetch events then processed else parsed))
unfolding process_edi_document
process_edi_document-outcome {N} env raw partner_id p {envelope} {rule = rule} {content} he hp hr
      hd =
    rw (hp, he, hr, hd)
      (
        (process_parsed-sends env rule envelope content _).0,
        (process_parsed-sends env rule envelope content _).1,
        process_parsed-status env rule envelope content _ received
            (ap (Option.map (λ t. t.status)) (get-set_same env.transaction_id _ p.transactions)),
      )
