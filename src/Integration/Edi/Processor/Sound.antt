-- ===== src/Integration/Edi/Processor/Sound.antt =====
-- The stored transactions: what their status says of their content and acknowledgment.
use Prim.Native.String.{String}
use kpm_cursor.Base.{
  ℕ, String, ◌≡◌, refl, subst, ◌⊎◌, inl, inr, Bool, true, false, Option, none, some, List, [], ◌∷◌,
  arith, eq_iff, str_eq, Bool-cases, Option-cases, is_some, All,
}
use kpm_cursor.Base.Dict.{Dict, get, All-set}
use kpm_cursor.Integration.Edi.Types.{
  Numbers, TradingPartner, Envelope, ParsedData, purchase_order, order_acknowledged, ship_notice,
  invoice, functional_ack, Status, received, parsed, processed, error, acknowledged, EdiTransaction,
  EdiError,
}
use kpm_cursor.Integration.Edi.Segments.{parse_edi_envelope}
use kpm_cursor.Integration.Edi.Events.{events_of}
use kpm_cursor.Integration.Edi.Processor.{
  Env, EdiProcessor, Rule, rule_of, change, requires_acknowledgment, acknowledged_entry,
  parse_document, conclude, finish, change_transaction, process_parsed, process_by, process_from,
  process_edi_document,
}
use kpm_cursor.Integration.Edi.Processor.Changes.{get-change, All-change, change-change}
use kpm_cursor.Integration.Edi.Processor.Sends.{
  all_pass, process_document-accepted, process_document-refused,
}

-- By status: whether there is content, an acknowledgment is required, and one was sent.
abbrev pub Fits : Status → Bool → Bool → Bool → Type 0
Fits received content required sent = (content ≡ false) × (required ≡ false)
Fits parsed content required sent = content ≡ true
Fits processed content required sent = (content ≡ true) × (required ≡ true → sent ≡ true)
Fits error content required sent = false ≡ true
Fits acknowledged content required sent = false ≡ true

Fits-sent :
    (status : Status) (content required sent : Bool)
    → Fits status content required sent
    → Fits status content required true
Fits-sent received content required sent h = h
Fits-sent parsed content required sent h = h
Fits-sent processed content required sent h = (h.0, λ _. refl)
Fits-sent error content required sent h = h
Fits-sent acknowledged content required sent h = h

module _ {N : Numbers} where
  abbrev pub IsSound : EdiTransaction N → Type 0
  IsSound t =
      Fits t.status (is_some t.parsed_data) t.acknowledgment_required
        (is_some t.acknowledgment_sent)

  abbrev pub AllSound : EdiProcessor N → Type 0
  AllSound p = All (λ e. IsSound e.1) p.transactions

  -- The transaction under way, once it is parsed.
  abbrev IsReady : Rule → Option (EdiTransaction N) → Type 0
  IsReady rule none = Unit
  IsReady rule (some t) =
      (is_some t.parsed_data ≡ true) × (t.acknowledgment_required ≡ requires_acknowledgment rule)

  abbrev mark : ℕ → EdiTransaction N → EdiTransaction N
  mark time t = record t { acknowledgment_sent = some time }

  IsReady-change :
      (rule : Rule) (k j : String) (time : ℕ) (m : Dict (EdiTransaction N))
      → IsReady rule (get j m)
      → IsReady rule (get j (change k (mark time) m))
  IsReady-change rule k j time m h =
      rw (get-change k j (mark time) m) (elim (Bool-cases (str_eq k j)) [
        | inl e ↦ rw e (elim (Option-cases (get j m)) [
          | inl g ↦ rw g tt
          | inr (t, g) ↦ rw g (subst (IsReady rule) g h)
        ])
        | inr e ↦ rw e h
      ])

  module _ (env : Env N) where
    conclude-AllSound :
        (id : String) (content : ParsedData N) (p : EdiProcessor N)
        → AllSound p
        → AllSound (conclude N env id content p)
    conclude-AllSound id (functional_ack ack) p h =
        elim (Option-cases (acknowledged_entry N ack p.transactions)) [
          | inl e ↦ rw e h
          | inr ((k, t), e) ↦ rw e (
              All-change IsSound k (mark env.clock.time) p.transactions h
                (λ v _. Fits-sent v.status _ _ _))
        ]
    conclude-AllSound id (purchase_order po) p h = h
    conclude-AllSound id order_acknowledged p h = h
    conclude-AllSound id (ship_notice notice) p h = h
    conclude-AllSound id (invoice bill) p h = h

    conclude-IsReady :
        (rule : Rule) (id : String) (content : ParsedData N) (p : EdiProcessor N)
        → IsReady rule (get id p.transactions)
        → IsReady rule (get id (conclude N env id content p).transactions)
    conclude-IsReady rule id (functional_ack ack) p h =
        elim (Option-cases (acknowledged_entry N ack p.transactions)) [
          | inl e ↦ rw e h
          | inr ((k, t), e) ↦ rw e (IsReady-change rule k id env.clock.time p.transactions h)
        ]
    conclude-IsReady rule id (purchase_order po) p h = h
    conclude-IsReady rule id order_acknowledged p h = h
    conclude-IsReady rule id (ship_notice notice) p h = h
    conclude-IsReady rule id (invoice bill) p h = h

    finish-AllSound :
        (rule : Rule) (envelope : Envelope) (p : EdiProcessor N)
        → AllSound p
        → IsReady rule (get env.transaction_id p.transactions)
        → AllSound (finish N env rule envelope p).1
    finish-AllSound rule envelope p h ready = elim (Bool-cases (requires_acknowledgment rule)) [
      | inl e ↦
          rw
            (
              e,
              change-change env.transaction_id (mark env.clock.time)
                  (λ t. record t { status = processed }),
            )
            (All-change IsSound env.transaction_id _ p.transactions h
              (λ v g _. ((subst (IsReady rule) g ready).0, λ _. refl)))
      | inr e ↦ rw e (
          All-change IsSound env.transaction_id _ p.transactions h (λ v g _.
            let r : IsReady rule (some v) = subst (IsReady rule) g ready in
            (r.0, λ required. ground arith)))
    ]

    abbrev parse_into : Rule → ParsedData N → EdiTransaction N → EdiTransaction N
    parse_into rule content t = record t {
      parsed_data = some content;
      status = parsed;
      acknowledgment_required = requires_acknowledgment rule;
    }

    parse_into-AllSound :
        (rule : Rule) (content : ParsedData N) (p : EdiProcessor N)
        → AllSound p
        → AllSound (change_transaction N env.transaction_id (parse_into rule content) p)
    parse_into-AllSound rule content p h =
        All-change IsSound env.transaction_id (parse_into rule content) p.transactions h
          (λ v _ _. refl)

    parse_into-IsReady :
        (rule : Rule) (content : ParsedData N) (p : EdiProcessor N)
        → IsReady rule (
            get env.transaction_id
              (change env.transaction_id (parse_into rule content) p.transactions))
    parse_into-IsReady rule content p =
        rw
          (get-change env.transaction_id env.transaction_id (parse_into rule content)
            p.transactions)
          (elim (Option-cases (get env.transaction_id p.transactions)) [
            | inl g ↦ rw g (ground (arith, eq_iff env.transaction_id env.transaction_id))
            | inr (t, g) ↦ ground (arith, eq_iff env.transaction_id env.transaction_id)
          ])

    process_parsed-AllSound :
        (rule : Rule) (envelope : Envelope) (parse : EdiError ⊎ ParsedData N) (p : EdiProcessor N)
        → AllSound p
        → AllSound (process_parsed N env rule envelope parse p).1
    process_parsed-AllSound rule envelope (inl e) p h = h
    process_parsed-AllSound rule envelope (inr content) p h =
        let after : EdiProcessor N =
          change_transaction N env.transaction_id (parse_into rule content) p in
        let sound : AllSound after = parse_into-AllSound rule content p h in
        elim (Bool-cases
          (all_pass env.fetch (events_of N envelope.sender.id env.transaction_id content))) [
            | inl e ↦
                rw
                  (process_document-accepted env envelope.sender.id env.transaction_id content after
                    e)
                  (finish-AllSound rule envelope _
                    (conclude-AllSound env.transaction_id content _ sound)
                    (conclude-IsReady rule env.transaction_id content _
                      (parse_into-IsReady rule content p)))
            | inr e ↦
                rw
                  (process_document-refused env envelope.sender.id env.transaction_id content after
                    e)
                  sound
          ]

    process_by-AllSound :
        (rule : Option Rule) (envelope : Envelope) (raw : String) (p : EdiProcessor N)
        → AllSound p
        → AllSound (process_by N env rule envelope raw p).1
    process_by-AllSound none envelope raw p h = h
    process_by-AllSound (some rule) envelope raw p h =
        process_parsed-AllSound rule envelope (parse_document N rule raw envelope) p h

    process_from-AllSound :
        (raw partner_id : String) (partner : Option TradingPartner) (parse : EdiError ⊎ Envelope)
        (p : EdiProcessor N)
        → AllSound p
        → AllSound (process_from N env raw partner_id partner parse p).1
    process_from-AllSound raw partner_id partner (inl e) p h = h
    process_from-AllSound raw partner_id none (inr envelope) p h = h
    process_from-AllSound raw partner_id (some partner) (inr envelope) p h =
        process_by-AllSound (rule_of envelope.transaction_type) envelope raw _
          (All-set IsSound env.transaction_id _ p.transactions (refl, refl) h)

  abbrev pub process_all : List (Env N × String × String) → EdiProcessor N → EdiProcessor N
  process_all [] p = p
  process_all ((env, raw, partner_id) ∷ documents) p =
      process_all documents (process_edi_document N env raw partner_id p).1

  -- Whatever documents come, and whether or not the message bus accepts their events, every stored
  -- transaction fits its status, if they did before: it has content from when it is parsed, one that is
  -- processed has its acknowledgment sent where one is required, and none is in error or acknowledged.
  pub process_all-AllSound :
      (documents : List (Env N × String × String)) (p : EdiProcessor N)
      → AllSound p
      → AllSound (process_all documents p)
  unfolding process_edi_document
  process_all-AllSound [] p h = h
  process_all-AllSound ((env, raw, partner_id) ∷ documents) p h = process_all-AllSound documents _ (
      process_from-AllSound env raw partner_id (get partner_id p.trading_partners)
        (parse_edi_envelope raw) p h)
