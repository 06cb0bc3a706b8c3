-- ===== src/Integration/Edi/Processor/Unmatched.antt =====
-- What processing a functional acknowledgment (997) does to the stored transactions.
use Prim.Native.String.{String}
use kpm_cursor.Base.{
  String, ◌≡◌, refl, inl, inr, Bool, true, Option, none, some, List, [], ◌∷◌, ◌++◌, arith, eq_iff,
  Option-cases, find,
}
use kpm_cursor.Base.Dict.{get}
use kpm_cursor.Integration.Edi.Types.{
  Numbers, TradingPartner, Envelope, Segment, EdiAcknowledgment, functional_ack, parsed, processed,
  EdiTransaction,
}
use kpm_cursor.Integration.Edi.Segments.{has_tag, parse_edi_envelope, parse_segments}
use kpm_cursor.Integration.Edi.Documents.{same_text, parse997_functional_ack}
use kpm_cursor.Integration.Edi.Processor.{
  acknowledged_entry, Env, EdiProcessor, functional_ack_rule, rule_of, parse_document, send_each,
  process_document, received_transaction, process_edi_document,
}
use kpm_cursor.Integration.Edi.Processor.Changes.{set-new, change-last}

find-last :
    {A : Type 0} (p : A → Bool) (x : A) (xs : List A)
    → find p xs ≡ none
    → p x ≡ true
    → find p (xs ++ x ∷ []) ≡ some x
find-last p x [] h e = rw e
find-last p x (y ∷ xs) h e = ground (arith, find-last p x xs)

same_text_self : (o : Option String) → same_text o o ≡ true
same_text_self none = refl
same_text_self (some s) = ground (arith, eq_iff s s)

own_number :
    (segments : List Segment) (envelope : Envelope) (ack : EdiAcknowledgment)
    → parse997_functional_ack segments envelope ≡ inr ack
    → ack.original_transaction_id ≡ envelope.control_number
unfolding parse997_functional_ack
own_number segments envelope ack h = elim (Option-cases (find (has_tag "AK1") segments)) [
  | inl e ↦ ground arith
  | inr (ak1, e) ↦ elim (Option-cases (find (has_tag "AK9") segments)) [
    | inl f ↦ ground arith
    | inr (ak9, f) ↦ ground arith
  ]
]

-- A functional acknowledgment of a known partner, under a new id, whose own control number no stored
-- transaction has: the transactions before it stay as they were, and it is marked as acknowledged itself.
pub process_edi_document-own_record :
    {N : Numbers} (env : Env N) (raw partner_id : String) (p : EdiProcessor N) {envelope : Envelope}
    {partner : TradingPartner} {ack : EdiAcknowledgment}
    → parse_edi_envelope raw ≡ inr envelope
    → get partner_id p.trading_partners ≡ some partner
    → rule_of envelope.transaction_type ≡ some functional_ack_rule
    → parse997_functional_ack (parse_segments raw) envelope ≡ inr ack
    → get env.transaction_id p.transactions ≡ none
    → find (λ e. same_text e.1.control_number envelope.control_number) p.transactions ≡ none
    → let after = (process_edi_document N env raw partner_id p).1.transactions in
      (t : EdiTransaction N) × (after ≡ p.transactions ++ (env.transaction_id, t) ∷ [])
      × (t.status ≡ processed)
      × (t.acknowledgment_sent ≡ some env.clock.time)
unfolding process_edi_document parse_document process_document send_each
process_edi_document-own_record {N} env raw partner_id p {envelope} {ack = ack} he hp hr hd new
      unmatched =
    let id = env.transaction_id in
    let own : (ack.original_transaction_id ≡ envelope.control_number) =
      own_number (parse_segments raw) envelope ack hd in
    let none_acked : (acknowledged_entry N ack p.transactions ≡ none) = rw own unmatched in
    let self_acked : (same_text envelope.control_number ack.original_transaction_id ≡ true) =
      rw own (same_text_self envelope.control_number) in
    let t : EdiTransaction N = record (received_transaction N env envelope raw) {
      parsed_data = some (functional_ack ack);
      status = processed;
      acknowledgment_sent = some env.clock.time;
    } in
    rw
      (
        hp,
        he,
        hr,
        hd,
        set-new id (received_transaction N env envelope raw) p.transactions new,
        change-last id _ _ p.transactions new,
        find-last (λ e. same_text e.1.control_number ack.original_transaction_id)
            (id, record t { status = parsed; acknowledgment_sent = none }) p.transactions none_acked
            self_acked,
        change-last id _ _ p.transactions new,
        change-last id _ _ p.transactions new,
      )
      (t, refl, refl, refl)
