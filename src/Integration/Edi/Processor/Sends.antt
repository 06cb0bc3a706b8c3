-- ===== src/Integration/Edi/Processor/Sends.antt =====
-- What reaches the message bus for a document.
use mathlib.Core.List.{append-nil, append_assoc}
use kpm_cursor.Base.{
  String, ◌≡◌, refl, ◌∙◌, inl, inr, Bool, true, false, Option, none, some, List, [], ◌∷◌, ◌++◌,
  if◌then◌else◌, Bool-cases, Option-cases,
}
use kpm_cursor.Integration.Edi.Types.{
  Numbers, Envelope, ParsedData, purchase_order, order_acknowledged, ship_notice, invoice,
  functional_ack, EdiError, kmp_request_failed,
}
use kpm_cursor.Integration.Edi.Events.{KmpEvent, events_of}
use kpm_cursor.Integration.Edi.Processor.{
  Env, EdiProcessor, Rule, send_each, process_document, conclude, acknowledged_entry, finish,
  requires_acknowledgment, process_parsed,
}

module _ {ℓ} {A : Type ℓ} where
  -- The elements before the first that fails the test.
  abbrev pub until_refused : (A → Bool) → List A → List A
  until_refused p [] = []
  until_refused p (x ∷ xs) = if p x then x ∷ until_refused p xs else []

  abbrev pub all_pass : (A → Bool) → List A → Bool
  all_pass p [] = true
  all_pass p (x ∷ xs) = if p x then all_pass p xs else false

abbrev pub refusal : Bool → Option EdiError
refusal accepted = if accepted then none else some kmp_request_failed

module _ {N : Numbers} (env : Env N) where
  send_each-accepted :
      (events : List (KmpEvent N)) (p : EdiProcessor N)
      → send_each N env events p ≡ (
        refusal (all_pass env.fetch events),
        record p { sent = p.sent ++ until_refused env.fetch events },
      )
  unfolding send_each
  send_each-accepted [] p = rw append-nil
  send_each-accepted (event ∷ events) p = elim (Bool-cases (env.fetch event)) [
    | inl e ↦
        rw (e, send_each-accepted events (record p { sent = p.sent ++ event ∷ [] }), append_assoc)
    | inr e ↦ rw (e, append-nil)
  ]

  conclude-sent :
      (id : String) (content : ParsedData N) (p : EdiProcessor N)
      → (conclude N env id content p).sent ≡ p.sent
  conclude-sent id (purchase_order po) p = refl
  conclude-sent id order_acknowledged p = refl
  conclude-sent id (ship_notice notice) p = refl
  conclude-sent id (invoice bill) p = refl
  conclude-sent id (functional_ack ack) p =
      elim (Option-cases (acknowledged_entry N ack p.transactions)) [
        | inl e ↦ rw e
        | inr (a, e) ↦ rw e
      ]

  finish-sent :
      (rule : Rule) (envelope : Envelope) (p : EdiProcessor N)
      → (finish N env rule envelope p).1.sent ≡ p.sent
  finish-sent rule envelope p = elim (Bool-cases (requires_acknowledgment rule)) [
    | inl e ↦ rw e
    | inr e ↦ rw e
  ]

  abbrev pub sent_until_refused : List (KmpEvent N) → EdiProcessor N → EdiProcessor N
  sent_until_refused events p = record p { sent = p.sent ++ until_refused env.fetch events }

  pub process_document-accepted :
      (sender : Option String) (id : String) (content : ParsedData N) (p : EdiProcessor N)
      → all_pass env.fetch (events_of N sender id content) ≡ true
      → process_document N env sender id content p
        ≡ (none, conclude N env id content (sent_until_refused (events_of N sender id content) p))
  unfolding process_document
  process_document-accepted sender id content p h =
      rw (send_each-accepted (events_of N sender id content) p, h)

  pub process_document-refused :
      (sender : Option String) (id : String) (content : ParsedData N) (p : EdiProcessor N)
      → all_pass env.fetch (events_of N sender id content) ≡ false
      → process_document N env sender id content p
        ≡ (some kmp_request_failed, sent_until_refused (events_of N sender id content) p)
  unfolding process_document
  process_document-refused sender id content p h =
      rw (send_each-accepted (events_of N sender id content) p, h)

  pub process_parsed-sends :
      (rule : Rule) (envelope : Envelope) (content : ParsedData N) (p : EdiProcessor N)
      → let events = events_of N envelope.sender.id env.transaction_id content in
        let result = process_parsed N env rule envelope (inr content) p in
        (result.0 ≡ refusal (all_pass env.fetch events))
        × (result.1.sent ≡ p.sent ++ until_refused env.fetch events)
  process_parsed-sends rule envelope content p =
      elim (Bool-cases
        (all_pass env.fetch (events_of N envelope.sender.id env.transaction_id content))) [
          | inl e ↦
              rw (process_document-accepted envelope.sender.id env.transaction_id content _ e, e)
                (refl, finish-sent rule envelope _ ∙ conclude-sent env.transaction_id content _)
          | inr e ↦
              rw (process_document-refused envelope.sender.id env.transaction_id content _ e, e)
                (refl, refl)
        ]
