-- ===== src/MessageBus/Anchoring/Conservation.antt =====
-- Which events reach the pending file (message_bus/src/enhanced-dual-mode-handler.ts).
use kpm_cursor.Base.{
  ℕ, String, ◌≡◌, refl, ap, ◌∙◌, sym, Bool, true, false, List, [], ◌∷◌, ◌++◌, map, length, arith,
  leb, if◌then◌else◌, Bool-cases, inl, inr, All,
}
use mathlib.Core.List.{append_assoc, append-nil}
use mathlib.Core.List.{map-append}
use mathlib.Core.Path.{ap₂}
use kpm_cursor.MessageBus.Wallets.Laws.{verify-sign, event_data-sign}
use kpm_cursor.MessageBus.Wallets.{
  IsCrypto, Crypto, Manager, EventData, SignedSupplyChainEvent, sign_supply_chain_event,
}
use kpm_cursor.MessageBus.Anchoring.{
  Mode, immediate, batch, PendingRoot, Handler, CallEnv, Input, request, timer, batch_limit,
  process_batch, process_batch_anchoring, process_immediate_anchoring, process_supply_chain_event,
  handle, run, flush, batch_line, immediate_line, anchoring_transaction, write_to_pending_roots,
  anchor,
}

abbrev pub is_mode : Mode → Mode → Bool
is_mode immediate immediate = true
is_mode batch batch = true
is_mode _ _ = false

abbrev pub data_of : List SignedSupplyChainEvent → List EventData
data_of = map (λ e. e.event_data)

-- The events of the lines of one mode, in the order of the file.
abbrev pub anchored_by : Mode → List PendingRoot → List EventData
anchored_by m [] = []
anchored_by m (line ∷ lines) =
    let rest = anchored_by m lines in
    if is_mode line.mode m then data_of line.anchoring_transaction.company_events ++ rest else rest

abbrev waiting : Mode → Handler → List EventData
waiting immediate h = []
waiting batch h = data_of h.batched_events

-- What a handler holds of one mode: the events in the file, then those that wait.
abbrev pub recorded : Mode → Handler → List EventData
recorded m h = anchored_by m h.pending ++ waiting m h

-- The events that were asked for in one mode.
abbrev pub requested : Mode → List Input → List EventData
requested m [] = []
requested m (request env r ∷ is) =
    let rest = requested m is in if is_mode r.mode m then r.event ∷ rest else rest
requested m (timer appended now ∷ is) = requested m is

abbrev pub WasAppended : Input → Type 0
WasAppended (request env r) = env.appended ≡ true
WasAppended (timer appended now) = appended ≡ true

anchored_by-append :
    (m : Mode) (xs ys : List PendingRoot)
    → anchored_by m (xs ++ ys) ≡ anchored_by m xs ++ anchored_by m ys
anchored_by-append m [] ys = refl
anchored_by-append m (x ∷ xs) ys = elim (Bool-cases (is_mode x.mode m)) [
  | inl e ↦
      rw (e, anchored_by-append m xs ys)
        (sym (
          append_assoc (data_of x.anchoring_transaction.company_events) (anchored_by m xs)
            (anchored_by m ys)))
  | inr e ↦ rw e (anchored_by-append m xs ys)
]

requested-cons :
    (m : Mode) (i : Input) (is : List Input)
    → requested m (i ∷ []) ++ requested m is ≡ requested m (i ∷ is)
requested-cons m (request env r) is = ground arith
requested-cons m (timer appended now) is = refl

module _ (c : Crypto) (key mnemonic address : String) where
  flush-recorded :
      (m : Mode) (events : List SignedSupplyChainEvent) (now : ℕ) (h : Handler)
      → h.batched_events ≡ events
      → recorded m (flush c key mnemonic address events true now h) ≡ recorded m h
  unfolding flush write_to_pending_roots batch_line anchoring_transaction
  flush-recorded m [] now h e = refl
  flush-recorded immediate (x ∷ xs) now h e =
      rw (anchored_by-append immediate h.pending) (ap (λ x. x ++ []) (append-nil _))
  flush-recorded batch (x ∷ xs) now h e =
      rw (anchored_by-append batch h.pending, e) (simp append-nil)

  immediate-recorded :
      (m : Mode) (env : CallEnv) (signed : SignedSupplyChainEvent) (h : Handler)
      → env.appended ≡ true
      → recorded m (process_immediate_anchoring c key mnemonic address env signed h).0
        ≡ recorded m h ++ (if is_mode immediate m then signed.event_data ∷ [] else [])
  unfolding process_immediate_anchoring write_to_pending_roots immediate_line anchoring_transaction
  immediate-recorded immediate env signed h e =
      rw (e, anchored_by-append immediate h.pending) (simp append-nil)
  immediate-recorded batch env signed h e =
      rw (e, anchored_by-append batch h.pending) (simp append-nil)

  push-recorded :
      (m : Mode) (signed : SignedSupplyChainEvent) (h : Handler)
      → recorded m (record h { batched_events = h.batched_events ++ signed ∷ [] })
        ≡ recorded m h ++ (if is_mode batch m then signed.event_data ∷ [] else [])
  push-recorded immediate signed h = simp append-nil
  push-recorded batch signed h = simp (map-append, append_assoc)

  batch-recorded :
      (m : Mode) (env : CallEnv) (signed : SignedSupplyChainEvent) (h : Handler)
      → env.appended ≡ true
      → recorded m (process_batch_anchoring c key mnemonic address env signed h).0
        ≡ recorded m h ++ (if is_mode batch m then signed.event_data ∷ [] else [])
  unfolding process_batch_anchoring process_batch
  batch-recorded m env signed h e =
      let events = h.batched_events ++ signed ∷ [] in
      let pushed = record h { batched_events = events } in
      elim (Bool-cases (leb batch_limit (length events))) [
        | inl full ↦
            rw (full, e) (flush-recorded m events env.now pushed refl ∙ push-recorded m signed h)
        | inr room ↦ rw room (push-recorded m signed h)
      ]

  anchor-recorded :
      (m k : Mode) (env : CallEnv) (signed : SignedSupplyChainEvent) (h : Handler)
      → env.appended ≡ true
      → recorded m (anchor c key mnemonic address k env signed h).0
        ≡ recorded m h ++ (if is_mode k m then signed.event_data ∷ [] else [])
  unfolding anchor
  anchor-recorded m immediate = immediate-recorded m
  anchor-recorded m batch = batch-recorded m

  recorded-manager :
      (m : Mode) (manager : Manager) (h : Handler)
      → recorded m (record h { manager = manager }) ≡ recorded m h
  recorded-manager immediate manager h = refl
  recorded-manager batch manager h = refl

  handle-recorded :
      (m : Mode) (i : Input) (h : Handler)
      → IsCrypto c
      → WasAppended i
      → recorded m (handle c key mnemonic address i h) ≡ recorded m h ++ requested m (i ∷ [])
  unfolding handle process_batch process_supply_chain_event
  handle-recorded m (timer appended now) h law e =
      rw (e) (flush-recorded m h.batched_events now h refl ∙ sym (append-nil _))
  handle-recorded m (request env r) h law e =
      let (manager, signed) =
        sign_supply_chain_event c key env.wallet_env r.event r.company_id h.manager in
      let ok = verify-sign c key env.wallet_env r.event r.company_id h.manager law in
      rw (ok, handle, process_supply_chain_event)
        (anchor-recorded m r.mode env signed (record h { manager = manager }) e
          ∙ ap₂ (λ x y. x ++ (if is_mode r.mode m then y ∷ [] else []))
              (recorded-manager m manager h)
              (event_data-sign c key env.wallet_env r.event r.company_id h.manager))

  -- As long as every line can be appended, no request is lost, doubled or reordered: after any
  -- inputs, the events of each mode in the file, followed by those that wait, are what they were
  -- before, followed by the events asked for in that mode, in order.
  pub run-recorded :
      (m : Mode) (is : List Input) (h : Handler)
      → IsCrypto c
      → All WasAppended is
      → recorded m (run c key mnemonic address is h) ≡ recorded m h ++ requested m is
  unfolding run
  run-recorded m [] h law e = sym (append-nil _)
  run-recorded m (i ∷ is) h law e =
      run-recorded m is (handle c key mnemonic address i h) law e.1
      ∙ ap (λ x. x ++ requested m is) (handle-recorded m i h law e.0)
      ∙ append_assoc (recorded m h) (requested m (i ∷ [])) (requested m is)
      ∙ ap (◌++◌ (recorded m h)) (requested-cons m i is)

  -- A line that cannot be appended is lost without a trace: the events of the batch leave the
  -- handler and reach no line of the file, and an event that was to be anchored at once is reported
  -- as anchored although the file is unchanged.
  pub unappended_lost :
      (env : CallEnv) (now : ℕ) (signed : SignedSupplyChainEvent) (h : Handler)
      → env.appended ≡ false
      → let flushed = process_batch c key mnemonic address false now h in
        let (h', outcome) = process_immediate_anchoring c key mnemonic address env signed h in
        (recorded batch flushed ≡ anchored_by batch h.pending)
        × (h'.pending ≡ h.pending)
        × (outcome.success ≡ true)
        × (outcome.anchored ≡ true)
  unfolding process_batch process_immediate_anchoring write_to_pending_roots
  unappended_lost env now signed h e = (lost h.batched_events refl, ground arith, refl, refl)
    where
      lost :
          (events : List SignedSupplyChainEvent)
          → h.batched_events ≡ events
          → recorded batch (flush c key mnemonic address events false now h)
            ≡ anchored_by batch h.pending
      lost [] p = unfold flush in rw p (append-nil _)
      lost (x ∷ xs) p = unfold flush in append-nil _
