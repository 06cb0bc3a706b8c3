-- ===== src/MessageBus/Anchoring/Batches.antt =====
-- Batches (message_bus/src/enhanced-dual-mode-handler.ts): how many events wait, and what each line
-- of the pending file holds.
use kpm_cursor.Base.{
  ℕ, ◌+◌, ◌≤◌, ◌<◌, String, ◌≡◌, refl, Bool, true, false, List, [], ◌∷◌, ◌++◌, length,
  length-append, arith, leb, Bool-cases, inl, inr, All, All-append,
}
use kpm_cursor.MessageBus.Wallets.{
  Crypto, SignedSupplyChainEvent, sign_supply_chain_event, verify_event_signature,
}
use kpm_cursor.MessageBus.Anchoring.{
  Mode, immediate, batch, PendingRoot, Handler, CallEnv, Input, request, timer, batch_limit,
  process_batch, process_batch_anchoring, process_immediate_anchoring, process_supply_chain_event,
  handle, run, flush, batch_line, immediate_line, anchoring_transaction, write_to_pending_roots,
  calculate_merkle_root, anchor,
}

module _ (c : Crypto) (key mnemonic address : String) where
  -- A line of the file: its hash is the root of its events, of which there are one to fifty, and one
  -- alone if it was anchored at once.
  pub record IsSound (line : PendingRoot) : Type 0 where
    pub rooted : line.hash ≡ calculate_merkle_root c line.anchoring_transaction.company_events
    pub nonempty : 0 < length line.anchoring_transaction.company_events
    pub bounded : length line.anchoring_transaction.company_events ≤ batch_limit
    pub alone : line.mode ≡ immediate → length line.anchoring_transaction.company_events ≡ 1

  pub record Inv (h : Handler) : Type 0 where
    pub below : length h.batched_events < batch_limit
    pub sound : All IsSound h.pending

  batch_line-IsSound :
      (now : ℕ) (x : SignedSupplyChainEvent) (xs : List SignedSupplyChainEvent)
      → length (x ∷ xs) ≤ batch_limit
      → IsSound (batch_line c key mnemonic address now (x ∷ xs))
  unfolding batch_line anchoring_transaction
  batch_line-IsSound now x xs p = ground arith

  immediate_line-IsSound :
      (now : ℕ) (x : SignedSupplyChainEvent) → IsSound (immediate_line c key mnemonic address now x)
  unfolding immediate_line anchoring_transaction
  immediate_line-IsSound now x = ground arith

  -- A batch of at most fifty events is written as a sound line, and none waits any more.
  flush-Inv :
      (events : List SignedSupplyChainEvent) (appended : Bool) (now : ℕ) (h : Handler)
      → h.batched_events ≡ events
      → length events ≤ batch_limit
      → All IsSound h.pending
      → Inv (flush c key mnemonic address events appended now h)
  unfolding flush write_to_pending_roots
  flush-Inv [] appended now h e p s = record { below = ground (arith, e); sound = s }
  flush-Inv (x ∷ xs) true now h e p s = record {
    below = omega arith;
    sound = All-append IsSound h.pending _ s (batch_line-IsSound now x xs p, tt);
  }
  flush-Inv (x ∷ xs) false now h e p s = record { below = omega arith; sound = s }

  batch_anchoring-Inv :
      (env : CallEnv) (signed : SignedSupplyChainEvent) (h : Handler)
      → Inv h
      → Inv (process_batch_anchoring c key mnemonic address env signed h).0
  unfolding process_batch_anchoring process_batch
  batch_anchoring-Inv env signed h v =
      let events = h.batched_events ++ signed ∷ [] in
      let more : length events ≡ length h.batched_events + 1 =
        length-append h.batched_events (signed ∷ []) in
      elim (Bool-cases (leb batch_limit (length events))) [
        | inl full ↦ rw full (
            flush-Inv events env.appended env.now (record h { batched_events = events }) refl
              (omega (arith, more)) v.sound)
        | inr room ↦ rw room (record { below = ground (arith, more); sound = v.sound })
      ]

  immediate_anchoring-Inv :
      (env : CallEnv) (signed : SignedSupplyChainEvent) (h : Handler)
      → Inv h
      → Inv (process_immediate_anchoring c key mnemonic address env signed h).0
  unfolding process_immediate_anchoring write_to_pending_roots
  immediate_anchoring-Inv env signed h v = elim (Bool-cases env.appended) [
    | inl e ↦ rw e (record {
      below = v.below;
      sound = All-append IsSound h.pending _ v.sound (immediate_line-IsSound env.now signed, tt);
    })
    | inr e ↦ rw e v
  ]

  anchor-Inv :
      (m : Mode) (env : CallEnv) (signed : SignedSupplyChainEvent) (h : Handler)
      → Inv h
      → Inv (anchor c key mnemonic address m env signed h).0
  unfolding anchor
  anchor-Inv immediate = immediate_anchoring-Inv
  anchor-Inv batch = batch_anchoring-Inv

  -- Every input keeps the invariant.
  handle-Inv : (i : Input) (h : Handler) → Inv h → Inv (handle c key mnemonic address i h)
  unfolding handle process_supply_chain_event process_batch
  handle-Inv (timer appended now) h v =
      flush-Inv h.batched_events appended now h refl (omega (arith, v.below)) v.sound
  handle-Inv (request env r) h v =
      let (manager, signed) =
        sign_supply_chain_event c key env.wallet_env r.event r.company_id h.manager in
      let h' = record h { manager = manager } in
      let v' : Inv h' = record { below = v.below; sound = v.sound } in
      elim (Bool-cases (verify_event_signature c key manager signed)) [
        | inl e ↦ rw (e, handle, process_supply_chain_event) (anchor-Inv r.mode env signed h' v')
        | inr e ↦ rw (e, handle, process_supply_chain_event) v'
      ]

  -- Whatever requests and timer ticks come, and whether or not lines can be appended, fewer than
  -- fifty events wait, and every line that is written is sound.
  pub run-Inv : (is : List Input) (h : Handler) → Inv h → Inv (run c key mnemonic address is h)
  unfolding run
  run-Inv [] h v = v
  run-Inv (i ∷ is) h v = run-Inv is (handle c key mnemonic address i h) (handle-Inv i h v)
