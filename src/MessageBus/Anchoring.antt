-- ===== src/MessageBus/Anchoring.antt =====
-- message_bus/src/enhanced-dual-mode-handler.ts: a company's event is signed, verified, and anchored
-- at once or in a batch. The file `pending_roots.txt` is the list `pending`, in the order of its
-- lines; whether a line could be appended is an argument of the call.
pub mod Merkle
pub mod Batches
pub mod Conservation
use Prim.Native.String
use kpm_cursor.Base.{
  ℕ, zero, suc, String, Bool, true, false, Option, none, some, List, [], ◌∷◌, ◌++◌, map, length,
  str_eq, ltb, leb, if◌then◌else◌,
}
use kpm_cursor.MessageBus.Wallets.{
  Crypto, Env, EventData, Manager, SignedSupplyChainEvent, sign_supply_chain_event,
  verify_event_signature,
}

pub data Mode : Type 0 where
  immediate batch : Mode

pub data Priority : Type 0 where
  standard premium enterprise : Priority

pub record AnchoringTransaction : Type 0 where
  pub company_events : List SignedSupplyChainEvent
  pub master_wallet_address : String
  pub master_signature : String
  pub merkle_root : String

-- The `eventId` of a line: an event's, or `batch-` and the clock.
pub data RootId : Type 0 where
  of_event : String → RootId
  of_batch : ℕ → RootId

-- A line of the pending file.
pub record PendingRoot : Type 0 where
  pub hash : String
  pub mode : Mode
  pub company_id : String
  pub company_address : Option String
  pub event_id : RootId
  pub timestamp : ℕ
  pub priority : Priority
  pub anchoring_transaction : AnchoringTransaction
  pub batch_size : Option ℕ

pub record Handler : Type 0 where
  pub manager : Manager
  pub batched_events : List SignedSupplyChainEvent
  pub pending : List PendingRoot

pub data Message : Type 0 where
  verification_failed : Message
  anchored_for : String → Message
  batched : ℕ → ℕ → Message

pub record Outcome : Type 0 where
  pub success : Bool
  pub anchored : Bool
  pub hash : Option String
  pub company_address : Option String
  pub transaction_id : Option String
  pub message : Message

abbrev pub batch_limit : ℕ
batch_limit = 50

-- The environment of one call: the wallet's, the outcome of the append, and the clock.
pub record CallEnv : Type 0 where
  pub wallet_env : Env
  pub appended : Bool
  pub now : ℕ

pub record Request : Type 0 where
  pub event : EventData
  pub mode : Mode
  pub company_id : String

-- What can happen to a handler: a request, or the batch timer.
pub data Input : Type 0 where
  request : CallEnv → Request → Input
  timer : Bool → ℕ → Input

module _ (c : Crypto) where
  -- `hashes[i + 1] || left`: a missing or empty right neighbour is replaced by the left one.
  pub combine : String → String → String
  combine left right = c.sha256 (String.◌++◌ left (if str_eq right "" then left else right))

  -- The inner `for` loop: one level up.
  pub next_level : List String → List String
  unfolding combine
  next_level [] = []
  next_level (x ∷ []) = combine x "" ∷ []
  next_level (x ∷ y ∷ rest) = combine x y ∷ next_level rest

  -- The `while` loop on fuel.
  pub merkle_loop : ℕ → List String → List String
  merkle_loop zero hashes = hashes
  merkle_loop (suc fuel) hashes = elim (ltb 1 (length hashes)) [
    | true ↦ merkle_loop fuel (next_level hashes)
    | false ↦ hashes
  ]

  abbrev first_hash : List String → String
  first_hash [] = ""
  first_hash (x ∷ xs) = x

  -- Each round drops a hash at least, so the number of events is fuel enough.
  pub calculate_merkle_root : List SignedSupplyChainEvent → String
  calculate_merkle_root [] = c.sha256 "empty"
  calculate_merkle_root (e ∷ []) = e.data_hash
  calculate_merkle_root (d ∷ e ∷ rest) =
      let hashes = map (λ (x : SignedSupplyChainEvent). x.data_hash) (d ∷ e ∷ rest) in
      first_hash (merkle_loop (length hashes) hashes)

  -- `events.map(…).join('|')`
  join_events : List SignedSupplyChainEvent → String
  join_events [] = ""
  join_events (e ∷ rest) =
      let this =
        String.◌++◌ e.company_id
          (String.◌++◌ ":" (String.◌++◌ e.data_hash (String.◌++◌ ":" e.company_signature))) in
      elim rest [ [] ↦ this | _ ∷ _ ↦ String.◌++◌ this (String.◌++◌ "|" (join_events rest)) ]

  module _ (key master_mnemonic master_address : String) where
    sign_with_master_wallet : List SignedSupplyChainEvent → String
    unfolding join_events
    sign_with_master_wallet events = c.hmac master_mnemonic (join_events events)

    anchoring_transaction : List SignedSupplyChainEvent → AnchoringTransaction
    anchoring_transaction events = record {
      company_events = events;
      master_wallet_address = master_address;
      master_signature = sign_with_master_wallet events;
      merkle_root = calculate_merkle_root events;
    }

    -- A failed append is logged and forgotten.
    write_to_pending_roots : Bool → PendingRoot → Handler → Handler
    write_to_pending_roots appended line h =
        if appended then record h { pending = h.pending ++ line ∷ [] } else h

    immediate_line : ℕ → SignedSupplyChainEvent → PendingRoot
    immediate_line now signed =
        let tx = anchoring_transaction (signed ∷ []) in
        record {
          hash = tx.merkle_root;
          mode = immediate;
          company_id = signed.company_id;
          company_address = some signed.company_address;
          event_id = of_event signed.event_id;
          timestamp = now;
          priority = premium;
          anchoring_transaction = tx;
          batch_size = none;
        }

    pub process_immediate_anchoring : CallEnv → SignedSupplyChainEvent → Handler → Handler × Outcome
    process_immediate_anchoring env signed h =
        let line = immediate_line env.now signed in
        (
          write_to_pending_roots env.appended line h,
          record {
            success = true;
            anchored = true;
            hash = some line.hash;
            company_address = some signed.company_address;
            transaction_id = some (String.◌++◌ "immediate-" signed.event_id);
            message = anchored_for signed.company_id;
          },
        )

    batch_line : ℕ → List SignedSupplyChainEvent → PendingRoot
    batch_line now events =
        let tx = anchoring_transaction events in
        record {
          hash = tx.merkle_root;
          mode = batch;
          company_id = "multi-company";
          company_address = none;
          event_id = of_batch now;
          timestamp = now;
          priority = standard;
          anchoring_transaction = tx;
          batch_size = some (length events);
        }

    -- The batch is cleared before the line is written.
    flush : List SignedSupplyChainEvent → Bool → ℕ → Handler → Handler
    flush [] appended now h = h
    flush (e ∷ es) appended now h =
        write_to_pending_roots appended (batch_line now (e ∷ es)) (record h { batched_events = [] })

    pub process_batch : Bool → ℕ → Handler → Handler
    process_batch appended now h = flush h.batched_events appended now h

    pub process_batch_anchoring : CallEnv → SignedSupplyChainEvent → Handler → Handler × Outcome
    process_batch_anchoring env signed h =
        let pushed = record h { batched_events = h.batched_events ++ signed ∷ [] } in
        let h' =
          if leb batch_limit (length pushed.batched_events)
          then process_batch env.appended env.now pushed
          else pushed in
        (
          h',
          record {
            success = true;
            anchored = false;
            hash = none;
            company_address = some signed.company_address;
            transaction_id = none;
            message = batched (length h'.batched_events) batch_limit;
          },
        )

    anchor : Mode → CallEnv → SignedSupplyChainEvent → Handler → Handler × Outcome
    anchor immediate = process_immediate_anchoring
    anchor batch = process_batch_anchoring

    pub process_supply_chain_event : CallEnv → Request → Handler → Handler × Outcome
    process_supply_chain_event env r h =
        let (manager, signed) =
          sign_supply_chain_event c key env.wallet_env r.event r.company_id h.manager in
        let h' = record h { manager = manager } in
        if verify_event_signature c key manager signed then anchor r.mode env signed h' else (
          h',
          record {
            success = false;
            anchored = false;
            hash = none;
            company_address = none;
            transaction_id = none;
            message = verification_failed;
          },
        )

    pub handle : Input → Handler → Handler
    handle (request env r) h = (process_supply_chain_event env r h).0
    handle (timer appended now) h = process_batch appended now h

    pub run : List Input → Handler → Handler
    run [] h = h
    run (i ∷ is) h = run is (handle i h)
