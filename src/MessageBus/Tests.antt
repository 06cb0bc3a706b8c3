-- ===== src/MessageBus/Tests.antt =====
-- Concrete wallets and handlers (message_bus/src): runs of the model, and the theorems at inputs that
-- meet their hypotheses.
use Prim.Native.String
use kpm_cursor.Base.{String, ◌≡◌, ◌↔◌, refl, Bool, true, some, List, [], ◌∷◌, ◌++◌, arith}
use kpm_cursor.Base.Dict
use kpm_cursor.MessageBus.Wallets.{
  Crypto, IsCrypto, Env, EventData, Manager, CompanyWallet, SignedSupplyChainEvent,
  generate_company_wallet, sign_supply_chain_event, verify_event_signature, load_company_wallets,
}
use kpm_cursor.MessageBus.Wallets.Laws.{verify-sign, verify_event_signature_iff, load-generate}
use kpm_cursor.MessageBus.Anchoring.{
  immediate, batch, Handler, CallEnv, Input, request, timer, calculate_merkle_root, run,
}
use kpm_cursor.MessageBus.Anchoring.Merkle.Trees.{
  leaf, node, tree_root, calculate_merkle_root-tree_root,
}
use kpm_cursor.MessageBus.Anchoring.Batches.{Inv, run-Inv}
use kpm_cursor.MessageBus.Anchoring.Conservation.{recorded, requested, run-recorded}

abbrev sixty_four : String
sixty_four = "0123456789abcdef0123456789abcdef0123456789abcdef0123456789abcdef"

abbrev toy : Crypto
toy = record {
  sha256 = λ x. String.◌∷◌ "h" x;
  sha256_raw = λ x. x;
  hmac = λ key message. sixty_four;
  cipher = λ key iv text. text;
  decipher = λ key iv body. some body;
  json = λ e. e.event_id;
  text_length = String.len;
}

toy-IsCrypto : IsCrypto toy
toy-IsCrypto = record { decipher-cipher = λ key iv text. refl; hmac_length = λ key message. refl }

abbrev env : Env
env = record {
  fresh_mnemonic = "word1";
  fresh_iv = "00";
  now = 5;
  readable = true;
  writable = true;
}

abbrev event : EventData
event = record {
  event_id = "e1";
  timestamp = "t";
  location = "dock";
  product_id = "p";
  event_type = "SCAN";
  metadata = "{}";
}

abbrev no_wallets : Manager
no_wallets = record { wallets = []; disk = [] }

verify-sign_example :
    let (m', signed) = sign_supply_chain_event toy "k" env event "acme" no_wallets in
    verify_event_signature toy "k" m' signed ≡ true
verify-sign_example = verify-sign toy "k" env event "acme" no_wallets toy-IsCrypto

abbrev forged : SignedSupplyChainEvent
forged = record {
  event_data = event;
  company_id = "acme";
  company_signature = sixty_four;
  company_address = "nowhere";
  data_hash = "he1";
}

abbrev one_wallet : Manager
one_wallet = record { wallets = ("acme", wallet) ∷ []; disk = [] }
  where
    wallet : CompanyWallet
    wallet = record {
      company_id = "acme";
      address = "a";
      private_key = "s";
      public_key = "p";
      mnemonic = "m";
      created_at = 0;
      is_active = true;
    }

verify_event_signature_iff_example : (verify_event_signature toy "k" one_wallet forged ≡ true) ↔ (
    ((w : CompanyWallet) × (Dict.get forged.company_id one_wallet.wallets ≡ some w))
    × (toy.sha256 (toy.json forged.event_data) ≡ forged.data_hash)
    × (toy.text_length forged.company_signature ≡ 64))
verify_event_signature_iff_example = verify_event_signature_iff toy "k" one_wallet forged

load-generate_example :
    let (m', w) = generate_company_wallet toy "k" env "acme" no_wallets in
    Dict.get "acme" (load_company_wallets toy "k" m'.disk []) ≡ some w
load-generate_example =
    load-generate toy "k" env "acme" no_wallets toy-IsCrypto refl refl refl tt tt

abbrev hashed : String → SignedSupplyChainEvent
hashed h = record forged { data_hash = h }

calculate_merkle_root-tree_root_example :
    calculate_merkle_root toy (hashed "a" ∷ hashed "b" ∷ [])
    ≡ tree_root toy (node (leaf "a") (leaf "b"))
calculate_merkle_root-tree_root_example =
    calculate_merkle_root-tree_root toy (node (leaf "a") (leaf "b")) (hashed "a" ∷ hashed "b" ∷ [])
      refl (λ e. cc, λ e. cc) (λ x e. cc)

abbrev idle : Handler
idle = record { manager = no_wallets; batched_events = []; pending = [] }

abbrev call : Bool → CallEnv
call appended = record { wallet_env = env; appended = appended; now = 7 }

abbrev inputs : List Input
inputs =
    request (call true) (record { event = event; mode = batch; company_id = "acme" })
    ∷ request (call true) (record { event = event; mode = immediate; company_id = "globex" })
    ∷ timer true 9
    ∷ []

run-Inv_example : Inv toy "k" "m" "a" (run toy "k" "m" "a" inputs idle)
run-Inv_example = run-Inv toy "k" "m" "a" inputs idle (record { below = omega arith; sound = tt })

run-recorded_example :
    recorded batch (run toy "k" "m" "a" inputs idle) ≡ recorded batch idle ++ requested batch inputs
run-recorded_example =
    run-recorded toy "k" "m" "a" batch inputs idle toy-IsCrypto (refl, (refl, (refl, tt)))

abbrev loaded : Handler
loaded = record idle { batched_events = forged ∷ [] }
