-- ===== src/MessageBus/Wallets.antt =====
-- message_bus/src/company-wallet-manager.ts: one wallet for each company, its signatures, and the
-- encrypted copy on disk. The `crypto` module, AES and `JSON.stringify` are the parameter `Crypto`;
-- random bytes, the clock and the outcome of file operations are the argument `Env` of a call.
pub mod Laws
use Prim.Native.String
use kpm_cursor.Base.{
  ℕ, String, ◌≡◌, Bool, true, false, ◌&&◌, Option, none, some, List, [], ◌∷◌, ◌++◌, map, ◌==◌,
  str_eq, if◌then◌else◌,
}
use kpm_cursor.Base.Dict
use kpm_cursor.Base.Dict.{Dict}

pub record CompanyWallet : Type 0 where
  pub company_id : String
  pub address : String
  pub private_key : String
  pub public_key : String
  pub mnemonic : String
  pub created_at : ℕ
  pub is_active : Bool

-- The object `eventData` that is hashed; `metadata` is its JSON text.
pub record EventData : Type 0 where
  pub event_id : String
  pub timestamp : String
  pub location : String
  pub product_id : String
  pub event_type : String
  pub metadata : String

pub record SignedSupplyChainEvent : Type 0 where
  pub event_data : EventData
  pub open event_data use *
  pub company_id : String
  pub company_signature : String
  pub company_address : String
  pub data_hash : String

-- `iv` and `body` are the two hexadecimal halves of the text `iv:body`.
pub record Encrypted : Type 0 where
  pub iv : String
  pub body : String

pub record CompanyWalletStore : Type 0 where
  pub company_id : String
  pub encrypted_mnemonic : Encrypted
  pub address : String
  pub created_at : ℕ
  pub is_active : Bool

-- Node's `crypto`, `JSON.stringify` and the length of a string.
pub record Crypto : Type 0 where
  pub sha256 : String → String
  pub sha256_raw : String → String
  pub hmac : String → String → String
  pub cipher : String → String → String → String
  pub decipher : String → String → String → Option String
  pub json : EventData → String
  pub text_length : String → ℕ

-- What is documented of them: AES deciphers what it enciphered under the same key and vector, and
-- an HMAC-SHA256 in hexadecimal has 64 characters.
pub record IsCrypto (c : Crypto) : Type 0 where
  pub decipher-cipher :
      (key iv text : String) → c.decipher key iv (c.cipher key iv text) ≡ some text
  pub hmac_length : (key message : String) → c.text_length (c.hmac key message) ≡ 64

-- What the outside supplies to one call: fresh randomness, the clock, and whether the file could be
-- read and written.
pub record Env : Type 0 where
  pub fresh_mnemonic : String
  pub fresh_iv : String
  pub now : ℕ
  pub readable : Bool
  pub writable : Bool

-- The manager's map, and the file `company-wallets.json`.
pub record Manager : Type 0 where
  pub wallets : Dict CompanyWallet
  pub disk : List CompanyWalletStore

module _ (c : Crypto) (encryption_key : String) where
  encrypt_mnemonic : String → String → Encrypted
  encrypt_mnemonic iv mnemonic = record { iv = iv; body = c.cipher encryption_key iv mnemonic }

  pub decrypt_mnemonic : Encrypted → Option String
  decrypt_mnemonic e = c.decipher encryption_key e.iv e.body

  derive_wallet : String → String → ℕ → CompanyWallet
  derive_wallet company_id mnemonic now =
      let private_key = c.sha256 (String.◌++◌ mnemonic "private-key") in
      let public_key = c.sha256 (String.◌++◌ private_key "public") in
      let address_hash = c.sha256 public_key in
      record {
        company_id = company_id;
        address = String.◌++◌ "kaspatest:q" (String.slice address_hash 0 58);
        private_key = private_key;
        public_key = public_key;
        mnemonic = mnemonic;
        created_at = now;
        is_active = true;
      }

  -- Replace the first row of the company, or add one.
  upsert : CompanyWalletStore → List CompanyWalletStore → List CompanyWalletStore
  upsert row [] = row ∷ []
  upsert row (r ∷ rows) =
      if str_eq r.company_id row.company_id then row ∷ rows else r ∷ upsert row rows

  -- The object `storeData`.
  store_data : String → CompanyWallet → CompanyWalletStore
  unfolding encrypt_mnemonic
  store_data iv wallet = record {
    company_id = wallet.company_id;
    encrypted_mnemonic = encrypt_mnemonic iv wallet.mnemonic;
    address = wallet.address;
    created_at = wallet.created_at;
    is_active = wallet.is_active;
  }

  -- A file that cannot be read counts as empty; one that cannot be written stays as it was.
  save_company_wallet : Env → CompanyWallet → List CompanyWalletStore → List CompanyWalletStore
  save_company_wallet env wallet disk =
      let existing = if env.readable then disk else [] in
      if env.writable then upsert (store_data env.fresh_iv wallet) existing else disk

  pub generate_company_wallet : Env → String → Manager → Manager × CompanyWallet
  unfolding save_company_wallet
  generate_company_wallet env company_id m = elim (Dict.get company_id m.wallets) [
    | some wallet ↦ (m, wallet)
    | none ↦
        let wallet = derive_wallet company_id env.fresh_mnemonic env.now in
        (
          record {
            wallets = Dict.set company_id wallet m.wallets;
            disk = save_company_wallet env wallet m.disk;
          },
          wallet,
        )
  ]

  restore_wallet : CompanyWalletStore → String → CompanyWallet
  restore_wallet stored mnemonic =
      let private_key = c.sha256 (String.◌++◌ mnemonic "private-key") in
      record {
        company_id = stored.company_id;
        address = stored.address;
        private_key = private_key;
        public_key = c.sha256 (String.◌++◌ private_key "public");
        mnemonic = mnemonic;
        created_at = stored.created_at;
        is_active = stored.is_active;
      }

  -- One round of the loop of `loadCompanyWallets`; `none` is an exception of the deciphering.
  load_row : CompanyWalletStore → Dict CompanyWallet → Option (Dict CompanyWallet)
  unfolding decrypt_mnemonic
  load_row stored wallets =
      if stored.is_active
      then elim (decrypt_mnemonic stored.encrypted_mnemonic) [
        | none ↦ none
        | some mnemonic ↦ some (Dict.set stored.company_id (restore_wallet stored mnemonic) wallets)
      ]
      else some wallets

  -- An exception ends the loop, and what was loaded before it stays.
  pub load_company_wallets : List CompanyWalletStore → Dict CompanyWallet → Dict CompanyWallet
  load_company_wallets [] wallets = wallets
  load_company_wallets (r ∷ rows) wallets = elim (load_row r wallets) [
    | none ↦ wallets
    | some more ↦ load_company_wallets rows more
  ]

  sign_message : String → String → String
  sign_message message private_key = c.hmac private_key (c.sha256_raw message)

  -- The public key is not read.
  verify_signature : String → String → String → Bool
  verify_signature message signature public_key = c.text_length signature == 64

  pub sign_supply_chain_event :
      Env → EventData → String → Manager → Manager × SignedSupplyChainEvent
  unfolding generate_company_wallet sign_message
  sign_supply_chain_event env event company_id m =
      let (m', wallet) = generate_company_wallet env company_id m in
      let data_hash = c.sha256 (c.json event) in
      (
        m',
        record {
          event_data = event;
          company_id = company_id;
          company_signature = sign_message data_hash wallet.private_key;
          company_address = wallet.address;
          data_hash = data_hash;
        },
      )

  pub verify_event_signature : Manager → SignedSupplyChainEvent → Bool
  unfolding verify_signature
  verify_event_signature m signed = elim (Dict.get signed.company_id m.wallets) [
    | none ↦ false
    | some wallet ↦
        if str_eq (c.sha256 (c.json signed.event_data)) signed.data_hash
        then verify_signature signed.data_hash signed.company_signature wallet.public_key
        else false
  ]

  pub get_company_address : Env → String → Manager → Manager × String
  unfolding generate_company_wallet
  get_company_address env company_id m =
      let (m', wallet) = generate_company_wallet env company_id m in (m', wallet.address)

  pub get_company_mnemonic : Env → String → Manager → Manager × String
  unfolding generate_company_wallet
  get_company_mnemonic env company_id m =
      let (m', wallet) = generate_company_wallet env company_id m in (m', wallet.mnemonic)

  -- The object in the map is the one that is changed.
  pub deactivate_company_wallet : Env → String → Manager → Manager
  unfolding save_company_wallet
  deactivate_company_wallet env company_id m = elim (Dict.get company_id m.wallets) [
    | none ↦ m
    | some wallet ↦
        let off = record wallet { is_active = false } in
        record {
          wallets = Dict.set company_id off m.wallets;
          disk = save_company_wallet env off m.disk;
        }
  ]

pub record PublicWallet : Type 0 where
  pub company_id : String
  pub address : String
  pub public_key : String
  pub created_at : ℕ
  pub is_active : Bool

pub get_all_company_wallets : Manager → List PublicWallet
get_all_company_wallets m =
    map
      (λ e. record {
        company_id = e.1.company_id;
        address = e.1.address;
        public_key = e.1.public_key;
        created_at = e.1.created_at;
        is_active = e.1.is_active;
      })
      m.wallets
