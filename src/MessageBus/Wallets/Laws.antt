-- ===== src/MessageBus/Wallets/Laws.antt =====
-- What a company can rely on (message_bus/src/company-wallet-manager.ts): its wallet, its signatures,
-- and the wallet after a restart.
use kpm_cursor.Base.{
  ℕ, String, ◌≡◌, ◌↔◌, refl, true, false, none, some, List, [], ◌∷◌, ◌++◌, arith, eq_iff, str_eq,
  ◌≢◌, Bool-cases, Option-cases, inl, inr, All, if◌then◌else◌,
}
use kpm_cursor.Base.Dict
use kpm_cursor.Base.Dict.{Dict, get-set}
use kpm_cursor.MessageBus.Wallets.{
  CompanyWallet, CompanyWalletStore, SignedSupplyChainEvent, EventData, Crypto, IsCrypto, Env,
  Manager, generate_company_wallet, sign_supply_chain_event, verify_event_signature, upsert,
  load_row, load_company_wallets, derive_wallet, deactivate_company_wallet, decrypt_mnemonic,
  restore_wallet, store_data,
}

module _ (c : Crypto) (key : String) where
  -- Generating a wallet leaves every other company's wallet alone and records the returned wallet
  -- under the company; a second call, whatever its environment, changes nothing and returns the same.
  pub generate_company_wallet_stable :
      (env env' : Env) (id j : String) (m : Manager)
      → let (m', w) = generate_company_wallet c key env id m in
        (Dict.get j m'.wallets ≡ (if str_eq id j then some w else Dict.get j m.wallets))
        × (generate_company_wallet c key env' id m' ≡ (m', w))
  unfolding generate_company_wallet
  generate_company_wallet_stable env env' id j m =
      let w = (generate_company_wallet c key env id m).1 in
      ground (arith, eq_iff id j, eq_iff id id, get-set id j w m.wallets, get-set id id w m.wallets)

  pub event_data-sign :
      (env : Env) (event : EventData) (id : String) (m : Manager)
      → (sign_supply_chain_event c key env event id m).1.event_data ≡ event
  unfolding sign_supply_chain_event
  event_data-sign env event id m = refl

  -- An event that the manager signs for a company is one that the manager then verifies.
  pub verify-sign :
      (env : Env) (event : EventData) (id : String) (m : Manager)
      → IsCrypto c
      → let (m', signed) = sign_supply_chain_event c key env event id m in
        verify_event_signature c key m' signed ≡ true
  unfolding sign_supply_chain_event verify_event_signature
  verify-sign env event id m law =
      let w = (generate_company_wallet c key env id m).1 in
      let h = c.sha256 (c.json event) in
      ground (
        arith,
        (generate_company_wallet_stable env env id id m).0,
        eq_iff id id,
        eq_iff h h,
        law.hmac_length w.private_key (c.sha256_raw h),
      )

  -- A signed event verifies exactly when its company has a wallet, its data hashes to the recorded
  -- hash, and its signature has 64 characters: nothing else of the signature is looked at.
  pub verify_event_signature_iff :
      (m : Manager) (signed : SignedSupplyChainEvent)
      → (verify_event_signature c key m signed ≡ true) ↔ (
          ((w : CompanyWallet) × (Dict.get signed.company_id m.wallets ≡ some w))
          × (c.sha256 (c.json signed.event_data) ≡ signed.data_hash)
          × (c.text_length signed.company_signature ≡ 64))
  unfolding verify_event_signature
  verify_event_signature_iff m signed = elim (Option-cases (Dict.get signed.company_id m.wallets)) [
    | inl e ↦ rw (e, verify_event_signature) (ground arith, λ h. ground arith)
    | inr (w, e) ↦ (
      λ h. (
        (w, e),
        ground (arith, eq_iff (c.sha256 (c.json signed.event_data)) signed.data_hash),
        ground (arith, eq_iff (c.sha256 (c.json signed.event_data)) signed.data_hash),
      ),
      λ h. ground (arith, eq_iff (c.sha256 (c.json signed.event_data)) signed.data_hash),
    )
  ]

  -- The rows that the key deciphers.
  abbrev pub IsReadable : CompanyWalletStore → Type 0
  IsReadable r = (text : String) × (decrypt_mnemonic c key r.encrypted_mnemonic ≡ some text)

  abbrev pub IsOther : String → CompanyWalletStore → Type 0
  IsOther id r = r.company_id ≢ id

  upsert_new :
      (id : String) (row : CompanyWalletStore) (rows : List CompanyWalletStore)
      → row.company_id ≡ id
      → All (IsOther id) rows
      → upsert c key row rows ≡ rows ++ row ∷ []
  unfolding upsert
  upsert_new id row [] e h = refl
  upsert_new id row (r ∷ rows) e h =
      ground (arith, upsert_new id row rows e h.1, eq_iff r.company_id row.company_id)

  company_id-store_data :
      (iv id mnemonic : String) (now : ℕ)
      → (store_data c key iv (derive_wallet c key id mnemonic now)).company_id ≡ id
  unfolding store_data derive_wallet
  company_id-store_data iv id mnemonic now = refl

  load_row_total :
      (r : CompanyWalletStore) (ws : Dict CompanyWallet)
      → IsReadable r
      → (ws' : Dict CompanyWallet) × (load_row c key r ws ≡ some ws')
  unfolding load_row
  load_row_total r ws (text, e) = elim (Bool-cases r.is_active) [
    | inl on ↦ (Dict.set r.company_id (restore_wallet c key r text) ws, ground arith)
    | inr off ↦ (ws, ground arith)
  ]

  step :
      (r : CompanyWalletStore) (rows : List CompanyWalletStore) (ws ws' : Dict CompanyWallet)
      → load_row c key r ws ≡ some ws'
      → load_company_wallets c key (r ∷ rows) ws ≡ load_company_wallets c key rows ws'
  unfolding load_company_wallets
  step r rows ws ws' e = ground (arith, e)

  -- Loading readable rows and then one more is one more round.
  load-append :
      (rows : List CompanyWalletStore) (row : CompanyWalletStore) (ws : Dict CompanyWallet)
      → All IsReadable rows
      → (ws' : Dict CompanyWallet) × (load_company_wallets c key (rows ++ row ∷ []) ws
          ≡ load_company_wallets c key (row ∷ []) ws')
  load-append [] row ws h = (ws, refl)
  load-append (r ∷ rows) row ws h =
      let (ws1, e1) = load_row_total r ws h.0 in
      let (ws2, e2) = load-append rows row ws1 h.1 in
      (ws2, rw (step r (rows ++ row ∷ []) ws ws1 e1) e2)

  -- The row of a wallet just derived loads as that wallet.
  load-store_data :
      (iv id mnemonic : String) (now : ℕ) (ws : Dict CompanyWallet)
      → IsCrypto c
      → load_company_wallets c key
          (store_data c key iv (derive_wallet c key id mnemonic now) ∷ [])
          ws
        ≡ Dict.set id (derive_wallet c key id mnemonic now) ws
  unfolding load_company_wallets load_row store_data derive_wallet restore_wallet
  load-store_data iv id mnemonic now ws law = ground (arith, law.decipher-cipher key iv mnemonic)

  -- A new company's wallet survives a restart: if the file could be read and written, all its rows
  -- decipher and none is of that company, then loading the file that was written gives the company
  -- exactly the wallet that was generated.
  pub load-generate :
      (env : Env) (id : String) (m : Manager)
      → IsCrypto c
      → env.readable ≡ true
      → env.writable ≡ true
      → Dict.get id m.wallets ≡ none
      → All IsReadable m.disk
      → All (IsOther id) m.disk
      → let (m', w) = generate_company_wallet c key env id m in
        Dict.get id (load_company_wallets c key m'.disk []) ≡ some w
  unfolding generate_company_wallet
  load-generate env id m law r w new readable other =
      let wallet = derive_wallet c key id env.fresh_mnemonic env.now in
      let row = store_data c key env.fresh_iv wallet in
      let (ws, e) = load-append m.disk row [] readable in
      ground (
        arith,
        upsert_new id row m.disk (company_id-store_data env.fresh_iv id env.fresh_mnemonic env.now)
            other,
        e,
        load-store_data env.fresh_iv id env.fresh_mnemonic env.now ws law,
        get-set id id wallet ws,
        eq_iff id id,
      )

  -- Deactivating a company's wallet does not stop it from signing: the signed event
  -- is the same as before and still verifies.
  pub sign-deactivate :
      (env env' : Env) (event : EventData) (id : String) (m : Manager) (w : CompanyWallet)
      → IsCrypto c
      → Dict.get id m.wallets ≡ some w
      → let off = deactivate_company_wallet c key env id m in
        ((sign_supply_chain_event c key env' event id off).1
          ≡ (sign_supply_chain_event c key env' event id m).1)
        × (verify_event_signature c key off (sign_supply_chain_event c key env' event id off).1
            ≡ true)
  unfolding deactivate_company_wallet sign_supply_chain_event generate_company_wallet
      verify_event_signature
  sign-deactivate env env' event id m w law e =
      let off = record w { is_active = false } in
      let h = c.sha256 (c.json event) in
      let facts = law.hmac_length w.private_key (c.sha256_raw h) in
      (
        ground (arith, e, get-set id id off m.wallets, eq_iff id id),
        ground (arith, e, get-set id id off m.wallets, eq_iff id id, eq_iff h h, facts),
      )
