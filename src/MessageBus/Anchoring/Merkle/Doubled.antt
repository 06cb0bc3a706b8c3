-- ===== src/MessageBus/Anchoring/Merkle/Doubled.antt =====
-- `calculateMerkleRoot` (message_bus/src/enhanced-dual-mode-handler.ts) on levels of odd size.
use kpm_cursor.Base.{
  ℕ, suc, ◌+◌, ◌-◌, ◌<◌, String, ◌≡◌, ap, ◌∙◌, sym, List, [], ◌∷◌, ◌++◌, map, length, length-map,
  length-append, arith, eq_iff,
}
use mathlib.Core.List.{map-append}
use kpm_cursor.MessageBus.Wallets.{Crypto, SignedSupplyChainEvent}
use kpm_cursor.MessageBus.Anchoring.{
  combine, next_level, merkle_loop, first_hash, calculate_merkle_root, first_hash,
}
use kpm_cursor.MessageBus.Anchoring.Merkle.{
  length-next_level-lt, merkle_loop-next_level, merkle_loop-fuel,
}

module _ (c : Crypto) where
  combine_self : (x : String) → combine c x "" ≡ combine c x x
  unfolding combine
  combine_self x = ground (arith, eq_iff x "", eq_iff "" "")

  next_level_twice :
      (k : ℕ) (hs : List String) (x : String)
      → length hs ≡ k + k
      → next_level c (hs ++ x ∷ []) ≡ next_level c (hs ++ x ∷ x ∷ [])
  unfolding next_level
  next_level_twice k [] x e = ap (λ h. h ∷ []) (combine_self x)
  next_level_twice k (a ∷ []) x e = absurd (omega arith)
  next_level_twice k (a ∷ b ∷ hs) x e =
      ap (◌∷◌ (combine c a b)) (next_level_twice (k - 1) hs x (omega arith))

  merkle_loop_twice :
      (k : ℕ) (hs : List String) (x : String)
      → length hs ≡ k + k
      → 0 < k
      → merkle_loop c (length (hs ++ x ∷ [])) (hs ++ x ∷ [])
        ≡ merkle_loop c (length (hs ++ x ∷ x ∷ [])) (hs ++ x ∷ x ∷ [])
  merkle_loop_twice k hs x e p =
      let n = length hs in
      let one = hs ++ x ∷ [] in
      let two = hs ++ x ∷ x ∷ [] in
      let e1 : length one ≡ suc n = omega (arith, length-append hs (x ∷ [])) in
      let e2 : length two ≡ suc (suc n) = omega (arith, length-append hs (x ∷ x ∷ [])) in
      let fewer = length-next_level-lt c one (omega arith) in
      ap (λ f. merkle_loop c f one) e1
      ∙ merkle_loop-next_level c n one (omega arith)
      ∙ merkle_loop-fuel c n (suc n) (next_level c one) (omega (arith, fewer.1))
          (omega (arith, fewer.1))
      ∙ ap (merkle_loop c (suc n)) (next_level_twice k hs x e)
      ∙ sym (merkle_loop-next_level c (suc n) two (omega arith))
      ∙ sym (ap (λ f. merkle_loop c f two) e2)

  -- The root does not tell a batch of odd size, three at least, from the same batch with its last
  -- event once more: the lone hash at the end of a level is paired with itself.
  pub calculate_merkle_root_twice :
      (k : ℕ) (events : List SignedSupplyChainEvent) (e : SignedSupplyChainEvent)
      → length events ≡ k + k
      → 0 < k
      → calculate_merkle_root c (events ++ e ∷ []) ≡ calculate_merkle_root c (events ++ e ∷ e ∷ [])
  unfolding calculate_merkle_root
  calculate_merkle_root_twice k [] e l p = absurd (omega arith)
  calculate_merkle_root_twice k (a ∷ []) e l p = absurd (omega arith)
  calculate_merkle_root_twice k (a ∷ b ∷ es) e l p =
      let f = λ (x : SignedSupplyChainEvent). x.data_hash in
      simp map-append (
        ap (first_hash c)
          (merkle_loop_twice k (f a ∷ f b ∷ map f es) (f e) (omega (arith, length-map f es)) p))
