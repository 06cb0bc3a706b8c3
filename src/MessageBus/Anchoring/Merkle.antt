-- ===== src/MessageBus/Anchoring/Merkle.antt =====
-- The loop of `calculateMerkleRoot`
-- (message_bus/src/enhanced-dual-mode-handler.ts).
pub mod Trees
pub mod Doubled
use Prim.Native.String
use kpm_cursor.Base.{
  ℕ, zero, suc, ◌+◌, ◌-◌, ◌≤◌, ◌<◌, String, ◌≡◌, ◌≢◌, refl, ap, ◌∙◌, sym, List, [], ◌∷◌, ◌++◌, map,
  length, length-map, length-append, arith, eq_iff,
}
use mathlib.Core.Path.{ap₂}
use mathlib.Core.List.{append_assoc, append-nil, map-append}
use kpm_cursor.MessageBus.Wallets.{Crypto, SignedSupplyChainEvent}
use kpm_cursor.MessageBus.Anchoring.{
  combine, next_level, merkle_loop, first_hash, calculate_merkle_root, first_hash,
}

module _ (c : Crypto) where
  -- A level of `n` hashes is followed by one of half as many, rounded up.
  length-next_level_odd : (x : String) (hs : List String) → length (next_level c hs) ≤ length hs
  unfolding next_level
  length-next_level_odd x [] = omega arith
  length-next_level_odd x (a ∷ []) = omega arith
  length-next_level_odd x (a ∷ b ∷ hs) = omega (arith, length-next_level_odd x hs)

  pub length-next_level-lt :
      (hs : List String)
      → 1 < length hs
      → (0 < length (next_level c hs)) × (length (next_level c hs) < length hs)
  unfolding next_level
  length-next_level-lt [] h = absurd (omega arith)
  length-next_level-lt (a ∷ []) h = absurd (omega arith)
  length-next_level-lt (a ∷ b ∷ hs) h = omega (arith, length-next_level_odd a hs)

  -- With as much fuel as there are hashes, of which there is at least one, the loop ends with a
  -- single hash.
  pub merkle_loop_total :
      (fuel : ℕ) (hs : List String)
      → 0 < length hs
      → length hs ≤ fuel
      → (root : String) × (merkle_loop c fuel hs ≡ root ∷ [])
  unfolding merkle_loop
  merkle_loop_total zero hs p q = absurd (omega arith)
  merkle_loop_total (suc fuel) (a ∷ []) p q = (a, refl)
  merkle_loop_total (suc fuel) (a ∷ b ∷ hs) p q =
      let step = length-next_level-lt (a ∷ b ∷ hs) (omega arith) in
      let (root, e) =
        merkle_loop_total fuel (next_level c (a ∷ b ∷ hs)) step.0 (omega (arith, step.1)) in
      (root, ground (arith, e))
  merkle_loop_total (suc fuel) [] p q = absurd (omega arith)

  pub merkle_loop-next_level :
      (f : ℕ) (hs : List String)
      → 1 < length hs
      → merkle_loop c (suc f) hs ≡ merkle_loop c f (next_level c hs)
  unfolding merkle_loop
  merkle_loop-next_level f hs h = ground arith

  -- So any fuel that is enough gives the same.
  pub merkle_loop-fuel :
      (f g : ℕ) (hs : List String)
      → length hs ≤ f
      → length hs ≤ g
      → merkle_loop c f hs ≡ merkle_loop c g hs
  unfolding merkle_loop
  merkle_loop-fuel zero zero hs p q = refl
  merkle_loop-fuel zero (suc g) [] p q = refl
  merkle_loop-fuel (suc f) zero [] p q = refl
  merkle_loop-fuel (suc f) (suc g) [] p q = refl
  merkle_loop-fuel (suc f) (suc g) (a ∷ []) p q = refl
  merkle_loop-fuel (suc f) (suc g) (a ∷ b ∷ hs) p q =
      let step = length-next_level-lt (a ∷ b ∷ hs) (omega arith) in
      ground (
        arith,
        merkle_loop-next_level f (a ∷ b ∷ hs),
        merkle_loop-next_level g (a ∷ b ∷ hs),
        merkle_loop-fuel f g (next_level c (a ∷ b ∷ hs)),
        step,
      )
  merkle_loop-fuel zero (suc g) (a ∷ hs) p q = absurd (omega arith)
  merkle_loop-fuel (suc f) zero (a ∷ hs) p q = absurd (omega arith)
