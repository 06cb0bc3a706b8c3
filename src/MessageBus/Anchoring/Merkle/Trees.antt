-- ===== src/MessageBus/Anchoring/Merkle/Trees.antt =====
-- `calculateMerkleRoot` (message_bus/src/enhanced-dual-mode-handler.ts) and perfect binary trees.
use Prim.Native.String
use kpm_cursor.Base.{
  ℕ, zero, suc, ◌≤◌, ◌<◌, String, ◌≡◌, ◌≢◌, refl, ap, ◌∙◌, sym, List, [], ◌∷◌, ◌++◌, map, length,
  length-map, length-append, arith, eq_iff,
}
use mathlib.Core.Path.{ap₂}
use mathlib.Core.List.{append_assoc, append-nil}
use kpm_cursor.MessageBus.Wallets.{Crypto, SignedSupplyChainEvent}
use kpm_cursor.MessageBus.Anchoring.{combine, next_level, merkle_loop, calculate_merkle_root}
use kpm_cursor.MessageBus.Anchoring.Merkle.{merkle_loop-next_level}

-- A perfect binary tree of hashes of depth `k`.
pub data Tree : ℕ → Type 0 where
  leaf : String → Tree zero
  node : {k : ℕ} → Tree k → Tree k → Tree (suc k)

abbrev pub leaves : {k : ℕ} → Tree k → List String
leaves (leaf x) = x ∷ []
leaves (node l r) = leaves l ++ leaves r

-- Every leaf has a hash that is not the empty text.
abbrev pub IsFull : {k : ℕ} → Tree k → Type 0
IsFull (leaf x) = x ≢ ""
IsFull (node l r) = IsFull l × IsFull r

module _ (c : Crypto) where
  -- The Merkle root as it is usually defined, from the top down.
  abbrev pub tree_root : {k : ℕ} → Tree k → String
  tree_root (leaf x) = x
  tree_root (node l r) = c.sha256 (String.◌++◌ (tree_root l) (tree_root r))

  -- The tree without its lowest level.
  abbrev shrink : {k : ℕ} → Tree (suc k) → Tree k
  shrink (node (leaf a) (leaf b)) = leaf (c.sha256 (String.◌++◌ a b))
  shrink (node (node a b) (node d e)) = node (shrink (node a b)) (shrink (node d e))

  IsFull-shrink : {k : ℕ} (t : Tree (suc k)) → ((x : String) → c.sha256 x ≢ "") → IsFull (shrink t)
  IsFull-shrink (node (leaf a) (leaf b)) h = h (String.◌++◌ a b)
  IsFull-shrink (node (node a b) (node d e)) h =
      (IsFull-shrink (node a b) h, IsFull-shrink (node d e) h)

  tree_root-shrink : {k : ℕ} (t : Tree (suc k)) → tree_root (shrink t) ≡ tree_root t
  tree_root-shrink (node (leaf a) (leaf b)) = refl
  tree_root-shrink (node (node a b) (node d e)) =
      ap₂ (λ x y. c.sha256 (String.◌++◌ x y)) (tree_root-shrink (node a b))
        (tree_root-shrink (node d e))

  combine_full : (a b : String) → b ≢ "" → combine c a b ≡ c.sha256 (String.◌++◌ a b)
  unfolding combine
  combine_full a b h = ground (arith, eq_iff b "")

  next_level-leaves :
      {k : ℕ} (t : Tree (suc k)) (rest : List String)
      → IsFull t
      → next_level c (leaves t ++ rest) ≡ leaves (shrink t) ++ next_level c rest
  unfolding next_level
  next_level-leaves (node (leaf a) (leaf b)) rest h =
      ap (λ x. x ∷ next_level c rest) (combine_full a b h.1)
  next_level-leaves (node (node a b) (node d e)) rest h =
      let l = leaves (node a b) in
      let r = leaves (node d e) in
      ap (next_level c) (append_assoc l r rest)
      ∙ next_level-leaves (node a b) (r ++ rest) h.0
      ∙ ap (◌++◌ (leaves (shrink (node a b)))) (next_level-leaves (node d e) rest h.1)
      ∙ sym (
          append_assoc (leaves (shrink (node a b))) (leaves (shrink (node d e)))
            (next_level c rest))

  leaves_pos : {k : ℕ} (t : Tree k) → 0 < length (leaves t)
  leaves_pos (leaf x) = omega arith
  leaves_pos (node l r) =
      omega (arith, length-append (leaves l) (leaves r), leaves_pos l, leaves_pos r)

  merkle_loop-leaves :
      (fuel : ℕ) {k : ℕ} (t : Tree k)
      → k ≤ fuel
      → IsFull t
      → ((x : String) → c.sha256 x ≢ "")
      → merkle_loop c fuel (leaves t) ≡ tree_root t ∷ []
  unfolding merkle_loop
  merkle_loop-leaves zero (leaf x) p h q = refl
  merkle_loop-leaves (suc fuel) (leaf x) p h q = refl
  merkle_loop-leaves zero (node l r) p h q = absurd (omega arith)
  merkle_loop-leaves (suc fuel) (node {k = k} l r) p h q =
      let t : Tree (suc k) = node l r in
      let many : 1 < length (leaves t) =
        omega (arith, length-append (leaves l) (leaves r), leaves_pos l, leaves_pos r) in
      let down =
        ap (next_level c) (sym (append-nil (leaves t)))
        ∙ next_level-leaves t [] h
        ∙ ap (◌++◌ (leaves (shrink t))) nil
        ∙ append-nil (leaves (shrink t)) in
      merkle_loop-next_level c fuel (leaves t) many
      ∙ ap (merkle_loop c fuel) down
      ∙ merkle_loop-leaves fuel (shrink t) (omega arith) (IsFull-shrink t q) q
      ∙ ap (λ x. x ∷ []) (tree_root-shrink t)
    where
      nil : next_level c [] ≡ []
      nil = unfold next_level in refl

  depth-le : {k : ℕ} (t : Tree k) → k ≤ length (leaves t)
  depth-le (leaf x) = omega arith
  depth-le (node l r) = omega (arith, length-append (leaves l) (leaves r), depth-le l, leaves_pos r)

  -- The root of a batch whose hashes, in order, are the leaves of a perfect binary tree is the root
  -- of that tree, provided that no hash is the empty text.
  pub calculate_merkle_root-tree_root :
      {k : ℕ} (t : Tree k) (events : List SignedSupplyChainEvent)
      → map (λ e. e.data_hash) events ≡ leaves t
      → IsFull t
      → ((x : String) → c.sha256 x ≢ "")
      → calculate_merkle_root c events ≡ tree_root t
  unfolding calculate_merkle_root
  calculate_merkle_root-tree_root t [] e h q = absurd (omega (arith, ap length e, leaves_pos t))
  calculate_merkle_root-tree_root (leaf x) (a ∷ []) e h q = ground (arith, e)
  calculate_merkle_root-tree_root (node l r) (a ∷ []) e h q =
      absurd (
        omega (arith, ap length e, length-append (leaves l) (leaves r), leaves_pos l, leaves_pos r))
  calculate_merkle_root-tree_root t (a ∷ b ∷ es) e h q = ground (
    arith,
    e,
    ap length e,
    merkle_loop-leaves (length (a ∷ b ∷ es)) t
        (omega (
          arith,
          depth-le t,
          ap length e,
          length-map (λ (x : SignedSupplyChainEvent). x.data_hash) es,
        ))
        h q,
    length-map (λ (x : SignedSupplyChainEvent). x.data_hash) es,
  )
