-- ===== src/Edge/Queue/Order.antt =====
-- The order in which `pruneOfflineQueue` sorts a queue (integration-service/src/edge/device-manager.ts).
use mathlib.Core.List.{Perm}
use mathlib.Core.List.Perm
use kpm_cursor.Base.{
  ℕ, ◌+◌, ◌≤◌, ◌<◌, ◌≡◌, ◌⊎◌, inl, inr, refl, true, false, List, [], ◌∷◌, ◌++◌, All, arith, sum_by,
  Bool-cases,
}
use kpm_cursor.Edge.Types.{OfflineEvent}
use kpm_cursor.Edge.Queue.{priority_order, comes_first, insert, sort}

-- `a` is to be kept rather than `b`: its priority is higher, or the same and it is not older.
abbrev pub Outranks : OfflineEvent → OfflineEvent → Type 0
Outranks a b =
    (priority_order b.priority < priority_order a.priority)
    ⊎ ((priority_order a.priority ≡ priority_order b.priority) × (b.timestamp ≤ a.timestamp))

abbrev pub IsRanked : List OfflineEvent → Type 0
IsRanked [] = Unit
IsRanked (e ∷ es) = All (Outranks e) es × IsRanked es

comes_first-Outranks : (a b : OfflineEvent) → comes_first a b ≡ true → Outranks a b
unfolding comes_first
comes_first-Outranks a b h = grind arith

not-comes_first-Outranks : (a b : OfflineEvent) → comes_first a b ≡ false → Outranks b a
unfolding comes_first
not-comes_first-Outranks a b h = grind arith

Outranks-trans : (a b d : OfflineEvent) → Outranks a b → Outranks b d → Outranks a d
Outranks-trans a b d p q = grind arith

insert-perm : (e : OfflineEvent) (es : List OfflineEvent) → Perm (insert e es) (e ∷ es)
unfolding insert
insert-perm e [] = Perm.refl _
insert-perm e (x ∷ xs) = elim (Bool-cases (comes_first e x)) [
  | inl h ↦ rw (h) (Perm.refl _)
  | inr h ↦ rw h (Perm.trans (Perm.cons x (insert-perm e xs)) (Perm.swap e x xs))
]

pub sort-perm : (es : List OfflineEvent) → Perm (sort es) es
unfolding sort
sort-perm [] = Perm.refl _
sort-perm (e ∷ es) = Perm.trans (insert-perm e (sort es)) (Perm.cons e (sort-perm es))

All-Outranks-trans :
    (a b : OfflineEvent) (es : List OfflineEvent)
    → Outranks a b
    → All (Outranks b) es
    → All (Outranks a) es
All-Outranks-trans a b [] p h = tt
All-Outranks-trans a b (e ∷ es) p h = (Outranks-trans a b e p h.0, All-Outranks-trans a b es p h.1)

All-insert :
    (P : OfflineEvent → Type 0) (e : OfflineEvent) (es : List OfflineEvent)
    → P e
    → All P es
    → All P (insert e es)
unfolding insert
All-insert P e [] p h = (p, tt)
All-insert P e (x ∷ xs) p h = elim (Bool-cases (comes_first e x)) [
  | inl q ↦ rw q (p, h)
  | inr q ↦ rw q (h.0, All-insert P e xs p h.1)
]

insert-IsRanked : (e : OfflineEvent) (es : List OfflineEvent) → IsRanked es → IsRanked (insert e es)
unfolding insert
insert-IsRanked e [] r = (tt, tt)
insert-IsRanked e (x ∷ xs) r = elim (Bool-cases (comes_first e x)) [
  | inl q ↦ rw q (let p = comes_first-Outranks e x q in ((p, All-Outranks-trans e x xs p r.0), r))
  | inr q ↦
      rw q (
        All-insert (Outranks x) e xs (not-comes_first-Outranks e x q) r.0,
        insert-IsRanked e xs r.1,
      )
]

pub sort-IsRanked : (es : List OfflineEvent) → IsRanked (sort es)
unfolding sort
sort-IsRanked [] = tt
sort-IsRanked (e ∷ es) = insert-IsRanked e (sort es) (sort-IsRanked es)

sum_by-insert :
    (f : OfflineEvent → ℕ) (e : OfflineEvent) (es : List OfflineEvent)
    → sum_by f (insert e es) ≡ f e + sum_by f es
unfolding insert
sum_by-insert f e [] = refl
sum_by-insert f e (x ∷ xs) = ground (arith, sum_by-insert f e xs)

pub sum_by-sort : (f : OfflineEvent → ℕ) (es : List OfflineEvent) → sum_by f (sort es) ≡ sum_by f es
unfolding sort
sum_by-sort f [] = refl
sum_by-sort f (e ∷ es) = omega (arith, sum_by-insert f e (sort es), sum_by-sort f es)

-- In a ranked list everything in the front part outranks everything behind it.
pub IsRanked-split :
    (front back : List OfflineEvent)
    → IsRanked (front ++ back)
    → All (λ a. All (Outranks a) back) front
IsRanked-split [] back r = tt
IsRanked-split (e ∷ es) back r = (All-back es back r.0, IsRanked-split es back r.1)
  where
    All-back : (xs ys : List OfflineEvent) → All (Outranks e) (xs ++ ys) → All (Outranks e) ys
    All-back [] ys h = h
    All-back (x ∷ xs) ys h = All-back xs ys h.1
