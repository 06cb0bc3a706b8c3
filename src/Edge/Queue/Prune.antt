-- ===== src/Edge/Queue/Prune.antt =====
-- `pruneOfflineQueue` and the end of `queueOfflineEvent` (integration-service/src/edge/device-manager.ts):
-- the recorded size of a queue, and what pruning keeps and drops.
use mathlib.Core.List.{reverse, reverse-append, reverse-reverse, reverse-cons, Perm}
use kpm_cursor.Base.{
  ℕ, ◌+◌, ◌-◌, ◌*◌, ◌≤◌, ◌<◌, ◌≡◌, ◌⊎◌, ◌∙◌, sym, ap, subst, refl, List, [], ◌∷◌, ◌++◌, All, arith,
  sum_by, sum_by-append, Bool-cases, inl, inr, ltb,
}
use kpm_cursor.Edge.Types.{OfflineEvent, OfflineQueue}
use kpm_cursor.Edge.Queue.{sort, pop_until, prune_offline_queue, push_event}
use kpm_cursor.Edge.Queue.Order.{
  Outranks, IsRanked, sort-perm, sort-IsRanked, sum_by-sort, IsRanked-split,
}

abbrev pub sizes : List OfflineEvent → ℕ
sizes = sum_by (λ e. e.size)

-- The recorded size is the sum of the sizes.
abbrev pub IsCounted : OfflineQueue → Type 0
IsCounted q = q.total_size ≡ sizes q.queued_events

-- The last event of `removed` would not have fitted beside what is left.
abbrev WasNeeded : ℕ → ℕ → List OfflineEvent → Type 0
WasNeeded limit left removed =
    (x : OfflineEvent) × (before : List OfflineEvent) × (removed ≡ before ++ x ∷ [])
    × (limit < x.size + left)

-- How `pop_until` splits the events (last first): what it removed, and what it left with its size.
record Popped (limit : ℕ) (es : List OfflineEvent) (r : List OfflineEvent × ℕ) : Type 0 where
  removed : List OfflineEvent
  split : es ≡ removed ++ r.0
  counted : r.1 ≡ sizes r.0
  fits : r.1 ≤ limit
  needed : (removed ≡ []) ⊎ WasNeeded limit r.1 removed

needed-cons :
    (limit : ℕ) (e : OfflineEvent) (es : List OfflineEvent) (r : List OfflineEvent × ℕ)
    → limit < e.size + sizes es
    → (p : Popped limit es r) → WasNeeded limit r.1 (e ∷ p.removed)
needed-cons limit e es r h p = elim p.needed [
  | inl none_left ↦
      let at_once : es ≡ r.0 = p.split ∙ ap (λ x. x ++ r.0) none_left in
      (e, [], ap (◌∷◌ e) none_left, omega (arith, ap sizes at_once, p.counted))
  | inr (x, before, last, big) ↦ (x, e ∷ before, ap (◌∷◌ e) last, big)
]

pop_until-Popped :
    (limit total : ℕ) (es : List OfflineEvent)
    → total ≡ sizes es
    → Popped limit es (pop_until limit total es)
unfolding pop_until
pop_until-Popped limit total [] h = record {
  removed = [];
  split = refl;
  counted = h;
  fits = omega arith;
  needed = inl refl;
}
pop_until-Popped limit total (e ∷ es) h = elim (Bool-cases (ltb limit total)) [
  | inr fit ↦
      rw (fit, pop_until)
        (record { removed = []; split = refl; counted = h; fits = ground arith; needed = inl refl })
  | inl big ↦
      let ih = pop_until-Popped limit (total - e.size) es (omega arith) in
      rw (big, pop_until)
        (record {
          removed = e ∷ ih.removed;
          split = ap (◌∷◌ e) ih.split;
          counted = ih.counted;
          fits = ih.fits;
          needed = inr (needed-cons limit e es _ (ground (arith, h)) ih);
        })
]

sizes-reverse : (es : List OfflineEvent) → sizes (reverse es) ≡ sizes es
sizes-reverse [] = refl
sizes-reverse (e ∷ es) =
    ap sizes (reverse-cons e es)
    ∙ sum_by-append (λ (x : OfflineEvent). x.size) (reverse es) (e ∷ [])
    ∙ omega (arith, sizes-reverse es)

-- What pruning a counted queue to a limit does: it keeps a front part of the sorted queue, which fits
-- and is counted; the events dropped are the rest, each kept event outranks each of them, and the most
-- important of them would not have fitted.
pub record Pruned (limit : ℕ) (q q' : OfflineQueue) : Type 0 where
  pub dropped : List OfflineEvent
  pub all_there : Perm (q'.queued_events ++ dropped) q.queued_events
  pub counted : IsCounted q'
  pub fits : q'.total_size ≤ limit
  pub best : All (λ kept. All (Outranks kept) dropped) q'.queued_events
  pub needed :
      (dropped ≡ [])
      ⊎ ((x : OfflineEvent) × (rest : List OfflineEvent) × (dropped ≡ x ∷ rest)
          × (limit < x.size + q'.total_size))

sorted_split :
    (sorted kept removed : List OfflineEvent)
    → reverse sorted ≡ removed ++ kept
    → sorted ≡ reverse kept ++ reverse removed
sorted_split sorted kept removed e =
    sym (reverse-reverse sorted) ∙ ap reverse e ∙ reverse-append removed kept

-- Pruning a counted queue to a limit keeps a part of its events that fits and records its right size;
-- each kept event has a higher priority than each dropped one, or the same and is not older; and
-- together with the most important dropped event what is kept would exceed the limit.
pub prune_offline_queue-Pruned :
    (q : OfflineQueue) (limit_mb : ℕ)
    → IsCounted q
    → Pruned (limit_mb * 1024 * 1024) q (prune_offline_queue q limit_mb)
unfolding prune_offline_queue
prune_offline_queue-Pruned q limit_mb h =
    let limit = limit_mb * 1024 * 1024 in
    let sorted = sort q.queued_events in
    let p = pop_until-Popped limit q.total_size (reverse sorted) (
      omega (
        arith,
        h,
        sizes-reverse sorted,
        sum_by-sort (λ (x : OfflineEvent). x.size) q.queued_events,
      )) in
    let kept = (pop_until limit q.total_size (reverse sorted)).0 in
    let split : sorted ≡ reverse kept ++ reverse p.removed =
      sorted_split sorted kept p.removed p.split in
    record {
      dropped = reverse p.removed;
      all_there = subst (λ es. Perm es q.queued_events) split (sort-perm q.queued_events);
      counted = p.counted ∙ sym (sizes-reverse kept);
      fits = p.fits;
      best =
          IsRanked-split (reverse kept) (reverse p.removed)
            (subst IsRanked split (sort-IsRanked q.queued_events));
      needed = elim p.needed [
        | inl e ↦ inl (ap reverse e)
        | inr (x, before, e, big) ↦
            inr (x, reverse before, ap reverse e ∙ reverse-append before (x ∷ []), big)
      ];
    }

-- Queueing an event keeps the recorded size right and the queue within the device's limit.
pub push_event-IsCounted :
    (e : OfflineEvent) (limit_mb : ℕ) (q : OfflineQueue)
    → IsCounted q
    → IsCounted (push_event e limit_mb q)
      × ((push_event e limit_mb q).total_size ≤ limit_mb * 1024 * 1024)
unfolding push_event
push_event-IsCounted e limit_mb q h =
    let pushed = record q {
      queued_events = q.queued_events ++ e ∷ [];
      total_size = q.total_size + e.size;
    } in
    let more : IsCounted pushed =
      omega (arith, h, sum_by-append (λ (x : OfflineEvent). x.size) q.queued_events (e ∷ [])) in
    elim (Bool-cases (ltb (limit_mb * 1024 * 1024) pushed.total_size)) [
      | inl big ↦
          let p = prune_offline_queue-Pruned pushed limit_mb more in rw big (p.counted, p.fits)
      | inr fit ↦ rw fit (more, ground arith)
    ]
