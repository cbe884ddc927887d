-- ===== src/History/Eviction.antt =====
-- The eviction of overflowing items (`evictOverflowLocked` of desktop/history/history.go).
use clip_cascade_go_fork.Prelude.{
  ℕ, zero, suc, ◌+◌, append-nil, append_assoc, length-append, ap, sym, ◌≤◌, ◌<◌, ◌≡◌, refl, ◌⊎◌,
  inl, inr, Bool, true, false, not, List, [], ◌∷◌, none, some, arith, ltb, length, get_elem?,
  remove_at, keep_if, Bool-cases, Option-cases, length-remove_at, keep_if-remove_at, ◌∙◌, ◌++◌,
}
use native.Mathlib.Decide.{ℕ_discrete}
use clip_cascade_go_fork.History.Item.{HistoryItem}
use clip_cascade_go_fork.History.Manager.{
  Manager, is_evictable, evictable_at, evict_idx, evict_at, evict_overflow_from, evict_overflow,
}

abbrev pub is_kept : HistoryItem → Bool
is_kept item = not (is_evictable item)

-- The index that the inner loop finds is that of an evictable item, and every later one up to the
-- start of the loop is not.
record Found (items : List HistoryItem) (n i : ℕ) : Type 0 where
  below : i < n
  evictable : evictable_at items i ≡ true
  oldest : (j : ℕ) → i < j → j < n → evictable_at items j ≡ false

evict_idx-Found :
    (items : List HistoryItem) (n i : ℕ) → evict_idx items n ≡ some i → Found items n i
unfolding evict_idx
evict_idx-Found items zero i e = ground arith
evict_idx-Found items (suc n) i e = elim (Bool-cases (evictable_at items n)) [
  | inl q ↦
      let same : n ≡ i = ground arith in
      record {
        below = omega arith;
        evictable = rw (← same) q;
        oldest = λ j l h. absurd (omega arith);
      }
  | inr q ↦
      let f = evict_idx-Found items n i (ground arith) in
      record {
        below = omega (arith, f.below);
        evictable = f.evictable;
        oldest = λ j l h. elim (ℕ_discrete j n) [
          | yes same ↦ rw same q
          | no other ↦ f.oldest j l (omega arith)
        ];
      }
]

evict_idx-none :
    (items : List HistoryItem) (n : ℕ)
    → evict_idx items n ≡ none
    → (j : ℕ) → j < n
    → evictable_at items j ≡ false
unfolding evict_idx
evict_idx-none items zero e j h = absurd (omega arith)
evict_idx-none items (suc n) e j h = elim (ℕ_discrete j n) [
  | yes same ↦ rw same (ground arith)
  | no other ↦ evict_idx-none items n (ground arith) j (omega arith)
]

-- Where no position holds an evictable item there is none.
no_evictable :
    (items : List HistoryItem)
    → ((j : ℕ) → j < length items → evictable_at items j ≡ false)
    → keep_if is_evictable items ≡ []
no_evictable [] h = refl
no_evictable (x ∷ xs) h = rw (h 0 (omega arith)) (no_evictable xs (λ j l. h (suc j) (omega arith)))

-- Without the last evictable item, the evictable items lose their last one.
keep_if-remove_last :
    (items : List HistoryItem) (i : ℕ) (v : HistoryItem)
    → get_elem? items i ≡ some v
    → is_evictable v ≡ true
    → ((j : ℕ) → i < j → j < length items → evictable_at items j ≡ false)
    → keep_if is_evictable items ≡ keep_if is_evictable (remove_at items i) ++ v ∷ []
keep_if-remove_last [] i v e k h = ground arith
keep_if-remove_last (x ∷ xs) zero v e k h =
    let here : x ≡ v = ground arith in
    let rest = no_evictable xs (λ j l. h (suc j) (omega arith) (omega arith)) in
    rw (here, k, rest) refl
keep_if-remove_last (x ∷ xs) (suc i) v e k h =
    ground (arith, keep_if-remove_last xs i v e k (λ j l r. h (suc j) (omega arith) (omega arith)))

-- The item at the index that is found.
Found-item :
    (items : List HistoryItem) (n i : ℕ)
    → Found items n i
    → (v : HistoryItem) × (get_elem? items i ≡ some v) × (is_evictable v ≡ true)
Found-item items n i f = elim (Option-cases (get_elem? items i)) [
  | inl q ↦ absurd (ground (arith, f.evictable))
  | inr (v, q) ↦ (v, q, ground (arith, f.evictable))
]

-- The rule for the loop: what a round keeps, the loop keeps.
module _ {ℓ} (P : Manager → Type ℓ)
    (round : (m : Manager) (i : ℕ) (v : HistoryItem)
      → get_elem? m.items i ≡ some v
      → is_evictable v ≡ true
      → P m
      → P (evict_at m i)) where
  evict_overflow_from-keeps :
      (fuel : ℕ) (m : Manager) (k : ℕ) → P m → P (evict_overflow_from fuel m k).0
  unfolding evict_overflow_from
  evict_overflow_from-keeps zero m k h = h
  evict_overflow_from-keeps (suc fuel) m k h =
      elim (Bool-cases (ltb m.max_items (length m.items))) [
        | inr e ↦ rw e h
        | inl e ↦ elim (Option-cases (evict_idx m.items (length m.items))) [
          | inl q ↦ rw (e, q) h
          | inr (i, q) ↦
              rw (e, q)
                (let (v, at, ev) =
                    Found-item m.items (length m.items) i
                      (evict_idx-Found m.items (length m.items) i q) in
                  evict_overflow_from-keeps fuel (evict_at m i) (suc k) (round m i v at ev h))
        ]
      ]

  pub evict_overflow-keeps : (m : Manager) → P m → P (evict_overflow m).0
  unfolding evict_overflow
  evict_overflow-keeps m = evict_overflow_from-keeps (length m.items) m 0

-- The manager is not above its limit, or holds no item that may be evicted.
abbrev pub IsSettled : Manager → Type 0
IsSettled m = (length m.items ≤ m.max_items) ⊎ (keep_if is_evictable m.items ≡ [])

-- What the loop has done once it stops: it evicted `n` items, which are the last `n` evictable
-- ones in their order, kept all the others, and went no further than the limit.
pub record Evicted (m m' : Manager) (n : ℕ) : Type 0 where
  pub settled : IsSettled m'
  pub counted : length m'.items + n ≡ length m.items
  pub needed : 0 < n → m.max_items ≤ length m'.items
  pub kept : keep_if is_kept m'.items ≡ keep_if is_kept m.items
  pub gone :
      (items : List HistoryItem) × (keep_if is_evictable m.items
        ≡ keep_if is_evictable m'.items ++ items)
      × (length items ≡ n)
  pub limit : m'.max_items ≡ m.max_items

Evicted-round :
    (m m' : Manager) (i n : ℕ)
    → ltb m.max_items (length m.items) ≡ true
    → Found m.items (length m.items) i
    → Evicted (evict_at m i) m' n
    → Evicted m m' (suc n)
unfolding evict_at
Evicted-round m m' i n over f r =
    let (v, at, ev) = Found-item m.items (length m.items) i f in
    let removed = length-remove_at m.items i f.below in
    let (items, e, l) = r.gone in
    record {
      settled = r.settled;
      counted = omega (arith, removed, r.counted);
      needed = λ h. ground (arith, r.counted, removed, r.needed);
      kept = r.kept ∙ keep_if-remove_at is_kept m.items i v at (rw ev);
      gone = (
        items ++ v ∷ [],
        keep_if-remove_last m.items i v at ev f.oldest
            ∙ ap (λ l. l ++ v ∷ []) e
            ∙ append_assoc (keep_if is_evictable m'.items) items (v ∷ []),
        omega (arith, length-append items (v ∷ [])),
      );
      limit = r.limit;
    }

Evicted-none : (m : Manager) → IsSettled m → Evicted m m 0
Evicted-none m h = record {
  settled = h;
  counted = omega arith;
  needed = λ l. absurd (omega arith);
  kept = refl;
  gone = ([], sym (append-nil (keep_if is_evictable m.items)), refl);
  limit = refl;
}

evict_overflow_from-Evicted :
    (fuel : ℕ) (m : Manager) (k : ℕ)
    → length m.items ≤ fuel
    → (n : ℕ) × ((evict_overflow_from fuel m k).1 ≡ k + n)
      × Evicted m (evict_overflow_from fuel m k).0 n
unfolding evict_overflow_from
evict_overflow_from-Evicted zero m k h = (0, omega arith, Evicted-none m (inl (omega arith)))
evict_overflow_from-Evicted (suc fuel) m k h =
    elim (Bool-cases (ltb m.max_items (length m.items))) [
      | inr e ↦ rw e (0, omega arith, Evicted-none m (inl (ground arith)))
      | inl e ↦ elim (Option-cases (evict_idx m.items (length m.items))) [
        | inl q ↦
            rw (e, q)
              (
                0,
                omega arith,
                Evicted-none m
                    (inr (no_evictable m.items (evict_idx-none m.items (length m.items) q))),
              )
        | inr (i, q) ↦
            rw (e, q)
              (let f = evict_idx-Found m.items (length m.items) i q in
                let (n, c, r) =
                  evict_overflow_from-Evicted fuel (evict_at m i) (suc k)
                    (unfold evict_at in omega (arith, length-remove_at m.items i f.below)) in
                (suc n, omega (arith, c), Evicted-round m _ i n e f r))
      ]
    ]

-- The fuel is enough, and the number that is returned counts the items evicted.
pub evict_overflow-Evicted : (m : Manager) → Evicted m (evict_overflow m).0 (evict_overflow m).1
unfolding evict_overflow
evict_overflow-Evicted m =
    let (n, c, r) = evict_overflow_from-Evicted (length m.items) m 0 (omega arith) in
    let same : (evict_overflow_from (length m.items) m 0).1 ≡ n = omega (arith, c) in rw same r
