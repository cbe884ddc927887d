-- ===== src/GoMap.antt =====
-- Go's built-in map, for the places that use one: a list of entries with distinct keys. A write
-- under a key that is there replaces its value; the order of the entries is that of an iteration,
-- which the language leaves open, so nothing is stated about it.
use clip_cascade_go_fork.Prelude.{
  ◌≡◌, ◌≢◌, refl, ap, Bool, Option, none, some, List, [], ◌∷◌, arith, if◌then◌else◌, All, Pairwise,
  Bool-cases, inl, inr,
}
use clip_cascade_go_fork.Prelude.Eq.{Eq}

abbrev pub GoMap {ℓ κ} : Type ℓ → Type κ → Type (ℓ ⊔ κ)
GoMap K V = List (K × V)

module _ {ℓ κ} {K : Type ℓ} {V : Type κ} where
  abbrev pub DistinctKeys : GoMap K V → Type ℓ
  DistinctKeys = Pairwise (λ x y. x.0 ≢ y.0)

  -- `for k, v := range m { if !p(k, v) { delete(m, k) } }`
  unfoldable pub keep : (K → V → Bool) → GoMap K V → GoMap K V
  keep p [] = []
  keep p ((k, v) ∷ m) = let rest = keep p m in if p k v then (k, v) ∷ rest else rest

module _ {ℓ κ} {K : Type ℓ} {V : Type κ} where
  pub All-keep {μ} :
      (P : K × V → Type μ) (p : K → V → Bool) (m : GoMap K V) → All P m → All P (keep p m)
  unfolding keep
  All-keep P p [] a = a
  All-keep P p ((i, w) ∷ m) a = elim (Bool-cases (p i w)) [
    | inl q ↦ rw q (a.0, All-keep P p m a.1)
    | inr q ↦ rw q (All-keep P p m a.1)
  ]

  pub DistinctKeys-keep :
      (p : K → V → Bool) (m : GoMap K V) → DistinctKeys m → DistinctKeys (keep p m)
  unfolding keep
  DistinctKeys-keep p [] d = d
  DistinctKeys-keep p ((i, w) ∷ m) d = elim (Bool-cases (p i w)) [
    | inl q ↦ rw q (All-keep (λ y. i ≢ y.0) p m d.0, DistinctKeys-keep p m d.1)
    | inr q ↦ rw q (DistinctKeys-keep p m d.1)
  ]

module _ {ℓ κ} {K : Type ℓ} {V : Type κ} ⦃e : Eq K⦄ where
  -- `v, ok := m[k]`
  unfoldable pub get : GoMap K V → K → Option V
  get [] k = none
  get ((j, v) ∷ m) k = if e.beq j k then some v else get m k

  -- `m[k] = v`
  unfoldable pub put : GoMap K V → K → V → GoMap K V
  put [] k v = (k, v) ∷ []
  put ((j, w) ∷ m) k v = let rest = put m k v in if e.beq j k then (k, v) ∷ m else (j, w) ∷ rest

  -- `delete(m, k)`
  unfoldable pub remove : GoMap K V → K → GoMap K V
  remove [] k = []
  remove ((j, w) ∷ m) k = let rest = remove m k in if e.beq j k then rest else (j, w) ∷ rest

  pub get-put :
      (m : GoMap K V) (k j : K) (v : V)
      → get (put m k v) j ≡ (if e.beq k j then some v else get m j)
  unfolding get put
  get-put [] k j v = refl
  get-put ((i, w) ∷ m) k j v =
      ground (arith, e.beq_iff i k, e.beq_iff i j, e.beq_iff k j, get-put m k j v)

  pub get-put_same : (m : GoMap K V) (k : K) (v : V) → get (put m k v) k ≡ some v
  get-put_same m k v = rw (get-put m k k v, (e.beq_iff k k).1 refl) refl

  pub get-remove :
      (m : GoMap K V) (k j : K) → get (remove m k) j ≡ (if e.beq k j then none else get m j)
  unfolding get remove
  get-remove [] k j = ground arith
  get-remove ((i, w) ∷ m) k j =
      ground (arith, e.beq_iff i k, e.beq_iff i j, e.beq_iff k j, get-remove m k j)

  pub All-put {μ} :
      (P : K × V → Type μ) (m : GoMap K V) (k : K) (v : V) → P (k, v) → All P m → All P (put m k v)
  unfolding put
  All-put P [] k v h a = (h, tt)
  All-put P ((i, w) ∷ m) k v h a = elim (Bool-cases (e.beq i k)) [
    | inl q ↦ rw q (h, a.1)
    | inr q ↦ rw q (a.0, All-put P m k v h a.1)
  ]

  pub All-remove {μ} : (P : K × V → Type μ) (m : GoMap K V) (k : K) → All P m → All P (remove m k)
  unfolding remove
  All-remove P [] k a = a
  All-remove P ((i, w) ∷ m) k a = elim (Bool-cases (e.beq i k)) [
    | inl q ↦ rw q (All-remove P m k a.1)
    | inr q ↦ rw q (a.0, All-remove P m k a.1)
  ]

  pub DistinctKeys-put : (m : GoMap K V) (k : K) (v : V) → DistinctKeys m → DistinctKeys (put m k v)
  unfolding put
  DistinctKeys-put [] k v d = (tt, tt)
  DistinctKeys-put ((i, w) ∷ m) k v d = elim (Bool-cases (e.beq i k)) [
    | inl q ↦ rw q (rw (← (e.beq_iff i k).0 q) d.0, d.1)
    | inr q ↦ rw q (
      All-put (λ y. i ≢ y.0) m k v (ground (arith, e.beq_iff i k)) d.0,
      DistinctKeys-put m k v d.1,
    )
  ]

  pub DistinctKeys-remove : (m : GoMap K V) (k : K) → DistinctKeys m → DistinctKeys (remove m k)
  unfolding remove
  DistinctKeys-remove [] k d = d
  DistinctKeys-remove ((i, w) ∷ m) k d = elim (Bool-cases (e.beq i k)) [
    | inl q ↦ rw q (DistinctKeys-remove m k d.1)
    | inr q ↦ rw q (All-remove (λ y. i ≢ y.0) m k d.0, DistinctKeys-remove m k d.1)
  ]

  pub get_absent : (m : GoMap K V) (k : K) → All (λ y. k ≢ y.0) m → get m k ≡ none
  unfolding get
  get_absent [] k a = refl
  get_absent ((i, w) ∷ m) k a = ground (arith, a.0, e.beq_iff i k, get_absent m k a.1)

  pub get-keep :
      (p : K → V → Bool) (m : GoMap K V) (k : K)
      → DistinctKeys m
      → get (keep p m) k ≡ elim (get m k) [ none ↦ none | some v ↦ if p k v then some v else none ]
  unfolding get keep
  get-keep p [] k d = refl
  get-keep p ((i, w) ∷ m) k d = elim (Bool-cases (e.beq i k)) [
    | inl q ↦
        let same : i ≡ k = (e.beq_iff i k).0 q in
        let absent : get (keep p m) i ≡ none =
          get_absent (keep p m) i (All-keep (λ y. i ≢ y.0) p m d.0) in
        ground (arith, ap (λ j. get (keep p m) j) same, absent, ap (λ j. p j w) same)
    | inr q ↦ ground (arith, get-keep p m k d.1)
  ]

  -- A property of every value is one of each value that a lookup returns.
  pub All-get {μ} :
      (P : V → Type μ) (m : GoMap K V) (k : K) (v : V) → All (λ x. P x.1) m → get m k ≡ some v → P v
  unfolding get
  All-get P [] k v a h = ground arith
  All-get P ((i, w) ∷ m) k v a h = elim (Bool-cases (e.beq i k)) [
    | inl q ↦ (let same : w ≡ v = ground arith in rw (← same) a.0)
    | inr q ↦ All-get P m k v a.1 (ground arith)
  ]

  -- With distinct keys, what holds of the entries that lookups return holds of all.
  pub All-entries {μ} :
      (P : K × V → Type μ) (m : GoMap K V)
      → DistinctKeys m
      → ((k : K) (v : V) → get m k ≡ some v → P (k, v))
      → All P m
  unfolding get
  All-entries P [] d h = tt
  All-entries P ((i, w) ∷ m) d h = (
    h i w (ground (arith, e.beq_iff i i)),
    All-entries P m d.1 (λ k v q. h k v (ground (arith, e.beq_iff i k, get_absent m i d.0))),
  )
