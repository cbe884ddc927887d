-- ===== src/Prelude/Lists.antt =====
-- Lists measured and indexed by native numbers, under the library's names, and predicates on them.
use Prim.Native.Nat.{ℕ, zero, suc, ◌+◌, ◌<◌}
use mathlib.Core.Path.{◌≡◌, refl, ap}
use mathlib.Core.Bool.{Bool, true, false, ◌||◌}
use mathlib.Core.List.{List, [], ◌∷◌, ◌++◌}
use mathlib.Core.Option.{Option, none, some}
use native.Mathlib.Omega.{arith}
use clip_cascade_go_fork.Prelude.Tests.{if◌then◌else◌}

module _ {ℓ} {A : Type ℓ} where
  abbrev pub length : List A → ℕ
  length [] = 0
  length (x ∷ xs) = suc (length xs)

  abbrev pub get_elem? : List A → ℕ → Option A
  get_elem? [] i = none
  get_elem? (x ∷ xs) zero = some x
  get_elem? (x ∷ xs) (suc i) = get_elem? xs i

  -- A write out of bounds changes nothing.
  abbrev pub set : List A → ℕ → A → List A
  set [] i v = []
  set (x ∷ xs) zero v = v ∷ xs
  set (x ∷ xs) (suc i) v = x ∷ set xs i v

  -- `append(l[:i], l[i+1:]...)`; out of bounds nothing is removed.
  abbrev pub remove_at : List A → ℕ → List A
  remove_at [] i = []
  remove_at (x ∷ xs) zero = xs
  remove_at (x ∷ xs) (suc i) = x ∷ remove_at xs i

  -- `l` with `v` put before position `i`, at the end when `i` is past it.
  abbrev pub insert_at : List A → ℕ → A → List A
  insert_at [] i v = v ∷ []
  insert_at (x ∷ xs) zero v = v ∷ x ∷ xs
  insert_at (x ∷ xs) (suc i) v = x ∷ insert_at xs i v

  pub length-append : (xs ys : List A) → length (xs ++ ys) ≡ length xs + length ys
  length-append [] ys = omega arith
  length-append (x ∷ xs) ys = omega (arith, length-append xs ys)

  pub length-insert_at : (xs : List A) (i : ℕ) (v : A) → length (insert_at xs i v) ≡ suc (length xs)
  length-insert_at [] i v = refl
  length-insert_at (x ∷ xs) zero v = refl
  length-insert_at (x ∷ xs) (suc i) v = ap suc (length-insert_at xs i v)

  -- The items that pass a test, in their order.
  abbrev pub keep_if : (A → Bool) → List A → List A
  keep_if p [] = []
  keep_if p (x ∷ xs) = let rest = keep_if p xs in if p x then x ∷ rest else rest

  abbrev pub any : (A → Bool) → List A → Bool
  any p [] = false
  any p (x ∷ xs) = p x || any p xs

  abbrev pub find : (A → Bool) → List A → Option A
  find p [] = none
  find p (x ∷ xs) = if p x then some x else find p xs

abbrev pub All {ℓ κ} : {A : Type ℓ} → (A → Type κ) → List A → Type κ
All P [] = Unit
All P (x ∷ xs) = P x × All P xs

-- Every earlier item is related to every later one.
abbrev pub Pairwise {ℓ κ} : {A : Type ℓ} → (A → A → Type κ) → List A → Type κ
Pairwise R [] = Unit
Pairwise R (x ∷ xs) = All (R x) xs × Pairwise R xs

module _ {ℓ κ} {A : Type ℓ} (P : A → Type κ) where
  pub All-remove_at : (xs : List A) (i : ℕ) → All P xs → All P (remove_at xs i)
  All-remove_at [] i h = h
  All-remove_at (x ∷ xs) zero h = h.1
  All-remove_at (x ∷ xs) (suc i) h = (h.0, All-remove_at xs i h.1)

  pub All-insert_at : (xs : List A) (i : ℕ) (v : A) → P v → All P xs → All P (insert_at xs i v)
  All-insert_at [] i v hv h = (hv, tt)
  All-insert_at (x ∷ xs) zero v hv h = (hv, h)
  All-insert_at (x ∷ xs) (suc i) v hv h = (h.0, All-insert_at xs i v hv h.1)

  pub All-get_elem? : (xs : List A) (i : ℕ) {v : A} → All P xs → get_elem? xs i ≡ some v → P v
  All-get_elem? [] i h e = ground arith
  All-get_elem? (x ∷ xs) zero h e = ground arith
  All-get_elem? (x ∷ xs) (suc i) h e = All-get_elem? xs i h.1 e

  pub All-find : (p : A → Bool) (xs : List A) (v : A) → All P xs → find p xs ≡ some v → P v
  All-find p [] v h e = ground arith
  All-find p (x ∷ xs) v h e = ground (arith, All-find p xs v h.1)

pub All-map {ℓ κ μ} :
    {A : Type ℓ} {P : A → Type κ} {Q : A → Type μ} (f : (x : A) → P x → Q x) (xs : List A)
    → All P xs
    → All Q xs
All-map f [] h = tt
All-map f (x ∷ xs) h = (f x h.0, All-map f xs h.1)

module _ {ℓ κ} {A : Type ℓ} (R : A → A → Type κ) where
  pub Pairwise-remove_at : (xs : List A) (i : ℕ) → Pairwise R xs → Pairwise R (remove_at xs i)
  Pairwise-remove_at [] i h = h
  Pairwise-remove_at (x ∷ xs) zero h = h.1
  Pairwise-remove_at (x ∷ xs) (suc i) h =
      (All-remove_at (R x) xs i h.0, Pairwise-remove_at xs i h.1)

module _ {ℓ} {A : Type ℓ} where
  pub length-remove_at :
      (xs : List A) (i : ℕ) → i < length xs → suc (length (remove_at xs i)) ≡ length xs
  length-remove_at [] i h = elim h [ ]
  length-remove_at (x ∷ xs) zero h = refl
  length-remove_at (x ∷ xs) (suc i) h = ap suc (length-remove_at xs i (omega arith))

  -- Removing an item that fails the test leaves those that pass it.
  pub keep_if-remove_at :
      (p : A → Bool) (xs : List A) (i : ℕ) (v : A)
      → get_elem? xs i ≡ some v
      → p v ≡ false
      → keep_if p (remove_at xs i) ≡ keep_if p xs
  keep_if-remove_at p [] i v e h = refl
  keep_if-remove_at p (x ∷ xs) zero v e h = ground arith
  keep_if-remove_at p (x ∷ xs) (suc i) v e h = ground (arith, keep_if-remove_at p xs i v e h)

  pub find-pass : (p : A → Bool) (xs : List A) (v : A) → find p xs ≡ some v → p v ≡ true
  find-pass p [] v e = ground arith
  find-pass p (x ∷ xs) v e = ground (arith, find-pass p xs v)

pub All-zip {ℓ κ μ ν} :
    {A : Type ℓ} {P : A → Type κ} {Q : A → Type μ} {R : A → Type ν} (f : (x : A) → P x → Q x → R x)
    (xs : List A)
    → All P xs
    → All Q xs
    → All R xs
All-zip f [] h k = tt
All-zip f (x ∷ xs) h k = (f x h.0 k.0, All-zip f xs h.1 k.1)

pub All-keep_if {ℓ κ} :
    {A : Type ℓ} (P : A → Type κ) (p : A → Bool) (xs : List A) → All P xs → All P (keep_if p xs)
All-keep_if P p [] h = tt
All-keep_if P p (x ∷ xs) h = kept (All-keep_if P p xs h.1) (p x)
  where
    kept : All P (keep_if p xs) → (b : Bool) → All P (if b then x ∷ keep_if p xs else keep_if p xs)
    kept rest true = (h.0, rest)
    kept rest false = rest

pub Pairwise-keep_if {ℓ κ} :
    {A : Type ℓ} (R : A → A → Type κ) (p : A → Bool) (xs : List A)
    → Pairwise R xs
    → Pairwise R (keep_if p xs)
Pairwise-keep_if R p [] h = tt
Pairwise-keep_if R p (x ∷ xs) h = kept (Pairwise-keep_if R p xs h.1) (p x)
  where
    kept :
        Pairwise R (keep_if p xs)
        → (b : Bool) → Pairwise R (if b then x ∷ keep_if p xs else keep_if p xs)
    kept rest true = (All-keep_if (R x) p xs h.0, rest)
    kept rest false = rest
