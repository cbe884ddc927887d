-- ===== src/Transport/Fragments/Filling.antt =====
-- desktop/transport/p2p_client.go: the entry of a message while its fragments come in.
use clip_cascade_go_fork.Prelude.{
  ℕ, zero, suc, ◌<◌, ◌≡◌, ◌≢◌, refl, ap, Bool, true, false, ◌||◌, List, [], ◌∷◌, length, set,
  get_elem?, some, if◌then◌else◌, arith, All, ◌==◌,
}
use clip_cascade_go_fork.Transport.Fragments.{Bytes, blanks, is_complete}

-- The fragments that were seen, and blanks.
pub fill : List Bytes → (ℕ → Bool) → List Bytes
fill [] seen = []
fill (f ∷ fs) seen = (if seen zero then f else []) ∷ fill fs (λ j. seen (suc j))

abbrev pub none_seen : ℕ → Bool
none_seen i = false

abbrev pub see : ℕ → (ℕ → Bool) → ℕ → Bool
see i seen j = i == j || seen j

pub length-fill : (fs : List Bytes) (seen : ℕ → Bool) → length (fill fs seen) ≡ length fs
unfolding fill
length-fill [] seen = refl
length-fill (f ∷ fs) seen = ap suc (length-fill fs (λ j. seen (suc j)))

pub blanks-fill : (fs : List Bytes) → blanks (length fs) ≡ fill fs none_seen
unfolding fill
blanks-fill [] = refl
blanks-fill (f ∷ fs) = ap (λ t. [] ∷ t) (blanks-fill fs)

pub fill_ext : (fs : List Bytes) (p q : ℕ → Bool) → ((j : ℕ) → p j ≡ q j) → fill fs p ≡ fill fs q
unfolding fill
fill_ext [] p q h = refl
fill_ext (f ∷ fs) p q h =
    rw (h zero, fill_ext fs (λ j. p (suc j)) (λ j. q (suc j)) (λ j. h (suc j))) refl

pub set-fill :
    (fs : List Bytes) (seen : ℕ → Bool) (i : ℕ) (f : Bytes)
    → get_elem? fs i ≡ some f
    → set (fill fs seen) i f ≡ fill fs (see i seen)
unfolding fill
set-fill [] seen i f h = refl
set-fill (g ∷ fs) seen zero f h =
    let same : g ≡ f = ground arith in
    rw (same, fill_ext fs (λ j. see zero seen (suc j)) (λ j. seen (suc j)) (λ j. ground arith)) refl
set-fill (g ∷ fs) seen (suc i) f h =
    let later : (suc i == zero) ≡ false = ground arith in
    rw
      (
        later,
        set-fill fs (λ j. seen (suc j)) i f h,
        fill_ext fs (λ j. see (suc i) seen (suc j)) (see i (λ j. seen (suc j))) (λ j. ground arith),
      )
      refl

-- One that is missing is enough for the message not to be complete.
pub fill_waits :
    (fs : List Bytes) (seen : ℕ → Bool) (i : ℕ)
    → i < length fs
    → seen i ≡ false
    → is_complete (fill fs seen) ≡ false
unfolding fill
fill_waits [] seen i h s = elim h [ ]
fill_waits (f ∷ fs) seen zero h s = rw s refl
fill_waits (f ∷ fs) seen (suc i) h s =
    by_first (fill_waits fs (λ j. seen (suc j)) i (omega (arith, h)) s)
      (if seen zero then f else [])
  where
    by_first :
        is_complete (fill fs (λ j. seen (suc j))) ≡ false
        → (g : Bytes) → is_complete (g ∷ fill fs (λ j. seen (suc j))) ≡ false
    by_first rest [] = refl
    by_first rest (c ∷ g) = rest

pub fill_done :
    (fs : List Bytes) (seen : ℕ → Bool)
    → ((i : ℕ) → i < length fs → seen i ≡ true)
    → fill fs seen ≡ fs
unfolding fill
fill_done [] seen h = refl
fill_done (f ∷ fs) seen h =
    let first : zero < length (f ∷ fs) = omega arith in
    rw (h zero first, fill_done fs (λ j. seen (suc j)) (λ i l. h (suc i) (omega (arith, l)))) refl

pub full_complete : (fs : List Bytes) → All (λ f. f ≢ []) fs → is_complete fs ≡ true
full_complete [] h = refl
full_complete ([] ∷ fs) h = elim (h.0 refl) [ ]
full_complete ((c ∷ f) ∷ fs) h = full_complete fs h.1
