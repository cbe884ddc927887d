-- ===== src/Files/Sending/Chunks.antt =====
-- desktop/app/file_transfer.go: the pieces of an archive.
use clip_cascade_go_fork.Prelude.{
  ℕ, zero, suc, ◌-◌, ◌≤◌, ◌<◌, ◌≡◌, refl, sym, ap, Bool, true, false, not, [], ◌∷◌, ◌++◌, ltb,
  length, arith, inl, inr, ◌⊎◌, append-nil,
}
use clip_cascade_go_fork.Clipboard.Capture.{Bytes}
use clip_cascade_go_fork.Files.Paths.{take}
use clip_cascade_go_fork.Files.Receiving.{is_empty}
use clip_cascade_go_fork.Files.Sending.{drop}

pub length-drop : (n : ℕ) (s : Bytes) → length (drop n s) ≡ length s - n
length-drop zero s = omega arith
length-drop (suc n) [] = omega arith
length-drop (suc n) (b ∷ s) = omega (arith, length-drop n s)

pub length-take_short :
    (n : ℕ) (s : Bytes)
    → (length (take n s) ≡ n) × (n ≤ length s) ⊎ (length (take n s) ≡ length s) × (length s < n)
length-take_short zero s = inl (refl, omega arith)
length-take_short (suc n) [] = inr (refl, omega arith)
length-take_short (suc n) (b ∷ s) = elim (length-take_short n s) [
  | inl (a, h) ↦ inl (ap suc a, omega arith)
  | inr (a, h) ↦ inr (ap suc a, omega arith)
]

pub take-drop : (n : ℕ) (s : Bytes) → take n s ++ drop n s ≡ s
take-drop zero s = refl
take-drop (suc n) [] = refl
take-drop (suc n) (b ∷ s) = ap (λ t. b ∷ t) (take-drop n s)

pub take_short : (n : ℕ) (s : Bytes) → length (take n s) < n → take n s ≡ s
take_short zero s h = absurd (omega arith)
take_short (suc n) [] h = refl
take_short (suc n) (b ∷ s) h = ap (λ t. b ∷ t) (take_short n s (omega arith))

pub is_empty-length : (s : Bytes) → is_empty s ≡ false → 0 < length s
is_empty-length [] h = ground arith
is_empty-length (b ∷ s) h = omega arith

pub length-is_empty : (s : Bytes) → is_empty s ≡ true → length s ≡ 0
length-is_empty [] h = refl
length-is_empty (b ∷ s) h = ground arith

pub nothing_left :
    (got : Bytes) (n : ℕ) (s : Bytes) → 0 < n → is_empty (take n s) ≡ true → got ≡ got ++ s
nothing_left got n [] h e = sym (append-nil got)
nothing_left got zero (b ∷ s) h e = absurd (omega arith)
nothing_left got (suc n) (b ∷ s) h e = absurd (ground arith)

pub is_less : (a b : ℕ) → ltb a b ≡ true → a < b
is_less a b h = ground arith

pub unsent : (b : Bool) → b ≡ true → not b ≡ true → ⊥
unsent b h k = ground arith

pub full_read : (s : Bytes) → is_empty s ≡ false → is_empty s ≡ true → ⊥
full_read s h k = ground arith

pub nothing_read : (n : ℕ) (s : Bytes) → 0 < n → is_empty (take n s) ≡ true → is_empty s ≡ true
nothing_read n [] h e = refl
nothing_read zero (b ∷ s) h e = absurd (omega arith)
nothing_read (suc n) (b ∷ s) h e = e

pub shrinks : (n : ℕ) (s : Bytes) → is_empty (take n s) ≡ false → length (drop n s) < length s
shrinks n s q =
    let some_read = is_empty-length (take n s) q in
    let left = length-drop n s in
    elim (length-take_short n s) [ inl h ↦ omega arith | inr h ↦ omega arith ]
