-- ===== src/Protocol/Text/Laws.antt =====
-- How the text functions act on texts that are put together, and what their results are free of.
use clip_cascade_go_fork.Prelude.{
  ℕ, ◌≡◌, refl, ap, Bool, true, false, ◌&&◌, some, List, [], ◌∷◌, ◌++◌, arith, ◌==◌, All,
  Bool-cases, Option-cases, inl, inr,
}
use clip_cascade_go_fork.Protocol.Text.{
  Text, is_space, trim_left, put_front, trim_right, trim_space, push, split, split_blank, cut,
}

-- The text has no character `c`.
abbrev pub Free : ℕ → Text → Type 0
Free c = All (λ d. (d == c) ≡ false)

-- The first character, if there is one, fails the test; and the last one.
abbrev pub StartsClear : (ℕ → Bool) → Text → Type 0
StartsClear p [] = Unit
StartsClear p (c ∷ s) = p c ≡ false

abbrev pub EndsClear : (ℕ → Bool) → Text → Type 0
EndsClear p [] = Unit
EndsClear p (c ∷ []) = p c ≡ false
EndsClear p (c ∷ d ∷ s) = EndsClear p (d ∷ s)

pub trim_left-StartsClear : (p : ℕ → Bool) (s : Text) → StartsClear p (trim_left p s)
unfolding trim_left
trim_left-StartsClear p [] = tt
trim_left-StartsClear p (c ∷ s) = ground (arith, trim_left-StartsClear p s)

pub trim_left_clear : (p : ℕ → Bool) (s : Text) → StartsClear p s → trim_left p s ≡ s
unfolding trim_left
trim_left_clear p [] h = refl
trim_left_clear p (c ∷ s) h = rw h

pub trim_right_clear : (p : ℕ → Bool) (s : Text) → EndsClear p s → trim_right p s ≡ s
unfolding trim_right
trim_right_clear p [] h = refl
trim_right_clear p (c ∷ []) h = rw h
trim_right_clear p (c ∷ d ∷ s) h = rw (trim_right_clear p (d ∷ s) h)

pub trim_space_clear : (s : Text) → StartsClear is_space s → EndsClear is_space s → trim_space s ≡ s
unfolding trim_space
trim_space_clear s h k = rw (trim_right_clear is_space s k, trim_left_clear is_space s h)

-- A final character that passes the test is trimmed.
pub trim_right-append :
    (p : ℕ → Bool) (s : Text) (c : ℕ) → p c ≡ true → EndsClear p s → trim_right p (s ++ c ∷ []) ≡ s
unfolding trim_right
trim_right-append p [] c h k = rw h
trim_right-append p (d ∷ []) c h k = rw (h, k)
trim_right-append p (d ∷ e ∷ s) c h k = rw (trim_right-append p (e ∷ s) c h k)

-- The first line of a text is what stands before its first line end.
pub split-append :
    (sep : ℕ) (s rest : Text) → Free sep s → split sep (s ++ sep ∷ rest) ≡ s ∷ split sep rest
unfolding split
split-append sep [] rest h = ground arith
split-append sep (c ∷ s) rest h = rw (h.0, split-append sep s rest h.1)

pub split_whole : (sep : ℕ) (s : Text) → Free sep s → split sep s ≡ s ∷ []
unfolding split
split_whole sep [] h = refl
split_whole sep (c ∷ s) h = rw (h.0, split_whole sep s h.1)

pub cut-append : (sep : ℕ) (s rest : Text) → Free sep s → cut sep (s ++ sep ∷ rest) ≡ some (s, rest)
unfolding cut
cut-append sep [] rest h = ground arith
cut-append sep (c ∷ s) rest h = rw (h.0, cut-append sep s rest h.1)

-- What the results of the functions are free of.
pub split-Free : (sep : ℕ) (s : Text) → All (Free sep) (split sep s)
unfolding split
split-Free sep [] = (tt, tt)
split-Free sep (c ∷ s) = elim (Bool-cases (c == sep)) [
  | inl e ↦ rw e (tt, split-Free sep s)
  | inr e ↦ rw e (All-push (split sep s) e (split-Free sep s))
]
  where
    All-push :
        (ls : List Text) → (c == sep) ≡ false → All (Free sep) ls → All (Free sep) (push c ls)
    All-push [] e h = ((e, tt), tt)
    All-push (l ∷ ls) e h = ((e, h.0), h.1)

module _ {κ} (P : ℕ → Type κ) where
  pub All-trim_left : (p : ℕ → Bool) (s : Text) → All P s → All P (trim_left p s)
  unfolding trim_left
  All-trim_left p [] h = h
  All-trim_left p (c ∷ s) h = elim (Bool-cases (p c)) [
    | inl e ↦ rw e (All-trim_left p s h.1)
    | inr e ↦ rw e h
  ]

  All-put_front : (p : ℕ → Bool) (c : ℕ) (s : Text) → P c → All P s → All P (put_front p c s)
  All-put_front p c [] hc h = elim (Bool-cases (p c)) [ inl e ↦ rw e tt | inr e ↦ rw e (hc, tt) ]
  All-put_front p c (d ∷ s) hc h = (hc, h)

  pub All-trim_right : (p : ℕ → Bool) (s : Text) → All P s → All P (trim_right p s)
  unfolding trim_right
  All-trim_right p [] h = h
  All-trim_right p (c ∷ s) h = All-put_front p c (trim_right p s) h.0 (All-trim_right p s h.1)

pub Free-trim_space : (c : ℕ) (s : Text) → Free c s → Free c (trim_space s)
unfolding trim_space
Free-trim_space c s h =
    All-trim_left (λ d. (d == c) ≡ false) is_space (trim_right is_space s)
      (All-trim_right (λ d. (d == c) ≡ false) is_space s h)

EndsClear-put_front :
    (p : ℕ → Bool) (c : ℕ) (s : Text) → EndsClear p s → EndsClear p (put_front p c s)
EndsClear-put_front p c [] h = elim (Bool-cases (p c)) [ inl e ↦ rw e tt | inr e ↦ rw e e ]
EndsClear-put_front p c (d ∷ s) h = h

pub EndsClear-trim_right : (p : ℕ → Bool) (s : Text) → EndsClear p (trim_right p s)
unfolding trim_right
EndsClear-trim_right p [] = tt
EndsClear-trim_right p (c ∷ s) = EndsClear-put_front p c (trim_right p s) (EndsClear-trim_right p s)

EndsClear-tail : (p : ℕ → Bool) (c : ℕ) (s : Text) → EndsClear p (c ∷ s) → EndsClear p s
EndsClear-tail p c [] h = tt
EndsClear-tail p c (d ∷ s) h = h

pub EndsClear-suffix : (p : ℕ → Bool) (l s : Text) → EndsClear p (l ++ s) → EndsClear p s
EndsClear-suffix p [] s h = h
EndsClear-suffix p (c ∷ l) s h = EndsClear-suffix p l s (EndsClear-tail p c (l ++ s) h)

pub EndsClear-rest :
    (p : ℕ → Bool) (l : Text) (c : ℕ) (s : Text) → EndsClear p (l ++ c ∷ s) → EndsClear p s
EndsClear-rest p l c s h = EndsClear-tail p c s (EndsClear-suffix p l (c ∷ s) h)

pub EndsClear-trim_left : (p q : ℕ → Bool) (s : Text) → EndsClear p s → EndsClear p (trim_left q s)
unfolding trim_left
EndsClear-trim_left p q [] h = h
EndsClear-trim_left p q (c ∷ s) h = elim (Bool-cases (q c)) [
  | inl e ↦ rw e (EndsClear-trim_left p q s (EndsClear-tail p c s h))
  | inr e ↦ rw e h
]

pub trim_space-clear :
    (s : Text) → StartsClear is_space (trim_space s) × EndsClear is_space (trim_space s)
unfolding trim_space
trim_space-clear s = (
  trim_left-StartsClear is_space (trim_right is_space s),
  EndsClear-trim_left is_space is_space (trim_right is_space s) (EndsClear-trim_right is_space s),
)

pub cut_sound : (sep : ℕ) (s l r : Text) → cut sep s ≡ some (l, r) → (s ≡ l ++ sep ∷ r) × Free sep l
unfolding cut
cut_sound sep [] l r h = ground arith
cut_sound sep (c ∷ s) l r h = elim (Bool-cases (c == sep)) [
  | inl e ↦ ground arith
  | inr e ↦ elim (Option-cases (cut sep s)) [
    | inl q ↦ absurd (ground arith)
    | inr ((l', r'), q) ↦ ground (arith, cut_sound sep s l' r' q)
  ]
]

-- The two ways in which a text is split at its first empty line.
pub data BlankSplit (s : Text) (parts : List Text) : Type 0 where
  whole : parts ≡ s ∷ [] → BlankSplit s parts
  halves : (a b : Text) → s ≡ a ++ 10 ∷ 10 ∷ b → parts ≡ a ∷ b ∷ [] → BlankSplit s parts

pub split_blank-BlankSplit : (s : Text) → BlankSplit s (split_blank s)
unfolding split_blank
split_blank-BlankSplit [] = whole refl
split_blank-BlankSplit (c ∷ []) = whole refl
split_blank-BlankSplit (c ∷ d ∷ s) = elim (Bool-cases (c == 10 && d == 10)) [
  | inl e ↦ halves [] s (ground arith) (rw e refl)
  | inr e ↦ rw e (pushed (d ∷ s) (split_blank (d ∷ s)) (split_blank-BlankSplit (d ∷ s)))
]
  where
    pushed : (t : Text) (parts : List Text) → BlankSplit t parts → BlankSplit (c ∷ t) (push c parts)
    pushed t parts (whole q) = whole (rw q refl)
    pushed t parts (halves a b q r) = halves (c ∷ a) b (ap (◌∷◌ c) q) (rw r refl)
