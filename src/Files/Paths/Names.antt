-- ===== src/Files/Paths/Names.antt =====
-- desktop/app/file_transfer.go: what sanitizing makes of a name.
use clip_cascade_go_fork.Prelude.{
  ℕ, zero, suc, ◌≡◌, ◌≢◌, refl, false, [], ◌∷◌, if◌then◌else◌, ◌==◌, ltb, length, arith, Bool-cases,
  inl, inr, if_cases, ◌||◌,
}
use clip_cascade_go_fork.Protocol.Text.{codes, text_beq, trim_left, trim_right}
use clip_cascade_go_fork.Protocol.Text.Laws.{
  Free, StartsClear, trim_left-StartsClear, All-trim_left, All-trim_right,
}
use clip_cascade_go_fork.Clipboard.Capture.{Bytes}
use clip_cascade_go_fork.Files.Paths.{
  replace_byte, drop_byte, take, is_space_or_dot, replace_all, unsafe_bytes, or_unnamed,
  dots_to_empty, sanitize_file_name,
}

-- The name of a file that is one component of a path: not empty, with no separator, and not `.` or
-- `..` since it starts with another character.
abbrev pub IsComponent : Bytes → Type 0
IsComponent p = (p ≢ []) × StartsClear (λ b. b == b'.') p × Free b'/' p

Free-replace_byte : (c : ℕ) (s : Bytes) → Free b'/' s → Free b'/' (replace_byte c b'_' s)
Free-replace_byte c [] h = tt
Free-replace_byte c (b ∷ s) h =
    (if_cases (λ d. (d == b'/') ≡ false) (b == c) (λ e. refl) (λ e. h.0), Free-replace_byte c s h.1)

Free-replaced : (s : Bytes) → Free b'/' (replace_byte b'/' b'_' s)
Free-replaced [] = tt
Free-replaced (b ∷ s) =
    (elim (Bool-cases (b == b'/')) [ inl e ↦ rw e refl | inr e ↦ rw e e ], Free-replaced s)

Free-replace_all : (cs s : Bytes) → Free b'/' s → Free b'/' (replace_all cs s)
Free-replace_all [] s h = h
Free-replace_all (c ∷ cs) s h =
    Free-replace_all cs (replace_byte c b'_' s) (Free-replace_byte c s h)

Free-take : (n : ℕ) (s : Bytes) → Free b'/' s → Free b'/' (take n s)
Free-take zero s h = tt
Free-take (suc n) [] h = tt
Free-take (suc n) (b ∷ s) h = (h.0, Free-take n s h.1)

-- What is left of a name before the last step.
abbrev Trimmed : Bytes → Type 0
Trimmed s = StartsClear (λ b. b == b'.') s × Free b'/' s

Trimmed-cut :
    (s : Bytes)
    → Trimmed s
    → IsComponent (or_unnamed (if ltb 255 (length s) then take 255 s else s))
Trimmed-cut [] h =
    (λ e. ground arith, refl, (refl, (refl, (refl, (refl, (refl, (refl, (refl, (refl, tt)))))))))
Trimmed-cut (b ∷ s) h =
    if_cases (λ t. IsComponent (or_unnamed t)) (ltb 255 (length (b ∷ s)))
      (λ e. (λ q. ground arith, h.0, (h.1.0, Free-take 254 s h.1.1)))
      (λ e. (λ q. ground arith, h.0, h.1))

not_dot : (s : Bytes) → StartsClear is_space_or_dot s → StartsClear (λ b. b == b'.') s
not_dot [] h = tt
not_dot (b ∷ s) h = ground arith

pub sanitize_file_name-IsComponent : (name : Bytes) → IsComponent (sanitize_file_name name)
unfolding sanitize_file_name
sanitize_file_name-IsComponent name =
    let replaced = replace_all unsafe_bytes (drop_byte 0 name) in
    let trimmed = trim_left is_space_or_dot (trim_right is_space_or_dot replaced) in
    let clean : Trimmed trimmed = (
      not_dot trimmed (trim_left-StartsClear is_space_or_dot (trim_right is_space_or_dot replaced)),
      All-trim_left (λ d. (d == b'/') ≡ false) is_space_or_dot (trim_right is_space_or_dot replaced)
          (All-trim_right (λ d. (d == b'/') ≡ false) is_space_or_dot replaced
            (Free-replace_all (92 ∷ 60 ∷ 62 ∷ 58 ∷ 34 ∷ 124 ∷ 63 ∷ 42 ∷ [])
              (replace_byte b'/' b'_' (drop_byte 0 name)) (Free-replaced (drop_byte 0 name)))),
    ) in
    Trimmed-cut (dots_to_empty trimmed) (
      if_cases Trimmed (text_beq trimmed (codes ".") || text_beq trimmed (codes ".."))
        (λ e. (tt, tt)) (λ e. clean))
