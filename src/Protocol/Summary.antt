-- ===== src/Protocol/Summary.antt =====
-- pkg/protocol/clipboard_summary.go: the names of the items of a clipboard, for the log.
use mathlib.Core.Path.{subst}
use clip_cascade_go_fork.Prelude.{
  ◌≡◌, ◌≢◌, refl, sym, Bool, true, false, not, ◌&&◌, ◌||◌, none, List, [], ◌∷◌, ◌++◌, if◌then◌else◌,
  is_some, any, All, All-map, Pairwise, arith, Bool-cases, ◌⊎◌, inl, inr,
}
use clip_cascade_go_fork.GoMap
use clip_cascade_go_fork.GoMap.{GoMap, get-put}
use clip_cascade_go_fork.Protocol.Text.{Text, text_eq, text_beq, text_beq_iff, trim_space}
use clip_cascade_go_fork.Protocol.Text.Laws.{trim_space_clear, trim_space-clear}

abbrev is_new : GoMap Text Bool → Text → Bool
is_new seen name = not (text_beq name []) && not (is_some (GoMap.get seen name))

-- The loop of `dedupeNames`, with the names that were seen.
unfoldable pub dedupe_from : GoMap Text Bool → List Text → List Text
dedupe_from seen [] = []
dedupe_from seen (n ∷ names) =
    let name = trim_space n in
    let rest = dedupe_from (if is_new seen name then GoMap.put seen name true else seen) names in
    if is_new seen name then name ∷ rest else rest

unfoldable pub dedupe_names : List Text → List Text
unfolding dedupe_from
dedupe_names names = dedupe_from [] names

abbrev pub join_bracketed : List Text → Text
join_bracketed [] = []
join_bracketed (n ∷ []) = b'[' ∷ n ++ (b']' ∷ [])
join_bracketed (n ∷ m ∷ names) = b'[' ∷ n ++ (b']' ∷ b' ' ∷ join_bracketed (m ∷ names))

-- `BracketedNames`
unfoldable pub bracketed_names : List Text → Text
unfolding dedupe_names
bracketed_names names = join_bracketed (dedupe_names names)

-- A name with no blanks around it.
pub record IsTrimmed (name : Text) : Type 0 where
  pub nonempty : name ≢ []
  pub trimmed : trim_space name ≡ name

trim_space-trimmed : (n : Text) → trim_space (trim_space n) ≡ trim_space n
trim_space-trimmed n = let (a, b) = trim_space-clear n in trim_space_clear (trim_space n) a b

abbrev Unseen : GoMap Text Bool → Text → Type 0
Unseen seen x = GoMap.get seen x ≡ none

Unseen-put :
    (seen : GoMap Text Bool) (name x : Text)
    → Unseen (GoMap.put seen name true) x
    → (name ≢ x) × Unseen seen x
Unseen-put seen name x h = (
  λ same. ground (arith, get-put seen name x true, text_beq_iff name x, h, same),
  ground (arith, get-put seen name x true, h),
)

dedupe_from-Unseen :
    (seen : GoMap Text Bool) (names : List Text) → All (Unseen seen) (dedupe_from seen names)
unfolding dedupe_from
dedupe_from-Unseen seen [] = tt
dedupe_from-Unseen seen (n ∷ names) = elim (Bool-cases (is_new seen (trim_space n))) [
  | inl q ↦
      let new : Unseen seen (trim_space n) = ground (arith, q) in
      rw q (
        new,
        All-map (λ x h. (Unseen-put seen (trim_space n) x h).1) _
            (dedupe_from-Unseen (GoMap.put seen (trim_space n) true) names),
      )
  | inr q ↦ rw q (dedupe_from-Unseen seen names)
]

dedupe_from-distinct :
    (seen : GoMap Text Bool) (names : List Text) → Pairwise (λ x y. x ≢ y) (dedupe_from seen names)
unfolding dedupe_from
dedupe_from-distinct seen [] = tt
dedupe_from-distinct seen (n ∷ names) = elim (Bool-cases (is_new seen (trim_space n))) [
  | inl q ↦
      let later = GoMap.put seen (trim_space n) true in
      rw q (
        All-map (λ x h. (Unseen-put seen (trim_space n) x h).0) _ (dedupe_from-Unseen later names),
        dedupe_from-distinct later names,
      )
  | inr q ↦ rw q (dedupe_from-distinct seen names)
]

dedupe_from-IsTrimmed :
    (seen : GoMap Text Bool) (names : List Text) → All IsTrimmed (dedupe_from seen names)
unfolding dedupe_from
dedupe_from-IsTrimmed seen [] = tt
dedupe_from-IsTrimmed seen (n ∷ names) = elim (Bool-cases (is_new seen (trim_space n))) [
  | inl q ↦ rw q (
    record {
      nonempty = λ z. ground (arith, q, text_beq_iff (trim_space n) [], z);
      trimmed = trim_space-trimmed n;
    },
    dedupe_from-IsTrimmed (GoMap.put seen (trim_space n) true) names,
  )
  | inr q ↦ rw q (dedupe_from-IsTrimmed seen names)
]

-- A name is blank, or it was seen, or it is in the result.
abbrev Found : GoMap Text Bool → List Text → Text → Type 0
Found seen result n =
    (trim_space n ≡ [])
    ⊎ ((is_some (GoMap.get seen (trim_space n)) || any (text_beq (trim_space n)) result) ≡ true)

Found-later :
    (seen : GoMap Text Bool) (name : Text) (rest : List Text) (n : Text)
    → Found (GoMap.put seen name true) rest n
    → Found seen (name ∷ rest) n
Found-later seen name rest n (inl z) = inl z
Found-later seen name rest n (inr z) = inr (
    ground (
      arith,
      z,
      get-put seen name (trim_space n) true,
      text_beq_iff name (trim_space n),
      text_beq_iff (trim_space n) name,
    ))

dedupe_from_new :
    (seen : GoMap Text Bool) (n : Text) (names : List Text)
    → is_new seen (trim_space n) ≡ true
    → dedupe_from seen (n ∷ names)
      ≡ trim_space n ∷ dedupe_from (GoMap.put seen (trim_space n) true) names
unfolding dedupe_from
dedupe_from_new seen n names q = rw q refl

dedupe_from_old :
    (seen : GoMap Text Bool) (n : Text) (names : List Text)
    → is_new seen (trim_space n) ≡ false
    → dedupe_from seen (n ∷ names) ≡ dedupe_from seen names
unfolding dedupe_from
dedupe_from_old seen n names q = rw q refl

old_Found :
    (seen : GoMap Text Bool) (n : Text) (result : List Text)
    → is_new seen (trim_space n) ≡ false
    → Found seen result n
old_Found seen n result q = elim (Bool-cases (text_beq (trim_space n) [])) [
  | inl z ↦ inl ((text_beq_iff (trim_space n) []).0 z)
  | inr z ↦ inr (ground (arith, q, z))
]

dedupe_from-Found :
    (seen : GoMap Text Bool) (names : List Text) → All (Found seen (dedupe_from seen names)) names
dedupe_from-Found seen [] = tt
dedupe_from-Found seen (n ∷ names) = elim (Bool-cases (is_new seen (trim_space n))) [
  | inl q ↦
      let later = GoMap.put seen (trim_space n) true in
      let rest = dedupe_from later names in
      let here : Found seen (trim_space n ∷ rest) n =
        inr (ground (arith, text_beq_iff (trim_space n) (trim_space n))) in
      subst (λ r. All (Found seen r) (n ∷ names)) (sym (dedupe_from_new seen n names q))
        (here, All-map (Found-later seen (trim_space n) rest) names (dedupe_from-Found later names))
  | inr q ↦
      subst (λ r. All (Found seen r) (n ∷ names)) (sym (dedupe_from_old seen n names q))
        (old_Found seen n (dedupe_from seen names) q, dedupe_from-Found seen names)
]

-- A name that comes from the list.
abbrev IsFrom : List Text → Text → Type 0
IsFrom names r = any (λ n. text_beq (trim_space n) r) names ≡ true

IsFrom-later : (n : Text) (names : List Text) (r : Text) → IsFrom names r → IsFrom (n ∷ names) r
IsFrom-later n names r h = ground (arith, h)

dedupe_from-IsFrom :
    (seen : GoMap Text Bool) (names : List Text) → All (IsFrom names) (dedupe_from seen names)
unfolding dedupe_from
dedupe_from-IsFrom seen [] = tt
dedupe_from-IsFrom seen (n ∷ names) = elim (Bool-cases (is_new seen (trim_space n))) [
  | inl q ↦
      let later = GoMap.put seen (trim_space n) true in
      let here : IsFrom (n ∷ names) (trim_space n) =
        ground (arith, text_beq_iff (trim_space n) (trim_space n)) in
      subst (All (IsFrom (n ∷ names))) (sym (dedupe_from_new seen n names q)) (
        here,
        All-map (IsFrom-later n names) (dedupe_from later names) (dedupe_from-IsFrom later names),
      )
  | inr q ↦
      subst (All (IsFrom (n ∷ names))) (sym (dedupe_from_old seen n names q))
        (All-map (IsFrom-later n names) (dedupe_from seen names) (dedupe_from-IsFrom seen names))
]

-- What the names without repetition are: no two are the same, none is empty or has blanks around
-- it, each is one of the list without its blanks, and every name of the list that is not blank is
-- among them, without its blanks.
pub record IsDeduped (names result : List Text) : Type 0 where
  pub distinct : Pairwise (λ x y. x ≢ y) result
  pub trimmed : All IsTrimmed result
  pub sound : All (λ r. any (λ n. text_beq (trim_space n) r) names ≡ true) result
  pub complete :
      All (λ n. (trim_space n ≡ []) ⊎ (any (text_beq (trim_space n)) result ≡ true)) names

-- The names that `dedupeNames` returns, of any list, are all different, not empty and with no blanks
-- around them, each is one of the list without its blanks, and every name of the list that is not blank is among them without its blanks.
pub dedupe_names-IsDeduped : (names : List Text) → IsDeduped names (dedupe_names names)
unfolding dedupe_names GoMap.get
dedupe_names-IsDeduped names = record {
  distinct = dedupe_from-distinct [] names;
  trimmed = dedupe_from-IsTrimmed [] names;
  sound = dedupe_from-IsFrom [] names;
  complete = dedupe_from-Found [] names;
}
