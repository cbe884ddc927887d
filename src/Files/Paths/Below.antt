-- ===== src/Files/Paths/Below.antt =====
-- desktop/app/file_transfer.go: where a path below a directory lies.
use clip_cascade_go_fork.Prelude.{
  ℕ, ◌≡◌, ◌≢◌, refl, sym, Bool, false, List, [], ◌∷◌, ◌++◌, ◌==◌, arith, All, Bool-cases, inl, inr,
  append-nil, append_assoc,
}
use clip_cascade_go_fork.Protocol.Text.{Text, split, push}
use clip_cascade_go_fork.Protocol.Text.Laws.{split_whole}
use clip_cascade_go_fork.Clipboard.Capture.{Bytes}
use clip_cascade_go_fork.Files.Paths.{
  join_path, is_abs, clean_step, clean_parts, reverse_onto, components, print_path, clean, join,
}
use clip_cascade_go_fork.Files.Paths.Names.{IsComponent}

-- The path `dest` is a clean path below `dir`: the components of `dir`, and then one or more names
-- that are neither empty nor `.` nor `..`.
abbrev pub IsBelow : Bytes → Bytes → Type 0
IsBelow dir dest =
    (ps : List Bytes) × (ps ≢ [])
    × All IsComponent ps
    × (dest ≡ print_path (is_abs dir) (components dir ++ ps))

push-append :
    (c : ℕ) (xs : List Text) (x : Text) (ys : List Text)
    → push c ((x ∷ xs) ++ ys) ≡ push c (x ∷ xs) ++ ys
push-append c xs x ys = refl

push-split :
    (c sep : ℕ) (s : Text) (ys : List Text)
    → push c (split sep s ++ ys) ≡ push c (split sep s) ++ ys
unfolding split
push-split c sep [] ys = refl
push-split c sep (d ∷ s) ys = elim (Bool-cases (d == sep)) [
  | inl e ↦ rw e refl
  | inr e ↦ rw e (pushed (split sep s))
]
  where
    pushed : (l : List Text) → push c (push d l ++ ys) ≡ push c (push d l) ++ ys
    pushed [] = refl
    pushed (x ∷ xs) = refl

split_parts : (sep : ℕ) (s t : Text) → split sep (s ++ sep ∷ t) ≡ split sep s ++ split sep t
unfolding split
split_parts sep [] t = ground arith
split_parts sep (c ∷ s) t = elim (Bool-cases (c == sep)) [
  | inl e ↦ rw (e, split_parts sep s t) refl
  | inr e ↦ rw (e, split_parts sep s t) (push-split c sep s (split sep t))
]

split-join_path :
    (p : Bytes) (ps : List Bytes)
    → All IsComponent (p ∷ ps)
    → split b'/' (join_path (p ∷ ps)) ≡ p ∷ ps
split-join_path p [] h = split_whole b'/' p h.0.2
split-join_path p (q ∷ ps) h =
    rw (split_parts b'/' p (join_path (q ∷ ps)), split_whole b'/' p h.0.2, split-join_path q ps h.1)
      refl

clean_step_component :
    (rooted : Bool) (done : List Bytes) (p : Bytes)
    → IsComponent p
    → clean_step rooted done p ≡ p ∷ done
clean_step_component rooted done [] h = absurd (h.0 refl)
clean_step_component rooted done (b ∷ p) h = ground arith

clean_parts-append :
    (rooted : Bool) (done xs ys : List Bytes)
    → clean_parts rooted done (xs ++ ys) ≡ clean_parts rooted (clean_parts rooted done xs) ys
unfolding clean_parts
clean_parts-append rooted done [] ys = refl
clean_parts-append rooted done (x ∷ xs) ys =
    clean_parts-append rooted (clean_step rooted done x) xs ys

reverse_moved : (xs ys : List Bytes) → reverse_onto xs ys ≡ reverse_onto xs [] ++ ys
reverse_moved [] ys = refl
reverse_moved (x ∷ xs) ys =
    rw
      (
        reverse_moved xs (x ∷ ys),
        reverse_moved xs (x ∷ []),
        append_assoc (reverse_onto xs []) (x ∷ []) ys,
      )
      refl

reverse_clean :
    (rooted : Bool) (done ps : List Bytes)
    → All IsComponent ps
    → reverse_onto (clean_parts rooted done ps) [] ≡ reverse_onto done [] ++ ps
unfolding clean_parts
reverse_clean rooted done [] h = sym (append-nil (reverse_onto done []))
reverse_clean rooted done (p ∷ ps) h =
    rw (clean_step_component rooted done p h.0, reverse_clean rooted (p ∷ done) ps h.1)
      (rw (reverse_moved done (p ∷ []), append_assoc (reverse_onto done []) (p ∷ []) ps) refl)

-- The components of a path that is put together.
components_below :
    (d : ℕ) (dir p : Bytes) (ps : List Bytes)
    → All IsComponent (p ∷ ps)
    → components (d ∷ dir ++ b'/' ∷ join_path (p ∷ ps)) ≡ components (d ∷ dir) ++ p ∷ ps
unfolding components
components_below d dir p ps h =
    let rooted = is_abs (d ∷ dir) in
    rw
      (
        split_parts b'/' (d ∷ dir) (join_path (p ∷ ps)),
        split-join_path p ps h,
        clean_parts-append rooted [] (split b'/' (d ∷ dir)) (p ∷ ps),
        reverse_clean rooted (clean_parts rooted [] (split b'/' (d ∷ dir))) (p ∷ ps) h,
      )
      refl

components_nothing : components [] ≡ []
unfolding components clean_parts split
components_nothing = refl

join_path-StartsClear :
    (p : Bytes) (ps : List Bytes)
    → All IsComponent (p ∷ ps)
    → (join_path (p ∷ ps) ≢ []) × (is_abs (join_path (p ∷ ps)) ≡ false)
join_path-StartsClear [] ps h = absurd (h.0.0 refl)
join_path-StartsClear (b ∷ p) [] h = (λ e. ground arith, h.0.2.0)
join_path-StartsClear (b ∷ p) (q ∷ ps) h = (λ e. ground arith, h.0.2.0)

join_clean :
    (d : ℕ) (dir name : Bytes) → name ≢ [] → join (d ∷ dir) name ≡ clean (d ∷ dir ++ b'/' ∷ name)
unfolding join
join_clean d dir [] h = absurd (h refl)
join_clean d dir (b ∷ name) h = refl

join_nothing : (name : Bytes) → name ≢ [] → join [] name ≡ clean name
unfolding join
join_nothing [] h = absurd (h refl)
join_nothing (b ∷ name) h = refl

relative_parts :
    (p : Bytes) (ps : List Bytes)
    → All IsComponent (p ∷ ps)
    → components (join_path (p ∷ ps)) ≡ p ∷ ps
unfolding components
relative_parts p ps h =
    rw (split-join_path p ps h, reverse_clean (is_abs (join_path (p ∷ ps))) [] (p ∷ ps) h) refl

clean_eq : (s : Bytes) → clean s ≡ print_path (is_abs s) (components s)
unfolding clean
clean_eq s = refl

pub join-IsBelow :
    (dir p : Bytes) (ps : List Bytes)
    → All IsComponent (p ∷ ps)
    → IsBelow dir (join dir (join_path (p ∷ ps)))
join-IsBelow [] p ps h = (
  p ∷ ps,
  λ e. ground arith,
  h,
  (let start = join_path-StartsClear p ps h in
      rw
        (
          join_nothing (join_path (p ∷ ps)) start.0,
          clean_eq (join_path (p ∷ ps)),
          start.1,
          relative_parts p ps h,
          components_nothing,
        )
        refl),
)
join-IsBelow (d ∷ dir) p ps h = (
  p ∷ ps,
  λ e. ground arith,
  h,
  (let start = join_path-StartsClear p ps h in
      rw
        (
          join_clean d dir (join_path (p ∷ ps)) start.0,
          clean_eq (d ∷ dir ++ b'/' ∷ join_path (p ∷ ps)),
          components_below d dir p ps h,
        )
        refl),
)
