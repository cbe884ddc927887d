-- ===== src/Files/Paths.antt =====
-- desktop/app/file_transfer.go: the names of files and the paths below a directory, with the functions
-- of Go's `path` and `path/filepath` on Unix that they call. A name is a list of bytes.
pub mod Names
pub mod Below
use clip_cascade_go_fork.Prelude.{
  ℕ, zero, suc, Bool, true, false, not, ◌&&◌, ◌||◌, List, [], ◌∷◌, ◌++◌, map, if◌then◌else◌, ◌==◌,
  ltb, any, length, Option, none, some,
}
use clip_cascade_go_fork.Protocol.Text.{codes, text_beq, split, trim_left, trim_right}
use clip_cascade_go_fork.Clipboard.Capture.{Bytes}

-- `strings.ReplaceAll` of one character by another, and by nothing.
abbrev pub replace_byte : ℕ → ℕ → Bytes → Bytes
replace_byte c d = map (λ b. if b == c then d else b)

abbrev pub drop_byte : ℕ → Bytes → Bytes
drop_byte c [] = []
drop_byte c (b ∷ s) = let rest = drop_byte c s in if b == c then rest else b ∷ rest

-- `name[:n]` where the name is longer.
abbrev pub take : ℕ → Bytes → Bytes
take zero s = []
take (suc n) [] = []
take (suc n) (b ∷ s) = b ∷ take n s

abbrev pub is_space_or_dot : ℕ → Bool
is_space_or_dot b = b == b' ' || b == b'.'

abbrev pub replace_all : Bytes → Bytes → Bytes
replace_all [] name = name
replace_all (c ∷ cs) name = replace_all cs (replace_byte c b'_' name)

-- The characters of `sanitizeFileName`: / \ < > : " | ? *
abbrev pub unsafe_bytes : Bytes
unsafe_bytes = 47 ∷ 92 ∷ 60 ∷ 62 ∷ 58 ∷ 34 ∷ 124 ∷ 63 ∷ 42 ∷ []

abbrev pub or_unnamed : Bytes → Bytes
or_unnamed [] = codes "_unnamed"
or_unnamed (b ∷ name) = b ∷ name

abbrev pub dots_to_empty : Bytes → Bytes
dots_to_empty name = if text_beq name (codes ".") || text_beq name (codes "..") then [] else name

unfoldable pub sanitize_file_name : Bytes → Bytes
unfolding trim_left trim_right
sanitize_file_name name =
    let replaced = replace_all unsafe_bytes (drop_byte 0 name) in
    let trimmed = dots_to_empty (trim_left is_space_or_dot (trim_right is_space_or_dot replaced)) in
    or_unnamed (if ltb 255 (length trimmed) then take 255 trimmed else trimmed)

-- `strings.Join(parts, "/")`
abbrev pub join_path : List Bytes → Bytes
join_path [] = []
join_path (p ∷ []) = p
join_path (p ∷ q ∷ ps) = p ++ b'/' ∷ join_path (q ∷ ps)

unfoldable pub sanitize_archive_entry_path : Bytes → Bytes
unfolding split sanitize_file_name
sanitize_archive_entry_path entry =
    join_path (map sanitize_file_name (split b'/' (replace_byte 92 b'/' entry)))

unfoldable pub has_path_traversal_component : Bytes → Bool
unfolding split
has_path_traversal_component input =
    any (λ part. text_beq part (codes "..")) (split b'/' (replace_byte 92 b'/' input))

abbrev pub is_abs : Bytes → Bool
is_abs [] = false
is_abs (b ∷ s) = b == b'/'

-- One component of `Clean` before those that are already clean, the last first: an empty one and `.`
-- are dropped, `..` drops the one before it, or itself at a root.
abbrev pub parent_step : Bool → List Bytes → List Bytes
parent_step rooted [] = if rooted then [] else codes ".." ∷ []
parent_step rooted (p ∷ done) = if text_beq p (codes "..") then codes ".." ∷ p ∷ done else done

abbrev pub clean_step : Bool → List Bytes → Bytes → List Bytes
clean_step rooted done part =
    if text_beq part [] || text_beq part (codes ".")
    then done
    else if text_beq part (codes "..")
    then parent_step rooted done
    else part ∷ done

unfoldable pub clean_parts : Bool → List Bytes → List Bytes → List Bytes
clean_parts rooted done [] = done
clean_parts rooted done (p ∷ ps) = clean_parts rooted (clean_step rooted done p) ps

abbrev pub reverse_onto : List Bytes → List Bytes → List Bytes
reverse_onto [] ys = ys
reverse_onto (x ∷ xs) ys = reverse_onto xs (x ∷ ys)

-- The components of a clean path.
unfoldable pub components : Bytes → List Bytes
unfolding clean_parts split
components s = reverse_onto (clean_parts (is_abs s) [] (split b'/' s)) []

abbrev pub print_path : Bool → List Bytes → Bytes
print_path true ps = b'/' ∷ join_path ps
print_path false [] = codes "."
print_path false (p ∷ ps) = join_path (p ∷ ps)

-- `path.Clean` and `filepath.Clean`
unfoldable pub clean : Bytes → Bytes
unfolding components
clean s = print_path (is_abs s) (components s)

-- `filepath.Join(dir, name)`, where no part is empty
unfoldable pub join : Bytes → Bytes → Bytes
unfolding clean
join [] [] = []
join [] (b ∷ name) = clean (b ∷ name)
join (d ∷ dir) [] = clean (d ∷ dir)
join (d ∷ dir) (b ∷ name) = clean (d ∷ dir ++ b'/' ∷ b ∷ name)

abbrev pub strip_common : List Bytes → List Bytes → List Bytes × List Bytes
strip_common (p ∷ ps) (q ∷ qs) =
    let rest = strip_common ps qs in if text_beq p q then rest else (p ∷ ps, q ∷ qs)
strip_common ps qs = (ps, qs)

abbrev pub parents : List Bytes → List Bytes → List Bytes
parents [] qs = qs
parents (p ∷ ps) qs = codes ".." ∷ parents ps qs

abbrev pub has_parent : List Bytes → Bool
has_parent [] = false
has_parent (p ∷ ps) = text_beq p (codes "..")

-- `filepath.Rel(base, target)`, with `none` for its errors.
unfoldable pub rel : Bytes → Bytes → Option Bytes
unfolding components
rel base target =
    let split_off = strip_common (components base) (components target) in
    if (is_abs base && not (is_abs target))
      || (not (is_abs base) && is_abs target)
      || has_parent split_off.0
    then none
    else some (print_path false (parents split_off.0 split_off.1))

-- `strings.HasPrefix(s, "..")`
abbrev pub starts_with_dots : Bytes → Bool
starts_with_dots (a ∷ b ∷ s) = a == b'.' && b == b'.'
starts_with_dots s = false
