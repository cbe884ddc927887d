-- ===== src/Files/Extract/Entries.antt =====
-- desktop/app/file_transfer.go: what the extraction of an archive writes.
use mathlib.Core.Path.{subst}
use clip_cascade_go_fork.Prelude.{
  ℕ, ◌-◌, ◌≡◌, ◌≢◌, refl, not, ◌||◌, Option, none, some, List, [], ◌∷◌, arith, All, if_cases,
  result_cases, match_cases, ltb, ◌==◌, map, Result, ok, err, Bool-cases, inl, inr, if◌then◌else◌,
}
use clip_cascade_go_fork.Protocol.Text.{codes, text_beq, split, push}
use clip_cascade_go_fork.Clipboard.Capture.{Bytes}
use clip_cascade_go_fork.Files.Paths.{
  replace_byte, join_path, join, clean, is_abs, rel, starts_with_dots, sanitize_file_name,
  sanitize_archive_entry_path, has_path_traversal_component,
}
use clip_cascade_go_fork.Files.Paths.Names.{IsComponent, sanitize_file_name-IsComponent}
use clip_cascade_go_fork.Files.Paths.Below.{IsBelow, join-IsBelow}
use clip_cascade_go_fork.Files.Extract.{
  word, add_word, Write, directory, directories_above, file, Extraction, ZipEntry, ExtractError,
  entry_path, write, add_top, extract_at, extract_entry, extract_entries, extract_zip_reader,
  extract_file, count_copied, copy_reader, Copied, make_dir, advertised_bytes_from,
  nothing_extracted, has_space, first_part,
}

-- The path that a write goes to.
abbrev pub write_path : Write → Bytes
write_path (directory p) = p
write_path (directories_above p) = p
write_path (file p content) = p

abbrev pub AllBelow : Bytes → List Write → Type 0
AllBelow target = All (λ w. IsBelow target (write_path w))

All-components : (ps : List Bytes) → All IsComponent (map sanitize_file_name ps)
All-components [] = tt
All-components (p ∷ ps) = (sanitize_file_name-IsComponent p, All-components ps)

split_nonempty : (sep : ℕ) (s : Bytes) → split sep s ≢ []
unfolding split
split_nonempty sep [] = λ e. ground arith
split_nonempty sep (c ∷ s) = elim (Bool-cases (c == sep)) [
  | inl q ↦ rw q (λ e. ground arith)
  | inr q ↦ rw q (pushed (split sep s))
]
  where
    pushed : (l : List Bytes) → push c l ≢ []
    pushed [] e = ground arith
    pushed (x ∷ xs) e = ground arith

joined-IsBelow :
    (target : Bytes) (ps : List Bytes)
    → ps ≢ []
    → IsBelow target (join target (join_path (map sanitize_file_name ps)))
joined-IsBelow target [] h = absurd (h refl)
joined-IsBelow target (p ∷ ps) h =
    join-IsBelow target (sanitize_file_name p) (map sanitize_file_name ps) (All-components (p ∷ ps))

sanitized-IsBelow :
    (target entry : Bytes) → IsBelow target (join target (sanitize_archive_entry_path entry))
unfolding sanitize_archive_entry_path
sanitized-IsBelow target entry =
    joined-IsBelow target (split b'/' (replace_byte 92 b'/' entry))
      (split_nonempty b'/' (replace_byte 92 b'/' entry))

abbrev PathBelow : Bytes → Result ExtractError (Bytes × Bytes) → Type 0
PathBelow target (err e) = Unit
PathBelow target (ok path) = IsBelow target path.1

entry_path-IsBelow : (target name : Bytes) → PathBelow target (entry_path target name)
unfolding entry_path
entry_path-IsBelow target name =
    let normalized = replace_byte 92 b'/' name in
    let sanitized = sanitize_archive_entry_path (clean normalized) in
    if_cases (PathBelow target) (has_path_traversal_component normalized) (λ e. tt)
      (λ e.
        if_cases (PathBelow target)
          (is_abs (clean normalized) || text_beq (clean normalized) (codes ".")) (λ e. tt)
          (λ e.
            if_cases (PathBelow target) (text_beq sanitized [] || text_beq sanitized (codes "."))
              (λ e. tt)
              (λ e.
                match_cases (PathBelow target) (rel target (join target sanitized)) (λ q. tt)
                  (λ r q.
                    if_cases (PathBelow target) (starts_with_dots r) (λ e. tt)
                      (λ e. sanitized-IsBelow target (clean normalized))))))

-- What holds of the writes, and stays with every write to an allowed path, holds after each step.
module _ (target : Bytes) (Allowed : Bytes → Type 0) (P : List Write → Type 0)
    (step : (ws : List Write) (w : Write) → Allowed (write_path w) → P ws → P (w ∷ ws)) where
  -- The entry goes to an allowed path.
  abbrev pub Permits : ZipEntry → Type 0
  Permits f = (path : Bytes × Bytes) → entry_path target f.name ≡ ok path → Allowed path.1

  abbrev pub Keeps : Extraction × Option ExtractError → Type 0
  Keeps done = P done.0.writes

  count_copied-Keeps :
      (required : ℕ) (x : Extraction) (f : ZipEntry) (c : Copied)
      → P x.writes
      → Keeps (count_copied required x f c)
  unfolding count_copied
  count_copied-Keeps required x f c h =
      match_cases (Keeps) c.error
        (λ e.
          if_cases (Keeps) (not f.closes) (λ q. h)
            (λ q.
              if_cases (Keeps) (not (c.written == f.uncompressed_size)) (λ q. h)
                (λ q.
                  if_cases (Keeps) (ltb (word - 1 - c.written) x.extracted) (λ q. h)
                    (λ q.
                      if_cases (Keeps) (ltb required (add_word x.extracted c.written)) (λ q. h)
                        (λ q. h)))))
        (λ a e. h)

  extract_file-Keeps :
      (required : ℕ) (dest : Bytes) (x : Extraction) (f : ZipEntry)
      → Allowed dest
      → P x.writes
      → Keeps (extract_file required dest x f)
  unfolding extract_file
  extract_file-Keeps required dest x f b h =
      let above = write x (directories_above dest) in
      let c = copy_reader f.uncompressed_size [] 0 f.reads in
      if_cases (Keeps) (not f.makes_dir) (λ q. step x.writes (directories_above dest) b h)
        (λ q.
          if_cases (Keeps) (not f.opens) (λ q. step x.writes (directories_above dest) b h)
            (λ q.
              if_cases (Keeps) (not f.creates) (λ q. step x.writes (directories_above dest) b h)
                (λ q. count_copied-Keeps required (write above (file dest c.out)) f c (
                  step above.writes (file dest c.out) b
                    (step x.writes (directories_above dest) b h)))))

  writes-add_top :
      (sanitized : Bytes) (x : Extraction) → (add_top target sanitized x).writes ≡ x.writes
  unfolding add_top
  writes-add_top sanitized x =
      if_cases (λ (y : Extraction). y.writes ≡ x.writes)
        (text_beq (first_part (split b'/' sanitized)) []) (λ e. refl) (λ e. refl)

  extract_at-Keeps :
      (required : ℕ) (sanitized dest : Bytes) (x : Extraction) (f : ZipEntry)
      → Allowed dest
      → P x.writes
      → Keeps (extract_at target required sanitized dest x f)
  unfolding extract_at
  extract_at-Keeps required sanitized dest x f b h =
      let done =
        if f.is_dir
        then (write x (directory dest), if f.makes_dir then none else some make_dir)
        else extract_file required dest x f in
      let kept : Keeps done =
        if_cases (Keeps) f.is_dir (λ q. step x.writes (directory dest) b h)
          (λ q. extract_file-Keeps required dest x f b h) in
      if_cases (Keeps) f.is_symlink (λ q. h)
        (λ q.
          match_cases (Keeps) done.1 (λ e. rw (writes-add_top sanitized done.0) kept) (λ a e. kept))

  pub extract_entry-Keeps :
      (required : ℕ) (x : Extraction) (f : ZipEntry)
      → Permits f
      → P x.writes
      → Keeps (extract_entry target required x f)
  unfolding extract_entry
  extract_entry-Keeps required x f p h =
      result_cases (Keeps) (entry_path target f.name) (λ e q. h)
        (λ path q. extract_at-Keeps required path.0 path.1 x f (p path q) h)

  pub extract_entries-Keeps :
      (required : ℕ) (x : Extraction) (files : List ZipEntry)
      → All Permits files
      → P x.writes
      → Keeps (extract_entries target required x files)
  unfolding extract_entries
  extract_entries-Keeps required x [] p h = h
  extract_entries-Keeps required x (f ∷ files) p h =
      let done = extract_entry target required x f in
      let kept = extract_entry-Keeps required x f p.0 h in
      match_cases (Keeps) done.1 (λ e. extract_entries-Keeps required done.0 files p.1 kept)
        (λ a e. kept)

pub path-IsBelow :
    (target : Bytes) (f : ZipEntry) (path : Bytes × Bytes)
    → entry_path target f.name ≡ ok path
    → IsBelow target path.1
path-IsBelow target f path e = subst (PathBelow target) e (entry_path-IsBelow target f.name)

all-IsBelow :
    (target : Bytes) (files : List ZipEntry)
    → All
        (λ f. (path : Bytes × Bytes) → entry_path target f.name ≡ ok path → IsBelow target path.1)
        files
all-IsBelow target [] = tt
all-IsBelow target (f ∷ files) = (path-IsBelow target f, all-IsBelow target files)

-- Whatever the archive has, the extraction writes only below the target directory: every path that it
-- writes a file to, or makes directories for, is the target's own followed by names that are neither
-- empty nor `.` nor `..`.
pub extract_zip_reader-AllBelow :
    (target : Bytes) (available : Option ℕ) (files : List ZipEntry)
    → AllBelow target (extract_zip_reader target available files).0
unfolding extract_zip_reader
extract_zip_reader-AllBelow target available files =
    match_cases (λ (r : List Write × Result ExtractError (List Bytes)). AllBelow target r.0)
      (advertised_bytes_from 0 files) (λ e. tt)
      (λ required e.
        if_cases (λ (r : List Write × Result ExtractError (List Bytes)). AllBelow target r.0)
          (not (has_space available required)) (λ q. tt)
          (λ q.
            extract_entries-Keeps target (IsBelow target) (AllBelow target) (λ ws w b h. (b, h))
              required nothing_extracted files (all-IsBelow target files) tt))
