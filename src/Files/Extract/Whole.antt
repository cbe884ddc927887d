-- ===== src/Files/Extract/Whole.antt =====
-- desktop/app/file_transfer.go: what an extraction that succeeds has written.
use mathlib.Core.List.{Memᴰ}
use mathlib.Core.List.Memᴰ.{head, tail}
use clip_cascade_go_fork.Prelude.{
  ℕ, ◌-◌, ◌≡◌, refl, true, false, not, Option, none, some, List, [], ◌∷◌, arith, All, length,
  if_cases, result_cases, match_cases, ltb, ◌==◌, map, Result, ok, inl, inr, if◌then◌else◌, ◌⊎◌, ap,
}
use clip_cascade_go_fork.Protocol.Text.{text_beq, text_beq_iff, split}
use clip_cascade_go_fork.Clipboard.Capture.{Bytes}
use clip_cascade_go_fork.Files.Extract.{
  word, add_word, Write, directory, directories_above, file, Extraction, ZipEntry, ExtractError,
  entry_path, write, extract_at, extract_entry, extract_entries, extract_zip_reader, extract_file,
  count_copied, copy_reader, make_dir, advertised_bytes_from, nothing_extracted, has_space,
  sort_strings, first_part, finished,
}
use clip_cascade_go_fork.Files.Extract.Entries.{extract_entries-Keeps, path-IsBelow, write_path}
use clip_cascade_go_fork.Files.Paths.Below.{IsBelow}
use clip_cascade_go_fork.Prelude.{◌∙◌, ◌≢◌, Bool-cases, All-map}
use clip_cascade_go_fork.Files.Extract.Counting.{IsEntry}
use clip_cascade_go_fork.Files.Extract.Copying.{copy_reader-IsCopy, contents, accepted_all}

-- The content of a file after some writes, the last one first.
unfoldable pub file_at : Bytes → List Write → Option Bytes
file_at path [] = none
file_at path (directory p ∷ ws) = file_at path ws
file_at path (directories_above p ∷ ws) = file_at path ws
file_at path (file p content ∷ ws) =
    let rest = file_at path ws in if text_beq p path then some content else rest

-- The entry is there: its directory was made, or its file has in the end the content that was read, of
-- the advertised size.
abbrev pub IsThere : Bytes → ZipEntry → List Write → Type 0
IsThere dest f ws =
    (f.is_dir ≡ true) × Memᴰ (directory dest) ws
    ⊎ (f.is_dir ≡ false)
      × (file_at dest ws ≡ some (contents f.reads))
      × (length (contents f.reads) ≡ f.uncompressed_size)

abbrev pub IsExtracted : Bytes → List Write → ZipEntry → Type 0
IsExtracted target ws f =
    (path : Bytes × Bytes) × (entry_path target f.name ≡ ok path)
    × IsBelow target path.1
    × IsThere path.1 f ws

-- No later entry goes to the path of this one.
abbrev pub IsLast : Bytes → ZipEntry → List ZipEntry → Type 0
IsLast target f = All (λ g.
    (p q : Bytes × Bytes)
    → entry_path target f.name ≡ ok p
    → entry_path target g.name ≡ ok q
    → q.1 ≢ p.1)

-- Each entry that is the last one for its path is there.
abbrev pub AllExtracted : Bytes → List Write → List ZipEntry → Type 0
AllExtracted target ws [] = Unit
AllExtracted target ws (f ∷ files) =
    (IsLast target f files → IsExtracted target ws f) × AllExtracted target ws files

written_last :
    (path content : Bytes) (ws : List Write) → file_at path (file path content ∷ ws) ≡ some content
unfolding file_at
written_last path content ws = rw ((text_beq_iff path path).1 refl) refl

-- A write to another path changes nothing of it.
IsThere-write :
    (dest : Bytes) (f : ZipEntry) (ws : List Write) (w : Write)
    → write_path w ≢ dest
    → IsThere dest f ws
    → IsThere dest f (w ∷ ws)
unfolding file_at
IsThere-write dest f ws w n (inl (d, m)) = inl (d, tail m)
IsThere-write dest f ws (directory p) n (inr h) = inr h
IsThere-write dest f ws (directories_above p) n (inr h) = inr h
IsThere-write dest f ws (file p content) n (inr (d, e, l)) = inr (d, rw (differ p dest n) e, l)
  where
    differ : (p q : Bytes) → p ≢ q → text_beq p q ≡ false
    differ p q n = elim (Bool-cases (text_beq p q)) [
      | inl z ↦ absurd (n ((text_beq_iff p q).0 z))
      | inr z ↦ z
    ]

-- A step without an error has a property.
abbrev OnSuccess : (Extraction → Type 0) → Extraction × Option ExtractError → Type 0
OnSuccess P done = done.1 ≡ none → P done.0

extract_file-whole :
    (required : ℕ) (dest : Bytes) (x : Extraction) (f : ZipEntry)
    → IsEntry f
    → OnSuccess
        (λ y.
          (file_at dest y.writes ≡ some (contents f.reads))
          × (length (contents f.reads) ≡ f.uncompressed_size))
        (extract_file required dest x f)
unfolding extract_file count_copied
extract_file-whole required dest x f hf =
    let c = copy_reader f.uncompressed_size [] 0 f.reads in
    let P = OnSuccess (λ y.
      (file_at dest y.writes ≡ some (contents f.reads))
      × (length (contents f.reads) ≡ f.uncompressed_size)) in
    let copied = copy_reader-IsCopy f.uncompressed_size [] 0 f.reads hf.0 hf.1 refl (omega arith) in
    if_cases P (not f.makes_dir) (λ q n. absurd (ground arith))
      (λ q.
        if_cases P (not f.opens) (λ q n. absurd (ground arith))
          (λ q.
            if_cases P (not f.creates) (λ q n. absurd (ground arith))
              (λ q.
                match_cases P c.error
                  (λ e.
                    if_cases P (not f.closes) (λ q n. absurd (ground arith))
                      (λ q.
                        if_cases P (not (c.written == f.uncompressed_size))
                          (λ q n. absurd (ground arith))
                          (λ size.
                            if_cases P (ltb (word - 1 - c.written) x.extracted)
                              (λ q n. absurd (ground arith))
                              (λ q.
                                if_cases P (ltb required (add_word x.extracted c.written))
                                  (λ q n. absurd (ground arith))
                                  (λ q n.
                                    let same = copied.2 e in
                                    let lengths = ap length same in
                                    let exact = accepted_all c.written f.uncompressed_size size in
                                    (
                                      written_last dest c.out (directories_above dest ∷ x.writes)
                                          ∙ ap (λ t. some t) same,
                                      (let counter = copied.0 in omega arith),
                                    ))))))
                  (λ a e n. absurd (ground arith)))))

extract_at-whole :
    (target : Bytes) (required : ℕ) (sanitized dest : Bytes) (x : Extraction) (f : ZipEntry)
    → IsEntry f
    → OnSuccess (λ y. IsThere dest f y.writes) (extract_at target required sanitized dest x f)
unfolding extract_at
extract_at-whole target required sanitized dest x f hf =
    let P = OnSuccess (λ y. IsThere dest f y.writes) in
    let done =
      if f.is_dir
      then (write x (directory dest), if f.makes_dir then none else some make_dir)
      else extract_file required dest x f in
    let there : P done =
      if_cases P f.is_dir (λ q n. inl (q, head refl))
        (λ q n.
          let whole = extract_file-whole required dest x f hf n in inr (q, whole.0, whole.1)) in
    if_cases P f.is_symlink (λ q n. absurd (ground arith))
      (λ q.
        match_cases P done.1
          (λ n m.
            if_cases (λ (y : Extraction). IsThere dest f y.writes)
              (text_beq (first_part (split b'/' sanitized)) []) (λ t. there n) (λ t. there n))
          (λ a n. there))

extract_entry-whole :
    (target : Bytes) (required : ℕ) (x : Extraction) (f : ZipEntry)
    → IsEntry f
    → OnSuccess (λ y. IsExtracted target y.writes f) (extract_entry target required x f)
unfolding extract_entry
extract_entry-whole target required x f hf =
    result_cases (OnSuccess (λ y. IsExtracted target y.writes f)) (entry_path target f.name)
      (λ a q n. absurd (ground arith))
      (λ path q n. (
        path,
        q,
        path-IsBelow target f path q,
        extract_at-whole target required path.0 path.1 x f hf n,
      ))

-- The later entries leave it, where they go elsewhere.
extract_entries-IsExtracted :
    (target : Bytes) (required : ℕ) (x : Extraction) (f : ZipEntry) (files : List ZipEntry)
    → IsLast target f files
    → IsExtracted target x.writes f
    → IsExtracted target (extract_entries target required x files).0.writes f
extract_entries-IsExtracted target required x f files last (path, e, below, there) = (
  path,
  e,
  below,
  extract_entries-Keeps target (λ p. p ≢ path.1) (IsThere path.1 f) (IsThere-write path.1 f)
      required x files (All-map (λ g apart q z. apart path q e z) files last) there,
)

extract_entries-whole :
    (target : Bytes) (required : ℕ) (x : Extraction) (files : List ZipEntry)
    → All IsEntry files
    → OnSuccess (λ y. AllExtracted target y.writes files) (extract_entries target required x files)
unfolding extract_entries
extract_entries-whole target required x [] h = λ n. tt
extract_entries-whole target required x (f ∷ files) h =
    let P = OnSuccess (λ y. AllExtracted target y.writes (f ∷ files)) in
    let done = extract_entry target required x f in
    match_cases P done.1
      (λ n m. (
        λ last.
            extract_entries-IsExtracted target required done.0 f files last
              (extract_entry-whole target required x f h.0 n),
        extract_entries-whole target required done.0 files h.1 m,
      ))
      (λ a n m. absurd (ground arith))

finished_ok :
    (e : Option ExtractError) (paths shown : List Bytes) → finished e paths ≡ ok shown → e ≡ none
finished_ok none paths shown h = refl
finished_ok (some e) paths shown h = absurd (ground arith)

-- When the extraction of an archive succeeds, each entry of it that is the last one for its path is
-- there, at a path below the target: the directory was made, or the file has after all the writes exactly
-- the bytes that the entry's reader gave, as many as the archive advertises. The sizes are 64-bit numbers
-- and a writer accepts at most what it is given. Of entries with names that are made the same path, only
-- the last is claimed to be there.
pub extract_zip_reader_whole :
    (target : Bytes) (available : Option ℕ) (files : List ZipEntry) (paths : List Bytes)
    → All IsEntry files
    → (extract_zip_reader target available files).1 ≡ ok paths
    → AllExtracted target (extract_zip_reader target available files).0 files
unfolding extract_zip_reader
extract_zip_reader_whole target available files paths h =
    let P = λ (r : List Write × Result ExtractError (List Bytes)).
      r.1 ≡ ok paths → AllExtracted target r.0 files in
    match_cases P (advertised_bytes_from 0 files) (λ e n. absurd (ground arith))
      (λ required e.
        let done = extract_entries target required nothing_extracted files in
        if_cases P (not (has_space available required)) (λ q n. absurd (ground arith))
          (λ q n.
            extract_entries-whole target required nothing_extracted files h (
              finished_ok done.1 (sort_strings (map (λ entry. entry.1) done.0.top_level)) paths n)))
