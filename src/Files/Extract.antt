-- ===== src/Files/Extract.antt =====
-- desktop/app/file_transfer.go: the extraction of an archive. What the `archive/zip` package and the
-- file system answer stands in the entries and in the parameters.
pub mod Copying
pub mod Entries
pub mod Counting
pub mod Sizes
pub mod Whole
use clip_cascade_go_fork.Prelude.{
  ℕ, ◌+◌, ◌-◌, ◌%◌, ◌^◌, Bool, true, false, not, ◌&&◌, ◌||◌, Option, none, some, List, [], ◌∷◌,
  ◌++◌, if◌then◌else◌, ltb, ◌==◌, length, map, Result, ok, err,
}
use clip_cascade_go_fork.Protocol.Text.{codes, text_beq, text_eq, split}
use clip_cascade_go_fork.GoMap.{GoMap, put}
use clip_cascade_go_fork.Clipboard.Capture.{Bytes}
use clip_cascade_go_fork.Files.Paths.{
  replace_byte, take, sanitize_archive_entry_path, has_path_traversal_component, clean, is_abs,
  join, rel, starts_with_dots,
}

-- Go's uint64.
abbrev pub word : ℕ
word = 2 ^ 64

abbrev pub add_word : ℕ → ℕ → ℕ
add_word a b = (a + b) % word

abbrev pub sub_word : ℕ → ℕ → ℕ
sub_word a b = (a + (word - b)) % word

pub data ReadStatus : Type 0 where
  more eof failed : ReadStatus

-- One `src.Read(buf)`, and the answer of the `dst.Write` of its bytes.
pub record ReadStep : Type 0 where
  pub bytes : Bytes
  pub status : ReadStatus
  pub accepted : ℕ
  pub write_fails : Bool

pub data CopyError : Type 0 where
  exceeded short_write write_error read_error : CopyError

-- The bytes that are in the destination, the counter, and the error.
pub record Copied : Type 0 where
  pub out : Bytes
  pub written : ℕ
  pub error : Option CopyError

-- The end of a round, with the rounds that follow it.
abbrev pub after_read : Bytes → ℕ → ReadStatus → Copied → Copied
after_read out written more rest = rest
after_read out written eof rest = record { out = out; written = written; error = none }
after_read out written failed rest = record {
  out = out;
  written = written;
  error = some read_error;
}

abbrev pub is_empty : Bytes → Bool
is_empty [] = true
is_empty (b ∷ bytes) = false

-- `copyReaderWithLimit`, over the reads; a reader that has no more is at its end.
unfoldable pub copy_reader : ℕ → Bytes → ℕ → List ReadStep → Copied
copy_reader limit out written [] = record { out = out; written = written; error = none }
copy_reader limit out written (s ∷ steps) =
    let next = add_word written s.accepted in
    let next_out = out ++ take s.accepted s.bytes in
    let skipped = copy_reader limit out written steps in
    let rest = copy_reader limit next_out next steps in
    if is_empty s.bytes
    then after_read out written s.status skipped
    else if ltb (sub_word limit written) (length s.bytes)
    then record { out = out; written = written; error = some exceeded }
    else if s.write_fails
    then record { out = next_out; written = next; error = some write_error }
    else if not (s.accepted == length s.bytes)
    then record { out = next_out; written = next; error = some short_write }
    else after_read next_out next s.status rest

-- `zip.File`, with what is read from it and what the file system answers for it.
pub record ZipEntry : Type 0 where
  pub name : Bytes
  pub is_dir : Bool
  pub is_symlink : Bool
  pub uncompressed_size : ℕ
  pub reads : List ReadStep
  pub makes_dir : Bool
  pub opens : Bool
  pub creates : Bool
  pub closes : Bool

pub data ExtractError : Type 0 where
  advertised_overflow no_space parent_traversal invalid_path invalid_sanitized zip_slip symlink :
      ExtractError
  make_dir open_entry create_file close_file size_mismatch size_overflow over_limit : ExtractError
  copy_failed : CopyError → ExtractError

-- What is done to the file system: the directories of a path made, those above it made, a file
-- written.
pub data Write : Type 0 where
  directory : Bytes → Write
  directories_above : Bytes → Write
  file : Bytes → Bytes → Write

pub record Extraction : Type 0 where
  pub writes : List Write
  pub top_level : GoMap Bytes Bytes
  pub extracted : ℕ

-- `zipAdvertisedExtractBytes`
unfoldable pub advertised_bytes_from : ℕ → List ZipEntry → Option ℕ
advertised_bytes_from total [] = some total
advertised_bytes_from total (f ∷ files) =
    let skipped = advertised_bytes_from total files in
    let rest = advertised_bytes_from (add_word total f.uncompressed_size) files in
    if f.is_dir then skipped else if ltb (word - 1 - f.uncompressed_size) total then none else rest

-- The path that an entry is given: its clean name, and where it goes.
unfoldable pub entry_path : Bytes → Bytes → Result ExtractError (Bytes × Bytes)
entry_path target name =
    let normalized = replace_byte 92 b'/' name in
    if has_path_traversal_component normalized
    then err parent_traversal
    else if is_abs (clean normalized) || text_beq (clean normalized) (codes ".")
    then err invalid_path
    else let sanitized = sanitize_archive_entry_path (clean normalized) in
      if text_beq sanitized [] || text_beq sanitized (codes ".")
      then err invalid_sanitized
      else elim (rel target (join target sanitized)) [
        | none ↦ err zip_slip
        | some r ↦
            if starts_with_dots r then err zip_slip else ok (sanitized, join target sanitized)
      ]

abbrev pub first_part : List Bytes → Bytes
first_part [] = []
first_part (p ∷ ps) = p

unfoldable pub add_top : Bytes → Bytes → Extraction → Extraction
add_top target sanitized x =
    let top = first_part (split b'/' sanitized) in
    if text_beq top [] then x else record x { top_level = put x.top_level top (join target top) }

abbrev pub write : Extraction → Write → Extraction
write x w = record x { writes = w ∷ x.writes }

-- The checks after a file was copied.
unfoldable pub count_copied : ℕ → Extraction → ZipEntry → Copied → Extraction × Option ExtractError
count_copied required x f c =
    let total = add_word x.extracted c.written in
    let counted = record x { extracted = total } in
    elim c.error [
      | some e ↦ (x, some (copy_failed e))
      | none ↦
          if not f.closes
          then (x, some close_file)
          else if not (c.written == f.uncompressed_size)
          then (x, some size_mismatch)
          else if ltb (word - 1 - c.written) x.extracted
          then (x, some size_overflow)
          else if ltb required total
          then (counted, some over_limit)
          else (counted, none)
    ]

unfoldable pub extract_file : ℕ → Bytes → Extraction → ZipEntry → Extraction × Option ExtractError
unfolding copy_reader count_copied
extract_file required dest x f =
    let above = write x (directories_above dest) in
    let c = copy_reader f.uncompressed_size [] 0 f.reads in
    if not f.makes_dir
    then (above, some make_dir)
    else if not f.opens
    then (above, some open_entry)
    else if not f.creates
    then (above, some create_file)
    else count_copied required (write above (file dest c.out)) f c

unfoldable pub extract_at :
    Bytes → ℕ → Bytes → Bytes → Extraction → ZipEntry → Extraction × Option ExtractError
unfolding extract_file add_top
extract_at target required sanitized dest x f =
    let done =
      if f.is_dir
      then (write x (directory dest), if f.makes_dir then none else some make_dir)
      else extract_file required dest x f in
    if f.is_symlink
    then (x, some symlink)
    else elim done.1 [ some e ↦ done | none ↦ (add_top target sanitized done.0, none) ]

-- One round of the loop of `extractZipReaderSafely`.
unfoldable pub extract_entry : Bytes → ℕ → Extraction → ZipEntry → Extraction × Option ExtractError
unfolding entry_path extract_at
extract_entry target required x f = elim (entry_path target f.name) [
  | err e ↦ (x, some e)
  | ok path ↦ extract_at target required path.0 path.1 x f
]

unfoldable pub extract_entries :
    Bytes → ℕ → Extraction → List ZipEntry → Extraction × Option ExtractError
unfolding extract_entry
extract_entries target required x [] = (x, none)
extract_entries target required x (f ∷ files) =
    let done = extract_entry target required x f in
    let rest = extract_entries target required done.0 files in
    elim done.1 [ some e ↦ done | none ↦ rest ]

-- `sort.Strings`
abbrev pub before : Bytes → Bytes → Bool
before [] t = true
before (b ∷ s) [] = false
before (b ∷ s) (c ∷ t) = ltb b c || b == c && before s t

unfoldable pub insert_sorted : Bytes → List Bytes → List Bytes
insert_sorted p [] = p ∷ []
insert_sorted p (q ∷ qs) =
    let rest = insert_sorted p qs in if before p q then p ∷ q ∷ qs else q ∷ rest

unfoldable pub sort_strings : List Bytes → List Bytes
unfolding insert_sorted
sort_strings [] = []
sort_strings (p ∷ ps) = insert_sorted p (sort_strings ps)

abbrev pub nothing_extracted : Extraction
nothing_extracted = record { writes = []; top_level = []; extracted = 0 }

-- `ensureExtractDiskSpaceForTarget`, with the free space below the target, if it can be read.
unfoldable pub has_space : Option ℕ → ℕ → Bool
has_space available required =
    if required == 0
    then true
    else elim available [ none ↦ false | some bytes ↦ not (ltb bytes required) ]

abbrev pub finished : Option ExtractError → List Bytes → Result ExtractError (List Bytes)
finished none paths = ok paths
finished (some e) paths = err e

-- `extractZipReaderSafely`: what is written, and the paths that are returned.
unfoldable pub extract_zip_reader :
    Bytes → Option ℕ → List ZipEntry → List Write × Result ExtractError (List Bytes)
unfolding advertised_bytes_from has_space extract_entries sort_strings
extract_zip_reader target available files = elim (advertised_bytes_from 0 files) [
  | none ↦ ([], err advertised_overflow)
  | some required ↦
      let done = extract_entries target required nothing_extracted files in
      if not (has_space available required)
      then ([], err no_space)
      else (done.0.writes, finished done.1 (sort_strings (map (λ entry. entry.1) done.0.top_level)))
]
