-- ===== src/Files/Extract/Sizes.antt =====
-- desktop/app/file_transfer.go: how many bytes the extraction of an archive writes.
use mathlib.Core.Path.{subst}
use clip_cascade_go_fork.Prelude.{
  ℕ, ◌+◌, ◌≤◌, ◌<◌, ◌≡◌, ◌≢◌, refl, not, ◌||◌, Option, none, some, List, [], ◌∷◌, arith, All,
  if_cases, result_cases, match_cases, map, Result, ok, err, inl, inr, ◌⊎◌,
}
use clip_cascade_go_fork.Protocol.Text.{codes, text_beq}
use clip_cascade_go_fork.Clipboard.Capture.{Bytes}
use clip_cascade_go_fork.Files.Extract.{
  word, Write, Extraction, ZipEntry, ExtractError, entry_path, extract_entry, extract_entries,
  extract_zip_reader, advertised_bytes_from, nothing_extracted, has_space, sort_strings, finished,
  size_overflow, over_limit, advertised_overflow, zip_slip, parent_traversal, invalid_path,
  invalid_sanitized,
}
use clip_cascade_go_fork.Files.Paths.{
  replace_byte, join, clean, is_abs, rel, starts_with_dots, sanitize_archive_entry_path,
  has_path_traversal_component,
}
use clip_cascade_go_fork.Files.Extract.Counting.{
  file_size, size_sum, bytes_written, IsEntry, Advertises, advertised-Advertises, NeverOver,
  Bounded, stopped, extract_at-Bounded,
}

abbrev NoPathOver : Result ExtractError (Bytes × Bytes) → Type 0
NoPathOver (err e) = NeverOver (some e)
NoPathOver (ok path) = Unit

entry_path-NeverOver : (target name : Bytes) → NoPathOver (entry_path target name)
unfolding entry_path
entry_path-NeverOver target name =
    let normalized = replace_byte 92 b'/' name in
    let sanitized = sanitize_archive_entry_path (clean normalized) in
    let other : NoPathOver (err parent_traversal)
        × NoPathOver (err invalid_path)
        × NoPathOver (err invalid_sanitized)
        × NoPathOver (err zip_slip) =
      (
        ((λ n. ground arith), (λ n. ground arith)),
        ((λ n. ground arith), (λ n. ground arith)),
        ((λ n. ground arith), (λ n. ground arith)),
        ((λ n. ground arith), (λ n. ground arith)),
      ) in
    if_cases NoPathOver (has_path_traversal_component normalized) (λ e. other.0)
      (λ e.
        if_cases NoPathOver (is_abs (clean normalized) || text_beq (clean normalized) (codes "."))
          (λ e. other.1)
          (λ e.
            if_cases NoPathOver (text_beq sanitized [] || text_beq sanitized (codes "."))
              (λ e. other.2)
              (λ e.
                match_cases NoPathOver (rel target (join target sanitized)) (λ q. other.3)
                  (λ r q. if_cases NoPathOver (starts_with_dots r) (λ e. other.3) (λ e. tt)))))

extract_entry-Bounded :
    (target : Bytes) (required limit : ℕ) (x : Extraction) (f : ZipEntry)
    → IsEntry f
    → required < word
    → bytes_written x.writes + file_size f ≤ limit
    → limit ≤ required
    → x.extracted ≡ bytes_written x.writes
    → Bounded limit (extract_entry target required x f)
unfolding extract_entry
extract_entry-Bounded target required limit x f hf hr hl hw e =
    result_cases (Bounded limit) (entry_path target f.name)
      (λ a q.
        stopped limit x a (omega arith) (subst NoPathOver q (entry_path-NeverOver target f.name)))
      (λ path q. extract_at-Bounded target required limit path.0 path.1 x f hf hr hl hw e)

extract_entries-Bounded :
    (target : Bytes) (required : ℕ) (x : Extraction) (files : List ZipEntry)
    → All IsEntry files
    → required < word
    → bytes_written x.writes + size_sum files ≤ required
    → x.extracted ≡ bytes_written x.writes
    → Bounded required (extract_entries target required x files)
unfolding extract_entries
extract_entries-Bounded target required x [] h hr hl e =
    (omega arith, (λ n. e), ((λ n. ground arith), (λ n. ground arith)))
extract_entries-Bounded target required x (f ∷ files) h hr hl e =
    let limit = bytes_written x.writes + file_size f in
    let done = extract_entry target required x f in
    let kept : Bounded limit done =
      extract_entry-Bounded target required limit x f h.0 hr (omega arith) (omega arith) e in
    match_cases (Bounded required) done.1
      (λ n.
        extract_entries-Bounded target required done.0 files h.1 hr
          (let first = kept.0 in omega arith) (kept.1 n))
      (λ a n. (let first = kept.0 in omega arith, kept.1, kept.2))

finished-NeverOver :
    (e : Option ExtractError) (paths : List Bytes)
    → NeverOver e
    → (finished e paths ≢ err size_overflow) × (finished e paths ≢ err over_limit)
finished-NeverOver none paths h = ((λ n. ground arith), (λ n. ground arith))
finished-NeverOver (some e) paths h = ((λ n. h.0 (ground arith)), (λ n. h.1 (ground arith)))

-- The files that the extraction of an archive writes have together at most the bytes that the archive
-- advertises, also where the extraction fails in a file, and it never fails because a counter
-- overflows or exceeds the sum; where the sum is no 64-bit number nothing is written. The sizes are
-- 64-bit numbers and a writer accepts at most what it is given.
pub extract_zip_reader-bounded :
    (target : Bytes) (available : Option ℕ) (files : List ZipEntry)
    → All IsEntry files
    → (bytes_written (extract_zip_reader target available files).0 ≤ size_sum files)
      × ((extract_zip_reader target available files).1 ≢ err size_overflow)
      × ((extract_zip_reader target available files).1 ≢ err over_limit)
      × ((size_sum files < word)
          ⊎ (extract_zip_reader target available files ≡ ([], err advertised_overflow)))
unfolding extract_zip_reader
extract_zip_reader-bounded target available files h =
    let P = λ (r : List Write × Result ExtractError (List Bytes)).
      (bytes_written r.0 ≤ size_sum files)
      × (r.1 ≢ err size_overflow)
      × (r.1 ≢ err over_limit)
      × ((size_sum files < word) ⊎ (r ≡ ([], err advertised_overflow))) in
    let sums = advertised-Advertises 0 files (size_sum files) h (omega arith) (omega arith) in
    match_cases P (advertised_bytes_from 0 files)
      (λ e. (omega arith, (λ n. ground arith), (λ n. ground arith), inr refl))
      (λ required e.
        let exact : Advertises (size_sum files) (some required) =
          subst (Advertises (size_sum files)) e sums in
        let done = extract_entries target required nothing_extracted files in
        if_cases P (not (has_space available required))
          (λ q. (omega arith, (λ n. ground arith), (λ n. ground arith), inl exact.1))
          (λ q.
            let kept : Bounded required done =
              extract_entries-Bounded target required nothing_extracted files h
                (let sum = exact.0 in let fits = exact.1 in omega arith)
                (let sum = exact.0 in omega arith) refl in
            let never =
              finished-NeverOver done.1 (sort_strings (map (λ entry. entry.1) done.0.top_level))
                kept.2 in
            (let room = kept.0 in let sum = exact.0 in omega arith, never.0, never.1, inl exact.1)))
