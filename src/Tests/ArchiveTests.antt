-- ===== src/Tests/ArchiveTests.antt =====
-- The extraction of archives, at concrete inputs.
use clip_cascade_go_fork.Prelude.{
  ◌≡◌, ◌≢◌, refl, true, false, some, List, [], ◌∷◌, arith, ok, err, ◌≤◌, ◌⊎◌, ◌<◌, All,
}
use clip_cascade_go_fork.GoMap.{get, put}
use clip_cascade_go_fork.Protocol.Text.{codes, split, trim_left, trim_right}
use clip_cascade_go_fork.Clipboard.Capture.{Bytes}
use clip_cascade_go_fork.Files.Paths.{
  sanitize_file_name, sanitize_archive_entry_path, has_path_traversal_component, components,
  clean_parts, clean, join, rel,
}
use clip_cascade_go_fork.Files.Extract.{
  word, eof, copy_reader, ZipEntry, parent_traversal, advertised_bytes_from, size_overflow,
  over_limit, advertised_overflow, entry_path, add_top, count_copied, extract_file, extract_at,
  extract_entry, extract_entries, insert_sorted, sort_strings, has_space, extract_zip_reader,
}
use clip_cascade_go_fork.Files.Extract.Entries.{AllBelow, extract_zip_reader-AllBelow}
use clip_cascade_go_fork.Files.Extract.Counting.{IsEntry, size_sum, bytes_written}
use clip_cascade_go_fork.Files.Extract.Sizes.{extract_zip_reader-bounded}
use clip_cascade_go_fork.Files.Extract.Whole.{AllExtracted, extract_zip_reader_whole}

extract_code : Unit {0}
unfolding sanitize_file_name sanitize_archive_entry_path has_path_traversal_component components
    clean_parts clean join rel copy_reader advertised_bytes_from entry_path add_top count_copied
    extract_file extract_at extract_entry extract_entries insert_sorted sort_strings has_space
    extract_zip_reader split trim_left trim_right get put
extract_code = tt

abbrev target : Bytes
target = codes "/tmp/t"

-- A file of two bytes.
abbrev entry_named : Bytes → ZipEntry
entry_named name = record {
  name = name;
  is_dir = false;
  is_symlink = false;
  uncompressed_size = 2;
  reads = record { bytes = 7 ∷ 8 ∷ []; status = eof; accepted = 2; write_fails = false } ∷ [];
  makes_dir = true;
  opens = true;
  creates = true;
  closes = true;
}

abbrev one_file : List ZipEntry
one_file = entry_named (codes "a/b: c") ∷ []

abbrev slip : List ZipEntry
slip = entry_named (codes "a/../../x") ∷ []

one_file-IsEntry : All IsEntry one_file
one_file-IsEntry = ((omega arith, (omega arith, tt)), tt)

extracted_paths : (extract_zip_reader target (some 100) one_file).1 ≡ ok (codes "/tmp/t/a" ∷ [])
unfolding extract_code
extracted_paths = refl

slip_refused : extract_zip_reader target (some 100) slip ≡ ([], err parent_traversal)
unfolding extract_code
slip_refused = refl

sanitized_names : sanitize_archive_entry_path (codes "..:x/ .. /c*") ≡ codes "_x/_unnamed/c_"
unfolding extract_code
sanitized_names = refl

extract_zip_reader-AllBelow_example : AllBelow target (extract_zip_reader target (some 100) slip).0
extract_zip_reader-AllBelow_example = extract_zip_reader-AllBelow target (some 100) slip

extract_zip_reader-bounded_example :
    (bytes_written (extract_zip_reader target (some 100) one_file).0 ≤ size_sum one_file)
    × ((extract_zip_reader target (some 100) one_file).1 ≢ err size_overflow)
    × ((extract_zip_reader target (some 100) one_file).1 ≢ err over_limit)
    × ((size_sum one_file < word)
        ⊎ (extract_zip_reader target (some 100) one_file ≡ ([], err advertised_overflow)))
extract_zip_reader-bounded_example =
    extract_zip_reader-bounded target (some 100) one_file one_file-IsEntry

extract_zip_reader_whole_example :
    AllExtracted target (extract_zip_reader target (some 100) one_file).0 one_file
extract_zip_reader_whole_example =
    extract_zip_reader_whole target (some 100) one_file (codes "/tmp/t/a" ∷ []) one_file-IsEntry
      extracted_paths
