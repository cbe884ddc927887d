-- ===== src/Clipboard/Selection.antt =====
-- desktop/clipboard/monitor.go: the two ways of choosing what is read from the clipboard.
use clip_cascade_go_fork.Prelude.{◌≡◌, ◌≢◌, refl, ap, List, [], ◌∷◌, ◌⊎◌, inl, inr}
use clip_cascade_go_fork.Protocol.Text.{Text, trim_space}
use clip_cascade_go_fork.Protocol.Text.Laws.{trim_space_clear, trim_space-clear}
use clip_cascade_go_fork.Clipboard.Capture.{
  Bytes, normalize_paths, join_lines, file_stub_payload, derive_capture, select_file,
  select_content,
}

trim_space_twice : (s : Text) → trim_space (trim_space s) ≡ trim_space s
trim_space_twice s = let (a, b) = trim_space-clear s in trim_space_clear (trim_space s) a b

pub normalize_paths_twice :
    (paths : List Text) → normalize_paths (normalize_paths paths) ≡ normalize_paths paths
unfolding normalize_paths
normalize_paths_twice [] = refl
normalize_paths_twice (p ∷ paths) = by_trim (normalize_paths_twice paths) (trim_space p) refl
  where
    by_trim :
        normalize_paths (normalize_paths paths) ≡ normalize_paths paths
        → (t : Text) → trim_space p ≡ t
        → normalize_paths (normalize_paths (p ∷ paths)) ≡ normalize_paths (p ∷ paths)
    by_trim rest [] e = rw (normalize_paths, e) rest
    by_trim rest (c ∷ t) e =
        let kept : trim_space (c ∷ t) ≡ c ∷ t = rw (← e) (trim_space_twice p) in
        rw (normalize_paths, e, kept, rest) refl

module _ (file_stub_meta : List Text → Text) where
  -- The capture of files has the payload that `StageFilePaths` takes the hash of, whether the paths
  -- are normalized once or twice.
  pub file_stub_payload_normalized :
      (paths : List Text) → file_stub_payload (normalize_paths paths) ≡ file_stub_payload paths
  unfolding file_stub_payload
  file_stub_payload_normalized paths = ap join_lines (normalize_paths_twice paths)

  -- The capture on demand and the choice of the watch agree, except where the clipboard holds file
  -- paths that are all blank.
  pub derive_capture-select_content :
      (paths : List Text) (image : Bytes) (text : Text)
      → (paths ≡ []) ⊎ (normalize_paths paths ≢ [])
      → derive_capture file_stub_meta paths image text
        ≡ select_content file_stub_meta paths image text
  unfolding derive_capture select_content select_file normalize_paths
  derive_capture-select_content [] image text h = refl
  derive_capture-select_content (p ∷ paths) image text (inl e) = cc
  derive_capture-select_content (p ∷ paths) image text (inr some_paths) =
      by_paths (normalize_paths (p ∷ paths)) refl
    where
      by_paths :
          (ps : List Text)
          → normalize_paths (p ∷ paths) ≡ ps
          → derive_capture file_stub_meta (p ∷ paths) image text
            ≡ select_content file_stub_meta (p ∷ paths) image text
      by_paths [] e = elim (some_paths e) [ ]
      by_paths (q ∷ ps) e = rw (select_content, select_file, e) refl
