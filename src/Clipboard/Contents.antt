-- ===== src/Clipboard/Contents.antt =====
-- desktop/clipboard/monitor.go: what is captured for an event of the clipboard has some content.
use clip_cascade_go_fork.Prelude.{
  ℕ, ◌≡◌, ◌≢◌, refl, sym, ap, ◌∙◌, false, Option, none, some, List, [], ◌∷◌, arith, All,
}
use clip_cascade_go_fork.Protocol.Text.{Text, trim_space}
use clip_cascade_go_fork.Clipboard.Capture.{
  CaptureData, Bytes, base64_encode, normalize_paths, join_lines, file_stub_payload, file_capture,
  select_file,
}
use clip_cascade_go_fork.Clipboard.Changes.{ClipboardManager, handle_change, report_change, expire}
use clip_cascade_go_fork.Clipboard.Watch.{
  Outcome, handle_snapshot, handle_file_change, handle_data, text_data, image_data,
}
use clip_cascade_go_fork.Clipboard.Selection.{normalize_paths_twice}

module _ (file_stub_meta : List Text → Text) where
  -- A capture with some content.
  abbrev pub IsFull : CaptureData → Type 0
  IsFull c = c.payload ≢ []

  abbrev pub AllFull : Option CaptureData → Type 0
  AllFull none = Unit
  AllFull (some c) = IsFull c

  pub base64_encode_full : (b : ℕ) (i : Bytes) → base64_encode (b ∷ i) ≢ []
  unfolding base64_encode
  base64_encode_full a [] h = cc
  base64_encode_full a (b ∷ []) h = cc
  base64_encode_full a (b ∷ c ∷ i) h = cc

  pub join_lines_full : (c : ℕ) (l : Text) (ls : List Text) → join_lines ((c ∷ l) ∷ ls) ≢ []
  join_lines_full c l [] h = cc
  join_lines_full c l (m ∷ ls) h = cc

  -- Every path that is left begins with a character.
  pub normalize_paths_full : (paths : List Text) → All (λ p. p ≢ []) (normalize_paths paths)
  unfolding normalize_paths
  normalize_paths_full [] = tt
  normalize_paths_full (p ∷ paths) = by_trim (normalize_paths_full paths) (trim_space p)
    where
      by_trim :
          All (λ q. q ≢ []) (normalize_paths paths)
          → (t : Text)
          → All
              (λ q. q ≢ [])
              (elim t [ [] ↦ normalize_paths paths | c ∷ u ↦ (c ∷ u) ∷ normalize_paths paths ])
      by_trim rest [] = rest
      by_trim rest (c ∷ u) = (λ h. cc, rest)

  select_file_full : (paths : List Text) → AllFull (select_file file_stub_meta paths)
  unfolding select_file file_stub_payload
  select_file_full paths =
      by_paths (normalize_paths paths) (normalize_paths_twice paths) (normalize_paths_full paths)
    where
      by_paths :
          (ps : List Text)
          → normalize_paths ps ≡ ps
          → All (λ q. q ≢ []) ps
          → AllFull (elim ps [ [] ↦ none | p ∷ qs ↦ some (file_capture file_stub_meta (p ∷ qs)) ])
      by_paths [] e h = tt
      by_paths ([] ∷ qs) e h = elim (h.0 refl) [ ]
      by_paths ((c ∷ l) ∷ qs) e h = λ z. join_lines_full c l qs (ap join_lines (sym e) ∙ z)

  module _ (hash : Text → ℕ) where
    pub handle_change_full :
        (m : ClipboardManager) (now : ℕ) (c : CaptureData)
        → IsFull c
        → AllFull (handle_change hash m now c).1
    unfolding handle_change report_change expire
    handle_change_full m now c h = ground (arith, h)

    pub handle_snapshot_full :
        (m : ClipboardManager) (now : ℕ) (o : Option CaptureData)
        → AllFull o
        → AllFull (handle_snapshot file_stub_meta hash m now o).1
    unfolding handle_snapshot
    handle_snapshot_full m now none h = tt
    handle_snapshot_full m now (some c) h = handle_change_full m now c h

    abbrev pub FullOutcome : Option Outcome → Type 0
    FullOutcome none = Unit
    FullOutcome (some r) = AllFull r.1

    pub handle_file_change_full :
        (m : ClipboardManager) (now : ℕ) (paths : List Text)
        → FullOutcome (handle_file_change file_stub_meta hash m now paths)
    unfolding handle_file_change
    handle_file_change_full m now paths =
        by_file (select_file file_stub_meta paths) (select_file_full paths)
      where
        by_file :
            (o : Option CaptureData)
            → AllFull o
            → FullOutcome (elim o [ none ↦ none | some c ↦ some (handle_change hash m now c) ])
        by_file none h = tt
        by_file (some c) h = handle_change_full m now c h

    pub handle_data_full :
        (m : ClipboardManager) (now : ℕ) (paths : List Text) (snapshot capture : Option CaptureData)
        → AllFull capture
        → AllFull (handle_data file_stub_meta hash false m now paths snapshot capture).1
    unfolding handle_data
    handle_data_full m now paths snapshot capture h =
        by_file (handle_file_change file_stub_meta hash m now paths)
          (handle_file_change_full m now paths)
      where
        by_file :
            (o : Option Outcome)
            → FullOutcome o
            → AllFull
                (elim o as (λ _. Outcome) [
                  | some r ↦ r
                  | none ↦ handle_snapshot file_stub_meta hash m now capture
                ]).1
        by_file none f = handle_snapshot_full m now capture h
        by_file (some r) f = f

    pub text_data_full : (t : Text) → AllFull (text_data file_stub_meta hash t)
    text_data_full [] = tt
    text_data_full (c ∷ t) = λ h. cc

    pub image_data_full : (i : Bytes) → AllFull (image_data file_stub_meta hash i)
    image_data_full [] = tt
    image_data_full (b ∷ i) = base64_encode_full b i
