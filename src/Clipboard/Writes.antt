-- ===== src/Clipboard/Writes.antt =====
-- desktop/clipboard/monitor.go: the writes to the system clipboard.
use clip_cascade_go_fork.Prelude.{
  ℕ, suc, Bool, true, false, Option, none, some, String, List, [], ◌∷◌, if◌then◌else◌, str_eq,
}
use clip_cascade_go_fork.Protocol.Text.{Text}
use clip_cascade_go_fork.Clipboard.Capture.{
  Bytes, base64_encode, normalize_paths, file_stub_payload, type_text, type_image, type_file_stub,
  type_file_eager,
}
use clip_cascade_go_fork.Clipboard.Changes.{ClipboardManager}

unfoldable pub prepare_write : ClipboardManager → ℕ → ℕ → ClipboardManager
prepare_write m now hash = record m {
  last_hash = hash;
  suppressed_edits = suc m.suppressed_edits;
  suppressed_at = now;
}

unfoldable pub add_extra_suppression : ClipboardManager → ℕ → ClipboardManager
add_extra_suppression m now = record m {
  suppressed_edits = suc m.suppressed_edits;
  suppressed_at = now;
}

-- The part of the state that a failed write restores.
pub record WriteState : Type 0 where
  pub last_hash : ℕ
  pub suppressed_edits : ℕ
  pub suppressed_at : ℕ

unfoldable pub snapshot_state : ClipboardManager → WriteState
snapshot_state m = record {
  last_hash = m.last_hash;
  suppressed_edits = m.suppressed_edits;
  suppressed_at = m.suppressed_at;
}

unfoldable pub restore_state : ClipboardManager → WriteState → ClipboardManager
restore_state m s = record m {
  last_hash = s.last_hash;
  suppressed_edits = s.suppressed_edits;
  suppressed_at = s.suppressed_at;
}

-- Whether the calls that a write makes succeed: the platform's own writes of a text, an image and
-- file paths, the decoding and the conversion of the data, and the file system.
pub record Calls : Type 0 where
  pub text_set : Bool
  pub image_set : Bool
  pub paths_set : Bool
  pub base64_decoded : Bool
  pub png_converted : Bool
  pub directory_made : Bool
  pub file_written : Bool

pub data PasteError : Type 0 where
  bad_image bad_png bad_file no_directory no_file no_paths unsupported_type : PasteError

abbrev pub extra_twice : ClipboardManager → ℕ → Bool → ClipboardManager
extra_twice m now native =
    if native then add_extra_suppression (add_extra_suppression m now) now else m

-- The image and the file branch of `Paste`, up to the first call that fails.
unfoldable pub image_error : Calls → Option PasteError
image_error calls =
    if calls.base64_decoded
    then (if calls.png_converted then none else some bad_png)
    else some bad_image

unfoldable pub file_error : Calls → Option PasteError
file_error calls =
    if calls.base64_decoded
    then (if calls.directory_made
        then (if calls.file_written
            then (if calls.paths_set then none else some no_paths)
            else some no_file)
        else some no_directory)
    else some bad_file

-- `restoreOnError`
abbrev pub settle :
    WriteState
    → ClipboardManager
    → ClipboardManager
    → Option PasteError
    → ClipboardManager × Option PasteError
settle previous failed done none = (done, none)
settle previous failed done (some e) = (restore_state failed previous, some e)

module _ (hash : Text → ℕ) where
  unfoldable pub paste :
      Calls → ClipboardManager → ℕ → Text → String → ClipboardManager × Option PasteError
  unfolding prepare_write add_extra_suppression snapshot_state restore_state image_error file_error
  paste calls m now payload type =
      let previous = snapshot_state m in
      let prepared = prepare_write m now (hash payload) in
      if str_eq type type_text
      then (extra_twice prepared now calls.text_set, none)
      else if str_eq type type_image
      then settle previous prepared (extra_twice prepared now calls.image_set) (image_error calls)
      else if str_eq type type_file_stub
      then (prepared, none)
      else if str_eq type type_file_eager
      then settle previous prepared prepared (file_error calls)
      else settle previous prepared prepared (some unsupported_type)

  unfoldable pub stage_text : Calls → ClipboardManager → ℕ → Text → ClipboardManager
  unfolding prepare_write add_extra_suppression
  stage_text calls m now text = extra_twice (prepare_write m now (hash text)) now calls.text_set

  -- `StageImageFile`: the PNG data that the file is read and converted to, or the error.
  unfoldable pub stage_image : ClipboardManager → ℕ → Option Bytes → ClipboardManager × Bool
  unfolding prepare_write add_extra_suppression
  stage_image m now none = (m, false)
  stage_image m now (some png) =
      (extra_twice (prepare_write m now (hash (base64_encode png))) now true, true)

  -- `StageFilePaths`, with whether it returns an error.
  unfoldable pub stage_file_paths :
      Calls → ClipboardManager → ℕ → List Text → ClipboardManager × Option PasteError
  unfolding prepare_write add_extra_suppression snapshot_state restore_state
  stage_file_paths calls m now paths = elim (normalize_paths paths) [
    | [] ↦ (m, none)
    | p ∷ ps ↦
        let staged =
          extra_twice (prepare_write m now (hash (file_stub_payload (p ∷ ps)))) now true in
        settle (snapshot_state m) staged staged (if calls.paths_set then none else some no_paths)
  ]
