-- ===== src/Tests/ClipboardTests.antt =====
-- The clipboard's watch and writes, at concrete inputs.
use clip_cascade_go_fork.Prelude.{
  ℕ, suc, ◌≡◌, ◌≢◌, refl, true, false, none, some, List, [], ◌∷◌, arith, ◌≤◌,
}
use clip_cascade_go_fork.Protocol.Text.{Text, codes, is_space, trim_left, trim_right, trim_space}
use clip_cascade_go_fork.Clipboard.Capture.{
  CaptureData, base64_encode, normalize_paths, file_stub_payload, type_text, text_capture,
}
use clip_cascade_go_fork.Clipboard.Changes.{
  ClipboardManager, new_clipboard_manager, on_copy, handle_change, report_change, expire,
}
use clip_cascade_go_fork.Clipboard.Writes.{
  Calls, paste, stage_text, stage_file_paths, prepare_write, add_extra_suppression,
}
use clip_cascade_go_fork.Clipboard.Watch.{WatchEvent, native_tick}
use clip_cascade_go_fork.Clipboard.Echo.{
  Change, handle_changes, IsSilent, written-IsSilent, Settled, paste-Settled, copy_reported,
}
use clip_cascade_go_fork.Clipboard.Capture.{capture_from_platform}

abbrev no_meta : List Text → Text
no_meta paths = []

-- A hash that tells the first characters apart.
abbrev first_code : Text → ℕ
first_code [] = 0
first_code (c ∷ t) = suc c

abbrev native_calls : Calls
native_calls = record {
  text_set = true;
  image_set = true;
  paths_set = true;
  base64_decoded = false;
  png_converted = true;
  directory_made = true;
  file_written = true;
}

abbrev listening : ClipboardManager
unfolding on_copy new_clipboard_manager
listening = on_copy new_clipboard_manager

abbrev capture_of : Text → CaptureData
capture_of t = text_capture no_meta t

clipboard_code : Unit {0}
unfolding on_copy new_clipboard_manager handle_changes handle_change report_change expire paste
    stage_text stage_file_paths prepare_write add_extra_suppression normalize_paths
    file_stub_payload trim_space trim_left trim_right is_space base64_encode
clipboard_code = tt

base64_hi : base64_encode (codes "hi!?") ≡ codes "aGkhPw=="
unfolding clipboard_code
base64_hi = refl

abbrev one_path : List Text
one_path = codes " /tmp/a" ∷ []

one_path-normalize_paths : normalize_paths one_path ≡ codes "/tmp/a" ∷ []
unfolding clipboard_code
one_path-normalize_paths = refl

abbrev echoes : List Change
echoes = (8, capture_of (codes "hi")) ∷ (9_000_000_000, capture_of (codes "hi")) ∷ []

abbrev others : List Change
others = (9_000_000_001, capture_of (codes "no")) ∷ []

written-IsSilent_example :
    IsSilent first_code
      (paste first_code native_calls listening 7 (codes "hi") type_text).0
      (first_code (codes "hi"))
      echoes
      others
    × IsSilent first_code
        (stage_text first_code native_calls listening 7 (codes "hi"))
        (first_code (codes "hi"))
        echoes
        others
written-IsSilent_example =
    written-IsSilent first_code native_calls listening 7 (codes "hi") echoes others
      (refl, (refl, tt))

-- Another change that is suppressed overwrites the last hash, and the echo that comes when the
-- suppression is used up is reported.
late_echo_reported :
    (handle_changes first_code
      (prepare_write listening 7 (first_code (codes "hi")))
      ((8, capture_of (codes "no")) ∷ (9, capture_of (codes "hi")) ∷ [])).1
    ≡ capture_of (codes "hi") ∷ []
unfolding clipboard_code
late_echo_reported = refl

some_path : normalize_paths one_path ≢ []
some_path h = (let e : codes "/tmp/a" ∷ [] ≡ [] = (rw one_path-normalize_paths at h) in cc)

paste-Settled_example :
    Settled listening 7
      (first_code (codes "data"))
      (paste first_code native_calls listening 7 (codes "data") "image")
paste-Settled_example = paste-Settled first_code native_calls listening 7 (codes "data") "image"

new_hash :
    first_code (codes "no")
    ≢ (handle_changes first_code
        (prepare_write listening 7 3)
        ((8, capture_of (codes "hi")) ∷ [])).0.last_hash
unfolding clipboard_code
new_hash h = ground arith

still_listening : (prepare_write listening 7 3).has_on_copy ≡ true
unfolding clipboard_code
still_listening = refl

no_backlog : (prepare_write listening 7 3).suppressed_edits ≤ 1
unfolding clipboard_code
no_backlog = omega arith

copy_reported_example :
    (handle_change first_code
      (handle_changes first_code
        (prepare_write listening 7 3)
        ((8, capture_of (codes "hi")) ∷ [])).0
      9
      (capture_of (codes "no"))).1
    ≡ some (capture_of (codes "no"))
copy_reported_example =
    copy_reported first_code (prepare_write listening 7 3) ((8, capture_of (codes "hi")) ∷ []) 9
      (capture_of (codes "no")) still_listening no_backlog new_hash

abbrev suppressing : ClipboardManager
suppressing = record { last_hash = 3; suppressed_edits = 9; suppressed_at = 7; has_on_copy = true }

-- Paths that are all blank, as Wayland may list them, are reported as a file stub without content.
abbrev blank_paths : List (ℕ × WatchEvent)
blank_paths =
    (1, native_tick (capture_from_platform no_meta [] [] (codes "a") none))
    ∷ (2, native_tick (capture_from_platform no_meta (codes " " ∷ []) [] [] none))
    ∷ []
