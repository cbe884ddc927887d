-- ===== src/Clipboard/Capture.antt =====
-- desktop/clipboard/monitor.go: what a read of the system clipboard gives.
use clip_cascade_go_fork.Prelude.{
  ℕ, ◌+◌, ◌-◌, ◌*◌, ◌/◌, ◌%◌, Option, none, some, String, List, [], ◌∷◌, ◌++◌, if◌then◌else◌, ltb,
}
use clip_cascade_go_fork.Protocol.Text.{Text, trim_space}

-- Bytes, each below 256.
abbrev pub Bytes : Type 0
Bytes = List ℕ

pub record CaptureData : Type 0 where
  pub payload : Text
  pub type : String
  pub file_name : Text
  pub paths : List Text

-- The constants of pkg/constants/constants.go.
abbrev pub type_text : String
type_text = "text"

abbrev pub type_image : String
type_image = "image"

abbrev pub type_file_stub : String
type_file_stub = "file_stub"

abbrev pub type_file_eager : String
type_file_eager = "file_eager"

-- `base64.StdEncoding.EncodeToString`
abbrev pub base64_char : ℕ → ℕ
base64_char i =
    if ltb i 26
    then i + b'A'
    else if ltb i 52
    then i + 71
    else if ltb i 62
    then i - 4
    else if ltb i 63
    then b'+'
    else b'/'

unfoldable pub base64_encode : Bytes → Text
base64_encode [] = []
base64_encode (a ∷ []) = base64_char (a / 4) ∷ base64_char (a % 4 * 16) ∷ b'=' ∷ b'=' ∷ []
base64_encode (a ∷ b ∷ []) =
    base64_char (a / 4) ∷ base64_char (a % 4 * 16 + b / 16) ∷ base64_char (b % 16 * 4) ∷ b'=' ∷ []
base64_encode (a ∷ b ∷ c ∷ bytes) =
    base64_char (a / 4)
    ∷ base64_char (a % 4 * 16 + b / 16)
    ∷ base64_char (b % 16 * 4 + c / 64)
    ∷ base64_char (c % 64)
    ∷ base64_encode bytes

-- `normalizeClipboardPaths`
unfoldable pub normalize_paths : List Text → List Text
normalize_paths [] = []
normalize_paths (p ∷ paths) =
    let rest = normalize_paths paths in elim (trim_space p) [ [] ↦ rest | c ∷ t ↦ (c ∷ t) ∷ rest ]

-- `strings.Join(l, "\n")`
abbrev pub join_lines : List Text → Text
join_lines [] = []
join_lines (l ∷ []) = l
join_lines (l ∷ m ∷ ls) = l ++ 10 ∷ join_lines (m ∷ ls)

-- `buildFileStubPayload`
unfoldable pub file_stub_payload : List Text → Text
unfolding normalize_paths
file_stub_payload paths = join_lines (normalize_paths paths)

module _ (file_stub_meta : List Text → Text) where
  -- A capture of files; `buildFileStubMeta` reads the sizes of the files and is an argument.
  abbrev pub file_capture : List Text → CaptureData
  file_capture normalized = record {
    payload = file_stub_payload normalized;
    type = type_file_stub;
    file_name = file_stub_meta normalized;
    paths = normalized;
  }

  abbrev pub image_capture : Bytes → CaptureData
  image_capture image = record {
    payload = base64_encode image;
    type = type_image;
    file_name = [];
    paths = [];
  }

  abbrev pub text_capture : Text → CaptureData
  text_capture text = record { payload = text; type = type_text; file_name = []; paths = [] }

  abbrev pub image_or_text : Bytes → Text → Option CaptureData
  image_or_text (b ∷ image) text = some (image_capture (b ∷ image))
  image_or_text [] (c ∷ text) = some (text_capture (c ∷ text))
  image_or_text [] [] = none

  -- `deriveCaptureData`
  unfoldable pub derive_capture : List Text → Bytes → Text → Option CaptureData
  unfolding normalize_paths file_stub_payload
  derive_capture (p ∷ paths) image text = some (file_capture (normalize_paths (p ∷ paths)))
  derive_capture [] image text = image_or_text image text

  -- `captureDataFromPlatform`: an empty part is read again where the fallback is allowed.
  unfoldable pub capture_from_platform :
      List Text → Bytes → Text → Option (Bytes × Text) → Option CaptureData
  unfolding derive_capture
  capture_from_platform paths image text none = derive_capture paths image text
  capture_from_platform paths image text (some (image_read, text_read)) =
      derive_capture paths (elim image [ [] ↦ image_read | b ∷ i ↦ b ∷ i ])
        (elim text [ [] ↦ text_read | c ∷ t ↦ c ∷ t ])

  -- `selectFileContent`
  unfoldable pub select_file : List Text → Option CaptureData
  unfolding normalize_paths file_stub_payload
  select_file paths = elim (normalize_paths paths) [
    | [] ↦ none
    | p ∷ ps ↦ some (file_capture (p ∷ ps))
  ]

  -- `selectClipboardContent`
  unfoldable pub select_content : List Text → Bytes → Text → Option CaptureData
  unfolding select_file
  select_content paths image text = elim (select_file paths) [
    | some capture ↦ some capture
    | none ↦ image_or_text image text
  ]
