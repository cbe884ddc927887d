-- ===== src/Files/Transfer.antt =====
-- desktop/app/file_transfer.go and pkg/protocol/file_payloads.go: the messages of a transfer and the
-- transfers that are known.
use clip_cascade_go_fork.Prelude.{
  ℕ, ◌+◌, Bool, true, false, ◌||◌, Option, none, some, String, List, [], map, str_eq, if◌then◌else◌,
  leb, ◌&&◌,
}
use clip_cascade_go_fork.Prelude.Int.{ℤ, pos}
use clip_cascade_go_fork.Prelude.Eq.{string_eq}
use clip_cascade_go_fork.GoMap.{GoMap, get, put}
use clip_cascade_go_fork.Protocol.Text.{Text, codes, text_beq}
use clip_cascade_go_fork.App.Receive.{trim_string}
use clip_cascade_go_fork.Clipboard.Capture.{Bytes}

pub record FileStubManifest : Type 0 where
  pub protocol_version : ℤ
  pub entry_id : String
  pub transfer_id : String
  pub source_session_id : String
  pub source_device : String
  pub kind : String
  pub archive_format : String
  pub display_name : String
  pub entry_count : ℤ
  pub top_level_names : List String
  pub estimated_total_bytes : ℤ

-- `requestFileTransfer` asks for no negative chunk.
pub record FileRequest : Type 0 where
  pub transfer_id : String
  pub entry_id : String
  pub target_session_id : String
  pub resume_from_chunk : ℕ

pub record FileChunk : Type 0 where
  pub transfer_id : String
  pub target_session_id : String
  pub archive_mode : String
  pub chunk_index : ℤ
  pub total_chunks : ℤ
  pub chunk_data : Text
  pub chunk_sha256 : String

pub record FileComplete : Type 0 where
  pub transfer_id : String
  pub target_session_id : String
  pub archive_mode : String
  pub archive_sha256 : String
  pub actual_total_bytes : ℤ

pub record FileError : Type 0 where
  pub transfer_id : String
  pub target_session_id : String
  pub error_code : String
  pub error_message : String
  pub retryable : Bool

pub record FileRelease : Type 0 where
  pub transfer_id : String
  pub target_session_id : String
  pub release_reason : String

-- `transferArchiveMode`; `unset` is the empty string.
pub data ArchiveMode : Type 0 where
  unset disk memory : ArchiveMode

abbrev pub same_mode : ArchiveMode → ArchiveMode → Bool
same_mode unset unset = true
same_mode disk disk = true
same_mode memory memory = true
same_mode _ _ = false

unfoldable pub normalize_archive_mode : String → ArchiveMode
normalize_archive_mode mode = if str_eq mode "memory" then memory else disk

-- `transferArchiveMode.String`
unfoldable pub mode_string : ArchiveMode → String
mode_string unset = "disk"
mode_string disk = "disk"
mode_string memory = "memory"

pub record IncomingTransfer : Type 0 where
  pub manifest : FileStubManifest
  pub history_item_id : String
  pub archive_mode : ArchiveMode
  pub storage_mode : ArchiveMode
  pub archive_bytes : Bytes
  pub base_dir : Bytes
  pub archive_path : Bytes
  pub extract_dir : Bytes
  pub last_chunk_idx : ℤ
  pub total_chunks : ℤ
  pub requested_resume_from : ℤ
  pub request_active : Bool
  pub completing : Bool
  pub completed : Bool

-- The timer of a cleanup is the generation that it was started with, while it runs.
pub record OutgoingTransfer : Type 0 where
  pub manifest : FileStubManifest
  pub source_paths : List String
  pub archive_mode : ArchiveMode
  pub archive_bytes : Bytes
  pub base_dir : Bytes
  pub archive_path : Bytes
  pub archive_sha256 : String
  pub archive_size : ℕ
  pub chunk_count : ℕ
  pub cleanup_timer : Option ℕ
  pub cleanup_gen : ℕ
  pub source_signature : String
  pub sending_targets : GoMap String Bool

pub record TransferManager : Type 0 where
  pub session_id : String
  pub outgoing : GoMap String OutgoingTransfer
  pub incoming : GoMap String IncomingTransfer

-- `newTransferManager`, with a fresh identifier for an empty one.
unfoldable pub new_transfer_manager : String → String → TransferManager
new_transfer_manager uuid id = record {
  session_id = if str_eq id "" then uuid else id;
  outgoing = [];
  incoming = [];
}

abbrev pub to_lower : ℕ → ℕ
to_lower c = if leb b'A' c && leb c b'Z' then c + 32 else c

unfoldable pub uses_raw_transfer : FileStubManifest → Bool
uses_raw_transfer m = text_beq (map to_lower (codes (trim_string m.archive_format))) (codes "raw")

unfoldable pub transfer_payload_temp_name : FileStubManifest → Bytes
unfolding uses_raw_transfer
transfer_payload_temp_name m =
    if uses_raw_transfer m then codes "payload.bin" else codes "payload.zip"

unfoldable pub archive_format_for_kind : String → String
archive_format_for_kind kind =
    if str_eq kind "single_file" || str_eq kind "image" then "raw" else "zip"

-- `RegisterIncoming`
unfoldable pub new_incoming : FileStubManifest → String → ℤ → IncomingTransfer
new_incoming manifest item_id last_chunk_idx = record {
  manifest = manifest;
  history_item_id = item_id;
  archive_mode = unset;
  storage_mode = unset;
  archive_bytes = [];
  base_dir = [];
  archive_path = [];
  extract_dir = [];
  last_chunk_idx = last_chunk_idx;
  total_chunks = pos 0;
  requested_resume_from = pos 0;
  request_active = false;
  completing = false;
  completed = false;
}

unfoldable pub register_incoming : TransferManager → FileStubManifest → String → ℤ → TransferManager
unfolding new_incoming
register_incoming m manifest item_id last_chunk_idx = record m {
  incoming = put m.incoming manifest.transfer_id (new_incoming manifest item_id last_chunk_idx);
}

-- `mutateIncoming` for a function that does not fail.
unfoldable pub mutate_incoming :
    TransferManager
    → String
    → (IncomingTransfer → IncomingTransfer)
    → TransferManager × Option IncomingTransfer
mutate_incoming m transfer_id fn = elim (get m.incoming transfer_id) [
  | none ↦ (m, none)
  | some transfer ↦
      (record m { incoming = put m.incoming transfer_id (fn transfer) }, some (fn transfer))
]
