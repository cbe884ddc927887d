-- ===== src/Files/Outgoing.antt =====
-- desktop/app/file_transfer.go: the transfers that this device sends, and the life of their archives.
pub mod Marks
pub mod Targets
pub mod Cleanup
use clip_cascade_go_fork.Prelude.{
  ℕ, ◌+◌, Bool, true, false, not, ◌&&◌, ◌||◌, Option, none, some, String, List, [], ◌∷◌, str_eq,
  if◌then◌else◌, Result, ok, err, is_some, ◌==◌, length,
}
use clip_cascade_go_fork.Prelude.Eq.{string_eq}
use clip_cascade_go_fork.Prelude.Int.{pos}
use clip_cascade_go_fork.Protocol.Text.{Text, text_eq}
use clip_cascade_go_fork.Clipboard.Capture.{Bytes}
use clip_cascade_go_fork.GoMap.{GoMap, get, put, remove}
use clip_cascade_go_fork.Files.Transfer.{
  FileStubManifest, FileRequest, FileComplete, unset, disk, mode_string, OutgoingTransfer,
  TransferManager,
}
use clip_cascade_go_fork.Files.Receiving.{Disk, is_empty}
use clip_cascade_go_fork.Files.Sending.{chunk_count_for_size}

-- A transfer of the map is changed in place.
abbrev pub change :
    TransferManager → String → (OutgoingTransfer → OutgoingTransfer) → TransferManager
change m id fn = elim (get m.outgoing id) [
  | none ↦ m
  | some t ↦ record m { outgoing = put m.outgoing id (fn t) }
]

unfoldable pub find_signature : GoMap String OutgoingTransfer → String → Option OutgoingTransfer
find_signature [] signature = none
find_signature ((id, t) ∷ m) signature =
    if str_eq t.source_signature signature then some t else find_signature m signature

pub data RegisterError : Type 0 where
  no_paths : RegisterError
  no_signature : String → RegisterError

-- `RegisterOutgoingWithKind`: the signature of the paths and the manifest come from the files. A
-- transfer of the same sources is used again.
unfoldable pub register_outgoing :
    TransferManager
    → List String
    → Result String String
    → FileStubManifest
    → TransferManager × Result RegisterError OutgoingTransfer
unfolding find_signature
register_outgoing m [] signed manifest = (m, err no_paths)
register_outgoing m (p ∷ paths) signed manifest = elim signed [
  | err message ↦ (m, err (no_signature message))
  | ok signature ↦ elim (find_signature m.outgoing signature) [
    | some existing ↦ (m, ok existing)
    | none ↦
        let transfer : OutgoingTransfer = record {
          manifest = manifest;
          source_paths = p ∷ paths;
          archive_mode = unset;
          archive_bytes = [];
          base_dir = [];
          archive_path = [];
          archive_sha256 = "";
          archive_size = 0;
          chunk_count = 0;
          cleanup_timer = none;
          cleanup_gen = 0;
          source_signature = signature;
          sending_targets = [];
        } in
        (record m { outgoing = put m.outgoing manifest.transfer_id transfer }, ok transfer)
  ]
]

-- The first part of `handleFileRequest`, under the lock: whether the sending to this target begins.
unfoldable pub begin_sending : TransferManager → FileRequest → TransferManager × Bool
begin_sending m r =
    if str_eq r.transfer_id "" then (m, false) else elim (get m.outgoing r.transfer_id) [
      | none ↦ (m, false)
      | some t ↦ if is_some (get t.sending_targets r.target_session_id) then (m, false) else (
        change m r.transfer_id
            (λ u. record u { sending_targets = put u.sending_targets r.target_session_id true }),
        true,
      )
    ]

-- The deferred function.
unfoldable pub end_sending : TransferManager → String → String → TransferManager
end_sending m id target =
    change m id (λ t. record t { sending_targets = remove t.sending_targets target })

abbrev pub without_archive : OutgoingTransfer → OutgoingTransfer
without_archive t = record t {
  archive_mode = disk;
  archive_bytes = [];
  base_dir = [];
  archive_path = [];
  archive_sha256 = "";
  archive_size = 0;
  chunk_count = 0;
  cleanup_timer = none;
}

-- `scheduleOutgoingArchiveCleanup`: the timer that runs knows the generation it was started with.
unfoldable pub schedule_cleanup : TransferManager → String → TransferManager
schedule_cleanup m id =
    change m id
      (λ t. record t { cleanup_gen = t.cleanup_gen + 1; cleanup_timer = some (t.cleanup_gen + 1) })

-- The function of a timer, and the directory to remove.
unfoldable pub fire_cleanup : TransferManager → String → ℕ → TransferManager × Bytes
fire_cleanup m id gen = elim (get m.outgoing id) [
  | none ↦ (m, [])
  | some t ↦
      if not (t.cleanup_gen == gen)
      then (m, [])
      else (record m { outgoing = put m.outgoing id (without_archive t) }, t.base_dir)
]

abbrev pub has_targets : GoMap String Bool → Bool
has_targets [] = false
has_targets (x ∷ targets) = true

-- `releaseOutgoingArchive`, and the directory to remove.
unfoldable pub release_archive : TransferManager → String → TransferManager × Bytes
release_archive m id = elim (get m.outgoing id) [
  | none ↦ (m, [])
  | some t ↦ if has_targets t.sending_targets then (m, []) else (
    record m {
      outgoing = put m.outgoing id (without_archive (record t { cleanup_gen = t.cleanup_gen + 1 }));
    },
    t.base_dir,
  )
]

-- The message that ends a sending.
unfoldable pub complete_message : FileRequest → OutgoingTransfer → FileComplete
complete_message r t = record {
  transfer_id = r.transfer_id;
  target_session_id = r.target_session_id;
  archive_mode = mode_string t.archive_mode;
  archive_sha256 = t.archive_sha256;
  actual_total_bytes = pos t.archive_size;
}
