-- ===== src/Files/Preparing.antt =====
-- desktop/app/file_transfer.go: the archive of a transfer is built before its chunks are sent.
pub mod Ready
use clip_cascade_go_fork.Prelude.{
  ℕ, ◌+◌, Bool, true, false, not, ◌&&◌, Option, none, some, String, [], if◌then◌else◌, Result, ok,
  err, is_some, length, ◌==◌,
}
use clip_cascade_go_fork.Prelude.Int.{ℤ, pos, ltb_ℤ}
use clip_cascade_go_fork.Protocol.Text.{text_eq}
use clip_cascade_go_fork.Clipboard.Capture.{Bytes}
use clip_cascade_go_fork.GoMap.{get, put}
use clip_cascade_go_fork.Files.Paths.{join}
use clip_cascade_go_fork.Files.Transfer.{disk, memory, OutgoingTransfer, transfer_payload_temp_name}
use clip_cascade_go_fork.Files.Receiving.{Disk, is_empty}
use clip_cascade_go_fork.Files.Sending.{chunk_count_for_size}

-- `hasReusableOutgoingArchive`
unfoldable pub has_reusable_archive : Disk → OutgoingTransfer → Bool
has_reusable_archive d t =
    if not (is_empty t.archive_bytes)
    then true
    else if is_empty t.archive_path
    then false
    else is_some (get d t.archive_path)

-- A file that was to be built: its content, or what there is of it and the error.
pub data FileAnswer : Type 0 where
  complete : Bytes → FileAnswer
  incomplete : Option Bytes → String → FileAnswer

-- What the building depends on: the peers that are ready, the threshold of the configuration, and
-- what the file system gives. The archive is the single source itself, or a zip file of all of them.
pub record Surroundings : Type 0 where
  pub ready_peers : ℕ
  pub threshold_bytes : ℤ
  pub memory_data : Result String Bytes
  pub new_dir : Result String Bytes
  pub disk_file : FileAnswer

-- `canUseMemoryArchive`
unfoldable pub can_use_memory_archive : Surroundings → ℤ → Bool
can_use_memory_archive s estimated_bytes =
    if s.ready_peers == 0 then false else not (ltb_ℤ s.threshold_bytes estimated_bytes)

abbrev pub stop_timer : OutgoingTransfer → OutgoingTransfer
stop_timer t = record t { cleanup_timer = none; cleanup_gen = t.cleanup_gen + 1 }

abbrev pub Prepared : Type 0
Prepared = OutgoingTransfer × Disk × Option String

module _ (sha256 : Bytes → String) where
  -- `prepareOutgoingArchiveInMemory`: nothing is changed where it fails.
  unfoldable pub prepare_in_memory : OutgoingTransfer → Surroundings → Option OutgoingTransfer
  prepare_in_memory t s = elim s.memory_data [
    | err message ↦ none
    | ok data_bytes ↦
        if ltb_ℤ s.threshold_bytes (pos (length data_bytes))
        then none
        else some (record t {
          archive_mode = memory;
          archive_bytes = data_bytes;
          base_dir = [];
          archive_path = [];
          archive_sha256 = sha256 data_bytes;
          archive_size = length data_bytes;
          chunk_count = chunk_count_for_size (length data_bytes);
        })
  ]

  abbrev pub build_file : Disk → OutgoingTransfer → Bytes → FileAnswer → Prepared
  build_file d t path (complete content) = (
    record t {
      archive_mode = disk;
      archive_bytes = [];
      archive_path = path;
      archive_sha256 = sha256 content;
      archive_size = length content;
      chunk_count = chunk_count_for_size (length content);
    },
    put d path content,
    none,
  )
  build_file d t path (incomplete none message) = (t, d, some message)
  build_file d t path (incomplete (some content) message) = (t, put d path content, some message)

  abbrev pub build_in_dir : Disk → OutgoingTransfer → FileAnswer → Prepared
  build_in_dir d t answer =
      build_file d t (join t.base_dir (transfer_payload_temp_name t.manifest)) answer

  -- `prepareOutgoingArchiveOnDisk`
  unfoldable pub prepare_on_disk : Disk → OutgoingTransfer → Surroundings → Prepared
  prepare_on_disk d t s =
      if is_empty t.base_dir
      then elim s.new_dir [
        | err message ↦ (t, d, some message)
        | ok dir ↦ build_in_dir d (record t { base_dir = dir }) s.disk_file
      ]
      else build_in_dir d t s.disk_file

  -- `prepareOutgoingArchive`. It runs under the `prepareMu` of the transfer, not under the lock of the
  -- manager, and is taken without a cleanup or a release of the transfer in between.
  unfoldable pub prepare_archive : Disk → OutgoingTransfer → Surroundings → Prepared
  unfolding can_use_memory_archive prepare_in_memory prepare_on_disk
  prepare_archive d t s =
      let stopped = stop_timer t in
      if not (is_empty t.archive_bytes)
      then (record stopped { archive_mode = memory }, d, none)
      else if not (is_empty t.archive_path) && is_some (get d t.archive_path)
      then (record stopped { archive_mode = disk }, d, none)
      else if can_use_memory_archive s t.manifest.estimated_total_bytes
      then elim (prepare_in_memory stopped s) [
        | some prepared ↦ (prepared, d, none)
        | none ↦ prepare_on_disk d stopped s
      ]
      else prepare_on_disk d stopped s
