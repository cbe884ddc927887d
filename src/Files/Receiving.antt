-- ===== src/Files/Receiving.antt =====
-- desktop/app/file_transfer.go: the chunks of an archive as they come in.
pub mod Named
pub mod Stored
pub mod Refined
pub mod First
use clip_cascade_go_fork.Prelude.{
  ℕ, zero, suc, ◌+◌, Bool, true, false, not, ◌&&◌, ◌||◌, Option, none, some, String, List, [], ◌∷◌,
  ◌++◌, if◌then◌else◌, ltb, length, str_eq, ◌==◌,
}
use clip_cascade_go_fork.Prelude.Int.{ℤ, pos, negsuc, ltb_ℤ, ◌+ℤ◌}
use clip_cascade_go_fork.GoMap.{GoMap, get, put, remove}
use clip_cascade_go_fork.Protocol.Text.{Text, codes, text_eq}
use clip_cascade_go_fork.Clipboard.Capture.{Bytes}
use clip_cascade_go_fork.Files.Paths.{join}
use clip_cascade_go_fork.Files.Transfer.{
  FileChunk, ArchiveMode, unset, disk, memory, same_mode, normalize_archive_mode, IncomingTransfer,
  transfer_payload_temp_name,
}

abbrev pub is_zero_ℤ : ℤ → Bool
is_zero_ℤ (pos zero) = true
is_zero_ℤ (pos (suc n)) = false
is_zero_ℤ (negsuc n) = false

-- The files, by their paths.
abbrev pub Disk : Type 0
Disk = GoMap Bytes Bytes

abbrev pub file_content : Disk → Bytes → Bytes
file_content d path = elim (get d path) [ none ↦ [] | some content ↦ content ]

-- What the file system answers to the opening of a file and the write to it: it is written, or it
-- cannot be opened, or the write fails and leaves some content.
pub data WriteAnswer : Type 0 where
  written : WriteAnswer
  not_opened : WriteAnswer
  broken : Bytes → WriteAnswer

-- `writeArchiveBytesToDisk`: the disk, and whether it went well.
unfoldable pub write_archive_bytes : Disk → Bytes → Bytes → Bool → WriteAnswer → Disk × Bool
write_archive_bytes d path bytes truncate written =
    (put d path ((if truncate then [] else file_content d path) ++ bytes), true)
write_archive_bytes d path bytes truncate not_opened = (d, false)
write_archive_bytes d path bytes truncate (broken content) = (put d path content, false)

pub data ChunkError : Type 0 where
  no_temp_dir mode_change wrong_index decode_failed sha_mismatch write_failed : ChunkError

pub data ChunkOutcome : Type 0 where
  stored duplicate : ChunkOutcome
  refused : ChunkError → ChunkOutcome

-- The transfer, the disk and the outcome; the transfer is changed in place, also where the chunk is
-- refused.
abbrev pub Received : Type 0
Received = IncomingTransfer × Disk × ChunkOutcome

-- What the file system answers while a chunk is received.
pub record DiskAnswers : Type 0 where
  pub new_dir : Option Bytes
  pub spill : WriteAnswer
  pub append : WriteAnswer

abbrev pub is_empty : Bytes → Bool
is_empty [] = true
is_empty (b ∷ s) = false

abbrev pub payload_path : IncomingTransfer → Bytes → Bytes
payload_path t base_dir = join base_dir (transfer_payload_temp_name t.manifest)

-- The temporary directory of a transfer that has none yet.
unfoldable pub ensure_base_dir :
    IncomingTransfer → ArchiveMode → Option Bytes → Option IncomingTransfer
ensure_base_dir t mode new_dir =
    let in_dir = λ (dir : Bytes). record t {
      base_dir = dir;
      extract_dir = join dir (codes "extracted");
      archive_mode = mode;
      storage_mode = mode;
      archive_path = if same_mode mode disk then payload_path t dir else t.archive_path;
    } in
    if is_empty t.base_dir
    then (elim new_dir [ none ↦ none | some dir ↦ some (in_dir dir) ])
    else some t

abbrev pub default_mode : ArchiveMode → ArchiveMode → ArchiveMode
default_mode unset mode = mode
default_mode m mode = m

abbrev pub fill_modes : IncomingTransfer → ArchiveMode → IncomingTransfer
fill_modes t mode = record t {
  archive_mode = default_mode t.archive_mode mode;
  storage_mode = default_mode t.storage_mode mode;
}

unfoldable pub expected_index : IncomingTransfer → ℤ → ℤ
unfolding ◌+ℤ◌
expected_index t index =
    if is_zero_ℤ index && ltb_ℤ (pos 0) t.requested_resume_from
    then pos 0
    else t.last_chunk_idx +ℤ pos 1

-- Chunk 0 starts the archive again.
unfoldable pub restart : IncomingTransfer → Disk → ArchiveMode → IncomingTransfer × Disk
restart t d mode =
    let fresh = record t {
      archive_mode = mode;
      storage_mode = mode;
      last_chunk_idx = negsuc 0;
      total_chunks = pos 0;
      archive_bytes = [];
    } in
    if is_empty t.archive_path && same_mode mode disk
    then (record fresh { archive_path = payload_path t t.base_dir }, d)
    else if same_mode mode memory && not (is_empty t.archive_path)
    then (fresh, remove d t.archive_path)
    else (fresh, d)

abbrev pub advance : IncomingTransfer → FileChunk → IncomingTransfer
advance t chunk = record t {
  last_chunk_idx = chunk.chunk_index;
  total_chunks = chunk.total_chunks;
  requested_resume_from = pos 0;
}

abbrev pub after_write : IncomingTransfer → FileChunk → Disk × Bool → Received
after_write t chunk (d, true) = (advance t chunk, d, stored)
after_write t chunk (d, false) = (t, d, refused write_failed)

abbrev pub with_payload_path : IncomingTransfer → IncomingTransfer
with_payload_path t =
    if is_empty t.archive_path then record t { archive_path = payload_path t t.base_dir } else t

-- An archive in memory that becomes too large goes to the disk.
unfoldable pub spill_to_disk : IncomingTransfer → Disk → FileChunk → Bytes → DiskAnswers → Received
unfolding write_archive_bytes
spill_to_disk t d chunk raw answers =
    let named = with_payload_path t in
    let spilled = write_archive_bytes d named.archive_path named.archive_bytes true answers.spill in
    let moved = record named { archive_bytes = []; storage_mode = disk } in
    if spilled.1
    then after_write moved chunk
        (write_archive_bytes spilled.0 moved.archive_path raw false answers.append)
    else (named, spilled.0, refused write_failed)

-- A chunk is stored where the transfer is stored.
abbrev pub store_in :
    ArchiveMode → ℕ → IncomingTransfer → Disk → FileChunk → Bytes → DiskAnswers → Received
store_in memory threshold t d chunk raw answers =
    let whole = t.archive_bytes ++ raw in
    if not (ltb threshold (length whole))
    then (advance (record t { archive_bytes = whole }) chunk, d, stored)
    else spill_to_disk t d chunk raw answers
store_in _ threshold t d chunk raw answers =
    after_write t chunk
      (write_archive_bytes d t.archive_path raw (is_zero_ℤ chunk.chunk_index) answers.append)

unfoldable pub store_chunk :
    ℕ → IncomingTransfer → Disk → FileChunk → Bytes → DiskAnswers → Received
unfolding spill_to_disk write_archive_bytes
store_chunk threshold t d chunk raw answers =
    store_in t.storage_mode threshold t d chunk raw answers

-- `decode` opens the data of a chunk: base64, or the cipher bound to the transfer and the index.
module _ (sha256 : Bytes → String) (decode : String → ℤ → Text → Option Bytes) (threshold : ℕ) where
  -- A chunk that is the expected one.
  unfoldable pub receive_data : IncomingTransfer → Disk → FileChunk → DiskAnswers → Received
  unfolding store_chunk
  receive_data t d chunk answers =
      elim (decode chunk.transfer_id chunk.chunk_index chunk.chunk_data) [
        | none ↦ (t, d, refused decode_failed)
        | some raw ↦
            if not (str_eq (sha256 raw) chunk.chunk_sha256)
            then (t, d, refused sha_mismatch)
            else store_chunk threshold t d chunk raw answers
      ]

  unfoldable pub receive_in_dir : IncomingTransfer → Disk → FileChunk → DiskAnswers → Received
  unfolding expected_index restart receive_data
  receive_in_dir t d chunk answers =
      let mode = normalize_archive_mode chunk.archive_mode in
      let expected = expected_index t chunk.chunk_index in
      let begun = if is_zero_ℤ chunk.chunk_index then restart t d mode else (t, d) in
      if ltb_ℤ chunk.chunk_index expected
      then (t, d, duplicate)
      else if not (same_mode t.archive_mode mode) && not (is_zero_ℤ chunk.chunk_index)
      then (t, d, refused mode_change)
      else if ltb_ℤ expected chunk.chunk_index
      then (begun.0, begun.1, refused wrong_index)
      else receive_data begun.0 begun.1 chunk answers

  -- The function that `handleFileChunk` applies to the transfer.
  unfoldable pub receive_chunk : IncomingTransfer → Disk → FileChunk → DiskAnswers → Received
  unfolding ensure_base_dir receive_in_dir
  receive_chunk t d chunk answers =
      let mode = normalize_archive_mode chunk.archive_mode in
      if t.completed then (t, d, duplicate) else elim (ensure_base_dir t mode answers.new_dir) [
        | none ↦ (t, d, refused no_temp_dir)
        | some u ↦ receive_in_dir (fill_modes u mode) d chunk answers
      ]
