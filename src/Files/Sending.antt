-- ===== src/Files/Sending.antt =====
-- desktop/app/file_transfer.go: an archive cut into chunks and sent.
pub mod Chunks
pub mod Rounds
pub mod Arrival
pub mod Delivered
use clip_cascade_go_fork.Prelude.{
  ℕ, zero, suc, ◌≡◌, ◌+◌, ◌-◌, ◌*◌, ◌/◌, ◌%◌, Bool, true, false, not, ◌&&◌, ◌||◌, Option, none,
  some, String, List, [], ◌∷◌, ◌++◌, if◌then◌else◌, ltb, length, str_eq, ◌==◌, Result, ok, err,
}
use clip_cascade_go_fork.Prelude.Int.{ℤ, pos, negsuc}
use clip_cascade_go_fork.GoMap.{get}
use clip_cascade_go_fork.Protocol.Text.{Text, text_eq}
use clip_cascade_go_fork.Clipboard.Capture.{Bytes}
use clip_cascade_go_fork.Files.Paths.{take}
use clip_cascade_go_fork.Files.Transfer.{FileChunk, OutgoingTransfer, mode_string}
use clip_cascade_go_fork.Files.Receiving.{Disk, is_empty}

-- `fileTransferChunkSize`
abbrev pub chunk_size : ℕ
chunk_size = 1024 * 1024

-- `chunkCountForSize`, for a size that is not negative.
unfoldable pub chunk_count_for_size : ℕ → ℕ
chunk_count_for_size size =
    if size % chunk_size == 0 then size / chunk_size else size / chunk_size + 1

abbrev pub drop : ℕ → Bytes → Bytes
drop zero s = s
drop (suc n) [] = []
drop (suc n) (b ∷ s) = drop n s

pub data SendError : Type 0 where
  no_archive read_failed encode_failed not_sent : SendError

-- `archiveChunkReader`: what is left to read, from the first chunk to send on; past the end of the
-- archive there is nothing.
unfoldable pub archive_chunk_reader : Disk → OutgoingTransfer → ℕ → Result SendError Bytes
archive_chunk_reader d t resume_from =
    if not (is_empty t.archive_bytes)
    then ok (drop (resume_from * chunk_size) t.archive_bytes)
    else elim (get d t.archive_path) [
      | none ↦ err no_archive
      | some content ↦ ok (drop (resume_from * chunk_size) content)
    ]

-- Whether the read of the chunk with an index succeeds, and whether the message with a chunk is sent.
pub record SendCalls : Type 0 where
  pub reads : ℕ → Bool
  pub sends : FileChunk → Bool

-- Every read succeeds and every message is sent.
abbrev pub Sends : SendCalls → Type 0
Sends calls =
    ((index : ℕ) → calls.reads index ≡ true) × ((chunk : FileChunk) → calls.sends chunk ≡ true)

-- `encode` makes the data of a chunk: base64, or the cipher bound to the transfer and the index.
module _ (sha256 : Bytes → String) (encode : String → ℤ → Bytes → Option Text)
    (calls : SendCalls) where
  abbrev pub chunk_of : OutgoingTransfer → String → ℕ → Bytes → Text → FileChunk
  chunk_of t target index raw encoded = record {
    transfer_id = t.manifest.transfer_id;
    target_session_id = target;
    archive_mode = mode_string t.archive_mode;
    chunk_index = pos index;
    total_chunks = pos t.chunk_count;
    chunk_data = encoded;
    chunk_sha256 = sha256 raw;
  }

  -- A round of the loop of `sendArchiveChunks` that has read `raw`, and the rounds after it: a short
  -- read is the last one.
  abbrev pub send_chunk :
      FileChunk → Bool → List FileChunk × Option SendError → List FileChunk × Option SendError
  send_chunk chunk short rest =
      if not (calls.sends chunk)
      then ([], some not_sent)
      else if short
      then (chunk ∷ [], none)
      else (chunk ∷ rest.0, rest.1)

  unfoldable pub send_round :
      OutgoingTransfer
      → String
      → ℕ
      → Bytes
      → List FileChunk × Option SendError
      → List FileChunk × Option SendError
  send_round t target index raw rest =
      if not (calls.reads index)
      then ([], some read_failed)
      else if is_empty raw
      then ([], none)
      else elim (encode t.manifest.transfer_id (pos index) raw) [
        | none ↦ ([], some encode_failed)
        | some encoded ↦
            send_chunk (chunk_of t target index raw encoded) (ltb (length raw) chunk_size) rest
      ]

  -- The chunks that were sent, and the error.
  unfoldable pub send_from :
      ℕ → OutgoingTransfer → String → ℕ → Bytes → List FileChunk × Option SendError
  unfolding send_round
  send_from zero t target index left = ([], none)
  send_from (suc fuel) t target index left =
      send_round t target index (take chunk_size left)
        (send_from fuel t target (suc index) (drop chunk_size left))

  -- `sendArchiveChunks`; a round reads at least one byte, so there are no more rounds than bytes.
  unfoldable pub send_archive_chunks :
      Disk → OutgoingTransfer → String → ℕ → List FileChunk × Option SendError
  unfolding archive_chunk_reader send_from
  send_archive_chunks d t target resume_from = elim (archive_chunk_reader d t resume_from) [
    | err e ↦ ([], some e)
    | ok left ↦ send_from (suc (length left)) t target resume_from left
  ]
