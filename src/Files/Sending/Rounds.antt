-- ===== src/Files/Sending/Rounds.antt =====
-- desktop/app/file_transfer.go: the rounds of the loop that calls an archive.
use clip_cascade_go_fork.Prelude.{
  ℕ, suc, ◌+◌, ◌*◌, ◌≤◌, ◌<◌, ◌≡◌, refl, Option, none, String, List, length, ok,
}
use clip_cascade_go_fork.Prelude.Int.{ℤ}
use clip_cascade_go_fork.Protocol.Text.{Text}
use clip_cascade_go_fork.Clipboard.Capture.{Bytes}
use clip_cascade_go_fork.Files.Transfer.{FileChunk, OutgoingTransfer}
use clip_cascade_go_fork.Files.Receiving.{Disk}
use clip_cascade_go_fork.Files.Sending.{
  SendCalls, chunk_size, SendError, archive_chunk_reader, send_from, send_archive_chunks,
}

-- A number of chunks that is as large as it must be for the bytes.
abbrev IsCount : ℕ → ℕ → Type 0
IsCount n size = (size ≤ n * chunk_size) × (n * chunk_size < size + chunk_size)

module _ (sha256 : Bytes → String) (encode : String → ℤ → Bytes → Option Text) (calls : SendCalls)
    (o : OutgoingTransfer) (target : String) where
  -- All is sent, in as many chunks as that.
  abbrev AllSent : ℕ → List FileChunk × Option SendError → Type 0
  AllSent size s = (s.1 ≡ none) × IsCount (length s.0) size

pub send_archive_chunks-send_from :
    (sha256 : Bytes → String) (encode : String → ℤ → Bytes → Option Text) (calls : SendCalls)
    (d : Disk) (o : OutgoingTransfer) (target : String) (resume_from : ℕ) (left : Bytes)
    → archive_chunk_reader d o resume_from ≡ ok left
    → send_archive_chunks sha256 encode calls d o target resume_from
      ≡ send_from sha256 encode calls (suc (length left)) o target resume_from left
unfolding send_archive_chunks
send_archive_chunks-send_from sha256 encode calls d o target resume_from left e =
    rw (e, send_archive_chunks) refl
