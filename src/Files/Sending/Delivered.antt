-- ===== src/Files/Sending/Delivered.antt =====
-- desktop/app/file_transfer.go: an archive that is sent arrives.
use mathlib.Core.Path.{subst}
use clip_cascade_go_fork.Prelude.{
  ℕ, suc, ◌≡◌, refl, ◌∙◌, true, false, Option, some, String, ◌++◌, ltb, arith, eq_iff, ok,
}
use clip_cascade_go_fork.Prelude.Int.{ℤ, pos}
use clip_cascade_go_fork.Protocol.Text.{Text}
use clip_cascade_go_fork.Clipboard.Capture.{Bytes}
use clip_cascade_go_fork.Files.Transfer.{
  FileChunk, ArchiveMode, unset, disk, memory, same_mode, normalize_archive_mode, mode_string,
  IncomingTransfer, OutgoingTransfer,
}
use clip_cascade_go_fork.Files.Receiving.{
  Disk, written, ChunkOutcome, stored, DiskAnswers, is_empty, receive_chunk,
}
use clip_cascade_go_fork.Files.Receiving.Stored.{Holds, Kept, normalize_archive_mode-set}
use clip_cascade_go_fork.Files.Receiving.Refined.{
  Archive, accept, accept_data, receive_chunk-accept,
}
use clip_cascade_go_fork.Files.Receiving.First.{Starts, HasDir, receive_chunk_first}
use clip_cascade_go_fork.Files.Sending.{
  SendCalls, Sends, archive_chunk_reader, chunk_of, send_archive_chunks,
}
use clip_cascade_go_fork.Prelude.{sym}
use clip_cascade_go_fork.Files.Sending.Arrival.{
  receive_all, Encodes, send_archive_chunks-Arrived, resumed-Arrived,
}

same_mode_refl : (m : ArchiveMode) → same_mode m m ≡ true
same_mode_refl unset = refl
same_mode_refl disk = refl
same_mode_refl memory = refl

some_text : (s t : Text) → some s ≡ some t → s ≡ t
some_text s t e = ground arith

-- The next chunk of an archive is accepted.
accept_next :
    (sha256 : Bytes → String) (decode : String → ℤ → Text → Option Bytes) (a : Archive)
    (chunk : FileChunk) (raw : Bytes)
    → decode chunk.transfer_id chunk.chunk_index chunk.chunk_data ≡ some raw
    → sha256 raw ≡ chunk.chunk_sha256
    → accept sha256 decode (normalize_archive_mode chunk.archive_mode) a (suc a.last) chunk
      ≡ (record { got = a.got ++ raw; last = suc a.last }, stored)
accept_next sha256 decode a chunk raw e h =
    let later : ltb (suc a.last) (suc a.last) ≡ false = ground arith in
    rw
      (
        later,
        same_mode_refl (normalize_archive_mode chunk.archive_mode),
        accept_data,
        e,
        (eq_iff (sha256 raw) chunk.chunk_sha256).1 h,
      )
      refl

module _ (sha256 : Bytes → String) (encode : String → ℤ → Bytes → Option Text) (calls : SendCalls)
    (decode : String → ℤ → Text → Option Bytes) (threshold : ℕ) (answers : DiskAnswers)
    (o : OutgoingTransfer) (target : String) where
  abbrev pub mode : ArchiveMode
  mode = normalize_archive_mode (mode_string o.archive_mode)

  -- Every chunk can be encoded, and its data is opened again.
  abbrev pub Opens : Type 0
  Opens =
      (i : ℕ) (raw : Bytes)
      → (data_text : Text) × (encode o.manifest.transfer_id (pos i) raw ≡ some data_text)
        × (decode o.manifest.transfer_id (pos i) data_text ≡ some raw)

  pub Opens-Encodes : Opens → Encodes encode o
  Opens-Encodes p = λ i raw. ((p i raw).0, (p i raw).1)

  pub opened :
      (i : ℕ) (raw : Bytes) (data_text : Text)
      → Opens
      → encode o.manifest.transfer_id (pos i) raw ≡ some data_text
      → decode o.manifest.transfer_id (pos i) data_text ≡ some raw
  opened i raw data_text p e =
      let q = p i raw in
      let same = some_text q.0 data_text (sym q.1 ∙ e) in
      subst (λ (s : Text). decode o.manifest.transfer_id (pos i) s ≡ some raw) same q.2

  pub next_stored :
      (t : IncomingTransfer) (d : Disk) (a : Archive) (raw : Bytes) (data_text : Text)
      → decode o.manifest.transfer_id (pos (suc a.last)) data_text ≡ some raw
      → answers.spill ≡ written
      → answers.append ≡ written
      → Holds mode a.got a.last t d
      → Kept mode (a.got ++ raw) (suc a.last) (
          receive_chunk sha256 decode threshold t d
            (chunk_of sha256 encode calls o target (suc a.last) raw data_text)
            answers)
  next_stored t d a raw data_text e w x h =
      let chunk = chunk_of sha256 encode calls o target (suc a.last) raw data_text in
      let r = receive_chunk sha256 decode threshold t d chunk answers in
      subst
        (λ (spec : Archive × ChunkOutcome).
          (r.2 ≡ spec.1) × Holds mode spec.0.got spec.0.last r.0 r.1)
        (accept_next sha256 decode a chunk raw e refl)
        (receive_chunk-accept sha256 decode threshold mode t d chunk answers a a.last
          (normalize_archive_mode-set (mode_string o.archive_mode)) refl w x h)

  -- The transfer and the disk after a chunk.
  abbrev pub take_chunk : IncomingTransfer × Disk → FileChunk → IncomingTransfer × Disk
  take_chunk s chunk =
      let r = receive_chunk sha256 decode threshold s.0 s.1 chunk answers in (r.0, r.1)

  abbrev pub HoldsAll : Bytes → ℕ → IncomingTransfer × Disk → Type 0
  HoldsAll got last s = Holds mode got last s.0 s.1

  abbrev pub Delivered : Bytes → IncomingTransfer × Disk → Type 0
  Delivered whole s = (last : ℕ) × Holds mode whole last s.0 s.1

  -- An archive that is not empty and is sent from its start arrives: a receiver that starts has then
  -- stored exactly its bytes, in memory or on the disk. The receiver has a temporary directory or gets
  -- one and its disk takes what is written, every read of the archive succeeds, every message is sent
  -- and arrives in its order, and the codec opens what it makes.
  pub archive-Delivered :
      (sender_disk : Disk) (content : Bytes) (t : IncomingTransfer) (d : Disk)
      → Opens
      → Sends calls
      → answers.spill ≡ written
      → answers.append ≡ written
      → archive_chunk_reader sender_disk o 0 ≡ ok content
      → is_empty content ≡ false
      → HasDir answers t
      → Starts t
      → Delivered content (
          receive_all take_chunk
            (t, d)
            (send_archive_chunks sha256 encode calls sender_disk o target 0).0)
  archive-Delivered sender_disk content t d p q w x e n dir st =
      send_archive_chunks-Arrived take_chunk HoldsAll sha256 encode calls o target sender_disk
        content (t, d) (Opens-Encodes p) q
        (λ raw data_text c.
          (receive_chunk_first sha256 decode threshold
            (chunk_of sha256 encode calls o target 0 raw data_text) answers raw refl w x
            (opened 0 raw data_text p c) refl t d dir st).1)
        (λ got last s raw data_text c h.
          (next_stored s.0 s.1 (record { got = got; last = last }) raw data_text
            (opened (suc last) raw data_text p c) w x h).1)
        e n

  -- A transfer that is resumed after the chunks that have arrived is completed: the receiver, which has
  -- the bytes before the chunk that the sender starts at, has then stored these bytes followed by all
  -- that the sender has from there on. The disk takes what is written, every read of the archive
  -- succeeds, every message is sent and arrives in its order, and the codec opens what it makes.
  pub resumed-Delivered :
      (sender_disk : Disk) (got left : Bytes) (last : ℕ) (t : IncomingTransfer) (d : Disk)
      → Opens
      → Sends calls
      → answers.spill ≡ written
      → answers.append ≡ written
      → archive_chunk_reader sender_disk o (suc last) ≡ ok left
      → Holds mode got last t d
      → Delivered (got ++ left) (
          receive_all take_chunk
            (t, d)
            (send_archive_chunks sha256 encode calls sender_disk o target (suc last)).0)
  resumed-Delivered sender_disk got left last t d p q w x e h =
      resumed-Arrived take_chunk HoldsAll sha256 encode calls o target sender_disk got left last
        (t, d) (Opens-Encodes p) q
        (λ got last s raw data_text c h.
          (next_stored s.0 s.1 (record { got = got; last = last }) raw data_text
            (opened (suc last) raw data_text p c) w x h).1)
        e h
