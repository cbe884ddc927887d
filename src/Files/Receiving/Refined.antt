-- ===== src/Files/Receiving/Refined.antt =====
-- desktop/app/file_transfer.go: what a receiver of chunks promises, and that `handleFileChunk` keeps
-- it wherever the archive is stored.
use clip_cascade_go_fork.Prelude.{
  ℕ, suc, ◌≡◌, ◌≢◌, refl, sym, false, not, ◌&&◌, Option, none, some, String, ◌++◌, if◌then◌else◌,
  ltb, str_eq, arith, if_cases, inl, inr, ◌∙◌, if_both, Option-cases,
}
use clip_cascade_go_fork.Prelude.Int.{ℤ, pos, ltb_ℤ, ◌+ℤ◌}
use clip_cascade_go_fork.Protocol.Text.{Text}
use clip_cascade_go_fork.Clipboard.Capture.{Bytes}
use clip_cascade_go_fork.Files.Transfer.{
  FileChunk, ArchiveMode, unset, disk, memory, same_mode, normalize_archive_mode, IncomingTransfer,
}
use clip_cascade_go_fork.Files.Receiving.{
  Disk, written, ChunkOutcome, stored, duplicate, refused, Received, DiskAnswers, is_zero_ℤ,
  receive_data, receive_in_dir, receive_chunk, mode_change, wrong_index, decode_failed,
  sha_mismatch, fill_modes, expected_index, default_mode,
}
use clip_cascade_go_fork.Files.Receiving.Stored.{
  Holds, StoredIn, StoredIn-Ready, store_chunk-Kept, ensured,
}

-- The abstract receiver: the bytes so far, and the index of the last chunk.
pub record Archive : Type 0 where
  pub got : Bytes
  pub last : ℕ

module _ (sha256 : Bytes → String) (decode : String → ℤ → Text → Option Bytes)
    (mode : ArchiveMode) where
  abbrev pub accept_data : Archive → ℕ → FileChunk → Archive × ChunkOutcome
  accept_data a i chunk = elim (decode chunk.transfer_id chunk.chunk_index chunk.chunk_data) [
    | none ↦ (a, refused decode_failed)
    | some raw ↦
        if not (str_eq (sha256 raw) chunk.chunk_sha256)
        then (a, refused sha_mismatch)
        else (record { got = a.got ++ raw; last = i }, stored)
  ]

  -- What becomes of a chunk with an index above 0: an earlier one is ignored, the next one is taken
  -- when its data has the hash, all else is refused.
  abbrev pub accept : Archive → ℕ → FileChunk → Archive × ChunkOutcome
  accept a i chunk =
      if ltb i (suc a.last)
      then (a, duplicate)
      else if not (same_mode mode (normalize_archive_mode chunk.archive_mode))
      then (a, refused mode_change)
      else if ltb (suc a.last) i
      then (a, refused wrong_index)
      else accept_data a i chunk

  abbrev pub Refines : Archive × ChunkOutcome → Received → Type 0
  Refines spec r = (r.2 ≡ spec.1) × Holds mode spec.0.got spec.0.last r.0 r.1

module _ (sha256 : Bytes → String) (decode : String → ℤ → Text → Option Bytes) (threshold : ℕ)
    (mode : ArchiveMode) where
  default_kept : (x m : ArchiveMode) → x ≢ unset → default_mode x m ≡ x
  default_kept unset m n = absurd (n refl)
  default_kept disk m n = refl
  default_kept memory m n = refl

  stored_set :
      (m : ArchiveMode) (t : IncomingTransfer) (d : Disk) (got : Bytes)
      → StoredIn m t d got
      → m ≢ unset
  stored_set unset t d got c = absurd c
  stored_set disk t d got c = λ e. ground arith
  stored_set memory t d got c = λ e. ground arith

  fill_modes_known :
      (t : IncomingTransfer) (d : Disk) (a : Archive) (m : ArchiveMode)
      → mode ≢ unset
      → Holds mode a.got a.last t d
      → Holds mode a.got a.last (fill_modes t m) d
  fill_modes_known t d a m n h = record {
    running = h.running;
    in_dir = h.in_dir;
    in_mode = default_kept t.archive_mode m (λ q. n (sym h.in_mode ∙ q)) ∙ h.in_mode;
    at = h.at;
    named =
        rw (default_kept t.storage_mode m (stored_set t.storage_mode t d a.got h.content)) h.named;
    content =
        rw
          (
            default_kept t.storage_mode m (stored_set t.storage_mode t d a.got h.content),
            default_kept t.archive_mode m (λ q. n (sym h.in_mode ∙ q)),
          )
          h.content;
  }

  expected_next :
      (t : IncomingTransfer) (i j : ℕ) (index : ℤ)
      → index ≡ pos (suc j)
      → t.last_chunk_idx ≡ pos i
      → expected_index t index ≡ pos (suc i)
  unfolding expected_index ◌+ℤ◌
  expected_next t i j index e h = rw (e, h) (ground arith)

  data-Refines :
      (t : IncomingTransfer) (d : Disk) (chunk : FileChunk) (answers : DiskAnswers) (a : Archive)
      (j : ℕ)
      → chunk.chunk_index ≡ pos (suc j)
      → answers.spill ≡ written
      → answers.append ≡ written
      → Holds mode a.got a.last t d
      → Refines sha256 decode mode
          (accept_data sha256 decode mode a (suc j) chunk)
          (receive_data sha256 decode threshold t d chunk answers)
  unfolding receive_data
  data-Refines t d chunk answers a j e w x h =
      elim (Option-cases (decode chunk.transfer_id chunk.chunk_index chunk.chunk_data)) [
        | inl q ↦ rw (q, receive_data, accept_data) (refl, h)
        | inr (raw, q) ↦
            rw (q, receive_data, accept_data)
              (if_both (Refines sha256 decode mode)
                {b = not (str_eq (sha256 raw) chunk.chunk_sha256)} refl (λ n. (refl, h))
                (λ n.
                  store_chunk-Kept chunk raw a.got mode (suc j) threshold d answers t e w x
                    h.running h.in_dir h.in_mode h.named
                    (StoredIn-Ready t.storage_mode t d a.got h.content)))
      ]

  in_dir-Refines :
      (t : IncomingTransfer) (d : Disk) (chunk : FileChunk) (answers : DiskAnswers) (a : Archive)
      (j : ℕ)
      → chunk.chunk_index ≡ pos (suc j)
      → answers.spill ≡ written
      → answers.append ≡ written
      → Holds mode a.got a.last t d
      → Refines sha256 decode mode
          (accept sha256 decode mode a (suc j) chunk)
          (receive_in_dir sha256 decode threshold t d chunk answers)
  unfolding receive_in_dir
  in_dir-Refines t d chunk answers a j e w x h =
      let m = normalize_archive_mode chunk.archive_mode in
      let expected = expected_next t a.last j chunk.chunk_index e h.at in
      let later : is_zero_ℤ chunk.chunk_index ≡ false = rw e refl in
      let R = Refines sha256 decode mode in
      let earlier : ltb (suc j) (suc a.last)
          ≡ ltb_ℤ chunk.chunk_index (expected_index t chunk.chunk_index) =
        rw (expected, e) (ground arith) in
      let skipped : ltb (suc a.last) (suc j)
          ≡ ltb_ℤ (expected_index t chunk.chunk_index) chunk.chunk_index =
        rw (expected, e) (ground arith) in
      let changed : not (same_mode mode m)
          ≡ (not (same_mode t.archive_mode m) && not (is_zero_ℤ chunk.chunk_index)) =
        rw (h.in_mode, later) (ground arith) in
      if_both R earlier (λ q. (refl, h))
        (λ q.
          if_both R changed (λ q. (refl, h))
            (λ q.
              if_both R skipped (λ q. rw later (refl, h))
                (λ q. rw later (data-Refines t d chunk answers a j e w x h))))

  -- On a transfer that has received the chunks of an archive up to some index, `handleFileChunk` does
  -- with each chunk of an index above 0 what the abstract receiver does with it, whether the archive is
  -- in memory, on the disk, or is moved from memory to the disk by this chunk: the outcome is the same,
  -- and the stored bytes and the last index are those of the abstract receiver. The disk takes what is
  -- written.
  pub receive_chunk-accept :
      (t : IncomingTransfer) (d : Disk) (chunk : FileChunk) (answers : DiskAnswers) (a : Archive)
      (j : ℕ)
      → mode ≢ unset
      → chunk.chunk_index ≡ pos (suc j)
      → answers.spill ≡ written
      → answers.append ≡ written
      → Holds mode a.got a.last t d
      → Refines sha256 decode mode
          (accept sha256 decode mode a (suc j) chunk)
          (receive_chunk sha256 decode threshold t d chunk answers)
  unfolding receive_chunk
  receive_chunk-accept t d chunk answers a j n e w x h =
      let m = normalize_archive_mode chunk.archive_mode in
      if_cases (Refines sha256 decode mode (accept sha256 decode mode a (suc j) chunk)) t.completed
        (λ q. absurd (ground (arith, h.running)))
        (λ q. rw (ensured t m answers.new_dir h.in_dir) (
          in_dir-Refines (fill_modes t m) d chunk answers a j e w x (fill_modes_known t d a m n h)))
