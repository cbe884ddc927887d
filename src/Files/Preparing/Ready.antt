-- ===== src/Files/Preparing/Ready.antt =====
-- desktop/app/file_transfer.go: an archive that was built is the one that is sent.
use mathlib.Core.Path.{subst}
use clip_cascade_go_fork.Prelude.{
  ◌≡◌, ◌≢◌, refl, ap, ◌∙◌, false, not, ◌&&◌, Option, none, some, String, [], ◌∷◌, if_cases,
  match_cases, result_cases, ok, arith, length, is_some,
}
use clip_cascade_go_fork.Prelude.Int.{pos, ltb_ℤ}
use clip_cascade_go_fork.Protocol.Text.{text_eq}
use clip_cascade_go_fork.Clipboard.Capture.{Bytes}
use clip_cascade_go_fork.GoMap.{get, get-put_same}
use clip_cascade_go_fork.Files.Paths.{join}
use clip_cascade_go_fork.Files.Transfer.{OutgoingTransfer, transfer_payload_temp_name}
use clip_cascade_go_fork.Files.Receiving.{Disk, is_empty}
use clip_cascade_go_fork.Files.Sending.{archive_chunk_reader, chunk_count_for_size}
use clip_cascade_go_fork.Files.Preparing.{
  FileAnswer, complete, incomplete, Surroundings, can_use_memory_archive, stop_timer, Prepared,
  prepare_in_memory, build_file, prepare_on_disk, prepare_archive,
}

-- The transfer has an archive that can be read, and knows its hash, its size and its chunks.
abbrev pub IsReady : (Bytes → String) → Disk → OutgoingTransfer → Type 0
IsReady sha256 d t =
    (content : Bytes) × (archive_chunk_reader d t 0 ≡ ok content)
    × (t.archive_sha256 ≡ sha256 content)
    × (t.archive_size ≡ length content)
    × (t.chunk_count ≡ chunk_count_for_size (length content))

filled : (bytes : Bytes) → bytes ≢ [] → is_empty bytes ≡ false
filled [] n = absurd (n refl)
filled (b ∷ bytes) n = refl

module _ (sha256 : Bytes → String) where
  abbrev Succeeds : Prepared → Type 0
  Succeeds x = x.2 ≡ none → IsReady sha256 x.1 x.0

  incomplete_fails :
      (d : Disk) (t : OutgoingTransfer) (path : Bytes) (rest : Option Bytes) (message : String)
      → Succeeds (build_file sha256 d t path (incomplete rest message))
  incomplete_fails d t path none message = λ e. absurd (ground arith)
  incomplete_fails d t path (some content) message = λ e. absurd (ground arith)

  build_file-Succeeds :
      (d : Disk) (t : OutgoingTransfer) (path : Bytes) (answer : FileAnswer)
      → Succeeds (build_file sha256 d t path answer)
  unfolding archive_chunk_reader
  build_file-Succeeds d t path (complete content) =
      λ e. (content, rw (get-put_same d path content) refl, refl, refl, refl)
  build_file-Succeeds d t path (incomplete rest message) = incomplete_fails d t path rest message

  prepare_on_disk-Succeeds :
      (d : Disk) (t : OutgoingTransfer) (s : Surroundings) → Succeeds (prepare_on_disk sha256 d t s)
  unfolding prepare_on_disk
  prepare_on_disk-Succeeds d t s =
      if_cases Succeeds (is_empty t.base_dir)
        (λ q.
          result_cases Succeeds s.new_dir (λ message q e. absurd (ground arith))
            (λ dir q.
              build_file-Succeeds d (record t { base_dir = dir })
                (join dir (transfer_payload_temp_name t.manifest)) s.disk_file))
        (λ q.
          build_file-Succeeds d t (join t.base_dir (transfer_payload_temp_name t.manifest))
            s.disk_file)

  abbrev AllReady : Disk → Option OutgoingTransfer → Type 0
  AllReady d none = Unit
  AllReady d (some t) = IsReady sha256 d t

  in_memory_ready :
      (d : Disk) (t : OutgoingTransfer) (s : Surroundings)
      → s.memory_data ≢ ok []
      → AllReady d (prepare_in_memory sha256 t s)
  unfolding prepare_in_memory archive_chunk_reader
  in_memory_ready d t s n =
      result_cases (AllReady d) s.memory_data (λ message q. tt)
        (λ bytes q.
          if_cases (AllReady d) (ltb_ℤ s.threshold_bytes (pos (length bytes))) (λ z. tt)
            (λ z.
              (bytes, rw (filled bytes (λ e. n (q ∙ ap (λ b. ok b) e))) refl, refl, refl, refl)))

  -- A transfer without an archive whose preparation reports no error has one that can be sent: what the
  -- sender will read is the whole archive, and the hash, the size and the number of chunks that are
  -- announced are those of it, whether it was built in memory or on the disk. An empty archive is not
  -- built in memory.
  pub prepare_archive-IsReady :
      (d : Disk) (t : OutgoingTransfer) (s : Surroundings)
      → t.archive_bytes ≡ []
      → t.archive_path ≡ []
      → s.memory_data ≢ ok []
      → (prepare_archive sha256 d t s).2 ≡ none
      → IsReady sha256 (prepare_archive sha256 d t s).1 (prepare_archive sha256 d t s).0
  unfolding prepare_archive
  prepare_archive-IsReady d t s b p n =
      let on_disk = prepare_on_disk-Succeeds d (stop_timer t) s in
      let no_bytes = ap is_empty b in
      let no_path = ap is_empty p in
      if_cases Succeeds (not (is_empty t.archive_bytes)) (λ q. absurd (ground arith))
        (λ q.
          if_cases Succeeds (not (is_empty t.archive_path) && is_some (get d t.archive_path))
            (λ q. absurd (ground arith))
            (λ q.
              if_cases Succeeds (can_use_memory_archive s t.manifest.estimated_total_bytes)
                (λ q.
                  match_cases Succeeds (prepare_in_memory sha256 (stop_timer t) s) (λ z. on_disk)
                    (λ u z e. subst (AllReady d) z (in_memory_ready d (stop_timer t) s n)))
                (λ q. on_disk)))
