-- ===== src/Files/Outgoing/Cleanup.antt =====
-- desktop/app/file_transfer.go: when an archive is removed.
use clip_cascade_go_fork.Prelude.{
  ℕ, ◌+◌, ◌≤◌, ◌≡◌, refl, sym, ◌∙◌, ap, true, false, not, ◌&&◌, Option, none, some, String, [],
  is_some, ◌==◌, arith, if_cases, match_cases, result_cases, ok, err,
}
use clip_cascade_go_fork.Prelude.Eq.{string_eq}
use clip_cascade_go_fork.Protocol.Text.{text_eq}
use clip_cascade_go_fork.Clipboard.Capture.{Bytes}
use clip_cascade_go_fork.GoMap.{get-put_same, get, put}
use clip_cascade_go_fork.Files.Transfer.{OutgoingTransfer, TransferManager}
use clip_cascade_go_fork.Files.Receiving.{Disk, is_empty}
use clip_cascade_go_fork.Files.Sending.{archive_chunk_reader, no_archive}
use clip_cascade_go_fork.Prelude.{length}
use clip_cascade_go_fork.Prelude.Int.{pos, ltb_ℤ}
use clip_cascade_go_fork.Files.Paths.{join}
use clip_cascade_go_fork.Files.Transfer.{transfer_payload_temp_name}
use clip_cascade_go_fork.Files.Preparing.{
  Surroundings, FileAnswer, complete, incomplete, Prepared, stop_timer, build_file, prepare_on_disk,
  prepare_in_memory, prepare_archive, can_use_memory_archive,
}
use clip_cascade_go_fork.Files.Outgoing.{fire_cleanup}

-- A timer whose generation is over does nothing.
fire_stale :
    (m : TransferManager) (id : String) (gen : ℕ) (t : OutgoingTransfer)
    → get m.outgoing id ≡ some t
    → (t.cleanup_gen == gen) ≡ false
    → fire_cleanup m id gen ≡ (m, [])
unfolding fire_cleanup
fire_stale m id gen t e n = rw (fire_cleanup, e, n) refl

incomplete_gen :
    (sha256 : Bytes → String) (d : Disk) (t : OutgoingTransfer) (path : Bytes) (message : String)
    (rest : Option Bytes)
    → (build_file sha256 d t path (incomplete rest message)).0.cleanup_gen ≡ t.cleanup_gen
incomplete_gen sha256 d t path message none = refl
incomplete_gen sha256 d t path message (some content) = refl

built_gen :
    (sha256 : Bytes → String) (d : Disk) (t : OutgoingTransfer) (path : Bytes) (answer : FileAnswer)
    → (build_file sha256 d t path answer).0.cleanup_gen ≡ t.cleanup_gen
built_gen sha256 d t path (complete content) = refl
built_gen sha256 d t path (incomplete rest message) = incomplete_gen sha256 d t path message rest

prepare_on_disk_gen :
    (sha256 : Bytes → String) (d : Disk) (t : OutgoingTransfer) (s : Surroundings)
    → (prepare_on_disk sha256 d t s).0.cleanup_gen ≡ t.cleanup_gen
unfolding prepare_on_disk
prepare_on_disk_gen sha256 d t s =
    let P = λ (x : Prepared). x.0.cleanup_gen ≡ t.cleanup_gen in
    if_cases P (is_empty t.base_dir)
      (λ q.
        result_cases P s.new_dir (λ message q. refl)
          (λ dir q.
            built_gen sha256 d (record t { base_dir = dir })
              (join dir (transfer_payload_temp_name t.manifest)) s.disk_file))
      (λ q.
        built_gen sha256 d t (join t.base_dir (transfer_payload_temp_name t.manifest)) s.disk_file)

-- The generation of a transfer that was prepared, or else `gen`.
abbrev gen_or : ℕ → Option OutgoingTransfer → ℕ
gen_or gen none = gen
gen_or gen (some t) = t.cleanup_gen

prepare_in_memory_gen :
    (sha256 : Bytes → String) (t : OutgoingTransfer) (s : Surroundings)
    → gen_or t.cleanup_gen (prepare_in_memory sha256 t s) ≡ t.cleanup_gen
unfolding prepare_in_memory
prepare_in_memory_gen sha256 t s =
    let P = λ (x : Option OutgoingTransfer). gen_or t.cleanup_gen x ≡ t.cleanup_gen in
    result_cases P s.memory_data (λ message q. refl)
      (λ bytes q. if_cases P (ltb_ℤ s.threshold_bytes (pos (length bytes))) (λ q. refl) (λ q. refl))

prepared_gen :
    (sha256 : Bytes → String) (d : Disk) (t : OutgoingTransfer) (s : Surroundings)
    → (prepare_archive sha256 d t s).0.cleanup_gen ≡ t.cleanup_gen + 1
unfolding prepare_archive
prepared_gen sha256 d t s =
    let P = λ (x : Prepared). x.0.cleanup_gen ≡ t.cleanup_gen + 1 in
    if_cases P (not (is_empty t.archive_bytes)) (λ q. refl)
      (λ q.
        if_cases P (not (is_empty t.archive_path) && is_some (get d t.archive_path)) (λ q. refl)
          (λ q.
            if_cases P (can_use_memory_archive s t.manifest.estimated_total_bytes)
              (λ q.
                match_cases P (prepare_in_memory sha256 (stop_timer t) s)
                  (λ q. prepare_on_disk_gen sha256 d (stop_timer t) s)
                  (λ p q.
                    sym (ap (gen_or (t.cleanup_gen + 1)) q)
                    ∙ prepare_in_memory_gen sha256 (stop_timer t) s))
              (λ q. prepare_on_disk_gen sha256 d (stop_timer t) s)))

-- After an archive is prepared for a sending, no cleanup that was scheduled before removes it: a timer
-- that was started in a generation up to the one before the preparation does nothing.
pub prepared_kept :
    (sha256 : Bytes → String) (m : TransferManager) (id : String) (d : Disk) (t : OutgoingTransfer)
    (s : Surroundings) (gen : ℕ)
    → gen ≤ t.cleanup_gen
    → let prepared = record m { outgoing = put m.outgoing id (prepare_archive sha256 d t s).0 } in
      fire_cleanup prepared id gen ≡ (prepared, [])
prepared_kept sha256 m id d t s gen h =
    let p = (prepare_archive sha256 d t s).0 in
    let counted = prepared_gen sha256 d t s in
    fire_stale (record m { outgoing = put m.outgoing id p }) id gen p (get-put_same m.outgoing id p)
      (ground arith)

-- An empty archive that is built in memory cannot be sent: the preparation reports no error, but the
-- reader takes the archive for one on the disk, and there is no file of the empty name.
pub empty_in_memory_fails :
    (sha256 : Bytes → String) (d : Disk) (t : OutgoingTransfer) (s : Surroundings) (resume_from : ℕ)
    → t.archive_bytes ≡ []
    → t.archive_path ≡ []
    → can_use_memory_archive s t.manifest.estimated_total_bytes ≡ true
    → s.memory_data ≡ ok []
    → ltb_ℤ s.threshold_bytes (pos 0) ≡ false
    → get d [] ≡ none
    → ((prepare_archive sha256 d t s).2 ≡ none)
      × (archive_chunk_reader d (prepare_archive sha256 d t s).0 resume_from ≡ err no_archive)
unfolding archive_chunk_reader prepare_archive prepare_in_memory
empty_in_memory_fails sha256 d t s resume_from b p c empty l n =
    rw (b, p, c, empty, l) (refl, rw n refl)
