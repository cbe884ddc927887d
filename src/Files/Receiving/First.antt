-- ===== src/Files/Receiving/First.antt =====
-- desktop/app/file_transfer.go: the first chunk of an archive.
use clip_cascade_go_fork.Prelude.{
  ℕ, ◌≡◌, ◌≢◌, refl, ◌∙◌, Bool, true, false, not, ◌&&◌, ◌||◌, Option, none, some, String, [],
  str_eq, arith, if_cases, inl, inr, ◌⊎◌, eq_iff,
}
use clip_cascade_go_fork.Prelude.Int.{ℤ, pos, negsuc, ltb_ℤ, ◌+ℤ◌}
use clip_cascade_go_fork.Protocol.Text.{Text}
use clip_cascade_go_fork.Clipboard.Capture.{Bytes}
use clip_cascade_go_fork.Files.Transfer.{
  FileChunk, ArchiveMode, unset, disk, memory, same_mode, normalize_archive_mode, IncomingTransfer,
}
use clip_cascade_go_fork.Files.Receiving.{
  Disk, written, refused, DiskAnswers, is_empty, is_zero_ℤ, receive_data, receive_in_dir,
  receive_chunk, restart, ensure_base_dir, fill_modes, expected_index, no_temp_dir,
}
use clip_cascade_go_fork.Files.Receiving.Named.{payload_path_filled}
use clip_cascade_go_fork.Files.Receiving.Stored.{
  Kept, Ready, IsNamed, store_chunk-Kept, ensured, ensured_new, normalize_archive_mode-set,
}

-- A transfer that takes an archive from its start: nothing was received yet, or a resumed one was
-- asked for, which the sender may answer with chunk 0.
abbrev pub Starts : IncomingTransfer → Type 0
Starts t =
    ((t.completed || t.completing) ≡ false)
    × ((t.last_chunk_idx ≡ negsuc 0) ⊎ (ltb_ℤ (pos 0) t.requested_resume_from ≡ true))

-- Where the temporary directory is, or will be.
abbrev pub HasDir : DiskAnswers → IncomingTransfer → Type 0
HasDir answers t =
    (is_empty t.base_dir ≡ false)
    ⊎ (is_empty t.base_dir ≡ true)
      × ((dir : Bytes) × (answers.new_dir ≡ some dir) × (is_empty dir ≡ false))

empty-Ready :
    (m : ArchiveMode) (t : IncomingTransfer) (d : Disk)
    → m ≢ unset
    → t.archive_bytes ≡ []
    → Ready true m t d []
empty-Ready unset t d n e = absurd (n refl)
empty-Ready disk t d n e = (e, refl)
empty-Ready memory t d n e = e

and_false : (b : Bool) → (b && false) ≡ false
and_false b = ground arith

-- After `restart` nothing of the archive is left.
abbrev Restarted : ArchiveMode → IncomingTransfer × Disk → Type 0
Restarted mode r =
    (r.0.archive_mode ≡ mode)
    × Ready true r.0.storage_mode r.0 r.1 []
    × IsNamed r.0.storage_mode r.0

restart-Restarted :
    (t : IncomingTransfer) (d : Disk) (mode : ArchiveMode)
    → mode ≢ unset
    → Restarted mode (restart t d mode)
unfolding restart
restart-Restarted t d mode n =
    if_cases (Restarted mode) (is_empty t.archive_path && same_mode mode disk)
      (λ q. (
        refl,
        empty-Ready mode _ _ n refl,
        rw (payload_path_filled t t.base_dir) (and_false (same_mode mode disk)),
      ))
      (λ q.
        if_cases (Restarted mode) (same_mode mode memory && not (is_empty t.archive_path))
          (λ p. (refl, empty-Ready mode _ _ n refl, ground (arith, q)))
          (λ p. (refl, empty-Ready mode _ _ n refl, ground (arith, q))))

-- It keeps the rest.
abbrev Same : IncomingTransfer → IncomingTransfer × Disk → Type 0
Same t r =
    ((r.0.completed || r.0.completing) ≡ (t.completed || t.completing))
    × (r.0.base_dir ≡ t.base_dir)

restart-Same : (t : IncomingTransfer) (d : Disk) (mode : ArchiveMode) → Same t (restart t d mode)
unfolding restart
restart-Same t d mode =
    if_cases (Same t) (is_empty t.archive_path && same_mode mode disk) (λ q. (refl, refl))
      (λ q.
        if_cases (Same t) (same_mode mode memory && not (is_empty t.archive_path))
          (λ q. (refl, refl)) (λ q. (refl, refl)))

expected_first :
    (t : IncomingTransfer) (index : ℤ) → index ≡ pos 0 → Starts t → expected_index t index ≡ pos 0
unfolding expected_index ◌+ℤ◌
expected_first t index e (o, inl h) = rw (e, h) (ground arith)
expected_first t index e (o, inr h) = rw (e, h) (ground arith)

module _ (sha256 : Bytes → String) (decode : String → ℤ → Text → Option Bytes) (threshold : ℕ)
    (chunk : FileChunk) (answers : DiskAnswers) (raw : Bytes) (e : chunk.chunk_index ≡ pos 0)
    (w : answers.spill ≡ written) (x : answers.append ≡ written)
    (opens : decode chunk.transfer_id chunk.chunk_index chunk.chunk_data ≡ some raw)
    (hash : sha256 raw ≡ chunk.chunk_sha256) where
  abbrev pub chunk_mode : ArchiveMode
  chunk_mode = normalize_archive_mode chunk.archive_mode

  data-Kept :
      (t : IncomingTransfer) (d : Disk)
      → (t.completed || t.completing) ≡ false
      → is_empty t.base_dir ≡ false
      → Restarted chunk_mode (t, d)
      → Kept chunk_mode raw 0 (receive_data sha256 decode threshold t d chunk answers)
  unfolding receive_data
  data-Kept t d o k r =
      rw (opens, receive_data)
        (if_cases (Kept chunk_mode raw 0) (not (str_eq (sha256 raw) chunk.chunk_sha256))
          (λ q. absurd (ground (arith, eq_iff (sha256 raw) chunk.chunk_sha256, hash)))
          (λ q.
            store_chunk-Kept chunk raw [] chunk_mode 0 threshold d answers t e w x o k r.0 r.2 r.1))

  in_dir-Kept :
      (t : IncomingTransfer) (d : Disk)
      → is_empty t.base_dir ≡ false
      → Starts t
      → Kept chunk_mode raw 0 (receive_in_dir sha256 decode threshold t d chunk answers)
  unfolding receive_in_dir
  in_dir-Kept t d k h =
      let first : is_zero_ℤ chunk.chunk_index ≡ true = rw e refl in
      let expected = expected_first t chunk.chunk_index e h in
      let P = Kept chunk_mode raw 0 in
      let r = restart t d chunk_mode in
      let same = restart-Same t d chunk_mode in
      let earlier : ltb_ℤ chunk.chunk_index (expected_index t chunk.chunk_index) ≡ false =
        rw (expected, e) refl in
      let skipped : ltb_ℤ (expected_index t chunk.chunk_index) chunk.chunk_index ≡ false =
        rw (expected, e) refl in
      if_cases P (ltb_ℤ chunk.chunk_index (expected_index t chunk.chunk_index))
        (λ q. absurd (ground arith))
        (λ q.
          if_cases P
            (not (same_mode t.archive_mode chunk_mode) && not (is_zero_ℤ chunk.chunk_index))
            (λ q. absurd (ground arith))
            (λ q.
              if_cases P (ltb_ℤ (expected_index t chunk.chunk_index) chunk.chunk_index)
                (λ q. absurd (ground arith))
                (λ q. rw first (
                  data-Kept r.0 r.1 (same.0 ∙ h.0) (rw same.1 k) (
                    restart-Restarted t d chunk_mode
                      (normalize_archive_mode-set chunk.archive_mode))))))

  pub receive_chunk_first :
      (t : IncomingTransfer) (d : Disk)
      → HasDir answers t
      → Starts t
      → Kept chunk_mode raw 0 (receive_chunk sha256 decode threshold t d chunk answers)
  unfolding receive_chunk
  receive_chunk_first t d dir h =
      if_cases (Kept chunk_mode raw 0) t.completed (λ q. absurd (ground (arith, h.0)))
        (λ q. ensure dir)
    where
      ensure :
          HasDir answers t
          → Kept chunk_mode raw 0 (elim (ensure_base_dir t chunk_mode answers.new_dir) [
            | none ↦ (t, d, refused no_temp_dir)
            | some u ↦
                receive_in_dir sha256 decode threshold (fill_modes u chunk_mode) d chunk answers
          ])
      ensure (inl k) =
          rw (ensured t chunk_mode answers.new_dir k) (in_dir-Kept (fill_modes t chunk_mode) d k h)
      ensure (inr k) =
          let new = ensured_new t chunk_mode answers.new_dir k.1.0 k.0 k.1.1 in
          rw (new.1) (
            in_dir-Kept (fill_modes new.0 chunk_mode) d (rw new.2 k.1.2)
              (new.3 ∙ h.0, elim h.1 [ inl l ↦ inl (new.4 ∙ l) | inr r ↦ inr (rw new.5 r) ]))
