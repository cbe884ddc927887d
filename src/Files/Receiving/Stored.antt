-- ===== src/Files/Receiving/Stored.antt =====
-- desktop/app/file_transfer.go: what is stored of an archive while its chunks come in.
use clip_cascade_go_fork.Prelude.{
  ℕ, ◌≡◌, ◌≢◌, refl, Bool, true, false, not, Option, some, String, [], ◌++◌, ◌&&◌, ◌||◌,
  if◌then◌else◌, ltb, length, str_eq, ◌∙◌, arith, if_cases,
}
use clip_cascade_go_fork.Prelude.Int.{pos}
use clip_cascade_go_fork.GoMap.{get-put_same, get, put}
use clip_cascade_go_fork.Protocol.Text.{text_eq}
use clip_cascade_go_fork.Clipboard.Capture.{Bytes}
use clip_cascade_go_fork.Files.Transfer.{
  FileChunk, ArchiveMode, unset, disk, memory, same_mode, normalize_archive_mode, IncomingTransfer,
}
use clip_cascade_go_fork.Files.Receiving.Named.{payload_path_filled}
use clip_cascade_go_fork.Files.Receiving.{
  Disk, file_content, written, stored, Received, after_write, store_in, DiskAnswers, is_empty,
  is_zero_ℤ, store_chunk, spill_to_disk, write_archive_bytes, with_payload_path, ensure_base_dir,
}

-- Where the bytes of a transfer are: in memory, or in its file.
abbrev pub StoredIn : ArchiveMode → IncomingTransfer → Disk → Bytes → Type 0
StoredIn unset t d got = ⊥
StoredIn memory t d got = t.archive_bytes ≡ got
StoredIn disk t d got = (t.archive_bytes ≡ []) × (get d t.archive_path ≡ some got)

-- A file on the disk has a name.
abbrev pub IsNamed : ArchiveMode → IncomingTransfer → Type 0
IsNamed m t = (same_mode m disk && is_empty t.archive_path) ≡ false

-- The transfer has received the chunks up to the index `last`, and `got` is their content.
pub record Holds (mode : ArchiveMode) (got : Bytes) (last : ℕ) (t : IncomingTransfer) (d : Disk)
    : Type 0 where
  pub running : (t.completed || t.completing) ≡ false
  pub in_dir : is_empty t.base_dir ≡ false
  pub in_mode : t.archive_mode ≡ mode
  pub at : t.last_chunk_idx ≡ pos last
  pub named : IsNamed t.storage_mode t
  pub content : StoredIn t.storage_mode t d got

file_content-get :
    (d : Disk) (path content : Bytes) → get d path ≡ some content → file_content d path ≡ content
file_content-get d path content e = rw (e, file_content) refl

-- What storing a chunk leaves of the transfer.
abbrev pub Kept : ArchiveMode → Bytes → ℕ → Received → Type 0
Kept mode got last r = (r.2 ≡ stored) × Holds mode got last r.0 r.1

-- Where a chunk will be put after the bytes `got`; the file is truncated before the first chunk.
abbrev pub Ready : Bool → ArchiveMode → IncomingTransfer → Disk → Bytes → Type 0
Ready first unset t d got = ⊥
Ready first memory t d got = t.archive_bytes ≡ got
Ready first disk t d got =
    (t.archive_bytes ≡ []) × ((if first then [] else file_content d t.archive_path) ≡ got)

pub StoredIn-Ready :
    (m : ArchiveMode) (t : IncomingTransfer) (d : Disk) (got : Bytes)
    → StoredIn m t d got
    → Ready false m t d got
StoredIn-Ready unset t d got c = c
StoredIn-Ready memory t d got c = c
StoredIn-Ready disk t d got c = (c.0, file_content-get d t.archive_path got c.1)

-- Naming the file of an archive leaves the rest.
abbrev Renamed : IncomingTransfer → IncomingTransfer → Type 0
Renamed t u =
    ((u.completed || u.completing) ≡ (t.completed || t.completing))
    × (u.base_dir ≡ t.base_dir)
    × (u.archive_mode ≡ t.archive_mode)
    × (u.archive_bytes ≡ t.archive_bytes)

with_payload_path-Renamed : (t : IncomingTransfer) → Renamed t (with_payload_path t)
with_payload_path-Renamed t =
    if_cases (Renamed t) (is_empty t.archive_path) (λ e. (refl, refl, refl, refl))
      (λ e. (refl, refl, refl, refl))

with_payload_path_filled :
    (t : IncomingTransfer) → is_empty (with_payload_path t).archive_path ≡ false
with_payload_path_filled t =
    if_cases (λ (u : IncomingTransfer). is_empty u.archive_path ≡ false) (is_empty t.archive_path)
      (λ q. payload_path_filled t t.base_dir) (λ q. q)

module _ (chunk : FileChunk) (raw got : Bytes) (mode : ArchiveMode) (i : ℕ) where
  -- A chunk that is written after the others, or, as the first one, alone.
  written-Kept :
      (d : Disk) (t : IncomingTransfer) (truncate : Bool)
      → chunk.chunk_index ≡ pos i
      → (t.completed || t.completing) ≡ false
      → is_empty t.base_dir ≡ false
      → t.archive_mode ≡ mode
      → t.storage_mode ≡ disk
      → is_empty t.archive_path ≡ false
      → t.archive_bytes ≡ []
      → (if truncate then [] else file_content d t.archive_path) ≡ got
      → Kept mode
          (got ++ raw)
          i
          (after_write t chunk (write_archive_bytes d t.archive_path raw truncate written))
  unfolding write_archive_bytes
  written-Kept d t truncate e o k m q f n c = (
    refl,
    record {
      running = o;
      in_dir = k;
      in_mode = m;
      at = e;
      named = rw (q, f) refl;
      content = rw q (n, rw (c, get-put_same d t.archive_path (got ++ raw)) refl);
    },
  )

  module _ (threshold : ℕ) (d : Disk) (answers : DiskAnswers) where
    spill-Kept :
        (t : IncomingTransfer)
        → chunk.chunk_index ≡ pos i
        → answers.spill ≡ written
        → answers.append ≡ written
        → (t.completed || t.completing) ≡ false
        → is_empty t.base_dir ≡ false
        → t.archive_mode ≡ mode
        → t.archive_bytes ≡ got
        → Kept mode (got ++ raw) i (spill_to_disk t d chunk raw answers)
    unfolding spill_to_disk
    spill-Kept t e a b o k m c =
        let named = with_payload_path t in
        let same = with_payload_path-Renamed t in
        let moved = record named { archive_bytes = []; storage_mode = disk } in
        let spilled = put d named.archive_path named.archive_bytes in
        let held : file_content spilled named.archive_path ≡ got = rw (← (same.3 ∙ c)) (
          file_content-get spilled named.archive_path named.archive_bytes
            (get-put_same d named.archive_path named.archive_bytes)) in
        rw (a, b)
          (written-Kept spilled moved false e (same.0 ∙ o) (rw (same.1) k) (same.2 ∙ m) refl
            (with_payload_path_filled t) refl held)

    store_in-Kept :
        (m : ArchiveMode) (t : IncomingTransfer)
        → chunk.chunk_index ≡ pos i
        → answers.spill ≡ written
        → answers.append ≡ written
        → (t.completed || t.completing) ≡ false
        → is_empty t.base_dir ≡ false
        → t.archive_mode ≡ mode
        → t.storage_mode ≡ m
        → IsNamed m t
        → Ready (is_zero_ℤ (pos i)) m t d got
        → Kept mode (got ++ raw) i (store_in m threshold t d chunk raw answers)
    store_in-Kept unset t e a b o k w q f c = absurd c
    store_in-Kept memory t e a b o k w q v c =
        if_cases (Kept mode (got ++ raw) i) (not (ltb threshold (length (t.archive_bytes ++ raw))))
          (λ f. (
            refl,
            record {
              running = o;
              in_dir = k;
              in_mode = w;
              at = e;
              named = rw q refl;
              content = rw (q, c) refl;
            },
          ))
          (λ f. spill-Kept t e a b o k w c)
    store_in-Kept disk t e a b o k w q f c = rw b (
        written-Kept d t (is_zero_ℤ chunk.chunk_index) e o k w q (ground (arith, f)) c.0 (rw e c.1))

    pub store_chunk-Kept :
        (t : IncomingTransfer)
        → chunk.chunk_index ≡ pos i
        → answers.spill ≡ written
        → answers.append ≡ written
        → (t.completed || t.completing) ≡ false
        → is_empty t.base_dir ≡ false
        → t.archive_mode ≡ mode
        → IsNamed t.storage_mode t
        → Ready (is_zero_ℤ (pos i)) t.storage_mode t d got
        → Kept mode (got ++ raw) i (store_chunk threshold t d chunk raw answers)
    unfolding store_chunk
    store_chunk-Kept t e a b o k w f c = store_in-Kept t.storage_mode t e a b o k w refl f c

pub ensured :
    (t : IncomingTransfer) (m : ArchiveMode) (new_dir : Option Bytes)
    → is_empty t.base_dir ≡ false
    → ensure_base_dir t m new_dir ≡ some t
unfolding ensure_base_dir
ensured t m new_dir e = rw e refl

pub ensured_new :
    (t : IncomingTransfer) (m : ArchiveMode) (new_dir : Option Bytes) (dir : Bytes)
    → is_empty t.base_dir ≡ true
    → new_dir ≡ some dir
    → (u : IncomingTransfer) × (ensure_base_dir t m new_dir ≡ some u)
      × (u.base_dir ≡ dir)
      × ((u.completed || u.completing) ≡ (t.completed || t.completing))
      × (u.last_chunk_idx ≡ t.last_chunk_idx)
      × (u.requested_resume_from ≡ t.requested_resume_from)
unfolding ensure_base_dir
ensured_new t m new_dir dir e n = rw (e, n) (_, refl, refl, refl, refl, refl)

pub normalize_archive_mode-set : (mode : String) → normalize_archive_mode mode ≢ unset
unfolding normalize_archive_mode
normalize_archive_mode-set mode =
    if_cases (λ (m : ArchiveMode). m ≢ unset) (str_eq mode "memory") (λ q n. ground arith)
      (λ q n. ground arith)
