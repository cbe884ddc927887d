-- ===== src/Files/Handlers/Finished.antt =====
-- desktop/app/file_transfer.go: the end of a transfer whose archive has arrived.
use mathlib.Core.Path.{subst}
use clip_cascade_go_fork.Prelude.{
  ℕ, ◌≡◌, refl, sym, true, false, ◌&&◌, ◌||◌, some, String, List, [], str_eq, Result, ok, err,
  arith, if_cases, match_cases, result_cases, eq_iff, length,
}
use clip_cascade_go_fork.Prelude.Eq.{string_eq}
use clip_cascade_go_fork.Prelude.Int.{pos}
use clip_cascade_go_fork.Protocol.Text.{text_eq}
use clip_cascade_go_fork.GoMap.{get}
use clip_cascade_go_fork.Clipboard.Capture.{Bytes}
use clip_cascade_go_fork.History.Item.{Time}
use clip_cascade_go_fork.History.Updates.{mutate, get_by_transfer_id}
use clip_cascade_go_fork.Files.Transfer.{
  FileComplete, IncomingTransfer, mutate_incoming, ArchiveMode, unset, disk, memory, same_mode,
}
use clip_cascade_go_fork.Files.Receiving.{Disk, is_empty}
use clip_cascade_go_fork.Files.Receiving.Stored.{Holds, StoredIn}
use clip_cascade_go_fork.Files.Handlers.{
  Client, mutate_item, mutate_transfer, incoming_archive_sha256, CompleteAnswers, is_completed,
  ready_item, delete_incoming_archive, reserve_paths, finish_complete, Completion, verify_complete,
  handle_file_complete, same_size, has_paths, paths_or,
}
use clip_cascade_go_fork.GoMap.{get-put_same}

-- The transfer is the given one.
abbrev pub Knows : String → IncomingTransfer → Client → Type 0
Knows id t c = get c.transfers.incoming id ≡ some t

pub mutate_transfer-Knows :
    (c : Client) (id : String) (fn : IncomingTransfer → IncomingTransfer) (t : IncomingTransfer)
    → Knows id t c
    → Knows id (fn t) (mutate_transfer c id fn)
unfolding mutate_incoming
mutate_transfer-Knows c id fn t e =
    rw (e, mutate_incoming) (get-put_same c.transfers.incoming id (fn t))

-- Deleting the archive empties the transfer.
abbrev emptied : IncomingTransfer → IncomingTransfer
emptied u = record u { archive_path = []; archive_bytes = [] }

delete_incoming_archive-Knows :
    (c : Client) (id : String) (t : IncomingTransfer)
    → Knows id t c
    → Knows id (emptied t) (delete_incoming_archive c id)
unfolding delete_incoming_archive
delete_incoming_archive-Knows c id t e =
    rw (e, delete_incoming_archive)
      (if_cases (Knows id (emptied t)) (is_empty t.archive_path)
        (λ q. mutate_transfer-Knows c id emptied t e) (λ q. mutate_transfer-Knows c id emptied t e))

finish_complete-Knows :
    (c : Client) (now : Time) (id : String) (t u : IncomingTransfer) (paths : List String)
    → Knows id u c
    → Knows id (emptied (is_completed u)) (finish_complete c now id t paths).0
unfolding finish_complete
finish_complete-Knows c now id t u paths e =
    let r = mutate_item c now id (ready_item t paths) in
    let done = mutate_transfer-Knows r.0 id is_completed u e in
    let released =
      delete_incoming_archive-Knows (mutate_transfer r.0 id is_completed) id (is_completed u)
        done in
    result_cases (λ (x : Completion). Knows id (emptied (is_completed u)) x.0) r.1 (λ x q. released)
      (λ x q. released)

-- What is stored is what is hashed.
stored_sum :
    (sha256 : Bytes → String) (d : Disk) (t : IncomingTransfer) (content : Bytes) (m : ArchiveMode)
    → t.storage_mode ≡ m
    → StoredIn m t d content
    → is_empty content ≡ false
    → (same_mode m disk && is_empty t.archive_path) ≡ false
    → incoming_archive_sha256 sha256 d t ≡ some (sha256 content, length content)
unfolding incoming_archive_sha256
stored_sum sha256 d t content unset q c n p = absurd c
stored_sum sha256 d t content memory q c n p = rw (c, n) refl
stored_sum sha256 d t content disk q c n p = rw (c.0, p, c.1) refl

abbrev SameTransfers : Client → Result String Client → Type 0
SameTransfers c (err message) = Unit
SameTransfers c (ok d) = d.transfers ≡ c.transfers

reserve_paths-SameTransfers :
    (c : Client) (now : Time) (id : String) (planned : Result String (List String))
    → SameTransfers c (reserve_paths c now id planned)
unfolding reserve_paths
reserve_paths-SameTransfers c now id planned =
    let P = SameTransfers c in
    match_cases P (get_by_transfer_id c.history id) (λ q. refl)
      (λ item q.
        if_cases P (has_paths item.reserved_paths) (λ q. refl)
          (λ q.
            result_cases P planned (λ message q. tt)
              (λ paths q.
                let r = mutate c.history now item.id (
                  some (λ next.
                    ok (record next { reserved_paths = paths_or next.reserved_paths paths }))) in
                result_cases P r.1 (λ e q. tt) (λ updated q. refl))))

-- The client while a completion is checked.
abbrev pub completing_client : Client → String → Client
completing_client c id = mutate_transfer c id (λ u. record u { completing = true })

verify_finishes :
    (sha256 : Bytes → String) (c : Client) (now : Time) (m : FileComplete) (t : IncomingTransfer)
    (answers : CompleteAnswers) (content : Bytes) (reserved : Client) (paths : List String)
    → incoming_archive_sha256 sha256 c.disk t ≡ some (sha256 content, length content)
    → m.archive_sha256 ≡ sha256 content
    → m.actual_total_bytes ≡ pos (length content)
    → reserve_paths c now m.transfer_id answers.planned ≡ ok reserved
    → answers.materialized ≡ ok paths
    → verify_complete sha256 c now m t answers ≡ finish_complete reserved now m.transfer_id t paths
unfolding verify_complete
verify_finishes sha256 c now m t answers content reserved paths sum hash size r f =
    let same_hash : str_eq (sha256 content) m.archive_sha256 ≡ true =
      (eq_iff (sha256 content) m.archive_sha256).1 (sym hash) in
    let same : same_size (length content) m.actual_total_bytes ≡ true = rw size (ground arith) in
    rw (verify_complete, sum, same_hash, same, r, f) refl

handle_verifies :
    (sha256 : Bytes → String) (c : Client) (now : Time) (m : FileComplete)
    (answers : CompleteAnswers) (t : IncomingTransfer)
    → get c.transfers.incoming m.transfer_id ≡ some t
    → (t.completed || t.completing) ≡ false
    → handle_file_complete sha256 c now m answers
      ≡ verify_complete sha256
          (completing_client c m.transfer_id)
          now
          m
          (record t { completing = true })
          answers
unfolding handle_file_complete
handle_verifies sha256 c now m answers t e k = rw (handle_file_complete, e, k) refl

-- A transfer whose whole archive has arrived is completed by the sender's message with the hash and
-- the size of the archive, whether the archive is in memory or on the disk: it is then completed, no
-- request is active, and it holds the archive no more. The archive is not empty, the item's paths could be
-- reserved and the content was put there.
pub delivered_completed :
    (sha256 : Bytes → String) (c : Client) (now : Time) (m : FileComplete)
    (answers : CompleteAnswers) (t : IncomingTransfer) (mode : ArchiveMode) (content : Bytes)
    (last : ℕ) (reserved : Client) (paths : List String)
    → get c.transfers.incoming m.transfer_id ≡ some t
    → Holds mode content last t c.disk
    → is_empty content ≡ false
    → m.archive_sha256 ≡ sha256 content
    → m.actual_total_bytes ≡ pos (length content)
    → reserve_paths (completing_client c m.transfer_id) now m.transfer_id answers.planned
      ≡ ok reserved
    → answers.materialized ≡ ok paths
    → (u : IncomingTransfer) × (get
          (handle_file_complete sha256 c now m answers).0.transfers.incoming
          m.transfer_id
        ≡ some u)
      × (u.completed ≡ true)
      × (u.request_active ≡ false)
      × (u.archive_bytes ≡ [])
unfolding incoming_archive_sha256
delivered_completed sha256 c now m answers t mode content last reserved paths e h n hash size r f =
    let id = m.transfer_id in
    let begun = record t { completing = true } in
    let sum = stored_sum sha256 c.disk t content t.storage_mode refl h.content n h.named in
    let known : Knows id begun reserved =
      rw
        (subst (SameTransfers (completing_client c id)) r
          (reserve_paths-SameTransfers (completing_client c id) now id answers.planned))
        (mutate_transfer-Knows c id (λ u. record u { completing = true }) t e) in
    (
      emptied (is_completed begun),
      rw
          (
            handle_verifies sha256 c now m answers t e h.running,
            verify_finishes sha256 (completing_client c id) now m begun answers content reserved
                paths sum hash size r f,
          )
          (finish_complete-Knows reserved now id begun begun paths known),
      refl,
      refl,
      refl,
    )
