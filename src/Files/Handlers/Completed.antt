-- ===== src/Files/Handlers/Completed.antt =====
-- desktop/app/file_transfer.go: when a transfer is completed.
use mathlib.Core.Path.{subst}
use clip_cascade_go_fork.Prelude.{
  ℕ, ◌≡◌, refl, sym, ◌∙◌, ap, true, false, not, ◌||◌, Option, some, String, List, str_eq, Result,
  ok, err, arith, if_cases, match_cases, result_cases, eq_iff, Option-cases, inl, inr,
}
use clip_cascade_go_fork.Prelude.Eq.{string_eq}
use clip_cascade_go_fork.GoMap.{get-put_same, get}
use clip_cascade_go_fork.Clipboard.Capture.{Bytes}
use clip_cascade_go_fork.History.Item.{Time}
use clip_cascade_go_fork.History.Updates.{mutate, get_by_transfer_id}
use clip_cascade_go_fork.History.State.{failed}
use clip_cascade_go_fork.Files.Transfer.{FileComplete, IncomingTransfer, mutate_incoming}
use clip_cascade_go_fork.Files.Receiving.{Disk}
use clip_cascade_go_fork.Files.Handlers.{
  Client, HandleError, mutate_item, mutate_transfer, idle, fail_incoming_transfer,
  incoming_archive_sha256, CompleteAnswers, reserve_paths, Completion, failed_complete,
  verify_complete, handle_file_complete, same_size, has_paths, paths_or,
}

pub some_same : (t u : IncomingTransfer) → some t ≡ some u → t ≡ u
some_same t u e = ground arith

-- The transfer is not completed.
abbrev pub Waits : String → Client → Type 0
Waits id c = (u : IncomingTransfer) → get c.transfers.incoming id ≡ some u → u.completed ≡ false

mutate_transfer-Waits :
    (c : Client) (id : String) (fn : IncomingTransfer → IncomingTransfer)
    → ((t : IncomingTransfer) → (fn t).completed ≡ t.completed)
    → Waits id c
    → Waits id (mutate_transfer c id fn)
unfolding mutate_incoming
mutate_transfer-Waits c id fn keeps h = elim (Option-cases (get c.transfers.incoming id)) [
  | inl q ↦ rw (q, mutate_incoming) h
  | inr (t, q) ↦
      rw (q, mutate_incoming)
        (λ u e.
          let same = some_same (fn t) u (sym (get-put_same c.transfers.incoming id (fn t)) ∙ e) in
          sym (ap (λ (v : IncomingTransfer). v.completed) same) ∙ keeps t ∙ h t q)
]

fail_incoming_transfer-Waits :
    (c : Client) (now : Time) (id message : String)
    → Waits id c
    → Waits id (fail_incoming_transfer c now id message).0
unfolding fail_incoming_transfer
fail_incoming_transfer-Waits c now id message h =
    let r =
      mutate_item c now id (λ item. ok (record item { state = failed; error_message = message })) in
    result_cases (λ (x : Client × Option HandleError). Waits id x.0) r.1 (λ e q. h)
      (λ item q. mutate_transfer-Waits r.0 id idle (λ t. refl) h)

abbrev ReservedWaits : String → Result String Client → Type 0
ReservedWaits id (err message) = Unit
ReservedWaits id (ok c) = Waits id c

reserve_paths-Waits :
    (c : Client) (now : Time) (id : String) (planned : Result String (List String))
    → Waits id c
    → ReservedWaits id (reserve_paths c now id planned)
unfolding reserve_paths
reserve_paths-Waits c now id planned h =
    let P = ReservedWaits id in
    match_cases P (get_by_transfer_id c.history id) (λ q. h)
      (λ item q.
        if_cases P (has_paths item.reserved_paths) (λ q. h)
          (λ q.
            result_cases P planned (λ message q. tt)
              (λ paths q.
                let r = mutate c.history now item.id (
                  some (λ next.
                    ok (record next { reserved_paths = paths_or next.reserved_paths paths }))) in
                result_cases P r.1 (λ e q. tt) (λ updated q. h))))

-- What was received has the hash and the size of the message.
abbrev pub Matches : (Bytes → String) → Disk → IncomingTransfer → FileComplete → Type 0
Matches sha256 d t m =
    (size : ℕ) × (incoming_archive_sha256 sha256 d t ≡ some (m.archive_sha256, size))
    × (same_size size m.actual_total_bytes ≡ true)

-- A completed transfer matches.
abbrev Checked : Type 0 → String → Completion → Type 0
Checked M id r =
    (u : IncomingTransfer) → get r.0.transfers.incoming id ≡ some u → u.completed ≡ true → M

failed-Checked :
    (M : Type 0) (c : Client) (now : Time) (id message : String)
    → Waits id c
    → Checked M id (failed_complete c now id message)
failed-Checked M c now id message h u e k =
    let waits = fail_incoming_transfer-Waits c now id message h u e in absurd (ground arith)

verify_complete-Checked :
    (sha256 : Bytes → String) (c : Client) (now : Time) (m : FileComplete) (t : IncomingTransfer)
    (answers : CompleteAnswers)
    → Waits m.transfer_id c
    → Checked (Matches sha256 c.disk t m) m.transfer_id (verify_complete sha256 c now m t answers)
unfolding verify_complete
verify_complete-Checked sha256 c now m t answers h =
    let M = Matches sha256 c.disk t m in
    let P = Checked M m.transfer_id in
    match_cases P (incoming_archive_sha256 sha256 c.disk t)
      (λ q. failed-Checked M c now m.transfer_id _ h)
      (λ read q.
        if_cases P (not (str_eq read.0 m.archive_sha256))
          (λ n. failed-Checked M c now m.transfer_id _ h)
          (λ sum.
            if_cases P (not (same_size read.1 m.actual_total_bytes))
              (λ n. failed-Checked M c now m.transfer_id _ h)
              (λ size.
                let matched : M = (
                  read.1,
                  q
                      ∙ ap (λ (s : String). some (s, read.1))
                          ((eq_iff read.0 m.archive_sha256).0 (ground arith)),
                  ground arith,
                ) in
                result_cases P (reserve_paths c now m.transfer_id answers.planned)
                  (λ message n. failed-Checked M c now m.transfer_id message h)
                  (λ reserved n.
                    let kept : Waits m.transfer_id reserved =
                      subst (ReservedWaits m.transfer_id) n
                        (reserve_paths-Waits c now m.transfer_id answers.planned h) in
                    result_cases P answers.materialized
                      (λ message n. failed-Checked M reserved now m.transfer_id message kept)
                      (λ paths n u e k. matched)))))

begun-Waits :
    (c : Client) (id : String) (t : IncomingTransfer)
    → get c.transfers.incoming id ≡ some t
    → t.completed ≡ false
    → Waits id c
begun-Waits c id t e h u f =
    ap (λ (v : IncomingTransfer). v.completed) (sym (some_same t u (sym e ∙ f))) ∙ h

-- `handleFileComplete` makes a transfer that was not completed a completed one only if the bytes that
-- were received, in memory or on the disk, have the hash and the size that the sender's message says.
pub completed-Matches :
    (sha256 : Bytes → String) (c : Client) (now : Time) (m : FileComplete)
    (answers : CompleteAnswers) (t u : IncomingTransfer)
    → get c.transfers.incoming m.transfer_id ≡ some t
    → t.completed ≡ false
    → get (handle_file_complete sha256 c now m answers).0.transfers.incoming m.transfer_id ≡ some u
    → u.completed ≡ true
    → Matches sha256 c.disk t m
unfolding handle_file_complete incoming_archive_sha256
completed-Matches sha256 c now m answers t u e h =
    let M = Matches sha256 c.disk t m in
    let waits = begun-Waits c m.transfer_id t e h in
    let P = Checked M m.transfer_id in
    let checked : P (handle_file_complete sha256 c now m answers) =
      rw (e, handle_file_complete)
        (if_cases P (t.completed || t.completing)
          (λ q v f k. absurd (let open_still = waits v f in ground arith))
          (λ q.
            verify_complete-Checked sha256
              (mutate_transfer c m.transfer_id (λ v. record v { completing = true })) now m
              (record t { completing = true }) answers
              (mutate_transfer-Waits c m.transfer_id (λ v. record v { completing = true })
                (λ v. refl) waits))) in
    checked u
