-- ===== src/Files/Requesting/Requested.antt =====
-- desktop/app/file_transfer.go: what a request for an archive leaves.
use clip_cascade_go_fork.Prelude.{
  ℕ, ◌≡◌, refl, Bool, true, false, not, ◌&&◌, none, some, String, arith, if_cases, inl, inr, ◌⊎◌,
}
use clip_cascade_go_fork.Prelude.Eq.{string_eq}
use clip_cascade_go_fork.Prelude.Int.{pos, negsuc}
use clip_cascade_go_fork.GoMap.{get, get-put_same}
use clip_cascade_go_fork.History.State.{failed, downloading, same_state}
use clip_cascade_go_fork.History.Item.{HistoryItem, Time}
use clip_cascade_go_fork.History.Updates.{update_state}
use clip_cascade_go_fork.Files.Transfer.{
  FileStubManifest, FileRequest, IncomingTransfer, new_incoming, register_incoming,
}
use clip_cascade_go_fork.Files.Receiving.First.{Starts}
use clip_cascade_go_fork.Files.Handlers.{Client, mutate_transfer}
use clip_cascade_go_fork.Files.Handlers.Finished.{mutate_transfer-Knows}
use mathlib.Core.Path.{subst}
use clip_cascade_go_fork.Prelude.{sym, if◌then◌else◌}
use clip_cascade_go_fork.Files.Requesting.{
  asked, mark_request, request_of, Requested, send_request, request_file_transfer, resume_from,
}

-- The item has no chunk yet, or its transfer failed after some chunk.
abbrev pub CanStart : HistoryItem → Type 0
CanStart item =
    (item.last_chunk_idx ≡ negsuc 0)
    ⊎ ((same_state item.state failed ≡ true) × ((n : ℕ) × (item.last_chunk_idx ≡ pos n)))

-- The transfer waits for an archive from its start.
abbrev pub Asks : String → Client → Type 0
Asks id c =
    (t : IncomingTransfer) × (get c.transfers.incoming id ≡ some t)
    × (t.request_active ≡ true)
    × Starts t

new_incoming-Starts :
    (manifest : FileStubManifest) (item : HistoryItem)
    → CanStart item
    → Starts (asked (resume_from item) (new_incoming manifest item.id item.last_chunk_idx))
unfolding resume_from new_incoming
new_incoming-Starts manifest item (inl e) = (refl, inl e)
new_incoming-Starts manifest item (inr (f, (n, e))) = (refl, inr (rw (f, e) (ground arith)))

-- The client after a transfer that is not known yet was registered and marked.
abbrev asking : Client → FileStubManifest → HistoryItem → Client
asking c manifest item =
    mutate_transfer
      (record c { transfers = register_incoming c.transfers manifest item.id item.last_chunk_idx })
      manifest.transfer_id (asked (resume_from item))

mark_request_new :
    (c : Client) (manifest : FileStubManifest) (item : HistoryItem)
    → get c.transfers.incoming manifest.transfer_id ≡ none
    → mark_request c manifest item ≡ (asking c manifest item, false)
unfolding mark_request
mark_request_new c manifest item e = rw (mark_request, e) refl

asking-Asks :
    (c : Client) (manifest : FileStubManifest) (item : HistoryItem)
    → CanStart item
    → Asks manifest.transfer_id (asking c manifest item)
unfolding register_incoming
asking-Asks c manifest item k =
    let id = manifest.transfer_id in
    let new = new_incoming manifest item.id item.last_chunk_idx in
    let registered = record c {
      transfers = register_incoming c.transfers manifest item.id item.last_chunk_idx;
    } in
    (
      asked (resume_from item) new,
      mutate_transfer-Knows registered id (asked (resume_from item)) new
          (get-put_same c.transfers.incoming id new),
      refl,
      new_incoming-Starts manifest item k,
    )

module _ (sends : FileRequest → Bool) where
  -- The request was sent, for the chunk to go on with, and the transfer waits for it.
  abbrev pub IsRequested : FileStubManifest → HistoryItem → Requested → Type 0
  IsRequested manifest item r =
      Asks manifest.transfer_id r.0
      × ((q : FileRequest) × (r.1 ≡ some q)
          × (q.transfer_id ≡ manifest.transfer_id)
          × (q.resume_from_chunk ≡ resume_from item)
          × (sends q ≡ true))

  abbrev Succeeds : FileStubManifest → HistoryItem → Requested → Type 0
  Succeeds manifest item r = r.2 ≡ none → IsRequested manifest item r

  send_request-Succeeds :
      (c : Client) (now : Time) (manifest : FileStubManifest) (item : HistoryItem)
      → Asks manifest.transfer_id c
      → Succeeds manifest item (send_request sends c now manifest item)
  unfolding send_request
  send_request-Succeeds c now manifest item h =
      let P = Succeeds manifest item in
      let updated = update_state c.history now item.id downloading in
      if_cases P (not updated.1 && not (same_state item.state downloading))
        (λ q e. absurd (ground arith))
        (λ q.
          if_cases P (sends (request_of c manifest item))
            (λ z e. (h, (request_of c manifest item, refl, refl, refl, z)))
            (λ z e. absurd (ground arith)))

  -- A first request for a file that reports no error was sent, for that transfer and the chunk to go on
  -- with, and leaves a transfer that waits for it and takes an archive from its start. The transfer was
  -- not known, and its item has no chunk yet or its transfer had failed after some chunk.
  pub request_file_transfer-IsRequested :
      (c : Client) (now : Time) (manifest : FileStubManifest) (item : HistoryItem)
      → get c.transfers.incoming manifest.transfer_id ≡ none
      → CanStart item
      → (request_file_transfer sends c now (some manifest) (some item)).2 ≡ none
      → IsRequested manifest item (request_file_transfer sends c now (some manifest) (some item))
  unfolding request_file_transfer
  request_file_transfer-IsRequested c now manifest item e k =
      subst
        (λ (marked : Client × Bool). Succeeds manifest item (
          if marked.1
          then (marked.0, none, none)
          else send_request sends marked.0 now manifest item))
        (sym (mark_request_new c manifest item e))
        (send_request-Succeeds (asking c manifest item) now manifest item
          (asking-Asks c manifest item k))
