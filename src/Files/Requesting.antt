-- ===== src/Files/Requesting.antt =====
-- desktop/app/file_transfer.go: `requestFileTransfer`, which asks the sender for an archive.
pub mod Requested
use clip_cascade_go_fork.Prelude.{
  ℕ, suc, Bool, true, false, not, ◌&&◌, Option, none, some, String, if◌then◌else◌, ok, err,
}
use clip_cascade_go_fork.Prelude.Eq.{string_eq}
use clip_cascade_go_fork.Prelude.Int.{ℤ, pos, negsuc}
use clip_cascade_go_fork.GoMap.{get}
use clip_cascade_go_fork.History.State.{ItemState, failed, downloading, same_state}
use clip_cascade_go_fork.History.Item.{HistoryItem, Time}
use clip_cascade_go_fork.History.Updates.{mutate, update_state}
use clip_cascade_go_fork.Files.Transfer.{
  FileStubManifest, FileRequest, IncomingTransfer, register_incoming,
}
use clip_cascade_go_fork.Files.Handlers.{Client, app_session_id, mutate_transfer}

pub data RequestError : Type 0 where
  no_item bad_manifest not_downloading not_sent : RequestError

abbrev pub next_chunk : ℤ → ℕ
next_chunk (pos n) = suc n
next_chunk (negsuc n) = 0

-- The chunk to go on with: a transfer that failed is resumed.
unfoldable pub resume_from : HistoryItem → ℕ
resume_from item = if same_state item.state failed then next_chunk item.last_chunk_idx else 0

abbrev pub asked : ℕ → IncomingTransfer → IncomingTransfer
asked resume t = record t { requested_resume_from = pos resume; request_active = true }

abbrev pub not_asked : IncomingTransfer → IncomingTransfer
not_asked t = record t { request_active = false }

-- The transfer is marked as asked for, or registered; the test is whether it was already.
unfoldable pub mark_request : Client → FileStubManifest → HistoryItem → Client × Bool
unfolding resume_from
mark_request c manifest item = elim (get c.transfers.incoming manifest.transfer_id) [
  | none ↦ (
    mutate_transfer
        (record c {
          transfers = register_incoming c.transfers manifest item.id item.last_chunk_idx;
        })
        manifest.transfer_id (asked (resume_from item)),
    false,
  )
  | some t ↦ (
    mutate_transfer c manifest.transfer_id
        (λ u. asked (resume_from item) (record u { manifest = manifest })),
    t.request_active,
  )
]

abbrev pub request_of : Client → FileStubManifest → HistoryItem → FileRequest
request_of c manifest item = record {
  transfer_id = manifest.transfer_id;
  entry_id = manifest.entry_id;
  target_session_id = app_session_id c;
  resume_from_chunk = resume_from item;
}

-- The client, the request that was sent, and the error.
abbrev pub Requested : Type 0
Requested = Client × Option FileRequest × Option RequestError

-- A request that cannot be sent takes the item's state back.
abbrev pub take_back : Client → Time → HistoryItem → Client
take_back c now item = if same_state item.state downloading then c else record c {
  history =
      (mutate c.history now item.id (some (λ next. ok (record next { state = item.state })))).0;
}

module _ (sends : FileRequest → Bool) where
  unfoldable pub send_request : Client → Time → FileStubManifest → HistoryItem → Requested
  send_request c now manifest item =
      let updated = update_state c.history now item.id downloading in
      let begun = record c { history = updated.0 } in
      if not updated.1 && not (same_state item.state downloading)
      then (mutate_transfer c manifest.transfer_id not_asked, none, some not_downloading)
      else if sends (request_of c manifest item)
      then (begun, some (request_of c manifest item), none)
      else (
        take_back (mutate_transfer begun manifest.transfer_id not_asked) now item,
        none,
        some not_sent,
      )

  -- `requestFileTransfer`, with the manifest that is read from the item's payload.
  unfoldable pub request_file_transfer :
      Client → Time → Option FileStubManifest → Option HistoryItem → Requested
  unfolding mark_request send_request
  request_file_transfer c now manifest item = elim item [
    | none ↦ (c, none, some no_item)
    | some i ↦ elim manifest [
      | none ↦ (c, none, some bad_manifest)
      | some m ↦
          let marked = mark_request c m i in
          if marked.1 then (marked.0, none, none) else send_request marked.0 now m i
    ]
  ]
