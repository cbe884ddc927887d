-- ===== src/Files/Handlers.antt =====
-- desktop/app/file_transfer.go: what the application does with the messages of a transfer that comes in.
pub mod Completed
pub mod Finished
pub mod Sent
use clip_cascade_go_fork.Prelude.{
  ℕ, ◌+◌, Bool, true, false, not, ◌&&◌, ◌||◌, Option, none, some, String, List, [], ◌∷◌, str_eq,
  if◌then◌else◌, Result, ok, err, length, ◌==◌,
}
use clip_cascade_go_fork.Prelude.Int.{ℤ, pos, negsuc, ltb_ℤ, ◌+ℤ◌}
use clip_cascade_go_fork.Prelude.Eq.{string_eq}
use clip_cascade_go_fork.GoMap.{GoMap, get, put, remove}
use clip_cascade_go_fork.Protocol.Text.{Text, text_eq}
use clip_cascade_go_fork.Clipboard.Capture.{Bytes}
use clip_cascade_go_fork.History.State.{ItemState, failed, downloading, ready_to_paste, same_state}
use clip_cascade_go_fork.History.Item.{HistoryItem, Time}
use clip_cascade_go_fork.History.Manager.{Manager}
use clip_cascade_go_fork.History.Updates.{
  MutateError, Mutation, mutate, mutate_by_transfer_id, get_by_transfer_id, update_state,
}
use clip_cascade_go_fork.Files.Transfer.{
  FileStubManifest, FileRequest, FileChunk, FileComplete, FileError, IncomingTransfer,
  TransferManager, mutate_incoming, register_incoming, uses_raw_transfer,
}
use clip_cascade_go_fork.Files.Receiving.{
  Disk, is_empty, DiskAnswers, ChunkError, ChunkOutcome, stored, duplicate, refused, Received,
  receive_chunk,
}

-- The parts of the application that these methods use.
pub record Client : Type 0 where
  pub history : Manager
  pub transfers : TransferManager
  pub disk : Disk
  pub session_id : String

-- `appSessionID`
unfoldable pub app_session_id : Client → String
app_session_id c = if str_eq c.session_id "" then c.transfers.session_id else c.session_id

abbrev pub mutate_item : Client → Time → String → Mutation → Client × Result MutateError HistoryItem
mutate_item c now transfer_id fn =
    let r = mutate_by_transfer_id c.history c.history now transfer_id (some fn) in
    (record c { history = r.0 }, r.1)

abbrev pub mutate_transfer : Client → String → (IncomingTransfer → IncomingTransfer) → Client
mutate_transfer c transfer_id fn = record c {
  transfers = (mutate_incoming c.transfers transfer_id fn).0;
}

pub data HandleError : Type 0 where
  failure : String → HandleError
  history_error : MutateError → HandleError
  no_item bad_manifest : HandleError
  not_updated not_sent : HandleError

abbrev pub idle : IncomingTransfer → IncomingTransfer
idle t = record t { request_active = false; completing = false }

-- `failIncomingTransfer`
unfoldable pub fail_incoming_transfer :
    Client → Time → String → String → Client × Option HandleError
fail_incoming_transfer c now transfer_id message =
    let r =
      mutate_item c now transfer_id
        (λ item. ok (record item { state = failed; error_message = message })) in
    elim r.1 [
      | err e ↦ (r.0, some (history_error e))
      | ok item ↦ (mutate_transfer r.0 transfer_id idle, some (failure message))
    ]

-- `handleFileError`
unfoldable pub handle_file_error : Client → Time → FileError → Client × Option HandleError
unfolding fail_incoming_transfer
handle_file_error c now e = fail_incoming_transfer c now e.transfer_id e.error_message

-- `describe` gives the texts of the errors.
module _ (sha256 : Bytes → String) (decode : String → ℤ → Text → Option Bytes) (threshold : ℕ)
    (describe : ChunkError → String) where
  abbrev pub after_chunk : Client → Time → FileChunk → Received → Client × Option HandleError
  after_chunk c now chunk (t, d, outcome) =
      let kept = record c {
        transfers = record c.transfers { incoming = put c.transfers.incoming chunk.transfer_id t };
        disk = d;
      } in
      elim outcome [
        | refused e ↦ fail_incoming_transfer kept now chunk.transfer_id (describe e)
        | duplicate ↦ (kept, none)
        | stored ↦
            let r = mutate_item kept now chunk.transfer_id (λ item.
              ok (record item { last_chunk_idx = t.last_chunk_idx; state = downloading })) in
            (r.0, none)
      ]

  unfoldable pub handle_file_chunk :
      Client → Time → FileChunk → DiskAnswers → Client × Option HandleError
  unfolding fail_incoming_transfer receive_chunk
  handle_file_chunk c now chunk answers = elim (get c.transfers.incoming chunk.transfer_id) [
    | none ↦ fail_incoming_transfer c now chunk.transfer_id "incoming transfer not found"
    | some t ↦
        after_chunk c now chunk (receive_chunk sha256 decode threshold t c.disk chunk answers)
  ]

module _ (sha256 : Bytes → String) where
  -- `incomingArchiveSHA256`: the hash and the size of what was received.
  unfoldable pub incoming_archive_sha256 : Disk → IncomingTransfer → Option (String × ℕ)
  incoming_archive_sha256 d t =
      if not (is_empty t.archive_bytes)
      then some (sha256 t.archive_bytes, length t.archive_bytes)
      else if is_empty t.archive_path && uses_raw_transfer t.manifest
      then some (sha256 [], 0)
      else elim (get d t.archive_path) [
        | none ↦ none
        | some content ↦ some (sha256 content, length content)
      ]

-- `deleteIncomingArchive`
unfoldable pub delete_incoming_archive : Client → String → Client
delete_incoming_archive c transfer_id = elim (get c.transfers.incoming transfer_id) [
  | none ↦ c
  | some t ↦
      let emptied =
        mutate_transfer c transfer_id (λ u. record u { archive_path = []; archive_bytes = [] }) in
      if is_empty t.archive_path
      then emptied
      else record emptied { disk = remove c.disk t.archive_path }
]

abbrev pub has_paths : List String → Bool
has_paths [] = false
has_paths (p ∷ ps) = true

abbrev pub paths_or : List String → List String → List String
paths_or [] paths = paths
paths_or (p ∷ ps) paths = p ∷ ps

-- What other functions answer while a transfer is completed: the paths that are planned for the item,
-- and where the content is put.
pub record CompleteAnswers : Type 0 where
  pub planned : Result String (List String)
  pub materialized : Result String (List String)

-- The reserved paths of the item, where it has none; an error ends the completion.
unfoldable pub reserve_paths :
    Client → Time → String → Result String (List String) → Result String Client
reserve_paths c now transfer_id planned = elim (get_by_transfer_id c.history transfer_id) [
  | none ↦ ok c
  | some item ↦ if has_paths item.reserved_paths then ok c else elim planned [
    | err message ↦ err message
    | ok paths ↦
        let r = mutate c.history now item.id (
          some
            (λ next. ok (record next { reserved_paths = paths_or next.reserved_paths paths }))) in
        elim r.1 [ err e ↦ err "history" | ok updated ↦ ok (record c { history = r.0 }) ]
  ]
]

abbrev pub ready_item : IncomingTransfer → List String → Mutation
ready_item t paths item = ok (record item {
  state = ready_to_paste;
  local_paths = paths;
  reserved_paths = paths_or item.reserved_paths paths;
  last_chunk_idx = t.last_chunk_idx;
  error_message = "";
})

abbrev pub is_completed : IncomingTransfer → IncomingTransfer
is_completed t = record t { request_active = false; completing = false; completed = true }

abbrev pub same_size : ℕ → ℤ → Bool
same_size n (pos m) = n == m
same_size n (negsuc m) = false

-- The outcome of a completion: an error, or the item, whose replay may be waiting.
abbrev pub Completion : Type 0
Completion = Client × Option HandleError × Option HistoryItem

unfoldable pub finish_complete :
    Client → Time → String → IncomingTransfer → List String → Completion
unfolding delete_incoming_archive
finish_complete c now transfer_id t paths =
    let r = mutate_item c now transfer_id (ready_item t paths) in
    let released =
      delete_incoming_archive (mutate_transfer r.0 transfer_id is_completed) transfer_id in
    elim r.1 [
      | err e ↦ (released, some (history_error e), none)
      | ok item ↦ (released, none, some item)
    ]

abbrev pub failed_complete : Client → Time → String → String → Completion
failed_complete c now transfer_id message =
    let r = fail_incoming_transfer c now transfer_id message in (r.0, r.1, none)

module _ (sha256 : Bytes → String) where
  -- The content was read: it must have the hash and the size that the sender says.
  unfoldable pub verify_complete :
      Client → Time → FileComplete → IncomingTransfer → CompleteAnswers → Completion
  unfolding incoming_archive_sha256 reserve_paths finish_complete fail_incoming_transfer
  verify_complete c now m t answers = elim (incoming_archive_sha256 sha256 c.disk t) [
    | none ↦ failed_complete c now m.transfer_id "archive"
    | some (sum, size) ↦
        if not (str_eq sum m.archive_sha256)
        then failed_complete c now m.transfer_id "archive sha256 mismatch"
        else if not (same_size size m.actual_total_bytes)
        then failed_complete c now m.transfer_id "archive size mismatch"
        else elim (reserve_paths c now m.transfer_id answers.planned) [
          | err message ↦ failed_complete c now m.transfer_id message
          | ok reserved ↦ elim answers.materialized [
            | err message ↦ failed_complete reserved now m.transfer_id message
            | ok paths ↦ finish_complete reserved now m.transfer_id t paths
          ]
        ]
  ]

  -- `handleFileComplete` up to the replay that may be waiting for the item.
  unfoldable pub handle_file_complete : Client → Time → FileComplete → CompleteAnswers → Completion
  unfolding verify_complete
  handle_file_complete c now m answers = elim (get c.transfers.incoming m.transfer_id) [
    | none ↦ (c, none, none)
    | some t ↦
        if t.completed || t.completing
        then (c, none, none)
        else verify_complete (mutate_transfer c m.transfer_id (λ u. record u { completing = true }))
            now m (record t { completing = true }) answers
  ]
