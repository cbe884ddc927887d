-- ===== src/Files/Handlers/Sent.antt =====
-- desktop/app/file_transfer.go: a transfer from the sender's first chunk to the receiver's last message.
use mathlib.Core.Path.{subst}
use clip_cascade_go_fork.Prelude.{
  ℕ, suc, ◌≡◌, refl, sym, ap, true, false, Option, none, some, String, List, [], ◌++◌, ok, length,
}
use clip_cascade_go_fork.Prelude.Eq.{string_eq}
use clip_cascade_go_fork.Prelude.Int.{ℤ, pos}
use clip_cascade_go_fork.Protocol.Text.{Text}
use clip_cascade_go_fork.Clipboard.Capture.{Bytes}
use clip_cascade_go_fork.GoMap.{get, get-put_same}
use clip_cascade_go_fork.History.Item.{Time}
use clip_cascade_go_fork.Files.Transfer.{
  FileChunk, FileRequest, ArchiveMode, IncomingTransfer, OutgoingTransfer,
}
use clip_cascade_go_fork.Files.Receiving.{
  Disk, ChunkError, ChunkOutcome, written, DiskAnswers, is_empty, receive_chunk,
}
use clip_cascade_go_fork.Files.Receiving.Stored.{Holds, Kept}
use clip_cascade_go_fork.Files.Receiving.First.{Starts, HasDir, receive_chunk_first}
use clip_cascade_go_fork.Files.Sending.{
  SendCalls, Sends, archive_chunk_reader, chunk_of, send_archive_chunks,
}
use clip_cascade_go_fork.Files.Sending.Arrival.{receive_all, send_archive_chunks-Arrived}
use clip_cascade_go_fork.Files.Sending.Delivered.{mode, Opens, Opens-Encodes, opened, next_stored}
use clip_cascade_go_fork.Files.Outgoing.{complete_message}
use clip_cascade_go_fork.Files.Handlers.{
  Client, HandleError, after_chunk, fail_incoming_transfer, handle_file_chunk, CompleteAnswers,
  reserve_paths, handle_file_complete,
}
use clip_cascade_go_fork.Files.Handlers.Finished.{completing_client, delivered_completed}

module _ (sha256 : Bytes → String) (encode : String → ℤ → Bytes → Option Text) (calls : SendCalls)
    (decode : String → ℤ → Text → Option Bytes) (threshold : ℕ) (describe : ChunkError → String)
    (now : Time) (answers : DiskAnswers) (o : OutgoingTransfer) (target : String) where
  abbrev pub id : String
  id = o.manifest.transfer_id

  abbrev pub sent_mode : ArchiveMode
  sent_mode = mode sha256 encode calls decode threshold answers o target

  abbrev pub chunk_step : Client → FileChunk → Client
  chunk_step c chunk = (handle_file_chunk sha256 decode threshold describe c now chunk answers).0

  -- The client's transfer has the chunks up to an index.
  abbrev pub ClientHas : Bytes → ℕ → Client → Type 0
  ClientHas got last c =
      (t : IncomingTransfer) × (get c.transfers.incoming id ≡ some t)
      × Holds sent_mode got last t c.disk

  stored_step :
      (c : Client) (i : ℕ) (raw : Bytes) (data_text : Text) (t : IncomingTransfer) (got : Bytes)
      (last : ℕ)
      → get c.transfers.incoming id ≡ some t
      → Kept sent_mode got last (
          receive_chunk sha256 decode threshold t c.disk
            (chunk_of sha256 encode calls o target i raw data_text)
            answers)
      → ClientHas got last (chunk_step c (chunk_of sha256 encode calls o target i raw data_text))
  unfolding handle_file_chunk
  stored_step c i raw data_text t got last e kept =
      let chunk = chunk_of sha256 encode calls o target i raw data_text in
      let r = receive_chunk sha256 decode threshold t c.disk chunk answers in
      let after = after_chunk sha256 decode threshold describe c now chunk in
      subst
        (λ (found : Option IncomingTransfer).
          ClientHas got last
            (elim found as (λ found. Client × Option HandleError) [
              | none ↦ fail_incoming_transfer c now id "incoming transfer not found"
              | some u ↦ after (receive_chunk sha256 decode threshold u c.disk chunk answers)
            ]).0)
        (sym e)
        (subst (λ (outcome : ChunkOutcome). ClientHas got last (after (r.0, r.1, outcome)).0)
          (sym kept.0) (r.0, get-put_same c.transfers.incoming id r.0, kept.1))

  next_step :
      (got : Bytes) (last : ℕ) (c : Client) (raw : Bytes) (data_text : Text)
      → Opens sha256 encode calls decode threshold answers o target
      → answers.spill ≡ written
      → answers.append ≡ written
      → encode id (pos (suc last)) raw ≡ some data_text
      → ClientHas got last c
      → ClientHas
          (got ++ raw)
          (suc last)
          (chunk_step c (chunk_of sha256 encode calls o target (suc last) raw data_text))
  next_step got last c raw data_text p w x e h =
      stored_step c (suc last) raw data_text h.0 (got ++ raw) (suc last) h.1 (
        next_stored sha256 encode calls decode threshold answers o target h.0 c.disk
          (record { got = got; last = last }) raw data_text
          (opened sha256 encode calls decode threshold answers o target (suc last) raw data_text p
            e)
          w x h.2)

  first_step :
      (c : Client) (t : IncomingTransfer) (raw : Bytes) (data_text : Text)
      → Opens sha256 encode calls decode threshold answers o target
      → answers.spill ≡ written
      → answers.append ≡ written
      → HasDir answers t
      → Starts t
      → get c.transfers.incoming id ≡ some t
      → encode id (pos 0) raw ≡ some data_text
      → ClientHas raw 0 (chunk_step c (chunk_of sha256 encode calls o target 0 raw data_text))
  first_step c t raw data_text p w x dir st e k =
      let chunk = chunk_of sha256 encode calls o target 0 raw data_text in
      stored_step c 0 raw data_text t raw 0 e (
        receive_chunk_first sha256 decode threshold chunk answers raw refl w x
          (opened sha256 encode calls decode threshold answers o target 0 raw data_text p k) refl t
          c.disk dir st)

  abbrev pub sent : Disk → List FileChunk
  sent sender_disk = (send_archive_chunks sha256 encode calls sender_disk o target 0).0

  -- A client whose transfer starts has the whole archive after it has handled every chunk.
  pub handled_all :
      (sender_disk : Disk) (content : Bytes) (c : Client) (t : IncomingTransfer)
      → Opens sha256 encode calls decode threshold answers o target
      → Sends calls
      → answers.spill ≡ written
      → answers.append ≡ written
      → archive_chunk_reader sender_disk o 0 ≡ ok content
      → is_empty content ≡ false
      → get c.transfers.incoming id ≡ some t
      → HasDir answers t
      → Starts t
      → (last : ℕ) × ClientHas content last (receive_all chunk_step c (sent sender_disk))
  handled_all sender_disk content c t p q w x e n k dir st =
      send_archive_chunks-Arrived chunk_step ClientHas sha256 encode calls o target sender_disk
        content c (Opens-Encodes sha256 encode calls decode threshold answers o target p) q
        (λ raw data_text. first_step c t raw data_text p w x dir st k)
        (λ got last d raw data_text. next_step got last d raw data_text p w x) e n

  -- A file arrives: the sender's archive, which is not empty, is sent in chunks from its start, the
  -- receiver handles every chunk and then the message that ends the sending, and its transfer is then
  -- completed, with no request active and the archive dropped from memory. The sender knows the hash and
  -- the size of its archive, the receiver's transfer starts, has a temporary directory or gets one and
  -- its disk takes what is written, every read of the archive succeeds, every message arrives in its
  -- order, the codec opens what it makes, and the receiver's target paths could be reserved and the
  -- content put there.
  pub sent_completed :
      (sender_disk : Disk) (content : Bytes) (c : Client) (t : IncomingTransfer)
      (request : FileRequest) (placed : CompleteAnswers) (reserved : Client) (paths : List String)
      → Opens sha256 encode calls decode threshold answers o target
      → Sends calls
      → answers.spill ≡ written
      → answers.append ≡ written
      → archive_chunk_reader sender_disk o 0 ≡ ok content
      → is_empty content ≡ false
      → o.archive_sha256 ≡ sha256 content
      → o.archive_size ≡ length content
      → request.transfer_id ≡ id
      → get c.transfers.incoming id ≡ some t
      → HasDir answers t
      → Starts t
      → reserve_paths
          (completing_client (receive_all chunk_step c (sent sender_disk)) request.transfer_id)
          now
          request.transfer_id
          placed.planned
        ≡ ok reserved
      → placed.materialized ≡ ok paths
      → (u : IncomingTransfer) × (get
            (handle_file_complete sha256
              (receive_all chunk_step c (sent sender_disk))
              now
              (complete_message request o)
              placed).0.transfers.incoming
            request.transfer_id
          ≡ some u)
        × (u.completed ≡ true)
        × (u.request_active ≡ false)
        × (u.archive_bytes ≡ [])
  unfolding complete_message
  sent_completed sender_disk content c t request placed reserved paths p q w x e n hash size same k
        dir st r f =
      let whole = handled_all sender_disk content c t p q w x e n k dir st in
      delivered_completed sha256 (receive_all chunk_step c (sent sender_disk)) now
        (complete_message request o) placed whole.1.0 sent_mode content whole.0 reserved paths
        (rw same whole.1.1) whole.1.2 n hash (ap pos size) r f
