-- ===== src/Tests/TransferTests.antt =====
-- The transfer of an archive, at concrete inputs.
use clip_cascade_go_fork.Prelude.{
  ◌≡◌, refl, true, false, Option, none, some, String, [], ◌∷◌, ◌++◌, arith, ok, err, inl, inr,
}
use clip_cascade_go_fork.Prelude.Int.{ℤ, pos, negsuc, ◌+ℤ◌}
use clip_cascade_go_fork.Prelude.Eq.{string_eq}
use clip_cascade_go_fork.GoMap.{get, put, remove}
use clip_cascade_go_fork.Protocol.Text.{Text, codes, split, is_space}
use clip_cascade_go_fork.Clipboard.Capture.{Bytes}
use clip_cascade_go_fork.App.Receive.{trim_string, trim_string_left, trim_string_right}
use clip_cascade_go_fork.Files.Paths.{components, clean_parts, clean, join}
use clip_cascade_go_fork.Files.Transfer.{
  FileStubManifest, FileChunk, IncomingTransfer, OutgoingTransfer, memory, normalize_archive_mode,
  mode_string, new_incoming, uses_raw_transfer, transfer_payload_temp_name, TransferManager,
  FileComplete, FileRequest, mutate_incoming,
}
use clip_cascade_go_fork.Files.Receiving.{
  written, DiskAnswers, duplicate, refused, wrong_index, ensure_base_dir, expected_index, restart,
  write_archive_bytes, spill_to_disk, store_chunk, receive_data, receive_in_dir, receive_chunk,
}
use clip_cascade_go_fork.Files.Receiving.Stored.{Holds}
use clip_cascade_go_fork.Files.Receiving.Refined.{Archive, accept, Refines, receive_chunk-accept}
use clip_cascade_go_fork.Files.Sending.{
  SendCalls, chunk_count_for_size, archive_chunk_reader, no_archive, chunk_of, send_round,
  send_from, send_archive_chunks,
}
use clip_cascade_go_fork.History.Manager.{new_manager}
use clip_cascade_go_fork.History.Updates.{
  mutate, commit, mutate_by_transfer_id, get_by_transfer_id, transfer_item_id,
}
use clip_cascade_go_fork.Files.Handlers.{
  Client, CompleteAnswers, incoming_archive_sha256, reserve_paths, finish_complete, verify_complete,
  handle_file_complete, fail_incoming_transfer, delete_incoming_archive,
}
use clip_cascade_go_fork.Files.Handlers.Completed.{Matches, completed-Matches}
use clip_cascade_go_fork.Files.Handlers.Finished.{completing_client}
use clip_cascade_go_fork.Files.Handlers.Sent.{chunk_step, sent, sent_completed}
use clip_cascade_go_fork.Files.Sending.Arrival.{receive_all}
use clip_cascade_go_fork.Files.Outgoing.{complete_message}
use clip_cascade_go_fork.Files.Handlers.{handle_file_chunk}
use clip_cascade_go_fork.Files.Preparing.Ready.{IsReady, prepare_archive-IsReady}
use clip_cascade_go_fork.Files.Preparing.{
  prepare_in_memory, Surroundings, incomplete, prepare_archive, can_use_memory_archive,
}
use clip_cascade_go_fork.Files.Outgoing.{begin_sending, fire_cleanup}
use clip_cascade_go_fork.Files.Outgoing.Targets.{
  World, Reach, IsSound, next, at_start, one_sending_a_target,
}
use clip_cascade_go_fork.Files.Outgoing.Targets.{begun as begun_step}
use clip_cascade_go_fork.Files.Outgoing.Cleanup.{prepared_kept, empty_in_memory_fails}
use clip_cascade_go_fork.Files.Sending.Delivered.{
  Delivered, take_chunk, archive-Delivered, resumed-Delivered,
}

transfer_code : Unit {0}
unfolding ensure_base_dir expected_index restart write_archive_bytes spill_to_disk store_chunk
    receive_data receive_in_dir receive_chunk receive_all handle_file_chunk chunk_count_for_size
    archive_chunk_reader send_round send_from send_archive_chunks new_incoming uses_raw_transfer
    transfer_payload_temp_name normalize_archive_mode mode_string components clean_parts clean join
    trim_string trim_string_left trim_string_right split get put remove ◌+ℤ◌ is_space
transfer_code = tt

abbrev manifest : FileStubManifest
manifest = record {
  protocol_version = pos 1;
  entry_id = "e";
  transfer_id = "t";
  source_session_id = "s";
  source_device = "d";
  kind = "single_file";
  archive_format = "raw";
  display_name = "f";
  entry_count = pos 1;
  top_level_names = "f" ∷ [];
  estimated_total_bytes = pos 3;
}

abbrev outgoing : OutgoingTransfer
outgoing = record {
  manifest = manifest;
  source_paths = "/f" ∷ [];
  archive_mode = memory;
  archive_bytes = 7 ∷ 8 ∷ 9 ∷ [];
  base_dir = [];
  archive_path = [];
  archive_sha256 = "some";
  archive_size = 3;
  chunk_count = 1;
  cleanup_timer = none;
  cleanup_gen = 0;
  source_signature = "g";
  sending_targets = [];
}

abbrev incoming : IncomingTransfer
incoming = new_incoming manifest "i" (negsuc 0)

-- A hash that tells the lengths apart, and a codec that copies.
abbrev hash : Bytes → String
hash [] = "none"
hash (b ∷ s) = "some"

abbrev encode : String → ℤ → Bytes → Option Text
encode id i raw = some raw

abbrev decode : String → ℤ → Text → Option Bytes
decode id i text = some text

abbrev calls : SendCalls
calls = record { reads = λ index. true; sends = λ chunk. true }

abbrev answers : DiskAnswers
answers = record { new_dir = some (codes "/tmp/x"); spill = written; append = written }

sent_chunk :
    (send_archive_chunks hash encode calls [] outgoing "me" 0).0
    ≡ chunk_of hash encode calls outgoing "me" 0 (7 ∷ 8 ∷ 9 ∷ []) (7 ∷ 8 ∷ 9 ∷ []) ∷ []
unfolding transfer_code
sent_chunk = refl

archive-Delivered_example :
    Delivered hash encode calls decode 2 answers outgoing "me" (7 ∷ 8 ∷ 9 ∷ []) (
      receive_all
        (take_chunk hash encode calls decode 2 answers outgoing "me")
        (incoming, [])
        (send_archive_chunks hash encode calls [] outgoing "me" 0).0)
unfolding archive_chunk_reader new_incoming
archive-Delivered_example =
    archive-Delivered hash encode calls decode 2 answers outgoing "me" [] (7 ∷ 8 ∷ 9 ∷ []) incoming
      [] (λ i raw. (raw, refl, refl)) (λ index. refl, λ chunk. refl) refl refl refl refl
      (inr (refl, (codes "/tmp/x", refl, refl))) (refl, inl refl)

-- A transfer that has the first chunk.
abbrev begun : IncomingTransfer
begun = record incoming {
  base_dir = codes "/tmp/x";
  archive_mode = memory;
  storage_mode = memory;
  archive_bytes = 7 ∷ 8 ∷ 9 ∷ [];
  last_chunk_idx = pos 0;
}

begun-Holds : Holds memory (7 ∷ 8 ∷ 9 ∷ []) 0 begun []
unfolding new_incoming
begun-Holds = record {
  running = refl;
  in_dir = refl;
  in_mode = refl;
  at = refl;
  named = refl;
  content = refl;
}

resumed-Delivered_example :
    Delivered hash encode calls decode 2 answers outgoing "me" (7 ∷ 8 ∷ 9 ∷ [] ++ []) (
      receive_all
        (take_chunk hash encode calls decode 2 answers outgoing "me")
        (begun, [])
        (send_archive_chunks hash encode calls [] outgoing "me" 1).0)
unfolding archive_chunk_reader normalize_archive_mode mode_string
resumed-Delivered_example =
    resumed-Delivered hash encode calls decode 2 answers outgoing "me" [] (7 ∷ 8 ∷ 9 ∷ []) [] 0
      begun [] (λ i raw. (raw, refl, refl)) (λ index. refl, λ chunk. refl) refl refl refl
      begun-Holds

abbrev next_chunk : FileChunk
next_chunk = chunk_of hash encode calls outgoing "me" 1 (5 ∷ []) (5 ∷ [])

abbrev got_first : Archive
got_first = record { got = 7 ∷ 8 ∷ 9 ∷ []; last = 0 }

receive_chunk-accept_example :
    Refines hash decode memory
      (accept hash decode memory got_first 1 next_chunk)
      (receive_chunk hash decode 2 begun [] next_chunk answers)
receive_chunk-accept_example =
    receive_chunk-accept hash decode 2 memory begun [] next_chunk answers got_first 0
      (λ e. ground arith) refl refl refl begun-Holds

-- The archive does not fit into memory any more, and goes to the disk.
spilled :
    (receive_chunk hash decode 2 begun [] next_chunk answers).1
    ≡ (codes "/tmp/x/payload.bin", 7 ∷ 8 ∷ 9 ∷ 5 ∷ []) ∷ []
unfolding transfer_code
spilled = refl

skipped_refused :
    (receive_chunk hash decode 2 incoming [] next_chunk answers).2 ≡ refused wrong_index
unfolding transfer_code
skipped_refused = refl

repeated_ignored :
    (receive_chunk hash decode 2 (record begun { last_chunk_idx = pos 1 }) [] next_chunk answers).2
    ≡ duplicate
unfolding transfer_code
repeated_ignored = refl

abbrev manager : TransferManager
manager = record {
  session_id = "me";
  outgoing = ("t", outgoing) ∷ [];
  incoming = ("t", begun) ∷ [];
}

abbrev client : Client
client = record { history = new_manager (pos 3); transfers = manager; disk = []; session_id = "" }

abbrev complete : FileComplete
complete = record {
  transfer_id = "t";
  target_session_id = "me";
  archive_mode = "memory";
  archive_sha256 = "some";
  actual_total_bytes = pos 3;
}

abbrev placed : CompleteAnswers
placed = record { planned = ok ("/x" ∷ []); materialized = ok ("/x" ∷ []) }

handler_code : Unit {0}
unfolding transfer_code incoming_archive_sha256 reserve_paths finish_complete verify_complete
    handle_file_complete fail_incoming_transfer delete_incoming_archive mutate_incoming
    mutate_by_transfer_id mutate commit get_by_transfer_id transfer_item_id new_manager
handler_code = tt

abbrev finished : IncomingTransfer
finished = record begun { archive_bytes = []; completed = true }

completed-Matches_example : Matches hash [] begun complete
unfolding handler_code
completed-Matches_example =
    completed-Matches hash client 9 complete placed begun finished refl refl refl refl

abbrev request : FileRequest
request = record {
  transfer_id = "t";
  entry_id = "e";
  target_session_id = "me";
  resume_from_chunk = 0;
}

-- A client that has asked for the transfer, and what it has after the chunks.
abbrev waiting : Client
waiting = record client { transfers = record manager { incoming = ("t", incoming) ∷ [] } }

abbrev all_handled : Client
all_handled =
    receive_all (chunk_step hash encode calls decode 2 (λ e. "") 9 answers outgoing "me") waiting
      (sent hash encode calls decode 2 (λ e. "") 9 answers outgoing "me" [])

sent_completed_example :
    (u : IncomingTransfer) × (get
        (handle_file_complete hash all_handled 9
          (complete_message request outgoing)
          placed).0.transfers.incoming
        "t"
      ≡ some u)
    × (u.completed ≡ true)
    × (u.request_active ≡ false)
    × (u.archive_bytes ≡ [])
unfolding handler_code archive_chunk_reader new_incoming
sent_completed_example =
    sent_completed hash encode calls decode 2 (λ e. "") 9 answers outgoing "me" [] (7 ∷ 8 ∷ 9 ∷ [])
      waiting incoming request placed (completing_client all_handled "t") ("/x" ∷ [])
      (λ i raw. (raw, refl, refl)) (λ index. refl, λ chunk. refl) refl refl refl refl refl refl refl
      refl (inr (refl, (codes "/tmp/x", refl, refl))) (refl, inl refl) refl refl

abbrev idle_world : World
idle_world = record { manager = manager; running = [] }

abbrev sending_world : World
sending_world = record { manager = (begin_sending manager request).0; running = ("t", "me") ∷ [] }

sending_reached : Reach idle_world sending_world
unfolding transfer_code begin_sending
sending_reached = next at_start (begun_step idle_world request refl)

one_sending_a_target_example : IsSound sending_world
one_sending_a_target_example = one_sending_a_target refl sending_reached

abbrev empty_file : Surroundings
empty_file = record {
  ready_peers = 1;
  threshold_bytes = pos 100;
  memory_data = ok [];
  new_dir = err "no space";
  disk_file = incomplete none "no space";
}

prepared_kept_example :
    let p = (prepare_archive hash [] outgoing empty_file).0 in
    fire_cleanup (record manager { outgoing = put manager.outgoing "t" p }) "t" 0
    ≡ (record manager { outgoing = put manager.outgoing "t" p }, [])
prepared_kept_example = prepared_kept hash manager "t" [] outgoing empty_file 0 (omega arith)

empty_in_memory_fails_example :
    let t = record outgoing { archive_bytes = [] } in
    ((prepare_archive hash [] t empty_file).2 ≡ none)
    × (archive_chunk_reader [] (prepare_archive hash [] t empty_file).0 0 ≡ err no_archive)
unfolding get can_use_memory_archive
empty_in_memory_fails_example =
    empty_in_memory_fails hash [] (record outgoing { archive_bytes = [] }) empty_file 0 refl refl
      refl refl refl refl

abbrev small_file : Surroundings
small_file = record {
  ready_peers = 1;
  threshold_bytes = pos 100;
  memory_data = ok (7 ∷ 8 ∷ []);
  new_dir = err "no space";
  disk_file = incomplete none "no space";
}

prepare_archive-IsReady_example :
    let r = prepare_archive hash [] (record outgoing { archive_bytes = [] }) small_file in
    IsReady hash r.1 r.0
unfolding prepare_archive prepare_in_memory can_use_memory_archive
prepare_archive-IsReady_example =
    prepare_archive-IsReady hash [] (record outgoing { archive_bytes = [] }) small_file refl refl
      (λ e. ground arith) refl
