-- ===== src/Tests/RequestTests.antt =====
-- The request of an archive, at concrete inputs.
use clip_cascade_go_fork.Prelude.{◌≡◌, refl, true, none, some, [], ◌∷◌, inl}
use clip_cascade_go_fork.Prelude.Int.{pos, negsuc}
use clip_cascade_go_fork.GoMap.{get, put}
use clip_cascade_go_fork.History.State.{downloading, same_state, is_known_state}
use clip_cascade_go_fork.History.Item.{HistoryItem}
use clip_cascade_go_fork.History.Manager.{new_manager, get_by_id_locked}
use clip_cascade_go_fork.History.Updates.{update_state}
use clip_cascade_go_fork.Files.Transfer.{
  FileStubManifest, new_incoming, register_incoming, mutate_incoming,
}
use clip_cascade_go_fork.Files.Handlers.{Client}
use clip_cascade_go_fork.Files.Requesting.{
  mark_request, send_request, request_file_transfer, resume_from,
}
use clip_cascade_go_fork.Files.Requesting.Requested.{IsRequested, request_file_transfer-IsRequested}

abbrev manifest : FileStubManifest
manifest = record {
  protocol_version = pos 1;
  entry_id = "e";
  transfer_id = "t";
  source_session_id = "s";
  source_device = "d";
  kind = "single_file";
  archive_format = "raw";
  display_name = "f";
  entry_count = pos 1;
  top_level_names = "f" ∷ [];
  estimated_total_bytes = pos 3;
}

abbrev item : HistoryItem
item = record {
  id = "i";
  type = "file_stub";
  state = downloading;
  kind = "single_file";
  display_name = "f";
  payload = "{}";
  payload_type = "json";
  file_name = "f";
  source_session_id = "s";
  source_device = "d";
  created_at = 1;
  updated_at = 1;
  transfer_id = "t";
  local_paths = [];
  reserved_paths = [];
  pending_replay_mode = "";
  last_chunk_idx = negsuc 0;
  error_message = "";
}

abbrev client : Client
client = record {
  history = new_manager (pos 3);
  transfers = record { session_id = "me"; outgoing = []; incoming = [] };
  disk = [];
  session_id = "";
}

request_code : Unit {0}
unfolding get put same_state is_known_state new_manager get_by_id_locked update_state new_incoming
    register_incoming mutate_incoming mark_request send_request request_file_transfer resume_from
request_code = tt

-- A second request while the first is active sends nothing.
repeated_not_sent :
    (request_file_transfer
      (λ r. true)
      (request_file_transfer (λ r. true) client 9 (some manifest) (some item)).0
      9
      (some manifest)
      (some item)).1
    ≡ none
unfolding request_code
repeated_not_sent = refl

request_file_transfer-IsRequested_example :
    IsRequested
      (λ r. true)
      manifest
      item
      (request_file_transfer (λ r. true) client 9 (some manifest) (some item))
unfolding request_code
request_file_transfer-IsRequested_example =
    request_file_transfer-IsRequested (λ r. true) client 9 manifest item refl (inl refl) refl
