-- ===== src/Tests/AppTests.antt =====
-- What the client receives, at concrete inputs.
use clip_cascade_go_fork.Prelude.{
  ◌≡◌, ◌≢◌, refl, true, false, Option, none, some, String, [], ◌∷◌, inl, inr, str_eq, eq_iff,
}
use clip_cascade_go_fork.Prelude.Int.{pos}
use clip_cascade_go_fork.Protocol.Text.{is_space}
use clip_cascade_go_fork.History.State.{ready}
use clip_cascade_go_fork.History.Item.{HistoryItem}
use clip_cascade_go_fork.History.Manager.{new_manager}
use clip_cascade_go_fork.History.Updates.{get_active, list}
use clip_cascade_go_fork.History.Valid.{IsValid, new_manager-IsValid}
use clip_cascade_go_fork.App.Shared.{App, resolve_replay_item}
use clip_cascade_go_fork.App.Receive.{
  ClipboardData, Manifest, source_session, trim_string, trim_string_left, trim_string_right,
  admit_history, reuse_history, received_item, reuse_local_echo, admit,
}
use clip_cascade_go_fork.App.Received.{plain_item, own_echo_reused}
use clip_cascade_go_fork.App.Latest.{kept_item, received_replayed}

abbrev no_manifest : String → Option Manifest
no_manifest payload = none

abbrev fresh_app : App
fresh_app = record {
  history = new_manager (pos 3);
  shared_id = "";
  last_file_stub_id = "";
  session_id = "me";
}

abbrev hi_clip : String → ClipboardData
hi_clip from = record {
  payload = "hi";
  type = "text";
  file_name = "";
  source_session_id = from;
  metadata_id = none;
}

abbrev own_item : HistoryItem
own_item = record {
  id = "a";
  type = "text";
  state = ready;
  kind = "";
  display_name = "";
  payload = "hi";
  payload_type = "text";
  file_name = "";
  source_session_id = "me";
  source_device = "local";
  created_at = 5;
  updated_at = 5;
  transfer_id = "";
  local_paths = [];
  reserved_paths = [];
  pending_replay_mode = "";
  last_chunk_idx = pos 0;
  error_message = "";
}

abbrev own_app : App
own_app = record fresh_app {
  history = record { items = own_item ∷ []; active_id = "a"; max_items = 3; on_changed = none };
}

not_empty : (s : String) → str_eq s "" ≡ false → s ≢ ""
not_empty s e h = (let clash : str_eq s "" ≡ true = (eq_iff s "").1 h in cc)

fresh_app-IsValid : IsValid fresh_app.history
fresh_app-IsValid = new_manager-IsValid (pos 3)

from_me : source_session (hi_clip " me") ≡ "me"
unfolding source_session trim_string trim_string_left trim_string_right is_space
from_me = refl

own_echo_reused_example :
    ((admit no_manifest own_app 9 "u" (some (hi_clip " me"))).1 ≡ reuse_history)
    × ((admit no_manifest own_app 9 "u" (some (hi_clip " me"))).0.history.items
        ≡ own_app.history.items)
own_echo_reused_example =
    own_echo_reused no_manifest own_app 9 "u" (hi_clip " me") (inl refl) 0 own_item refl from_me
      (not_empty "me" refl) refl refl refl (inr refl)

no_own_echo : reuse_local_echo fresh_app (plain_item (hi_clip "you") 9) ≡ none
unfolding reuse_local_echo new_manager list received_item
no_own_echo = refl

received_replayed_example :
    ((admit no_manifest fresh_app 9 "u" (some (hi_clip "you"))).1 ≡ admit_history)
    × (get_active (admit no_manifest fresh_app 9 "u" (some (hi_clip "you"))).0.history
        ≡ some (kept_item no_manifest fresh_app 9 "u" (hi_clip "you") (inl refl)))
    × (resolve_replay_item (admit no_manifest fresh_app 9 "u" (some (hi_clip "you"))).0
        ≡ some (kept_item no_manifest fresh_app 9 "u" (hi_clip "you") (inl refl)))
received_replayed_example =
    received_replayed no_manifest fresh_app 9 "u" (hi_clip "you") (inl refl) (not_empty "u" refl)
      fresh_app-IsValid no_own_echo (λ t. not_empty "hi" refl)
