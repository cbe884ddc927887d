-- ===== src/App/Shared.antt =====
-- desktop/app/shared_clipboard.go: the shared clipboard and the item that a replay takes.
use clip_cascade_go_fork.Prelude.{
  Bool, true, false, not, ◌&&◌, ◌||◌, Option, none, some, String, List, [], ◌∷◌, str_eq,
  if◌then◌else◌,
}
use clip_cascade_go_fork.History.State.{
  ItemState, ready, offered, downloading, ready_to_paste, failed, consumed,
}
use clip_cascade_go_fork.History.Item.{HistoryItem}
use clip_cascade_go_fork.History.Manager.{Manager}
use clip_cascade_go_fork.History.Updates.{get_active, set_active, get_by_id}

-- The part of the application that these methods use; its history is there.
pub record App : Type 0 where
  pub history : Manager
  pub shared_id : String
  pub last_file_stub_id : String
  pub session_id : String

unfoldable pub set_shared : App → String → App
set_shared a id =
    if str_eq id "" then a else record a { shared_id = id; history = (set_active a.history id).0 }

unfoldable pub set_last_file_stub : App → String → App
set_last_file_stub a id = if str_eq id "" then a else record a { last_file_stub_id = id }

unfoldable pub shared_item : App → Option HistoryItem
shared_item a = if str_eq a.shared_id "" then none else get_by_id a.history a.shared_id

unfoldable pub last_file_stub_item : App → Option HistoryItem
last_file_stub_item a =
    if str_eq a.last_file_stub_id "" then none else get_by_id a.history a.last_file_stub_id

abbrev has_some : List String → Bool
has_some [] = false
has_some (p ∷ ps) = true

abbrev can_replay_image : HistoryItem → ItemState → Bool
can_replay_image item ready = has_some item.local_paths || not (str_eq item.payload "")
can_replay_image item ready_to_paste = has_some item.local_paths || not (str_eq item.payload "")
can_replay_image item consumed = has_some item.local_paths || not (str_eq item.payload "")
can_replay_image item _ = false

abbrev can_replay_text : ItemState → Bool
can_replay_text ready = true
can_replay_text consumed = true
can_replay_text _ = false

abbrev can_replay_files : HistoryItem → ItemState → Bool
can_replay_files item offered = true
can_replay_files item downloading = true
can_replay_files item failed = true
can_replay_files item ready_to_paste = has_some item.local_paths || has_some item.reserved_paths
can_replay_files item consumed = has_some item.local_paths || has_some item.reserved_paths
can_replay_files item _ = false

-- `canReplayHistoryItem` of desktop/app/replay_history.go, on an item.
unfoldable pub can_replay : HistoryItem → Bool
can_replay item =
    if str_eq item.type "text"
    then can_replay_text item.state
    else if str_eq item.type "image"
    then can_replay_image item item.state
    else if str_eq item.type "file_stub"
    then can_replay_files item item.state
    else false

-- An item that can be replayed, or else.
abbrev replayable_or : Option HistoryItem → Option HistoryItem → Option HistoryItem
replayable_or none rest = rest
replayable_or (some item) rest = if can_replay item then some item else rest

unfoldable pub resolve_replay_item : App → Option HistoryItem
unfolding shared_item last_file_stub_item can_replay
resolve_replay_item a =
    replayable_or (shared_item a) (replayable_or (last_file_stub_item a) (get_active a.history))

unfoldable pub is_local_origin : App → HistoryItem → Bool
is_local_origin a item =
    not (str_eq item.source_session_id "")
      && not (str_eq a.session_id "")
      && str_eq item.source_session_id a.session_id
    || str_eq item.source_device "local"
