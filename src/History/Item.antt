-- ===== src/History/Item.antt =====
-- A history item (desktop/history/history.go, `HistoryItem`). A time is a number of nanoseconds, 0
-- being Go's zero time; a nil slice and an empty one are the same list.
use clip_cascade_go_fork.Prelude.{
  ℕ, Bool, false, ◌||◌, String, List, str_eq, ltb, ◌==◌, if◌then◌else◌,
}
use clip_cascade_go_fork.Prelude.Int.{ℤ}
use clip_cascade_go_fork.History.State.{ItemState, ready, offered, failed, same_state}

abbrev pub Time : Type 0
Time = ℕ

-- `t.IsZero()` and `t.After(u)`.
abbrev pub is_zero : Time → Bool
is_zero t = t == 0

abbrev pub after : Time → Time → Bool
after t u = ltb u t

pub record HistoryItem : Type 0 where
  pub id : String
  pub type : String
  pub state : ItemState
  pub kind : String
  pub display_name : String
  pub payload : String
  pub payload_type : String
  pub file_name : String
  pub source_session_id : String
  pub source_device : String
  pub created_at : Time
  pub updated_at : Time
  pub transfer_id : String
  pub local_paths : List String
  pub reserved_paths : List String
  pub pending_replay_mode : String
  pub last_chunk_idx : ℤ
  pub error_message : String

-- The `switch item.Type`.
unfoldable pub is_valid_initial_item : HistoryItem → Bool
unfolding same_state
is_valid_initial_item item =
    if str_eq item.type "text" || str_eq item.type "image"
    then same_state item.state ready
    else if str_eq item.type "file_stub"
    then same_state item.state offered || same_state item.state failed
    else false
