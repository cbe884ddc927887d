-- ===== src/App/Receive.antt =====
-- desktop/app/receive_history.go: what is received from the other devices.
use Prim.Native.Char.{code}
use clip_cascade_go_fork.Prelude.{
  ◌-◌, ◌*◌, ◌^◌, Bool, true, false, not, ◌&&◌, ◌||◌, Option, none, some, String, [], str_eq,
  if◌then◌else◌, leb, find,
}
use clip_cascade_go_fork.Prelude.Int.{ℤ, pos, negsuc, ltb_ℤ}
use clip_cascade_go_fork.Protocol.Text.{is_space}
use clip_cascade_go_fork.History.State.{ready, offered}
use clip_cascade_go_fork.History.Item.{HistoryItem, Time, is_zero}
use clip_cascade_go_fork.History.Manager.{add_item}
use clip_cascade_go_fork.History.Updates.{get_active, get_by_transfer_id, list}
use clip_cascade_go_fork.App.Shared.{App, set_shared, set_last_file_stub, is_local_origin}

-- `protocol.ClipboardData`, and the identifier in its metadata, if it has some.
pub record ClipboardData : Type 0 where
  pub payload : String
  pub type : String
  pub file_name : String
  pub source_session_id : String
  pub metadata_id : Option String

-- The fields of `protocol.FileStubManifest` that are read here.
pub record Manifest : Type 0 where
  pub protocol_version : ℤ
  pub transfer_id : String
  pub source_session_id : String
  pub source_device : String
  pub kind : String
  pub display_name : String

-- `strings.TrimSpace` on a String.
unfoldable pub trim_string_left : String → String
trim_string_left String.[] = String.[]
trim_string_left (String.◌∷◌ c s) =
    let rest = trim_string_left s in if is_space (code c) then rest else String.◌∷◌ c s

abbrev keep_char : Bool → String → String → String
keep_char true String.[] kept = String.[]
keep_char _ _ kept = kept

unfoldable pub trim_string_right : String → String
trim_string_right String.[] = String.[]
trim_string_right (String.◌∷◌ c s) =
    let rest = trim_string_right s in keep_char (is_space (code c)) rest (String.◌∷◌ c rest)

unfoldable pub trim_string : String → String
unfolding trim_string_left trim_string_right
trim_string s = trim_string_left (trim_string_right s)

unfoldable pub source_session : ClipboardData → String
unfolding trim_string
source_session clip =
    if str_eq (trim_string clip.source_session_id) ""
    then elim clip.metadata_id [ none ↦ "" | some id ↦ trim_string id ]
    else trim_string clip.source_session_id

pub data ReceiveAction : Type 0 where
  ignore admit_history reuse_history legacy_paste : ReceiveAction

-- The item before the `switch` of `classifyReceivedClipboardData`.
unfoldable pub received_item : ClipboardData → Time → HistoryItem
unfolding source_session
received_item clip now = record {
  id = "";
  type = clip.type;
  state = ready;
  kind = "";
  display_name = "";
  payload = clip.payload;
  payload_type = "";
  file_name = clip.file_name;
  source_session_id = source_session clip;
  source_device = "remote";
  created_at = now;
  updated_at = now;
  transfer_id = "";
  local_paths = [];
  reserved_paths = [];
  pending_replay_mode = "";
  last_chunk_idx = pos 0;
  error_message = "";
}

abbrev is_usable : Manifest → Bool
is_usable m = ltb_ℤ (pos 0) m.protocol_version && not (str_eq m.transfer_id "")

unfoldable pub offered_item : HistoryItem → Option Manifest → HistoryItem
offered_item item none = record item { state = offered; last_chunk_idx = negsuc 0 }
offered_item item (some m) =
    if is_usable m
    then record item {
      state = offered;
      kind = m.kind;
      display_name = m.display_name;
      transfer_id = m.transfer_id;
      source_session_id = m.source_session_id;
      source_device = if str_eq m.source_device "" then m.source_session_id else m.source_device;
      last_chunk_idx = negsuc 0;
    }
    else record item { state = offered; last_chunk_idx = negsuc 0 }

-- `isSameLocalEcho`; the difference of two times is taken only when it is not negative.
unfoldable pub is_same_local_echo : App → HistoryItem → HistoryItem → Bool
is_same_local_echo a existing incoming =
    if is_local_origin a incoming
    then (if str_eq incoming.source_session_id "" || str_eq existing.source_session_id ""
        then true
        else str_eq incoming.source_session_id existing.source_session_id)
    else if not (is_local_origin a existing)
    then false
    else if is_zero incoming.created_at || is_zero existing.created_at
    then false
    else leb existing.created_at incoming.created_at
      && leb (incoming.created_at - existing.created_at) (2 * 10 ^ 9)

abbrev pub is_echo : App → HistoryItem → HistoryItem → Bool
is_echo a item existing =
    str_eq existing.type item.type
    && str_eq existing.payload item.payload
    && str_eq existing.file_name item.file_name
    && is_same_local_echo a existing item

-- `reuseLocalEchoHistoryItem`: the application afterwards, if an item is reused.
unfoldable pub reuse_local_echo : App → HistoryItem → Option App
unfolding is_same_local_echo
reuse_local_echo a item =
    if str_eq item.type "file_stub" then none else elim (find (is_echo a item) (list a.history)) [
      | none ↦ none
      | some existing ↦
          let shared = set_shared a existing.id in
          some
            (if str_eq existing.type "image" then set_last_file_stub shared existing.id else shared)
    ]

abbrev has_files : String → Bool
has_files type = str_eq type "file_stub" || str_eq type "image"

-- The pointers after an item was stored.
unfoldable pub point_to : App → HistoryItem → App
point_to a item =
    let shared = set_shared a item.id in
    if has_files item.type then set_last_file_stub shared item.id else shared

unfoldable pub store_received : App → Time → String → HistoryItem → App
unfolding point_to
store_received a now uuid item =
    let stored = record a { history = (add_item a.history now uuid (some item)).0 } in
    elim (get_by_transfer_id stored.history item.transfer_id) [
      | some found ↦ point_to stored found
      | none ↦ elim (get_active stored.history) [
        | none ↦ stored
        | some latest ↦ point_to stored latest
      ]
    ]

-- `admitReceivedClipboardData` for an item that is to be admitted. The registration of the transfer
-- of a file_stub is left out.
unfoldable pub admit_item : App → Time → String → HistoryItem → App × ReceiveAction
unfolding reuse_local_echo store_received
admit_item a now uuid item = elim (reuse_local_echo a item) [
  | some b ↦ (b, reuse_history)
  | none ↦ elim (get_by_transfer_id a.history item.transfer_id) [
    | some existing ↦
        let shared = set_shared a existing.id in
        (
          if str_eq existing.type "file_stub"
              then set_last_file_stub shared existing.id
              else shared,
          admit_history,
        )
    | none ↦ (store_received a now uuid item, admit_history)
  ]
]

-- `decode_manifest` is the reading of the JSON of a manifest.
module _ (decode_manifest : String → Option Manifest) where
  -- `classifyReceivedClipboardData`: the action, with the item to admit.
  unfoldable pub classify : Option ClipboardData → Time → ReceiveAction × Option HistoryItem
  unfolding received_item offered_item
  classify none now = (ignore, none)
  classify (some clip) now =
      let item = received_item clip now in
      if str_eq clip.type "text"
      then (admit_history, some (record item { payload_type = "text" }))
      else if str_eq clip.type "image"
      then (admit_history, some (record item { payload_type = "image" }))
      else if str_eq clip.type "file_stub"
      then (admit_history, some (offered_item item (decode_manifest clip.payload)))
      else if str_eq clip.type "file_eager"
      then (legacy_paste, none)
      else (ignore, none)

  abbrev pub admit_decision :
      App → Time → String → ReceiveAction × Option HistoryItem → App × ReceiveAction
  admit_decision a now uuid (admit_history, some item) = admit_item a now uuid item
  admit_decision a now uuid (action, _) = (a, action)

  unfoldable pub admit : App → Time → String → Option ClipboardData → App × ReceiveAction
  unfolding classify admit_item
  admit a now uuid clip = admit_decision a now uuid (classify clip now)
