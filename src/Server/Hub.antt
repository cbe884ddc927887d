-- ===== src/Server/Hub.antt =====
-- server/handler/ws_hub.go: the hub of the websocket connections. A connection is known by a
-- number, as a pointer is by its address. Every method runs under the hub's lock and is one step;
-- what is written to the connections is the second result.
pub mod Sessions
pub mod Registry
pub mod Replies
pub mod Sound
pub mod Delivery
use clip_cascade_go_fork.Prelude.{
  ℕ, suc, ◌+◌, Bool, true, false, not, Option, none, some, String, List, [], ◌∷◌, length, map,
  if◌then◌else◌, is_some, Result, ok, err, str_eq,
}
use clip_cascade_go_fork.Prelude.Int.{ℤ}
use clip_cascade_go_fork.Prelude.Eq.{nat_eq, string_eq}
use clip_cascade_go_fork.GoMap
use clip_cascade_go_fork.GoMap.{GoMap}
use clip_cascade_go_fork.Protocol.Text.{Text, codes, text_beq}
use clip_cascade_go_fork.Protocol.Stomp.{
  Frame, FrameError, encode, parse_frame, get_header, connected_frame, message_frame,
}
use clip_cascade_go_fork.Server.Limits.{default_read_limit, normalize_read_limit}

abbrev pub Conn : Type 0
Conn = ℕ

-- A set of connections, `map[*websocket.Conn]bool`.
abbrev pub Conns : Type 0
Conns = GoMap Conn Bool

pub record Hub : Type 0 where
  pub connections : GoMap String Conns
  pub write_locks : GoMap Conn Bool
  pub total_connections : ℕ
  pub total_inbound_msgs : ℕ
  pub total_outbound_msgs : ℕ
  pub read_limit_bytes : ℤ

-- `NewWSHub`: the limit is an optional argument.
unfoldable pub new_hub : List ℤ → Hub
new_hub limits = record {
  connections = [];
  write_locks = [];
  total_connections = 0;
  total_inbound_msgs = 0;
  total_outbound_msgs = 0;
  read_limit_bytes = elim limits [
    | [] ↦ default_read_limit
    | limit ∷ _ ↦ normalize_read_limit limit
  ];
}

-- Reading a missing entry of `connections` gives a nil map, which is empty.
abbrev pub conns_of : Hub → String → Conns
conns_of h username = elim (GoMap.get h.connections username) [ none ↦ [] | some conns ↦ conns ]

unfoldable pub register : Hub → String → Conn → Hub
register h username conn = record h {
  connections = GoMap.put h.connections username (GoMap.put (conns_of h username) conn true);
  write_locks = GoMap.put h.write_locks conn true;
  total_connections = suc h.total_connections;
}

-- The entry of a user after one of the connections is gone: no entry, if that was the last one.
abbrev put_conns : GoMap String Conns → String → Conns → GoMap String Conns
put_conns connections username [] = GoMap.remove connections username
put_conns connections username (c ∷ conns) = GoMap.put connections username (c ∷ conns)

unfoldable pub unregister : Hub → String → Conn → Hub
unregister h username conn = record h {
  connections = elim (GoMap.get h.connections username) [
    | none ↦ h.connections
    | some conns ↦ put_conns h.connections username (GoMap.remove conns conn)
  ];
  write_locks = GoMap.remove h.write_locks conn;
}

-- The targets, each with whether it has a write lock.
unfoldable pub with_locks : GoMap Conn Bool → Conns → List (Conn × Bool)
with_locks locks [] = []
with_locks locks ((conn, _) ∷ conns) =
    (conn, is_some (GoMap.get locks conn)) ∷ with_locks locks conns

unfoldable pub broadcast_targets : Hub → String → List (Conn × Bool)
unfolding with_locks
broadcast_targets h username = with_locks h.write_locks (conns_of h username)

-- A message written to a connection.
abbrev pub Write : Type 0
Write = Conn × Text

-- The loop of `Broadcast`: a target with no write lock is passed over.
unfoldable pub write_all : List (Conn × Bool) → Text → List Write
write_all [] payload = []
write_all ((conn, locked) ∷ targets) payload =
    let rest = write_all targets payload in if locked then (conn, payload) ∷ rest else rest

unfoldable pub broadcast : Hub → String → Conn → Text → Hub × List Write
broadcast h username sender payload =
    let targets = broadcast_targets h username in
    (
      record h { total_outbound_msgs = h.total_outbound_msgs + length targets },
      write_all targets payload,
    )

-- The state of the loop in `HandleWebSocket`: the hub and the subscription of this connection.
pub record Loop : Type 0 where
  pub hub : Hub
  pub subscription_id : Text

-- The `switch frame.Command`. `is_clipboard_data` tells whether the body can be read by
-- `json.Unmarshal`. The last result is whether the loop goes on.
unfoldable pub handle_frame :
    (Text → Bool) → Loop → String → Conn → Frame → Loop × List Write × Bool
handle_frame is_clipboard_data l username conn frame =
    if text_beq frame.command (codes "CONNECT")
    then (l, (conn, encode (connected_frame (codes "1.1"))) ∷ [], true)
    else if text_beq frame.command (codes "SUBSCRIBE")
    then (record l { subscription_id = get_header frame (codes "id") }, [], true)
    else if text_beq frame.command (codes "SEND")
    then (if is_clipboard_data frame.body
        then (let (hub, writes) = broadcast l.hub username conn (
              encode (
                message_frame (get_header frame (codes "destination")) l.subscription_id []
                  frame.body)) in
            (record l { hub = hub }, writes, true))
        else (l, [], true))
    else if text_beq frame.command (codes "DISCONNECT")
    then (l, [], false)
    else (l, [], true)

abbrev pub count_inbound : Loop → Loop
count_inbound l = record l {
  hub = record l.hub { total_inbound_msgs = suc l.hub.total_inbound_msgs };
}

-- One round of the loop, for a message that was read.
unfoldable pub handle_message :
    (Text → Bool) → Loop → String → Conn → Text → Loop × List Write × Bool
handle_message is_clipboard_data l username conn msg = elim (parse_frame msg) [
  | err e ↦ (count_inbound l, [], true)
  | ok frame ↦ handle_frame is_clipboard_data (count_inbound l) username conn frame
]

-- `active_connections` of `Stats`.
unfoldable pub count_active : GoMap String Conns → ℕ
count_active [] = 0
count_active ((_, conns) ∷ rest) = length conns + count_active rest
