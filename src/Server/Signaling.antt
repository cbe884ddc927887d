-- ===== src/Server/Signaling.antt =====
-- server/handler/p2p_signaling.go: the signaling between the peers of a user. A connection is known
-- by a number; what is written to the connections is a result, before its JSON is made.
pub mod Routing
use clip_cascade_go_fork.Prelude.{
  ℕ, suc, ◌+◌, Bool, true, false, not, ◌&&◌, Option, none, some, String, List, [], ◌∷◌, ◌++◌,
  length, map, if◌then◌else◌, is_some, str_eq, ◌==◌,
}
use clip_cascade_go_fork.Prelude.Int.{ℤ}
use clip_cascade_go_fork.Prelude.Eq.{nat_eq, string_eq}
use clip_cascade_go_fork.GoMap
use clip_cascade_go_fork.GoMap.{GoMap}
use clip_cascade_go_fork.Server.Limits.{default_read_limit, normalize_read_limit}

abbrev pub Peer : Type 0
Peer = ℕ

-- The connections of a user, each with its session identifier.
abbrev pub Peers : Type 0
Peers = GoMap Peer String

pub record Signaling : Type 0 where
  pub sessions : GoMap String Peers
  pub peer_locks : GoMap Peer Bool
  pub signal_limit_bytes : ℤ

-- The data of a signal: the JSON that a peer sent, none, or the list of the peers.
pub data SignalData : Type 0 where
  no_data : SignalData
  raw_data : String → SignalData
  peer_ids : List String → SignalData

pub record SignalMessage : Type 0 where
  pub type : String
  pub from : String
  pub to : String
  pub session_id : String
  pub content : SignalData

unfoldable pub new_signaling : List ℤ → Signaling
new_signaling limits = record {
  sessions = [];
  peer_locks = [];
  signal_limit_bytes = elim limits [
    | [] ↦ default_read_limit
    | limit ∷ _ ↦ normalize_read_limit limit
  ];
}

abbrev pub peers_of : Signaling → String → Peers
peers_of s username = elim (GoMap.get s.sessions username) [ none ↦ [] | some conns ↦ conns ]

abbrev pub Signals : Type 0
Signals = List (Peer × SignalMessage)

-- The targets with whether they have a write lock; one without is passed over.
unfoldable pub write_signals : List (Peer × Bool) → SignalMessage → Signals
write_signals [] signal = []
write_signals ((conn, locked) ∷ targets) signal =
    let rest = write_signals targets signal in if locked then (conn, signal) ∷ rest else rest

unfoldable pub lock_peers : GoMap Peer Bool → Peers → List (Peer × Bool)
lock_peers locks [] = []
lock_peers locks ((conn, _) ∷ conns) =
    (conn, is_some (GoMap.get locks conn)) ∷ lock_peers locks conns

-- The search for the peer that a signal is for, up to the `break`.
unfoldable pub directed_target : Peers → Peer → String → Peers
directed_target [] sender to = []
directed_target ((conn, sid) ∷ conns) sender to =
    if str_eq sid to && not (conn == sender)
    then (conn, sid) ∷ []
    else directed_target conns sender to

unfoldable pub other_peers : Peers → Peer → Peers
other_peers [] sender = []
other_peers ((conn, sid) ∷ conns) sender =
    let rest = other_peers conns sender in if not (conn == sender) then (conn, sid) ∷ rest else rest

unfoldable pub route_targets : Peers → Peer → String → Peers
unfolding directed_target other_peers
route_targets conns sender to =
    if not (str_eq to "") then directed_target conns sender to else other_peers conns sender

-- `routeMessage`; a user without connections has no targets.
unfoldable pub route_message : Signaling → String → Peer → SignalMessage → Signals
unfolding write_signals lock_peers route_targets
route_message s username sender signal =
    write_signals (lock_peers s.peer_locks (route_targets (peers_of s username) sender signal.to))
      signal

abbrev session_ids : Peers → List String
session_ids = map (λ e. e.1)

unfoldable pub broadcast_peer_list : Signaling → String → Signals
unfolding write_signals lock_peers
broadcast_peer_list s username =
    write_signals (lock_peers s.peer_locks (peers_of s username)) (record {
      type = "peer-list";
      from = "";
      to = "";
      session_id = "";
      content = peer_ids (session_ids (peers_of s username));
    })

unfoldable pub add_peer : Signaling → String → Peer → String → Signaling
add_peer s username conn session_id = record s {
  sessions = GoMap.put s.sessions username (GoMap.put (peers_of s username) conn session_id);
  peer_locks = GoMap.put s.peer_locks conn true;
}

-- The start of `HandleP2P`, with the identifier that it makes: the registration and what is written.
unfoldable pub connect_peer : Signaling → String → Peer → String → Signaling × Signals
unfolding add_peer broadcast_peer_list
connect_peer s username conn session_id =
    if str_eq username ""
    then (s, [])
    else (let added = add_peer s username conn session_id in
        let greeting : SignalMessage = record {
          type = "session-id";
          from = "";
          to = "";
          session_id = session_id;
          content = no_data;
        } in
        (added, (conn, greeting) ∷ broadcast_peer_list added username))

abbrev put_peers : GoMap String Peers → String → Peers → GoMap String Peers
put_peers sessions username [] = GoMap.remove sessions username
put_peers sessions username (c ∷ conns) = GoMap.put sessions username (c ∷ conns)

-- The deferred function of `HandleP2P`.
unfoldable pub disconnect_peer : Signaling → String → Peer → Signaling × Signals
unfolding broadcast_peer_list
disconnect_peer s username conn =
    let removed = record s {
      sessions = elim (GoMap.get s.sessions username) [
        | none ↦ s.sessions
        | some conns ↦ put_peers s.sessions username (GoMap.remove conns conn)
      ];
      peer_locks = GoMap.remove s.peer_locks conn;
    } in
    (removed, broadcast_peer_list removed username)

-- A round of the loop; `none` is a message that `json.Unmarshal` refuses.
unfoldable pub receive_signal : Signaling → String → Peer → String → Option SignalMessage → Signals
unfolding route_message
receive_signal s username conn session_id none = []
receive_signal s username conn session_id (some signal) =
    route_message s username conn (record signal { from = session_id })

-- `active_peers` of `Stats`.
unfoldable pub count_peers : GoMap String Peers → ℕ
count_peers [] = 0
count_peers ((_, conns) ∷ rest) = length conns + count_peers rest
