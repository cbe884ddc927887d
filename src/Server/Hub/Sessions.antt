-- ===== src/Server/Hub/Sessions.antt =====
-- server/handler/ws_hub.go: the open connections, each in its loop of `HandleWebSocket`, as a step
-- relation. The steps of the connections come in any order; a broadcast is one step.
use clip_cascade_go_fork.Prelude.{
  ◌≡◌, Bool, none, some, String, List, [], ◌++◌, if◌then◌else◌, str_eq,
}
use clip_cascade_go_fork.Prelude.Int.{ℤ}
use clip_cascade_go_fork.Prelude.Eq.{nat_eq}
use clip_cascade_go_fork.GoMap
use clip_cascade_go_fork.GoMap.{GoMap}
use clip_cascade_go_fork.Protocol.Text.{Text}
use clip_cascade_go_fork.Server.Hub.{
  Conn, Hub, new_hub, register, unregister, Write, handle_message,
}

-- The variables of a running `HandleWebSocket`.
pub record Session : Type 0 where
  pub username : String
  pub subscription_id : Text

pub record World : Type 0 where
  pub hub : Hub
  pub sessions : GoMap Conn Session

-- The start of `HandleWebSocket`: a connection without a name is closed at once.
unfoldable pub open_session : World → String → Conn → World
open_session w username conn = if str_eq username "" then w else record {
  hub = register w.hub username conn;
  sessions = GoMap.put w.sessions conn (record { username = username; subscription_id = [] });
}

-- Its end, by a read error or by DISCONNECT: the deferred calls.
unfoldable pub close_session : World → Session → Conn → World
close_session w s conn = record {
  hub = unregister w.hub s.username conn;
  sessions = GoMap.remove w.sessions conn;
}

-- A round of the loop.
unfoldable pub receive : (Text → Bool) → World → Session → Conn → Text → World × List Write
unfolding close_session
receive is_clipboard_data w s conn msg =
    let (l, writes, goes_on) =
      handle_message is_clipboard_data (record { hub = w.hub; subscription_id = s.subscription_id })
        s.username conn msg in
    let left : World = record {
      hub = l.hub;
      sessions = GoMap.put w.sessions conn (record s { subscription_id = l.subscription_id });
    } in
    (if goes_on then left else close_session left s conn, writes)

-- The worlds that the server can be in, with all that was written so far. A new connection is not
-- one that is open.
pub data Reach (is_clipboard_data : Text → Bool) (limits : List ℤ)
    : World → List Write → Type 0 where
  starts : Reach is_clipboard_data limits (record { hub = new_hub limits; sessions = [] }) []
  opens :
      (w : World) (log : List Write) (username : String) (conn : Conn)
      → Reach is_clipboard_data limits w log
      → GoMap.get w.sessions conn ≡ none
      → Reach is_clipboard_data limits (open_session w username conn) log
  receives :
      (w : World) (log : List Write) (s : Session) (conn : Conn) (msg : Text)
      → Reach is_clipboard_data limits w log
      → GoMap.get w.sessions conn ≡ some s
      → Reach is_clipboard_data limits
          (receive is_clipboard_data w s conn msg).0
          (log ++ (receive is_clipboard_data w s conn msg).1)
  closes :
      (w : World) (log : List Write) (s : Session) (conn : Conn)
      → Reach is_clipboard_data limits w log
      → GoMap.get w.sessions conn ≡ some s
      → Reach is_clipboard_data limits (close_session w s conn) log
