-- ===== src/Server/Hub/Sound.antt =====
-- server/handler/ws_hub.go: the hub and its sessions, in the worlds that can be reached.
use clip_cascade_go_fork.Prelude.{
  ◌≡◌, refl, Bool, none, some, String, List, [], arith, str_eq, if_cases, result_cases, All,
}
use clip_cascade_go_fork.Prelude.Int.{ℤ}
use clip_cascade_go_fork.Prelude.Eq.{nat_eq, string_eq, ==_iff}
use clip_cascade_go_fork.GoMap
use clip_cascade_go_fork.GoMap.{
  GoMap, DistinctKeys, DistinctKeys-put, get-put, get-remove, All-put, All-remove, All-get,
}
use clip_cascade_go_fork.Protocol.Text.{Text, codes, text_beq, text_eq}
use clip_cascade_go_fork.Protocol.Stomp.{Frame, parse_frame}
use clip_cascade_go_fork.Protocol.Stomp.RoundTrip.{IsClean}
use clip_cascade_go_fork.Protocol.Stomp.Parsed.{parse_frame-IsClean}
use clip_cascade_go_fork.Server.Hub.{
  Conn, Hub, new_hub, conns_of, Write, broadcast, Loop, count_inbound, handle_frame, handle_message,
}
use clip_cascade_go_fork.Server.Hub.Sessions.{
  Session, World, open_session, close_session, receive, Reach, starts, opens, receives, closes,
}
use clip_cascade_go_fork.Server.Hub.Registry.{
  Consistent, register-Consistent, unregister-Consistent,
}
use clip_cascade_go_fork.Server.Hub.Replies.{IsValue, get_header-IsValue}

-- The hub's maps and the texts of the sessions.
pub record IsSound (w : World) : Type 0 where
  pub registry : Consistent w.hub w.sessions
  pub values : All (λ e. IsValue e.1.subscription_id) w.sessions

-- What a round of the loop leaves as it is.
record Kept (h : Hub) (l : Loop) : Type 0 where
  same_connections : l.hub.connections ≡ h.connections
  same_locks : l.hub.write_locks ≡ h.write_locks
  value : IsValue l.subscription_id

handle_frame-Kept :
    (p : Text → Bool) (l : Loop) (u : String) (c : Conn) (f : Frame)
    → IsValue l.subscription_id
    → IsClean f
    → Kept l.hub (handle_frame p l u c f).0
unfolding handle_frame broadcast
handle_frame-Kept p l u c f v k =
    let same : Kept l.hub l = record { same_connections = refl; same_locks = refl; value = v } in
    let P = λ (r : Loop × List Write × Bool). Kept l.hub r.0 in
    if_cases P (text_beq f.command (codes "CONNECT")) (λ _. same)
      (λ _.
        if_cases P (text_beq f.command (codes "SUBSCRIBE"))
          (λ _. record {
            same_connections = refl;
            same_locks = refl;
            value = get_header-IsValue f (codes "id") k;
          })
          (λ _.
            if_cases P (text_beq f.command (codes "SEND"))
              (λ _.
                if_cases P (p f.body)
                  (λ _. record { same_connections = refl; same_locks = refl; value = v })
                  (λ _. same))
              (λ _. if_cases P (text_beq f.command (codes "DISCONNECT")) (λ _. same) (λ _. same))))

handle_message-Kept :
    (p : Text → Bool) (l : Loop) (u : String) (c : Conn) (msg : Text)
    → IsValue l.subscription_id
    → Kept l.hub (handle_message p l u c msg).0
unfolding handle_message
handle_message-Kept p l u c msg v =
    result_cases (λ (r : Loop × List Write × Bool). Kept l.hub r.0) (parse_frame msg)
      (λ _ _. record { same_connections = refl; same_locks = refl; value = v })
      (λ f q.
        (let k = handle_frame-Kept p (count_inbound l) u c f v (parse_frame-IsClean msg f q) in
          record {
            same_connections = k.same_connections;
            same_locks = k.same_locks;
            value = k.value;
          }))

Consistent-Kept :
    (h : Hub) (l : Loop) (sessions : GoMap Conn Session)
    → Kept h l
    → Consistent h sessions
    → Consistent l.hub sessions
Consistent-Kept h l sessions k r = record {
  members = λ u c. rw (conns_of, k.same_connections) (r.members u c);
  locks = λ c. rw k.same_locks (r.locks c);
  no_empty = λ u. rw k.same_connections (r.no_empty u);
  distinct = λ u. rw (conns_of, k.same_connections) (r.distinct u);
}

-- A session that changes its subscription stays that of its user.
Consistent-put :
    (h : Hub) (sessions : GoMap Conn Session) (s t : Session) (c : Conn)
    → GoMap.get sessions c ≡ some s
    → t.username ≡ s.username
    → Consistent h sessions
    → Consistent h (GoMap.put sessions c t)
Consistent-put h sessions s t c here same r = record {
  members = λ u d. ground (arith, get-put sessions c d t, r.members u d, same, here, ==_iff c d);
  locks = λ d. ground (arith, get-put sessions c d t, r.locks d, here, ==_iff c d);
  no_empty = r.no_empty;
  distinct = r.distinct;
}

open_session-IsSound :
    (w : World) (u : String) (c : Conn)
    → GoMap.get w.sessions c ≡ none
    → IsSound w
    → IsSound (open_session w u c)
unfolding open_session
open_session-IsSound w u c new k =
    if_cases IsSound (str_eq u "") (λ _. k)
      (λ _.
        (let s : Session = record { username = u; subscription_id = [] } in
          record {
            registry = register-Consistent w.hub w.sessions s c new k.registry;
            values = All-put (λ e. IsValue e.1.subscription_id) w.sessions c s (tt, tt) k.values;
          }))

close_session-IsSound :
    (w : World) (s : Session) (c : Conn)
    → GoMap.get w.sessions c ≡ some s
    → IsSound w
    → IsSound (close_session w s c)
unfolding close_session
close_session-IsSound w s c here k = record {
  registry = unregister-Consistent w.hub w.sessions s c here k.registry;
  values = All-remove (λ e. IsValue e.1.subscription_id) w.sessions c k.values;
}

receive-IsSound :
    (p : Text → Bool) (w : World) (s : Session) (c : Conn) (msg : Text)
    → GoMap.get w.sessions c ≡ some s
    → IsSound w
    → IsSound (receive p w s c msg).0
unfolding receive
receive-IsSound p w s c msg here k =
    let l =
      (handle_message p (record { hub = w.hub; subscription_id = s.subscription_id }) s.username c
        msg).0 in
    let v = All-get (λ t. IsValue t.subscription_id) w.sessions c s k.values here in
    let kept : Kept w.hub l =
      handle_message-Kept p (record { hub = w.hub; subscription_id = s.subscription_id }) s.username
        c msg v in
    let t : Session = record s { subscription_id = l.subscription_id } in
    let left : World = record { hub = l.hub; sessions = GoMap.put w.sessions c t } in
    let sound : IsSound left = record {
      registry =
          Consistent-put l.hub w.sessions s t c here refl
            (Consistent-Kept w.hub l w.sessions kept k.registry);
      values = All-put (λ e. IsValue e.1.subscription_id) w.sessions c t kept.value k.values;
    } in
    if_cases IsSound
      (handle_message p (record { hub = w.hub; subscription_id = s.subscription_id }) s.username c
        msg).2
      (λ _. sound)
      (λ _. close_session-IsSound left t c (ground (arith, get-put w.sessions c c t)) sound)

-- In every world that the server can reach, the connections listed under a user are exactly those
-- whose session is that user's, each once and each with its write lock, no user is kept without
-- connections, and the subscription of every session can be written into a header.
pub Reach-IsSound :
    (p : Text → Bool) (limits : List ℤ) (w : World) (log : List Write)
    → Reach p limits w log
    → IsSound w
unfolding new_hub GoMap.get
Reach-IsSound p limits w log starts = record {
  registry = record {
    members = λ u c. refl;
    locks = λ c. refl;
    no_empty = λ u e. cc;
    distinct = λ u. tt;
  };
  values = tt;
}
Reach-IsSound p limits _ _ (opens w log u c r new) =
    open_session-IsSound w u c new (Reach-IsSound p limits w log r)
Reach-IsSound p limits _ _ (receives w log s c msg r here) =
    receive-IsSound p w s c msg here (Reach-IsSound p limits w log r)
Reach-IsSound p limits _ _ (closes w log s c r here) =
    close_session-IsSound w s c here (Reach-IsSound p limits w log r)
