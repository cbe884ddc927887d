-- ===== src/Server/Hub/Delivery.antt =====
-- server/handler/ws_hub.go: what is written to the connections.
use clip_cascade_go_fork.Prelude.{
  suc, ◌≡◌, refl, ap, ◌∙◌, Bool, true, some, String, List, [], ◌∷◌, arith, if◌then◌else◌, is_some,
  if_cases, result_cases, All, Bool-cases, inl, inr, ◌==◌, ok, map, eq_refl,
}
use clip_cascade_go_fork.Prelude.Int.{ℤ}
use clip_cascade_go_fork.Prelude.Eq.{nat_eq, string_eq, ==_iff}
use clip_cascade_go_fork.GoMap
use clip_cascade_go_fork.GoMap.{
  GoMap, DistinctKeys, DistinctKeys-put, get-put, get-remove, All-put, All-remove, All-get,
  All-entries, get_absent,
}
use clip_cascade_go_fork.Protocol.Text.{Text, codes, text_beq, text_eq}
use clip_cascade_go_fork.Protocol.Stomp.{Frame, encode, parse_frame, get_header, message_frame}
use clip_cascade_go_fork.Protocol.Stomp.RoundTrip.{parse_frame-encode}
use clip_cascade_go_fork.Protocol.Stomp.Parsed.{parse_frame-IsClean}
use clip_cascade_go_fork.Server.Hub.{
  Conn, Conns, Hub, conns_of, with_locks, broadcast_targets, Write, write_all, broadcast, Loop,
  count_inbound, handle_frame, handle_message,
}
use clip_cascade_go_fork.Server.Hub.Sessions.{Session, World, receive, Reach}
use clip_cascade_go_fork.Server.Hub.Registry.{is_of, Consistent}
use clip_cascade_go_fork.Server.Hub.Sound.{Reach-IsSound}
use clip_cascade_go_fork.Server.Hub.Replies.{IsValue, get_header-IsValue, message_frame-IsClean}

-- What is written to one connection, in order.
abbrev pub received : List Write → Conn → List Text
received [] c = []
received ((d, t) ∷ writes) c = let rest = received writes c in if d == c then t ∷ rest else rest

write_all-locked :
    (locks : GoMap Conn Bool) (conns : Conns) (payload : Text)
    → All (λ e. is_some (GoMap.get locks e.0) ≡ true) conns
    → write_all (with_locks locks conns) payload ≡ map (λ e. (e.0, payload)) conns
unfolding write_all with_locks
write_all-locked locks [] payload h = refl
write_all-locked locks ((c, b) ∷ conns) payload h =
    rw (h.0, write_all-locked locks conns payload h.1) refl

received-map :
    (conns : Conns) (payload : Text) (c : Conn)
    → DistinctKeys conns
    → received (map (λ e. (e.0, payload)) conns) c
      ≡ (if is_some (GoMap.get conns c) then payload ∷ [] else [])
unfolding GoMap.get
received-map [] payload c d = refl
received-map ((i, b) ∷ conns) payload c d = elim (Bool-cases (i == c)) [
  | inl q ↦ ground (arith, received-map conns payload c d.1, get_absent conns i d.0, ==_iff i c)
  | inr q ↦ rw q (received-map conns payload c d.1)
]

-- What `Broadcast` writes, when the hub's maps are those of the sessions.
broadcast-received :
    (h : Hub) (sessions : GoMap Conn Session) (u : String) (sender : Conn) (payload : Text)
    (c : Conn)
    → Consistent h sessions
    → received (broadcast h u sender payload).1 c
      ≡ (if is_of u (GoMap.get sessions c) then payload ∷ [] else [])
unfolding broadcast broadcast_targets
broadcast-received h sessions u sender payload c r =
    let conns = conns_of h u in
    let locked : All (λ e. is_some (GoMap.get h.write_locks e.0) ≡ true) conns =
      All-entries (λ e. is_some (GoMap.get h.write_locks e.0) ≡ true) conns (r.distinct u)
        (λ d b q. ground (arith, r.members u d, r.locks d, q)) in
    rw
      (
        write_all-locked h.write_locks conns payload locked,
        received-map conns payload c (r.distinct u),
        r.members u c,
      )
      refl

-- The message that a SEND of this session becomes.
abbrev pub delivered : Session → Frame → Text
delivered s f =
    encode (message_frame (get_header f (codes "destination")) s.subscription_id [] f.body)

handle_frame_send :
    (p : Text → Bool) (l : Loop) (u : String) (c : Conn) (f : Frame)
    → f.command ≡ codes "SEND"
    → p f.body ≡ true
    → (handle_frame p l u c f).1
      ≡ (broadcast l.hub u c (
          encode
            (message_frame (get_header f (codes "destination")) l.subscription_id [] f.body))).1
unfolding handle_frame
handle_frame_send p l u c f cmd json = rw (handle_frame, cmd, json) refl

handle_message_frame :
    (p : Text → Bool) (l : Loop) (u : String) (c : Conn) (msg : Text) (f : Frame)
    → parse_frame msg ≡ ok f
    → handle_message p l u c msg ≡ handle_frame p (count_inbound l) u c f
unfolding handle_message
handle_message_frame p l u c msg f q = rw (handle_message, q) refl

-- A SEND is a broadcast to the user of the session.
send-broadcast :
    (p : Text → Bool) (w : World) (s : Session) (c : Conn) (msg : Text) (f : Frame)
    → parse_frame msg ≡ ok f
    → f.command ≡ codes "SEND"
    → p f.body ≡ true
    → (receive p w s c msg).1
      ≡ (broadcast
          (record w.hub { total_inbound_msgs = suc w.hub.total_inbound_msgs })
          s.username
          c
          (delivered s f)).1
unfolding receive
send-broadcast p w s c msg f q cmd json =
    let l : Loop = record { hub = w.hub; subscription_id = s.subscription_id } in
    ap (λ r. r.1) (handle_message_frame p l s.username c msg f q)
    ∙ handle_frame_send p (count_inbound l) s.username c f cmd json

-- In every world that the server can reach, when a session sends a SEND frame whose body is
-- clipboard data, every connection whose session has the sender's name, the sender itself
-- included, is written one message and every other connection none; and that message is read by
-- `ParseFrame` as the MESSAGE frame with the destination and the body that were sent.
pub send_delivered :
    (p : Text → Bool) (limits : List ℤ) (w : World) (log : List Write) (s : Session) (conn : Conn)
    (msg : Text) (f : Frame)
    → Reach p limits w log
    → GoMap.get w.sessions conn ≡ some s
    → parse_frame msg ≡ ok f
    → f.command ≡ codes "SEND"
    → p f.body ≡ true
    → ((c : Conn)
        → received (receive p w s conn msg).1 c
          ≡ (if is_of s.username (GoMap.get w.sessions c) then delivered s f ∷ [] else []))
      × (parse_frame (delivered s f)
          ≡ ok (message_frame (get_header f (codes "destination")) s.subscription_id [] f.body))
send_delivered p limits w log s conn msg f reach here q cmd json =
    let k = Reach-IsSound p limits w log reach in
    let clean = parse_frame-IsClean msg f q in
    let r = k.registry in
    let counted : Consistent (record w.hub { total_inbound_msgs = suc w.hub.total_inbound_msgs })
        w.sessions =
      record {
        members = r.members;
        locks = r.locks;
        no_empty = r.no_empty;
        distinct = r.distinct;
      } in
    (
      λ c.
          ap (λ writes. received writes c) (send-broadcast p w s conn msg f q cmd json)
          ∙ broadcast-received (record w.hub { total_inbound_msgs = suc w.hub.total_inbound_msgs })
              w.sessions s.username conn (delivered s f) c counted,
      parse_frame-encode
          (message_frame (get_header f (codes "destination")) s.subscription_id [] f.body)
          (message_frame-IsClean (get_header f (codes "destination")) s.subscription_id f.body
            (get_header-IsValue f (codes "destination") clean)
            (All-get (λ t. IsValue t.subscription_id) w.sessions conn s k.values here)
            clean.body_end),
    )

All-write_all :
    (P : Conn → Type 0) (locks : GoMap Conn Bool) (conns : Conns) (payload : Text)
    → All (λ e. P e.0) conns
    → All (λ e. P e.0) (write_all (with_locks locks conns) payload)
unfolding write_all with_locks
All-write_all P locks [] payload h = tt
All-write_all P locks ((c, b) ∷ conns) payload h =
    let rest = All-write_all P locks conns payload h.1 in
    if_cases (All (λ e. P e.0)) (is_some (GoMap.get locks c)) (λ _. (h.0, rest)) (λ _. rest)

-- The connections of one user.
abbrev pub Owned : GoMap Conn Session → String → Conn → Type 0
Owned sessions u c = is_of u (GoMap.get sessions c) ≡ true

broadcast_private :
    (h : Hub) (sessions : GoMap Conn Session) (u : String) (sender : Conn) (payload : Text)
    → Consistent h sessions
    → All (λ e. Owned sessions u e.0) (broadcast h u sender payload).1
unfolding broadcast broadcast_targets
broadcast_private h sessions u sender payload r =
    All-write_all (Owned sessions u) h.write_locks (conns_of h u) payload (
      All-entries (λ e. Owned sessions u e.0) (conns_of h u) (r.distinct u)
        (λ d b q. ground (arith, r.members u d, q)))

handle_frame_private :
    (p : Text → Bool) (l : Loop) (sessions : GoMap Conn Session) (u : String) (c : Conn) (f : Frame)
    → Consistent l.hub sessions
    → Owned sessions u c
    → All (λ e. Owned sessions u e.0) (handle_frame p l u c f).1
unfolding handle_frame
handle_frame_private p l sessions u c f r own =
    let P = λ (r : Loop × List Write × Bool). All (λ e. Owned sessions u e.0) r.1 in
    if_cases P (text_beq f.command (codes "CONNECT")) (λ _. (own, tt))
      (λ _.
        if_cases P (text_beq f.command (codes "SUBSCRIBE")) (λ _. tt)
          (λ _.
            if_cases P (text_beq f.command (codes "SEND"))
              (λ _. if_cases P (p f.body) (λ _. broadcast_private l.hub sessions u c _ r) (λ _. tt))
              (λ _. if_cases P (text_beq f.command (codes "DISCONNECT")) (λ _. tt) (λ _. tt))))

-- In every world that the server can reach, whatever text a connection sends, all that is written
-- in answer to it is written to connections whose session has the same name.
pub receive_private :
    (p : Text → Bool) (limits : List ℤ) (w : World) (log : List Write) (s : Session) (conn : Conn)
    (msg : Text)
    → Reach p limits w log
    → GoMap.get w.sessions conn ≡ some s
    → All (λ e. is_of s.username (GoMap.get w.sessions e.0) ≡ true) (receive p w s conn msg).1
unfolding receive handle_message
receive_private p limits w log s conn msg reach here =
    let r = (Reach-IsSound p limits w log reach).registry in
    let own : Owned w.sessions s.username conn = rw here (eq_refl s.username) in
    result_cases (λ (r : Loop × List Write × Bool). All (λ e. Owned w.sessions s.username e.0) r.1)
      (parse_frame msg) (λ _ _. tt)
      (λ f _.
        handle_frame_private p
          (count_inbound (record { hub = w.hub; subscription_id = s.subscription_id })) w.sessions
          s.username conn f
          (record {
            members = r.members;
            locks = r.locks;
            no_empty = r.no_empty;
            distinct = r.distinct;
          })
          own)
