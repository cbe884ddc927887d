-- ===== src/Server/Signaling/Routing.antt =====
-- server/handler/p2p_signaling.go: the peers that a signal is written to.
use clip_cascade_go_fork.Prelude.{
  ◌≡◌, ◌≢◌, refl, ap, ◌∙◌, Bool, true, false, not, ◌&&◌, none, some, String, List, [], ◌∷◌,
  if◌then◌else◌, is_some, str_eq, eq_iff, ◌==◌, All, Pairwise, arith, if_cases, Bool-cases,
  Option-cases, inl, inr,
}
use clip_cascade_go_fork.Prelude.Eq.{nat_eq, string_eq, ==_iff}
use clip_cascade_go_fork.GoMap
use clip_cascade_go_fork.GoMap.{GoMap, DistinctKeys, get_absent, All-get}
use clip_cascade_go_fork.Server.Signaling.{
  Peer, Peers, Signaling, SignalMessage, Signals, peers_of, write_signals, lock_peers,
  directed_target, other_peers, route_targets, route_message, receive_signal,
}

-- What is written to one peer, in order.
abbrev pub signals_to : Signals → Peer → List SignalMessage
signals_to [] c = []
signals_to ((d, s) ∷ signals) c =
    let rest = signals_to signals c in if d == c then s ∷ rest else rest

abbrev pub has_lock : GoMap Peer Bool → Peer → Bool
has_lock locks c = is_some (GoMap.get locks c)

write_signals-to :
    (locks : GoMap Peer Bool) (conns : Peers) (signal : SignalMessage) (c : Peer)
    → DistinctKeys conns
    → signals_to (write_signals (lock_peers locks conns) signal) c
      ≡ (if is_some (GoMap.get conns c) && has_lock locks c then signal ∷ [] else [])
unfolding write_signals lock_peers GoMap.get
write_signals-to locks [] signal c d = refl
write_signals-to locks ((i, sid) ∷ conns) signal c d = elim (Bool-cases (i == c)) [
  | inl q ↦
      let same : i ≡ c = (==_iff i c).0 q in
      let alone : GoMap.get conns c ≡ none = rw (← same) (get_absent conns i d.0) in
      let lock : has_lock locks i ≡ has_lock locks c = ap (has_lock locks) same in
      ground (arith, write_signals-to locks conns signal c d.1, alone, lock, q)
  | inr q ↦ ground (arith, write_signals-to locks conns signal c d.1, q)
]

get-other_peers :
    (conns : Peers) (sender c : Peer)
    → GoMap.get (other_peers conns sender) c ≡ (if sender == c then none else GoMap.get conns c)
unfolding other_peers GoMap.get
get-other_peers [] sender c = ground arith
get-other_peers ((i, sid) ∷ conns) sender c =
    ground (arith, get-other_peers conns sender c, ==_iff i sender, ==_iff i c, ==_iff sender c)

All-other_peers :
    (P : Peer × String → Type 0) (conns : Peers) (sender : Peer)
    → All P conns
    → All P (other_peers conns sender)
unfolding other_peers
All-other_peers P [] sender h = h
All-other_peers P ((i, sid) ∷ conns) sender h =
    let rest = All-other_peers P conns sender h.1 in
    if_cases (All P) (not (i == sender)) (λ _. (h.0, rest)) (λ _. rest)

DistinctKeys-other_peers :
    (conns : Peers) (sender : Peer) → DistinctKeys conns → DistinctKeys (other_peers conns sender)
unfolding other_peers
DistinctKeys-other_peers [] sender d = d
DistinctKeys-other_peers ((i, sid) ∷ conns) sender d =
    let rest = DistinctKeys-other_peers conns sender d.1 in
    if_cases DistinctKeys (not (i == sender))
      (λ _. (All-other_peers (λ y. i ≢ y.0) conns sender d.0, rest)) (λ _. rest)

-- No two connections of a user have the same session identifier.
abbrev pub DistinctSessions : Peers → Type 0
DistinctSessions = Pairwise (λ x y. x.1 ≢ y.1)

-- Whether a signal from `sender` is for the peer `c`.
abbrev pub reaches : Peers → Peer → String → Peer → Bool
reaches conns sender to c = elim (GoMap.get conns c) [
  | none ↦ false
  | some sid ↦ not (sender == c) && (if str_eq to "" then true else str_eq sid to)
]

lacks_session :
    (conns : Peers) (to : String) (c : Peer) (sid : String)
    → All (λ y. to ≢ y.1) conns
    → GoMap.get conns c ≡ some sid
    → str_eq sid to ≡ false
lacks_session conns to c sid a h =
    let other : to ≢ sid = All-get (λ t. to ≢ t) conns c sid a h in
    ground (arith, eq_iff sid to, other)

directed_target-reaches :
    (conns : Peers) (sender : Peer) (to : String) (c : Peer)
    → DistinctKeys conns
    → DistinctSessions conns
    → str_eq to "" ≡ false
    → is_some (GoMap.get (directed_target conns sender to) c) ≡ reaches conns sender to c
unfolding directed_target GoMap.get
directed_target-reaches [] sender to c d e n = refl
directed_target-reaches ((i, sid) ∷ conns) sender to c d e n =
    elim (Bool-cases (str_eq sid to && not (i == sender))) [
      | inl q ↦
          let same : sid ≡ to = ground (arith, eq_iff sid to, q) in
          let only : All (λ y. to ≢ y.1) conns = rw (← same) e.0 in
          elim (Option-cases (GoMap.get conns c)) [
            | inl g ↦ ground (arith, q, g, n, ==_iff i c, ==_iff i sender, ==_iff sender c)
            | inr (t, g) ↦ ground (
              arith,
              q,
              g,
              n,
              ==_iff i c,
              ==_iff i sender,
              ==_iff sender c,
              lacks_session conns to c t only g,
            )
          ]
      | inr q ↦ elim (Bool-cases (i == c)) [
        | inl w ↦
            let alone : GoMap.get conns c ≡ none =
              rw (← (==_iff i c).0 w) (get_absent conns i d.0) in
            ground (
              arith,
              directed_target-reaches conns sender to c d.1 e.1 n,
              q,
              w,
              n,
              alone,
              ==_iff i c,
              ==_iff i sender,
              ==_iff sender c,
            )
        | inr w ↦ ground (arith, directed_target-reaches conns sender to c d.1 e.1 n, q, w)
      ]
    ]

DistinctKeys-directed_target :
    (conns : Peers) (sender : Peer) (to : String) → DistinctKeys (directed_target conns sender to)
unfolding directed_target
DistinctKeys-directed_target [] sender to = tt
DistinctKeys-directed_target ((i, sid) ∷ conns) sender to =
    if_cases DistinctKeys (str_eq sid to && not (i == sender)) (λ _. (tt, tt))
      (λ _. DistinctKeys-directed_target conns sender to)

route_targets-reaches :
    (conns : Peers) (sender : Peer) (to : String) (c : Peer)
    → DistinctKeys conns
    → DistinctSessions conns
    → (is_some (GoMap.get (route_targets conns sender to) c) ≡ reaches conns sender to c)
      × DistinctKeys (route_targets conns sender to)
unfolding route_targets
route_targets-reaches conns sender to c d e = elim (Bool-cases (str_eq to "")) [
  | inl q ↦
      rw q
        (ground (arith, get-other_peers conns sender c, q), DistinctKeys-other_peers conns sender d)
  | inr q ↦ rw q (
    directed_target-reaches conns sender to c d e q,
    DistinctKeys-directed_target conns sender to,
  )
]

-- Where the connections of a user have different session identifiers, a signal that a connection
-- sends is written once to each connection of the same user that it is for and that has a lock, and
-- to no other: to the one with the identifier it names, if that is not the sender, or, if it names
-- none, to all but the sender. It bears the identifier of the sender, whatever the sender wrote.
pub receive_signal_routed :
    (s : Signaling) (username : String) (sender : Peer) (session_id : String)
    (signal : SignalMessage) (c : Peer)
    → DistinctKeys (peers_of s username)
    → DistinctSessions (peers_of s username)
    → signals_to (receive_signal s username sender session_id (some signal)) c ≡ (
        if reaches (peers_of s username) sender signal.to c && has_lock s.peer_locks c
        then record signal { from = session_id } ∷ []
        else [])
unfolding receive_signal route_message
receive_signal_routed s username sender session_id signal c d e =
    let (reached, distinct) = route_targets-reaches (peers_of s username) sender signal.to c d e in
    write_signals-to s.peer_locks (route_targets (peers_of s username) sender signal.to)
      (record signal { from = session_id }) c distinct
    ∙ rw reached refl
