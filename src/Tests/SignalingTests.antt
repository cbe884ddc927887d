-- ===== src/Tests/SignalingTests.antt =====
-- The signaling of the peers, at concrete inputs.
use clip_cascade_go_fork.Prelude.{
  ◌≡◌, ◌≢◌, refl, true, false, ◌&&◌, some, String, [], ◌∷◌, if◌then◌else◌, str_eq, eq_iff, arith,
}
use clip_cascade_go_fork.Prelude.Int.{pos}
use clip_cascade_go_fork.Prelude.Eq.{nat_eq, string_eq}
use clip_cascade_go_fork.GoMap
use clip_cascade_go_fork.GoMap.{GoMap, DistinctKeys}
use clip_cascade_go_fork.Server.Signaling.{
  Peers, Signaling, SignalMessage, raw_data, peers_of, receive_signal, connect_peer,
  disconnect_peer, new_signaling, add_peer,
}
use clip_cascade_go_fork.Server.Signaling.Routing.{
  signals_to, has_lock, reaches, DistinctSessions, receive_signal_routed,
}

abbrev three_peers : Peers
three_peers = (1, "p1") ∷ (2, "p2") ∷ (3, "p3") ∷ []

abbrev meeting : Signaling
meeting = record {
  sessions = ("ann", three_peers) ∷ [];
  peer_locks = (1, true) ∷ (2, true) ∷ (3, true) ∷ [];
  signal_limit_bytes = pos 0;
}

abbrev offer : SignalMessage
offer = record {
  type = "offer";
  from = "forged";
  to = "p2";
  session_id = "";
  content = raw_data "{}";
}

-- The last of the peers to leave takes the entry of the user along.
left_empty :
    (disconnect_peer (connect_peer (new_signaling []) "ann" 1 "p1").0 "ann" 1).0.sessions ≡ []
unfolding disconnect_peer connect_peer new_signaling add_peer GoMap.get GoMap.put GoMap.remove
left_empty = refl

apart : (s t : String) → str_eq s t ≡ false → s ≢ t
apart s t e h = (let clash : str_eq s t ≡ true = (eq_iff s t).1 h in cc)

three_peers-DistinctKeys : DistinctKeys three_peers
three_peers-DistinctKeys =
    ((λ h. ground arith, (λ h. ground arith, tt)), ((λ h. ground arith, tt), (tt, tt)))

three_peers-DistinctSessions : DistinctSessions three_peers
three_peers-DistinctSessions =
    ((apart "p1" "p2" refl, (apart "p1" "p3" refl, tt)), ((apart "p2" "p3" refl, tt), (tt, tt)))

meeting-peers_of : peers_of meeting "ann" ≡ three_peers
unfolding GoMap.get
meeting-peers_of = refl

receive_signal_routed_example : signals_to (receive_signal meeting "ann" 1 "p1" (some offer)) 2 ≡ (
    if reaches (peers_of meeting "ann") 1 "p2" 2 && has_lock meeting.peer_locks 2
    then record offer { from = "p1" } ∷ []
    else [])
receive_signal_routed_example =
    receive_signal_routed meeting "ann" 1 "p1" offer 2
      (rw meeting-peers_of three_peers-DistinctKeys)
      (rw meeting-peers_of three_peers-DistinctSessions)
