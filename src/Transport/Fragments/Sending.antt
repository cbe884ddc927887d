-- ===== src/Transport/Fragments/Sending.antt =====
-- desktop/transport/p2p_client.go: the peers that `send` writes to.
use clip_cascade_go_fork.Prelude.{
  ◌≡◌, refl, ◌∙◌, Bool, true, false, ◌&&◌, ◌||◌, Option, none, some, String, List, [], ◌∷◌, ◌++◌,
  if◌then◌else◌, arith, str_eq, eq_iff,
}
use clip_cascade_go_fork.Prelude.Int.{ℤ}
use clip_cascade_go_fork.Prelude.Eq.{string_eq}
use clip_cascade_go_fork.GoMap
use clip_cascade_go_fork.GoMap.{GoMap, DistinctKeys, get_absent}
use clip_cascade_go_fork.Transport.Fragments.{
  Bytes, Fragment, Channel, cut_message, send_fragment, send_fragments, send,
}

-- What is sent to one peer, in order.
abbrev pub sent_to : List (String × Fragment) → String → List Fragment
sent_to [] sid = []
sent_to ((s, frag) ∷ writes) sid =
    let rest = sent_to writes sid in if str_eq s sid then frag ∷ rest else rest

abbrev goes_to : Option Channel → String → Fragment → String → Bool
goes_to none target frag sid = false
goes_to (some c) target frag sid =
    (str_eq target "" || str_eq sid target) && c.is_open && c.sends frag.index

sent_to-append :
    (a b : List (String × Fragment)) (sid : String)
    → sent_to (a ++ b) sid ≡ sent_to a sid ++ sent_to b sid
sent_to-append [] b sid = refl
sent_to-append ((s, f) ∷ a) b sid = ground (arith, sent_to-append a b sid)

sent_to-send_fragment :
    (channels : GoMap String Channel) (target : String) (frag : Fragment) (sent : GoMap String Bool)
    (sid : String)
    → DistinctKeys channels
    → sent_to (send_fragment channels target frag sent).0 sid
      ≡ (if goes_to (GoMap.get channels sid) target frag sid then frag ∷ [] else [])
unfolding send_fragment GoMap.get
sent_to-send_fragment [] target frag sent sid d = refl
sent_to-send_fragment ((s, c) ∷ channels) target frag sent sid d =
    let goes = (str_eq target "" || str_eq s target) && c.is_open && c.sends frag.index in
    let rest =
      sent_to-send_fragment channels target frag (if goes then GoMap.put sent s true else sent) sid
        d.1 in
    ground (arith, rest, get_absent channels s d.0, eq_iff s sid)

-- What a channel should be sent.
abbrev pub wanted : Option Channel → String → String → List Fragment → List Fragment
wanted none target sid frags = []
wanted (some c) target sid frags =
    if (str_eq target "" || str_eq sid target) && c.is_open then frags else []

wanted_none : (o : Option Channel) (target sid : String) → [] ≡ wanted o target sid []
wanted_none none target sid = refl
wanted_none (some c) target sid = ground arith

wanted_more :
    (o : Option Channel) (target sid : String) (frag : Fragment) (frags : List Fragment)
    → ((c : Channel) → o ≡ some c → c.sends frag.index ≡ true)
    → (if goes_to o target frag sid then frag ∷ [] else []) ++ wanted o target sid frags
      ≡ wanted o target sid (frag ∷ frags)
wanted_more none target sid frag frags takes = refl
wanted_more (some c) target sid frag frags takes = ground (arith, takes c refl)

sent_to-send_fragments :
    (channels : GoMap String Channel) (target : String) (frags : List Fragment)
    (sent : GoMap String Bool) (sid : String)
    → DistinctKeys channels
    → ((i : ℤ) (c : Channel) → GoMap.get channels sid ≡ some c → c.sends i ≡ true)
    → sent_to (send_fragments channels target frags sent).0 sid
      ≡ wanted (GoMap.get channels sid) target sid frags
unfolding send_fragments
sent_to-send_fragments channels target [] sent sid d takes =
    wanted_none (GoMap.get channels sid) target sid
sent_to-send_fragments channels target (frag ∷ frags) sent sid d takes =
    let (writes, peers) = send_fragment channels target frag sent in
    let rest = sent_to-send_fragments channels target frags peers sid d takes in
    let first = sent_to-send_fragment channels target frag sent sid d in
    sent_to-append writes (send_fragments channels target frags peers).0 sid
    ∙ rw (first, rest)
        (wanted_more (GoMap.get channels sid) target sid frag frags (takes frag.index))

-- Where every send on the channel of a peer succeeds, that peer is sent all the fragments of the
-- message in their order if its channel is open and the message is for it or for all, and nothing
-- otherwise.
pub sent_to-send :
    (channels : GoMap String Channel) (id target : String) (message : Bytes) (sid : String)
    → DistinctKeys channels
    → ((i : ℤ) (c : Channel) → GoMap.get channels sid ≡ some c → c.sends i ≡ true)
    → sent_to (send channels id target message).0 sid
      ≡ wanted (GoMap.get channels sid) target sid (cut_message id message)
unfolding send
sent_to-send channels id target message sid d takes =
    sent_to-send_fragments channels target (cut_message id message) [] sid d takes
