-- ===== src/Transport/Fragments.antt =====
-- desktop/transport/p2p_client.go: a message is cut into fragments, which every peer puts together
-- again. The messages are Go strings, lists of bytes.
pub mod Utf8
pub mod Cut
pub mod Pieces
pub mod Filling
pub mod Reassembly
pub mod Others
pub mod Sending
use clip_cascade_go_fork.Prelude.{
  ℕ, zero, suc, ◌+◌, ◌-◌, ◌*◌, ◌/◌, Bool, true, false, not, ◌&&◌, ◌||◌, Option, none, some, String,
  List, [], ◌∷◌, ◌++◌, length, set, if◌then◌else◌, ltb, is_some, Result, ok, err, str_eq,
}
use clip_cascade_go_fork.Prelude.Int.{ℤ, pos, negsuc}
use clip_cascade_go_fork.Prelude.Eq.{string_eq}
use clip_cascade_go_fork.GoMap
use clip_cascade_go_fork.GoMap.{GoMap}

abbrev pub Bytes : Type 0
Bytes = List ℕ

-- `constants.FragmentSize`
abbrev pub fragment_size : ℕ
fragment_size = 16384

pub record Fragment : Type 0 where
  pub payload : Bytes
  pub id : String
  pub index : ℤ
  pub total_fragments : ℤ

-- `b[start:end]`
abbrev pub take : ℕ → Bytes → Bytes
take zero s = []
take (suc n) [] = []
take (suc n) (c ∷ s) = c ∷ take n s

abbrev pub drop : ℕ → Bytes → Bytes
drop zero s = s
drop (suc n) [] = []
drop (suc n) (c ∷ s) = drop n s

abbrev pub slice : Bytes → ℕ → ℕ → Bytes
slice message start end = take (end - start) (drop start message)

unfoldable pub num_fragments : Bytes → ℕ
num_fragments message = (length message + fragment_size - 1) / fragment_size

abbrev pub fragment_end : Bytes → ℕ → ℕ
fragment_end message start =
    if ltb (length message) (start + fragment_size) then length message else start + fragment_size

unfoldable pub make_fragment : String → Bytes → ℕ → Fragment
unfolding num_fragments
make_fragment id message i = record {
  payload = slice message (i * fragment_size) (fragment_end message (i * fragment_size));
  id = id;
  index = pos i;
  total_fragments = pos (num_fragments message);
}

-- The loop of `send` from `i` on, with the number of rounds that are left.
unfoldable pub make_fragments : String → Bytes → ℕ → ℕ → List Fragment
unfolding make_fragment
make_fragments id message i zero = []
make_fragments id message i (suc left) =
    make_fragment id message i ∷ make_fragments id message (suc i) left

unfoldable pub cut_message : String → Bytes → List Fragment
unfolding num_fragments make_fragments
cut_message id message = make_fragments id message 0 (num_fragments message)

-- A data channel: whether it is open and, by the index, whether a send on it succeeds.
pub record Channel : Type 0 where
  pub is_open : Bool
  pub sends : ℤ → Bool

-- The inner loop of `send`: what is sent, and `sentPeers`.
unfoldable pub send_fragment :
    GoMap String Channel
    → String
    → Fragment
    → GoMap String Bool
    → List (String × Fragment) × GoMap String Bool
send_fragment [] target frag sent = ([], sent)
send_fragment ((sid, channel) ∷ channels) target frag sent =
    let goes =
      (str_eq target "" || str_eq sid target) && channel.is_open && channel.sends frag.index in
    let (writes, peers) =
      send_fragment channels target frag (if goes then GoMap.put sent sid true else sent) in
    (if goes then (sid, frag) ∷ writes else writes, peers)

unfoldable pub send_fragments :
    GoMap String Channel
    → String
    → List Fragment
    → GoMap String Bool
    → List (String × Fragment) × GoMap String Bool
unfolding send_fragment
send_fragments channels target [] sent = ([], sent)
send_fragments channels target (frag ∷ frags) sent =
    let (writes, peers) = send_fragment channels target frag sent in
    let (rest, all_peers) = send_fragments channels target frags peers in
    (writes ++ rest, all_peers)

-- `send`, with the identifier that it makes: what is sent, and the number of peers.
unfoldable pub send : GoMap String Channel → String → String → Bytes → List (String × Fragment) × ℕ
unfolding cut_message send_fragments
send channels id target message =
    let (writes, peers) = send_fragments channels target (cut_message id message) [] in
    (writes, length peers)

-- A message of a data channel: its bytes, and the fragment that `json.Unmarshal` reads, if it does.
pub record ChannelMessage : Type 0 where
  pub raw : Bytes
  pub fragment : Option Fragment

pub data MessageError : Type 0 where
  index_out_of_range : MessageError

-- The fragments that came, by the identifier of the message; an empty one is one that did not.
abbrev pub Receiving : Type 0
Receiving = GoMap String (List Bytes)

abbrev pub blanks : ℕ → List Bytes
blanks zero = []
blanks (suc n) = [] ∷ blanks n

abbrev pub is_complete : List Bytes → Bool
is_complete [] = true
is_complete ([] ∷ fs) = false
is_complete ((c ∷ f) ∷ fs) = is_complete fs

-- `strings.Join(fs, "")`
abbrev pub join : List Bytes → Bytes
join [] = []
join (f ∷ fs) = f ++ join fs

-- The entry of the message, with the new fragment.
unfoldable pub complete_or_wait : Receiving → String → List Bytes → Receiving × Option Bytes
complete_or_wait receiving id entry =
    if is_complete entry
    then (GoMap.remove receiving id, some (join entry))
    else (GoMap.put receiving id entry, none)

abbrev pub entry_of : Receiving → String → ℕ → List Bytes
entry_of receiving id total = elim (GoMap.get receiving id) [
  | none ↦ blanks total
  | some entry ↦ entry
]

unfoldable pub store_fragment :
    Receiving → Fragment → ℕ → ℤ → Result MessageError (Receiving × Option Bytes)
unfolding complete_or_wait
store_fragment receiving frag total (negsuc i) = err index_out_of_range
store_fragment receiving frag total (pos i) =
    if ltb i (length (entry_of receiving frag.id total))
    then ok
        (complete_or_wait receiving frag.id (set (entry_of receiving frag.id total) i frag.payload))
    else err index_out_of_range

unfoldable pub handle_fragment :
    Receiving → Bytes → Fragment → ℤ → Result MessageError (Receiving × Option Bytes)
unfolding store_fragment
handle_fragment receiving raw frag (pos zero) = ok (receiving, some raw)
handle_fragment receiving raw frag (pos (suc zero)) = ok (receiving, some frag.payload)
handle_fragment receiving raw frag (pos (suc (suc n))) =
    store_fragment receiving frag (suc (suc n)) frag.index
handle_fragment receiving raw frag (negsuc n) = ok (receiving, some frag.payload)

-- `OnMessage`: what is given to `onReceive`. An index out of range ends the program.
unfoldable pub on_message :
    Receiving → ChannelMessage → Result MessageError (Receiving × Option Bytes)
unfolding handle_fragment
on_message receiving msg = elim msg.fragment [
  | none ↦ ok (receiving, some msg.raw)
  | some frag ↦ handle_fragment receiving msg.raw frag frag.total_fragments
]

unfoldable pub on_messages :
    Receiving → List ChannelMessage → Result MessageError (Receiving × List Bytes)
unfolding on_message
on_messages receiving [] = ok (receiving, [])
on_messages receiving (msg ∷ msgs) = elim (on_message receiving msg) [
  | err e ↦ err e
  | ok (next, report) ↦ elim (on_messages next msgs) [
    | err e ↦ err e
    | ok (last, reports) ↦ ok (last, elim report [ none ↦ reports | some r ↦ r ∷ reports ])
  ]
]
