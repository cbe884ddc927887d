-- ===== src/Transport/Fragments/Others.antt =====
-- desktop/transport/p2p_client.go: the fragments of different messages.
use clip_cascade_go_fork.Prelude.{
  ℕ, zero, suc, ◌≡◌, ◌≢◌, refl, Option, some, String, List, length, set, ltb, Result, ok, err,
  arith, eq_iff, match_cases, if_cases,
}
use clip_cascade_go_fork.Prelude.Int.{ℤ, pos, negsuc}
use clip_cascade_go_fork.Prelude.Eq.{string_eq}
use clip_cascade_go_fork.GoMap
use clip_cascade_go_fork.GoMap.{GoMap, get-put, get-remove}
use clip_cascade_go_fork.Transport.Fragments.{
  Bytes, Fragment, ChannelMessage, MessageError, Receiving, complete_or_wait, entry_of,
  store_fragment, handle_fragment, on_message,
}

other_wait :
    (receiving : Receiving) (id other : String) (entry : List Bytes)
    → other ≢ id
    → GoMap.get (complete_or_wait receiving other entry).0 id ≡ GoMap.get receiving id
unfolding complete_or_wait
other_wait receiving id other entry h =
    ground (arith, get-put receiving other id entry, get-remove receiving other id, eq_iff other id)

-- The entry of the message `id` is as before, or the program ended.
abbrev pub Keeps : Receiving → String → Result MessageError (Receiving × Option Bytes) → Type 0
Keeps receiving id (ok (next, report)) = GoMap.get next id ≡ GoMap.get receiving id
Keeps receiving id (err e) = Unit

store_fragment-Keeps :
    (receiving : Receiving) (frag : Fragment) (count : ℕ) (index : ℤ) (id : String)
    → frag.id ≢ id
    → Keeps receiving id (store_fragment receiving frag count index)
unfolding store_fragment
store_fragment-Keeps receiving frag count (negsuc i) id other = tt
store_fragment-Keeps receiving frag count (pos i) id other =
    if_cases (Keeps receiving id) (ltb i (length (entry_of receiving frag.id count)))
      (λ _.
        other_wait receiving id frag.id (set (entry_of receiving frag.id count) i frag.payload)
          other)
      (λ _. tt)

handle_fragment-Keeps :
    (receiving : Receiving) (raw : Bytes) (frag : Fragment) (count : ℤ) (id : String)
    → frag.id ≢ id
    → Keeps receiving id (handle_fragment receiving raw frag count)
unfolding handle_fragment
handle_fragment-Keeps receiving raw frag (pos zero) id other = refl
handle_fragment-Keeps receiving raw frag (pos (suc zero)) id other = refl
handle_fragment-Keeps receiving raw frag (pos (suc (suc n))) id other =
    store_fragment-Keeps receiving frag (suc (suc n)) frag.index id other
handle_fragment-Keeps receiving raw frag (negsuc n) id other = refl

-- A message of a data channel that is no fragment of the message `id`, be it a fragment of another
-- or none at all, leaves what has come of `id` as it is, unless it ends the program.
pub on_message-Keeps :
    (receiving : Receiving) (msg : ChannelMessage) (id : String)
    → ((frag : Fragment) → msg.fragment ≡ some frag → frag.id ≢ id)
    → Keeps receiving id (on_message receiving msg)
unfolding on_message
on_message-Keeps receiving msg id other =
    match_cases (Keeps receiving id) msg.fragment (λ _. refl)
      (λ frag q.
        handle_fragment-Keeps receiving msg.raw frag frag.total_fragments id (other frag q))
