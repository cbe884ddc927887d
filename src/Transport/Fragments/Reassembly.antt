-- ===== src/Transport/Fragments/Reassembly.antt =====
-- desktop/transport/p2p_client.go: the fragments of one message, as they arrive.
use clip_cascade_go_fork.Prelude.{
  ℕ, suc, ◌<◌, ◌≡◌, refl, sym, ap, ◌∙◌, Bool, true, false, ◌||◌, none, some, String, List, [], ◌∷◌,
  ◌++◌, map, any, length, get_elem?, ltb, Result, ok, err, arith, All, ◌==◌, eq_refl, All-map, ◌⊎◌,
}
use clip_cascade_go_fork.Prelude.Int.{pos}
use clip_cascade_go_fork.Prelude.Eq.{string_eq}
use clip_cascade_go_fork.GoMap
use clip_cascade_go_fork.GoMap.{GoMap, get-put, get-remove}
use clip_cascade_go_fork.Transport.Fragments.{
  Bytes, Fragment, num_fragments, make_fragment, cut_message, ChannelMessage, MessageError,
  Receiving, is_complete, complete_or_wait, entry_of, blanks, store_fragment, handle_fragment,
  on_message, on_messages,
}
use clip_cascade_go_fork.Transport.Fragments.Utf8.{IsAscii, as_received}
use clip_cascade_go_fork.Transport.Fragments.Cut.{payloads, cut_message-join}
use clip_cascade_go_fork.Transport.Fragments.Pieces.{
  get_elem?-cut_message, length-cut_message, cut_message_nonempty, as_received_ascii,
}
use clip_cascade_go_fork.Transport.Fragments.Filling.{
  fill, none_seen, see, length-fill, blanks-fill, set-fill, fill_waits, fill_done, full_complete,
}

-- The message of a data channel that the fragment `i` arrives in; `to_json` are its bytes.
abbrev pub arrival : (Fragment → Bytes) → String → Bytes → ℕ → ChannelMessage
arrival to_json id message i = record {
  raw = to_json (make_fragment id message i);
  fragment = some (as_received (make_fragment id message i));
}

same_result :
    (r : Result MessageError (Receiving × List Bytes))
    → elim r [ err e ↦ err e | ok (l, rs) ↦ ok (l, rs) ] ≡ r
same_result (ok x) = refl
same_result (err e) = refl

on_messages-silent :
    (receiving next : Receiving) (msg : ChannelMessage) (msgs : List ChannelMessage)
    → on_message receiving msg ≡ ok (next, none)
    → on_messages receiving (msg ∷ msgs) ≡ on_messages next msgs
unfolding on_messages
on_messages-silent receiving next msg msgs e =
    rw (on_messages, e) (same_result (on_messages next msgs))

on_messages-report :
    (receiving next : Receiving) (msg : ChannelMessage) (report : Bytes)
    → on_message receiving msg ≡ ok (next, some report)
    → on_messages receiving (msg ∷ []) ≡ ok (next, report ∷ [])
unfolding on_messages
on_messages-report receiving next msg report e = rw (on_messages, e) refl

module _ (to_json : Fragment → Bytes) (id : String) (message : Bytes) (ascii : IsAscii message)
    (m : ℕ) (several : num_fragments message ≡ suc (suc m)) where
  abbrev parts : List Bytes
  parts = payloads (cut_message id message)

  abbrev total : ℕ
  total = suc (suc m)

  on_message_part :
      (receiving : Receiving) (i : ℕ)
      → on_message receiving (arrival to_json id message i)
        ≡ store_fragment receiving (make_fragment id message i) total (pos i)
  unfolding on_message handle_fragment make_fragment
  on_message_part receiving i = rw (as_received_ascii id message i ascii, several) refl

  store_part :
      (receiving : Receiving) (seen : ℕ → Bool) (i : ℕ)
      → i < total
      → entry_of receiving id total ≡ fill parts seen
      → store_fragment receiving (make_fragment id message i) total (pos i)
        ≡ ok (complete_or_wait receiving id (fill parts (see i seen)))
  unfolding store_fragment make_fragment
  store_part receiving seen i h e =
      let size : length (fill parts seen) ≡ total =
        length-fill parts seen ∙ length-cut_message id message ∙ several in
      let inside : ltb i (length (fill parts seen)) ≡ true = ground (arith, size, h) in
      let known : get_elem? parts i ≡ some (make_fragment id message i).payload =
        get_elem?-cut_message id message i (omega (arith, h, several)) in
      rw (e, inside, set-fill parts seen i (make_fragment id message i).payload known) refl

  entry_of-put :
      (receiving : Receiving) (entry : List Bytes)
      → entry_of (GoMap.put receiving id entry) id total ≡ entry
  entry_of-put receiving entry =
      let there : GoMap.get (GoMap.put receiving id entry) id ≡ some entry =
        ground (arith, get-put receiving id id entry, eq_refl id) in
      rw (entry_of, there) refl

  -- What was seen after some fragments.
  seen_after : List ℕ → (ℕ → Bool) → ℕ → Bool
  seen_after [] seen = seen
  seen_after (i ∷ is) seen = seen_after is (see i seen)

  seen_after-any :
      (is : List ℕ) (seen : ℕ → Bool) (j : ℕ)
      → seen_after is seen j ≡ (any (λ i. i == j) is || seen j)
  unfolding seen_after
  seen_after-any [] seen j = refl
  seen_after-any (i ∷ is) seen j = ground (arith, seen_after-any is (see i seen) j)

  on_message_waits :
      (receiving : Receiving) (seen : ℕ → Bool) (i last : ℕ)
      → i < total
      → last < total
      → entry_of receiving id total ≡ fill parts seen
      → see i seen last ≡ false
      → on_message receiving (arrival to_json id message i)
        ≡ ok (GoMap.put receiving id (fill parts (see i seen)), none)
  unfolding complete_or_wait
  on_message_waits receiving seen i last h l e s =
      let size : length parts ≡ total = length-cut_message id message ∙ several in
      let waits : is_complete (fill parts (see i seen)) ≡ false =
        fill_waits parts (see i seen) last (omega (arith, l, size)) s in
      on_message_part receiving i
      ∙ store_part receiving seen i h e
      ∙ ap ok (rw (complete_or_wait, waits) refl)

  on_message_completes :
      (receiving : Receiving) (seen : ℕ → Bool) (i : ℕ)
      → i < total
      → entry_of receiving id total ≡ fill parts seen
      → ((j : ℕ) → j < total → see i seen j ≡ true)
      → on_message receiving (arrival to_json id message i)
        ≡ ok (GoMap.remove receiving id, some message)
  unfolding complete_or_wait
  on_message_completes receiving seen i h e s =
      let size : length parts ≡ total = length-cut_message id message ∙ several in
      let whole : fill parts (see i seen) ≡ parts =
        fill_done parts (see i seen) (λ j l. s j (omega (arith, l, size))) in
      let complete : is_complete parts ≡ true =
        full_complete parts (cut_message_nonempty id message) in
      on_message_part receiving i
      ∙ store_part receiving seen i h e
      ∙ ap ok (rw (complete_or_wait, whole, complete, cut_message-join id message) refl)

  on_messages_wait :
      (receiving : Receiving) (seen : ℕ → Bool) (is : List ℕ) (last : ℕ)
      → All (λ i. i < total) is
      → last < total
      → entry_of receiving id total ≡ fill parts seen
      → seen_after is seen last ≡ false
      → (msgs : List ChannelMessage)
      → (next : Receiving) × (entry_of next id total ≡ fill parts (seen_after is seen))
        × (on_messages receiving (map (arrival to_json id message) is ++ msgs)
            ≡ on_messages next msgs)
  unfolding seen_after
  on_messages_wait receiving seen [] last h l e s msgs = (receiving, e, refl)
  on_messages_wait receiving seen (i ∷ is) last h l e s msgs =
      let next = GoMap.put receiving id (fill parts (see i seen)) in
      let waits : see i seen last ≡ false = ground (arith, seen_after-any is (see i seen) last) in
      let (end, entry, rest) =
        on_messages_wait next (see i seen) is last h.1 l
          (entry_of-put receiving (fill parts (see i seen))) s msgs in
      (
        end,
        entry,
        on_messages-silent receiving next (arrival to_json id message i)
              (map (arrival to_json id message) is ++ msgs)
              (on_message_waits receiving seen i last h.0 l e waits)
            ∙ rest,
      )

  -- The fragments of an ASCII message of more than one fragment come in any order, some of them more
  -- than once, the fragment `last` only at the end, when all the others have come: nothing is given
  -- to the callback before, then the message itself, once, and its entry is gone. No index is out of
  -- range.
  pub reassembled :
      (receiving : Receiving) (is : List ℕ) (last : ℕ)
      → GoMap.get receiving id ≡ none
      → All (λ i. i < num_fragments message) is
      → last < num_fragments message
      → any (λ i. i == last) is ≡ false
      → ((j : ℕ) → j < num_fragments message → (any (λ i. i == j) is ≡ true) ⊎ (last ≡ j))
      → (next : Receiving) × (on_messages receiving
            (map (arrival to_json id message) is ++ (arrival to_json id message last ∷ []))
          ≡ ok (next, message ∷ []))
        × (GoMap.get next id ≡ none)
  reassembled receiving is last new h l late all =
      let blank : entry_of receiving id total ≡ fill parts none_seen =
        rw (entry_of, new)
          (ap blanks (sym (length-cut_message id message ∙ several)) ∙ blanks-fill parts) in
      let inside : All (λ i. i < total) is = All-map (λ i b. omega (arith, b, several)) is h in
      let last_inside : last < total = omega (arith, l, several) in
      let unseen : seen_after is none_seen last ≡ false =
        ground (arith, seen_after-any is none_seen last, late) in
      let (end, entry, waited) =
        on_messages_wait receiving none_seen is last inside last_inside blank unseen
          (arrival to_json id message last ∷ []) in
      let every : (j : ℕ) → j < total → see last (seen_after is none_seen) j ≡ true =
        λ j b. ground (arith, seen_after-any is none_seen j, all j (omega (arith, b, several))) in
      (
        GoMap.remove end id,
        waited
            ∙ on_messages-report end (GoMap.remove end id) (arrival to_json id message last) message
                (on_message_completes end (seen_after is none_seen) last last_inside entry every),
        ground (arith, get-remove end id id, eq_refl id),
      )
