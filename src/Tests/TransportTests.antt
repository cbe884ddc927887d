-- ===== src/Tests/TransportTests.antt =====
-- The fragments of a message, at concrete inputs.
use clip_cascade_go_fork.Prelude.{
  ℕ, zero, suc, ◌<◌, ◌≡◌, ◌≢◌, refl, ap, ◌∙◌, true, false, none, some, String, List, [], ◌∷◌, ◌++◌,
  map, length, any, arith, ◌⊎◌, inl, inr, ◌==◌, ok, str_eq, eq_iff,
}
use clip_cascade_go_fork.Prelude.Int.{ℤ, pos}
use clip_cascade_go_fork.Prelude.Eq.{string_eq}
use clip_cascade_go_fork.GoMap
use clip_cascade_go_fork.GoMap.{GoMap, DistinctKeys}
use clip_cascade_go_fork.Transport.Fragments.{
  Bytes, Fragment, num_fragments, Channel, ChannelMessage, Receiving, on_messages,
}
use clip_cascade_go_fork.Transport.Fragments.Utf8.{IsAscii, coerce_utf8, rune_width}
use clip_cascade_go_fork.Transport.Fragments.Reassembly.{arrival, reassembled}

-- 'é' and a byte that is none.
coerced :
    coerce_utf8 0 (0xc3 ∷ 0xa9 ∷ 0xff ∷ b'a' ∷ []) ≡ 0xc3 ∷ 0xa9 ∷ 0xef ∷ 0xbf ∷ 0xbd ∷ b'a' ∷ []
unfolding coerce_utf8 rune_width
coerced = refl

repeat : ℕ → Bytes
repeat zero = []
repeat (suc n) = b'a' ∷ repeat n

length-repeat : (n : ℕ) → length (repeat n) ≡ n
unfolding repeat
length-repeat zero = refl
length-repeat (suc n) = ap suc (length-repeat n)

repeat-IsAscii : (n : ℕ) → IsAscii (repeat n)
unfolding repeat
repeat-IsAscii zero = tt
repeat-IsAscii (suc n) = (omega arith, repeat-IsAscii n)

big_message : Bytes
big_message = repeat 16385

big_message-IsAscii : IsAscii big_message
unfolding big_message
big_message-IsAscii = repeat-IsAscii 16385

two_fragments : num_fragments big_message ≡ suc (suc 0)
unfolding num_fragments big_message
two_fragments = omega (arith, length-repeat 16385)

abbrev no_json : Fragment → Bytes
no_json frag = []

nothing_yet : GoMap.get {K = String} {V = List Bytes} [] "id" ≡ none
unfolding GoMap.get
nothing_yet = refl

both : (j : ℕ) → j < num_fragments big_message → (any (λ i. i == j) (1 ∷ []) ≡ true) ⊎ (0 ≡ j)
both zero h = inr refl
both (suc zero) h = inl refl
both (suc (suc j)) h = ground (arith, two_fragments, h)

reassembled_example :
    (next : Receiving) × (on_messages [] (
        map (arrival no_json "id" big_message) (1 ∷ [])
        ++ (arrival no_json "id" big_message 0 ∷ []))
      ≡ ok (next, big_message ∷ []))
    × (GoMap.get next "id" ≡ none)
reassembled_example =
    reassembled no_json "id" big_message big_message-IsAscii 0 two_fragments [] (1 ∷ []) 0
      nothing_yet (omega (arith, two_fragments), tt) (omega (arith, two_fragments)) refl both

abbrev stray : ChannelMessage
stray = record {
  raw = [];
  fragment =
      some (record { payload = b'x' ∷ []; id = "other"; index = pos 0; total_fragments = pos 2 });
}

stray_other : (frag : Fragment) → stray.fragment ≡ some frag → frag.id ≢ "id"
stray_other frag e same =
    let named : "other" ≡ frag.id = ground arith in
    let clash : str_eq "other" "id" ≡ true = (eq_iff "other" "id").1 (named ∙ same) in cc

abbrev open_channel : Channel
open_channel = record { is_open = true; sends = λ i. true }

abbrev shut_channel : Channel
shut_channel = record { is_open = false; sends = λ i. true }

abbrev two_channels : GoMap String Channel
two_channels = ("a", open_channel) ∷ ("b", shut_channel) ∷ []

two_channels-DistinctKeys : DistinctKeys two_channels
two_channels-DistinctKeys =
    ((λ same. (let clash : str_eq "a" "b" ≡ true = (eq_iff "a" "b").1 same in cc), tt), (tt, tt))

a_takes : (i : ℤ) (c : Channel) → GoMap.get two_channels "a" ≡ some c → c.sends i ≡ true
unfolding GoMap.get
a_takes i c e = (let same : open_channel ≡ c = ground arith in rw (← same) refl)
