-- ===== src/Transport/Fragments/Utf8.antt =====
-- What `json.Marshal` makes of the bytes of a string, for desktop/transport/p2p_client.go.
use clip_cascade_go_fork.Prelude.{
  ℕ, zero, suc, ◌-◌, ◌<◌, ◌≡◌, refl, ap, ◌∙◌, Bool, true, ◌&&◌, [], ◌∷◌, if◌then◌else◌, ltb, leb,
  arith, All,
}
use clip_cascade_go_fork.Transport.Fragments.{Bytes, Fragment}

abbrev between : ℕ → ℕ → ℕ → Bool
between lo hi c = leb lo c && leb c hi

abbrev width_2 : Bytes → ℕ
width_2 (b ∷ _) = if between 0x80 0xbf b then 2 else 0
width_2 _ = 0

abbrev width_3 : ℕ → ℕ → Bytes → ℕ
width_3 lo hi (b ∷ c ∷ _) = if between lo hi b && between 0x80 0xbf c then 3 else 0
width_3 lo hi _ = 0

abbrev width_4 : ℕ → ℕ → Bytes → ℕ
width_4 lo hi (b ∷ c ∷ d ∷ _) =
    if between lo hi b && between 0x80 0xbf c && between 0x80 0xbf d then 4 else 0
width_4 lo hi _ = 0

-- `utf8.DecodeRuneInString`: the number of bytes of the first code point, 0 if it is not valid.
unfoldable pub rune_width : ℕ → Bytes → ℕ
rune_width a s =
    if ltb a 0x80
    then 1
    else if between 0xc2 0xdf a
    then width_2 s
    else if between 0xe0 0xe0 a
    then width_3 0xa0 0xbf s
    else if between 0xed 0xed a
    then width_3 0x80 0x9f s
    else if between 0xe1 0xef a
    then width_3 0x80 0xbf s
    else if between 0xf0 0xf0 a
    then width_4 0x90 0xbf s
    else if between 0xf1 0xf3 a
    then width_4 0x80 0xbf s
    else if between 0xf4 0xf4 a
    then width_4 0x80 0x8f s
    else 0

-- `pending` bytes of the last code point are still to come; an invalid byte becomes U+FFFD.
unfoldable pub coerce_utf8 : ℕ → Bytes → Bytes
unfolding rune_width
coerce_utf8 pending [] = []
coerce_utf8 (suc pending) (c ∷ s) = c ∷ coerce_utf8 pending s
coerce_utf8 zero (c ∷ s) =
    let rest = coerce_utf8 (rune_width c s - 1) s in
    elim (rune_width c s) [ zero ↦ 0xef ∷ 0xbf ∷ 0xbd ∷ rest | suc _ ↦ c ∷ rest ]

-- A fragment after `json.Marshal` and `json.Unmarshal`.
unfoldable pub as_received : Fragment → Fragment
unfolding coerce_utf8
as_received frag = record frag { payload = coerce_utf8 0 frag.payload }

abbrev pub IsAscii : Bytes → Type 0
IsAscii = All (λ c. c < 0x80)

rune_width_ascii : (c : ℕ) (s : Bytes) → c < 0x80 → rune_width c s ≡ 1
unfolding rune_width
rune_width_ascii c s h =
    let small : ltb c 0x80 ≡ true = ground (arith, h) in rw (rune_width, small) refl

pub coerce_utf8_ascii : (s : Bytes) → IsAscii s → coerce_utf8 0 s ≡ s
unfolding coerce_utf8
coerce_utf8_ascii [] h = refl
coerce_utf8_ascii (c ∷ s) h =
    let width : rune_width c s ≡ 1 = rune_width_ascii c s h.0 in
    let none_pending : rune_width c s - 1 ≡ 0 = omega (arith, width) in
    rw (coerce_utf8, width)
      (ap (λ t. c ∷ t) (ap (λ k. coerce_utf8 k s) none_pending ∙ coerce_utf8_ascii s h.1))
