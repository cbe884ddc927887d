-- ===== src/Crypto/Base64.antt =====
-- Base64 as Go's `encoding/base64` decodes it, with the standard alphabet and padding.
use clip_cascade_go_fork.Prelude.{
  ℕ, ◌+◌, ◌-◌, ◌*◌, ◌/◌, ◌%◌, ◌<◌, ◌≡◌, refl, Bool, true, false, not, ◌&&◌, ◌||◌, Option, none,
  some, [], ◌∷◌, if◌then◌else◌, leb, ◌==◌, arith, All, ap, keep_if, ◌∙◌,
}
use clip_cascade_go_fork.Protocol.Text.{Text}
use clip_cascade_go_fork.Clipboard.Capture.{Bytes, base64_char, base64_encode}

unfoldable pub char_value : ℕ → Option ℕ
char_value c =
    if leb b'A' c && leb c b'Z'
    then some (c - b'A')
    else if leb b'a' c && leb c b'z'
    then some (c - 71)
    else if leb b'0' c && leb c b'9'
    then some (c + 4)
    else if c == b'+'
    then some 62
    else if c == b'/'
    then some 63
    else none

abbrev pub two_values : ℕ → ℕ → (ℕ → ℕ → Option Bytes) → Option Bytes
two_values a b k = elim (char_value a) [
  | none ↦ none
  | some v ↦ elim (char_value b) [ none ↦ none | some w ↦ k v w ]
]

abbrev pub byte_1 : ℕ → ℕ → ℕ
byte_1 v w = v * 4 + w / 16

abbrev pub byte_2 : ℕ → ℕ → ℕ
byte_2 w x = w % 16 * 16 + x / 4

abbrev pub byte_3 : ℕ → ℕ → ℕ
byte_3 x y = x % 4 * 64 + y

-- The last four characters, where they are padded.
abbrev pub decode_padded : ℕ → ℕ → ℕ → Option Bytes
decode_padded a b c =
    if c == b'='
    then two_values a b (λ v w. some (byte_1 v w ∷ []))
    else two_values a b
        (λ v w. elim (char_value c) [ none ↦ none | some x ↦ some (byte_1 v w ∷ byte_2 w x ∷ []) ])

abbrev pub decode_four : ℕ → ℕ → ℕ → ℕ → Option Bytes → Option Bytes
decode_four a b c d rest = two_values a b (λ v w. two_values c d (λ x y. elim rest [
  | none ↦ none
  | some bytes ↦ some (byte_1 v w ∷ byte_2 w x ∷ byte_3 x y ∷ bytes)
]))

unfoldable pub decode_quanta : Text → Option Bytes
decode_quanta [] = some []
decode_quanta (a ∷ b ∷ c ∷ d ∷ []) =
    if d == b'=' then decode_padded a b c else decode_four a b c d (some [])
decode_quanta (a ∷ b ∷ c ∷ d ∷ e ∷ rest) = decode_four a b c d (decode_quanta (e ∷ rest))
decode_quanta s = none

-- `base64.StdEncoding.DecodeString`; line ends are skipped.
unfoldable pub base64_decode : Text → Option Bytes
unfolding decode_quanta
base64_decode s = decode_quanta (keep_if (λ c. not (c == 10 || c == 13)) s)

-- Bytes as Go has them.
abbrev pub AreBytes : Bytes → Type 0
AreBytes = All (λ b. b < 256)

char_value-base64_char : (i : ℕ) → i < 64 → char_value (base64_char i) ≡ some i
unfolding char_value
char_value-base64_char i h = ground arith

base64_char_plain :
    (i : ℕ)
    → i < 64
    → ((base64_char i == b'=') ≡ false) × ((base64_char i == 10 || base64_char i == 13) ≡ false)
base64_char_plain i h = (ground arith, ground arith)

two_values-some :
    (a b v w : ℕ) (k : ℕ → ℕ → Option Bytes)
    → char_value a ≡ some v
    → char_value b ≡ some w
    → two_values a b k ≡ k v w
two_values-some a b v w k e f = rw (two_values, e, f) refl

four_chars :
    (a b c d v w x y : ℕ) (rest : Bytes)
    → char_value a ≡ some v
    → char_value b ≡ some w
    → char_value c ≡ some x
    → char_value d ≡ some y
    → decode_four a b c d (some rest) ≡ some (byte_1 v w ∷ byte_2 w x ∷ byte_3 x y ∷ rest)
four_chars a b c d v w x y rest p q r s =
    two_values-some a b v w _ p q ∙ two_values-some c d x y _ r s

decode_quanta-append :
    (a b c d : ℕ) (s : Text) (bytes : Bytes)
    → (d == b'=') ≡ false
    → decode_quanta s ≡ some bytes
    → decode_quanta (a ∷ b ∷ c ∷ d ∷ s) ≡ decode_four a b c d (some bytes)
unfolding decode_quanta
decode_quanta-append a b c d [] bytes h e = rw h (ap (decode_four a b c d) e)
decode_quanta-append a b c d (x ∷ s) bytes h e = ap (decode_four a b c d) e

three_bytes :
    (a b c : ℕ)
    → a < 256
    → b < 256
    → c < 256
    → (byte_1 (a / 4) (a % 4 * 16 + b / 16) ≡ a)
      × (byte_2 (a % 4 * 16 + b / 16) (b % 16 * 4 + c / 64) ≡ b)
      × (byte_3 (b % 16 * 4 + c / 64) (c % 64) ≡ c)
three_bytes a b c ha hb hc = (omega arith, omega arith, omega arith)

decode_quanta-encode :
    (bytes : Bytes) → AreBytes bytes → decode_quanta (base64_encode bytes) ≡ some bytes
unfolding decode_quanta base64_encode
decode_quanta-encode [] h = refl
decode_quanta-encode (a ∷ []) h =
    let whole : byte_1 (a / 4) (a % 4 * 16) ≡ a = omega arith in
    two_values-some (base64_char (a / 4)) (base64_char (a % 4 * 16)) (a / 4) (a % 4 * 16) _
      (char_value-base64_char (a / 4) (omega arith))
      (char_value-base64_char (a % 4 * 16) (omega arith))
    ∙ ap (λ t. some (t ∷ [])) whole
decode_quanta-encode (a ∷ b ∷ []) h =
    let plain = base64_char_plain (b % 16 * 4) (omega arith) in
    let first : byte_1 (a / 4) (a % 4 * 16 + b / 16) ≡ a = omega arith in
    let second : byte_2 (a % 4 * 16 + b / 16) (b % 16 * 4) ≡ b = omega arith in
    let v = char_value-base64_char (a / 4) (omega arith) in
    let w = char_value-base64_char (a % 4 * 16 + b / 16) (omega arith) in
    let x = char_value-base64_char (b % 16 * 4) (omega arith) in
    rw (decode_padded, plain.0)
      (two_values-some (base64_char (a / 4)) (base64_char (a % 4 * 16 + b / 16)) (a / 4)
          (a % 4 * 16 + b / 16) _ v w
        ∙ rw (x, first, second) refl)
decode_quanta-encode (a ∷ b ∷ c ∷ bytes) h =
    let plain = base64_char_plain (c % 64) (omega arith) in
    let same = three_bytes a b c h.0 h.1.0 h.1.1.0 in
    decode_quanta-append (base64_char (a / 4)) (base64_char (a % 4 * 16 + b / 16))
      (base64_char (b % 16 * 4 + c / 64)) (base64_char (c % 64)) (base64_encode bytes) bytes plain.0
      (decode_quanta-encode bytes h.1.1.1)
    ∙ four_chars (base64_char (a / 4)) (base64_char (a % 4 * 16 + b / 16))
        (base64_char (b % 16 * 4 + c / 64)) (base64_char (c % 64)) (a / 4) (a % 4 * 16 + b / 16)
        (b % 16 * 4 + c / 64) (c % 64) bytes (char_value-base64_char (a / 4) (omega arith))
        (char_value-base64_char (a % 4 * 16 + b / 16) (omega arith))
        (char_value-base64_char (b % 16 * 4 + c / 64) (omega arith))
        (char_value-base64_char (c % 64) (omega arith))
    ∙ rw (same.0, same.1, same.2) refl

-- A character that is skipped is not in an encoding.
abbrev kept : ℕ → Bool
kept c = not (c == 10 || c == 13)

kept_all : (s : Text) → All (λ c. kept c ≡ true) s → keep_if kept s ≡ s
kept_all [] h = refl
kept_all (c ∷ s) h = rw (h.0, kept_all s h.1) refl

base64_char-kept : (i : ℕ) → i < 64 → kept (base64_char i) ≡ true
base64_char-kept i h = ground arith

encode-kept : (bytes : Bytes) → AreBytes bytes → All (λ c. kept c ≡ true) (base64_encode bytes)
unfolding base64_encode
encode-kept [] h = tt
encode-kept (a ∷ []) h = (
  base64_char-kept (a / 4) (omega arith),
  (base64_char-kept (a % 4 * 16) (omega arith), (refl, (refl, tt))),
)
encode-kept (a ∷ b ∷ []) h = (
  base64_char-kept (a / 4) (omega arith),
  (
    base64_char-kept (a % 4 * 16 + b / 16) (omega arith),
    (base64_char-kept (b % 16 * 4) (omega arith), (refl, tt)),
  ),
)
encode-kept (a ∷ b ∷ c ∷ bytes) h = (
  base64_char-kept (a / 4) (omega arith),
  (
    base64_char-kept (a % 4 * 16 + b / 16) (omega arith),
    (
      base64_char-kept (b % 16 * 4 + c / 64) (omega arith),
      (base64_char-kept (c % 64) (omega arith), encode-kept bytes h.1.1.1),
    ),
  ),
)

pub base64_decode-encode :
    (bytes : Bytes) → AreBytes bytes → base64_decode (base64_encode bytes) ≡ some bytes
unfolding base64_decode
base64_decode-encode bytes h =
    rw (kept_all (base64_encode bytes) (encode-kept bytes h)) (decode_quanta-encode bytes h)
