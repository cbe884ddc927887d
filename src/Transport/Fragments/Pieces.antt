-- ===== src/Transport/Fragments/Pieces.antt =====
-- desktop/transport/p2p_client.go: the single fragments of a message.
use clip_cascade_go_fork.Prelude.{
  ℕ, zero, suc, ◌+◌, ◌-◌, ◌*◌, ◌<◌, ◌≡◌, ◌≢◌, refl, ap, ◌∙◌, [], ◌∷◌, length, get_elem?, some, ltb,
  arith, All, String, if_cases,
}
use clip_cascade_go_fork.Transport.Fragments.{
  Bytes, fragment_size, take, drop, slice, num_fragments, fragment_end, make_fragment,
  make_fragments, cut_message,
}
use clip_cascade_go_fork.Transport.Fragments.Utf8.{IsAscii, as_received, coerce_utf8_ascii}
use clip_cascade_go_fork.Transport.Fragments.Cut.{length-drop, payloads, num_fragments_bounds}

get_elem?-make_fragments :
    (id : String) (message : Bytes) (i left k : ℕ)
    → k < left
    → get_elem? (payloads (make_fragments id message i left)) k
      ≡ some (make_fragment id message (i + k)).payload
unfolding make_fragments
get_elem?-make_fragments id message i zero k h = elim h [ ]
get_elem?-make_fragments id message i (suc left) zero h =
    let here : i ≡ i + zero = omega arith in
    ap (λ j. some (make_fragment id message j).payload) here
get_elem?-make_fragments id message i (suc left) (suc k) h =
    let there : suc i + k ≡ i + suc k = omega arith in
    get_elem?-make_fragments id message (suc i) left k (omega (arith, h))
    ∙ ap (λ j. some (make_fragment id message j).payload) there

pub get_elem?-cut_message :
    (id : String) (message : Bytes) (k : ℕ)
    → k < num_fragments message
    → get_elem? (payloads (cut_message id message)) k ≡ some (make_fragment id message k).payload
unfolding cut_message
get_elem?-cut_message id message k h =
    let same : 0 + k ≡ k = omega arith in
    get_elem?-make_fragments id message 0 (num_fragments message) k h
    ∙ ap (λ j. some (make_fragment id message j).payload) same

length-make_fragments :
    (id : String) (message : Bytes) (i left : ℕ)
    → length (payloads (make_fragments id message i left)) ≡ left
unfolding make_fragments
length-make_fragments id message i zero = refl
length-make_fragments id message i (suc left) =
    ap suc (length-make_fragments id message (suc i) left)

pub length-cut_message :
    (id : String) (message : Bytes)
    → length (payloads (cut_message id message)) ≡ num_fragments message
unfolding cut_message
length-cut_message id message = length-make_fragments id message 0 (num_fragments message)

take_nonempty : (k : ℕ) (s : Bytes) → 0 < k → 0 < length s → take k s ≢ []
take_nonempty zero s h l = elim h [ ]
take_nonempty (suc k) [] h l = elim l [ ]
take_nonempty (suc k) (c ∷ s) h l = λ z. cc

make_fragment_nonempty :
    (id : String) (message : Bytes) (i : ℕ)
    → i * fragment_size < length message
    → (make_fragment id message i).payload ≢ []
unfolding make_fragment
make_fragment_nonempty id message i h =
    let start = i * fragment_size in
    if_cases (λ (e : ℕ). slice message start e ≢ []) (ltb (length message) (start + fragment_size))
      (λ _.
        take_nonempty (length message - start) (drop start message) (omega (arith, h))
          (omega (arith, h, length-drop start message)))
      (λ _.
        take_nonempty (start + fragment_size - start) (drop start message) (omega arith)
          (omega (arith, h, length-drop start message)))

make_fragments_nonempty :
    (id : String) (message : Bytes) (i left : ℕ)
    → (i + left) * fragment_size < length message + fragment_size
    → All (λ f. f ≢ []) (payloads (make_fragments id message i left))
unfolding make_fragments
make_fragments_nonempty id message i zero h = tt
make_fragments_nonempty id message i (suc left) h = (
  make_fragment_nonempty id message i (omega (arith, h)),
  make_fragments_nonempty id message (suc i) left (omega (arith, h)),
)

pub cut_message_nonempty :
    (id : String) (message : Bytes) → All (λ f. f ≢ []) (payloads (cut_message id message))
unfolding cut_message
cut_message_nonempty id message =
    let (a, b) = num_fragments_bounds message in
    make_fragments_nonempty id message 0 (num_fragments message) (omega (arith, a))

-- A fragment of an ASCII message is received as it was sent.
All-take : (P : ℕ → Type 0) (n : ℕ) (s : Bytes) → All P s → All P (take n s)
All-take P zero s h = tt
All-take P (suc n) [] h = tt
All-take P (suc n) (c ∷ s) h = (h.0, All-take P n s h.1)

All-drop : (P : ℕ → Type 0) (n : ℕ) (s : Bytes) → All P s → All P (drop n s)
All-drop P zero s h = h
All-drop P (suc n) [] h = tt
All-drop P (suc n) (c ∷ s) h = All-drop P n s h.1

pub as_received_ascii :
    (id : String) (message : Bytes) (i : ℕ)
    → IsAscii message
    → as_received (make_fragment id message i) ≡ make_fragment id message i
unfolding as_received make_fragment
as_received_ascii id message i h =
    let start = i * fragment_size in
    let piece = slice message start (fragment_end message start) in
    let ascii : IsAscii piece =
      All-take (λ c. c < 0x80) (fragment_end message start - start) (drop start message)
        (All-drop (λ c. c < 0x80) start message h) in
    ap (λ p. record (make_fragment id message i) { payload = p }) (coerce_utf8_ascii piece ascii)
