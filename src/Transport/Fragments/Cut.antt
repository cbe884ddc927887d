-- ===== src/Transport/Fragments/Cut.antt =====
-- desktop/transport/p2p_client.go: the fragments of a message, as a whole.
use clip_cascade_go_fork.Prelude.{
  ℕ, zero, suc, ◌+◌, ◌-◌, ◌*◌, ◌<◌, ◌≤◌, ◌≡◌, refl, sym, ap, ◌∙◌, List, [], ◌∷◌, ◌++◌, length, map,
  ltb, arith, String, if_cases,
}
use native.Mathlib.Numerals.{unary_clauses}
use clip_cascade_go_fork.Transport.Fragments.{
  Bytes, fragment_size, Fragment, take, drop, slice, num_fragments, fragment_end, make_fragment,
  make_fragments, cut_message, join,
}

pub take-drop : (n : ℕ) (s : Bytes) → take n s ++ drop n s ≡ s
take-drop zero s = refl
take-drop (suc n) [] = refl
take-drop (suc n) (c ∷ s) = ap (λ t. c ∷ t) (take-drop n s)

drop-drop : (m n : ℕ) (s : Bytes) → drop n (drop m s) ≡ drop (m + n) s
drop-drop zero n s = ap (λ k. drop k s) (omega arith)
drop-drop (suc m) zero [] = simp unary_clauses refl
drop-drop (suc m) (suc n) [] = simp unary_clauses refl
drop-drop (suc m) n (c ∷ s) =
    let one_more : suc m + n ≡ suc (m + n) = omega arith in
    drop-drop m n s ∙ sym (ap (λ k. drop k (c ∷ s)) one_more)

drop_all : (n : ℕ) (s : Bytes) → length s ≤ n → drop n s ≡ []
drop_all zero [] h = refl
drop_all (suc n) [] h = refl
drop_all zero (c ∷ s) h = ground arith
drop_all (suc n) (c ∷ s) h = drop_all n s (omega arith)

pub length-drop : (n : ℕ) (s : Bytes) → length (drop n s) ≡ length s - n
length-drop zero s = omega arith
length-drop (suc n) [] = omega arith
length-drop (suc n) (c ∷ s) = omega (arith, length-drop n s)

-- A slice and what follows it.
slice-drop :
    (message : Bytes) (start end : ℕ)
    → start ≤ end
    → slice message start end ++ drop end message ≡ drop start message
slice-drop message start end h =
    let split : start + (end - start) ≡ end = omega arith in
    let rest : drop (end - start) (drop start message) ≡ drop end message =
      drop-drop start (end - start) message ∙ ap (λ n. drop n message) split in
    ap (λ t. slice message start end ++ t) (sym rest) ∙ take-drop (end - start) (drop start message)

abbrev pub payloads : List Fragment → List Bytes
payloads = map (λ f. f.payload)

fragment_end_bounds :
    (message : Bytes) (start : ℕ)
    → start ≤ length message
    → (start ≤ fragment_end message start)
      × (drop (fragment_end message start) message ≡ drop (start + fragment_size) message)
fragment_end_bounds message start h =
    if_cases (λ (e : ℕ). (start ≤ e) × (drop e message ≡ drop (start + fragment_size) message))
      (ltb (length message) (start + fragment_size))
      (λ small. (
        h,
        drop_all (length message) message (omega arith)
            ∙ sym (drop_all (start + fragment_size) message (ground arith)),
      ))
      (λ _. (omega arith, refl))

make_fragments-join :
    (id : String) (message : Bytes) (i left : ℕ)
    → (i + left) * fragment_size < length message + fragment_size
    → length message ≤ (i + left) * fragment_size
    → join (payloads (make_fragments id message i left)) ≡ drop (i * fragment_size) message
unfolding make_fragments make_fragment
make_fragments-join id message i zero h k = sym (drop_all (i * fragment_size) message (omega arith))
make_fragments-join id message i (suc left) h k =
    let start = i * fragment_size in
    let inside : start ≤ length message = omega (arith, h) in
    let (order, rest) = fragment_end_bounds message start inside in
    let next : join (payloads (make_fragments id message (suc i) left))
        ≡ drop (suc i * fragment_size) message =
      make_fragments-join id message (suc i) left (omega (arith, h)) (omega (arith, k)) in
    let step : suc i * fragment_size ≡ start + fragment_size = omega arith in
    ap (λ t. slice message start (fragment_end message start) ++ t)
      (next ∙ ap (λ n. drop n message) step ∙ sym rest)
    ∙ slice-drop message start (fragment_end message start) order

pub num_fragments_bounds :
    (message : Bytes)
    → (num_fragments message * fragment_size < length message + fragment_size)
      × (length message ≤ num_fragments message * fragment_size)
unfolding num_fragments
num_fragments_bounds message = (omega arith, omega arith)

-- The fragments of a message, joined in their order, are the message, whatever its length and its
-- bytes.
pub cut_message-join :
    (id : String) (message : Bytes) → join (payloads (cut_message id message)) ≡ message
unfolding cut_message
cut_message-join id message =
    let (a, b) = num_fragments_bounds message in
    make_fragments-join id message 0 (num_fragments message) (omega (arith, a)) (omega (arith, b))
