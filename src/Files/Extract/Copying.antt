-- ===== src/Files/Extract/Copying.antt =====
-- desktop/app/file_transfer.go: what `copyReaderWithLimit` copies.
use clip_cascade_go_fork.Prelude.{
  ℕ, zero, suc, ◌+◌, ◌≤◌, ◌<◌, ◌≡◌, refl, sym, true, false, not, none, some, List, [], ◌∷◌, ◌++◌,
  append-nil, append_assoc, arith, All, length, length-append, if_cases, ltb, ◌==◌, ap, ◌-◌,
}
use clip_cascade_go_fork.Prelude.Eq.{==_iff}
use clip_cascade_go_fork.Clipboard.Capture.{Bytes}
use clip_cascade_go_fork.Files.Paths.{take}
use clip_cascade_go_fork.Files.Extract.{
  word, add_word, sub_word, ReadStatus, more, eof, failed, ReadStep, CopyError, Copied, is_empty,
  after_read, copy_reader, write_error, short_write,
}

-- What `io.Writer` promises: no more is accepted than was given.
abbrev pub AcceptsAtMost : List ReadStep → Type 0
AcceptsAtMost = All (λ s. s.accepted ≤ length s.bytes)

-- The bytes of a reader up to its end.
abbrev contents_after : ReadStatus → Bytes → Bytes
contents_after more rest = rest
contents_after eof rest = []
contents_after failed rest = []

unfoldable pub contents : List ReadStep → Bytes
contents [] = []
contents (s ∷ steps) = s.bytes ++ contents_after s.status (contents steps)

length-take : (n : ℕ) (s : Bytes) → n ≤ length s → length (take n s) ≡ n
length-take zero s h = refl
length-take (suc n) [] h = absurd (omega arith)
length-take (suc n) (b ∷ s) h = ap suc (length-take n s (omega arith))

take_all : (s : Bytes) → take (length s) s ≡ s
take_all [] = refl
take_all (b ∷ s) = ap (λ t. b ∷ t) (take_all s)

-- The counter is the number of bytes in the destination, which are at most the limit, and a copy
-- without an error has all the bytes.
abbrev pub IsCopy : ℕ → Bytes → Copied → Type 0
IsCopy limit whole c =
    (c.written ≡ length c.out) × (length c.out ≤ limit) × (c.error ≡ none → c.out ≡ whole)

after_read-IsCopy :
    (limit : ℕ) (out : Bytes) (written : ℕ) (status : ReadStatus) (rest : Copied) (later : Bytes)
    → written ≡ length out
    → length out ≤ limit
    → IsCopy limit (out ++ later) rest
    → IsCopy limit (out ++ contents_after status later) (after_read out written status rest)
after_read-IsCopy limit out written more rest later e h k = k
after_read-IsCopy limit out written eof rest later e h k = (e, h, λ q. sym (append-nil out))
after_read-IsCopy limit out written failed rest later e h k = (e, h, λ q. absurd (ground arith))

pub add_word_exact : (a b : ℕ) → a + b < word → add_word a b ≡ a + b
add_word_exact a b h = omega arith

pub sub_word_exact : (a b : ℕ) → b ≤ a → a < word → sub_word a b ≡ a - b
sub_word_exact a b h k = omega arith

-- A write that accepted at most the bytes that fit.
accepted-IsCopy :
    (limit : ℕ) (out whole bytes : Bytes) (written n : ℕ) (e : CopyError)
    → limit < word
    → n ≤ length bytes
    → written ≡ length out
    → length out + length bytes ≤ limit
    → IsCopy limit whole
        (record { out = out ++ take n bytes; written = add_word written n; error = some e })
accepted-IsCopy limit out whole bytes written n e hl hn hw hr =
    let taken = length-take n bytes hn in
    let total = length-append out (take n bytes) in
    let exact = add_word_exact written n (omega arith) in
    (omega arith, omega arith, λ q. absurd (ground arith))

fits_room :
    (limit written n : ℕ) (out : Bytes)
    → limit < word
    → written ≡ length out
    → length out ≤ limit
    → ltb (sub_word limit written) n ≡ false
    → length out + n ≤ limit
fits_room limit written n out hl e h fits =
    let exact = sub_word_exact limit written (omega arith) hl in
    let below : ltb (limit - written) n ≡ false = rw (← exact) fits in ground arith

nothing_read-IsCopy :
    (limit : ℕ) (out bytes later : Bytes) (written : ℕ) (status : ReadStatus) (rest : Copied)
    → is_empty bytes ≡ true
    → written ≡ length out
    → length out ≤ limit
    → IsCopy limit (out ++ later) rest
    → IsCopy limit
        (out ++ (bytes ++ contents_after status later))
        (after_read out written status rest)
nothing_read-IsCopy limit out [] later written status rest q e h k =
    after_read-IsCopy limit out written status rest later e h k
nothing_read-IsCopy limit out (b ∷ bytes) later written status rest q e h k = absurd (ground arith)

all_read-IsCopy :
    (limit : ℕ) (out bytes later : Bytes) (written n : ℕ) (status : ReadStatus) (rest : Copied)
    → n ≡ length bytes
    → limit < word
    → written ≡ length out
    → length out + length bytes ≤ limit
    → IsCopy limit (out ++ bytes ++ later) rest
    → IsCopy limit
        (out ++ (bytes ++ contents_after status later))
        (after_read (out ++ take n bytes) (add_word written n) status rest)
all_read-IsCopy limit out bytes later written n status rest q hl e h k =
    let total = length-append out bytes in
    let exact = add_word_exact written (length bytes) (omega arith) in
    rw (q, take_all bytes, ← append_assoc out bytes (contents_after status later))
      (after_read-IsCopy limit (out ++ bytes) (add_word written (length bytes)) status rest later
        (omega arith) (omega arith) k)

pub accepted_all : (a b : ℕ) → not (a == b) ≡ false → a ≡ b
accepted_all a b h = (==_iff a b).0 (ground arith)

pub copy_reader-IsCopy :
    (limit : ℕ) (out : Bytes) (written : ℕ) (steps : List ReadStep)
    → limit < word
    → AcceptsAtMost steps
    → written ≡ length out
    → length out ≤ limit
    → IsCopy limit (out ++ contents steps) (copy_reader limit out written steps)
unfolding copy_reader contents
copy_reader-IsCopy limit out written [] hl ha e h = (e, h, λ q. sym (append-nil out))
copy_reader-IsCopy limit out written (s ∷ steps) hl ha e h =
    let P = IsCopy limit (out ++ (s.bytes ++ contents_after s.status (contents steps))) in
    if_cases P (is_empty s.bytes)
      (λ q.
        nothing_read-IsCopy limit out s.bytes (contents steps) written s.status
          (copy_reader limit out written steps) q e h
          (copy_reader-IsCopy limit out written steps hl ha.1 e h))
      (λ q.
        if_cases P (ltb (sub_word limit written) (length s.bytes))
          (λ over. (e, h, λ c. absurd (ground arith)))
          (λ fits.
            let room = fits_room limit written (length s.bytes) out hl e h fits in
            let taken : (x : CopyError)
                → P (record {
                  out = out ++ take s.accepted s.bytes;
                  written = add_word written s.accepted;
                  error = some x;
                }) =
              λ x.
                accepted-IsCopy limit out
                  (out ++ (s.bytes ++ contents_after s.status (contents steps))) s.bytes written
                  s.accepted x hl ha.0 e room in
            if_cases P s.write_fails (λ w. taken write_error)
              (λ w.
                if_cases P (not (s.accepted == length s.bytes)) (λ m. taken short_write)
                  (λ m.
                    let n = accepted_all s.accepted (length s.bytes) m in
                    let total = length-append out s.bytes in
                    let exact = add_word_exact written s.accepted (omega arith) in
                    let outs : out ++ take s.accepted s.bytes ≡ out ++ s.bytes =
                      rw (n, take_all s.bytes) refl in
                    let lengths : length (out ++ take s.accepted s.bytes)
                        ≡ length (out ++ s.bytes) =
                      ap length outs in
                    all_read-IsCopy limit out s.bytes (contents steps) written s.accepted s.status
                      (copy_reader limit (out ++ take s.accepted s.bytes)
                        (add_word written s.accepted) steps)
                      n hl e room
                      (rw (← outs) (
                        copy_reader-IsCopy limit (out ++ take s.accepted s.bytes)
                          (add_word written s.accepted) steps hl ha.1 (omega arith)
                          (omega arith)))))))
