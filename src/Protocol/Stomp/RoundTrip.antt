-- ===== src/Protocol/Stomp/RoundTrip.antt =====
-- pkg/protocol/stomp.go: `ParseFrame` after `Encode`.
use clip_cascade_go_fork.Prelude.{
  ℕ, ◌≡◌, ◌≢◌, refl, sym, ap, ◌∙◌, Bool, false, ◌&&◌, List, [], ◌∷◌, ◌++◌, append-nil, append_assoc,
  ok, arith, ◌==◌, All, Pairwise, map,
}
use clip_cascade_go_fork.GoMap
use clip_cascade_go_fork.GoMap.{GoMap, DistinctKeys}
use clip_cascade_go_fork.Protocol.Text.{
  Text, text_eq, text_beq_iff, is_space, trim_space, split, split_blank,
}
use clip_cascade_go_fork.Protocol.Text.Laws.{
  Free, StartsClear, EndsClear, trim_space_clear, trim_right-append, split-append, split_whole,
  cut-append,
}
use clip_cascade_go_fork.Protocol.Stomp.{
  Frame, encode_headers, encode, add_line, parse_headers, parse_section, parse_parts, parse_frame,
}

abbrev pub is_nul : ℕ → Bool
is_nul c = c == 0

-- What a header must be for the line that it is written as to be read back.
pub record IsCleanHeader (h : Text × Text) : Type 0 where
  pub key_nonempty : h.0 ≢ []
  pub key_line : Free 10 h.0
  pub key_colon : Free b':' h.0
  pub key_start : StartsClear is_space h.0
  pub value_line : Free 10 h.1
  pub value_end : EndsClear is_space h.1

pub record IsClean (f : Frame) : Type 0 where
  pub command_line : Free 10 f.command
  pub command_start : StartsClear is_space f.command
  pub command_end : EndsClear is_space f.command
  pub headers : All IsCleanHeader f.headers
  pub distinct : DistinctKeys f.headers
  pub body_end : EndsClear is_nul f.body

abbrev header_line : Text × Text → Text
header_line h = h.0 ++ b':' ∷ h.1

abbrev join_from : Text → List Text → Text
join_from l [] = l
join_from l (m ∷ ms) = l ++ 10 ∷ join_from m ms

-- The header section, and what follows it.
encode_headers-join :
    (l : Text) (hs : GoMap Text Text) (rest : Text)
    → l ++ 10 ∷ encode_headers hs rest ≡ join_from l (map header_line hs) ++ 10 ∷ rest
unfolding encode_headers
encode_headers-join l [] rest = refl
encode_headers-join l ((k, v) ∷ hs) rest =
    ap (λ t. l ++ 10 ∷ t)
      (sym (append_assoc k (b':' ∷ v) (10 ∷ encode_headers hs rest))
        ∙ encode_headers-join (header_line (k, v)) hs rest)
    ∙ sym (append_assoc l (10 ∷ join_from (header_line (k, v)) (map header_line hs)) (10 ∷ rest))

-- No empty line inside, and no line end at the end.
abbrev NoBlank : Text → Type 0
NoBlank [] = Unit
NoBlank (c ∷ []) = (c == 10) ≡ false
NoBlank (c ∷ d ∷ s) = ((c == 10 && d == 10) ≡ false) × NoBlank (d ∷ s)

split_blank-append : (s body : Text) → NoBlank s → split_blank (s ++ 10 ∷ 10 ∷ body) ≡ s ∷ body ∷ []
unfolding split_blank
split_blank-append [] body h = refl
split_blank-append (c ∷ []) body h = rw h
split_blank-append (c ∷ d ∷ s) body h = rw (h.0, split_blank-append (d ∷ s) body h.1)

NoBlank-Free : (s : Text) → Free 10 s → NoBlank s
NoBlank-Free [] h = tt
NoBlank-Free (c ∷ []) h = h.0
NoBlank-Free (c ∷ d ∷ s) h = (ground (arith, h.0), NoBlank-Free (d ∷ s) h.1)

NoBlank-append :
    (l t : Text)
    → Free 10 l
    → StartsClear (λ c. c == 10) t
    → t ≢ []
    → NoBlank t
    → NoBlank (l ++ 10 ∷ t)
NoBlank-append [] [] f s n h = absurd (n refl)
NoBlank-append [] (c ∷ t) f s n h = (ground (arith, s), h)
NoBlank-append (x ∷ []) t f s n h = (ground (arith, f.0), NoBlank-append [] t tt s n h)
NoBlank-append (x ∷ y ∷ l) t f s n h = (ground (arith, f.0), NoBlank-append (y ∷ l) t f.1 s n h)

-- A line that is written for a clean header.
Free-header_line : (k v : Text) → Free 10 k → Free 10 v → Free 10 (k ++ b':' ∷ v)
Free-header_line [] v fk fv = (refl, fv)
Free-header_line (c ∷ k) v fk fv = (fk.0, Free-header_line k v fk.1 fv)

EndsClear-append : (k v : Text) → EndsClear is_space v → EndsClear is_space (k ++ b':' ∷ v)
unfolding is_space
EndsClear-append [] [] h = refl
EndsClear-append [] (c ∷ v) h = h
EndsClear-append (x ∷ []) v h = EndsClear-append [] v h
EndsClear-append (x ∷ y ∷ k) v h = EndsClear-append (y ∷ k) v h

cut_header :
    (headers : GoMap Text Text) (x : ℕ) (k v : Text)
    → Free b':' (x ∷ k)
    → add_line headers (header_line (x ∷ k, v)) ≡ GoMap.put headers (x ∷ k) v
unfolding add_line
cut_header headers x k v f = ground (arith, cut-append b':' (x ∷ k) v f)

-- A line is read as the header that it was written for.
add_line-header :
    (headers : GoMap Text Text) (h : Text × Text)
    → IsCleanHeader h
    → add_line headers (trim_space (header_line h)) ≡ GoMap.put headers h.0 h.1
add_line-header headers ([], v) c = absurd (c.key_nonempty refl)
add_line-header headers (x ∷ k, v) c =
    rw
      (trim_space_clear (header_line (x ∷ k, v)) c.key_start
        (EndsClear-append (x ∷ k) v c.value_end))
      (cut_header headers x k v c.key_colon)

put_absent :
    (m : GoMap Text Text) (k v : Text) → All (λ y. y.0 ≢ k) m → GoMap.put m k v ≡ m ++ (k, v) ∷ []
unfolding GoMap.put
put_absent [] k v h = refl
put_absent ((i, w) ∷ m) k v h = ground (arith, h.0, text_beq_iff i k, put_absent m k v h.1)

All-middle {ℓ κ} :
    {A : Type ℓ} (P : A → Type κ) (xs : List A) (y : A) (ys : List A) → All P (xs ++ y ∷ ys) → P y
All-middle P [] y ys h = h.0
All-middle P (x ∷ xs) y ys h = All-middle P xs y ys h.1

Pairwise-middle {ℓ κ} :
    {A : Type ℓ} (R : A → A → Type κ) (xs : List A) (y : A) (ys : List A)
    → Pairwise R (xs ++ y ∷ ys)
    → All (λ x. R x y) xs
Pairwise-middle R [] y ys h = tt
Pairwise-middle R (x ∷ xs) y ys h = (All-middle (R x) xs y ys h.0, Pairwise-middle R xs y ys h.1)

parse_headers-lines :
    (read hs : GoMap Text Text)
    → All IsCleanHeader hs
    → DistinctKeys (read ++ hs)
    → parse_headers read (map header_line hs) ≡ read ++ hs
parse_headers-lines read [] c d = unfold parse_headers in sym (append-nil read)
parse_headers-lines read ((k, v) ∷ hs) c d =
    let regroup = append_assoc read ((k, v) ∷ []) hs in
    let one =
      add_line-header read (k, v) c.0
      ∙ put_absent read k v (Pairwise-middle (λ x y. x.0 ≢ y.0) read (k, v) hs d) in
    step read (header_line (k, v)) (map header_line hs) (read ++ (k, v) ∷ []) one
    ∙ parse_headers-lines (read ++ (k, v) ∷ []) hs c.1 (rw regroup d)
    ∙ regroup
  where
    step :
        (m : GoMap Text Text) (line : Text) (lines : List Text) (m' : GoMap Text Text)
        → add_line m (trim_space line) ≡ m'
        → parse_headers m (line ∷ lines) ≡ parse_headers m' lines
    step m line lines m' e = unfold parse_headers in rw e refl

split-join :
    (l : Text) (hs : GoMap Text Text)
    → Free 10 l
    → All IsCleanHeader hs
    → split 10 (join_from l (map header_line hs)) ≡ l ∷ map header_line hs
split-join l [] f c = split_whole 10 l f
split-join l ((k, v) ∷ hs) f c =
    split-append 10 l (join_from (header_line (k, v)) (map header_line hs)) f
    ∙ ap (λ t. l ∷ t)
        (split-join (header_line (k, v)) hs (Free-header_line k v c.0.key_line c.0.value_line) c.1)

-- The header section is one that ends before the first empty line.
join-start :
    (k v : Text) (lines : List Text)
    → k ≢ []
    → Free 10 k
    → StartsClear (λ c. c == 10) (join_from (header_line (k, v)) lines)
      × (join_from (header_line (k, v)) lines ≢ [])
join-start [] v lines n f = absurd (n refl)
join-start (c ∷ k) v [] n f = (f.0, λ e. cc)
join-start (c ∷ k) v (m ∷ ms) n f = (f.0, λ e. cc)

NoBlank-join :
    (l : Text) (hs : GoMap Text Text)
    → Free 10 l
    → All IsCleanHeader hs
    → NoBlank (join_from l (map header_line hs))
NoBlank-join l [] f c = NoBlank-Free l f
NoBlank-join l ((k, v) ∷ hs) f c =
    let (s, n) = join-start k v (map header_line hs) c.0.key_nonempty c.0.key_line in
    NoBlank-append l (join_from (header_line (k, v)) (map header_line hs)) f s n
      (NoBlank-join (header_line (k, v)) hs (Free-header_line k v c.0.key_line c.0.value_line) c.1)

-- The final NUL, and only that one, is trimmed.
EndsClear-frame : (s body : Text) → EndsClear is_nul body → EndsClear is_nul (s ++ 10 ∷ 10 ∷ body)
EndsClear-frame [] [] h = refl
EndsClear-frame [] (c ∷ body) h = h
EndsClear-frame (x ∷ []) body h = EndsClear-frame [] body h
EndsClear-frame (x ∷ y ∷ s) body h = EndsClear-frame (y ∷ s) body h

encode-sections :
    (f : Frame)
    → encode f ≡ (join_from f.command (map header_line f.headers) ++ 10 ∷ 10 ∷ f.body) ++ 0 ∷ []
unfolding encode
encode-sections f =
    encode_headers-join f.command f.headers (10 ∷ f.body ++ (0 ∷ []))
    ∙ sym
        (append_assoc (join_from f.command (map header_line f.headers)) (10 ∷ 10 ∷ f.body) (0 ∷ []))

-- A frame that is encoded is parsed back, if its command and its headers are such that a line can
-- hold them (no line end in them, no colon in a key, no key empty, no space at the start of the
-- command or a key and at the end of the command or a value) and its body does not end in a NUL.
pub parse_frame-encode : (f : Frame) → IsClean f → parse_frame (encode f) ≡ ok f
parse_frame-encode f c =
    let section = join_from f.command (map header_line f.headers) in
    let trimmed =
      trim_right-append is_nul (section ++ 10 ∷ 10 ∷ f.body) 0 refl
        (EndsClear-frame section f.body c.body_end) in
    let parts =
      split_blank-append section f.body
        (NoBlank-join f.command f.headers c.command_line c.headers) in
    let lines = split-join f.command f.headers c.command_line c.headers in
    unfold parse_frame parse_parts parse_section in
    rw
      (
        encode-sections f,
        trimmed,
        parts,
        parse_parts,
        lines,
        parse_section,
        parse_headers-lines [] f.headers c.headers c.distinct,
        trim_space_clear f.command c.command_start c.command_end,
      )
      refl
