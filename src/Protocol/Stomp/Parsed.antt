-- ===== src/Protocol/Stomp/Parsed.antt =====
-- pkg/protocol/stomp.go: what `ParseFrame` returns.
use clip_cascade_go_fork.Prelude.{
  ℕ, ◌≡◌, refl, Bool, false, Option, none, some, List, [], ◌∷◌, ◌++◌, ok, arith, ◌==◌, All,
  Bool-cases, inl, inr,
}
use clip_cascade_go_fork.GoMap
use clip_cascade_go_fork.GoMap.{GoMap, DistinctKeys, All-put, DistinctKeys-put}
use clip_cascade_go_fork.Protocol.Text.{
  Text, text_eq, is_space, trim_right, trim_space, split, split_blank, cut,
}
use clip_cascade_go_fork.Protocol.Text.Laws.{
  Free, StartsClear, EndsClear, split-Free, Free-trim_space, EndsClear-trim_right, EndsClear-rest,
  trim_space-clear, cut_sound, BlankSplit, whole, halves, split_blank-BlankSplit,
}
use clip_cascade_go_fork.Protocol.Stomp.{
  Frame, encode, add_line, parse_headers, parse_section, parse_parts, parse_frame,
}
use clip_cascade_go_fork.Protocol.Stomp.RoundTrip.{
  is_nul, IsCleanHeader, IsClean, parse_frame-encode,
}

record Headers (m : GoMap Text Text) : Type 0 where
  clean : All IsCleanHeader m
  distinct : DistinctKeys m

-- A trimmed line with no line end gives a header that can be written again.
Free-middle : (c : ℕ) (l : Text) (x : ℕ) (r : Text) → Free c (l ++ x ∷ r) → Free c l × Free c r
Free-middle c [] x r h = (tt, h.1)
Free-middle c (y ∷ l) x r h = let (a, b) = Free-middle c l x r h.1 in ((h.0, a), b)

StartsClear-prefix :
    (p : ℕ → Bool) (x : ℕ) (l r : Text) → StartsClear p ((x ∷ l) ++ r) → p x ≡ false
StartsClear-prefix p x l r h = h

add_line-Headers :
    (m : GoMap Text Text) (line : Text)
    → Free 10 line
    → StartsClear is_space line
    → EndsClear is_space line
    → Headers m
    → Headers (add_line m line)
unfolding add_line
add_line-Headers m line f s e h = by_cut (cut b':' line) refl
  where
    read :
        (key value : Text)
        → cut b':' line ≡ some (key, value)
        → Headers (elim key [ [] ↦ m | c ∷ k ↦ GoMap.put m (c ∷ k) value ])
    read [] value q = h
    read (c ∷ k) value q =
        let (parts, colon) = cut_sound b':' line (c ∷ k) value q in
        let (fk, fv) = Free-middle 10 (c ∷ k) b':' value (rw parts at f) in
        let header : IsCleanHeader (c ∷ k, value) = record {
          key_nonempty = λ z. cc;
          key_line = fk;
          key_colon = colon;
          key_start = (rw parts at s);
          value_line = fv;
          value_end = EndsClear-rest is_space (c ∷ k) b':' value (rw parts at e);
        } in
        record {
          clean = All-put IsCleanHeader m (c ∷ k) value header h.clean;
          distinct = DistinctKeys-put m (c ∷ k) value h.distinct;
        }

    by_cut : (o : Option (Text × Text)) → cut b':' line ≡ o → Headers (add_line m line)
    by_cut none q = rw (q, add_line) h
    by_cut (some (key, value)) q = rw (q, add_line) (read key value q)

parse_headers-Headers :
    (m : GoMap Text Text) (lines : List Text)
    → All (Free 10) lines
    → Headers m
    → Headers (parse_headers m lines)
unfolding parse_headers
parse_headers-Headers m [] f h = h
parse_headers-Headers m (line ∷ lines) f h =
    let (s, e) = trim_space-clear line in
    parse_headers-Headers (add_line m (trim_space line)) lines f.1
      (add_line-Headers m (trim_space line) (Free-trim_space 10 line f.0) s e h)

parse_section-IsClean :
    (lines : List Text) (body : Text) (f : Frame)
    → All (Free 10) lines
    → EndsClear is_nul body
    → parse_section lines body ≡ ok f
    → IsClean f
unfolding parse_section
parse_section-IsClean [] body f fr b h = cc
parse_section-IsClean (command ∷ lines) body f fr b h =
    let same : f
        ≡ record { command = trim_space command; headers = parse_headers [] lines; body = body } =
      ground arith in
    let (s, e) = trim_space-clear command in
    let hs = parse_headers-Headers [] lines fr.1 (record { clean = tt; distinct = tt }) in
    rw same (record {
      command_line = Free-trim_space 10 command fr.0;
      command_start = s;
      command_end = e;
      headers = hs.clean;
      distinct = hs.distinct;
      body_end = b;
    })

parse_parts-IsClean :
    (raw : Text) (parts : List Text) (f : Frame)
    → EndsClear is_nul raw
    → BlankSplit raw parts
    → parse_parts parts ≡ ok f
    → IsClean f
unfolding parse_parts
parse_parts-IsClean raw parts f e (whole q) h =
    parse_section-IsClean (split 10 raw) [] f (split-Free 10 raw) tt (rw q at h)
parse_parts-IsClean raw parts f e (halves a b p q) h =
    parse_section-IsClean (split 10 a) b f (split-Free 10 a)
      (EndsClear-rest is_nul [] 10 b (EndsClear-rest is_nul a 10 (10 ∷ b) (rw p at e))) (rw q at h)

pub parse_frame-IsClean : (raw : Text) (f : Frame) → parse_frame raw ≡ ok f → IsClean f
unfolding parse_frame
parse_frame-IsClean raw f h =
    let r = trim_right is_nul raw in
    parse_parts-IsClean r (split_blank r) f (EndsClear-trim_right is_nul raw)
      (split_blank-BlankSplit r) h

split_nonempty : (sep : ℕ) (s : Text) → (l : Text) × (ls : List Text) × (split sep s ≡ l ∷ ls)
unfolding split
split_nonempty sep [] = ([], [], refl)
split_nonempty sep (c ∷ s) =
    let (l, ls, e) = split_nonempty sep s in
    elim (Bool-cases (c == sep)) [
      | inl q ↦ ([], split sep s, rw q refl)
      | inr q ↦ (c ∷ l, ls, rw (q, e) refl)
    ]

parse_section_total :
    (section body : Text) → (f : Frame) × (parse_section (split 10 section) body ≡ ok f)
unfolding parse_section
parse_section_total section body =
    let (l, ls, e) = split_nonempty 10 section in
    (record { command = trim_space l; headers = parse_headers [] ls; body = body }, rw e refl)

parse_parts_total :
    (raw : Text) (parts : List Text)
    → BlankSplit raw parts
    → (f : Frame) × (parse_parts parts ≡ ok f)
unfolding parse_parts
parse_parts_total raw parts (whole q) = rw q (parse_section_total raw [])
parse_parts_total raw parts (halves a b p q) = rw q (parse_section_total a b)

-- The two errors of `ParseFrame` never occur: every text is read as some frame.
pub parse_frame_total : (raw : Text) → (f : Frame) × (parse_frame raw ≡ ok f)
parse_frame_total raw =
    let r = trim_right is_nul raw in
    unfold parse_frame in parse_parts_total r (split_blank r) (split_blank-BlankSplit r)

-- Whatever `ParseFrame` returns is read back as it is when it is encoded and sent on.
pub parse_frame-encode-parse_frame :
    (raw : Text) (f : Frame) → parse_frame raw ≡ ok f → parse_frame (encode f) ≡ ok f
parse_frame-encode-parse_frame raw f h = parse_frame-encode f (parse_frame-IsClean raw f h)
