-- ===== src/Files/Sending/Arrival.antt =====
-- desktop/app/file_transfer.go: chunks that a sender calls, at any receiver that takes them one by one.
use mathlib.Core.Path.{subst}
use clip_cascade_go_fork.Prelude.{
  ℕ, zero, suc, ◌<◌, ◌≡◌, ◌∙◌, ap, false, not, Option, some, String, List, [], ◌∷◌, ◌++◌, ltb,
  length, arith, if_cases, append_assoc, ok,
}
use clip_cascade_go_fork.Prelude.Int.{ℤ, pos}
use clip_cascade_go_fork.Protocol.Text.{Text}
use clip_cascade_go_fork.Clipboard.Capture.{Bytes}
use clip_cascade_go_fork.Files.Paths.{take}
use clip_cascade_go_fork.Files.Transfer.{FileChunk, OutgoingTransfer}
use clip_cascade_go_fork.Files.Receiving.{Disk, is_empty}
use clip_cascade_go_fork.Files.Sending.{
  SendCalls, Sends, chunk_size, drop, SendError, archive_chunk_reader, chunk_of, send_from,
  send_archive_chunks, send_round,
}
use clip_cascade_go_fork.Files.Sending.Rounds.{send_archive_chunks-send_from}
use clip_cascade_go_fork.Files.Sending.Chunks.{
  take-drop, take_short, nothing_left, is_less, unsent, full_read, nothing_read, shrinks,
}

-- The chunks in their order, with no other operation between them.
unfoldable pub receive_all : {R : Type 0} → (R → FileChunk → R) → R → List FileChunk → R
receive_all step r [] = r
receive_all step r (chunk ∷ chunks) = receive_all step (step r chunk) chunks

-- Every chunk can be encoded.
abbrev pub Encodes : (String → ℤ → Bytes → Option Text) → OutgoingTransfer → Type 0
Encodes encode o =
    (i : ℕ) (raw : Bytes)
    → (data_text : Text) × (encode o.manifest.transfer_id (pos i) raw ≡ some data_text)

-- `Has got last r`: the receiver `r` has the bytes `got` of the chunks up to the index `last`.
module _ {R : Type 0} (step : R → FileChunk → R) (Has : Bytes → ℕ → R → Type 0)
    (sha256 : Bytes → String) (encode : String → ℤ → Bytes → Option Text) (calls : SendCalls)
    (o : OutgoingTransfer) (target : String) where
  -- The receiver takes the first chunk.
  abbrev pub TakesFirst : R → Type 0
  TakesFirst r =
      (raw : Bytes) (data_text : Text)
      → encode o.manifest.transfer_id (pos 0) raw ≡ some data_text
      → Has raw 0 (step r (chunk_of sha256 encode calls o target 0 raw data_text))

  -- A receiver takes the chunk after the last one.
  abbrev pub TakesNext : Type 0
  TakesNext =
      (got : Bytes) (last : ℕ) (r : R) (raw : Bytes) (data_text : Text)
      → encode o.manifest.transfer_id (pos (suc last)) raw ≡ some data_text
      → Has got last r
      → Has (got ++ raw) (suc last)
          (step r (chunk_of sha256 encode calls o target (suc last) raw data_text))

  abbrev pub Arrived : Bytes → R → Type 0
  Arrived whole r = (last : ℕ) × Has whole last r

  rest-Arrived :
      (f : ℕ) (r : R) (got : Bytes) (last : ℕ) (left : Bytes)
      → Encodes encode o
      → Sends calls
      → TakesNext
      → length left < f
      → Has got last r
      → Arrived
          (got ++ left)
          (receive_all step r (send_from sha256 encode calls f o target (suc last) left).0)
  unfolding send_from send_round receive_all
  rest-Arrived zero r got last left p q w k h = absurd (omega arith)
  rest-Arrived (suc f) r got last left p q w k h =
      let raw = take chunk_size left in
      let sent = send_from sha256 encode calls f o target (suc (suc last)) (drop chunk_size left) in
      let P =
        λ (s : List FileChunk × Option SendError). Arrived (got ++ left) (receive_all step r s.0) in
      if_cases P (not (calls.reads (suc last)))
        (λ m. absurd (unsent (calls.reads (suc last)) (q.0 (suc last)) m))
        (λ y.
          if_cases P (is_empty raw)
            (λ z. (
              last,
              subst (λ (whole : Bytes). Has whole last r)
                  (nothing_left got chunk_size left (omega arith) z) h,
            ))
            (λ z.
              let coded = p (suc last) raw in
              let chunk = chunk_of sha256 encode calls o target (suc last) raw coded.0 in
              let kept = w got last r raw coded.0 coded.1 h in
              rw (coded.1) (
                if_cases P (not (calls.sends chunk))
                  (λ n. absurd (unsent (calls.sends chunk) (q.1 chunk) n))
                  (λ n.
                    if_cases P (ltb (length raw) chunk_size)
                      (λ short. (
                        suc last,
                        subst (λ (whole : Bytes). Has whole (suc last) (step r chunk))
                            (ap (λ s. got ++ s)
                              (take_short chunk_size left (is_less (length raw) chunk_size short)))
                            kept,
                      ))
                      (λ full.
                        let less = shrinks chunk_size left z in
                        subst
                          (λ (whole : Bytes).
                            Arrived whole (receive_all step (step r chunk) sent.0))
                          (append_assoc got raw (drop chunk_size left)
                            ∙ ap (λ s. got ++ s) (take-drop chunk_size left))
                          (rest-Arrived f (step r chunk) (got ++ raw) (suc last)
                            (drop chunk_size left) p q w (omega arith) kept))))))

  all-Arrived :
      (f : ℕ) (r : R) (left : Bytes)
      → Encodes encode o
      → Sends calls
      → TakesFirst r
      → TakesNext
      → length left < f
      → is_empty left ≡ false
      → Arrived left (receive_all step r (send_from sha256 encode calls f o target 0 left).0)
  unfolding send_from send_round receive_all
  all-Arrived zero r left p q v w k n = absurd (omega arith)
  all-Arrived (suc f) r left p q v w k n =
      let raw = take chunk_size left in
      let sent = send_from sha256 encode calls f o target 1 (drop chunk_size left) in
      let P = λ (s : List FileChunk × Option SendError). Arrived left (receive_all step r s.0) in
      if_cases P (not (calls.reads 0)) (λ m. absurd (unsent (calls.reads 0) (q.0 0) m))
        (λ y.
          if_cases P (is_empty raw)
            (λ z. absurd (full_read left n (nothing_read chunk_size left (omega arith) z)))
            (λ z.
              let coded = p 0 raw in
              let chunk = chunk_of sha256 encode calls o target 0 raw coded.0 in
              let kept = v raw coded.0 coded.1 in
              rw (coded.1) (
                if_cases P (not (calls.sends chunk))
                  (λ m. absurd (unsent (calls.sends chunk) (q.1 chunk) m))
                  (λ m.
                    if_cases P (ltb (length raw) chunk_size)
                      (λ short. (
                        0,
                        subst (λ (whole : Bytes). Has whole 0 (step r chunk))
                            (take_short chunk_size left (is_less (length raw) chunk_size short))
                            kept,
                      ))
                      (λ full.
                        let less = shrinks chunk_size left z in
                        subst
                          (λ (whole : Bytes).
                            Arrived whole (receive_all step (step r chunk) sent.0))
                          (take-drop chunk_size left)
                          (rest-Arrived f (step r chunk) raw 0 (drop chunk_size left) p q w
                            (omega arith) kept))))))

  -- A receiver that takes the first chunk and each next one gets a whole archive that is not empty.
  pub send_archive_chunks-Arrived :
      (sender_disk : Disk) (content : Bytes) (r : R)
      → Encodes encode o
      → Sends calls
      → TakesFirst r
      → TakesNext
      → archive_chunk_reader sender_disk o 0 ≡ ok content
      → is_empty content ≡ false
      → Arrived content
          (receive_all step r (send_archive_chunks sha256 encode calls sender_disk o target 0).0)
  send_archive_chunks-Arrived sender_disk content r p q v w e n =
      rw (send_archive_chunks-send_from sha256 encode calls sender_disk o target 0 content e)
        (all-Arrived (suc (length content)) r content p q v w (omega arith) n)

  -- One that has the chunks up to the index `last` gets the rest.
  pub resumed-Arrived :
      (sender_disk : Disk) (got left : Bytes) (last : ℕ) (r : R)
      → Encodes encode o
      → Sends calls
      → TakesNext
      → archive_chunk_reader sender_disk o (suc last) ≡ ok left
      → Has got last r
      → Arrived (got ++ left) (
          receive_all step r
            (send_archive_chunks sha256 encode calls sender_disk o target (suc last)).0)
  resumed-Arrived sender_disk got left last r p q w e h =
      rw (send_archive_chunks-send_from sha256 encode calls sender_disk o target (suc last) left e)
        (rest-Arrived (suc (length left)) r got last left p q w (omega arith) h)
