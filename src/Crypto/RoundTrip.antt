-- ===== src/Crypto/RoundTrip.antt =====
-- pkg/crypto/aes_gcm.go: what is encrypted can be decrypted again.
use clip_cascade_go_fork.Prelude.{
  ℕ, zero, suc, ◌-◌, ◌≡◌, refl, ap, true, false, Option, some, [], ◌∷◌, ◌++◌, ◌==◌, length,
}
use clip_cascade_go_fork.GoMap.{GoMap, get, put}
use clip_cascade_go_fork.Protocol.Text.{Text, codes, text_eq}
use clip_cascade_go_fork.Clipboard.Capture.{Bytes, base64_encode}
use clip_cascade_go_fork.Files.Paths.{take}
use clip_cascade_go_fork.Crypto.Base64.{base64_decode-encode, AreBytes}
use clip_cascade_go_fork.Crypto.{
  EncryptedPayload, drop, is_key, split_tag, encrypt_with_aad, decrypt_with_aad, field, fields_of,
  encode_to_json_string, payload_of, decode_from_json_string,
}

take-drop : (n : ℕ) (s : Bytes) → take n s ++ drop n s ≡ s
take-drop zero s = refl
take-drop (suc n) [] = refl
take-drop (suc n) (b ∷ s) = ap (λ t. b ∷ t) (take-drop n s)

AreBytes-take : (n : ℕ) (s : Bytes) → AreBytes s → AreBytes (take n s)
AreBytes-take zero s h = tt
AreBytes-take (suc n) [] h = tt
AreBytes-take (suc n) (b ∷ s) h = (h.0, AreBytes-take n s h.1)

AreBytes-drop : (n : ℕ) (s : Bytes) → AreBytes s → AreBytes (drop n s)
AreBytes-drop zero s h = h
AreBytes-drop (suc n) [] h = tt
AreBytes-drop (suc n) (b ∷ s) h = AreBytes-drop n s h.1

-- The fields of a JSON object of a payload.
fields-nonce :
    (p : EncryptedPayload)
    → (field (fields_of p) (codes "nonce") ≡ base64_encode p.nonce)
      × (field (fields_of p) (codes "ciphertext") ≡ base64_encode p.ciphertext)
      × (field (fields_of p) (codes "tag") ≡ base64_encode p.tag)
unfolding get put
fields-nonce p = (refl, refl, refl)

-- The JSON of a payload of bytes is read back.
payload_of-fields :
    (p : EncryptedPayload)
    → AreBytes p.nonce
    → AreBytes p.ciphertext
    → AreBytes p.tag
    → payload_of (fields_of p) ≡ some p
unfolding payload_of
payload_of-fields p n c t =
    let f = fields-nonce p in
    rw
      (
        payload_of,
        f.0,
        base64_decode-encode p.nonce n,
        f.1,
        base64_decode-encode p.ciphertext c,
        f.2,
        base64_decode-encode p.tag t,
      )
      refl

-- What is encrypted and put into JSON is read from it and decrypted again, with the same key and bound
-- data. The key has the length of an AES key, the nonce is not empty and was read, `Open` opens what
-- `Seal` makes, both give bytes, and the JSON of the payload is read as it was written.
pub encrypted_decrypted :
    (seal : Bytes → Bytes → Bytes → Bytes → Bytes)
    (open_sealed : Bytes → Bytes → Bytes → Bytes → Option Bytes)
    (print_json : GoMap Text Text → Text) (parse_json : Text → Option (GoMap Text Text))
    (key nonce plaintext aad : Bytes)
    → is_key key ≡ true
    → (length nonce == 0) ≡ false
    → AreBytes nonce
    → AreBytes (seal key nonce plaintext aad)
    → open_sealed key nonce (seal key nonce plaintext aad) aad ≡ some plaintext
    → parse_json (print_json (fields_of (split_tag nonce (seal key nonce plaintext aad))))
      ≡ some (fields_of (split_tag nonce (seal key nonce plaintext aad)))
    → (p : EncryptedPayload) × (encrypt_with_aad seal open_sealed key (some nonce) plaintext aad
        ≡ some p)
      × (decode_from_json_string print_json parse_json
            (encode_to_json_string print_json parse_json p)
          ≡ some p)
      × (decrypt_with_aad seal open_sealed key p aad ≡ some plaintext)
unfolding encrypt_with_aad decrypt_with_aad encode_to_json_string decode_from_json_string
encrypted_decrypted seal open_sealed print_json parse_json key nonce plaintext aad k n bn bs law
      json =
    let sealed = seal key nonce plaintext aad in
    let tag_start = length sealed - 16 in
    (
      split_tag nonce sealed,
      rw k refl,
      rw (decode_from_json_string, json)
          (payload_of-fields (split_tag nonce sealed) bn (AreBytes-take tag_start sealed bs)
            (AreBytes-drop tag_start sealed bs)),
      rw (k, n, take-drop tag_start sealed) law,
    )
