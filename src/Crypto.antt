-- ===== src/Crypto.antt =====
-- pkg/crypto/aes_gcm.go: the encryption of payloads, and their JSON.
pub mod Base64
pub mod RoundTrip
use clip_cascade_go_fork.Prelude.{
  ℕ, zero, suc, ◌-◌, Bool, true, false, not, ◌||◌, Option, none, some, List, [], ◌∷◌, ◌++◌,
  if◌then◌else◌, ◌==◌, ltb, length,
}
use clip_cascade_go_fork.GoMap.{GoMap, get, put}
use clip_cascade_go_fork.Protocol.Text.{Text, codes, text_eq}
use clip_cascade_go_fork.Clipboard.Capture.{Bytes, base64_encode}
use clip_cascade_go_fork.Files.Paths.{take}
use clip_cascade_go_fork.Crypto.Base64.{base64_decode}

pub record EncryptedPayload : Type 0 where
  pub nonce : Bytes
  pub ciphertext : Bytes
  pub tag : Bytes

-- `s[n:]`
abbrev pub drop : ℕ → Bytes → Bytes
drop zero s = s
drop (suc n) [] = []
drop (suc n) (b ∷ s) = drop n s

-- `aes.NewCipher` takes the three lengths of AES keys.
abbrev pub is_key : Bytes → Bool
is_key key = length key == 16 || length key == 24 || length key == 32

-- Go appends the tag of 16 bytes to the ciphertext.
abbrev pub split_tag : Bytes → Bytes → EncryptedPayload
split_tag nonce sealed =
    let tag_start = length sealed - 16 in
    record { nonce = nonce; ciphertext = take tag_start sealed; tag = drop tag_start sealed }

-- `seal` and `open_sealed` are `Seal` and `Open` of AES-GCM: of a key, a nonce, the text and the data that is
-- bound to it.
module _ (seal : Bytes → Bytes → Bytes → Bytes → Bytes)
    (open_sealed : Bytes → Bytes → Bytes → Bytes → Option Bytes) where
  -- `encryptWithAAD`, with the random nonce that was read, if it was.
  unfoldable pub encrypt_with_aad : Bytes → Option Bytes → Bytes → Bytes → Option EncryptedPayload
  encrypt_with_aad key random plaintext aad = if not (is_key key) then none else elim random [
    | none ↦ none
    | some nonce ↦ some (split_tag nonce (seal key nonce plaintext aad))
  ]

  -- `decryptWithAAD`; a cipher with an empty nonce is refused.
  unfoldable pub decrypt_with_aad : Bytes → EncryptedPayload → Bytes → Option Bytes
  decrypt_with_aad key payload aad =
      if not (is_key key) || length payload.nonce == 0
      then none
      else open_sealed key payload.nonce (payload.ciphertext ++ payload.tag) aad

-- A field of a JSON object of texts; one that is missing is the empty text.
abbrev pub field : GoMap Text Text → Text → Text
field m name = elim (get m name) [ none ↦ [] | some text ↦ text ]

-- The object of `EncodeToJSONString`.
abbrev pub fields_of : EncryptedPayload → GoMap Text Text
fields_of payload =
    put
      (put (put [] (codes "nonce") (base64_encode payload.nonce)) (codes "ciphertext")
        (base64_encode payload.ciphertext))
      (codes "tag") (base64_encode payload.tag)

unfoldable pub payload_of : GoMap Text Text → Option EncryptedPayload
payload_of m = elim (base64_decode (field m (codes "nonce"))) [
  | none ↦ none
  | some nonce ↦ elim (base64_decode (field m (codes "ciphertext"))) [
    | none ↦ none
    | some ciphertext ↦ elim (base64_decode (field m (codes "tag"))) [
      | none ↦ none
      | some tag ↦ some (record { nonce = nonce; ciphertext = ciphertext; tag = tag })
    ]
  ]
]

-- `print_json` and `parse_json` are `encoding/json` on objects of texts.
module _ (print_json : GoMap Text Text → Text) (parse_json : Text → Option (GoMap Text Text)) where
  unfoldable pub encode_to_json_string : EncryptedPayload → Text
  encode_to_json_string payload = print_json (fields_of payload)

  unfoldable pub decode_from_json_string : Text → Option EncryptedPayload
  unfolding payload_of
  decode_from_json_string s = elim (parse_json s) [ none ↦ none | some m ↦ payload_of m ]
