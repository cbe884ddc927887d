-- ===== src/Tests/CryptoTests.antt =====
-- The encryption of payloads, at concrete inputs.
use clip_cascade_go_fork.Prelude.{◌≡◌, refl, Option, none, some, [], ◌∷◌, arith}
use clip_cascade_go_fork.GoMap.{GoMap}
use clip_cascade_go_fork.Protocol.Text.{Text, codes}
use clip_cascade_go_fork.Clipboard.Capture.{Bytes, base64_encode}
use clip_cascade_go_fork.Crypto.{
  fields_of, split_tag, encrypt_with_aad, decrypt_with_aad, encode_to_json_string,
  decode_from_json_string, EncryptedPayload,
}
use clip_cascade_go_fork.Crypto.Base64.{base64_decode, decode_quanta, char_value, AreBytes}
use clip_cascade_go_fork.Crypto.RoundTrip.{encrypted_decrypted}

decode_code : Unit {0}
unfolding base64_decode decode_quanta char_value base64_encode
decode_code = tt

decoded_word : base64_decode (codes "Y2xp\ncA==") ≡ some (codes "clip")
unfolding decode_code
decoded_word = refl

decoded_bad : base64_decode (codes "Y2=p") ≡ none
unfolding decode_code
decoded_bad = refl

abbrev key16 : Bytes
key16 = 0 ∷ 1 ∷ 2 ∷ 3 ∷ 4 ∷ 5 ∷ 6 ∷ 7 ∷ 8 ∷ 9 ∷ 10 ∷ 11 ∷ 12 ∷ 13 ∷ 14 ∷ 15 ∷ []

-- A cipher that only appends a tag of 16 bytes, for one text.
abbrev seal : Bytes → Bytes → Bytes → Bytes → Bytes
seal key nonce plaintext aad = 42 ∷ key16

abbrev open_sealed : Bytes → Bytes → Bytes → Bytes → Option Bytes
open_sealed key nonce sealed aad = some (42 ∷ [])

abbrev payload : EncryptedPayload
payload = split_tag key16 (seal key16 key16 (42 ∷ []) [])

-- JSON that is only asked for one object.
abbrev print_json : GoMap Text Text → Text
print_json m = []

abbrev parse_json : Text → Option (GoMap Text Text)
parse_json s = some (fields_of payload)

key16-AreBytes : AreBytes key16
key16-AreBytes = (
  omega arith,
  (
    omega arith,
    (
      omega arith,
      (
        omega arith,
        (
          omega arith,
          (
            omega arith,
            (
              omega arith,
              (
                omega arith,
                (
                  omega arith,
                  (
                    omega arith,
                    (
                      omega arith,
                      (omega arith, (omega arith, (omega arith, (omega arith, (omega arith, tt))))),
                    ),
                  ),
                ),
              ),
            ),
          ),
        ),
      ),
    ),
  ),
)

encrypted_decrypted_example :
    (p : EncryptedPayload) × (encrypt_with_aad seal open_sealed key16 (some key16) (42 ∷ []) []
      ≡ some p)
    × (decode_from_json_string print_json parse_json (encode_to_json_string print_json parse_json p)
        ≡ some p)
    × (decrypt_with_aad seal open_sealed key16 p [] ≡ some (42 ∷ []))
encrypted_decrypted_example =
    encrypted_decrypted seal open_sealed print_json parse_json key16 key16 (42 ∷ []) [] refl refl
      key16-AreBytes (omega arith, key16-AreBytes) refl refl
