-- ===== src/Tests/Wire.antt =====
-- Messages on the stream, the cipher, the registry and the decompressor.
use oldpart.Base.{
  ℕ, ◌≡◌, ◌≤◌, ◌<◌, ◌+◌, ◌%◌, refl, none, some, List, [], ◌∷◌, map, concat, ok, err, fault, ◌>>=◌,
  arith, take,
}
use oldpart.Message.{OMessage}
use oldpart.Message.Wire.{sent_bytes, IsSendable, receive_all, receive_all-sent_bytes}
use oldpart.Crypto.{aes_encrypt, aes_decrypt, padded}
use oldpart.Crypto.Laws.{IsRestored, padded_bounds, aes_decrypt-aes_encrypt, aes_decrypt_overrun}
use oldpart.Serializer.Registry.{ProtoCreator}
use oldpart.Tests.Inputs.{plain_aes, key}

abbrev ping : OMessage
ping = record {
  body_length = 2;
  major = 1;
  minor = 1;
  sequence_id = 5;
  message_id = 1000;
  message_sequence_id = 4294967295;
  request_id = 77;
  body_serialize_method = 0;
  compress_level = 0;
  encrypt_pad_num = 0;
  checksum = 0;
  body = 8 ∷ 9 ∷ [];
}

abbrev empty_ping : OMessage
empty_ping = record ping { body_length = 0; body = [] }

ping-IsSendable : IsSendable ping
ping-IsSendable = record {
  fit = ground arith;
  same_length = refl;
  small = omega arith;
  alone = λ h. refl;
}

empty_ping-IsSendable : IsSendable empty_ping
empty_ping-IsSendable = record {
  fit = ground arith;
  same_length = refl;
  small = omega arith;
  alone = λ h. refl;
}

receive_all-sent_bytes_example :
    receive_all 2 (concat (map sent_bytes (ping ∷ empty_ping ∷ []))) ≡ ok (ping ∷ empty_ping ∷ [])
receive_all-sent_bytes_example =
    receive_all-sent_bytes (ping ∷ empty_ping ∷ []) (ping-IsSendable, (empty_ping-IsSendable, tt))

-- a text of 3 bytes, in an array of 16
abbrev text : List ℕ
text = 1 ∷ 2 ∷ 3 ∷ 0 ∷ 0 ∷ 0 ∷ 0 ∷ 0 ∷ 0 ∷ 0 ∷ 0 ∷ 0 ∷ 0 ∷ 0 ∷ 0 ∷ 0 ∷ []

three_padded : padded 3 ≡ 16
unfolding padded
three_padded = refl

aes_decrypt-aes_encrypt_example :
    IsRestored plain_aes key
      (omega arith, refl)
      text
      3
      (aes_encrypt plain_aes text 16 key text 3 0 >>= λ s.
        aes_decrypt plain_aes text 16 key (take s.cipher_len s.buf) s.cipher_len s.pad_num)
aes_decrypt-aes_encrypt_example =
    aes_decrypt-aes_encrypt plain_aes key (omega arith, refl) text text 16 16 text 3 0
      (omega (arith, three_padded)) (omega (arith, three_padded)) (omega (arith, three_padded))
      (omega arith) (omega (arith, three_padded)) (omega (arith, three_padded))

aes_decrypt_overrun_example : aes_decrypt plain_aes (0 ∷ 0 ∷ 0 ∷ []) 3 key text 16 13 ≡ err fault
aes_decrypt_overrun_example =
    aes_decrypt_overrun plain_aes key (omega arith, refl) (0 ∷ 0 ∷ 0 ∷ []) text 16 13 (omega arith)
      (omega arith) (omega arith) (omega arith) (omega arith)

padded_bounds_example : (3 ≤ padded 3) × (padded 3 < 3 + 16) × (padded 3 % 16 ≡ 0)
padded_bounds_example = padded_bounds 3

-- objects of a program are numbers here
abbrev registered : List (ℕ × ProtoCreator ℕ)
registered = (1000, record { request_creator = some (some 1); response_creator = some none }) ∷ []
