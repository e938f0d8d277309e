-- ===== src/Tests/Objects.antt =====
-- An object of more than two buffers, written, read, sent in clear and under a key.
use oldpart.Base.{
  le_bytes, ℕ, ◌≡◌, refl, Bool, true, false, List, [], ◌∷◌, ◌++◌, map, concat, take, drop, ok,
  ◌>>=◌, arith,
}
use oldpart.Proto.Write.{BufT, serialize_object}
use oldpart.Proto.Read.{read_object}
use oldpart.Proto.Encoding.{encode_fields, encode_items}
use oldpart.Proto.Emitted.{payload, payloads}
use oldpart.Proto.Written.{IsSerialized, serialize_object-IsSerialized}
use oldpart.Proto.RoundTrip.{read_object-serialize_object}
use oldpart.Message.{OMessage}
use oldpart.Serializer.Send.{serialize, serialize_encrypted, make_message_from_buf}
use oldpart.Serializer.Receive.{deserialize}
use oldpart.Serializer.Numbering.{IsNumbered, make_message_from_buf-IsNumbered}
use oldpart.Serializer.Plain.{deserialize-serialize}
use oldpart.Serializer.Encrypted.{deserialize-serialize_encrypted}
use oldpart.Net.Delivered.{across, deserialize-across}
use oldpart.Tests.Inputs.{
  plain_aes, sum_crc, copying, key, fields, fields-AreSized, object_values, max, object_AreWritable,
}

deserialize-serialize_encrypted_example :
    (serialize_encrypted plain_aes sum_crc max 9 1000 key fields object_values
      >>= deserialize plain_aes sum_crc copying 5 max key fields)
    ≡ ok (true, ok object_values)
deserialize-serialize_encrypted_example =
    deserialize-serialize_encrypted plain_aes sum_crc copying key (omega arith, refl) max refl
      (omega arith) 4 5 9 1000 fields object_values (omega arith) (omega arith) tt fields-AreSized
      object_AreWritable

deserialize-serialize_example :
    (serialize max 9 1000 fields object_values
      >>= deserialize plain_aes sum_crc copying 5 max key fields)
    ≡ ok (true, ok object_values)
deserialize-serialize_example =
    deserialize-serialize plain_aes sum_crc copying 4 max 5 9 1000 key fields object_values
      (omega arith) (omega arith) tt fields-AreSized object_AreWritable

read_object-serialize_object_example :
    (serialize_object max fields object_values >>= λ ps. read_object fields (map payload ps))
    ≡ ok object_values
read_object-serialize_object_example =
    read_object-serialize_object 4 max (omega arith) (omega arith) fields object_values tt
      object_AreWritable

serialize_object-IsSerialized_example :
    IsSerialized 4 max
      (omega arith)
      (omega arith)
      fields
      object_values
      (serialize_object max fields object_values)
serialize_object-IsSerialized_example =
    serialize_object-IsSerialized 4 max (omega arith) (omega arith) fields object_values tt
      object_AreWritable

-- the encoding cut into three chunks, with two bytes behind it
abbrev encoding : List ℕ
encoding =
    2 ∷ 1 ∷ 0 ∷ 0 ∷ 14 ∷ 0 ∷ 0 ∷ 0 ∷ 104 ∷ 101 ∷ 108 ∷ 108 ∷ 111 ∷ 32 ∷ 119 ∷ 111 ∷ 114 ∷ 108 ∷ 100
    ∷ 33 ∷ 33 ∷ 33 ∷ 2 ∷ 0 ∷ 0 ∷ 0 ∷ 7 ∷ 0 ∷ 0 ∷ 0 ∷ 112 ∷ 17 ∷ 1 ∷ 0 ∷ 3 ∷ 0 ∷ 0 ∷ 0 ∷ 1 ∷ 2 ∷ 3
    ∷ 55 ∷ 66 ∷ []

encoded :
    concat (take 2 encoding ∷ take 25 (drop 2 encoding) ∷ drop 27 encoding ∷ [])
    ≡ encode_fields fields object_values ++ (55 ∷ 66 ∷ [])
unfolding encode_fields encode_items le_bytes
encoded = refl

abbrev one_buffer : Bool → ℕ → BufT
one_buffer last n = record {
  buf = record { buf = n ∷ n ∷ 0 ∷ []; buf_len = 2 };
  pad_num = 0;
  checksum = 0;
  is_last = last;
}

abbrev two_buffers : List BufT
two_buffers = one_buffer false 5 ∷ one_buffer true 6 ∷ []

make_message_from_buf-IsNumbered_example :
    IsNumbered 9 1 (make_message_from_buf 1000 0 0 9 two_buffers)
    × (concat (map (λ (m : OMessage). m.body) (make_message_from_buf 1000 0 0 9 two_buffers))
        ≡ payloads two_buffers)
make_message_from_buf-IsNumbered_example =
    make_message_from_buf-IsNumbered 1000 0 0 9 two_buffers (refl, refl) (omega arith)

deserialize-across_example :
    (serialize_encrypted plain_aes sum_crc max 9 1000 key fields object_values >>= λ ms.
    across 77 ms >>= deserialize plain_aes sum_crc copying 5 max key fields)
    ≡ ok (true, ok object_values)
unfolding encode_fields encode_items le_bytes
deserialize-across_example =
    deserialize-across plain_aes sum_crc copying key (omega arith, refl) max refl (omega arith) 4 5
      9 1000 77 fields object_values (omega arith) (omega arith) (omega arith) (omega arith) tt
      fields-AreSized object_AreWritable (omega arith)
