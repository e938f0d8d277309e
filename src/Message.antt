-- ===== src/Message.antt =====
-- common/OMessage.h and common/OMessage.cpp: the message, its 32 byte head in network order, and
-- the exact reads of common/TSocket.cpp that take a message off the stream.
pub mod Layout
pub mod Wire
use oldpart.Base.{
  ◌-◌, assert, ◌>>◌, ℕ, ◌+◌, ◌^◌, ◌≡◌, Bool, true, false, not, Option, none, some, List, [], ◌∷◌,
  ◌++◌, length, take, drop, ltb, ◌==◌, if◌then◌else◌, Outcome, ok, err, starved, thrown, fault,
  ◌>>=◌,
}
use Prim.Native.Nat.{bit_and}
use Layout.{encode_values, decode_values}

-- `SerializeMethod::type`
abbrev pub method_none : ℕ
method_none = 0

abbrev pub method_compress : ℕ
method_compress = 1

abbrev pub method_encrypt : ℕ
method_encrypt = 2

-- `OMessage`. Each number is the two's complement pattern of its field. `body` is what `mBody`
-- points to, empty for a null pointer.
pub record OMessage : Type 0 where
  pub body_length : ℕ
  pub major : ℕ
  pub minor : ℕ
  pub sequence_id : ℕ
  pub message_id : ℕ
  pub message_sequence_id : ℕ
  pub request_id : ℕ
  pub body_serialize_method : ℕ
  pub compress_level : ℕ
  pub encrypt_pad_num : ℕ
  pub checksum : ℕ
  pub body : List ℕ

unfoldable pub is_last : OMessage → Bool
is_last m = not (ltb m.message_sequence_id (2 ^ 31))

unfoldable pub is_compressed : OMessage → Bool
is_compressed m = not (bit_and m.body_serialize_method method_compress == 0)

unfoldable pub is_encrypted : OMessage → Bool
is_encrypted m = not (bit_and m.body_serialize_method method_encrypt == 0)

-- the sizes of the members in front of `mBody`, in bytes
abbrev pub widths : List ℕ
widths = 4 ∷ 2 ∷ 2 ∷ 4 ∷ 4 ∷ 4 ∷ 4 ∷ 2 ∷ 1 ∷ 1 ∷ 4 ∷ []

-- `GetHeadLength()`, the offset of `mBody`
abbrev pub head_length : ℕ
head_length = 32

abbrev pub values : OMessage → List ℕ
values m =
    m.body_length ∷ m.major ∷ m.minor ∷ m.sequence_id ∷ m.message_id ∷ m.message_sequence_id
    ∷ m.request_id ∷ m.body_serialize_method ∷ m.compress_level ∷ m.encrypt_pad_num ∷ m.checksum
    ∷ []

-- The inverse of `values`; a head has eleven members.
unfoldable pub of_values : List ℕ → List ℕ → Outcome OMessage
of_values (a ∷ b ∷ c ∷ d ∷ e ∷ f ∷ g ∷ h ∷ i ∷ j ∷ k ∷ []) body = ok (record {
  body_length = a;
  major = b;
  minor = c;
  sequence_id = d;
  message_id = e;
  message_sequence_id = f;
  request_id = g;
  body_serialize_method = h;
  compress_level = i;
  encrypt_pad_num = j;
  checksum = k;
  body = body;
})
of_values _ body = err fault

unfoldable pub get_head : OMessage → List ℕ
get_head m = encode_values widths (values m)

-- The buffers of `GetSendBuffer`; the body is left out when its length is 0.
unfoldable pub get_send_buffer : OMessage → List (List ℕ)
get_send_buffer m =
    if m.body_length == 0 then get_head m ∷ [] else get_head m ∷ take m.body_length m.body ∷ []

-- `async_read` into a buffer of `n` bytes, from the bytes that arrive
unfoldable pub async_read : ℕ → List ℕ → Outcome (List ℕ × List ℕ)
async_read n input = if ltb (length input) n then err starved else ok (take n input, drop n input)

-- `GetReceiveBuffer`: `resize` to a negative length throws.
unfoldable pub get_receive_buffer : ℕ → Outcome ℕ
get_receive_buffer n = if ltb n (2 ^ 31) then ok n else err thrown

-- `-1`, the number of a message that is alone
abbrev pub single : ℕ
single = 2 ^ 32 - 1

-- The two reads of `TSocket::DoRead`: a head, then the body that it announces. One that announces
-- none is asserted to be alone.
unfoldable pub receive_body : OMessage → List ℕ → Outcome (OMessage × List ℕ)
receive_body m input =
    let with_body = do
      n ← get_receive_buffer m.body_length
      (body, rest) ← async_read n input
      ok (record m { body = body }, rest)
    in if m.body_length == 0
      then assert (m.message_sequence_id == single) >> ok (m, input)
      else with_body

unfoldable pub receive : List ℕ → Outcome (OMessage × List ℕ)
receive input = do
  (head, after) ← async_read head_length input
  m ← of_values (decode_values widths head) []
  receive_body m after
