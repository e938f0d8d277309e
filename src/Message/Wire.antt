-- ===== src/Message/Wire.antt =====
-- `GetSendBuffer` (common/OMessage.cpp) against the reads of `TSocket::DoRead`.
use oldpart.Base.{
  ℕ, zero, suc, ◌<◌, ◌^◌, ◌≡◌, refl, sym, ap, ◌∙◌, true, false, List, [], ◌∷◌, ◌++◌, append-nil,
  append_assoc, length, take, concat, arith, ◌==◌, Outcome, ok, ◌>>=◌, Bool-cases, inl, inr, ==_iff,
  le→ltb, lt→ltb, take-append_le, take_all, drop-append_ge, length-append, map,
}
use oldpart.Proto.Types.{All}
use oldpart.Message.{
  single, OMessage, widths, head_length, values, of_values, get_head, get_send_buffer, async_read,
  get_receive_buffer, receive_body, receive,
}
use oldpart.Message.Layout.{Fit, decode_values, length-encode_values, decode-encode_values}

-- Every number fits its field, the body has the length that the head announces, and a message that
-- announces none is numbered as one that is alone.
pub record IsSendable (m : OMessage) : Type 0 where
  pub fit : Fit widths (values m)
  pub same_length : length m.body ≡ m.body_length
  pub small : m.body_length < 2 ^ 31
  pub alone : m.body_length ≡ 0 → m.message_sequence_id ≡ single

-- the bytes on the stream
abbrev pub sent_bytes : OMessage → List ℕ
sent_bytes m = concat (get_send_buffer m)

pub async_read-append :
    (n : ℕ) (bs rest : List ℕ) → length bs ≡ n → async_read n (bs ++ rest) ≡ ok (bs, rest)
unfolding async_read
async_read-append n bs rest h =
    rw (le→ltb (length (bs ++ rest)) n (omega (arith, length-append bs rest))) (
      ap (λ p. ok p)
        (pair (take-append_le n bs rest (omega arith) ∙ take_all n bs (omega arith))
          (drop-append_ge n 0 bs rest (omega arith))))
  where
    pair : {a b c d : List ℕ} → a ≡ b → c ≡ d → ◌≡◌ {A = List ℕ × List ℕ} (a, c) (b, d)
    pair p q = λ i. (p i, q i)

length-get_head : (m : OMessage) → IsSendable m → length (get_head m) ≡ head_length
unfolding get_head
length-get_head m s = length-encode_values widths (values m) s.fit

decode-get_head :
    (m : OMessage) (body : List ℕ)
    → IsSendable m
    → of_values (decode_values widths (get_head m)) body ≡ ok (record m { body = body })
unfolding get_head of_values
decode-get_head m body s =
    ap (λ vs. of_values vs body) (decode-encode_values widths (values m) s.fit)

body_of_zero : (xs : List ℕ) → length xs ≡ 0 → xs ≡ []
body_of_zero [] h = refl
body_of_zero (x ∷ xs) h = absurd (omega arith)

receive-head :
    (m : OMessage) (after : List ℕ)
    → IsSendable m
    → receive (get_head m ++ after) ≡ receive_body (record m { body = [] }) after
unfolding receive
receive-head m after s =
    rw (
      async_read-append head_length (get_head m) after (length-get_head m s),
      decode-get_head m [] s,
    )

receive_body-nothing :
    (m : OMessage) (rest : List ℕ)
    → IsSendable m
    → (m.body_length == 0) ≡ true
    → receive_body (record m { body = [] }) rest ≡ ok (m, rest)
unfolding receive_body
receive_body-nothing m rest s z =
    let none_long : m.body_length ≡ 0 = (==_iff m.body_length 0).0 z in
    let one : (m.message_sequence_id == single) ≡ true =
      (==_iff m.message_sequence_id single).1 (s.alone none_long) in
    rw (z, one)
      (ap (λ t. ok (record m { body = t }, rest))
        (sym (body_of_zero m.body (omega (arith, s.same_length, (==_iff m.body_length 0).0 z)))))

receive_body-something :
    (m : OMessage) (rest : List ℕ)
    → IsSendable m
    → (m.body_length == 0) ≡ false
    → receive_body (record m { body = [] }) (m.body ++ rest) ≡ ok (m, rest)
unfolding receive_body get_receive_buffer
receive_body-something m rest s nz = rw (
  nz,
  lt→ltb m.body_length (2 ^ 31) s.small,
  async_read-append m.body_length m.body rest s.same_length,
)

-- A message that went out through `GetSendBuffer` is received with all its fields and its body,
-- and the bytes that follow it stay on the stream.
pub receive-sent_bytes :
    (m : OMessage) (rest : List ℕ) → IsSendable m → receive (sent_bytes m ++ rest) ≡ ok (m, rest)
unfolding get_send_buffer
receive-sent_bytes m rest s = elim (Bool-cases (m.body_length == 0)) [
  | inl z ↦ rw z (
      ap (λ t. receive (t ++ rest)) (append-nil (get_head m))
      ∙ receive-head m rest s
      ∙ receive_body-nothing m rest s z)
  | inr nz ↦ rw nz (
      ap (λ t. receive (t ++ rest))
        (ap (λ t. get_head m ++ t)
          (append-nil (take m.body_length m.body)
            ∙ take_all m.body_length m.body (omega (arith, s.same_length))))
      ∙ ap receive (append_assoc (get_head m) m.body rest)
      ∙ receive-head m (m.body ++ rest) s
      ∙ receive_body-something m rest s nz)
]

-- All messages on the stream, in rounds of `receive`.
unfoldable pub receive_all : ℕ → List ℕ → Outcome (List OMessage)
receive_all zero input = ok []
receive_all (suc n) input = do (m, rest) ← receive input; ms ← receive_all n rest; ok (m ∷ ms)

-- The messages of a stream are received in the order in which they were sent.
pub receive_all-sent_bytes :
    (ms : List OMessage)
    → All IsSendable ms
    → receive_all (length ms) (concat (map sent_bytes ms)) ≡ ok ms
unfolding receive_all
receive_all-sent_bytes [] h = refl
receive_all-sent_bytes (m ∷ ms) h =
    rw (receive-sent_bytes m (concat (map sent_bytes ms)) h.0, receive_all-sent_bytes ms h.1)
