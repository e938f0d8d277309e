-- ===== src/Serializer/Numbering.antt =====
-- `MakeMessageFromBuf` (common/OSerializer.cpp): the numbers that the messages of an object carry.
use oldpart.Base.{
  ℕ, ◌+◌, ◌-◌, ◌%◌, ◌^◌, ◌≤◌, ◌<◌, ◌≡◌, refl, ap, true, false, List, [], ◌∷◌, ◌++◌, map, concat,
  length, arith,
}
use oldpart.Proto.Write.{BufT}
use oldpart.Proto.Emitted.{payload, payloads}
use oldpart.Message.{OMessage, is_last}
use oldpart.Serializer.Send.{make_message, make_messages, make_message_from_buf}

-- The messages count up from `number`, the last has the negated number and is the only one that
-- `IsLast()` holds of; the sequence ids count up from `sequence` in 32 bits.
abbrev pub IsNumbered : ℕ → ℕ → List OMessage → Type 0
IsNumbered sequence number [] = ⊥
IsNumbered sequence number (m ∷ []) =
    (m.message_sequence_id ≡ 2 ^ 32 - number)
    × (m.sequence_id ≡ sequence % 2 ^ 32)
    × (is_last m ≡ true)
IsNumbered sequence number (m ∷ n ∷ ms) =
    (m.message_sequence_id ≡ number)
    × (m.sequence_id ≡ sequence % 2 ^ 32)
    × (is_last m ≡ false)
    × IsNumbered (sequence + 1) (number + 1) (n ∷ ms)

abbrev pub IsClosed : List BufT → Type 0
IsClosed [] = ⊥
IsClosed (p ∷ []) = p.is_last ≡ true
IsClosed (p ∷ q ∷ ps) = (p.is_last ≡ false) × IsClosed (q ∷ ps)

make_messages-IsNumbered :
    (message_id method level sequence number : ℕ) (ps : List BufT)
    → IsClosed ps
    → 1 ≤ number
    → number + length ps ≤ 2 ^ 31
    → IsNumbered sequence number (make_messages message_id method level sequence number ps)
unfolding make_messages make_message is_last
make_messages-IsNumbered message_id method level sequence number [] c h small = c
make_messages-IsNumbered message_id method level sequence number (p ∷ []) c h small =
    (ground arith, refl, ground arith)
make_messages-IsNumbered message_id method level sequence number (p ∷ q ∷ ps) c h small = (
  rw c.0 refl,
  refl,
  ground (arith, c.0),
  make_messages-IsNumbered message_id method level (sequence + 1) (number + 1) (q ∷ ps) c.1
      (omega arith) (omega arith),
)

bodies-make_messages :
    (message_id method level sequence number : ℕ) (ps : List BufT)
    → concat
        (map (λ (m : OMessage). m.body) (make_messages message_id method level sequence number ps))
      ≡ payloads ps
unfolding make_messages make_message
bodies-make_messages message_id method level sequence number [] = refl
bodies-make_messages message_id method level sequence number (p ∷ ps) =
    ap (λ t. payload p ++ t)
      (bodies-make_messages message_id method level (sequence + 1) (number + 1) ps)

-- The messages of one object are numbered 1, 2, … and the last by its negated number, which is
-- how a receiver knows it; their sequence ids follow the serializer's counter; and their bodies
-- together are the bytes of the buffers. The last buffer alone is marked, and there are fewer
-- than 2 ^ 31 of them.
pub make_message_from_buf-IsNumbered :
    (message_id method level sequence : ℕ) (ps : List BufT)
    → IsClosed ps
    → length ps < 2 ^ 31
    → IsNumbered sequence 1 (make_message_from_buf message_id method level sequence ps)
      × (concat (
            map
              (λ (m : OMessage). m.body)
              (make_message_from_buf message_id method level sequence ps))
          ≡ payloads ps)
unfolding make_message_from_buf
make_message_from_buf-IsNumbered message_id method level sequence ps c small = (
  make_messages-IsNumbered message_id method level sequence 1 ps c (omega arith) (omega arith),
  bodies-make_messages message_id method level sequence 1 ps,
)
