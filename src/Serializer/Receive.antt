-- ===== src/Serializer/Receive.antt =====
-- `OSerializer::Deserialize`: the messages of an object, one by one, into the reading coroutine.
use oldpart.Base.{
  ℕ, ◌+◌, ◌-◌, ◌^◌, Bool, true, false, Option, none, some, List, [], ◌∷◌, ◌++◌, take, ltb, ◌==◌,
  if◌then◌else◌, Outcome, ok, err, starved, ◌>>=◌,
}
use oldpart.Proto.Types.{Fields, Vals}
use oldpart.Proto.Write.{make_buffer}
use oldpart.Proto.Read.{run_coroutine}
use oldpart.Message.{OMessage, is_encrypted, is_compressed}
use oldpart.Crypto.{Aes, aes_decrypt}
use oldpart.Serializer.Send.{compute_checksum}
use oldpart.Serializer.Uncompress.{Inflate, UnCompress, idle, reset, uncompress_all}

-- an `int8_t` as an `int32_t`, both as patterns
abbrev pub sign_extend8 : ℕ → ℕ
sign_extend8 p = if ltb p 128 then p else p + 2 ^ 32 - 256

module _ (aes : Aes) (crc : List ℕ → ℕ) (z : Inflate) where
  -- `none` is the `return false` on a wrong checksum. What `AESDecrypt` returns is not looked at:
  -- where it refuses, the buffer is as it was made.
  unfoldable pub decrypt_body : ℕ → List ℕ → OMessage → Outcome (Option (List ℕ))
  decrypt_body max key m =
      let made = make_buffer max in
      let opened = do
        o ←
            aes_decrypt aes made.buf made.buf_len key m.body m.body_length
              (sign_extend8 m.encrypt_pad_num)
        let plain = take o.decrypt_len o.buf
        ok (if compute_checksum aes crc plain == m.checksum then some plain else none)
      in if is_encrypted m then opened else ok (some (take m.body_length m.body))

  -- what the body hands to the coroutine
  unfoldable pub feed_body :
      ℕ → ℕ → UnCompress z → OMessage → List ℕ → Outcome (List (List ℕ) × UnCompress z)
  feed_body fuel max u m plain =
      let inflated = do v ← reset z u plain; uncompress_all z fuel max v
      in if is_compressed m then inflated else ok (plain ∷ [], u)

  -- The `do … while(pull)` loop: whether it ran to the end, and the chunks that it fed.
  unfoldable pub feed :
      ℕ → ℕ → List ℕ → UnCompress z → List OMessage → Outcome (Bool × List (List ℕ))
  feed fuel max key u [] = ok (true, [])
  feed fuel max key u (m ∷ ms) = decrypt_body max key m >>= λ d. elim d [
    | none ↦ ok (false, [])
    | some plain ↦
        feed_body fuel max u m plain >>= λ f. feed fuel max key f.1 ms >>= λ r. ok (r.0, f.0 ++ r.1)
  ]

  -- `Deserialize`: its result, and the object that the coroutine has read if it got that far.
  unfoldable pub deserialize :
      ℕ → ℕ → List ℕ → (fs : Fields) → List OMessage → Outcome (Bool × Outcome (Vals fs))
  deserialize fuel max key fs [] = err starved
  deserialize fuel max key fs (m ∷ ms) =
      feed fuel max key (idle z) (m ∷ ms) >>= λ r. run_coroutine fs r.1 >>= λ o. ok (r.0, o)
