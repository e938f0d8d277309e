-- ===== src/Serializer/Sealed.antt =====
-- `EncryptBuf` (common/OSerializer.cpp), and the messages that its buffers become, when they are
-- decrypted.
use oldpart.Base.{
  ℕ, suc, ◌+◌, ◌-◌, ◌%◌, ◌^◌, ◌≤◌, ◌<◌, ◌≡◌, ◌≢◌, refl, sym, ap, ◌∙◌, Bool, false, not, some, List,
  [], ◌∷◌, ◌++◌, length, take, arith, ok, ◌>>=◌, length-replicate, length-splice, length-take,
  replicate, ==_refl, splice, ◌==◌,
}
use Prim.Native.Nat.{bit_and}
use oldpart.Proto.Types.{All}
use oldpart.Proto.Write.{BufT, make_buffer}
use oldpart.Proto.Emitted.{payload, IsWhole, IsWide}
use oldpart.Message.{OMessage, is_encrypted, is_compressed, method_encrypt, method_compress}
use oldpart.Crypto.{HasKey, key_bytes, Aes, padded, aes_decrypt}
use oldpart.Crypto.Laws.{padded_bounds, aes_decrypt-aes_encrypt, sealing}
use oldpart.Serializer.Send.{
  make_message, make_messages, compute_checksum, encrypt_one, encrypt_buf,
}
use oldpart.Serializer.Uncompress.{Inflate}
use oldpart.Serializer.Receive.{decrypt_body, sign_extend8}

-- A whole buffer, with numbers that fit their fields in the head of a message.
abbrev pub IsStamped : ℕ → BufT → Type 0
IsStamped max p = IsWhole max p × (p.pad_num < 256) × (p.checksum < 2 ^ 32)

-- A buffer that carries a byte.
abbrev pub IsFilled : BufT → Type 0
IsFilled p = 0 < p.buf.buf_len

-- Whole blocks of `n` bytes fit a buffer whose size is a multiple of the block size.
padded-le : (n max : ℕ) → n ≤ max → max % 16 ≡ 0 → padded n ≤ max
unfolding padded
padded-le n max h b = ground arith

module _ (aes : Aes) (crc : List ℕ → ℕ) (z : Inflate) (key : List ℕ) (accepted : HasKey aes key)
    (max : ℕ) (blocks : max % 16 ≡ 0) (small : max < 2 ^ 31) where
  -- A whole buffer is encrypted, and its message is decrypted to what the buffer carries.
  record IsSealed (p : BufT) : Type 0 where
    sealed : BufT
    returns : encrypt_one aes crc max key p ≡ ok sealed
    opens :
        (message_id method level sequence number : ℕ)
        → (bit_and method method_encrypt == 0) ≡ false
        → decrypt_body aes crc z max key
            (make_message message_id method level sequence number sealed)
          ≡ ok (some (payload p))
    whole : IsStamped max sealed
    filled : 0 < p.buf.buf_len → 0 < sealed.buf.buf_len

  encrypt_one-IsSealed : (p : BufT) → IsWhole max p → IsSealed p
  unfolding encrypt_one decrypt_body make_message is_encrypted make_buffer compute_checksum
  encrypt_one-IsSealed p whole =
      let n = p.buf.buf_len in
      let made : List ℕ = replicate max 0 in
      let fits : padded n ≤ max = padded-le n max whole.1 blocks in
      let room : length made ≡ max = length-replicate {A = ℕ} max 0 in
      let b = padded_bounds n in
      let plain = take (padded n) p.buf.buf in
      let long : length plain ≡ padded n =
        omega (arith, length-take (padded n) p.buf.buf, whole.0) in
      let long_c : length (aes.cbc_encrypt (key_bytes key) plain) ≡ padded n =
        aes.length_encrypt (key_bytes key) plain (ap (λ k. k % 16) long ∙ b.2) ∙ long in
      let cipher = splice made 0 (aes.cbc_encrypt (key_bytes key) plain) in
      let s =
        sealing aes key accepted made max p.buf.buf n 0 fits (omega arith) (omega (arith, whole.0))
          (omega arith) in
      let r =
        aes_decrypt-aes_encrypt aes key accepted made made max max p.buf.buf n 0 fits (omega arith)
          (omega (arith, whole.0)) whole.1 (omega arith) (omega arith) in
      let opened : aes_decrypt aes made max key (take (padded n) cipher) (padded n) (padded n - n)
          ≡ ok r.out =
        sym (
          ap
            (λ q. q >>= λ t.
              aes_decrypt aes made max key (take t.cipher_len t.buf) t.cipher_len t.pad_num)
            s)
        ∙ r.returns in
      let pad : sign_extend8 (padded n - n) ≡ padded n - n = ground arith in
      record {
        sealed = record {
          buf = record { buf = cipher; buf_len = padded n };
          pad_num = padded n - n;
          checksum = compute_checksum aes crc (take n p.buf.buf);
          is_last = p.is_last;
        };
        returns = rw s;
        opens = λ message_id method level sequence number e.
            rw (e, pad, opened, r.bytes, ==_refl (compute_checksum aes crc (take n p.buf.buf)));
        whole = (
          (length-splice made 0 (aes.cbc_encrypt (key_bytes key) plain) (omega arith) ∙ room, fits),
          omega arith,
          omega arith,
        );
        filled = λ h. omega (arith, b.0);
      }

  -- Each message is decrypted to what the buffer in its place carries.
  abbrev pub Opens : List BufT → List OMessage → Type 0
  Opens [] [] = Unit
  Opens [] (m ∷ ms) = ⊥
  Opens (p ∷ ps) [] = ⊥
  Opens (p ∷ ps) (m ∷ ms) = (decrypt_body aes crc z max key m ≡ ok (some (payload p))) × Opens ps ms

  -- All the buffers of an object are encrypted, to whole ones, and their messages are opened.
  pub record AreSealed (ps : List BufT) : Type 0 where
    pub sealed : List BufT
    pub returns : encrypt_buf aes crc max key ps ≡ ok sealed
    pub opens :
        (message_id method level sequence number : ℕ)
        → (bit_and method method_encrypt == 0) ≡ false
        → Opens ps (make_messages message_id method level sequence number sealed)
    pub whole : All (IsStamped max) sealed
    pub same_length : length sealed ≡ length ps
    pub filled : All IsFilled ps → All IsFilled sealed

  pub encrypt_buf-AreSealed : (ps : List BufT) → All (IsWhole max) ps → AreSealed ps
  unfolding encrypt_buf make_messages
  encrypt_buf-AreSealed [] h = record {
    sealed = [];
    returns = refl;
    opens = λ message_id method level sequence number e. tt;
    whole = tt;
    same_length = refl;
    filled = λ h. tt;
  }
  encrypt_buf-AreSealed (p ∷ ps) h =
      let s = encrypt_one-IsSealed p h.0 in
      let t = encrypt_buf-AreSealed ps h.1 in
      record {
        sealed = s.sealed ∷ t.sealed;
        returns = rw (s.returns, t.returns);
        opens = λ message_id method level sequence number e. (
          s.opens message_id method level sequence number e,
          t.opens message_id method level (sequence + 1) (number + 1) e,
        );
        whole = (s.whole, t.whole);
        same_length = ap suc t.same_length;
        filled = λ h. (s.filled h.0, t.filled h.1);
      }

-- The messages of one object are all compressed, or none of them is.
pub make_messages-is_compressed :
    (message_id method level sequence number : ℕ) (b : Bool) (ps : List BufT)
    → not (bit_and method method_compress == 0) ≡ b
    → All
        (λ (m : OMessage). is_compressed m ≡ b)
        (make_messages message_id method level sequence number ps)
unfolding make_messages make_message is_compressed
make_messages-is_compressed message_id method level sequence number b [] e = tt
make_messages-is_compressed message_id method level sequence number b (p ∷ ps) e =
    (e, make_messages-is_compressed message_id method level (sequence + 1) (number + 1) b ps e)

pub All-IsWhole :
    (w max : ℕ) (front : List BufT) (last : BufT)
    → All (IsWide w max) front
    → IsWhole max last
    → All (IsWhole max) (front ++ (last ∷ []))
All-IsWhole w max [] last h l = (l, tt)
All-IsWhole w max (p ∷ front) last h l = (h.0.2, All-IsWhole w max front last h.1 l)

pub sealed-ne-nil :
    (message_id method level sequence : ℕ) (front qs : List BufT) (last : BufT)
    → length qs ≡ length (front ++ (last ∷ []))
    → make_messages message_id method level sequence 1 qs ≢ []
unfolding make_messages
sealed-ne-nil message_id method level sequence [] [] last h e = omega arith
sealed-ne-nil message_id method level sequence (p ∷ front) [] last h e = omega arith
sealed-ne-nil message_id method level sequence front (q ∷ qs) last h e = cc
