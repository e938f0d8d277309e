-- ===== src/Crypto/Laws.antt =====
-- `AESEncrypt` and `AESDecrypt` on buffers (common/crypto/DfcCrypto.cpp): padding, one after the
-- other, and the sizes of the arrays.
use oldpart.Base.{
  ℕ, ◌+◌, ◌-◌, ◌%◌, ◌^◌, ◌≤◌, ◌<◌, ◌≡◌, refl, sym, ap, ◌∙◌, true, List, length, take, drop, splice,
  arith, Outcome, ok, err, fault, ◌>>=◌, le→ltb, lt→ltb, le→leb, lt→leb, length-take, take-splice,
  length-splice, take-append_le, take-take,
}
use oldpart.Crypto.{
  Aes, HasKey, key_bytes, set_key-HasKey, Opened, padded, aes_encrypt, aes_decrypt, aes_block_size,
}

-- The padded length is the next multiple of the block size.
pub padded_bounds : (n : ℕ) → (n ≤ padded n) × (padded n < n + 16) × (padded n % 16 ≡ 0)
unfolding padded
padded_bounds n = ground arith

module _ (aes : Aes) (key : List ℕ) (accepted : HasKey aes key) where
  pub sealing :
      (out : List ℕ) (cap : ℕ) (plain : List ℕ) (plain_len pad : ℕ)
      → padded plain_len ≤ cap
      → padded plain_len ≤ length out
      → padded plain_len ≤ length plain
      → padded plain_len < 2 ^ 31
      → aes_encrypt aes out cap key plain plain_len pad
        ≡ ok (record {
          success = true;
          buf = splice out 0 (aes.cbc_encrypt (key_bytes key) (take (padded plain_len) plain));
          cipher_len = padded plain_len;
          pad_num = padded plain_len - plain_len;
        })
  unfolding aes_encrypt
  sealing out cap plain plain_len pad h1 h2 h3 int = rw (
    set_key-HasKey aes key accepted,
    lt→ltb (padded plain_len) (2 ^ 31) int,
    le→ltb cap (padded plain_len) h1,
    le→leb (padded plain_len) (length plain) h3,
    le→leb (padded plain_len) (length out) h2,
  )

  opening :
      (out : List ℕ) (cap : ℕ) (cipher : List ℕ) (len pad : ℕ)
      → len < 2 ^ 32
      → pad ≤ len
      → len - pad ≤ cap
      → len ≤ length cipher
      → len ≤ length out
      → aes_decrypt aes out cap key cipher len pad
        ≡ ok (record {
          success = true;
          buf = splice out 0 (aes.cbc_decrypt (key_bytes key) (take len cipher));
          decrypt_len = len - pad;
        })
  unfolding aes_decrypt
  opening out cap cipher len pad word h0 h1 h2 h3 =
      let exact : (len + 2 ^ 32 - pad) % 2 ^ 32 ≡ len - pad = omega arith in
      rw (
        set_key-HasKey aes key accepted,
        exact,
        le→ltb cap (len - pad) h1,
        le→leb len (length cipher) h2,
        le→leb len (length out) h3,
      )

  -- What the cipher gives back of the whole blocks that stand in front of `out`.
  blocks_back :
      (out plain : List ℕ) (len : ℕ)
      → len % 16 ≡ 0
      → len ≤ length plain
      → len ≤ length out
      → aes.cbc_decrypt
          (key_bytes key)
          (take len (splice out 0 (aes.cbc_encrypt (key_bytes key) (take len plain))))
        ≡ take len plain
  blocks_back out plain len blocks h1 h2 =
      let whole : length (take len plain) ≡ len = omega (arith, length-take len plain) in
      let c = aes.cbc_encrypt (key_bytes key) (take len plain) in
      let full : length (take len plain) % aes_block_size ≡ 0 = ap (λ n. n % 16) whole ∙ blocks in
      let len_c : length c ≡ len =
        aes.length_encrypt (key_bytes key) (take len plain) full ∙ whole in
      ap (aes.cbc_decrypt (key_bytes key)) (
        ap (λ n. take n (splice out 0 c)) (sym len_c ∙ omega arith)
        ∙ take-splice out 0 c (omega arith))
      ∙ aes.decrypt_encrypt (key_bytes key) (take len plain) full

  pub record IsRestored (plain : List ℕ) (plain_len : ℕ) (r : Outcome Opened) : Type 0 where
    pub out : Opened
    pub returns : r ≡ ok out
    pub success : out.success ≡ true
    pub decrypt_len : out.decrypt_len ≡ plain_len
    pub bytes : take out.decrypt_len out.buf ≡ take plain_len plain

  -- What is encrypted decrypts to the same bytes. With a key of 15 bytes or more that is
  -- accepted, and with room for whole blocks in both outputs and in the plaintext's array, which
  -- together are shorter than 2 ^ 31, `AESEncrypt` and then `AESDecrypt` on the
  -- first `cipherLen` bytes of its output, that length and its pad number succeed, return the plain length, and leave the first
  -- `plain_len` bytes of the plaintext in front of the output.
  pub aes_decrypt-aes_encrypt :
      (out out2 : List ℕ) (cap cap2 : ℕ) (plain : List ℕ) (plain_len pad : ℕ)
      → padded plain_len ≤ cap
      → padded plain_len ≤ length out
      → padded plain_len ≤ length plain
      → plain_len ≤ cap2
      → padded plain_len ≤ length out2
      → padded plain_len < 2 ^ 31
      → IsRestored plain plain_len (
          aes_encrypt aes out cap key plain plain_len pad >>= λ s.
          aes_decrypt aes out2 cap2 key (take s.cipher_len s.buf) s.cipher_len s.pad_num)
  aes_decrypt-aes_encrypt out out2 cap cap2 plain plain_len pad h1 h2 h3 h4 h5 word =
      let n = padded plain_len in
      let bounds = padded_bounds plain_len in
      let sealed = splice out 0 (aes.cbc_encrypt (key_bytes key) (take n plain)) in
      let long : length (take n plain) ≡ n = omega (arith, length-take n plain) in
      let len_c : length (aes.cbc_encrypt (key_bytes key) (take n plain)) ≡ n =
        aes.length_encrypt (key_bytes key) (take n plain) (ap (λ k. k % 16) long ∙ bounds.2)
        ∙ long in
      let len_s : length sealed ≡ length out =
        length-splice out 0 (aes.cbc_encrypt (key_bytes key) (take n plain)) (omega arith) in
      let back = blocks_back out plain n bounds.2 h3 h2 in
      record {
        out = record {
          success = true;
          buf = splice out2 0 (aes.cbc_decrypt (key_bytes key) (take n (take n sealed)));
          decrypt_len = n - (n - plain_len);
        };
        returns =
            ap
              (λ r. r >>= λ s.
                aes_decrypt aes out2 cap2 key (take s.cipher_len s.buf) s.cipher_len s.pad_num)
              (sealing out cap plain plain_len pad h1 h2 h3 word)
            ∙ opening out2 cap2 (take n sealed) n (n - plain_len) (omega arith) (omega arith)
                (omega arith) (omega (arith, length-take n sealed)) h5;
        success = refl;
        decrypt_len = omega arith;
        bytes =
            let less : n - (n - plain_len) ≡ plain_len = omega arith in
            ap
              (λ k.
                take k (splice out2 0 (aes.cbc_decrypt (key_bytes key) (take n (take n sealed)))))
              less
            ∙ ap (λ d. take plain_len (splice out2 0 d))
                (ap (aes.cbc_decrypt (key_bytes key)) (take-take n n sealed (omega arith)) ∙ back)
            ∙ take-append_le plain_len (take n plain) (drop (0 + length (take n plain)) out2)
                (omega arith)
            ∙ take-take plain_len n plain bounds.0;
      }

  -- `AESDecrypt` compares the room it is given with the length less the padding, and writes the
  -- whole length: with a pad number that just makes the length fit, it writes past its output.
  pub aes_decrypt_overrun :
      (out : List ℕ) (cipher : List ℕ) (len pad : ℕ)
      → len < 2 ^ 32
      → pad ≤ len
      → len ≤ length cipher
      → len - pad ≤ length out
      → length out < len
      → aes_decrypt aes out (length out) key cipher len pad ≡ err fault
  unfolding aes_decrypt
  aes_decrypt_overrun out cipher len pad word h0 h1 h2 over =
      let exact : (len + 2 ^ 32 - pad) % 2 ^ 32 ≡ len - pad = omega arith in
      rw (
        set_key-HasKey aes key accepted,
        exact,
        le→ltb (length out) (len - pad) h2,
        le→leb len (length cipher) h1,
        lt→leb len (length out) over,
      )
