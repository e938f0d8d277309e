-- ===== src/Crypto/Strings.antt =====
-- `AESEncrypt` and `AESDecrypt` on strings (common/crypto/DfcCrypto.cpp).
use oldpart.Base.{
  ℕ, ◌+◌, ◌-◌, ◌%◌, ◌^◌, ◌≤◌, ◌<◌, ◌≡◌, ◌⊎◌, refl, ap, ◌∙◌, Bool, true, false, List, [], ◌∷◌, ◌++◌,
  length, length-append, take, take_all, replicate, append-nil, arith, Outcome, ok, err, fault,
  assert, ◌>>=◌, ◌>>◌, leb, le→leb, lt→leb, length-take, take-append_le, take-take, if◌then◌else◌,
}
use oldpart.Crypto.{Aes, HasKey, key_bytes, set_key, set_key-HasKey, padded}
use oldpart.Crypto.Laws.{padded_bounds}

-- `resize` of a string
unfoldable pub resize : ℕ → List ℕ → List ℕ
resize n text = take n text ++ replicate (n - length text) 0

padded_room : (n : ℕ) → (n % 16 ≡ 0) ⊎ (n % 16 ≡ 15) → padded n ≤ n + 1
unfolding padded
padded_room n full = ground arith

module _ (aes : Aes) where
  -- The result, `ciphertext` and `padNum`. `c_str()` gives the text and a 0 behind it; what the
  -- cipher reads behind that is a fault.
  unfoldable pub aes_encrypt_string : List ℕ → List ℕ → List ℕ → ℕ → Outcome (Bool × List ℕ × ℕ)
  aes_encrypt_string ciphertext key plaintext pad_num =
      let len = padded (length plaintext) % 2 ^ 32 in
      let pad = (len + 2 ^ 64 - length plaintext) % 2 ^ 32 in
      let encrypt : Outcome (Bool × List ℕ × ℕ) =
        assert (leb len (length plaintext + 1))
        >> ok (true, aes.cbc_encrypt (key_bytes key) (take len (plaintext ++ (0 ∷ []))), pad) in
      set_key aes key >>= λ accepted. if accepted then encrypt else ok (false, ciphertext, pad_num)

  -- The result and `decrypttext`; the cipher writes as many bytes as it reads.
  unfoldable pub aes_decrypt_string : List ℕ → List ℕ → List ℕ → ℕ → Outcome (Bool × List ℕ)
  aes_decrypt_string decrypttext key ciphertext pad_num =
      let len = length ciphertext % 2 ^ 32 in
      set_key aes key >>= λ accepted.
      if accepted
      then ok (
        true,
        resize ((len + 2 ^ 32 - pad_num) % 2 ^ 32)
            (aes.cbc_decrypt (key_bytes key) (take len ciphertext)),
      )
      else ok (false, decrypttext)

  encrypting :
      (key plain c : List ℕ) (pad : ℕ)
      → HasKey aes key
      → padded (length plain) ≤ length plain + 1
      → padded (length plain) < 2 ^ 32
      → aes_encrypt_string c key plain pad
        ≡ ok (
          true,
          aes.cbc_encrypt (key_bytes key) (take (padded (length plain)) (plain ++ (0 ∷ []))),
          padded (length plain) - length plain,
        )
  unfolding aes_encrypt_string
  encrypting key plain c pad accepted room small =
      let n = length plain in
      let long : padded n % 2 ^ 32 ≡ padded n = omega arith in
      let rest : (padded n + 2 ^ 64 - n) % 2 ^ 32 ≡ padded n - n = omega (arith, padded_bounds n) in
      rw (set_key-HasKey aes key accepted, long, le→leb (padded n) (n + 1) room, rest) refl

  resize_shorter : (n : ℕ) (text : List ℕ) → n ≤ length text → resize n text ≡ take n text
  unfolding resize
  resize_shorter n text h =
      let none_more : n - length text ≡ 0 = omega arith in rw none_more (append-nil (take n text))

  decrypting :
      (key blocks t : List ℕ) (n pad : ℕ)
      → HasKey aes key
      → length blocks % 16 ≡ 0
      → length blocks < 2 ^ 32
      → n + pad ≡ length blocks
      → aes_decrypt_string t key (aes.cbc_encrypt (key_bytes key) blocks) pad
        ≡ ok (true, take n blocks)
  unfolding aes_decrypt_string
  decrypting key blocks t n pad accepted whole small sum =
      let long : length (aes.cbc_encrypt (key_bytes key) blocks) ≡ length blocks =
        aes.length_encrypt (key_bytes key) blocks whole in
      let word : length blocks % 2 ^ 32 ≡ length blocks = omega arith in
      let rest : (length blocks + 2 ^ 32 - pad) % 2 ^ 32 ≡ n = omega arith in
      rw
        (
          set_key-HasKey aes key accepted,
          long,
          word,
          rest,
          take_all (length blocks) (aes.cbc_encrypt (key_bytes key) blocks) (omega arith),
          aes.decrypt_encrypt (key_bytes key) blocks whole,
        )
        (ap (λ k. ok (true, k)) (resize_shorter n blocks (omega arith)))

  -- A text that fills its blocks, or all but one byte of them, is encrypted and decrypted to
  -- itself under a key of 15 bytes or more that is accepted. It is shorter than 2 ^ 32 - 16.
  pub aes_decrypt_string-aes_encrypt_string :
      (key plain c t : List ℕ) (pad : ℕ)
      → HasKey aes key
      → length plain < 2 ^ 32 - 16
      → (length plain % 16 ≡ 0) ⊎ (length plain % 16 ≡ 15)
      → (aes_encrypt_string c key plain pad >>= λ (done, cipher, n).
          aes_decrypt_string t key cipher n)
        ≡ ok (true, plain)
  aes_decrypt_string-aes_encrypt_string key plain c t pad accepted small full =
      let n = length plain in
      let bounds = padded_bounds n in
      let room : padded n ≤ n + 1 = padded_room n full in
      let blocks = take (padded n) (plain ++ (0 ∷ [])) in
      let long : length blocks ≡ padded n =
        omega (arith, length-take (padded n) (plain ++ (0 ∷ [])), length-append plain (0 ∷ [])) in
      let same : take n blocks ≡ plain =
        take-take n (padded n) (plain ++ (0 ∷ [])) bounds.0
        ∙ take-append_le n plain (0 ∷ []) (omega arith)
        ∙ take_all n plain (omega arith) in
      rw (encrypting key plain c pad accepted room (omega arith)) (
        decrypting key blocks t n (padded n - n) accepted (ap (λ k. k % 16) long ∙ bounds.2)
          (omega arith) (omega arith)
        ∙ ap (λ k. ok (true, k)) same)

  -- A text that does not fill its last block by two bytes or more, encrypted under a key of 15 bytes
  -- or more that is accepted, makes the cipher read behind the text's array: undefined behaviour. The
  -- text is shorter than 2 ^ 32 - 16.
  pub aes_encrypt_string_overread :
      (key plain c : List ℕ) (pad : ℕ)
      → HasKey aes key
      → length plain < 2 ^ 32 - 16
      → 0 < length plain % 16
      → length plain % 16 < 15
      → aes_encrypt_string c key plain pad ≡ err fault
  unfolding aes_encrypt_string padded
  aes_encrypt_string_overread key plain c pad accepted small some_more not_one =
      let n = length plain in
      let long : padded n % 2 ^ 32 ≡ padded n = omega (arith, padded_bounds n) in
      let over : n + 1 < padded n = ground arith in
      rw (set_key-HasKey aes key accepted, long, lt→leb (padded n) (n + 1) over) refl
