-- ===== src/Crypto.antt =====
-- The AES helpers of common/crypto/DfcCrypto.cpp. OpenSSL is a parameter.
pub mod Laws
pub mod Strings
pub mod Keys
use oldpart.Base.{
  [], ◌∷◌, ◌++◌, refl, le→leb, arith, ℕ, ◌+◌, ◌-◌, ◌*◌, ◌/◌, ◌%◌, ◌^◌, ◌≤◌, ◌<◌, ◌≡◌, Bool, true,
  false, Option, none, some, List, length, take, drop, splice, ltb, leb, ◌==◌, if◌then◌else◌,
  Outcome, ok, err, fault, ◌>>=◌, ◌>>◌, assert,
}

abbrev pub aes_block_size : ℕ
aes_block_size = 16

-- What is used of OpenSSL: whether a key of 16 bytes is accepted, and CBC over whole blocks from a zero
-- initialisation vector, both ways. Documented: the output is as long as the input, and
-- decryption under the same key undoes encryption.
pub record Aes : Type 0 where
  pub accepts : List ℕ → Bool
  pub cbc_encrypt : List ℕ → List ℕ → List ℕ
  pub cbc_decrypt : List ℕ → List ℕ → List ℕ
  pub length_encrypt :
      (key plain : List ℕ)
      → length plain % aes_block_size ≡ 0
      → length (cbc_encrypt key plain) ≡ length plain
  pub decrypt_encrypt :
      (key plain : List ℕ)
      → length plain % aes_block_size ≡ 0
      → cbc_decrypt key (cbc_encrypt key plain) ≡ plain

-- What `AESEncrypt` and `AESDecrypt` on buffers leave behind: the result, the buffer, and the
-- output parameters.
pub record Sealed : Type 0 where
  pub success : Bool
  pub buf : List ℕ
  pub cipher_len : ℕ
  pub pad_num : ℕ

pub record Opened : Type 0 where
  pub success : Bool
  pub buf : List ℕ
  pub decrypt_len : ℕ

-- `len`, the plain length rounded up to whole blocks
unfoldable pub padded : ℕ → ℕ
padded n = if n % aes_block_size == 0 then n else (n / aes_block_size + 1) * aes_block_size

-- `AES_set_encrypt_key` and `AES_set_decrypt_key` read 16 bytes from `key.c_str()`, the key and the
-- 0 behind it; a key that is too short for that is a fault.
abbrev pub key_bytes : List ℕ → List ℕ
key_bytes key = take 16 (key ++ (0 ∷ []))

unfoldable pub set_key : Aes → List ℕ → Outcome Bool
set_key aes key = assert (leb 16 (length key + 1)) >> ok (aes.accepts (key_bytes key))

-- A key that is long enough and accepted.
abbrev pub HasKey : Aes → List ℕ → Type 0
HasKey aes key = (15 ≤ length key) × (aes.accepts (key_bytes key) ≡ true)

pub set_key-HasKey : (aes : Aes) (key : List ℕ) → HasKey aes key → set_key aes key ≡ ok true
unfolding set_key
set_key-HasKey aes key h = rw (le→leb 16 (length key + 1) (omega (arith, h.0)), h.1) refl

module _ (aes : Aes) where
  -- `AESEncrypt(char*, int&, …)`. The cipher reads `len` bytes of the plaintext's array and
  -- writes as many into the ciphertext's; an array that is too short is a fault.
  -- The lengths are `int`s that are not negative: one that overflows when it is rounded up is a
  -- fault.
  unfoldable pub aes_encrypt : List ℕ → ℕ → List ℕ → List ℕ → ℕ → ℕ → Outcome Sealed
  aes_encrypt out cipher_len key plain plain_len pad_num =
      let len = padded plain_len in
      let pad = len - plain_len in
      let encrypt = do
        assert (leb len (length plain))
        assert (leb len (length out))
        ok (record {
          success = true;
          buf = splice out 0 (aes.cbc_encrypt (key_bytes key) (take len plain));
          cipher_len = len;
          pad_num = pad;
        })
      in set_key aes key >>= λ accepted.
      if accepted
      then assert (ltb len (2 ^ 31))
        >> (if ltb cipher_len len
            then ok (record { success = false; buf = out; cipher_len = cipher_len; pad_num = pad })
            else encrypt)
      else ok (record { success = false; buf = out; cipher_len = cipher_len; pad_num = pad_num })

  -- `AESDecrypt(char*, int&, …)`, on a cipher text of `cipher_len` bytes. `len - padNum` is
  -- unsigned; the pad number is a pattern of 32 bits.
  unfoldable pub aes_decrypt : List ℕ → ℕ → List ℕ → List ℕ → ℕ → ℕ → Outcome Opened
  aes_decrypt out decrypt_len key cipher cipher_len pad_num =
      let plain_len = (cipher_len + 2 ^ 32 - pad_num) % 2 ^ 32 in
      let decrypt = do
        assert (leb cipher_len (length cipher))
        assert (leb cipher_len (length out))
        ok (record {
          success = true;
          buf = splice out 0 (aes.cbc_decrypt (key_bytes key) (take cipher_len cipher));
          decrypt_len = plain_len;
        })
      in set_key aes key >>= λ accepted.
      if accepted
      then (if ltb decrypt_len plain_len
          then ok (record { success = false; buf = out; decrypt_len = decrypt_len })
          else decrypt)
      else ok (record { success = false; buf = out; decrypt_len = decrypt_len })
