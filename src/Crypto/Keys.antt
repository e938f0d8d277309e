-- ===== src/Crypto/Keys.antt =====
-- RSA and Blowfish in common/crypto/DfcCrypto.cpp. OpenSSL and the files are parameters.
use oldpart.Base.{
  ℕ, zero, suc, ◌+◌, ◌-◌, ◌%◌, ◌≤◌, ◌<◌, ◌≡◌, ◌≢◌, refl, ap, ◌∙◌, Bool, true, false, not, ◌||◌,
  Option, none, some, List, [], ◌∷◌, ◌++◌, length, drop, replicate, splice, leb, ◌==◌, ==_ne,
  le→leb, lt→leb, if◌then◌else◌, Outcome, ok, err, fault, ◌>>=◌, ◌>>◌, assert, arith,
}
use oldpart.Proto.Types.{All}

-- What is used of OpenSSL's RSA: the keys that a text in PEM has, and encryption and decryption
-- with PKCS 1 padding, none where a negative number is returned.
pub record Rsa : Type 1 where
  pub PublicKey : Type 0
  pub PrivateKey : Type 0
  pub read_public : List ℕ → Option PublicKey
  pub read_private : List ℕ → Option PrivateKey
  pub public_encrypt : PublicKey → List ℕ → Option (List ℕ)
  pub private_decrypt : PrivateKey → List ℕ → Option (List ℕ)

-- The result, and the string that is written where there is something to write.
abbrev pub store : List ℕ → Option (List ℕ) → Bool × List ℕ
store before none = (true, before)
store before (some text) = (true, text)

abbrev pub is_empty : List ℕ → Bool
is_empty [] = true
is_empty (c ∷ cs) = false

module _ (rsa : Rsa) where
  -- `RSAEncryptWithStr`, on what the string for the cipher text holds before it
  unfoldable pub rsa_encrypt_with_str : List ℕ → List ℕ → List ℕ → Bool × List ℕ
  rsa_encrypt_with_str before key plaintext = elim (rsa.read_public key) [
    | none ↦ (false, before)
    | some k ↦ store before (rsa.public_encrypt k plaintext)
  ]

  -- `RSADecryptWithStr`
  unfoldable pub rsa_decrypt_with_str : List ℕ → List ℕ → List ℕ → Bool × List ℕ
  rsa_decrypt_with_str before key ciphertext = elim (rsa.read_private key) [
    | none ↦ (false, before)
    | some k ↦ store before (rsa.private_decrypt k ciphertext)
  ]

  -- `RSAEncrypt` and `RSADecrypt`; `files` gives the bytes of a file, none of a file that is missing.
  module _ (files : List ℕ → List ℕ) where
    unfoldable pub rsa_encrypt : List ℕ → List ℕ → List ℕ → Bool × List ℕ
    unfolding rsa_encrypt_with_str
    rsa_encrypt before url plaintext =
        if is_empty url || is_empty plaintext
        then (false, before)
        else rsa_encrypt_with_str before (files url) plaintext

    unfoldable pub rsa_decrypt : List ℕ → List ℕ → List ℕ → Bool × List ℕ
    unfolding rsa_decrypt_with_str
    rsa_decrypt before url ciphertext =
        if is_empty url || is_empty ciphertext
        then (false, before)
        else rsa_decrypt_with_str before (files url) ciphertext

    encrypted :
        (before url text : List ℕ) (k : rsa.PublicKey)
        → 0 < length url
        → 0 < length text
        → rsa.read_public (files url) ≡ some k
        → rsa_encrypt before url text ≡ store before (rsa.public_encrypt k text)
    unfolding rsa_encrypt rsa_encrypt_with_str
    encrypted before [] text k a b e = absurd (omega arith)
    encrypted before (x ∷ xs) [] k a b e = absurd (omega arith)
    encrypted before (x ∷ xs) (t ∷ ts) k a b e = rw (rsa_encrypt_with_str, e) refl

    decrypted :
        (before url text : List ℕ) (p : rsa.PrivateKey)
        → 0 < length url
        → 0 < length text
        → rsa.read_private (files url) ≡ some p
        → rsa_decrypt before url text ≡ store before (rsa.private_decrypt p text)
    unfolding rsa_decrypt rsa_decrypt_with_str
    decrypted before [] text p a b e = absurd (omega arith)
    decrypted before (x ∷ xs) [] p a b e = absurd (omega arith)
    decrypted before (x ∷ xs) (t ∷ ts) p a b e = rw (rsa_decrypt_with_str, e) refl

    -- Under the two keys of a pair a text goes through RSA unchanged: both calls return true. The
    -- names of the files are not empty, they hold the keys, and OpenSSL encrypts the text to one
    -- that is not empty, which it decrypts to the text.
    pub rsa_decrypt-rsa_encrypt :
        (before before2 public private plaintext ciphertext : List ℕ) (k : rsa.PublicKey)
        (p : rsa.PrivateKey)
        → 0 < length public
        → 0 < length private
        → 0 < length plaintext
        → 0 < length ciphertext
        → rsa.read_public (files public) ≡ some k
        → rsa.read_private (files private) ≡ some p
        → rsa.public_encrypt k plaintext ≡ some ciphertext
        → rsa.private_decrypt p ciphertext ≡ some plaintext
        → (rsa_encrypt before public plaintext ≡ (true, ciphertext))
          × (rsa_decrypt before2 private (rsa_encrypt before public plaintext).1
              ≡ (true, plaintext))
    rsa_decrypt-rsa_encrypt before before2 public private plaintext ciphertext k p a b c d e f g h =
        let sent : rsa_encrypt before public plaintext ≡ (true, ciphertext) =
          encrypted before public plaintext k a c e ∙ ap (store before) g in
        (
          sent,
          ap (λ r. rsa_decrypt before2 private r.1) sent
              ∙ decrypted before2 private ciphertext p b d f
              ∙ ap (store before2) h,
        )

    -- Where OpenSSL does not encrypt a text, as one that is too long for the key, `RSAEncrypt` returns
    -- true all the same, and the string for the cipher text is as it was; where it does not decrypt
    -- one, `RSADecrypt` does likewise. The names of the files and the texts are not empty, and the
    -- files hold keys.
    pub rsa_failed :
        (before public private plaintext ciphertext : List ℕ) (k : rsa.PublicKey)
        (p : rsa.PrivateKey)
        → 0 < length public
        → 0 < length private
        → 0 < length plaintext
        → 0 < length ciphertext
        → rsa.read_public (files public) ≡ some k
        → rsa.read_private (files private) ≡ some p
        → rsa.public_encrypt k plaintext ≡ none
        → rsa.private_decrypt p ciphertext ≡ none
        → (rsa_encrypt before public plaintext ≡ (true, before))
          × (rsa_decrypt before private ciphertext ≡ (true, before))
    rsa_failed before public private plaintext ciphertext k p a b c d e f g h = (
      encrypted before public plaintext k a c e ∙ ap (store before) g,
      decrypted before private ciphertext p b d f ∙ ap (store before) h,
    )

-- OpenSSL's Blowfish in CFB mode under a key, from a zero vector: as many bytes as it is given.
pub record BlowFish : Type 0 where
  pub cfb64_encrypt : List ℕ → List ℕ → List ℕ
  pub length_encrypt : (key text : List ℕ) → length (cfb64_encrypt key text) ≡ length text

-- `std::string(const char*)` on an array
unfoldable pub c_string : List ℕ → Outcome (List ℕ)
c_string [] = err fault
c_string (c ∷ cs) = let rest = c_string cs >>= λ t. ok (c ∷ t) in if c == 0 then ok [] else rest

-- `BlowFishEncrypt`. Documented: `nNum` is left at how far the last block of eight bytes is used.
unfoldable pub blow_fish_encrypt : BlowFish → List ℕ → List ℕ → Outcome (Bool × List ℕ)
unfolding c_string
blow_fish_encrypt bf key plaintext = do
  assert (leb (length plaintext) 100)
  let num = length plaintext % 8
  text ← c_string (splice (replicate 100 0) 0 (bf.cfb64_encrypt key plaintext))
  ok (not (num == 0), text)

c_string-zero :
    (front rest : List ℕ) → All (λ c. c ≢ 0) front → c_string (front ++ (0 ∷ rest)) ≡ ok front
unfolding c_string
c_string-zero [] rest h = refl
c_string-zero (c ∷ front) rest h = rw (==_ne c 0 h.0, c_string-zero front rest h.1) refl

drop-replicate : (k n : ℕ) → drop k (replicate n zero) ≡ replicate (n - k) zero
drop-replicate zero n = let same : n ≡ n - 0 = omega arith in ap (λ j. replicate j zero) same
drop-replicate (suc k) zero =
    let same : 0 ≡ 0 - suc k = omega arith in ap (λ j. replicate j zero) same
drop-replicate (suc k) (suc n) =
    let same : n - k ≡ suc n - suc k = omega arith in
    drop-replicate k n ∙ ap (λ j. replicate j zero) same

module _ (bf : BlowFish) (key : List ℕ) where
  -- A text of more than 100 bytes is written past the end of the array; one of at most 100 is
  -- encrypted, but the string returned ends in front of the first zero byte of its cipher text, or
  -- of the array behind that, and what is returned is false exactly when the text is made of whole
  -- blocks of eight bytes. The cipher text and the rest of the array have a zero byte.
  pub blow_fish_encrypt_lem :
      (long plaintext front rest : List ℕ)
      → 100 < length long
      → length plaintext ≤ 100
      → All (λ c. c ≢ 0) front
      → bf.cfb64_encrypt key plaintext ++ replicate (100 - length plaintext) 0 ≡ front ++ (0 ∷ rest)
      → (blow_fish_encrypt bf key long ≡ err fault)
        × (blow_fish_encrypt bf key plaintext ≡ ok (not (length plaintext % 8 == 0), front))
  unfolding blow_fish_encrypt
  blow_fish_encrypt_lem long plaintext front rest over fits h e =
      let cipher = bf.cfb64_encrypt key plaintext in
      let flag = not (length plaintext % 8 == 0) in
      let long_c : 0 + length cipher ≡ length plaintext =
        omega (arith, bf.length_encrypt key plaintext) in
      let shape : splice (replicate 100 0) 0 cipher ≡ front ++ (0 ∷ rest) =
        ap (λ t. cipher ++ t)
          (drop-replicate (0 + length cipher) 100 ∙ ap (λ j. replicate (100 - j) zero) long_c)
        ∙ e in
      (
        rw (lt→leb (length long) 100 over) refl,
        ap (λ b. assert b >> (c_string (splice (replicate 100 0) 0 cipher) >>= λ t. ok (flag, t)))
              (le→leb (length plaintext) 100 fits)
            ∙ ap (λ o. o >>= λ t. ok (flag, t)) (ap c_string shape ∙ c_string-zero front rest h),
      )
