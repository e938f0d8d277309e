-- ===== src/Tests/Digests.antt =====
-- MD5 on the inputs of RFC 1321, and printed digests.
use oldpart.Md5.Equivalent.{generate_md5-md5_reference}
use oldpart.Md5.Reference.{
  md5_reference, process_all, padded_text, process32, rounds, operations, operation, rotate32,
  words,
}
use oldpart.Base.{of_le, replicate, le_bytes, ℕ, ◌≡◌, refl, none, some, List, [], ◌∷◌, arith}
use oldpart.Md5.Update.{
  generate_md5, md5_finish, put_state, md5_update, md5_starts, update_rest, add_total0, add_total1,
  process_blocks,
}
use oldpart.Md5.Process.{md5_process}
use oldpart.Md5.Hex.{hex_value, to_string, of_string}
use oldpart.Md5.Printed.{of_string-to_string}

-- the digest of "abc"
abbrev abc_digest : List ℕ
abc_digest =
    0x90 ∷ 0x01 ∷ 0x50 ∷ 0x98 ∷ 0x3c ∷ 0xd2 ∷ 0x4f ∷ 0xb0 ∷ 0xd6 ∷ 0x96 ∷ 0x3f ∷ 0x7d ∷ 0x28 ∷ 0xe1
    ∷ 0x7f ∷ 0x72 ∷ []

abc_test : generate_md5 (replicate 64 7) (97 ∷ 98 ∷ 99 ∷ []) ≡ abc_digest
unfolding generate_md5 md5_finish put_state le_bytes md5_update md5_starts update_rest add_total0
    add_total1 process_blocks md5_process
abc_test = refl

-- the digest of the empty input
empty_test :
    generate_md5 (replicate 64 7) []
    ≡ 0xd4 ∷ 0x1d ∷ 0x8c ∷ 0xd9 ∷ 0x8f ∷ 0x00 ∷ 0xb2 ∷ 0x04 ∷ 0xe9 ∷ 0x80 ∷ 0x09 ∷ 0x98 ∷ 0xec
      ∷ 0xf8 ∷ 0x42 ∷ 0x7e ∷ []
unfolding generate_md5 md5_finish put_state le_bytes md5_update md5_starts update_rest add_total0
    add_total1 process_blocks md5_process
empty_test = refl

zero_is_no_digit : hex_value 0 ≡ none
unfolding hex_value
zero_is_no_digit = refl

of_string-to_string_example : of_string (0 ∷ []) (to_string abc_digest) ≡ abc_digest
of_string-to_string_example = of_string-to_string (0 ∷ []) abc_digest zero_is_no_digit refl (
  omega arith,
  (
    omega arith,
    (
      omega arith,
      (
        omega arith,
        (
          omega arith,
          (
            omega arith,
            (
              omega arith,
              (
                omega arith,
                (
                  omega arith,
                  (
                    omega arith,
                    (
                      omega arith,
                      (omega arith, (omega arith, (omega arith, (omega arith, (omega arith, tt))))),
                    ),
                  ),
                ),
              ),
            ),
          ),
        ),
      ),
    ),
  ),
)

five_is_a_digit : hex_value 53 ≡ some 5
unfolding hex_value
five_is_a_digit = refl

reference_test : md5_reference (97 ∷ 98 ∷ 99 ∷ []) ≡ abc_digest
unfolding md5_reference process_all padded_text process32 rounds operations operation rotate32 words
    put_state le_bytes of_le
reference_test = refl

generate_md5-md5_reference_example :
    generate_md5 (replicate 64 7) (97 ∷ 98 ∷ 99 ∷ []) ≡ md5_reference (97 ∷ 98 ∷ 99 ∷ [])
generate_md5-md5_reference_example =
    generate_md5-md5_reference (replicate 64 7) (97 ∷ 98 ∷ 99 ∷ []) refl (omega arith)
