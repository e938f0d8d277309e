-- ===== src/Tests/Inputs.antt =====
-- Inputs that the tests share.
use oldpart.Base.{ℕ, arith, refl, true, List, [], ◌∷◌, length, some}
use oldpart.Proto.Marked.{AreSized}
use oldpart.Proto.Types.{Fields, Vals, pod, string, vector, object, stream, end, field, AreWritable}
use oldpart.Crypto.{Aes}
use oldpart.Serializer.Uncompress.{Inflate, z_ok}

-- a cipher that leaves blocks as they are, and takes every key
abbrev pub plain_aes : Aes
plain_aes = record {
  accepts = λ key. true;
  cbc_encrypt = λ key bs. bs;
  cbc_decrypt = λ key bs. bs;
  length_encrypt = λ key bs h. refl;
  decrypt_encrypt = λ key bs h. refl;
}

abbrev pub sum_crc : List ℕ → ℕ
sum_crc bs = length bs

-- a decompressor that copies
abbrev pub copying : Inflate
copying = record {
  Strm = Unit;
  init = some tt;
  inflate = λ s bs n. record { strm = s; avail_in = []; out = bs; ret = z_ok };
}

abbrev pub key : List ℕ
key = 1 ∷ 2 ∷ 3 ∷ 4 ∷ 5 ∷ 6 ∷ 7 ∷ 8 ∷ 9 ∷ 10 ∷ 11 ∷ 12 ∷ 13 ∷ 14 ∷ 15 ∷ 16 ∷ []

-- an object with a number, a string, a list of two numbers and a stream of three bytes
abbrev pub fields : Fields
fields =
    field (pod 4) (field string (field (vector 4 (pod 4)) (field (object (field stream end)) end)))

pub fields-AreSized : AreSized fields
fields-AreSized = (omega arith, (tt, (omega arith, ((tt, (tt, tt)), tt))))

abbrev pub object_values : Vals fields
object_values = (
  258,
  (
    104 ∷ 101 ∷ 108 ∷ 108 ∷ 111 ∷ 32 ∷ 119 ∷ 111 ∷ 114 ∷ 108 ∷ 100 ∷ 33 ∷ 33 ∷ 33 ∷ [],
    (7 ∷ 70000 ∷ [], ((record { size = 3; content = 1 ∷ 2 ∷ 3 ∷ [] }, tt), tt)),
  ),
)

abbrev pub max : ℕ
max = 16

pub object_AreWritable : AreWritable 4 max fields object_values
object_AreWritable = (
  (omega arith, omega arith),
  (
    omega arith,
    (
      (omega arith, omega arith, ((omega arith, omega arith), ((omega arith, omega arith), tt))),
      ((tt, ((refl, omega arith), tt)), tt),
    ),
  ),
)
