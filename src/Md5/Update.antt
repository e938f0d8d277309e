-- ===== src/Md5/Update.antt =====
-- `md5_starts`, `md5_update`, `md5_finish` and `GenerateMD5`.
use oldpart.Base.{
  ℕ, zero, suc, ◌-◌, ◌/◌, ◌%◌, ◌^◌, true, false, not, ◌&&◌, List, ◌∷◌, ◌++◌, length, take, drop,
  splice, replicate, ltb, leb, ◌==◌, if◌then◌else◌, le_bytes,
}
use oldpart.Md5.Process.{State, md5_process, add, shl}

-- `md5_context`
pub record Context : Type 0 where
  pub total0 : ℕ
  pub total1 : ℕ
  pub state : State
  pub buffer : List ℕ

abbrev pub initial : State
initial = record { a = 0x67452301; b = 0xefcdab89; c = 0x98badcfe; d = 0x10325476 }

-- `md5_starts`, on a context whose buffer holds whatever the stack held
unfoldable pub md5_starts : List ℕ → Context
md5_starts buffer = record { total0 = 0; total1 = 0; state = initial; buffer = buffer }

-- the statements of `md5_update` on `ctx->total`
unfoldable pub add_total0 : ℕ → ℕ → ℕ
add_total0 total0 length = add total0 (shl length 3) % 2 ^ 32

unfoldable pub add_total1 : ℕ → ℕ → ℕ → ℕ
unfolding add_total0
add_total1 total0 total1 length =
    add (add total1 (length / 2 ^ 29))
      (if ltb (add_total0 total0 length) (shl length 3) then 1 else 0)

-- `while(length >= 64)`; each round takes bytes, so their number bounds the rounds.
unfoldable pub process_blocks : ℕ → State → List ℕ → State × List ℕ
process_blocks zero s input = (s, input)
process_blocks (suc fuel) s input = elim (leb 64 (length input)) [
  | true ↦ process_blocks fuel (md5_process s (take 64 input)) (drop 64 input)
  | false ↦ (s, input)
]

-- the loop and the `memcpy` of what is left behind it
unfoldable pub update_rest : ℕ → ℕ → State → List ℕ → ℕ → List ℕ → Context
update_rest total0 total1 s buffer left input =
    let (s1, rest) = process_blocks (length input) s input in
    record {
      total0 = total0;
      total1 = total1;
      state = s1;
      buffer = if length rest == 0 then buffer else splice buffer left rest;
    }

-- `left`
abbrev pub filled : ℕ → ℕ
filled total0 = total0 / 8 % 64

unfoldable pub md5_update : Context → List ℕ → Context
md5_update ctx input =
    let left = filled ctx.total0 in
    let fill = 64 - left in
    let t0 = add_total0 ctx.total0 (length input) in
    let t1 = add_total1 ctx.total0 ctx.total1 (length input) in
    let full = splice ctx.buffer left (take fill input) in
    if length input == 0
    then ctx
    else (if not (left == 0) && leb fill (length input)
        then update_rest t0 t1 (md5_process ctx.state full) full 0 (drop fill input)
        else update_rest t0 t1 ctx.state ctx.buffer left input)

-- `md5_padding`
abbrev pub md5_padding : List ℕ
md5_padding = 0x80 ∷ replicate 63 0

abbrev pub pad_length : ℕ → ℕ
pad_length last = if ltb last 56 then 56 - last else 120 - last

-- `PUT_UINT32` of the four words
unfoldable pub put_state : State → List ℕ
put_state s = le_bytes 4 s.a ++ le_bytes 4 s.b ++ le_bytes 4 s.c ++ le_bytes 4 s.d

unfoldable pub md5_finish : Context → List ℕ
md5_finish ctx =
    let msglen = le_bytes 4 ctx.total0 ++ le_bytes 4 ctx.total1 in
    let padn = pad_length (filled ctx.total0) in
    put_state (md5_update (md5_update ctx (take padn md5_padding)) msglen).state

-- `GenerateMD5`: the digest, in the 16 bytes that `m_data` begins with
unfoldable pub generate_md5 : List ℕ → List ℕ → List ℕ
generate_md5 stack buffer = md5_finish (md5_update (md5_starts stack) buffer)
