-- ===== src/Md5/Padded.antt =====
-- `GenerateMD5` (common/crypto/Md5.cpp) as one pass over the padded text.
use oldpart.Base.{
  ℕ, ◌+◌, ◌-◌, ◌*◌, ◌/◌, ◌%◌, ◌^◌, ◌≤◌, ◌<◌, ◌≡◌, refl, ap, ap₂, ◌∙◌, sym, subst, false, not, ◌&&◌,
  List, [], ◌∷◌, ◌++◌, length, length-append, take, drop, ltb, leb, ◌==◌, le→ltb, length-take,
  drop-append_le, drop-drop, length-le_bytes, le_bytes, arith, Bool-cases, inl, inr,
}
use oldpart.Md5.Process.{State, add, shl}
use oldpart.Md5.Update.{
  Context, initial, md5_starts, add_total0, add_total1, update_rest, filled, md5_update,
  md5_padding, pad_length, put_state, md5_finish, generate_md5,
}
use oldpart.Md5.Absorb.{absorb, absorb-add, absorb-append}
use oldpart.Md5.Streaming.{IsPending, blocks, after, rest, length-rest, md5_update-IsPending}

update_totals :
    (ctx : Context) (c : ℕ) (cs : List ℕ)
    → ((md5_update ctx (c ∷ cs)).total0 ≡ add_total0 ctx.total0 (length (c ∷ cs)))
      × ((md5_update ctx (c ∷ cs)).total1 ≡ add_total1 ctx.total0 ctx.total1 (length (c ∷ cs)))
unfolding md5_update update_rest
update_totals ctx c cs =
    let left = filled ctx.total0 in
    let some_left : (length (c ∷ cs) == 0) ≡ false = ground arith in
    elim (Bool-cases (not (left == 0) && leb (64 - left) (length (c ∷ cs)))) [
      | inl e ↦ rw some_left (rw e (refl, refl))
      | inr e ↦ rw some_left (rw e (refl, refl))
    ]

-- A context that has been given this text since `md5_starts`.
record IsGiven (m : List ℕ) (ctx : Context) : Type 0 where
  pending : IsPending (after initial m) (rest m) ctx.state ctx.buffer
  low : ctx.total0 ≡ 8 * length m
  high : ctx.total1 ≡ 0

-- The two words of the number of bits, while that is below 2 ^ 32.
words :
    (t0 t1 n l : ℕ)
    → t0 ≡ 8 * n
    → t1 ≡ 0
    → 8 * (n + l) < 2 ^ 32
    → (add_total0 t0 l ≡ 8 * (n + l)) × (add_total1 t0 t1 l ≡ 0)
unfolding add_total0 add_total1
words t0 t1 n l low high small =
    let bits : shl l 3 ≡ 8 * l = omega arith in
    let sum : add t0 (8 * l) % 2 ^ 32 ≡ 8 * (n + l) = omega arith in
    let no_carry : ltb (8 * (n + l)) (8 * l) ≡ false = le→ltb (8 * (n + l)) (8 * l) (omega arith) in
    (rw bits sum, rw bits (rw sum (rw no_carry (omega arith))))

totals :
    (m x : List ℕ) (ctx : Context)
    → ctx.total0 ≡ 8 * length m
    → ctx.total1 ≡ 0
    → 8 * (length m + length x) < 2 ^ 32
    → ((md5_update ctx x).total0 ≡ 8 * length (m ++ x)) × ((md5_update ctx x).total1 ≡ 0)
unfolding md5_update
totals m [] ctx low high small = (omega (arith, length-append m [], low), high)
totals m (c ∷ cs) ctx low high small =
    let now = update_totals ctx c cs in
    let sums = words ctx.total0 ctx.total1 (length m) (length (c ∷ cs)) low high small in
    (now.0 ∙ sums.0 ∙ ap (λ k. 8 * k) (sym (length-append m (c ∷ cs))), now.1 ∙ sums.1)

-- The blocks of a text and of what follows it.
blocks-append : (m x : List ℕ) → blocks (m ++ x) ≡ blocks m + blocks (rest m ++ x)
blocks-append m x = omega (arith, length-append m x, length-append (rest m) x, length-rest m)

drop-blocks : (m x : List ℕ) → drop (64 * blocks m) (m ++ x) ≡ rest m ++ x
drop-blocks m x = drop-append_le (64 * blocks m) m x (omega arith)

after-append : (s : State) (m x : List ℕ) → after (after s m) (rest m ++ x) ≡ after s (m ++ x)
after-append s m x =
    let k = blocks (rest m ++ x) in
    sym (
      absorb-add (blocks m) k (blocks (m ++ x)) s (m ++ x) (blocks-append m x)
      ∙ ap₂ (absorb k) (absorb-append (blocks m) s m x (omega arith)) (drop-blocks m x))

rest-append : (m x : List ℕ) → rest (rest m ++ x) ≡ rest (m ++ x)
rest-append m x =
    let k = blocks (rest m ++ x) in
    sym (
      sym (
        drop-drop (64 * blocks m) (64 * k) (64 * blocks (m ++ x)) (m ++ x)
          (omega (arith, blocks-append m x)))
      ∙ ap (drop (64 * k)) (drop-blocks m x))

-- `md5_update` on fewer than 2 ^ 32 bits in all
md5_update-IsGiven :
    (m x : List ℕ) (ctx : Context)
    → 8 * (length m + length x) < 2 ^ 32
    → IsGiven m ctx
    → IsGiven (m ++ x) (md5_update ctx x)
md5_update-IsGiven m x ctx small v =
    let waiting : filled ctx.total0 ≡ length (rest m) = omega (arith, v.low, length-rest m) in
    let c = md5_update ctx x in
    let new = totals m x ctx v.low v.high small in
    record {
      pending =
          subst (λ s. IsPending s (rest (m ++ x)) c.state c.buffer) (after-append initial m x)
            (subst (λ r. IsPending (after (after initial m) (rest m ++ x)) r c.state c.buffer)
              (rest-append m x)
              (md5_update-IsPending (after initial m) (rest m) x ctx v.pending waiting));
      low = new.0;
      high = new.1;
    }

md5_starts-IsGiven : (stack : List ℕ) → length stack ≡ 64 → IsGiven [] (md5_starts stack)
unfolding md5_starts absorb
md5_starts-IsGiven stack whole = record {
  pending = record { reached = refl; waiting = refl; whole = whole; short = omega arith };
  low = omega arith;
  high = refl;
}

-- The padded text of the definition of MD5: a byte 128, bytes 0 up to eight bytes before the end
-- of a block, and the number of bits of the text in eight bytes, low byte first.
unfoldable pub pad : List ℕ → List ℕ
pad m =
    m
    ++ take (pad_length (length m % 64)) md5_padding
    ++ (le_bytes 4 (8 * length m) ++ le_bytes 4 0)

abbrev padding : List ℕ → List ℕ
padding m = take (pad_length (length m % 64)) md5_padding

abbrev bit_count : List ℕ → List ℕ
bit_count m = le_bytes 4 (8 * length m) ++ le_bytes 4 0

length-padding : (m : List ℕ) → length (padding m) ≡ pad_length (length m % 64)
length-padding m = ground (arith, length-take (pad_length (length m % 64)) md5_padding)

length-bit_count : (m : List ℕ) → length (bit_count m) ≡ 8
length-bit_count m = omega (
  arith,
  length-append (le_bytes 4 (8 * length m)) (le_bytes 4 0),
  length-le_bytes 4 (8 * length m),
  length-le_bytes 4 0,
)

md5_finish-after :
    (m : List ℕ) (ctx : Context)
    → length m < 2 ^ 29 - 72
    → IsGiven m ctx
    → md5_finish ctx ≡ put_state (after initial (pad m))
unfolding md5_finish pad
md5_finish-after m ctx small v =
    let n = length m in
    let ended : filled (8 * n) ≡ n % 64 = omega arith in
    let some_bytes : pad_length (n % 64) ≤ 64 = ground arith in
    let two = md5_update-IsGiven m (padding m) ctx (omega (arith, length-padding m)) v in
    let three =
      md5_update-IsGiven (m ++ padding m) (bit_count m) (md5_update ctx (padding m))
        (omega (arith, length-append m (padding m), length-padding m, length-bit_count m)) two in
    let waits : filled ctx.total0 ≡ n % 64 = ap filled v.low ∙ ended in
    let counted : le_bytes 4 ctx.total0 ++ le_bytes 4 ctx.total1 ≡ bit_count m =
      ap₂ (λ a b. le_bytes 4 a ++ le_bytes 4 b) v.low v.high in
    ap₂ (λ k b. put_state (md5_update (md5_update ctx (take (pad_length k) md5_padding)) b).state)
      waits counted
    ∙ ap put_state three.pending.reached

-- `GenerateMD5` on a text of fewer than 2 ^ 29 - 72 bytes is the four words, low byte first, that
-- one block after the other of the padded text brings the initial state to; the padded text is
-- made of whole blocks. What the context's buffer held before does not matter.
pub generate_md5-pad :
    (stack m : List ℕ)
    → length stack ≡ 64
    → length m < 2 ^ 29 - 72
    → (length (pad m) % 64 ≡ 0)
      × (generate_md5 stack m ≡ put_state (absorb (length (pad m) / 64) initial (pad m)))
unfolding generate_md5 pad
generate_md5-pad stack m whole small =
    let given =
      md5_update-IsGiven [] m (md5_starts stack) (omega arith) (md5_starts-IsGiven stack whole) in
    let aligned : (length m + pad_length (length m % 64) + 8) % 64 ≡ 0 = ground arith in
    (
      omega (
        arith,
        aligned,
        length-append (m ++ padding m) (bit_count m),
        length-append m (padding m),
        length-padding m,
        length-bit_count m,
      ),
      md5_finish-after m (md5_update (md5_starts stack) m) small given,
    )
