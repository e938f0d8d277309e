-- ===== src/Md5/Streaming.antt =====
-- `md5_update` (common/crypto/Md5.cpp) on bytes that arrive in pieces.
use oldpart.Base.{
  ℕ, suc, ◌+◌, ◌-◌, ◌*◌, ◌/◌, ◌%◌, ◌≤◌, ◌<◌, ◌≡◌, inl, inr, refl, ap, ap₂, ◌∙◌, sym, subst, true,
  false, not, ◌&&◌, List, [], ◌∷◌, ◌++◌, append-nil, length, length-append, take, drop, splice, ltb,
  leb, ◌==◌, length-drop, length-take, length-splice, take-splice, take_all, take-append_ge,
  drop-append_ge, drop-drop, ltb→lt, ltb→le, arith, Bool-cases, if◌then◌else◌,
}
use oldpart.Md5.Process.{State, md5_process}
use oldpart.Md5.Update.{Context, add_total0, add_total1, update_rest, filled, md5_update}
use oldpart.Md5.Absorb.{absorb, process_blocks-absorb}

-- A state `s` with the bytes `p` waiting in front of the buffer, fewer than a block.
pub record IsPending (s : State) (p : List ℕ) (state : State) (buffer : List ℕ) : Type 0 where
  pub reached : state ≡ s
  pub waiting : take (length p) buffer ≡ p
  pub whole : length buffer ≡ 64
  pub short : length p < 64

-- the number of whole blocks in these bytes, and the state and the bytes behind them
abbrev pub blocks : List ℕ → ℕ
blocks xs = length xs / 64

abbrev pub after : State → List ℕ → State
after s xs = absorb (blocks xs) s xs

abbrev pub rest : List ℕ → List ℕ
rest xs = drop (64 * blocks xs) xs

pub length-rest : (xs : List ℕ) → length (rest xs) ≡ length xs % 64
length-rest xs = omega (arith, length-drop (64 * blocks xs) xs)

-- the buffer after the last `memcpy`
stored :
    (s : State) (buffer : List ℕ) (p x : List ℕ)
    → length buffer ≡ 64
    → take (length p) buffer ≡ p
    → length p + length x < 64
    → IsPending s (p ++ x) s (if length x == 0 then buffer else splice buffer (length p) x)
stored s buffer p [] whole waiting short =
    rw (append-nil p)
      (record { reached = refl; waiting = waiting; whole = whole; short = omega arith })
stored s buffer p (c ∷ cs) whole waiting short =
    let x = c ∷ cs in
    let fits : length p + length x ≤ length buffer = omega arith in
    let some_left : (length x == 0) ≡ false = ground arith in
    rw some_left (record {
      reached = refl;
      waiting =
          ap (λ n. take n (splice buffer (length p) x)) (length-append p x)
          ∙ take-splice buffer (length p) x fits
          ∙ ap (λ t. t ++ x) waiting;
      whole = length-splice buffer (length p) x fits ∙ whole;
      short = omega (arith, length-append p x);
    })

module _ (t0 t1 : ℕ) where
  -- the end of `md5_update`, when no byte waits
  update_rest_aligned :
      (s : State) (buffer x : List ℕ)
      → length buffer ≡ 64
      → let c = update_rest t0 t1 s buffer 0 x in IsPending (after s x) (rest x) c.state c.buffer
  unfolding update_rest
  update_rest_aligned s buffer x whole =
      rw (process_blocks-absorb (length x) s x (blocks x) (omega arith) refl)
        (stored (after s x) buffer [] (rest x) whole refl (omega (arith, length-rest x)))

  -- and when no block is filled
  update_rest_short :
      (s : State) (buffer p x : List ℕ)
      → length buffer ≡ 64
      → take (length p) buffer ≡ p
      → length p + length x < 64
      → let c = update_rest t0 t1 s buffer (length p) x in
        IsPending (after s (p ++ x)) (rest (p ++ x)) c.state c.buffer
  unfolding update_rest absorb
  update_rest_short s buffer p x whole waiting short =
      let none : blocks (p ++ x) ≡ 0 = omega (arith, length-append p x) in
      rw (none, process_blocks-absorb (length x) s x 0 (omega arith) (omega arith))
        (stored s buffer p x whole waiting short)

  -- and when the waiting bytes are filled up to a block first
  update_rest_filled :
      (s : State) (buffer p x : List ℕ)
      → length buffer ≡ 64
      → take (length p) buffer ≡ p
      → length p < 64
      → 64 ≤ length p + length x
      → let full = splice buffer (length p) (take (64 - length p) x) in
        let c = update_rest t0 t1 (md5_process s full) full 0 (drop (64 - length p) x) in
        IsPending (after s (p ++ x)) (rest (p ++ x)) c.state c.buffer
  unfolding absorb
  update_rest_filled s buffer p x whole waiting short enough =
      let fill = 64 - length p in
      let begun = take fill x in
      let left = drop fill x in
      let full = splice buffer (length p) begun in
      let long : length begun ≡ fill = omega (arith, length-take fill x) in
      let fits : length p + length begun ≤ length buffer = omega arith in
      let same : full ≡ p ++ begun =
        sym (
          take_all (length p + length begun) full
            (omega (arith, length-splice buffer (length p) begun fits)))
        ∙ take-splice buffer (length p) begun fits
        ∙ ap (λ t. t ++ begun) waiting in
      let first : take 64 (p ++ x) ≡ p ++ begun = take-append_ge 64 fill p x (omega arith) in
      let others : drop 64 (p ++ x) ≡ left = drop-append_ge 64 fill p x (omega arith) in
      let one_more : blocks (p ++ x) ≡ suc (blocks left) =
        omega (arith, length-append p x, length-drop fill x) in
      let behind : rest (p ++ x) ≡ rest left =
        ap (λ k. drop (64 * k) (p ++ x)) one_more
        ∙ sym (drop-drop 64 (64 * blocks left) (64 * suc (blocks left)) (p ++ x) (omega arith))
        ∙ ap (drop (64 * blocks left)) others in
      let reached : after s (p ++ x) ≡ after (md5_process s full) left =
        ap (λ k. absorb k s (p ++ x)) one_more
        ∙ ap₂ (λ b o. absorb (blocks left) (md5_process s b) o) (first ∙ sym same) others in
      rw (behind, reached)
        (update_rest_aligned (md5_process s full) full left
          (length-splice buffer (length p) begun fits ∙ whole))

-- the three ways through `md5_update` when there are new bytes
update_aligned :
    (ctx : Context) (c : ℕ) (cs : List ℕ)
    → filled ctx.total0 ≡ 0
    → md5_update ctx (c ∷ cs)
      ≡ update_rest
          (add_total0 ctx.total0 (length (c ∷ cs)))
          (add_total1 ctx.total0 ctx.total1 (length (c ∷ cs)))
          ctx.state
          ctx.buffer
          0
          (c ∷ cs)
unfolding md5_update
update_aligned ctx c cs f =
    let some_left : (length (c ∷ cs) == 0) ≡ false = ground arith in rw (some_left, f) refl

update_short :
    (ctx : Context) (r c : ℕ) (cs : List ℕ)
    → filled ctx.total0 ≡ r
    → r + length (c ∷ cs) < 64
    → md5_update ctx (c ∷ cs)
      ≡ update_rest
          (add_total0 ctx.total0 (length (c ∷ cs)))
          (add_total1 ctx.total0 ctx.total1 (length (c ∷ cs)))
          ctx.state
          ctx.buffer
          r
          (c ∷ cs)
unfolding md5_update
update_short ctx r c cs f short =
    let some_left : (length (c ∷ cs) == 0) ≡ false = ground arith in
    let no_block : (not (r == 0) && leb (64 - r) (length (c ∷ cs))) ≡ false = ground arith in
    rw (some_left, f) (rw no_block refl)

update_filled :
    (ctx : Context) (r c : ℕ) (cs : List ℕ)
    → filled ctx.total0 ≡ r
    → 0 < r
    → 64 ≤ r + length (c ∷ cs)
    → let full = splice ctx.buffer r (take (64 - r) (c ∷ cs)) in
      md5_update ctx (c ∷ cs)
      ≡ update_rest
          (add_total0 ctx.total0 (length (c ∷ cs)))
          (add_total1 ctx.total0 ctx.total1 (length (c ∷ cs)))
          (md5_process ctx.state full)
          full
          0
          (drop (64 - r) (c ∷ cs))
unfolding md5_update
update_filled ctx r c cs f some_waiting enough =
    let some_left : (length (c ∷ cs) == 0) ≡ false = ground arith in
    let block : (not (r == 0) && leb (64 - r) (length (c ∷ cs))) ≡ true = ground arith in
    rw (some_left, f) (rw block refl)

-- `md5_update` takes what waits and the new bytes as one text.
update_from :
    (p x : List ℕ) (ctx : Context)
    → IsPending ctx.state p ctx.state ctx.buffer
    → filled ctx.total0 ≡ length p
    → let c = md5_update ctx x in
      IsPending (after ctx.state (p ++ x)) (rest (p ++ x)) c.state c.buffer
unfolding md5_update absorb
update_from p [] ctx v f =
    let none : blocks (p ++ []) ≡ 0 = omega (arith, length-append p [], v.short) in
    rw none (rw (append-nil p) v)
update_from [] (c ∷ cs) ctx v f = rw (update_aligned ctx c cs f) (
    update_rest_aligned (add_total0 ctx.total0 (length (c ∷ cs)))
      (add_total1 ctx.total0 ctx.total1 (length (c ∷ cs))) ctx.state ctx.buffer (c ∷ cs) v.whole)
update_from (d ∷ ds) (c ∷ cs) ctx v f =
    let p = d ∷ ds in
    let x = c ∷ cs in
    let t0 = add_total0 ctx.total0 (length x) in
    let t1 = add_total1 ctx.total0 ctx.total1 (length x) in
    elim (Bool-cases (ltb (length p + length x) 64)) [
      | inl e ↦
          let short = ltb→lt (length p + length x) 64 e in
          rw (update_short ctx (length p) c cs f short)
            (update_rest_short t0 t1 ctx.state ctx.buffer p x v.whole v.waiting short)
      | inr e ↦
          let enough = ltb→le (length p + length x) 64 e in
          rw (update_filled ctx (length p) c cs f (omega arith) enough)
            (update_rest_filled t0 t1 ctx.state ctx.buffer p x v.whole v.waiting v.short enough)
    ]

pub md5_update-IsPending :
    (s : State) (p x : List ℕ) (ctx : Context)
    → IsPending s p ctx.state ctx.buffer
    → filled ctx.total0 ≡ length p
    → let c = md5_update ctx x in IsPending (after s (p ++ x)) (rest (p ++ x)) c.state c.buffer
md5_update-IsPending s p x ctx v f =
    let c = md5_update ctx x in
    subst (λ t. IsPending (after t (p ++ x)) (rest (p ++ x)) c.state c.buffer) v.reached
      (update_from p x ctx
        (record { reached = refl; waiting = v.waiting; whole = v.whole; short = v.short }) f)
