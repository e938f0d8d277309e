-- ===== src/Serializer/Rounds.antt =====
-- The loops of `CompressBuf` (common/OSerializer.cpp) and their rounds.
use oldpart.Base.{
  ℕ, zero, suc, ◌<◌, ◌≤◌, ◌≡◌, ◌≢◌, refl, ap, Bool, true, List, [], ◌∷◌, ◌++◌, length, take, leb,
  Outcome, ok, err, no_fuel, ◌>>=◌, assert, arith, length-drop, length-take,
}
use oldpart.Proto.Write.{BufT}
use oldpart.Serializer.Compress.{
  Deflate, Compressor, make_compressor, compress, send_tail, after_compress, compress_round,
  compress_body, compress_bodies, compress_buf, reset_out,
}

bind_there-ne {ℓ κ} :
    {A : Type ℓ} {B : Type κ} (m : Outcome A) (f : A → Outcome B)
    → m ≢ err no_fuel
    → ((a : A) → m ≡ ok a → f a ≢ err no_fuel)
    → (m >>= f) ≢ err no_fuel
bind_there-ne {A = A} {B = B} (ok a) f h k e = k a refl e
bind_there-ne {A = A} {B = B} (err why) f h k e = h (ap again e)
  where
    again : Outcome B → Outcome A
    again (ok b) = err no_fuel
    again (err w) = err w

bind-ne {ℓ κ} :
    {A : Type ℓ} {B : Type κ} (m : Outcome A) (f : A → Outcome B)
    → m ≢ err no_fuel
    → ((a : A) → f a ≢ err no_fuel)
    → (m >>= f) ≢ err no_fuel
bind-ne m f h k = bind_there-ne m f h (λ a e. k a)

bind-eq-ok {ℓ κ} :
    {A : Type ℓ} {B : Type κ} (m : Outcome A) (f : A → Outcome B) (b : B)
    → (m >>= f) ≡ ok b
    → (a : A) × (m ≡ ok a) × (f a ≡ ok b)
bind-eq-ok (ok a) f b h = (a, refl, h)
bind-eq-ok (err why) f b h = absurd (ground (arith, h))

module _ (d : Deflate) (max : ℕ) where
  compress_rounds :
      (c : Compressor d max) (bs : List ℕ) (last : Bool) → compress d max c bs last ≢ err no_fuel
  unfolding compress
  compress_rounds c bs last e = ground (arith, e)

  send_tail_rounds : (c : Compressor d max) → send_tail d max c ≢ err no_fuel
  unfolding send_tail
  send_tail_rounds c e = ground (arith, e, compress_rounds (reset_out d max c) [] true)

  after_compress_rounds :
      (last : Bool) (bs : List ℕ) (n : ℕ) (c : Compressor d max)
      → after_compress d max last bs n c ≢ err no_fuel
  unfolding after_compress
  after_compress_rounds last bs n c e = ground (arith, e, send_tail_rounds c)

  compress_round_rounds :
      (last : Bool) (bs : List ℕ) (c : Compressor d max)
      → compress_round d max last bs c ≢ err no_fuel
  unfolding compress_round
  compress_round_rounds last bs c =
      bind-ne (compress d max c bs last) (λ r. after_compress d max last bs r.0 r.1)
        (compress_rounds c bs last) (λ r. after_compress_rounds last bs r.0 r.1)

  after_compress_shorter :
      (last : Bool) (bs : List ℕ) (n : ℕ) (c : Compressor d max)
      (t : List ℕ × List BufT × Compressor d max)
      → 0 < length bs
      → after_compress d max last bs n c ≡ ok t
      → length t.0 < length bs
  unfolding after_compress
  after_compress_shorter last bs n c t some_there e = ground (arith, e, length-drop n bs)

  compress_round_shorter :
      (last : Bool) (bs : List ℕ) (c : Compressor d max) (t : List ℕ × List BufT × Compressor d max)
      → 0 < length bs
      → compress_round d max last bs c ≡ ok t
      → length t.0 < length bs
  unfolding compress_round
  compress_round_shorter last bs c t some_there e =
      let (r, e1, e2) =
        bind-eq-ok (compress d max c bs last) (λ r. after_compress d max last bs r.0 r.1) t e in
      after_compress_shorter last bs r.0 r.1 t some_there e2

  compress_body_rounds :
      (fuel : ℕ) (last : Bool) (bs : List ℕ) (c : Compressor d max)
      → length bs ≤ fuel
      → compress_body d max fuel last bs c ≢ err no_fuel
  unfolding compress_body
  compress_body_rounds fuel last [] c h e = ground (arith, e)
  compress_body_rounds zero last (b ∷ bs) c h e = absurd (omega arith)
  compress_body_rounds (suc fuel) last (b ∷ bs) c h e0 =
      bind_there-ne (compress_round d max last (b ∷ bs) c)
        (λ t. compress_body d max fuel last t.0 t.2 >>= λ q. ok (t.1 ++ q.0, q.1))
        (compress_round_rounds last (b ∷ bs) c)
        (λ t e.
          bind-ne (compress_body d max fuel last t.0 t.2) (λ q. ok (t.1 ++ q.0, q.1))
            (compress_body_rounds fuel last t.0 t.2
              (omega (arith, compress_round_shorter last (b ∷ bs) c t (omega arith) e)))
            (λ q e2. ground (arith, e2)))
        e0

  compress_bodies_rounds :
      (ps : List BufT) (c : Compressor d max) → compress_bodies d max ps c ≢ err no_fuel
  unfolding compress_bodies
  compress_bodies_rounds [] c e = ground (arith, e)
  compress_bodies_rounds (p ∷ ps) c e0 =
      bind-ne (assert (leb p.buf.buf_len max))
        (λ u. compress_body d max p.buf.buf_len p.is_last (take p.buf.buf_len p.buf.buf) c >>= λ q.
          compress_bodies d max ps q.1 >>= λ rs. ok (q.0 ++ rs))
        (λ e. ground (arith, e))
        (λ u.
          bind-ne (compress_body d max p.buf.buf_len p.is_last (take p.buf.buf_len p.buf.buf) c)
            (λ q. compress_bodies d max ps q.1 >>= λ rs. ok (q.0 ++ rs))
            (compress_body_rounds p.buf.buf_len p.is_last (take p.buf.buf_len p.buf.buf) c
              (omega (arith, length-take p.buf.buf_len p.buf.buf)))
            (λ q.
              bind-ne (compress_bodies d max ps q.1) (λ rs. ok (q.0 ++ rs))
                (compress_bodies_rounds ps q.1) (λ rs e. ground (arith, e))))
        e0

  make_compressor_rounds : (level : ℕ) → make_compressor d max level ≢ err no_fuel
  unfolding make_compressor
  make_compressor_rounds level e = ground (arith, e)

  -- The loops of `CompressBuf` end, whatever deflate does: each round takes a byte at least, or the
  -- assertion on the number of bytes taken stops the run, so as many rounds as there are bytes
  -- in a buffer are enough.
  pub compress_buf-ne-no_fuel :
      (level : ℕ) (ps : List BufT) → compress_buf d max level ps ≢ err no_fuel
  unfolding compress_buf
  compress_buf-ne-no_fuel level ps =
      bind-ne (make_compressor d max level) (λ c. compress_bodies d max ps c)
        (make_compressor_rounds level) (λ c. compress_bodies_rounds ps c)
