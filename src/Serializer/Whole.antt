-- ===== src/Serializer/Whole.antt =====
-- The buffers that `CompressBuf` (common/OSerializer.cpp) sends.
use oldpart.Base.{
  ℕ, zero, suc, ◌-◌, ◌≤◌, ◌≡◌, subst, ◌∙◌, Bool, true, false, not, ◌&&◌, Option, none, some, List,
  [], ◌∷◌, length, length-append, drop, take, replicate, length-replicate, length-splice, leb, ltb,
  ◌==◌, ok, err, thrown, arith, ◌||◌,
}
use oldpart.Proto.Types.{All}
use oldpart.Proto.Write.{BufT, make_buffer}
use oldpart.Proto.Emitted.{IsWhole, All-append}
use oldpart.Serializer.Returned.{Post, Post-bind, Post-assert, Post-if}
use oldpart.Serializer.Deflated.{IsHonest}
use oldpart.Serializer.Compress.{
  Deflate, Compressor, make_compressor, is_full, compress, compressed, send_tail, after_compress,
  compress_round, compress_body, compress_bodies, compress_buf, reset_out, is_stream_error,
}

module _ (d : Deflate) (max : ℕ) (honest : IsHonest d max) where
  -- What has been written fits the buffer.
  abbrev Fits : Compressor d max → Type 0
  Fits c = length c.out ≤ max

  -- buffers sent, and the compressor after them
  abbrev Sends : List BufT → Compressor d max → Type 0
  Sends ps c = All (IsWhole max) ps × Fits c

  compressed-IsWhole :
      (c : Compressor d max) (n : ℕ) (last : Bool)
      → Fits c
      → n ≤ max
      → IsWhole max (compressed d max c n last)
  unfolding compressed make_buffer
  compressed-IsWhole c n last fits h =
      let made : List ℕ = replicate max 0 in
      let room : length made ≡ max = length-replicate {A = ℕ} max 0 in
      (length-splice made 0 c.out (omega arith) ∙ room, h)

  compress-Fits :
      (c : Compressor d max) (bs : List ℕ) (last : Bool)
      → Fits c
      → Post (λ r. Fits r.1) (compress d max c bs last)
  unfolding compress
  compress-Fits c bs last fits =
      let r = d.deflate c.strm bs (max - length c.out) last in
      Post-assert {A = ℕ × Compressor d max} (λ x. Fits x.1) (not (is_stream_error r.ret)) _
        (λ e.
          omega (arith, length-append c.out r.out, (honest c.strm bs (max - length c.out) last).1))

  send_tail-IsWhole : (c : Compressor d max) → Fits c → Post (All (IsWhole max)) (send_tail d max c)
  unfolding send_tail reset_out
  send_tail-IsWhole c fits =
      Post-if (All (IsWhole max)) c.need_more_memory_for_tail _ _
        (λ e. Post-assert (All (IsWhole max)) (is_full d max c) _ (λ full.
          Post-bind (λ r. Fits r.1) (All (IsWhole max)) (compress d max (reset_out d max c) [] true)
            _ (compress-Fits (reset_out d max c) [] true (omega arith))
            (λ r h. (
              compressed-IsWhole c max false fits (omega arith),
              (compressed-IsWhole r.1 (length r.1.out) true h h, tt),
            ))))
        (λ e. (compressed-IsWhole c (length c.out) true fits fits, tt))

  after_compress-Sends :
      (last : Bool) (bs : List ℕ) (n : ℕ) (c : Compressor d max)
      → Fits c
      → Post (λ t. Sends t.1 t.2) (after_compress d max last bs n c)
  unfolding after_compress reset_out
  after_compress-Sends last bs n c fits =
      Post-assert (λ t. Sends t.1 t.2) (ltb 0 n) _
        (λ some_taken.
          Post-if (λ t. Sends t.1 t.2)
            ((not last || not (length (drop n bs) == 0)) && is_full d max c) _ _
            (λ e. ((compressed-IsWhole c max false fits (omega arith), tt), omega arith))
            (λ e.
              Post-if (λ t. Sends t.1 t.2) (last && (length (drop n bs) == 0)) _ _
                (λ e.
                  Post-bind (All (IsWhole max)) (λ t. Sends t.1 t.2) (send_tail d max c) _
                    (send_tail-IsWhole c fits) (λ ps h. (h, fits)))
                (λ e. (tt, fits))))

  compress_body-Sends :
      (fuel : ℕ) (last : Bool) (bs : List ℕ) (c : Compressor d max)
      → Fits c
      → Post (λ q. Sends q.0 q.1) (compress_body d max fuel last bs c)
  unfolding compress_body compress_round
  compress_body-Sends fuel last [] c fits = (tt, fits)
  compress_body-Sends zero last (b ∷ bs) c fits = tt
  compress_body-Sends (suc fuel) last (b ∷ bs) c fits =
      Post-bind (λ t. Sends t.1 t.2) (λ q. Sends q.0 q.1) (compress_round d max last (b ∷ bs) c) _
        (Post-bind (λ r. Fits r.1) (λ t. Sends t.1 t.2) (compress d max c (b ∷ bs) last) _
          (compress-Fits c (b ∷ bs) last fits)
          (λ r h. after_compress-Sends last (b ∷ bs) r.0 r.1 h))
        (λ t h.
          Post-bind (λ q. Sends q.0 q.1) (λ q. Sends q.0 q.1)
            (compress_body d max fuel last t.0 t.2) _ (compress_body-Sends fuel last t.0 t.2 h.1)
            (λ q k. (All-append (IsWhole max) t.1 q.0 h.0 k.0, k.1)))

  compress_bodies-IsWhole :
      (ps : List BufT) (c : Compressor d max)
      → Fits c
      → Post (All (IsWhole max)) (compress_bodies d max ps c)
  unfolding compress_bodies
  compress_bodies-IsWhole [] c fits = tt
  compress_bodies-IsWhole (p ∷ ps) c fits =
      let bs = take p.buf.buf_len p.buf.buf in
      Post-assert (All (IsWhole max)) (leb p.buf.buf_len max) _ (λ e.
        Post-bind (λ q. Sends q.0 q.1) (All (IsWhole max))
          (compress_body d max p.buf.buf_len p.is_last bs c) _
          (compress_body-Sends p.buf.buf_len p.is_last bs c fits)
          (λ q h.
            Post-bind (All (IsWhole max)) (All (IsWhole max)) (compress_bodies d max ps q.1) _
              (compress_bodies-IsWhole ps q.1 h.1) (λ rs k. All-append (IsWhole max) q.0 rs h.0 k)))

  -- Every buffer that `CompressBuf` sends has its full size, and announces no more bytes than it
  -- has room for, where deflate writes no more than there is room for.
  pub compress_buf-IsWhole :
      (level : ℕ) (ps qs : List BufT) → compress_buf d max level ps ≡ ok qs → All (IsWhole max) qs
  unfolding compress_buf make_compressor
  compress_buf-IsWhole level ps qs e = subst (Post (All (IsWhole max))) e (
      Post-bind Fits (All (IsWhole max)) (make_compressor d max level) _ (started (d.init level))
        (λ c h. compress_bodies-IsWhole ps c h))
    where
      started :
          (o : Option d.Strm)
          → Post {A = Compressor d max} Fits (elim o [
            | none ↦ err thrown
            | some s ↦ ok (record { strm = s; out = []; need_more_memory_for_tail = false })
          ])
      started none = tt
      started (some s) = omega arith
