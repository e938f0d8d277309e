-- ===== src/Serializer/Deflated.antt =====
-- What `CompressBuf` (common/OSerializer.cpp) hands to deflate and sends of what deflate writes.
pub mod Round
pub mod Bodies
use oldpart.Base.{
  ℕ, zero, suc, ◌+◌, ◌-◌, ◌<◌, ◌≤◌, ◌≡◌, ◌≢◌, refl, sym, ap, ap₂, subst, ◌∙◌, Bool, true, false,
  not, ◌&&◌, ◌||◌, Option, none, some, List, [], ◌∷◌, ◌++◌, append-nil, append_assoc, length,
  length-append, take, drop, splice, replicate, length-replicate, take-splice, length-splice,
  take-append-drop, leb, ltb, ◌==◌, ==_iff, Bool-cases, inl, inr, if◌then◌else◌, Outcome, ok, err,
  no_fuel, ◌>>=◌, ◌>>◌, assert, arith, length-drop, length-take, take_all,
}
use oldpart.Serializer.Returned.{Post, Post-bind, Post-map, Post-assert, Post-if}
use oldpart.Proto.Write.{BufT, make_buffer}
use oldpart.Serializer.Uncompress.{Inflated}
use oldpart.Serializer.Compress.{
  Deflate, Compressor, make_compressor, is_full, compress, compressed, send_tail, after_compress,
  compress_round, compress_body, compress_bodies, compress_buf, reset_out, is_ok, is_stream_error,
}

-- the bytes that the buffers carry
abbrev pub contents : List BufT → List ℕ
contents [] = []
contents (p ∷ ps) = take p.buf.buf_len p.buf.buf ++ contents ps

pub contents-append : (ps qs : List BufT) → contents (ps ++ qs) ≡ contents ps ++ contents qs
contents-append [] qs = refl
contents-append (p ∷ ps) qs =
    ap (λ k. take p.buf.buf_len p.buf.buf ++ k) (contents-append ps qs)
    ∙ sym (append_assoc (take p.buf.buf_len p.buf.buf) (contents ps) (contents qs))

take-splice_start :
    (dst src : List ℕ) → length src ≤ length dst → take (length src) (splice dst 0 src) ≡ src
take-splice_start dst src h =
    let at_start : 0 + length src ≡ length src = omega arith in
    ap (λ k. take k (splice dst 0 src)) (sym at_start) ∙ take-splice dst 0 src (omega arith)

module _ (d : Deflate) (max : ℕ) where
  -- Documented of deflate: it takes a first part of its input, and writes what there is room for.
  abbrev pub IsHonest : Type 0
  IsHonest =
      (s : d.Strm) (bs : List ℕ) (room : ℕ) (last : Bool)
      → let r = d.deflate s bs room last in
        (r.avail_in ≡ drop (length bs - length r.avail_in) bs) × (length r.out ≤ room)

  -- Calls of deflate bring the first stream to the second; together they take the first bytes and
  -- write the second ones.
  pub data Deflated : d.Strm → List ℕ → List ℕ → d.Strm → Type 0 where
    begun : (s : d.Strm) → Deflated s [] [] s
    called :
        {s t : d.Strm} {taken written : List ℕ} (bs : List ℕ) (room : ℕ) (last : Bool)
        (r : Inflated (d.Strm))
        → d.deflate t bs room last ≡ r
        → Deflated s taken written t
        → Deflated s (taken ++ take (length bs - length r.avail_in) bs) (written ++ r.out) r.strm

  pub contents_compressed :
      (c : Compressor d max) (last : Bool) (n : ℕ) (ps : List BufT)
      → length c.out ≡ n
      → n ≤ max
      → contents (compressed d max c n last ∷ ps) ≡ c.out ++ contents ps
  unfolding compressed make_buffer
  contents_compressed c last n ps e h =
      let zero_byte : ℕ = 0 in
      let fits : length c.out ≤ length (replicate max zero_byte) =
        omega (arith, length-replicate max zero_byte) in
      ap (λ k. k ++ contents ps)
        (ap (λ k. take k (splice (replicate max 0) 0 c.out)) (sym e)
          ∙ take-splice_start (replicate max 0) c.out fits)

  module _ (honest : IsHonest) (s : d.Strm) where
    -- A compressor that has taken these bytes, when these have been sent.
    pub record IsAt (taken sent : List ℕ) (c : Compressor d max) : Type 0 where
      pub reached : Deflated s taken (sent ++ c.out) c.strm
      pub short : length c.out ≤ max

    abbrev pub IsEnded : List ℕ → List ℕ → Type 0
    IsEnded taken sent = (t : d.Strm) × Deflated s taken sent t

    -- at the end, or before it
    abbrev pub Result : Bool → List ℕ → List ℕ → Compressor d max → Type 0
    Result true taken sent c = IsEnded taken sent
    Result false taken sent c = IsAt taken sent c

    pub compress-IsAt :
        (taken sent bs : List ℕ) (c : Compressor d max) (last : Bool)
        → IsAt taken sent c
        → Post (λ r. IsAt (taken ++ take r.0 bs) sent r.1) (compress d max c bs last)
    unfolding compress
    compress-IsAt taken sent bs c last v =
        let r = d.deflate c.strm bs (max - length c.out) last in
        let at : (more : Bool)
            → IsAt (taken ++ take (length bs - length r.avail_in) bs) sent
                (record { strm = r.strm; out = c.out ++ r.out; need_more_memory_for_tail = more }) =
          λ more. record {
            reached =
                subst (λ w. Deflated s (taken ++ take (length bs - length r.avail_in) bs) w r.strm)
                  (append_assoc sent c.out r.out)
                  (called bs (max - length c.out) last r refl v.reached);
            short = omega (
              arith,
              v.short,
              (honest c.strm bs (max - length c.out) last).1,
              length-append c.out r.out,
            );
          } in
        let more = last && is_ok r.ret in
        let c2 : Compressor d max = record {
          strm = r.strm;
          out = c.out ++ r.out;
          need_more_memory_for_tail = more;
        } in
        Post-assert {A = ℕ × Compressor d max} (λ x. IsAt (taken ++ take x.0 bs) sent x.1)
          (not (is_stream_error r.ret)) (ok (length bs - length r.avail_in, c2)) (λ e. at more)

    pub reset_out-IsAt :
        (taken sent : List ℕ) (c : Compressor d max)
        → IsAt taken sent c
        → IsAt taken (sent ++ c.out) (reset_out d max c)
    unfolding reset_out
    reset_out-IsAt taken sent c v = record {
      reached = subst (λ w. Deflated s taken w c.strm) (sym (append-nil (sent ++ c.out))) v.reached;
      short = omega arith;
    }

    pub send_tail-IsEnded :
        (taken sent : List ℕ) (c : Compressor d max)
        → IsAt taken sent c
        → Post (λ ps. IsEnded taken (sent ++ contents ps)) (send_tail d max c)
    unfolding send_tail is_full
    send_tail-IsEnded taken sent c v =
        let next = compress d max (reset_out d max c) [] true >>= λ r.
        ok (compressed d max c max false ∷ compressed d max r.1 (length r.1.out) true ∷ []) in
        Post-if (λ ps. IsEnded taken (sent ++ contents ps)) c.need_more_memory_for_tail
          (assert (length c.out == max) >> next) (ok (compressed d max c (length c.out) true ∷ []))
          (λ e.
            Post-assert (λ ps. IsEnded taken (sent ++ contents ps)) (length c.out == max) next
              (λ full.
                Post-bind (λ r. IsAt (taken ++ take r.0 []) (sent ++ c.out) r.1)
                  (λ ps. IsEnded taken (sent ++ contents ps))
                  (compress d max (reset_out d max c) [] true)
                  (λ r. ok (
                    compressed d max c max false ∷ compressed d max r.1 (length r.1.out) true ∷ []))
                  (compress-IsAt taken (sent ++ c.out) [] (reset_out d max c) true
                    (reset_out-IsAt taken sent c v))
                  (λ r w. two r.0 r.1 ((==_iff (length c.out) max).0 full) w)))
          (λ e. (
            c.strm,
            subst (λ k. Deflated s taken (sent ++ k) c.strm) (sym (last_one c v.short)) v.reached,
          ))
      where
        last_one :
            (t : Compressor d max)
            → length t.out ≤ max
            → contents (compressed d max t (length t.out) true ∷ []) ≡ t.out
        last_one t h = contents_compressed t true (length t.out) [] refl h ∙ append-nil t.out

        take_none : (n : ℕ) → taken ++ take n [] ≡ taken
        take_none n = ap (λ k. taken ++ k) (take_all n [] (omega arith)) ∙ append-nil taken

        two :
            (n : ℕ) (t : Compressor d max)
            → length c.out ≡ max
            → IsAt (taken ++ take n []) (sent ++ c.out) t
            → IsEnded taken (
                sent
                ++ contents
                    (compressed d max c max false ∷ compressed d max t (length t.out) true ∷ []))
        two n t full w =
            let both : contents
                  (compressed d max c max false ∷ compressed d max t (length t.out) true ∷ [])
                ≡ c.out ++ t.out =
              contents_compressed c false max (compressed d max t (length t.out) true ∷ []) full
                (omega arith)
              ∙ ap (λ k. c.out ++ k) (last_one t w.short) in
            (
              t.strm,
              subst (λ k. Deflated s taken k t.strm)
                  (append_assoc sent c.out t.out ∙ ap (λ k. sent ++ k) (sym both))
                  (subst (λ k. Deflated s k (sent ++ c.out ++ t.out) t.strm) (take_none n)
                    w.reached),
            )
