-- ===== src/Serializer/Deflated/Round.antt =====
-- A round of the loop of `CompressBuf` (common/OSerializer.cpp).
use oldpart.Base.{
  ℕ, ◌≡◌, refl, sym, subst, ◌∙◌, Bool, true, false, not, ◌&&◌, ◌||◌, List, [], ◌∷◌, ◌++◌,
  append-nil, length, take, drop, ltb, ◌==◌, ==_iff, if◌then◌else◌, Outcome, ok, ◌>>=◌, arith,
}
use oldpart.Serializer.Returned.{Post, Post-bind, Post-map, Post-assert, Post-if}
use oldpart.Proto.Write.{BufT}
use oldpart.Serializer.Compress.{
  Deflate, Compressor, is_full, compress, compressed, send_tail, after_compress, compress_round,
  reset_out,
}
use oldpart.Serializer.Deflated.{
  IsHonest, contents, contents_compressed, IsAt, IsEnded, Result, compress-IsAt, reset_out-IsAt,
  send_tail-IsEnded,
}

module _ (d : Deflate) (max : ℕ) (honest : IsHonest d max) (s : d.Strm) where
  after_compress-Result :
      (last : Bool) (taken sent bs : List ℕ) (n : ℕ) (c : Compressor d max)
      → IsAt d max honest s (taken ++ take n bs) sent c
      → Post
          (λ t.
            (t.0 ≡ drop n bs)
            × Result d max honest s
                (last && (length t.0 == 0))
                (taken ++ take n bs)
                (sent ++ contents t.1)
                t.2)
          (after_compress d max last bs n c)
  unfolding after_compress is_full
  after_compress-Result last taken sent bs n c v =
      Post-assert (Kept last) (ltb 0 n) (continued last (length (drop n bs) == 0))
        (λ e. go last (length (drop n bs) == 0) refl)
    where
      Kept : Bool → List ℕ × List BufT × Compressor d max → Type 0
      Kept z t =
          (t.0 ≡ drop n bs)
          × Result d max honest s (z && (length t.0 == 0)) (taken ++ take n bs)
              (sent ++ contents t.1) t.2

      continued : Bool → Bool → Outcome (List ℕ × List BufT × Compressor d max)
      continued z none_left =
          let tail = send_tail d max c >>= λ ps. ok (drop n bs, ps, c) in
          if (not z || not none_left) && (length c.out == max)
          then ok (drop n bs, compressed d max c max false ∷ [], reset_out d max c)
          else (if z && none_left then tail else ok (drop n bs, [], c))

      before_end :
          (z : Bool)
          → (z && (length (drop n bs) == 0)) ≡ false
          → Post (Kept z) (
              if length c.out == max
              then ok (drop n bs, compressed d max c max false ∷ [], reset_out d max c)
              else ok (drop n bs, [], c))
      before_end z flag =
          Post-if (Kept z) (length c.out == max)
            (ok (drop n bs, compressed d max c max false ∷ [], reset_out d max c))
            (ok (drop n bs, [], c))
            (λ full.
              let sends : contents (compressed d max c max false ∷ []) ≡ c.out =
                contents_compressed d max c false max [] ((==_iff (length c.out) max).0 full)
                  (omega arith)
                ∙ append-nil c.out in
              (
                refl,
                subst
                    (λ b.
                      Result d max honest s b (taken ++ take n bs)
                        (sent ++ contents (compressed d max c max false ∷ [])) (reset_out d max c))
                    (sym flag)
                    (subst
                      (λ k.
                        IsAt d max honest s (taken ++ take n bs) (sent ++ k) (reset_out d max c))
                      (sym sends) (reset_out-IsAt d max honest s (taken ++ take n bs) sent c v)),
              ))
            (λ e. (
              refl,
              subst (λ b. Result d max honest s b (taken ++ take n bs) (sent ++ []) c) (sym flag)
                  (subst (λ k. IsAt d max honest s (taken ++ take n bs) k c) (sym (append-nil sent))
                    v),
            ))

      go :
          (z none_left : Bool)
          → (length (drop n bs) == 0) ≡ none_left
          → Post (Kept z) (continued z none_left)
      go true true e =
          Post-bind (λ ps. IsEnded d max honest s (taken ++ take n bs) (sent ++ contents ps))
            (Kept true) (send_tail d max c) (λ ps. ok (drop n bs, ps, c))
            (send_tail-IsEnded d max honest s (taken ++ take n bs) sent c v)
            (λ ps w. (
              refl,
              subst (λ b. Result d max honest s b (taken ++ take n bs) (sent ++ contents ps) c)
                  (sym e) w,
            ))
      go true false e = before_end true e
      go false none_left e = before_end false refl

  pub compress_round-Result :
      (last : Bool) (taken sent bs : List ℕ) (c : Compressor d max)
      → IsAt d max honest s taken sent c
      → Post
          (λ t.
            (k : ℕ) × (t.0 ≡ drop k bs)
            × Result d max honest s
                (last && (length t.0 == 0))
                (taken ++ take k bs)
                (sent ++ contents t.1)
                t.2)
          (compress_round d max last bs c)
  unfolding compress_round
  compress_round-Result last taken sent bs c v =
      Post-bind (λ r. IsAt d max honest s (taken ++ take r.0 bs) sent r.1)
        (λ t.
          (k : ℕ) × (t.0 ≡ drop k bs)
          × Result d max honest s (last && (length t.0 == 0)) (taken ++ take k bs)
              (sent ++ contents t.1) t.2)
        (compress d max c bs last) (λ r. after_compress d max last bs r.0 r.1)
        (compress-IsAt d max honest s taken sent bs c last v)
        (λ r w.
          Post-map
            (λ t.
              (t.0 ≡ drop r.0 bs)
              × Result d max honest s (last && (length t.0 == 0)) (taken ++ take r.0 bs)
                  (sent ++ contents t.1) t.2)
            (λ t.
              (k : ℕ) × (t.0 ≡ drop k bs)
              × Result d max honest s (last && (length t.0 == 0)) (taken ++ take k bs)
                  (sent ++ contents t.1) t.2)
            (after_compress d max last bs r.0 r.1)
            (after_compress-Result last taken sent bs r.0 r.1 w) (λ t q. (r.0, q.0, q.1)))
