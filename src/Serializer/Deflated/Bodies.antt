-- ===== src/Serializer/Deflated/Bodies.antt =====
-- The loops of `CompressBuf` (common/OSerializer.cpp) over the bytes of a buffer and over buffers.
use oldpart.Base.{
  ℕ, zero, suc, ◌<◌, ◌≡◌, refl, sym, ap, subst, ◌∙◌, Bool, true, false, ◌&&◌, Option, none, some,
  List, [], ◌∷◌, ◌++◌, append-nil, append_assoc, length, take, drop, take-append-drop, leb, ◌==◌,
  ok, err, thrown, ◌>>=◌, arith,
}
use oldpart.Serializer.Returned.{Post, Post-bind, Post-map, Post-assert}
use oldpart.Proto.Write.{BufT}
use oldpart.Serializer.Compress.{
  Deflate, Compressor, make_compressor, compress_round, compress_body, compress_bodies,
  compress_buf,
}
use oldpart.Serializer.Deflated.Round.{compress_round-Result}
use oldpart.Serializer.Deflated.{
  contents, contents-append, IsHonest, Deflated, begun, IsAt, IsEnded, Result,
}

abbrev is_some : List ℕ → Bool
is_some [] = false
is_some (b ∷ bs) = true

and_true : (b : Bool) → (b && true) ≡ b
and_true true = refl
and_true false = refl

and_false : (b : Bool) → (b && false) ≡ false
and_false true = refl
and_false false = refl

has_bytes : (bs : List ℕ) → 0 < length bs → is_some bs ≡ true
has_bytes [] h = absurd (omega arith)
has_bytes (b ∷ bs) h = refl

-- The last buffer alone is marked, and it has bytes.
abbrev pub IsMarked : List BufT → Type 0
IsMarked [] = ⊥
IsMarked (p ∷ []) = (p.is_last ≡ true) × (0 < length (take p.buf.buf_len p.buf.buf))
IsMarked (p ∷ q ∷ ps) = (p.is_last ≡ false) × IsMarked (q ∷ ps)

module _ (d : Deflate) (max : ℕ) (honest : IsHonest d max) (s : d.Strm) where
  Result-eq :
      (z y : Bool) (taken taken2 sent sent2 : List ℕ) (c : Compressor d max)
      → z ≡ y
      → taken ≡ taken2
      → sent ≡ sent2
      → Result d max honest s z taken sent c
      → Result d max honest s y taken2 sent2 c
  Result-eq z y taken taken2 sent sent2 c e f g r =
      subst (λ b. Result d max honest s b taken2 sent2 c) e
        (subst (λ k. Result d max honest s z k sent2 c) f
          (subst (λ k. Result d max honest s z taken k c) g r))

  -- a loop's outcome, with what it sends after these bytes
  abbrev Sends : Bool → List ℕ → List ℕ → List BufT × Compressor d max → Type 0
  Sends z taken sent q = Result d max honest s z taken (sent ++ contents q.0) q.1

  -- After a round the loop goes on with the bytes that are left.
  after_round :
      (fuel : ℕ) (last : Bool) (taken sent bs left : List ℕ) (ps : List BufT) (k : ℕ)
      (c : Compressor d max)
      → left ≡ drop k bs
      → Result d max honest s
          (last && (length left == 0))
          (taken ++ take k bs)
          (sent ++ contents ps)
          c
      → (IsAt d max honest s (taken ++ take k bs) (sent ++ contents ps) c
          → Post
              (Sends (last && is_some left) (taken ++ take k bs ++ left) (sent ++ contents ps))
              (compress_body d max fuel last left c))
      → Post
          (Sends last (taken ++ bs) sent)
          (compress_body d max fuel last left c >>= λ q. ok (ps ++ q.0, q.1))
  unfolding compress_body
  after_round fuel last taken sent bs left ps k c e r more = by_left left e r more
    where
      all_taken : taken ++ take k bs ++ drop k bs ≡ taken ++ bs
      all_taken =
          append_assoc taken (take k bs) (drop k bs) ∙ ap (λ w. taken ++ w) (take-append-drop k bs)

      all_sent : (qs : List BufT) → sent ++ contents ps ++ contents qs ≡ sent ++ contents (ps ++ qs)
      all_sent qs =
          append_assoc sent (contents ps) (contents qs)
          ∙ ap (λ w. sent ++ w) (sym (contents-append ps qs))

      by_left :
          (left : List ℕ)
          → left ≡ drop k bs
          → Result d max honest s
              (last && (length left == 0))
              (taken ++ take k bs)
              (sent ++ contents ps)
              c
          → (IsAt d max honest s (taken ++ take k bs) (sent ++ contents ps) c
              → Post
                  (Sends (last && is_some left) (taken ++ take k bs ++ left) (sent ++ contents ps))
                  (compress_body d max fuel last left c))
          → Post
              (Sends last (taken ++ bs) sent)
              (compress_body d max fuel last left c >>= λ q. ok (ps ++ q.0, q.1))
      by_left [] e r more =
          Result-eq (last && true) last (taken ++ take k bs) (taken ++ bs) (sent ++ contents ps)
            (sent ++ contents (ps ++ [])) c (and_true last)
            (sym (append-nil (taken ++ take k bs))
              ∙ ap (λ w. taken ++ take k bs ++ w) e
              ∙ all_taken)
            (sym (append-nil (sent ++ contents ps)) ∙ all_sent []) r
      by_left (x ∷ xs) e r more =
          let some_left : (length (x ∷ xs) == 0) ≡ false = ground arith in
          let at : IsAt d max honest s (taken ++ take k bs) (sent ++ contents ps) c =
            Result-eq (last && (length (x ∷ xs) == 0)) false (taken ++ take k bs)
              (taken ++ take k bs) (sent ++ contents ps) (sent ++ contents ps) c
              (ap (λ b. last && b) some_left ∙ and_false last) refl refl r in
          Post-bind (Sends (last && true) (taken ++ take k bs ++ (x ∷ xs)) (sent ++ contents ps))
            (Sends last (taken ++ bs) sent) (compress_body d max fuel last (x ∷ xs) c)
            (λ q. ok (ps ++ q.0, q.1)) (more at)
            (λ q w.
              Result-eq (last && true) last (taken ++ take k bs ++ (x ∷ xs)) (taken ++ bs)
                (sent ++ contents ps ++ contents q.0) (sent ++ contents (ps ++ q.0)) q.1
                (and_true last) (ap (λ w. taken ++ take k bs ++ w) e ∙ all_taken) (all_sent q.0) w)

  compress_body-Result :
      (fuel : ℕ) (last : Bool) (taken sent bs : List ℕ) (c : Compressor d max)
      → IsAt d max honest s taken sent c
      → Post (Sends (last && is_some bs) (taken ++ bs) sent) (compress_body d max fuel last bs c)
  unfolding compress_body
  compress_body-Result fuel last taken sent [] c v =
      Result-eq false (last && false) taken (taken ++ []) sent (sent ++ []) c (sym (and_false last))
        (sym (append-nil taken)) (sym (append-nil sent)) v
  compress_body-Result zero last taken sent (b ∷ bs) c v = tt
  compress_body-Result (suc fuel) last taken sent (b ∷ bs) c v =
      subst
        (λ z.
          Post (Sends z (taken ++ (b ∷ bs)) sent) (compress_body d max (suc fuel) last (b ∷ bs) c))
        (sym (and_true last))
        (Post-bind
          (λ t.
            (k : ℕ) × (t.0 ≡ drop k (b ∷ bs))
            × Result d max honest s (last && (length t.0 == 0)) (taken ++ take k (b ∷ bs))
                (sent ++ contents t.1) t.2)
          (Sends last (taken ++ (b ∷ bs)) sent) (compress_round d max last (b ∷ bs) c)
          (λ t. compress_body d max fuel last t.0 t.2 >>= λ q. ok (t.1 ++ q.0, q.1))
          (compress_round-Result d max honest s last taken sent (b ∷ bs) c v)
          (λ t w. after_round fuel last taken sent (b ∷ bs) t.0 t.1 w.0 t.2 w.1 w.2 (λ at.
            compress_body-Result fuel last (taken ++ take w.0 (b ∷ bs)) (sent ++ contents t.1) t.0
              t.2 at)))

  compress_bodies-IsEnded :
      (ps : List BufT) (taken sent : List ℕ) (c : Compressor d max)
      → IsMarked ps
      → IsAt d max honest s taken sent c
      → Post
          (λ qs. IsEnded d max honest s (taken ++ contents ps) (sent ++ contents qs))
          (compress_bodies d max ps c)
  unfolding compress_bodies
  compress_bodies-IsEnded [] taken sent c marked v = absurd marked
  compress_bodies-IsEnded (p ∷ []) taken sent c marked v =
      let bs = take p.buf.buf_len p.buf.buf in
      let Done : List BufT → Type 0 =
        λ qs. IsEnded d max honest s (taken ++ contents (p ∷ [])) (sent ++ contents qs) in
      let flag : (p.is_last && is_some bs) ≡ true =
        ap (λ z. z && is_some bs) marked.0 ∙ has_bytes bs marked.1 in
      Post-assert Done (leb p.buf.buf_len max)
        (compress_body d max p.buf.buf_len p.is_last bs c >>= λ q. ok (q.0 ++ []))
        (λ e.
          Post-bind (Sends (p.is_last && is_some bs) (taken ++ bs) sent) Done
            (compress_body d max p.buf.buf_len p.is_last bs c) (λ q. ok (q.0 ++ []))
            (compress_body-Result p.buf.buf_len p.is_last taken sent bs c v)
            (λ q w.
              Result-eq (p.is_last && is_some bs) true (taken ++ bs) (taken ++ contents (p ∷ []))
                (sent ++ contents q.0) (sent ++ contents (q.0 ++ [])) q.1 flag
                (ap (λ k. taken ++ k) (sym (append-nil bs)))
                (ap (λ k. sent ++ contents k) (sym (append-nil q.0))) w))
  compress_bodies-IsEnded (p ∷ p2 ∷ ps) taken sent c marked v =
      let bs = take p.buf.buf_len p.buf.buf in
      let rest = contents (p2 ∷ ps) in
      let Done : List BufT → Type 0 =
        λ qs. IsEnded d max honest s (taken ++ contents (p ∷ p2 ∷ ps)) (sent ++ contents qs) in
      let flag : (p.is_last && is_some bs) ≡ false = ap (λ z. z && is_some bs) marked.0 in
      Post-assert Done (leb p.buf.buf_len max)
        (compress_body d max p.buf.buf_len p.is_last bs c >>= λ q.
          compress_bodies d max (p2 ∷ ps) q.1 >>= λ rs. ok (q.0 ++ rs))
        (λ e.
          Post-bind (Sends (p.is_last && is_some bs) (taken ++ bs) sent) Done
            (compress_body d max p.buf.buf_len p.is_last bs c)
            (λ q. compress_bodies d max (p2 ∷ ps) q.1 >>= λ rs. ok (q.0 ++ rs))
            (compress_body-Result p.buf.buf_len p.is_last taken sent bs c v)
            (λ q w.
              Post-bind
                (λ rs.
                  IsEnded d max honest s (taken ++ bs ++ rest)
                    (sent ++ contents q.0 ++ contents rs))
                Done (compress_bodies d max (p2 ∷ ps) q.1) (λ rs. ok (q.0 ++ rs))
                (compress_bodies-IsEnded (p2 ∷ ps) (taken ++ bs) (sent ++ contents q.0) q.1 marked.1
                  (Result-eq (p.is_last && is_some bs) false (taken ++ bs) (taken ++ bs)
                    (sent ++ contents q.0) (sent ++ contents q.0) q.1 flag refl refl w))
                (λ rs u.
                  Result-eq true true (taken ++ bs ++ rest) (taken ++ contents (p ∷ p2 ∷ ps))
                    (sent ++ contents q.0 ++ contents rs) (sent ++ contents (q.0 ++ rs)) q.1 refl
                    (append_assoc taken bs rest)
                    (append_assoc sent (contents q.0) (contents rs)
                      ∙ ap (λ k. sent ++ k) (sym (contents-append q.0 rs)))
                    u)))

make_compressor-IsAt :
    (d : Deflate) (max level : ℕ) (honest : IsHonest d max)
    → Post
        (λ c. (s : d.Strm) × (d.init level ≡ some s) × IsAt d max honest s [] [] c)
        (make_compressor d max level)
unfolding make_compressor
make_compressor-IsAt d max level honest = by_init (d.init level) refl
  where
    by_init :
        (o : Option d.Strm)
        → d.init level ≡ o
        → Post {A = Compressor d max}
            (λ c. (s : d.Strm) × (d.init level ≡ some s) × IsAt d max honest s [] [] c)
            (elim o [
              | none ↦ err thrown
              | some s ↦ ok (record { strm = s; out = []; need_more_memory_for_tail = false })
            ])
    by_init none i = tt
    by_init (some s) i = (s, i, record { reached = begun s; short = omega arith })

-- When `CompressBuf` ends without a failed assertion, the calls of deflate have taken exactly the
-- bytes of the buffers, in order, on the stream that was set up for the level, and the buffers that
-- it sends carry exactly what these calls have written, in order. The last buffer alone is marked,
-- and it has bytes.
pub compress_buf-Deflated :
    (d : Deflate) (max level : ℕ) (ps qs : List BufT)
    → IsHonest d max
    → IsMarked ps
    → compress_buf d max level ps ≡ ok qs
    → (s : d.Strm) × (d.init level ≡ some s)
      × ((t : d.Strm) × Deflated d max s (contents ps) (contents qs) t)
unfolding compress_buf
compress_buf-Deflated d max level ps qs honest marked e =
    let Done : List BufT → Type 0 = λ rs.
      (s : d.Strm) × (d.init level ≡ some s)
      × ((t : d.Strm) × Deflated d max s (contents ps) (contents rs) t) in
    subst (Post Done) e (
      Post-bind (λ c. (s : d.Strm) × (d.init level ≡ some s) × IsAt d max honest s [] [] c) Done
        (make_compressor d max level) (λ c. compress_bodies d max ps c)
        (make_compressor-IsAt d max level honest)
        (λ c w.
          Post-map (λ rs. IsEnded d max honest w.0 (contents ps) (contents rs)) Done
            (compress_bodies d max ps c)
            (compress_bodies-IsEnded d max honest w.0 ps [] [] c marked w.2)
            (λ rs u. (w.0, w.1, u))))
