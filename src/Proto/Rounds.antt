-- ===== src/Proto/Rounds.antt =====
-- The rounds of the loops that read a string or a stream (common/OProtoBase.h, opp/IOStream.cpp).
use oldpart.Base.{
  ℕ, zero, suc, ◌+◌, ◌-◌, ◌≤◌, min, ◌≡◌, ◌≢◌, sym, ap, ◌∙◌, true, false, Option, none, some, List,
  [], ◌∷◌, ◌++◌, append-nil, append_assoc, arith, length, take, drop, concat, ok, ◌==◌, Bool-cases,
  inl, inr, ==_iff, take-append-drop, length-take, length-drop, length-append, drop_all,
}
use oldpart.Proto.Read.{Reader, get, pull, read_round, read_loop}
use oldpart.Proto.Chunks.{IsChunked-tail, Inv, Reads, left, left_in, Taken, take_here}

module _ (w least : ℕ) where
  pub record IsFetched (len : ℕ) (bs rest : List ℕ) (i : Reader) : Type 0 where
    pub readable : ℕ
    pub out : Reader
    pub returns : read_round len i ≡ ok (readable, take readable bs, out)
    pub within : readable ≤ len
    pub progress : length out.source + 1 ≤ readable + length i.source
    pub inv : Inv w least out
    pub remains : left out ≡ drop readable bs ++ rest

  -- A round on the chunk at hand, after the next was fetched if need be.
  round_here :
      (c : List ℕ) (offset len : ℕ) (more : List (List ℕ)) (bs rest : List ℕ)
      → offset ≤ length c
      → length bs ≡ len
      → drop offset c ++ concat more ≡ bs ++ rest
      → let k = min len (length c - offset) in Taken c offset k more (take k bs) (drop k bs ++ rest)
  round_here c offset len more bs rest inside h e =
      let k : ℕ = min len (length c - offset) in
      take_here c offset k more (take k bs) (drop k bs ++ rest) inside
        (omega (arith, length-take k bs)) (omega arith)
        (e
          ∙ ap (λ t. t ++ rest) (sym (take-append-drop k bs))
          ∙ append_assoc (take k bs) (drop k bs) rest)

  round_same :
      (source : List (List ℕ)) (b : List ℕ) (offset len : ℕ) (bs rest : List ℕ)
      → Inv w least (record { source = source; buf = some b; offset = offset })
      → 1 ≤ len
      → length bs ≡ len
      → (length b == offset) ≡ false
      → drop offset b ++ concat (drop 1 source) ≡ bs ++ rest
      → IsFetched len bs rest (record { source = source; buf = some b; offset = offset })
  unfolding read_round
  round_same source b offset len bs rest v many h ne e =
      let k : ℕ = min len (length b - offset) in
      let out : Reader = record { source = source; buf = some b; offset = offset + k } in
      let t = round_here b offset len (drop 1 source) bs rest v.inside h e in
      let inside : offset ≤ length b = v.inside in
      let apart : length b ≢ offset = ground arith in
      record {
        readable = k;
        out = out;
        returns = rw ne (ap (λ p. ok (k, p, out)) t.piece);
        within = omega arith;
        progress = omega arith;
        inv = record { inside = t.inside; chunked = v.chunked };
        remains = t.remains;
      }

  round_next :
      (source : List (List ℕ)) (b : List ℕ) (offset len : ℕ) (bs rest : List ℕ)
      → Inv w least (record { source = source; buf = some b; offset = offset })
      → 1 ≤ len
      → length bs ≡ len
      → (length b == offset) ≡ true
      → drop offset b ++ concat (drop 1 source) ≡ bs ++ rest
      → IsFetched len bs rest (record { source = source; buf = some b; offset = offset })
  unfolding read_round pull get
  round_next [] b offset len bs rest v many h at_end e = absurd (
      omega (
        arith,
        (==_iff (length b) offset).0 at_end,
        ap length e,
        length-append bs rest,
        length-append (drop offset b) [],
        length-drop offset b,
      ))
  round_next (x ∷ []) b offset len bs rest v many h at_end e = absurd (
      omega (
        arith,
        (==_iff (length b) offset).0 at_end,
        ap length e,
        length-append bs rest,
        length-append (drop offset b) [],
        length-drop offset b,
      ))
  round_next (x ∷ y ∷ more) b offset len bs rest v many h at_end e =
      let here : length b ≡ offset = (==_iff (length b) offset).0 at_end in
      let k : ℕ = min len (length y - 0) in
      let out : Reader = record { source = y ∷ more; buf = some y; offset = 0 + k } in
      let e1 : y ++ concat more ≡ bs ++ rest =
        ap (λ t. t ++ (y ++ concat more)) (sym (drop_all offset b (omega arith))) ∙ e in
      let t = round_here y 0 len more bs rest (omega arith) h e1 in
      record {
        readable = k;
        out = out;
        returns = rw at_end (ap (λ p. ok (k, p, out)) t.piece);
        within = omega arith;
        progress = omega arith;
        inv = record { inside = t.inside; chunked = IsChunked-tail w least y more v.chunked };
        remains = t.remains;
      }

  round_by_cases :
      (source : List (List ℕ)) (ob : Option (List ℕ)) (offset len : ℕ) (bs rest : List ℕ)
      → Inv w least (record { source = source; buf = ob; offset = offset })
      → 1 ≤ len
      → length bs ≡ len
      → left_in ob offset source ≡ bs ++ rest
      → IsFetched len bs rest (record { source = source; buf = ob; offset = offset })
  round_by_cases source none offset len bs rest v many h e = absurd v.inside
  round_by_cases source (some b) offset len bs rest v many h e =
      elim (Bool-cases (length b == offset)) [
        | inl at_end ↦ round_next source b offset len bs rest v many h at_end e
        | inr ne ↦ round_same source b offset len bs rest v many h ne e
      ]

  -- The loop of the string and of `IOStream` appends the next `len` bytes: it ends, since each
  -- round takes a byte or a chunk.
  pub read_loop-Reads :
      (fuel len : ℕ) (acc : List ℕ) (i : Reader) (bs rest : List ℕ)
      → len + length i.source ≤ fuel
      → Inv w least i
      → length bs ≡ len
      → left i ≡ bs ++ rest
      → Reads w least (acc ++ bs) rest (read_loop fuel len acc i)
  unfolding read_loop
  read_loop-Reads fuel zero acc i [] rest enough v h e = record {
    out = i;
    returns = ap (λ t. ok (t, i)) (sym (append-nil acc));
    inv = v;
    remains = e;
  }
  read_loop-Reads fuel zero acc i (x ∷ bs) rest enough v h e = absurd (omega arith)
  read_loop-Reads zero (suc len) acc i bs rest enough v h e = absurd (omega arith)
  read_loop-Reads (suc fuel) (suc len) acc i bs rest enough v h e =
      let r = round_by_cases i.source i.buf i.offset (suc len) bs rest v (omega arith) h e in
      let k = r.readable in
      let l =
        read_loop-Reads fuel (suc len - k) (acc ++ take k bs) r.out (drop k bs) rest
          (omega (arith, r.progress, r.within)) r.inv (omega (arith, length-drop k bs)) r.remains in
      rw r.returns (record {
        out = l.out;
        returns =
            l.returns
            ∙ ap (λ t. ok (t, l.out))
                (append_assoc acc (take k bs) (drop k bs)
                  ∙ ap (λ t. acc ++ t) (take-append-drop k bs));
        inv = l.inv;
        remains = l.remains;
      })
