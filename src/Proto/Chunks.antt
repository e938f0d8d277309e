-- ===== src/Proto/Chunks.antt =====
-- The reading state and its primitive steps (common/OProtoBase.h) over chunks.
use oldpart.Base.{
  ℕ, ◌+◌, ◌-◌, ◌≤◌, ◌<◌, ◌≡◌, refl, sym, ap, ◌∙◌, Option, none, some, List, [], ◌∷◌, ◌++◌,
  append-nil, append_assoc, arith, length, take, drop, concat, Outcome, ok, leb, Bool-cases, inl,
  inr, leb→le, leb→lt, le→leb, lt→leb, take-append-drop, drop-drop, append_cancel, length-take,
  length-drop, length-append,
}
use oldpart.Proto.Read.{Reader, get, pull, read_bytes}

-- Every chunk but the last holds at least `w` bytes, and the last `least`.
abbrev pub IsChunked : ℕ → ℕ → List (List ℕ) → Type 0
IsChunked w least [] = Unit
IsChunked w least (x ∷ []) = least ≤ length x
IsChunked w least (x ∷ y ∷ r) = (w ≤ length x) × IsChunked w least (y ∷ r)

abbrev pub left_in : Option (List ℕ) → ℕ → List (List ℕ) → List ℕ
left_in none offset source = concat source
left_in (some b) offset source = drop offset b ++ concat (drop 1 source)

-- what is still to be read
abbrev pub left : Reader → List ℕ
left i = left_in i.buf i.offset i.source

abbrev pub IsInside : Option (List ℕ) → ℕ → Type 0
IsInside none offset = ⊥
IsInside (some b) offset = offset ≤ length b

-- A chunk is at hand, and those to come are wide.
pub record Inv (w least : ℕ) (i : Reader) : Type 0 where
  pub inside : IsInside i.buf i.offset
  pub chunked : IsChunked w least (drop 1 i.source)

pub record Reads {ℓ} {A : Type ℓ} (w least : ℕ) (v : A) (rest : List ℕ) (m : Outcome (A × Reader))
    : Type ℓ where
  pub out : Reader
  pub returns : m ≡ ok (v, out)
  pub inv : Inv w least out
  pub remains : left out ≡ rest

pub IsChunked-tail :
    (w least : ℕ) (y : List ℕ) (more : List (List ℕ))
    → IsChunked w least (y ∷ more)
    → IsChunked w least more
IsChunked-tail w least y [] c = tt
IsChunked-tail w least y (z ∷ more) c = c.1

-- A chunk of which `k ≤ w` bytes are wanted, and are there, holds them.
wanted-le-length :
    (w least k : ℕ) (y : List ℕ) (more : List (List ℕ))
    → IsChunked w least (y ∷ more)
    → k ≤ w
    → k ≤ length (y ++ concat more)
    → k ≤ length y
wanted-le-length w least k y [] c small h = omega (arith, ap length (append-nil y))
wanted-le-length w least k y (z ∷ more) c small h = omega (arith, c.0)

-- The next `n` bytes stand in the chunk at hand.
pub record Taken (b : List ℕ) (offset n : ℕ) (more : List (List ℕ)) (bs rest : List ℕ)
    : Type 0 where
  pub piece : take n (drop offset b) ≡ bs
  pub inside : offset + n ≤ length b
  pub remains : drop (offset + n) b ++ concat more ≡ rest

pub take_here :
    (b : List ℕ) (offset n : ℕ) (more : List (List ℕ)) (bs rest : List ℕ)
    → offset ≤ length b
    → length bs ≡ n
    → n ≤ length b - offset
    → drop offset b ++ concat more ≡ bs ++ rest
    → Taken b offset n more bs rest
take_here b offset n more bs rest inside len fits e =
    let d : List ℕ = drop offset b in
    let parts =
      append_cancel (take n d) (drop n d ++ concat more) bs rest
        (omega (arith, length-take n d, length-drop offset b))
        (sym (append_assoc (take n d) (drop n d) (concat more))
          ∙ ap (λ t. t ++ concat more) (take-append-drop n d)
          ∙ e) in
    record {
      piece = parts.0;
      inside = omega arith;
      remains = ap (λ t. t ++ concat more) (sym (drop-drop offset n (offset + n) b refl)) ∙ parts.1;
    }

module _ (w least : ℕ) where
  -- the POD stands in the current chunk
  read_here :
      (source : List (List ℕ)) (b : List ℕ) (offset n : ℕ) (bs rest : List ℕ)
      → Inv w least (record { source = source; buf = some b; offset = offset })
      → length bs ≡ n
      → n ≤ length b - offset
      → drop offset b ++ concat (drop 1 source) ≡ bs ++ rest
      → Reads w least bs rest (
          ok
            (take n (drop offset b), record { source = source; buf = some b; offset = offset + n }))
  read_here source b offset n bs rest v len fits e =
      let t = take_here b offset n (drop 1 source) bs rest v.inside len fits e in
      let out : Reader = record { source = source; buf = some b; offset = offset + n } in
      record {
        out = out;
        returns = ap (λ p. ok (p, out)) t.piece;
        inv = record { inside = t.inside; chunked = v.chunked };
        remains = t.remains;
      }

  -- the POD is split over the current chunk and the next
  read_across :
      (source : List (List ℕ)) (b : List ℕ) (offset n : ℕ) (bs rest : List ℕ)
      → Inv w least (record { source = source; buf = some b; offset = offset })
      → length bs ≡ n
      → n ≤ w
      → length b - offset < n
      → drop offset b ++ concat (drop 1 source) ≡ bs ++ rest
      → Reads w least bs rest
          (read_bytes n (record { source = source; buf = some b; offset = offset }))
  unfolding read_bytes pull get
  read_across [] b offset n bs rest v len small short e = absurd (
      omega (
        arith,
        ap length e ∙ length-append bs rest,
        length-append (drop offset b) [],
        length-drop offset b,
      ))
  read_across (x ∷ []) b offset n bs rest v len small short e = absurd (
      omega (
        arith,
        ap length e ∙ length-append bs rest,
        length-append (drop offset b) [],
        length-drop offset b,
      ))
  read_across (x ∷ y ∷ more) b offset n bs rest v len small short e =
      let d : List ℕ = drop offset b in
      let k : ℕ = n - (length b - offset) in
      let inside : offset ≤ length b = v.inside in
      let len_d : length d ≡ length b - offset = length-drop offset b in
      let total : length d + length (y ++ concat more) ≡ length bs + length rest =
        omega (arith, ap length e, length-append bs rest, length-append d (y ++ concat more)) in
      let enough : k ≤ length y =
        wanted-le-length w least k y more v.chunked (omega arith) (omega (arith, total, len_d)) in
      let parts =
        append_cancel (d ++ take k y) (drop k y ++ concat more) bs rest
          (omega (arith, length-append d (take k y), length-take k y, len_d))
          (append_assoc d (take k y) (drop k y ++ concat more)
            ∙ ap (λ t. d ++ t)
                (sym (append_assoc (take k y) (drop k y) (concat more))
                  ∙ ap (λ t. t ++ concat more) (take-append-drop k y))
            ∙ e) in
      let out : Reader = record { source = y ∷ more; buf = some y; offset = k } in
      rw (lt→leb n (length b - offset) short, le→leb k (length y) enough)
        (record {
          out = out;
          returns = ap (λ t. ok (t, out)) parts.0;
          inv = record { inside = enough; chunked = IsChunked-tail w least y more v.chunked };
          remains = parts.1;
        })

  read_from :
      (source : List (List ℕ)) (ob : Option (List ℕ)) (offset n : ℕ) (bs rest : List ℕ)
      → Inv w least (record { source = source; buf = ob; offset = offset })
      → length bs ≡ n
      → n ≤ w
      → left_in ob offset source ≡ bs ++ rest
      → Reads w least bs rest (read_bytes n (record { source = source; buf = ob; offset = offset }))
  unfolding read_bytes
  read_from source none offset n bs rest v len small e = absurd v.inside
  read_from source (some b) offset n bs rest v len small e =
      elim (Bool-cases (leb n (length b - offset))) [
        | inl fits ↦
            rw fits
              (read_here source b offset n bs rest v len (leb→le n (length b - offset) fits) e)
        | inr short ↦
            read_across source b offset n bs rest v len small (leb→lt n (length b - offset) short) e
      ]

  -- The next `n` bytes are read, also where a chunk ends between them.
  pub read_bytes-Reads :
      (i : Reader) (n : ℕ) (bs rest : List ℕ)
      → Inv w least i
      → length bs ≡ n
      → n ≤ w
      → left i ≡ bs ++ rest
      → Reads w least bs rest (read_bytes n i)
  read_bytes-Reads i n bs rest = read_from i.source i.buf i.offset n bs rest
