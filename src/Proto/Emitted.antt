-- ===== src/Proto/Emitted.antt =====
-- The writing state (common/OProtoBase.cpp): the bytes that have been emitted.
use oldpart.Base.{
  ℕ, ◌≤◌, ◌≡◌, refl, sym, ap, ◌∙◌, false, Option, none, some, List, [], ◌∷◌, ◌++◌, map, append-nil,
  append_assoc, length, take, concat, Outcome, ok, ◌>>=◌, concat-append,
}
use mathlib.Core.List.{map-append}
use oldpart.Proto.Types.{All}
use oldpart.Proto.Write.{Buf, BufT, Writer}

pub All-append {ℓ κ} :
    {A : Type ℓ} (P : A → Type κ) (front back : List A)
    → All P front
    → All P back
    → All P (front ++ back)
All-append P [] back f b = b
All-append P (item ∷ front) back f b = (f.0, All-append P front back f.1 b)

-- the bytes that a yielded buffer carries
abbrev pub payload : BufT → List ℕ
payload p = take p.buf.buf_len p.buf.buf

abbrev pub payloads : List BufT → List ℕ
payloads ps = concat (map payload ps)

abbrev pub pending : Option Buf → ℕ → List ℕ
pending none offset = []
pending (some b) offset = take offset b.buf

abbrev pub written : Writer → List ℕ
written o = payloads o.sent ++ pending o.buf o.offset

pub payloads-append :
    (ps : List BufT) (p : BufT) → payloads (ps ++ (p ∷ [])) ≡ payloads ps ++ payload p
payloads-append ps p =
    ap concat (map-append payload ps (p ∷ []))
    ∙ concat-append (map payload ps) (payload p ∷ [])
    ∙ ap (λ t. payloads ps ++ t) (append-nil (payload p))

-- The current buffer has its full size, and the offset lies inside it.
abbrev pub IsCurrent : ℕ → Option Buf → ℕ → Type 0
IsCurrent max none offset = Unit
IsCurrent max (some b) offset = (length b.buf ≡ max) × (b.buf_len ≡ max) × (offset ≤ max)

-- The buffer has its full size, and its used length lies inside it.
abbrev pub IsWhole : ℕ → BufT → Type 0
IsWhole max p = (length p.buf.buf ≡ max) × (p.buf.buf_len ≤ max)

-- A buffer that is not the last carries at least `w` bytes.
abbrev pub IsWide : ℕ → ℕ → BufT → Type 0
IsWide w max p = (w ≤ length (payload p)) × (p.is_last ≡ false) × IsWhole max p

pub record Inv (w max : ℕ) (o : Writer) : Type 0 where
  pub current : IsCurrent max o.buf o.offset
  pub wide : All (IsWide w max) o.sent

abbrev pub HasBuf : Option Buf → Type 0
HasBuf none = ⊥
HasBuf (some b) = Unit

-- The step succeeds, keeps the invariant, adds `bs`, and leaves a buffer allocated.
pub record Adds (w max : ℕ) (o : Writer) (bs : List ℕ) (r : Outcome Writer) : Type 0 where
  pub out : Writer
  pub returns : r ≡ ok out
  pub inv : Inv w max out
  pub held : HasBuf out.buf
  pub bytes : written out ≡ written o ++ bs

pub Adds-nothing : {w max : ℕ} {o : Writer} → Inv w max o → HasBuf o.buf → Adds w max o [] (ok o)
Adds-nothing {o} v h = record {
  out = o;
  returns = refl;
  inv = v;
  held = h;
  bytes = sym (append-nil (written o));
}

pub Adds-bytes :
    {w max : ℕ} {o : Writer} {bs cs : List ℕ} {r : Outcome Writer}
    → bs ≡ cs
    → Adds w max o bs r
    → Adds w max o cs r
Adds-bytes {o = o} e a = record {
  out = a.out;
  returns = a.returns;
  inv = a.inv;
  held = a.held;
  bytes = a.bytes ∙ ap (λ t. written o ++ t) e;
}

pub Adds->>= :
    {w max : ℕ} {o : Writer} (bs cs : List ℕ) (m : Outcome Writer) (f : Writer → Outcome Writer)
    → Adds w max o bs m
    → ((o1 : Writer) → Inv w max o1 → HasBuf o1.buf → Adds w max o1 cs (f o1))
    → Adds w max o (bs ++ cs) (m >>= f)
Adds->>= {o} bs cs m f a k =
    let b = k a.out a.inv a.held in
    record {
      out = b.out;
      returns = ap (λ r. r >>= f) a.returns ∙ b.returns;
      inv = b.inv;
      held = b.held;
      bytes = b.bytes ∙ ap (λ t. t ++ cs) a.bytes ∙ append_assoc (written o) bs cs;
    }

-- Where the writer before the step has the same bytes written, the step adds the same.
pub Adds-from :
    {w max : ℕ} {o o1 : Writer} {bs : List ℕ} {r : Outcome Writer}
    → written o1 ≡ written o
    → Adds w max o1 bs r
    → Adds w max o bs r
Adds-from {bs = bs} e a = record {
  out = a.out;
  returns = a.returns;
  inv = a.inv;
  held = a.held;
  bytes = a.bytes ∙ ap (λ t. t ++ bs) e;
}
