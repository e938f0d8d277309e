-- ===== src/Net/ContextPool.antt =====
-- common/IOContextPool.cpp: contexts handed out in turn.
pub mod Threads
use oldpart.Base.{
  ℕ, zero, suc, ◌+◌, ◌%◌, ◌<◌, ◌≡◌, refl, ap, ◌∙◌, Bool, true, false, some, List, [], ◌∷◌, map,
  arith, ◌==◌, if◌then◌else◌, length, get_elem?, Outcome, ok, err, thrown, ◌>>=◌, deref,
  get_elem?-eq-get_or, get_or, Bool-cases, inl, inr, ==_iff,
}
use native.Mathlib.Nat.{mod-eq_of_lt, mod-add-mod, mod_self}

-- A context is an identity, with whether `stop` was called on it.
pub record Context : Type 0 where
  pub id : ℕ
  pub stopped : Bool

pub record Pool : Type 0 where
  pub io_contexts : List Context
  pub next_io_context : ℕ

-- `n` new contexts from identity `i` on
unfoldable pub fresh : ℕ → ℕ → List Context
fresh i zero = []
fresh i (suc n) = record { id = i; stopped = false } ∷ fresh (i + 1) n

-- the constructor
unfoldable pub make : ℕ → Outcome Pool
make size =
    if size == 0
    then err thrown
    else ok (record { io_contexts = fresh 0 size; next_io_context = 0 })

abbrev pub stop_context : Context → Context
stop_context c = record c { stopped = true }

-- `Stop`
unfoldable pub stop : Pool → Pool
stop p = record p { io_contexts = map stop_context p.io_contexts }

-- `GetIOContext`
unfoldable pub get_io_context : Pool → Outcome (Context × Pool)
get_io_context p = do
  c ← deref (get_elem? p.io_contexts p.next_io_context)
  let next = p.next_io_context + 1
  ok (c, record p { next_io_context = if next == length p.io_contexts then 0 else next })

-- `k` calls of `GetIOContext`, and the identities they return
unfoldable pub get_many : ℕ → Pool → Outcome (List ℕ × Pool)
get_many zero p = ok ([], p)
get_many (suc k) p = do (c, q) ← get_io_context p; (ids, r) ← get_many k q; ok (c.id ∷ ids, r)

abbrev pub none_there : Context
none_there = record { id = 0; stopped = false }

-- `k` turns round a pool of `n`, from turn `i`
unfoldable pub turns : ℕ → ℕ → ℕ → List ℕ
turns n i zero = []
turns n i (suc k) = i % n ∷ turns n (i + 1) k

pub length-fresh : (i n : ℕ) → length (fresh i n) ≡ n
unfolding fresh
length-fresh i zero = refl
length-fresh i (suc n) = ap suc (length-fresh (i + 1) n)

id-fresh : (i n j : ℕ) → j < n → (get_or (fresh i n) j none_there).id ≡ i + j
unfolding fresh
id-fresh i zero j h = absurd (omega arith)
id-fresh i (suc n) zero h = omega arith
id-fresh i (suc n) (suc j) h = omega (arith, id-fresh (i + 1) n j (omega arith))

next_turn : (n i j : ℕ) → j < n → j ≡ i % n → (if j + 1 == n then 0 else j + 1) ≡ (i + 1) % n
next_turn n i j h e = elim (Bool-cases (j + 1 == n)) [
  | inl last ↦
      let l : j + 1 ≡ n = (==_iff (j + 1) n).0 last in
      rw last (omega (arith, wrap, mod_self n, ap (λ k. k % n) l))
  | inr more ↦ rw more (omega (arith, wrap, mod-eq_of_lt {n = j + 1} {m = n} (ground arith)))
]
  where
    wrap : (j + 1) % n ≡ (i + 1) % n
    wrap = ap (λ k. (k + 1) % n) e ∙ mod-add-mod i n 1

-- The position is that of the turn, and the contexts are the pool's.
record IsAt (n i : ℕ) (p : Pool) : Type 0 where
  contexts : p.io_contexts ≡ fresh 0 n
  next : p.next_io_context ≡ i % n

get_io_context-IsAt :
    (n i : ℕ) (p : Pool)
    → 0 < n
    → IsAt n i p
    → (c : Context) × (q : Pool) × (get_io_context p ≡ ok (c, q))
      × (c.id ≡ i % n)
      × IsAt n (i + 1) q
unfolding get_io_context
get_io_context-IsAt n i p pos v =
    let j : ℕ = p.next_io_context in
    let below : j < n = omega (arith, v.next) in
    let there = get_elem?-eq-get_or (fresh 0 n) j none_there (omega (arith, length-fresh 0 n)) in
    let e : get_elem? p.io_contexts j ≡ some (get_or (fresh 0 n) j none_there) =
      ap (λ l. get_elem? l j) v.contexts ∙ there in
    let len : length p.io_contexts ≡ n = ap length v.contexts ∙ length-fresh 0 n in
    (
      get_or (fresh 0 n) j none_there,
      record p { next_io_context = if j + 1 == length p.io_contexts then 0 else j + 1 },
      rw e,
      omega (arith, id-fresh 0 n j below, v.next),
      record {
        contexts = v.contexts;
        next = ap (λ k. if j + 1 == k then 0 else j + 1) len ∙ next_turn n i j below v.next;
      },
    )

get_many-turns :
    (k n i : ℕ) (p : Pool)
    → 0 < n
    → IsAt n i p
    → (q : Pool) × (get_many k p ≡ ok (turns n i k, q)) × IsAt n (i + k) q
unfolding get_many turns
get_many-turns zero n i p pos v = (
  p,
  refl,
  record { contexts = v.contexts; next = omega (arith, v.next, ap (λ t. t % n) (plus_zero i)) },
)
  where
    plus_zero : (t : ℕ) → t ≡ t + 0
    plus_zero t = omega arith
get_many-turns (suc k) n i p pos v =
    let (c, q, e, id, w) = get_io_context-IsAt n i p pos v in
    let (r, e2, w2) = get_many-turns k n (i + 1) q pos w in
    (
      r,
      rw (e, e2) (ap (λ t. ok (t ∷ turns n (i + 1) k, r)) id),
      record { contexts = w2.contexts; next = w2.next ∙ ap (λ t. t % n) (shift i k) },
    )
  where
    shift : (a b : ℕ) → a + 1 + b ≡ a + suc b
    shift a b = omega arith

-- A pool of one context or more hands them out round and round: the constructor succeeds, and
-- the calls of `GetIOContext` that follow it return the contexts 0, 1, …, n - 1, 0, 1, …, and
-- none of them fails.
pub round_robin :
    (n k : ℕ)
    → 0 < n
    → (p : Pool) × (q : Pool) × (make n ≡ ok p) × (get_many k p ≡ ok (turns n 0 k, q))
unfolding make
round_robin n k pos =
    let p : Pool = record { io_contexts = fresh 0 n; next_io_context = 0 } in
    let (q, e, w) = get_many-turns k n 0 p pos (record { contexts = refl; next = omega arith }) in
    (p, q, ground arith, e)
