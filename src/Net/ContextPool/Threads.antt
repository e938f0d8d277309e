-- ===== src/Net/ContextPool/Threads.antt =====
-- `IOContextPool::Run` (common/IOContextPool.cpp): a thread for each context, and the wait for all
-- of them, while other threads call `Stop`.
use mathlib.Core.List.{Mem, mem-cons_self, mem-cons_of_mem, not-mem-nil}
use oldpart.Base.{
  ℕ, zero, suc, ◌+◌, ◌-◌, ◌<◌, ◌≤◌, ◌≡◌, ◌⊎◌, inl, inr, refl, sym, ap, subst, ◌∙◌, true, false,
  some, List, [], ◌∷◌, length, map, get_elem?, arith, ◌==◌, ==_iff, Bool-cases,
}
use oldpart.Net.ContextPool.{Context, Pool, stop, stop_context, fresh, length-fresh}

-- A call of `Run` under way: the pool, how many threads have been started, for which contexts
-- `run` has returned, and how many threads have been joined.
pub record Running : Type 0 where
  pub pool : Pool
  pub started : ℕ
  pub finished : List ℕ
  pub joined : ℕ

abbrev pub size : Running → ℕ
size s = length s.pool.io_contexts

-- the call
abbrev pub begun : Pool → Running
begun p = record { pool = p; started = 0; finished = []; joined = 0 }

-- A step: the first loop starts a thread, some thread calls `Stop`, a context returns from `run`, or
-- the second loop has waited for its next thread. Documented: `run` of a context that has work to do
-- returns when it is stopped.
pub data Step : Running → Running → Type 0 where
  start : (s : Running) → s.started < size s → Step s (record s { started = s.started + 1 })
  stopped : (s : Running) → Step s (record s { pool = stop s.pool })
  finish :
      (s : Running) (i : ℕ) (c : Context)
      → i < s.started
      → get_elem? s.pool.io_contexts i ≡ some c
      → c.stopped ≡ true
      → Step s (record s { finished = i ∷ s.finished })
  join :
      (s : Running)
      → s.started ≡ size s
      → s.joined < size s
      → Mem s.joined s.finished
      → Step s (record s { joined = s.joined + 1 })

-- steps one after the other
pub data Steps : Running → Running → Type 0 where
  here : (s : Running) → Steps s s
  step : {s t u : Running} → Step s t → Steps t u → Steps s u

-- Every context of the pool has been stopped.
abbrev pub IsStopped : Pool → Type 0
IsStopped p = stop p ≡ p

stop_contexts_twice :
    (cs : List Context) → map stop_context (map stop_context cs) ≡ map stop_context cs
stop_contexts_twice [] = refl
stop_contexts_twice (c ∷ cs) = ap (λ t. stop_context c ∷ t) (stop_contexts_twice cs)

stop-IsStopped : (p : Pool) → IsStopped (stop p)
unfolding stop
stop-IsStopped p = ap (λ cs. record p { io_contexts = cs }) (stop_contexts_twice p.io_contexts)

length-stop : (cs : List Context) → length (map stop_context cs) ≡ length cs
length-stop [] = refl
length-stop (c ∷ cs) = ap suc (length-stop cs)

fresh_not_stopped : (i n j : ℕ) (c : Context) → get_elem? (fresh i n) j ≡ some c → c.stopped ≡ false
unfolding fresh
fresh_not_stopped i zero j c e = absurd (cc)
fresh_not_stopped i (suc n) zero c e =
    let same : record { id = i; stopped = false } ≡ c = cc in
    sym (ap (λ (x : Context). x.stopped) same)
fresh_not_stopped i (suc n) (suc j) c e = fresh_not_stopped (i + 1) n j c e

-- Before the pool is stopped nothing has ended; whatever has been joined has ended.
record IsWaiting (n : ℕ) (s : Running) : Type 0 where
  sized : size s ≡ n
  phase : ((s.pool.io_contexts ≡ fresh 0 n) × (s.finished ≡ [])) ⊎ IsStopped s.pool
  bounded : s.started ≤ n
  within : s.joined ≤ n
  ended : (i : ℕ) → i < s.joined → Mem i s.finished

step-IsWaiting : (n : ℕ) (s t : Running) → Step s t → IsWaiting n s → IsWaiting n t
unfolding stop
step-IsWaiting n s t (start s1 h) v = record {
  sized = v.sized;
  phase = v.phase;
  bounded = omega (arith, v.sized);
  within = v.within;
  ended = v.ended;
}
step-IsWaiting n s t (stopped s1) v = record {
  sized = length-stop s.pool.io_contexts ∙ v.sized;
  phase = inr (stop-IsStopped s.pool);
  bounded = v.bounded;
  within = v.within;
  ended = v.ended;
}
step-IsWaiting n s t (finish s1 i c h at on) v = record {
  sized = v.sized;
  phase = elim v.phase [
    | inl f ↦
        let off : c.stopped ≡ false =
          fresh_not_stopped 0 n i c (subst (λ cs. get_elem? cs i ≡ some c) f.0 at) in
        absurd (true_ne_false (sym on ∙ off))
    | inr p ↦ inr p
  ];
  bounded = v.bounded;
  within = v.within;
  ended = λ j k. mem-cons_of_mem i (v.ended j k);
}
  where
    true_ne_false : true ≡ false → ⊥
    true_ne_false p = cc
step-IsWaiting n s t (join s1 all more m) v = record {
  sized = v.sized;
  phase = v.phase;
  bounded = v.bounded;
  within = omega (arith, v.sized);
  ended = λ j k. elim (Bool-cases (j == s.joined)) [
    | inl e ↦ subst (λ i. Mem i s.finished) (sym ((==_iff j s.joined).0 e)) m
    | inr e ↦ v.ended j (ground (arith, e))
  ];
}

steps-IsWaiting : (n : ℕ) (s t : Running) → Steps s t → IsWaiting n s → IsWaiting n t
steps-IsWaiting n s t (here s1) v = v
steps-IsWaiting n s t (step {t = u} x xs) v = steps-IsWaiting n u t xs (step-IsWaiting n s u x v)

begun-IsWaiting : (n : ℕ) (p : Pool) → p.io_contexts ≡ fresh 0 n → IsWaiting n (begun p)
begun-IsWaiting n p e = record {
  sized = ap length e ∙ length-fresh 0 n;
  phase = inl (e, refl);
  bounded = omega arith;
  within = omega arith;
  ended = λ j k. absurd (omega arith);
}

-- `Run` returns only after the pool has been stopped and every context has returned from `run`: when
-- as many threads have been joined as there are contexts, the contexts are stopped, and the `i`-th of
-- them has returned. The pool is a new one, of more contexts than `i`.
pub joined-IsStopped :
    (n i : ℕ) (p : Pool) (s : Running)
    → p.io_contexts ≡ fresh 0 n
    → i < n
    → Steps (begun p) s
    → s.joined ≡ n
    → IsStopped s.pool × Mem i s.finished
joined-IsStopped n i p s e h xs all =
    let v = steps-IsWaiting n (begun p) s xs (begun-IsWaiting n p e) in
    let m : Mem i s.finished = v.ended i (omega arith) in
    elim v.phase [
      | inl f ↦ absurd (not-mem-nil (subst (Mem i) f.1 m))
      | inr p_stopped ↦ (p_stopped, m)
    ]

-- runs of steps, one after the other
abbrev then_steps : {s t u : Running} → Steps s t → Steps t u → Steps s u
then_steps (here s) ys = ys
then_steps (step x xs) ys = step x (then_steps xs ys)

-- The threads that are missing are started.
start_all :
    (k : ℕ) (s : Running) → s.started + k ≡ size s → Steps s (record s { started = s.started + k })
start_all zero s e = subst (λ j. Steps s (record s { started = j })) (omega arith) (here s)
start_all (suc k) s e =
    let next = record s { started = s.started + 1 } in
    subst (λ j. Steps s (record s { started = j })) (omega arith)
      (step (start s (omega arith)) (start_all k next (omega arith)))

-- Where a pool has stopped contexts only, each of them is stopped.
stopped_at :
    (p : Pool) (i : ℕ)
    → IsStopped p
    → i < length p.io_contexts
    → (c : Context) × (get_elem? p.io_contexts i ≡ some c) × (c.stopped ≡ true)
unfolding stop
stopped_at p i e h =
    let (c, at, on) = found p.io_contexts i h in
    (c, subst (λ cs. get_elem? cs i ≡ some c) (ap (λ (q : Pool). q.io_contexts) e) at, on)
  where
    found :
        (cs : List Context) (j : ℕ)
        → j < length cs
        → (c : Context) × (get_elem? (map stop_context cs) j ≡ some c) × (c.stopped ≡ true)
    found [] j k = absurd (omega arith)
    found (c ∷ cs) zero k = (stop_context c, refl, refl)
    found (c ∷ cs) (suc j) k = found cs j (omega arith)

-- The threads that are left are joined, each after its context has returned.
join_all :
    (k : ℕ) (s : Running)
    → s.started ≡ size s
    → IsStopped s.pool
    → s.joined + k ≡ size s
    → (t : Running) × Steps s t × (t.joined ≡ size s)
join_all zero s all off e = (s, here s, omega arith)
join_all (suc k) s all off e =
    let (c, at, on) = stopped_at s.pool s.joined off (omega arith) in
    let returned = record s { finished = s.joined ∷ s.finished } in
    let joined_one = record returned { joined = s.joined + 1 } in
    let (t, xs, done) = join_all k joined_one all off (omega arith) in
    (
      t,
      step (finish s s.joined c (omega arith) at on)
          (step (join returned all (omega arith) mem-cons_self) xs),
      done,
    )

-- From wherever `Run` is when the pool has been stopped it can come to its end: steps lead on to
-- where as many threads have been joined as there are contexts. The pool is a new one.
pub run_returns :
    (n : ℕ) (p : Pool) (s : Running)
    → p.io_contexts ≡ fresh 0 n
    → Steps (begun p) s
    → IsStopped s.pool
    → (t : Running) × Steps s t × (t.joined ≡ n)
run_returns n p s e xs off =
    let v = steps-IsWaiting n (begun p) s xs (begun-IsWaiting n p e) in
    let ready = record s { started = s.started + (n - s.started) } in
    let (t, zs, done) =
      join_all (n - s.joined) ready (omega (arith, v.sized, v.bounded)) off
        (omega (arith, v.sized, v.within)) in
    (
      t,
      then_steps (start_all (n - s.started) s (omega (arith, v.sized, v.bounded))) zs,
      omega (arith, done, v.sized),
    )
