-- ===== src/Net/Connections.antt =====
-- common/ConnectionManager.cpp: the set of live connections.
use oldpart.Base.{
  ℕ, ◌+◌, ◌≡◌, refl, ap, sym, Bool, true, false, ◌&&◌, ◌||◌, not, List, [], ◌∷◌, ◌++◌, arith, ◌==◌,
  if◌then◌else◌, ==_iff, Bool-cases, inl, inr,
}

-- The `std::set` of sockets, each an identity, and the calls of `Start` and `Stop` that the
-- sockets have received, the latest last. A set iterates in an order of its own; here it is that
-- of insertion, and nothing is stated of it.
pub data Call : Type 0 where
  started stopped : ℕ → Call

pub record Manager : Type 0 where
  pub connections : List ℕ
  pub calls : List Call

unfoldable pub contains : ℕ → List ℕ → Bool
contains x [] = false
contains x (y ∷ ys) = (y == x) || contains x ys

unfoldable pub insert : ℕ → List ℕ → List ℕ
insert x ys = if contains x ys then ys else ys ++ (x ∷ [])

unfoldable pub erase : ℕ → List ℕ → List ℕ
erase x [] = []
erase x (y ∷ ys) = let rest = erase x ys in if y == x then rest else y ∷ rest

unfoldable pub start : ℕ → Manager → Manager
start s m = record { connections = insert s m.connections; calls = m.calls ++ (started s ∷ []) }

unfoldable pub stop : ℕ → Manager → Manager
stop s m = record { connections = erase s m.connections; calls = m.calls ++ (stopped s ∷ []) }

unfoldable pub stop_each : List ℕ → List Call
stop_each [] = []
stop_each (s ∷ ss) = stopped s ∷ stop_each ss

unfoldable pub stop_all : Manager → Manager
stop_all m = record { connections = []; calls = m.calls ++ stop_each m.connections }

contains-append :
    (x : ℕ) (ys zs : List ℕ) → contains x (ys ++ zs) ≡ (contains x ys || contains x zs)
unfolding contains
contains-append x [] zs = refl
contains-append x (y ∷ ys) zs = ground (arith, contains-append x ys zs)

contains-erase : (x s : ℕ) (ys : List ℕ) → contains x (erase s ys) ≡ (contains x ys && not (s == x))
unfolding contains erase
contains-erase x s [] = refl
contains-erase x s (y ∷ ys) = ground (arith, contains-erase x s ys)

contains-insert : (x s : ℕ) (ys : List ℕ) → contains x (insert s ys) ≡ ((s == x) || contains x ys)
unfolding insert contains
contains-insert x s ys = ground (arith, contains-append x ys (s ∷ []), same)
  where
    same : (s == x) ≡ true → contains x ys ≡ contains s ys
    same e = ap (λ k. contains k ys) (sym ((==_iff s x).0 e))

-- `Start` adds exactly its socket to the set and `Stop` removes exactly its own; `StopAll` leaves
-- the set empty.
pub connections_lem :
    (x s : ℕ) (m : Manager)
    → (contains x (start s m).connections ≡ ((s == x) || contains x m.connections))
      × (contains x (stop s m).connections ≡ (contains x m.connections && not (s == x)))
      × (contains x (stop_all m).connections ≡ false)
unfolding start stop stop_all contains
connections_lem x s m = (contains-insert x s m.connections, contains-erase x s m.connections, refl)

abbrev pub is_stopped : ℕ → Call → Bool
is_stopped x (started y) = false
is_stopped x (stopped y) = y == x

-- how often a socket has been told to stop
unfoldable pub stops : ℕ → List Call → ℕ
stops x [] = 0
stops x (c ∷ cs) = (if is_stopped x c then 1 else 0) + stops x cs

-- No connection stands twice in the set.
abbrev pub AreDistinct : List ℕ → Type 0
AreDistinct [] = Unit
AreDistinct (y ∷ ys) = (contains y ys ≡ false) × AreDistinct ys

stops-append : (x : ℕ) (cs ds : List Call) → stops x (cs ++ ds) ≡ stops x cs + stops x ds
unfolding stops
stops-append x [] ds = omega arith
stops-append x (c ∷ cs) ds = omega (arith, stops-append x cs ds)

AreDistinct-erase : (s : ℕ) (ys : List ℕ) → AreDistinct ys → AreDistinct (erase s ys)
unfolding erase
AreDistinct-erase s [] h = tt
AreDistinct-erase s (y ∷ ys) h = elim (Bool-cases (y == s)) [
  | inl e ↦ rw e (AreDistinct-erase s ys h.1)
  | inr ne ↦ rw ne (ground (arith, contains-erase y s ys, h.0), AreDistinct-erase s ys h.1)
]

AreDistinct-snoc :
    (s : ℕ) (ys : List ℕ) → contains s ys ≡ false → AreDistinct ys → AreDistinct (ys ++ (s ∷ []))
unfolding contains
AreDistinct-snoc s [] e h = (refl, tt)
AreDistinct-snoc s (y ∷ ys) e h =
    (ground (arith, contains-append y ys (s ∷ []), h.0), AreDistinct-snoc s ys (ground arith) h.1)

AreDistinct-insert : (s : ℕ) (ys : List ℕ) → AreDistinct ys → AreDistinct (insert s ys)
unfolding insert
AreDistinct-insert s ys h = elim (Bool-cases (contains s ys)) [
  | inl e ↦ rw e h
  | inr ne ↦ rw ne (AreDistinct-snoc s ys ne h)
]

-- The connections stay a set under every operation.
pub manager_AreDistinct :
    (s : ℕ) (m : Manager)
    → AreDistinct m.connections
    → AreDistinct (start s m).connections
      × AreDistinct (stop s m).connections
      × AreDistinct (stop_all m).connections
unfolding start stop stop_all
manager_AreDistinct s m h =
    (AreDistinct-insert s m.connections h, AreDistinct-erase s m.connections h, tt)

stops-stop_each :
    (x : ℕ) (ss : List ℕ)
    → AreDistinct ss
    → stops x (stop_each ss) ≡ (if contains x ss then 1 else 0)
unfolding stops stop_each contains
stops-stop_each x [] h = refl
stops-stop_each x (s ∷ ss) h = ground (arith, stops-stop_each x ss h.1, h.0, same)
  where
    same : (s == x) ≡ true → contains x ss ≡ contains s ss
    same e = ap (λ k. contains k ss) (sym ((==_iff s x).0 e))

-- `StopAll` stops every live connection exactly once, and no other. The connections are a set.
pub stops-stop_all :
    (x : ℕ) (m : Manager)
    → AreDistinct m.connections
    → stops x (stop_all m).calls ≡ stops x m.calls + (if contains x m.connections then 1 else 0)
unfolding stop_all
stops-stop_all x m h =
    omega
      (arith, stops-append x m.calls (stop_each m.connections), stops-stop_each x m.connections h)
