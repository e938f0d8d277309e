-- ===== src/Serializer/Returned.antt =====
-- What holds of the value of a run that returns, along the runs of common/OSerializer.cpp.
use oldpart.Base.{
  ◌≡◌, refl, Bool, true, false, Outcome, ok, err, ◌>>=◌, ◌>>◌, assert, if◌then◌else◌,
}

-- What holds of the value of a run that returns.
abbrev pub Post {ℓ} : {A : Type ℓ} → (A → Type 0) → Outcome A → Type 0
Post Q (err e) = Unit
Post Q (ok a) = Q a

pub Post-bind {ℓ κ} :
    {A : Type ℓ} {B : Type κ} (P : A → Type 0) (Q : B → Type 0) (m : Outcome A) (f : A → Outcome B)
    → Post P m
    → ((a : A) → P a → Post Q (f a))
    → Post Q (m >>= f)
Post-bind P Q (err e) f h k = tt
Post-bind P Q (ok a) f h k = k a h

pub Post-map {ℓ} :
    {A : Type ℓ} (P Q : A → Type 0) (m : Outcome A) → Post P m → ((a : A) → P a → Q a) → Post Q m
Post-map P Q (err e) h k = tt
Post-map P Q (ok a) h k = k a h

pub Post-assert {ℓ} :
    {A : Type ℓ} (Q : A → Type 0) (b : Bool) (m : Outcome A)
    → (b ≡ true → Post Q m)
    → Post Q (assert b >> m)
Post-assert Q true m h = h refl
Post-assert Q false m h = tt

pub Post-if {ℓ} :
    {A : Type ℓ} (Q : A → Type 0) (b : Bool) (m n : Outcome A)
    → (b ≡ true → Post Q m)
    → (b ≡ false → Post Q n)
    → Post Q (if b then m else n)
Post-if Q true m n h k = h refl
Post-if Q false m n h k = k refl
