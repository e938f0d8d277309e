-- ===== src/Opc/Wildcard/Escapes.antt =====
-- The calls of `Wildcard2Regex` (opc/FileHandler.cpp) that escape characters, as one pass.
use oldpart.Base.{
  ℕ, ◌≡◌, refl, sym, ap, ap₂, subst, ◌∙◌, Bool, true, false, ◌||◌, List, [], ◌∷◌, ◌++◌,
  append_assoc, ◌==◌, ==_iff, Bool-cases, inl, inr, if◌then◌else◌, arith,
}
use oldpart.Opc.Replace.Scan.{scan}
use oldpart.Opc.Wildcard.{ReplaceAll, backslash, escape_all}

-- each character of a text rewritten on its own
abbrev pub rewrite : (ℕ → List ℕ) → List ℕ → List ℕ
rewrite f [] = []
rewrite f (c ∷ cs) = f c ++ rewrite f cs

pub rewrite-append :
    (f : ℕ → List ℕ) (xs ys : List ℕ) → rewrite f (xs ++ ys) ≡ rewrite f xs ++ rewrite f ys
rewrite-append f [] ys = refl
rewrite-append f (x ∷ xs) ys =
    ap (λ k. f x ++ k) (rewrite-append f xs ys)
    ∙ sym (append_assoc (f x) (rewrite f xs) (rewrite f ys))

pub rewrite-rewrite :
    (f g : ℕ → List ℕ) (xs : List ℕ) → rewrite g (rewrite f xs) ≡ rewrite (λ x. rewrite g (f x)) xs
rewrite-rewrite f g [] = refl
rewrite-rewrite f g (x ∷ xs) =
    rewrite-append g (f x) (rewrite f xs) ∙ ap (λ k. rewrite g (f x) ++ k) (rewrite-rewrite f g xs)

pub rewrite_ext :
    (f g : ℕ → List ℕ) (xs : List ℕ) → ((x : ℕ) → f x ≡ g x) → rewrite f xs ≡ rewrite g xs
rewrite_ext f g [] h = refl
rewrite_ext f g (x ∷ xs) h = ap₂ (λ a b. a ++ b) (h x) (rewrite_ext f g xs h)

-- one character replaced by a text
abbrev replaced : ℕ → List ℕ → ℕ → List ℕ
replaced c to x = if c == x then to else x ∷ []

scan-rewrite : (c : ℕ) (to xs : List ℕ) → scan (c ∷ []) to 0 xs ≡ rewrite (replaced c to) xs
unfolding scan
scan-rewrite c to [] = refl
scan-rewrite c to (x ∷ xs) = elim (Bool-cases (c == x)) [
  | inl e ↦ rw (scan, e) (ap (λ k. to ++ k) (scan-rewrite c to xs))
  | inr e ↦ rw (scan, e) (ap (λ k. x ∷ k) (scan-rewrite c to xs))
]

abbrev pub is_among : ℕ → List ℕ → Bool
is_among x [] = false
is_among x (c ∷ cs) = (c == x) || is_among x cs

-- a character escaped if it is among these
abbrev pub escape : List ℕ → ℕ → List ℕ
escape cs x = if is_among x cs then backslash ∷ x ∷ [] else x ∷ []

-- None of the characters is a backslash, and none stands twice or among `cs`.
abbrev pub AreFresh : List ℕ → List ℕ → Type 0
AreFresh cs [] = Unit
AreFresh cs (d ∷ ds) = ((d == backslash) ≡ false) × (is_among d cs ≡ false) × AreFresh (d ∷ cs) ds

escape_once :
    (cs : List ℕ) (d : ℕ) (x : ℕ)
    → (d == backslash) ≡ false
    → is_among d cs ≡ false
    → rewrite (replaced d (backslash ∷ d ∷ [])) (escape cs x) ≡ escape (d ∷ cs) x
escape_once cs d x plain new = elim (Bool-cases (is_among x cs)) [
  | inl a ↦ elim (Bool-cases (d == x)) [
    | inl e ↦
        let known : is_among d cs ≡ true =
          subst (λ k. is_among k cs ≡ true) (sym ((==_iff d x).0 e)) a in
        absurd (ground (arith, known, new))
    | inr e ↦ rw (a, e, plain) refl
  ]
  | inr a ↦ elim (Bool-cases (d == x)) [
    | inl e ↦ rw (a, e) (ap (λ k. backslash ∷ k ∷ []) ((==_iff d x).0 e))
    | inr e ↦ rw (a, e) refl
  ]
]

abbrev pub join : List ℕ → List ℕ → List ℕ
join [] cs = cs
join (d ∷ ds) cs = join ds (d ∷ cs)

module _ (replace_all : ReplaceAll) where
  escape_each :
      (ds cs text : List ℕ)
      → AreFresh cs ds
      → escape_all replace_all ds (rewrite (escape cs) text) ≡ rewrite (escape (join ds cs)) text
  unfolding escape_all
  escape_each [] cs text h = refl
  escape_each (d ∷ ds) cs text h =
      ap (escape_all replace_all ds) (
        replace_all.run-scan d [] (backslash ∷ d ∷ []) (rewrite (escape cs) text)
        ∙ scan-rewrite d (backslash ∷ d ∷ []) (rewrite (escape cs) text)
        ∙ rewrite-rewrite (escape cs) (replaced d (backslash ∷ d ∷ [])) text
        ∙ rewrite_ext (λ x. rewrite (replaced d (backslash ∷ d ∷ [])) (escape cs x))
            (escape (d ∷ cs)) text (λ x. escape_once cs d x h.0 h.1))
      ∙ escape_each ds (d ∷ cs) text h.2

  -- Escaping the backslash first and then other characters, each once, puts one backslash in front
  -- of each of them, and changes nothing else.
  pub escape_all-rewrite :
      (ds text : List ℕ)
      → AreFresh (backslash ∷ []) ds
      → escape_all replace_all (backslash ∷ ds) text
        ≡ rewrite (escape (join ds (backslash ∷ []))) text
  unfolding escape_all
  escape_all-rewrite ds text h =
      ap (escape_all replace_all ds) (
        replace_all.run-scan backslash [] (backslash ∷ backslash ∷ []) text
        ∙ scan-rewrite backslash (backslash ∷ backslash ∷ []) text
        ∙ rewrite_ext (replaced backslash (backslash ∷ backslash ∷ [])) (escape (backslash ∷ []))
            text first)
      ∙ escape_each ds (backslash ∷ []) text h
    where
      first :
          (x : ℕ) → replaced backslash (backslash ∷ backslash ∷ []) x ≡ escape (backslash ∷ []) x
      first x = elim (Bool-cases (backslash == x)) [
        | inl e ↦ rw e (ap (λ k. backslash ∷ k ∷ []) ((==_iff backslash x).0 e))
        | inr e ↦ rw e refl
      ]
