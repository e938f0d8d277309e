-- ===== src/Opc/Wildcard/Translated.antt =====
-- `Wildcard2Regex` (opc/FileHandler.cpp) against a translation of each character on its own.
use oldpart.Base.{
  ℕ, ◌≡◌, refl, sym, ap, subst, ◌∙◌, inl, inr, true, false, List, [], ◌∷◌, ◌++◌, ◌==◌, ==_iff,
  Bool-cases, if◌then◌else◌, arith, literal,
}
use oldpart.Opc.Replace.{is_prefix}
use oldpart.Opc.Replace.Scan.{scan}
use oldpart.Opc.Wildcard.{ReplaceAll, backslash, escaped, escape_all, wildcard_to_regex}
use oldpart.Opc.Wildcard.Escapes.{
  rewrite, rewrite_ext, escape, is_among, join, AreFresh, escape_all-rewrite,
}

-- What a character has become: it stands alone and is neither a backslash nor `z`, or a backslash
-- stands in front of it.
abbrev IsBlock : ℕ → List ℕ → Type 0
IsBlock z [] = ⊥
IsBlock z (y ∷ []) = ((backslash == y) ≡ false) × ((z == y) ≡ false)
IsBlock z (b ∷ y ∷ []) = (b ≡ backslash) × ((z == backslash) ≡ false)
IsBlock z (b ∷ y ∷ w ∷ bs) = ⊥

-- an escaped `z` in place of which `to` stands
abbrev swap : ℕ → List ℕ → List ℕ → List ℕ
swap z to [] = []
swap z to (y ∷ []) = y ∷ []
swap z to (b ∷ y ∷ []) = if z == y then to else b ∷ y ∷ []
swap z to (b ∷ y ∷ w ∷ bs) = b ∷ y ∷ w ∷ bs

-- No text of blocks begins with `z`.
starts_apart :
    (z : ℕ) (f : ℕ → List ℕ) (text : List ℕ)
    → ((x : ℕ) → IsBlock z (f x))
    → is_prefix (z ∷ []) (rewrite f text) ≡ false
starts_apart z f [] h = refl
starts_apart z f (x ∷ xs) h = go (f x) (h x)
  where
    go : (b : List ℕ) → IsBlock z b → is_prefix (z ∷ []) (b ++ rewrite f xs) ≡ false
    go [] k = absurd k
    go (y ∷ []) k = rw k.1 refl
    go (b ∷ y ∷ []) k = rw k.0 (rw k.1 refl)
    go (b ∷ y ∷ w ∷ bs) k = absurd k

scan-swap :
    (z : ℕ) (to : List ℕ) (f : ℕ → List ℕ) (text : List ℕ)
    → ((x : ℕ) → IsBlock z (f x))
    → scan (backslash ∷ z ∷ []) to 0 (rewrite f text) ≡ rewrite (λ x. swap z to (f x)) text
unfolding scan
scan-swap z to f [] h = refl
scan-swap z to f (x ∷ xs) h = go (f x) (h x) (starts_apart z f xs h) (scan-swap z to f xs h)
  where
    go :
        (b : List ℕ)
        → IsBlock z b
        → is_prefix (z ∷ []) (rewrite f xs) ≡ false
        → scan (backslash ∷ z ∷ []) to 0 (rewrite f xs) ≡ rewrite (λ x. swap z to (f x)) xs
        → scan (backslash ∷ z ∷ []) to 0 (b ++ rewrite f xs)
          ≡ swap z to b ++ rewrite (λ x. swap z to (f x)) xs
    go [] k apart rest = absurd k
    go (y ∷ []) k apart rest = rw (scan, k.0) (ap (λ t. y ∷ t) rest)
    go (b ∷ y ∷ []) k apart rest = elim (Bool-cases (z == y)) [
      | inl e ↦ rw k.0 (rw (scan, e) (ap (λ t. to ++ t) rest))
      | inr e ↦ elim (Bool-cases (backslash == y)) [
        | inl q ↦ rw k.0 (rw (scan, e) (rw (scan, q, apart) (ap (λ t. backslash ∷ y ∷ t) rest)))
        | inr q ↦ rw k.0 (rw (scan, e) (rw (scan, q) (ap (λ t. backslash ∷ y ∷ t) rest)))
      ]
    ]
    go (b ∷ y ∷ w ∷ bs) k apart rest = absurd k

-- A character of a wildcard pattern on its own: `?` becomes `.` and `*` becomes `.*`, a backslash is put
-- in front of the other characters that are listed here, and the rest, braces among them, stay.
unfoldable pub wild_char : ℕ → List ℕ
wild_char c =
    let plain = if is_among c (literal "/+][)(|$.^\\") then backslash ∷ c ∷ [] else c ∷ [] in
    let star = if 42 == c then literal ".*" else plain in if 63 == c then literal "." else star

abbrev rest_of_escaped : List ℕ
rest_of_escaped = literal "^.$|()[]*+?/"

fresh : AreFresh (backslash ∷ []) rest_of_escaped
fresh = (
  refl,
  refl,
  (
    refl,
    refl,
    (
      refl,
      refl,
      (
        refl,
        refl,
        (
          refl,
          refl,
          (
            refl,
            refl,
            (refl, refl, (refl, refl, (refl, refl, (refl, refl, (refl, refl, (refl, refl, tt)))))),
          ),
        ),
      ),
    ),
  ),
)

abbrev specials : List ℕ
specials = join rest_of_escaped (backslash ∷ [])

apart_from :
    (c x : ℕ) (cs : List ℕ) → is_among c cs ≡ true → is_among x cs ≡ false → (c == x) ≡ false
apart_from c x cs a b = elim (Bool-cases (c == x)) [
  | inl e ↦
      let same : is_among x cs ≡ true = subst (λ k. is_among k cs ≡ true) ((==_iff c x).0 e) a in
      absurd (ground (arith, same, b))
  | inr e ↦ e
]

escape-IsBlock : (x : ℕ) → IsBlock 63 (escape specials x)
escape-IsBlock x = elim (Bool-cases (is_among x specials)) [
  | inl a ↦ rw a (refl, refl)
  | inr a ↦ rw a (apart_from backslash x specials refl a, apart_from 63 x specials refl a)
]

swap-IsBlock : (x : ℕ) → IsBlock 42 (swap 63 (literal ".") (escape specials x))
swap-IsBlock x = elim (Bool-cases (is_among x specials)) [
  | inl a ↦ elim (Bool-cases (63 == x)) [
    | inl e ↦ rw (a, e) (refl, refl)
    | inr e ↦ rw (a, e) (refl, refl)
  ]
  | inr a ↦ rw a (apart_from backslash x specials refl a, apart_from 42 x specials refl a)
]

among_rest :
    (x : ℕ)
    → (63 == x) ≡ false
    → (42 == x) ≡ false
    → is_among x specials ≡ is_among x (literal "/+][)(|$.^\\")
among_rest x e f = rw (e, f) refl

swap-swap :
    (x : ℕ) → swap 42 (literal ".*") (swap 63 (literal ".") (escape specials x)) ≡ wild_char x
unfolding wild_char
swap-swap x = elim (Bool-cases (is_among x specials)) [
  | inl a ↦ elim (Bool-cases (63 == x)) [
    | inl e ↦ rw (a, e) refl
    | inr e ↦ elim (Bool-cases (42 == x)) [
      | inl f ↦ rw (a, e, f) refl
      | inr f ↦ rw (a, e, f, sym (among_rest x e f) ∙ a) refl
    ]
  ]
  | inr a ↦
      let e = apart_from 63 x specials refl a in
      let f = apart_from 42 x specials refl a in rw (a, e, f, sym (among_rest x e f) ∙ a) refl
]

-- The text that `Wildcard2Regex` compiles translates each character of the pattern on its own: `?`
-- to `.`, `*` to `.*`, each of `/+][)(|$.^` and the backslash to itself behind a backslash, and every
-- other character to itself; it ends in `$`. In spite of its fifteen passes over the text no character that one
-- of them puts in is taken for one of the pattern.
pub wildcard_to_regex-rewrite :
    (replace_all : ReplaceAll) (text : List ℕ)
    → wildcard_to_regex replace_all text ≡ rewrite wild_char text ++ literal "$"
unfolding wildcard_to_regex
wildcard_to_regex-rewrite replace_all text =
    let escapes = escape_all-rewrite replace_all rest_of_escaped text fresh in
    let one : replace_all.run (literal "\\?") (literal ".") (escape_all replace_all escaped text)
        ≡ rewrite (λ x. swap 63 (literal ".") (escape specials x)) text =
      replace_all.run-scan backslash (63 ∷ []) (literal ".") (escape_all replace_all escaped text)
      ∙ ap (scan (literal "\\?") (literal ".") 0) escapes
      ∙ scan-swap 63 (literal ".") (escape specials) text escape-IsBlock in
    let two : replace_all.run (literal "\\*") (literal ".*")
          (replace_all.run (literal "\\?") (literal ".") (escape_all replace_all escaped text))
        ≡ rewrite wild_char text =
      replace_all.run-scan backslash (42 ∷ []) (literal ".*")
        (replace_all.run (literal "\\?") (literal ".") (escape_all replace_all escaped text))
      ∙ ap (scan (literal "\\*") (literal ".*") 0) one
      ∙ scan-swap 42 (literal ".*") (λ x. swap 63 (literal ".") (escape specials x)) text
          swap-IsBlock
      ∙ rewrite_ext (λ x. swap 42 (literal ".*") (swap 63 (literal ".") (escape specials x)))
          wild_char text swap-swap in
    ap (λ k. k ++ literal "$") two
