-- ===== src/Proto/Enumeration.antt =====
-- `ToString` and `Parse` of common/OEnum.h, and of `FileType` (opp/OPCBasicProto.cpp).
use oldpart.Base.{
  ℕ, ◌^◌, ◌-◌, ◌≡◌, refl, subst, ◌⊎◌, Bool, true, false, Option, none, some, List, [], ◌∷◌, ◌==◌,
  ==_iff, Option-cases, inl, inr, if◌then◌else◌, literal, same_text, same_text-eq, same_text_refl,
  arith,
}

-- the pairs of an enumeration, each a value, as a pattern of 32 bits, and its name
abbrev pub Values : Type 0
Values = List (ℕ × List ℕ)

-- `find` on the two maps, in which `insert` keeps an entry that is there
unfoldable pub find_value : ℕ → Values → Option (List ℕ)
find_value v [] = none
find_value v ((w, name) ∷ ps) = let rest = find_value v ps in if w == v then some name else rest

unfoldable pub find_name : List ℕ → Values → Option ℕ
find_name text [] = none
find_name text ((w, name) ∷ ps) =
    let rest = find_name text ps in if same_text name text then some w else rest

abbrev pub or_else : Option (List ℕ) → List ℕ → List ℕ
or_else none d = d
or_else (some a) d = a

-- `ToString`, on the text for unknown values
unfoldable pub to_string : List ℕ → Values → ℕ → List ℕ
to_string unknown ps v = or_else (find_value v ps) unknown

-- `Parse`: its result, and `v` after it
unfoldable pub parse : Values → List ℕ → ℕ → Bool × ℕ
parse ps text v = elim (find_name text ps) [ none ↦ (false, v) | some w ↦ (true, w) ]

-- No value stands twice, and no name.
abbrev pub AreDistinct : Values → Type 0
AreDistinct [] = Unit
AreDistinct ((w, name) ∷ ps) =
    (find_value w ps ≡ none) × (find_name name ps ≡ none) × AreDistinct ps

find_name-find_value :
    (ps : Values) (v : ℕ) (name : List ℕ)
    → AreDistinct ps
    → find_value v ps ≡ some name
    → find_name name ps ≡ some v
unfolding find_value find_name
find_name-find_value [] v name h e = ground arith
find_name-find_value ((w, n) ∷ ps) v name h e =
    ground (arith, find_name-find_value ps v name h.2, h.1, same_text_refl n, (==_iff w v).0, apart)
  where
    apart : same_text n name ≡ true → find_name name ps ≡ none
    apart q = subst (λ t. find_name t ps ≡ none) (same_text-eq n name q) h.1

find_value-find_name :
    (ps : Values) (v : ℕ) (name : List ℕ)
    → AreDistinct ps
    → find_name name ps ≡ some v
    → find_value v ps ≡ some name
unfolding find_value find_name
find_value-find_name [] v name h e = ground arith
find_value-find_name ((w, n) ∷ ps) v name h e =
    ground (arith, find_value-find_name ps v name h.2, same_text-eq n name, apart)
  where
    apart : w ≡ v → find_value v ps ≡ none
    apart q = subst (λ t. find_value t ps ≡ none) q h.0

-- In an enumeration whose values and names are distinct, `ToString` prints a value that has a name
-- as this name, and `Parse` returns the value for it, whatever the variable held.
pub parse-to_string :
    (unknown : List ℕ) (ps : Values) (v w : ℕ) (name : List ℕ)
    → AreDistinct ps
    → find_value v ps ≡ some name
    → (to_string unknown ps v ≡ name) × (parse ps (to_string unknown ps v) w ≡ (true, v))
unfolding to_string parse
parse-to_string unknown ps v w name h e = (
  rw (to_string, e) refl,
  rw (to_string, e) (rw (parse, find_name-find_value ps v name h e) refl),
)

-- In an enumeration whose values and names are distinct, `Parse` accepts a text exactly if it is
-- the name of a value, and `ToString` prints what it accepts as that text; what it refuses leaves
-- the variable as it was.
pub to_string-parse :
    (unknown : List ℕ) (ps : Values) (text : List ℕ) (w : ℕ)
    → AreDistinct ps
    → ((parse ps text w ≡ (false, w)) × (find_name text ps ≡ none))
      ⊎ (((parse ps text w).0 ≡ true) × (to_string unknown ps (parse ps text w).1 ≡ text))
unfolding parse to_string
to_string-parse unknown ps text w h = elim (Option-cases (find_name text ps)) [
  | inl e ↦ inl (rw (parse, e) refl, e)
  | inr (v, e) ↦
      let accepted : parse ps text w ≡ (true, v) = rw (parse, e) refl in
      inr (rw accepted refl, rw (accepted, to_string, find_value-find_name ps v text h e) refl)
]

-- `FILE_TYPE_VALUES`
abbrev pub file_type_values : Values
file_type_values =
    (0, literal "None")
    ∷ (2 ^ 32 - 1, literal "NotFound")
    ∷ (1, literal "File")
    ∷ (2, literal "Directory")
    ∷ (3, literal "SymbolLink")
    ∷ (4, literal "Block")
    ∷ (5, literal "Character")
    ∷ (6, literal "Fifo")
    ∷ (7, literal "Socket")
    ∷ (8, literal "Unknown")
    ∷ []

unfoldable pub file_type_to_string : ℕ → List ℕ
file_type_to_string = to_string (literal "Unknow value for FileType") file_type_values

unfoldable pub file_type_parse : List ℕ → ℕ → Bool × ℕ
file_type_parse = parse file_type_values

pub file_type_values-AreDistinct : AreDistinct file_type_values
unfolding find_value find_name
file_type_values-AreDistinct = (
  refl,
  refl,
  (
    refl,
    refl,
    (
      refl,
      refl,
      (
        refl,
        refl,
        (refl, refl, (refl, refl, (refl, refl, (refl, refl, (refl, refl, (refl, refl, tt)))))),
      ),
    ),
  ),
)
