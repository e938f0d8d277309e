-- ===== src/Opc/Wildcard.antt =====
-- `Wildcard2Regex` (opc/FileHandler.cpp), over boost::replace_all, on a system other than Windows.
pub mod Escapes
pub mod Translated
use Prim.Native.String.{String}
use oldpart.Base.{
  ℕ, ◌≡◌, Bool, true, false, ◌||◌, List, [], ◌∷◌, ◌++◌, ◌==◌, if◌then◌else◌, literal,
}
use oldpart.Opc.Replace.Scan.{scan}

-- `boost::replace_all(text, from, to)`. Documented: every occurrence of `from` is replaced, from
-- left to right, and what is put in is not searched.
pub record ReplaceAll : Type 0 where
  pub run : List ℕ → List ℕ → List ℕ → List ℕ
  pub run-scan : (f : ℕ) (fs to text : List ℕ) → run (f ∷ fs) to text ≡ scan (f ∷ fs) to 0 text

abbrev pub backslash : ℕ
backslash = 92

-- the characters that are escaped, in the order of the calls
abbrev pub escaped : List ℕ
escaped = literal "\\^.$|()[]*+?/"

module _ (replace_all : ReplaceAll) where
  -- the calls that put a backslash in front of a character
  unfoldable pub escape_all : List ℕ → List ℕ → List ℕ
  escape_all [] text = text
  escape_all (c ∷ cs) text = escape_all cs (replace_all.run (c ∷ []) (backslash ∷ c ∷ []) text)

  -- the text that `Wildcard2Regex` compiles
  unfoldable pub wildcard_to_regex : List ℕ → List ℕ
  wildcard_to_regex text =
      let one = replace_all.run (literal "\\?") (literal ".") (escape_all escaped text) in
      replace_all.run (literal "\\*") (literal ".*") one ++ literal "$"
