-- ===== src/Opc/Replace/Regular.antt =====
-- The two forms of `FindAndReplace` (opc/FileHandler.cpp).
use oldpart.Base.{ℕ, ◌≡◌, ap, ◌∙◌, sym, List, ◌∷◌, ok}
use oldpart.Opc.Replace.{
  Calls, Disk, traverse_file, find_and_replace, regex_visit, find_and_replace_regex,
}
use oldpart.Opc.Replace.Scan.{scan, replace_visit-scan}

module _ {Regex : Type 0} (regex_replace : List ℕ → Regex → List ℕ → List ℕ) where
  -- Where an expression is replaced in every line as a text that is not empty is, the two forms of
  -- `FindAndReplace` do the same, whichever calls on the disk succeed.
  pub find_and_replace_regex-find_and_replace :
      (from : Regex) (f : ℕ) (fs to : List ℕ) (c : Calls) (d : Disk)
      → ((l : List ℕ) → regex_replace l from to ≡ scan (f ∷ fs) to 0 l)
      → find_and_replace_regex regex_replace from to c d ≡ find_and_replace (f ∷ fs) to c d
  unfolding find_and_replace_regex find_and_replace regex_visit
  find_and_replace_regex-find_and_replace from f fs to c d h =
      ap (λ v. traverse_file v c d)
        (λ i l. (ap (λ t. ok t) (h l) ∙ sym (replace_visit-scan f fs to l)) i)
