-- ===== src/Opc/Grep/Matching.antt =====
-- The matches that `GrepFile` (opc/OPCBasic.cpp) finds against the lines that match.
use oldpart.Base.{
  ℕ, ◌+◌, ◌≡◌, sym, ◌∙◌, List, [], ◌∷◌, ◌++◌, append-nil, append_assoc, ltb, Bool-cases, inl, inr,
}
use oldpart.Opc.Grep.{GrepMatchRange, GrepState, is_empty, grep_line, grep_lines}
use oldpart.Opc.Grep.Description.{matching}

module _ (search : List ℕ → List GrepMatchRange) (before after : ℕ) where
  grep_line-matching :
      (s : GrepState) (l : List ℕ) (ls : List (List ℕ))
      → (grep_line search before after s l).matches
          ++ matching search before after (grep_line search before after s l).line_no ls
        ≡ s.matches ++ matching search before after s.line_no (l ∷ ls)
  unfolding grep_line matching
  grep_line-matching s l ls = elim (Bool-cases (is_empty (search l))) [
    | inr m ↦ rw m (
        append_assoc s.matches (record { line_no = s.line_no; sub_matches = search l } ∷ [])
          (matching search before after (s.line_no + 1) ls))
    | inl m ↦ elim (Bool-cases (ltb 0 s.after_count)) [ inl e ↦ rw (m, e) | inr e ↦ rw (m, e) ]
  ]

  pub grep_lines-matching :
      (ls : List (List ℕ)) (s : GrepState)
      → (grep_lines search before after s ls).matches
        ≡ s.matches ++ matching search before after s.line_no ls
  unfolding grep_lines matching
  grep_lines-matching [] s = sym (append-nil s.matches)
  grep_lines-matching (l ∷ ls) s =
      grep_lines-matching ls (grep_line search before after s l) ∙ grep_line-matching s l ls
