-- ===== src/Opc/Grep/Unmatched.antt =====
-- `GrepFile` (opc/OPCBasic.cpp) on files in which nothing matches.
use oldpart.Base.{
  ℕ, zero, suc, ◌+◌, ◌-◌, ◌≡◌, refl, ap, ◌∙◌, true, false, List, [], ◌∷◌, take, arith, lt→ltb,
}
use oldpart.Opc.Grep.{GrepMatchRange, SelectedGrepLine, no_match, is_empty, grep_file}
use oldpart.Opc.Grep.Description.{any_match, look_ahead, matching}
use oldpart.Opc.Grep.Lookahead.{grep_file-look_ahead}

module _ (search : List ℕ → List GrepMatchRange) (before after : ℕ) where
  -- The lines in which nothing matches: the first `after` of them are selected all the same.
  unfoldable pub first_lines : ℕ → ℕ → List (List ℕ) → List SelectedGrepLine
  first_lines zero n ls = []
  first_lines (suc a) n [] = []
  first_lines (suc a) n (l ∷ ls) =
      record { line_no = n; match_index = no_match; line = l } ∷ first_lines a (n + 1) ls

  any_match_head :
      (l : List ℕ) (ls : List (List ℕ))
      → any_match search before after (l ∷ ls) ≡ false
      → (is_empty (search l) ≡ true) × (any_match search before after ls ≡ false)
  unfolding any_match
  any_match_head l ls h = (ground arith, ground arith)

  any_match_prefix :
      (k : ℕ) (ls : List (List ℕ))
      → any_match search before after ls ≡ false
      → any_match search before after (take k ls) ≡ false
  unfolding any_match
  any_match_prefix zero ls h = refl
  any_match_prefix (suc k) [] h = refl
  any_match_prefix (suc k) (l ∷ ls) h =
      let u = any_match_head l ls h in rw u.0 (any_match_prefix k ls u.1)

  look_ahead_first :
      (a n : ℕ) (ls : List (List ℕ))
      → any_match search before after ls ≡ false
      → look_ahead search before after a n no_match ls ≡ first_lines a n ls
  unfolding look_ahead first_lines
  look_ahead_first zero n [] h = refl
  look_ahead_first (suc a) n [] h = refl
  look_ahead_first zero n (l ∷ ls) h =
      let u = any_match_head l ls h in
      rw (look_ahead, u.0)
        (rw (any_match_prefix before ls u.1) (look_ahead_first zero (n + 1) ls u.1))
  look_ahead_first (suc a) n (l ∷ ls) h =
      let u = any_match_head l ls h in
      let less : suc a - 1 ≡ a = omega arith in
      rw (look_ahead, u.0)
        (rw (lt→ltb 0 (suc a) (omega arith)) (
          ap (λ k. record { line_no = n; match_index = no_match; line = l } ∷ k)
            (ap (λ k. look_ahead search before after k (n + 1) no_match ls) less
              ∙ look_ahead_first a (n + 1) ls u.1)))

  matching_none :
      (n : ℕ) (ls : List (List ℕ))
      → any_match search before after ls ≡ false
      → matching search before after n ls ≡ []
  unfolding matching any_match
  matching_none n [] h = refl
  matching_none n (l ∷ ls) h = ground (arith, matching_none (n + 1) ls)

  -- Where no line of a file matches, `GrepFile` reports no match and selects the first `after`
  -- lines of the file all the same, with the index -1.
  pub grep_file_unmatched :
      (lines : List (List ℕ))
      → any_match search before after lines ≡ false
      → grep_file search before after lines
        ≡ record { matches = []; selected_lines = first_lines after 1 lines }
  grep_file_unmatched lines h = grep_file-look_ahead search before after lines ∙ (λ k. record {
    matches = matching_none 1 lines h k;
    selected_lines = look_ahead_first after 1 lines h k;
  })
