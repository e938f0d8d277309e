-- ===== src/Opc/Grep/Lookahead.antt =====
-- `GrepFile` (opc/OPCBasic.cpp) against a description that looks ahead for the next match and
-- keeps no buffer.
use oldpart.Base.{
  ℕ, ◌+◌, ◌-◌, ◌≤◌, ◌<◌, ◌≡◌, refl, sym, ap, ◌∙◌, true, false, List, [], ◌∷◌, ◌++◌, append-nil,
  append_assoc, length, length-append, ltb, arith, Bool-cases, inl, inr, ltb→lt, ltb→le, lt→ltb,
  le→ltb,
}
use oldpart.Opc.Grep.{
  GrepMatchRange, SelectedGrepLine, GrepTrace, GrepState, no_match, next_index, is_empty, select,
  push_back, grep_line, grep_lines, grep_start, grep_file,
}
use oldpart.Opc.Grep.Buffer.{
  AreUnmatched-snoc, lines_of-snoc, length-push_back, select-append, push_back-nil, rest_at_match,
  push_back_cases, look_ahead_push,
}
use oldpart.Opc.Grep.Matching.{grep_lines-matching}
use oldpart.Opc.Grep.Description.{look_ahead, matching, lines_of, AreUnmatched, look_ahead-nil}

module _ (search : List ℕ → List GrepMatchRange) (before after : ℕ) where
  -- What holds between rounds: the buffer holds at most `before` traces, the latest, of lines that
  -- do not match; it is empty while lines follow a match. `n` is the number of its first line.
  record Inv (n : ℕ) (s : GrepState) : Type 0 where
    short : length s.before_buffer ≤ before
    numbered : n + length s.before_buffer ≡ s.line_no
    unmatched : AreUnmatched search before after n s.before_buffer
    idle : (0 < s.after_count) → s.before_buffer ≡ []

  -- what is selected from a state on
  abbrev rest_of : ℕ → GrepState → List (List ℕ) → List SelectedGrepLine
  rest_of n s ls =
      look_ahead search before after s.after_count n s.match_index
        (lines_of search before after s.before_buffer ++ ls)

  record Keeps (n : ℕ) (s t : GrepState) (l : List ℕ) (ls : List (List ℕ)) : Type 0 where
    first : ℕ
    inv : Inv first t
    same : s.selected_lines ++ rest_of n s (l ∷ ls) ≡ t.selected_lines ++ rest_of first t ls

  Keeps-match :
      (n : ℕ) (s : GrepState) (l : List ℕ) (ls : List (List ℕ))
      → Inv n s
      → is_empty (search l) ≡ false
      → Keeps n s (grep_line search before after s l) l ls
  unfolding grep_line
  Keeps-match n s l ls v m =
      let i : ℕ = next_index s.match_index in
      let t : GrepTrace = record { line_no = s.line_no; matched = true; line = l } in
      rw (m, push_back-nil search before after)
        (record {
          first = s.line_no + 1;
          inv = record {
            short = omega arith;
            numbered = omega arith;
            unmatched = tt;
            idle = λ h. refl;
          };
          same =
              ap (λ k. s.selected_lines ++ k)
                (rest_at_match search before after s.after_count n s.match_index s.before_buffer l
                    ls v.short v.unmatched v.idle m
                  ∙ ap
                      (λ k.
                        select i s.before_buffer
                        ++ (record { line_no = k; match_index = i; line = l }
                            ∷ look_ahead search before after after (k + 1) i ls))
                      v.numbered)
              ∙ sym (
                  ap (λ k. k ++ look_ahead search before after after (s.line_no + 1) i ls)
                    (ap (λ k. s.selected_lines ++ k)
                      (select-append search before after i s.before_buffer (t ∷ [])))
                  ∙ append_assoc s.selected_lines (select i s.before_buffer ++ select i (t ∷ []))
                      (look_ahead search before after after (s.line_no + 1) i ls)
                  ∙ ap (λ k. s.selected_lines ++ k)
                      (append_assoc (select i s.before_buffer) (select i (t ∷ []))
                        (look_ahead search before after after (s.line_no + 1) i ls)));
        })

  -- a line that follows a match
  Keeps-after :
      (n : ℕ) (s : GrepState) (l : List ℕ) (ls : List (List ℕ))
      → Inv n s
      → is_empty (search l) ≡ true
      → 0 < s.after_count
      → Keeps n s (grep_line search before after s l) l ls
  unfolding grep_line look_ahead
  Keeps-after n s l ls v m more =
      let e = v.idle more in
      let number : n ≡ s.line_no = omega (arith, v.numbered, ap length e) in
      rw (m, lt→ltb 0 s.after_count more, e, push_back-nil search before after)
        (record {
          first = s.line_no + 1;
          inv = record {
            short = omega arith;
            numbered = omega arith;
            unmatched = tt;
            idle = λ h. refl;
          };
          same =
              rw (look_ahead, m, lt→ltb 0 s.after_count more, number)
                (sym (
                  append_assoc s.selected_lines
                    (record { line_no = s.line_no; match_index = s.match_index; line = l } ∷ [])
                    (look_ahead search before after (s.after_count - 1) (s.line_no + 1)
                      s.match_index ls)));
        })

  -- a line that may come before a match
  Keeps-before :
      (n : ℕ) (s : GrepState) (l : List ℕ) (ls : List (List ℕ))
      → Inv n s
      → is_empty (search l) ≡ true
      → s.after_count ≡ 0
      → Keeps n s (grep_line search before after s l) l ls
  unfolding grep_line
  Keeps-before n s l ls v m none_left =
      let t : GrepTrace = record { line_no = s.line_no; matched = false; line = l } in
      let ts = s.before_buffer ++ (t ∷ []) in
      let us = push_back search before after ts in
      let len : length ts ≡ length s.before_buffer + 1 = length-append s.before_buffer (t ∷ []) in
      let (k, count, u, e) =
        look_ahead_push search before after n s.match_index ts us ls
          (push_back_cases search before after ts)
          (AreUnmatched-snoc search before after n s.before_buffer t v.unmatched m
            (omega (arith, v.numbered))) in
      rw (m, le→ltb 0 s.after_count (omega arith))
        (record {
          first = k;
          inv = record {
            short = length-push_back search before after ts (omega (arith, v.short));
            numbered = omega (arith, v.numbered);
            unmatched = u;
            idle = λ h. absurd (omega arith);
          };
          same =
              ap (λ k. s.selected_lines ++ k)
                (ap
                    (λ a.
                      look_ahead search before after a n s.match_index
                        (lines_of search before after s.before_buffer ++ (l ∷ ls)))
                    none_left
                  ∙ ap (look_ahead search before after 0 n s.match_index)
                      (sym (lines_of-snoc search before after s.before_buffer t ls))
                  ∙ e
                  ∙ ap
                      (λ a.
                        look_ahead search before after a k s.match_index
                          (lines_of search before after us ++ ls))
                      (sym none_left));
        })

  Keeps-grep_line :
      (n : ℕ) (s : GrepState) (l : List ℕ) (ls : List (List ℕ))
      → Inv n s
      → Keeps n s (grep_line search before after s l) l ls
  Keeps-grep_line n s l ls v = elim (Bool-cases (is_empty (search l))) [
    | inr m ↦ Keeps-match n s l ls v m
    | inl m ↦ elim (Bool-cases (ltb 0 s.after_count)) [
      | inl more ↦ Keeps-after n s l ls v m (ltb→lt 0 s.after_count more)
      | inr more ↦ Keeps-before n s l ls v m (omega (arith, ltb→le 0 s.after_count more))
    ]
  ]

  grep_lines-look_ahead :
      (ls : List (List ℕ)) (n : ℕ) (s : GrepState)
      → Inv n s
      → (grep_lines search before after s ls).selected_lines ≡ s.selected_lines ++ rest_of n s ls
  unfolding grep_lines
  grep_lines-look_ahead [] n s v =
      sym (append-nil s.selected_lines)
      ∙ ap (λ k. s.selected_lines ++ k)
          (sym (
            look_ahead-nil search before after s.after_count n s.match_index s.before_buffer v.idle
              v.unmatched))
  grep_lines-look_ahead (l ∷ ls) n s v =
      let k = Keeps-grep_line n s l ls v in
      grep_lines-look_ahead ls k.first (grep_line search before after s l) k.inv ∙ sym k.same

  -- `GrepFile` selects exactly the lines that the description above selects, in the order of the
  -- file and each once: a line that matches, one of the `after` lines behind a match, and one of
  -- the `before` lines ahead of one, each with its number, its text and the index of that match;
  -- the matches are the lines that match with their numbers and ranges. The first `after` lines of
  -- the file are selected as if a match stood before them.
  pub grep_file-look_ahead :
      (lines : List (List ℕ))
      → grep_file search before after lines ≡ record {
        matches = matching search before after 1 lines;
        selected_lines = look_ahead search before after after 1 no_match lines;
      }
  unfolding grep_file
  grep_file-look_ahead lines = λ k. record {
    matches = grep_lines-matching search before after lines (grep_start search before after) k;
    selected_lines =
        grep_lines-look_ahead lines 1 (grep_start search before after)
          (record { short = omega arith; numbered = omega arith; unmatched = tt; idle = λ h. refl })
          k;
  }
