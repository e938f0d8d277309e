-- ===== src/Opc/Grep/Description.antt =====
-- A description of what `GrepFile` (opc/OPCBasic.cpp) selects: it looks ahead for the next match
-- and keeps no buffer.
use oldpart.Base.{
  ℕ, zero, suc, ◌+◌, ◌-◌, ◌≤◌, ◌<◌, ◌≡◌, refl, sym, ap, ap₂, ◌∙◌, Bool, true, false, List, [], ◌∷◌,
  ◌++◌, length, take, ltb, if◌then◌else◌, arith,
}
use oldpart.Opc.Grep.{
  GrepMatchRange, GrepLineResult, SelectedGrepLine, GrepTrace, next_index, is_empty, select,
}

module _ (search : List ℕ → List GrepMatchRange) (before after : ℕ) where
  -- whether one of these lines matches
  unfoldable pub any_match : List (List ℕ) → Bool
  any_match [] = false
  any_match (l ∷ ls) = if is_empty (search l) then any_match ls else true

  -- The lines selected from line number `n` on, where `a` lines are still to follow the last match
  -- and `i` is its index: a line that matches, a line that follows one closely enough, with its
  -- index, and a line that one of the next `before` lines makes worth it, with the next index.
  unfoldable pub look_ahead : ℕ → ℕ → ℕ → List (List ℕ) → List SelectedGrepLine
  look_ahead a n i [] = []
  look_ahead a n i (l ∷ ls) = elim (is_empty (search l)) [
    | false ↦
        record { line_no = n; match_index = next_index i; line = l }
        ∷ look_ahead after (n + 1) (next_index i) ls
    | true ↦
        let rest = look_ahead (a - 1) (n + 1) i ls in
        if ltb 0 a
        then record { line_no = n; match_index = i; line = l } ∷ rest
        else (if any_match (take before ls)
            then record { line_no = n; match_index = next_index i; line = l } ∷ rest
            else rest)
  ]

  -- the lines that match, with their numbers from `n` on
  unfoldable pub matching : ℕ → List (List ℕ) → List GrepLineResult
  matching n [] = []
  matching n (l ∷ ls) =
      let rest = matching (n + 1) ls in
      if is_empty (search l) then rest else record { line_no = n; sub_matches = search l } ∷ rest

  abbrev pub lines_of : List GrepTrace → List (List ℕ)
  lines_of [] = []
  lines_of (t ∷ ts) = t.line ∷ lines_of ts

  -- Traces of lines that do not match, numbered from `n` on.
  abbrev pub AreUnmatched : ℕ → List GrepTrace → Type 0
  AreUnmatched n [] = Unit
  AreUnmatched n (t ∷ ts) =
      (is_empty (search t.line) ≡ true) × (t.line_no ≡ n) × AreUnmatched (n + 1) ts

  pub any_match-take :
      (k n : ℕ) (ts : List GrepTrace) (l : List ℕ) (ls : List (List ℕ))
      → length ts < k
      → AreUnmatched n ts
      → is_empty (search l) ≡ false
      → any_match (take k (lines_of ts ++ (l ∷ ls))) ≡ true
  unfolding any_match
  any_match-take zero n ts l ls h u m = absurd (omega arith)
  any_match-take (suc k) n [] l ls h u m = rw m
  any_match-take (suc k) n (t ∷ ts) l ls h u m =
      rw u.0 (any_match-take k (n + 1) ts l ls (omega arith) u.2 m)

  -- A match flushes the lines before it.
  pub look_ahead_match :
      (ts : List GrepTrace) (n i : ℕ) (l : List ℕ) (ls : List (List ℕ))
      → length ts ≤ before
      → AreUnmatched n ts
      → is_empty (search l) ≡ false
      → look_ahead 0 n i (lines_of ts ++ (l ∷ ls))
        ≡ select (next_index i) ts
          ++ (record { line_no = n + length ts; match_index = next_index i; line = l }
              ∷ look_ahead after (n + length ts + 1) (next_index i) ls)
  unfolding look_ahead
  look_ahead_match [] n i l ls h u m =
      let e : n ≡ n + 0 = omega arith in
      rw (look_ahead, m)
        (ap
          (λ k.
            record { line_no = k; match_index = next_index i; line = l }
            ∷ look_ahead after (k + 1) (next_index i) ls)
          e)
  look_ahead_match (t ∷ ts) n i l ls h u m =
      let e : n + 1 + length ts ≡ n + suc (length ts) = omega arith in
      rw (look_ahead, u.0)
        (rw (any_match-take before (n + 1) ts l ls (omega arith) u.2 m) (
          ap₂ ◌∷◌
            (ap (λ k. record { line_no = k; match_index = next_index i; line = t.line }) (sym u.1))
            (look_ahead_match ts (n + 1) i l ls (omega arith) u.2 m
              ∙ ap
                  (λ k.
                    select (next_index i) ts
                    ++ (record { line_no = k; match_index = next_index i; line = l }
                        ∷ look_ahead after (k + 1) (next_index i) ls))
                  e)))

  pub any_match_none :
      (k n : ℕ) (ts : List GrepTrace) (ls : List (List ℕ))
      → k ≡ length ts
      → AreUnmatched n ts
      → any_match (take k (lines_of ts ++ ls)) ≡ false
  unfolding any_match
  any_match_none zero n ts ls h u = refl
  any_match_none (suc k) n [] ls h u = absurd (omega arith)
  any_match_none (suc k) n (t ∷ ts) ls h u =
      rw u.0 (any_match_none k (n + 1) ts ls (omega arith) u.2)

  -- A trace that leaves the full buffer is not selected.
  pub look_ahead_drop :
      (t : GrepTrace) (ts : List GrepTrace) (n i : ℕ) (ls : List (List ℕ))
      → before ≡ length ts
      → AreUnmatched n (t ∷ ts)
      → look_ahead 0 n i (lines_of (t ∷ ts) ++ ls) ≡ look_ahead 0 (n + 1) i (lines_of ts ++ ls)
  unfolding look_ahead
  look_ahead_drop t ts n i ls h u =
      rw (look_ahead, u.0) (rw (any_match_none before (n + 1) ts ls h u.2))

  pub any_match_all :
      (k m : ℕ) (ts : List GrepTrace)
      → AreUnmatched m ts
      → any_match (take k (lines_of ts ++ [])) ≡ false
  unfolding any_match
  any_match_all zero m ts u = refl
  any_match_all (suc k) m [] u = refl
  any_match_all (suc k) m (t ∷ ts) u = rw u.0 (any_match_all k (m + 1) ts u.2)

  pub look_ahead-nil :
      (a n i : ℕ) (ts : List GrepTrace)
      → ((0 < a) → ts ≡ [])
      → AreUnmatched n ts
      → look_ahead a n i (lines_of ts ++ []) ≡ []
  unfolding look_ahead
  look_ahead-nil a n i [] h u = refl
  look_ahead-nil zero n i (t ∷ ts) h u =
      rw (look_ahead, u.0)
        (rw (any_match_all before (n + 1) ts u.2)
          (look_ahead-nil 0 (n + 1) i ts (λ p. absurd (omega arith)) u.2))
  look_ahead-nil (suc a) n i (t ∷ ts) h u = absurd (omega (arith, ap length (h (omega arith))))
