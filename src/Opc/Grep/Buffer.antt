-- ===== src/Opc/Grep/Buffer.antt =====
-- The traces that `GrepFile` (opc/OPCBasic.cpp) keeps of the lines before a match.
use oldpart.Base.{
  ℕ, zero, suc, ◌+◌, ◌≤◌, ◌<◌, ◌≡◌, refl, sym, ap, ◌∙◌, true, false, List, [], ◌∷◌, ◌++◌, length,
  drop, ◌==◌, arith, Bool-cases, inl, inr, ==_iff, subst, ◌⊎◌,
}
use oldpart.Opc.Grep.{GrepMatchRange, GrepTrace, next_index, is_empty, select, push_back}
use oldpart.Opc.Grep.Description.{
  look_ahead, lines_of, AreUnmatched, look_ahead_match, look_ahead_drop,
}

module _ (search : List ℕ → List GrepMatchRange) (before after : ℕ) where
  pub AreUnmatched-snoc :
      (n : ℕ) (ts : List GrepTrace) (t : GrepTrace)
      → AreUnmatched search before after n ts
      → is_empty (search t.line) ≡ true
      → t.line_no ≡ n + length ts
      → AreUnmatched search before after n (ts ++ (t ∷ []))
  AreUnmatched-snoc n [] t u m e = (m, omega arith, tt)
  AreUnmatched-snoc n (s ∷ ts) t u m e =
      (u.0, u.1, AreUnmatched-snoc (n + 1) ts t u.2 m (omega arith))

  pub lines_of-snoc :
      (ts : List GrepTrace) (t : GrepTrace) (ls : List (List ℕ))
      → lines_of search before after (ts ++ (t ∷ [])) ++ ls
        ≡ lines_of search before after ts ++ (t.line ∷ ls)
  lines_of-snoc [] t ls = refl
  lines_of-snoc (s ∷ ts) t ls = ap (λ k. s.line ∷ k) (lines_of-snoc ts t ls)

  pub length-push_back :
      (ts : List GrepTrace)
      → length ts ≤ before + 1
      → length (push_back search before after ts) ≤ before
  unfolding push_back
  length-push_back [] h = ground arith
  length-push_back (t ∷ ts) h = ground arith

  pub select-append :
      (i : ℕ) (ts us : List GrepTrace) → select i (ts ++ us) ≡ select i ts ++ select i us
  select-append i [] us = refl
  select-append i (t ∷ ts) us =
      ap (λ k. record { line_no = t.line_no; match_index = i; line = t.line } ∷ k)
        (select-append i ts us)

  pub push_back-nil : push_back search before after [] ≡ []
  unfolding push_back
  push_back-nil = ground arith

  pub rest_at_match :
      (a n i : ℕ) (ts : List GrepTrace) (l : List ℕ) (ls : List (List ℕ))
      → length ts ≤ before
      → AreUnmatched search before after n ts
      → ((0 < a) → ts ≡ [])
      → is_empty (search l) ≡ false
      → look_ahead search before after a n i (lines_of search before after ts ++ (l ∷ ls))
        ≡ select (next_index i) ts
          ++ (record { line_no = n + length ts; match_index = next_index i; line = l }
              ∷ look_ahead search before after after (n + length ts + 1) (next_index i) ls)
  unfolding look_ahead
  rest_at_match zero n i ts l ls h u idle m = look_ahead_match search before after ts n i l ls h u m
  rest_at_match (suc a) n i [] l ls h u idle m =
      let e : n ≡ n + 0 = omega arith in
      rw (look_ahead, m)
        (ap
          (λ k.
            record { line_no = k; match_index = next_index i; line = l }
            ∷ look_ahead search before after after (k + 1) (next_index i) ls)
          e)
  rest_at_match (suc a) n i (t ∷ ts) l ls h u idle m =
      absurd (omega (arith, ap length (idle (omega arith))))

  -- The line joins the buffer, or the buffer's first line leaves it.
  pub push_back_cases :
      (ts : List GrepTrace)
      → ((length ts ≡ before + 1) × (push_back search before after ts ≡ drop 1 ts))
        ⊎ (push_back search before after ts ≡ ts)
  unfolding push_back
  push_back_cases ts = elim (Bool-cases (length ts == before + 1)) [
    | inl e ↦ inl ((==_iff (length ts) (before + 1)).0 e, rw e)
    | inr e ↦ inr (rw e)
  ]

  pub look_ahead_push :
      (n i : ℕ) (ts us : List GrepTrace) (ls : List (List ℕ))
      → ((length ts ≡ before + 1) × (us ≡ drop 1 ts)) ⊎ (us ≡ ts)
      → AreUnmatched search before after n ts
      → (k : ℕ) × (k + length us ≡ n + length ts)
        × AreUnmatched search before after k us
        × (look_ahead search before after 0 n i (lines_of search before after ts ++ ls)
            ≡ look_ahead search before after 0 k i (lines_of search before after us ++ ls))
  look_ahead_push n i ts us ls (inr e) u = (
    n,
    omega (arith, ap length e),
    subst (AreUnmatched search before after n) (sym e) u,
    ap (λ k. look_ahead search before after 0 n i (lines_of search before after k ++ ls)) (sym e),
  )
  look_ahead_push n i [] us ls (inl (full, e)) u = absurd (omega arith)
  look_ahead_push n i (t ∷ ts) us ls (inl (full, e)) u = (
    n + 1,
    omega (arith, ap length e),
    subst (AreUnmatched search before after (n + 1)) (sym e) u.2,
    look_ahead_drop search before after t ts n i ls (omega arith) u
        ∙ ap
            (λ k. look_ahead search before after 0 (n + 1) i (lines_of search before after k ++ ls))
            (sym e),
  )
