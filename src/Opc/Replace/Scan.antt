-- ===== src/Opc/Replace/Scan.antt =====
-- `SReplaceVisit` (opc/FileHandler.cpp) against one pass over the line, and on an empty text.
use oldpart.Base.{
  Bool, Outcome, ℕ, zero, suc, ◌+◌, ◌-◌, ◌≤◌, ◌≡◌, refl, sym, ap, ap₂, ◌∙◌, ◌⊎◌, true, false,
  Option, none, some, List, [], ◌∷◌, ◌++◌, append_assoc, map, length, length-append, length-take,
  length-drop, take, drop, take-append_ge, drop-append_ge, ok, err, no_fuel, arith, Bool-cases, inl,
  inr, le→ltb, Option-cases,
}
use oldpart.Opc.Replace.{
  is_prefix, shift, find, find_from, replace, replace_loop, replace_visit, traverse_lines,
  traverse_file, find_and_replace, Calls, Disk, Left, get_lines, put_lines, replace_file,
  traverse_opened,
}

-- The line with each occurrence of a text replaced, from left to right: `k` bytes of an occurrence
-- are still to be passed over. What is put in is not looked at again.
unfoldable pub scan : List ℕ → List ℕ → ℕ → List ℕ → List ℕ
scan from to k [] = []
scan from to (suc k) (c ∷ cs) = scan from to k cs
scan from to zero (c ∷ cs) = elim (is_prefix from (c ∷ cs)) [
  | true ↦ to ++ scan from to (length from - 1) cs
  | false ↦ c ∷ scan from to 0 cs
]

scan-skip :
    (from to : List ℕ) (k : ℕ) (xs : List ℕ) → scan from to k xs ≡ scan from to 0 (drop k xs)
unfolding scan
scan-skip from to zero xs = refl
scan-skip from to (suc k) [] = refl
scan-skip from to (suc k) (x ∷ xs) = scan-skip from to k xs

length-prefix-le : (ps xs : List ℕ) → is_prefix ps xs ≡ true → length ps ≤ length xs
length-prefix-le [] xs h = omega arith
length-prefix-le (p ∷ ps) [] h = absurd (ground (arith, h))
length-prefix-le (p ∷ ps) (x ∷ xs) h = omega (arith, length-prefix-le ps xs (ground (arith, h)))

module _ (f : ℕ) (fs : List ℕ) (to : List ℕ) where
  abbrev from : List ℕ
  from = f ∷ fs

  scan-none : (xs : List ℕ) → find from xs ≡ none → scan from to 0 xs ≡ xs
  unfolding scan find
  scan-none [] h = refl
  scan-none (c ∷ cs) h = elim (Bool-cases (is_prefix from (c ∷ cs))) [
    | inl e ↦ absurd (ground (arith, h, e))
    | inr e ↦ rw (scan, e) (ap (λ k. c ∷ k) (scan-none cs (ground (arith, h, e))))
  ]

  shift-some : (o : Option ℕ) (d : ℕ) → shift 1 o ≡ some d → (e : ℕ) × (o ≡ some e) × (d ≡ suc e)
  shift-some none d h = absurd (ground (arith, h))
  shift-some (some e) d h = (e, refl, ground (arith, h))

  find_cases :
      (c : ℕ) (cs : List ℕ) (d : ℕ)
      → find from (c ∷ cs) ≡ some d
      → ((is_prefix from (c ∷ cs) ≡ true) × (d ≡ 0))
        ⊎ ((is_prefix from (c ∷ cs) ≡ false) × ((e : ℕ) × (find from cs ≡ some e) × (d ≡ suc e)))
  unfolding find
  find_cases c cs d h = elim (Bool-cases (is_prefix from (c ∷ cs))) [
    | inl p ↦ inl (p, ground (arith, h, p))
    | inr p ↦ inr (p, shift-some (find from cs) d (ground (arith, h, p)))
  ]

  drop-suc : (a n : ℕ) (c : ℕ) (cs : List ℕ) → a ≡ suc n → drop a (c ∷ cs) ≡ drop n cs
  drop-suc a n c cs e = ap (λ k. drop k (c ∷ cs)) e

  find-nil : (d : ℕ) → find from [] ≡ some d → ⊥
  unfolding find
  find-nil d h = ground (arith, h)

  -- what the scan does up to the end of the first occurrence
  scan-some :
      (xs : List ℕ) (d : ℕ)
      → find from xs ≡ some d
      → (scan from to 0 xs ≡ take d xs ++ to ++ scan from to 0 (drop (d + length from) xs))
        × (d + length from ≤ length xs)
  unfolding scan
  scan-some [] d h = absurd (find-nil d h)
  scan-some (c ∷ cs) d h = elim (find_cases c cs d h) [
    | inl (p, z) ↦
        rw (scan, p, z)
          (
            ap (λ k. to ++ k)
                (scan-skip from to (length from - 1) cs
                  ∙ ap (scan from to 0)
                      (sym (drop-suc (0 + length from) (length from - 1) c cs (omega arith)))),
            omega (arith, length-prefix-le from (c ∷ cs) p),
          )
    | inr (p, (e, q, z)) ↦
        let r = scan-some cs e q in
        rw (scan, p, z)
          (
            ap (λ k. c ∷ k)
                (r.0
                  ∙ ap (λ k. take e cs ++ to ++ scan from to 0 k)
                      (sym (drop-suc (suc e + length from) (e + length from) c cs (omega arith)))),
            omega (arith, r.1),
          )
  ]

  find_from_lem :
      (done rest : List ℕ)
      → find_from (done ++ rest) from (length done) ≡ shift (length done) (find from rest)
  unfolding find_from
  find_from_lem done rest =
      rw (le→ltb (length (done ++ rest)) (length done) (omega (arith, length-append done rest))) (
        ap (λ k. shift (length done) (find from k))
          (drop-append_ge (length done) 0 done rest (omega arith)))

  replace_lem :
      (done rest : List ℕ) (d : ℕ)
      → replace (done ++ rest) (length done + d) (length from) to
        ≡ done ++ take d rest ++ to ++ drop (d + length from) rest
  replace_lem done rest d =
      ap₂ (λ u v. u ++ to ++ v) (take-append_ge (length done + d) d done rest refl)
        (drop-append_ge (length done + d + length from) (d + length from) done rest (omega arith))

  replace_loop-scan :
      (fuel : ℕ) (done rest : List ℕ)
      → length rest ≤ fuel
      → replace_loop fuel from to (done ++ rest) (length done) ≡ ok (done ++ scan from to 0 rest)
  unfolding replace_loop
  replace_loop-scan zero done rest h = elim (Option-cases (find from rest)) [
    | inl e ↦
        rw (replace_loop, find_from_lem done rest, e)
          (ap (λ k. ok (done ++ k)) (sym (scan-none rest e)))
    | inr (d, e) ↦ absurd (omega (arith, (scan-some rest d e).1))
  ]
  replace_loop-scan (suc fuel) done rest h = elim (Option-cases (find from rest)) [
    | inl e ↦
        rw (replace_loop, find_from_lem done rest, e)
          (ap (λ k. ok (done ++ k)) (sym (scan-none rest e)))
    | inr (d, e) ↦
        let (same, short) = scan-some rest d e in
        let next = done ++ take d rest ++ to in
        let tail = drop (d + length from) rest in
        let place : length done + d + length to ≡ length next = omega (
          arith,
          length-append (done ++ take d rest) to,
          length-append done (take d rest),
          length-take d rest,
        ) in
        rw (replace_loop, find_from_lem done rest, e)
          (ap₂ (λ u v. replace_loop fuel from to u v) (replace_lem done rest d) place
            ∙ replace_loop-scan fuel next tail (omega (arith, length-drop (d + length from) rest))
            ∙ ap (λ k. ok k)
                (append_assoc (done ++ take d rest) to (scan from to 0 tail)
                  ∙ append_assoc done (take d rest) (to ++ scan from to 0 tail)
                  ∙ ap (λ k. done ++ k)
                      (sym (append_assoc (take d rest) to (scan from to 0 tail)) ∙ sym same)))
  ]

  -- Replacing a text that is not empty ends, and yields the line with each of its occurrences, from
  -- left to right and without overlap, replaced; what is put in is not looked at again.
  pub replace_visit-scan :
      (line : List ℕ) → replace_visit (f ∷ fs) to line ≡ ok (scan (f ∷ fs) to 0 line)
  unfolding replace_visit
  replace_visit-scan line = replace_loop-scan (length line) [] line (omega arith)

  -- the same for all lines of a file
  traverse_lines-scan :
      (ls : List (List ℕ))
      → traverse_lines (replace_visit (f ∷ fs) to) ls ≡ ok (map (scan (f ∷ fs) to 0) ls)
  unfolding traverse_lines
  traverse_lines-scan [] = refl
  traverse_lines-scan (l ∷ ls) = rw (replace_visit-scan l, traverse_lines-scan ls)

  -- the file that comes out of a text
  abbrev pub replaced : List ℕ → List ℕ
  replaced text = put_lines (map (scan (f ∷ fs) to 0) (get_lines text))

  traverse_opened-scan :
      (c : Calls) (d : Disk) (text : List ℕ)
      → traverse_opened (replace_visit (f ∷ fs) to) c d text
        ≡ ok (replace_file c d (map (scan (f ∷ fs) to 0) (get_lines text)))
  unfolding traverse_opened
  traverse_opened-scan c d text = rw (traverse_lines-scan (get_lines text)) refl

  -- `FindAndReplace` of a text that is not empty ends. Where all the calls on the disk succeed, the
  -- file has each line's occurrences of the text replaced, from left to right and without overlap,
  -- and a newline behind every line. A file that is not there or cannot be opened is an exception,
  -- with nothing changed. Where the file cannot be removed, it stays beside the temporary one, and
  -- where that cannot be renamed, it alone stays; both are exceptions. Where no temporary file can be
  -- opened, and none stood there, the file is removed all the same, an exception is raised, and the
  -- text is lost.
  pub find_and_replace-scan :
      (text : List ℕ) (temp : Option (List ℕ)) (x y z : Bool)
      → let old : Disk = record { file = some text; temp = temp } in
        let run : Bool → Bool → Bool → Bool → Disk → Outcome Left = λ o t r n.
          find_and_replace
            (f ∷ fs)
            to
            (record { opens = o; temp_opens = t; removes = r; renames = n }) in
        let fails : Disk → Outcome Left = λ d. ok (record { disk = d; raised = true }) in
        (run true true true true old
          ≡ ok (record {
            disk = record { file = some (replaced text); temp = none };
            raised = false;
          }))
        × (run x true y z (record { file = none; temp = temp })
            ≡ fails (record { file = none; temp = temp }))
        × (run false x y z old ≡ fails old)
        × (run true true false z old
            ≡ fails (record { file = some text; temp = some (replaced text) }))
        × (run true true true false old
            ≡ fails (record { file = none; temp = some (replaced text) }))
        × (run true false true z (record { file = some text; temp = none })
            ≡ fails (record { file = none; temp = none }))
  unfolding find_and_replace traverse_file replace_file
  find_and_replace-scan text temp x y z = (
    traverse_opened-scan _ _ text,
    refl,
    refl,
    traverse_opened-scan _ _ text,
    traverse_opened-scan _ _ text,
    traverse_opened-scan _ _ text,
  )

find-empty : (xs : List ℕ) → find [] xs ≡ some 0
unfolding find
find-empty [] = refl
find-empty (x ∷ xs) = refl

find_from-empty : (line : List ℕ) (pos : ℕ) → pos ≤ length line → find_from line [] pos ≡ some pos
unfolding find_from
find_from-empty line pos h =
    rw (le→ltb (length line) pos h, find-empty (drop pos line)) (ap (λ k. some k) (omega arith))

length-replace_empty :
    (line to : List ℕ) (pos : ℕ)
    → pos ≤ length line
    → pos + length to ≤ length (replace line pos 0 to)
length-replace_empty line to pos h = omega (
  arith,
  length-append (take pos line ++ to) (drop (pos + 0) line),
  length-append (take pos line) to,
  length-take pos line,
)

-- Replacing the empty text never ends, from any position within the line on, whatever the line and
-- the rounds allowed.
pub replace_loop_empty :
    (fuel : ℕ) (to line : List ℕ) (pos : ℕ)
    → pos ≤ length line
    → replace_loop fuel [] to line pos ≡ err no_fuel
unfolding replace_loop
replace_loop_empty zero to line pos h = rw (replace_loop, find_from-empty line pos h)
replace_loop_empty (suc fuel) to line pos h =
    rw (replace_loop, find_from-empty line pos h)
      (replace_loop_empty fuel to (replace line pos 0 to) (pos + length to)
        (length-replace_empty line to pos h))
