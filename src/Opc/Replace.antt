-- ===== src/Opc/Replace.antt =====
-- `SReplaceVisit`, `TraverseFile` and `FindAndReplace` on strings (opc/FileHandler.cpp,
-- opc/FileHandler.hpp). A text is its bytes, and so is a file.
pub mod Scan
pub mod Regular
use oldpart.Base.{
  ℕ, zero, suc, ◌+◌, ◌-◌, Bool, true, false, ◌&&◌, Option, none, some, List, [], ◌∷◌, ◌++◌, length,
  take, drop, ltb, ◌==◌, if◌then◌else◌, Outcome, ok, err, no_fuel, ◌>>=◌,
}

abbrev pub is_prefix : List ℕ → List ℕ → Bool
is_prefix [] ys = true
is_prefix (x ∷ xs) [] = false
is_prefix (x ∷ xs) (y ∷ ys) = (x == y) && is_prefix xs ys

abbrev pub shift : ℕ → Option ℕ → Option ℕ
shift n none = none
shift n (some i) = some (n + i)

-- the first place at which a text stands in another
unfoldable pub find : List ℕ → List ℕ → Option ℕ
find text [] = if is_prefix text [] then some 0 else none
find text (c ∷ cs) =
    let rest = shift 1 (find text cs) in if is_prefix text (c ∷ cs) then some 0 else rest

-- `line.find(text, pos)`
unfoldable pub find_from : List ℕ → List ℕ → ℕ → Option ℕ
find_from line text pos =
    if ltb (length line) pos then none else shift pos (find text (drop pos line))

-- `line.replace(i, n, to)`
abbrev pub replace : List ℕ → ℕ → ℕ → List ℕ → List ℕ
replace line i n to = take i line ++ to ++ drop (i + n) line

-- The loop of `SReplaceVisit`, from the call of `find` at `pos` on.
unfoldable pub replace_loop : ℕ → List ℕ → List ℕ → List ℕ → ℕ → Outcome (List ℕ)
replace_loop zero from to line pos = elim (find_from line from pos) [
  | none ↦ ok line
  | some i ↦ err no_fuel
]
replace_loop (suc fuel) from to line pos = elim (find_from line from pos) [
  | none ↦ ok line
  | some i ↦ replace_loop fuel from to (replace line i (length from) to) (i + length to)
]

-- `SReplaceVisit::operator()`; a round passes a byte of the line.
unfoldable pub replace_visit : List ℕ → List ℕ → List ℕ → Outcome (List ℕ)
replace_visit from to line = replace_loop (length line) from to line 0

-- `getline` until the end: the lines of a text, without their newlines; what stands behind the last
-- newline is a line when it is not empty.
abbrev pub on_line : ℕ → List (List ℕ) → List (List ℕ)
on_line c [] = (c ∷ []) ∷ []
on_line c (l ∷ ls) = (c ∷ l) ∷ ls

unfoldable pub get_lines : List ℕ → List (List ℕ)
get_lines [] = []
get_lines (c ∷ cs) = let ls = get_lines cs in if c == 10 then [] ∷ ls else on_line c ls

-- each line written with `std::endl`
unfoldable pub put_lines : List (List ℕ) → List ℕ
put_lines [] = []
put_lines (l ∷ ls) = l ++ (10 ∷ put_lines ls)

-- the `while` loop of `TraverseFile`
unfoldable pub traverse_lines :
    (List ℕ → Outcome (List ℕ)) → List (List ℕ) → Outcome (List (List ℕ))
traverse_lines visit [] = ok []
traverse_lines visit (l ∷ ls) = visit l >>= λ t. traverse_lines visit ls >>= λ ts. ok (t ∷ ts)

-- What stands under the path and under the one with "temp~" behind it.
pub record Disk : Type 0 where
  pub file : Option (List ℕ)
  pub temp : Option (List ℕ)

-- Whether the streams on the two paths can be opened, and `remove` and `rename` succeed.
pub record Calls : Type 0 where
  pub opens : Bool
  pub temp_opens : Bool
  pub removes : Bool
  pub renames : Bool

-- what is left on the disk, and whether an exception was raised
pub record Left : Type 0 where
  pub disk : Disk
  pub raised : Bool

-- A temporary file that cannot be opened goes unnoticed: what is written to it is lost.
abbrev pub write_temp : Calls → List ℕ → Disk → Disk
write_temp c text d = elim c.temp_opens [ true ↦ record d { temp = some text } | false ↦ d ]

-- `rename(pathTemp, filePath)`; there has to be a file to be renamed.
abbrev pub rename_temp : Calls → Disk → Left
rename_temp c d = elim d.temp [
  | none ↦ record { disk = d; raised = true }
  | some text ↦ elim c.renames [
    | true ↦ record { disk = record { file = some text; temp = none }; raised = false }
    | false ↦ record { disk = d; raised = true }
  ]
]

-- from the end of the loop on, with `remove(filePath)`
unfoldable pub replace_file : Calls → Disk → List (List ℕ) → Left
replace_file c d ls =
    let written = write_temp c (put_lines ls) d in
    elim c.removes [
      | true ↦ rename_temp c (record written { file = none })
      | false ↦ record { disk = written; raised = true }
    ]

-- `TraverseFile`, on a text that is there and can be opened
unfoldable pub traverse_opened : (List ℕ → Outcome (List ℕ)) → Calls → Disk → List ℕ → Outcome Left
traverse_opened visit c d text =
    traverse_lines visit (get_lines text) >>= λ ls. ok (replace_file c d ls)

unfoldable pub traverse_file : (List ℕ → Outcome (List ℕ)) → Calls → Disk → Outcome Left
traverse_file visit c d = elim d.file [
  | none ↦ ok (record { disk = d; raised = true })
  | some text ↦ elim c.opens [
    | true ↦ traverse_opened visit c d text
    | false ↦ ok (record { disk = d; raised = true })
  ]
]

-- `FindAndReplace(filePath, strFrom, strTo)`
unfoldable pub find_and_replace : List ℕ → List ℕ → Calls → Disk → Outcome Left
find_and_replace from to c d = traverse_file (replace_visit from to) c d

-- `boost::xpressive::regex_replace` on a line, an expression and the text put in is a parameter.
module _ {Regex : Type 0} (regex_replace : List ℕ → Regex → List ℕ → List ℕ) where
  -- `ReplaceVisit::operator()`
  unfoldable pub regex_visit : Regex → List ℕ → List ℕ → Outcome (List ℕ)
  regex_visit from to line = ok (regex_replace line from to)

  -- `FindAndReplace(filePath, regFrom, strTo)`
  unfoldable pub find_and_replace_regex : Regex → List ℕ → Calls → Disk → Outcome Left
  unfolding regex_visit
  find_and_replace_regex from to c d = traverse_file (regex_visit from to) c d
