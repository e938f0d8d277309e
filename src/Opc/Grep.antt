-- ===== src/Opc/Grep.antt =====
-- `OPCBasic::GrepFile` (opc/OPCBasic.cpp): the lines of a file that match, with the lines round
-- them. A file is the list of its lines, fewer than 2 ^ 31; one that cannot be opened has none.
pub mod Description
pub mod Matching
pub mod Buffer
pub mod Lookahead
pub mod Unmatched
use oldpart.Base.{
  ℕ, suc, ◌+◌, ◌-◌, ◌%◌, ◌^◌, Bool, true, false, not, List, [], ◌∷◌, ◌++◌, length, take, drop, ltb,
  ◌==◌, if◌then◌else◌,
}

-- `GrepMatchRange`, `GrepLineResult`, `SelectedGrepLine` and `GrepFileResponse`, without the error
-- fields; a match index is a pattern of 32 bits.
pub record GrepMatchRange : Type 0 where
  pub from : ℕ
  pub to : ℕ

pub record GrepLineResult : Type 0 where
  pub line_no : ℕ
  pub sub_matches : List GrepMatchRange

pub record SelectedGrepLine : Type 0 where
  pub line_no : ℕ
  pub match_index : ℕ
  pub line : List ℕ

pub record GrepResult : Type 0 where
  pub matches : List GrepLineResult
  pub selected_lines : List SelectedGrepLine

pub record GrepTrace : Type 0 where
  pub line_no : ℕ
  pub matched : Bool
  pub line : List ℕ

-- The variables of the loop. The last element of the buffer, an empty trace that the next line is
-- read into, is left out of `before_buffer`.
pub record GrepState : Type 0 where
  pub line_no : ℕ
  pub match_index : ℕ
  pub after_count : ℕ
  pub before_buffer : List GrepTrace
  pub matches : List GrepLineResult
  pub selected_lines : List SelectedGrepLine

abbrev pub no_match : ℕ
no_match = 2 ^ 32 - 1

-- `++matchIndex`
abbrev pub next_index : ℕ → ℕ
next_index i = (i + 1) % 2 ^ 32

abbrev pub is_empty {ℓ} : {A : Type ℓ} → List A → Bool
is_empty [] = true
is_empty (x ∷ xs) = false

-- what a trace becomes in `selectedLines`
abbrev pub select : ℕ → List GrepTrace → List SelectedGrepLine
select i [] = []
select i (t ∷ ts) = record { line_no = t.line_no; match_index = i; line = t.line } ∷ select i ts

-- The regular expression, as the ranges that its token iterator yields on a line.
module _ (search : List ℕ → List GrepMatchRange) (before after : ℕ) where
  -- `beforeBuffer.push_back(GrepTrace())`, in a circular buffer of `before + 1` elements
  unfoldable pub push_back : List GrepTrace → List GrepTrace
  push_back buffer = if length buffer == before + 1 then drop 1 buffer else buffer

  -- the body of the loop, after `getline`
  unfoldable pub grep_line : GrepState → List ℕ → GrepState
  grep_line s line =
      let found = search line in
      let trace : GrepTrace = record {
        line_no = s.line_no;
        matched = not (is_empty found);
        line = line;
      } in
      let buffer = s.before_buffer ++ (trace ∷ []) in
      if is_empty found
      then (if ltb 0 s.after_count
          then record {
            line_no = s.line_no + 1;
            match_index = s.match_index;
            after_count = s.after_count - 1;
            before_buffer = push_back (drop 1 buffer);
            matches = s.matches;
            selected_lines = s.selected_lines ++ select s.match_index (take 1 buffer);
          }
          else record s { line_no = s.line_no + 1; before_buffer = push_back buffer })
      else record {
        line_no = s.line_no + 1;
        match_index = next_index s.match_index;
        after_count = after;
        before_buffer = push_back [];
        matches = s.matches ++ (record { line_no = s.line_no; sub_matches = found } ∷ []);
        selected_lines = s.selected_lines ++ select (next_index s.match_index) buffer;
      }

  unfoldable pub grep_lines : GrepState → List (List ℕ) → GrepState
  grep_lines s [] = s
  grep_lines s (l ∷ ls) = grep_lines (grep_line s l) ls

  -- the variables before the loop
  abbrev pub grep_start : GrepState
  grep_start = record {
    line_no = 1;
    match_index = no_match;
    after_count = after;
    before_buffer = [];
    matches = [];
    selected_lines = [];
  }

  unfoldable pub grep_file : List (List ℕ) → GrepResult
  grep_file lines =
      let s = grep_lines grep_start lines in
      record { matches = s.matches; selected_lines = s.selected_lines }
