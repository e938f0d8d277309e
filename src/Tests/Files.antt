-- ===== src/Tests/Files.antt =====
-- The file services on a small tree and a short file.
use oldpart.Base.{
  true, Bool, Outcome, ℕ, ◌≡◌, refl, false, none, some, List, [], ◌∷◌, ◌++◌, map, ◌==◌,
  if◌then◌else◌, same_text, ok, arith, literal,
}
use oldpart.Opc.Grep.{grep_file, no_match}
use oldpart.Opc.Grep.Description.{any_match, look_ahead, matching}
use oldpart.Opc.Grep.Unmatched.{first_lines, grep_file_unmatched}
use oldpart.Opc.Grep.Lookahead.{grep_file-look_ahead}
use oldpart.Opc.Replace.{find_and_replace, Disk, Left}
use oldpart.Opc.Replace.Scan.{scan, replaced, find_and_replace-scan}
use oldpart.Opc.Wildcard.{ReplaceAll, wildcard_to_regex}
use oldpart.Opc.Wildcard.Escapes.{rewrite}
use oldpart.Opc.Wildcard.Translated.{wild_char, wildcard_to_regex-rewrite}
use oldpart.Opc.Files.{
  Exception, filesystem_error, done, raised, Entries, file, directory, nil, cons, find_files_in,
}
use oldpart.Opc.Files.Walk.{walk, walk_all, keep, find_files_in-walk}
use oldpart.Opc.Handlers.{
  Regex, regex_search, FileSystem, FileInfo, GrepFilesRequest, get_file_info, find_infos, grep_all,
}
use oldpart.Opc.Handlers.Listed.{find_infos_until}
use oldpart.Opc.Handlers.Found.{result_for, grep_all_same}

-- a search that finds an x at the start of a text
abbrev starts_with_x : Regex
starts_with_x [] = []
starts_with_x (c ∷ cs) = if c == 120 then record { from = 0; to = 1 } ∷ [] else []

abbrev lines : List (List ℕ)
lines = literal "a" ∷ literal "xb" ∷ literal "c" ∷ literal "d" ∷ literal "x" ∷ []

grep_file-look_ahead_example : grep_file starts_with_x 1 1 lines ≡ record {
  matches = matching starts_with_x 1 1 1 lines;
  selected_lines = look_ahead starts_with_x 1 1 1 1 no_match lines;
}
grep_file-look_ahead_example = grep_file-look_ahead starts_with_x 1 1 lines

none_matches : any_match starts_with_x 0 2 (literal "a" ∷ literal "b" ∷ []) ≡ false
unfolding any_match
none_matches = refl

abbrev four_as : List ℕ
four_as = literal "aaaa"

abbrev made_new : List ℕ
made_new = replaced 97 (literal "a") (literal "b") four_as

find_and_replace-scan_example :
    let old : Disk = record { file = some four_as; temp = none } in
    let run : Bool → Bool → Bool → Bool → Disk → Outcome Left = λ o t r n.
      find_and_replace
        (literal "aa")
        (literal "b")
        (record { opens = o; temp_opens = t; removes = r; renames = n }) in
    let fails : Disk → Outcome Left = λ d. ok (record { disk = d; raised = true }) in
    (run true true true true old
      ≡ ok (record { disk = record { file = some made_new; temp = none }; raised = false }))
    × (run true true true true (record { file = none; temp = none })
        ≡ fails (record { file = none; temp = none }))
    × (run false true true true old ≡ fails old)
    × (run true true false true old ≡ fails (record { file = some four_as; temp = some made_new }))
    × (run true true true false old ≡ fails (record { file = none; temp = some made_new }))
    × (run true false true true (record { file = some four_as; temp = none })
        ≡ fails (record { file = none; temp = none }))
find_and_replace-scan_example =
    find_and_replace-scan 97 (literal "a") (literal "b") four_as none true true true

abbrev replacing : ReplaceAll
replacing = record { run = λ from to text. scan from to 0 text; run-scan = λ f fs to text. refl }

wildcard_to_regex-rewrite_example :
    wildcard_to_regex replacing (literal "a?.*\\")
    ≡ rewrite wild_char (literal "a?.*\\") ++ literal "$"
wildcard_to_regex-rewrite_example = wildcard_to_regex-rewrite replacing (literal "a?.*\\")

abbrev tree : Entries
tree = cons (file (literal "xa")) (
    cons (directory (literal "d") (cons (file (literal "xb")) (cons (file (literal "y")) nil))) nil)

find_files_in-walk_example :
    find_files_in (regex_search starts_with_x) (done tree)
    ≡ done (keep (regex_search starts_with_x) (walk_all tree))
find_files_in-walk_example =
    find_files_in-walk (regex_search starts_with_x) tree (tt, ((tt, (tt, tt)), tt))

abbrev is_a_directory : Exception
is_a_directory = filesystem_error 21 (literal "Is a directory")

-- The size of the directory cannot be told, and every file has the same lines.
abbrev pub file_system : FileSystem
file_system = record {
  status = λ p. done 2;
  file_size = λ p. if same_text p (literal "d") then raised is_a_directory else done 7;
  last_write_time = λ p. done 1000;
  is_symlink = λ p. done false;
  read_symlink = λ p. done [];
  is_directory = λ p. done (same_text p (literal "d"));
  entries = λ p. record { stored = literal "xb" ∷ literal "y" ∷ []; failure = none };
  tree = λ p. done tree;
  lines = λ p. lines;
  compile = λ text. done starts_with_x;
}

abbrev info : FileInfo
info = record { ftype = 2; name = literal "xa"; link2 = []; size = 7; last_modify_time = 1000 }

info_of_xa : get_file_info file_system (literal "xa") ≡ done info
unfolding get_file_info
info_of_xa = refl

no_info_of_d : get_file_info file_system (literal "d") ≡ raised is_a_directory
unfolding get_file_info
no_info_of_d = refl

paths_found :
    keep (regex_search starts_with_x) (walk_all tree)
    ≡ (literal "xa" ∷ []) ++ (literal "d" ∷ literal "xb" ∷ [])
unfolding keep walk walk_all
paths_found = refl

find_infos_until_example :
    find_infos file_system [] (literal "^x")
    ≡ record { stored = info ∷ []; failure = some is_a_directory }
find_infos_until_example =
    find_infos_until file_system [] (literal "^x") starts_with_x tree (literal "xa" ∷ [])
      (info ∷ []) (literal "d") (literal "xb" ∷ []) is_a_directory refl refl
      (tt, ((tt, (tt, tt)), tt)) paths_found (info_of_xa, tt) no_info_of_d

abbrev grep_files : GrepFilesRequest
grep_files = record {
  path = literal "d";
  find_pattern = literal "y";
  pattern = literal "^x";
  before = 1;
  after = 1;
}

grep_all_same_example : grep_all file_system grep_files ≡ record {
  stored =
      map
        (result_for file_system grep_files starts_with_x)
        (keep (regex_search starts_with_x) (walk_all tree));
  failure = none;
}
grep_all_same_example =
    grep_all_same file_system grep_files starts_with_x refl tree (omega arith) (omega arith) refl
      (tt, ((tt, (tt, tt)), tt))

grep_file_unmatched_example :
    grep_file starts_with_x 0 2 (literal "a" ∷ literal "b" ∷ []) ≡ record {
      matches = [];
      selected_lines = first_lines starts_with_x 0 2 2 1 (literal "a" ∷ literal "b" ∷ []);
    }
grep_file_unmatched_example =
    grep_file_unmatched starts_with_x 0 2 (literal "a" ∷ literal "b" ∷ []) none_matches
