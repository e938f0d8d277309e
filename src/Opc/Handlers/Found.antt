-- ===== src/Opc/Handlers/Found.antt =====
-- `OnGrepFilesRequest` (opc/OPCBasic.cpp).
use oldpart.Base.{◌≡◌, ◌<◌, ◌^◌, refl, none, List, [], ◌∷◌, map, lt→ltb}
use oldpart.Opc.Files.{FilePath, done, Entries}
use oldpart.Opc.Files.Walk.{AreReadable, walk_all, keep}
use oldpart.Opc.Grep.{grep_file}
use oldpart.Opc.Handlers.{
  Regex, regex_search, FileSystem, GrepFilesRequest, GrepFilesResult, check_counts, grep_path,
  grep_each, grep_all,
}
use oldpart.Opc.Handlers.Listed.{find_paths-walk}

-- what is stored for a path: the result of reading the path of the request
abbrev pub result_for : FileSystem → GrepFilesRequest → Regex → FilePath → GrepFilesResult
result_for fs q r p = record {
  path = p;
  single_matches = grep_file r q.before q.after (fs.lines q.path);
}

module _ (fs : FileSystem) (q : GrepFilesRequest) (r : Regex)
    (c : fs.compile q.pattern ≡ done r) where
  grep_each-map :
      (ps : List FilePath)
      → grep_each fs q ps ≡ record { stored = map (result_for fs q r) ps; failure = none }
  unfolding grep_each grep_path
  grep_each-map [] = refl
  grep_each-map (p ∷ ps) = rw (grep_each, grep_path, c, grep_each-map ps) refl

  -- A search in files with one pattern that compiles, in a tree whose directories can be opened,
  -- takes as its files the directories and the paths that this pattern is found in, whatever the
  -- pattern for paths says, and stores for each of them one and the same result: that of reading
  -- the path of the request itself.
  pub grep_all_same :
      (es : Entries)
      → q.before < 2 ^ 31
      → q.after < 2 ^ 31
      → fs.tree q.path ≡ done es
      → AreReadable es
      → grep_all fs q ≡ record {
        stored = map (result_for fs q r) (keep (regex_search r) (walk_all es));
        failure = none;
      }
  unfolding grep_all check_counts
  grep_all_same es b a t h =
      rw
        (
          lt→ltb q.before (2 ^ 31) b,
          lt→ltb q.after (2 ^ 31) a,
          find_paths-walk fs q.path q.pattern r es c t h,
        )
        (grep_each-map (keep (regex_search r) (walk_all es)))
