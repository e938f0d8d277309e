-- ===== src/Opc/Handlers/Listed.antt =====
-- `OnListFilesRequest` and `OnFindFilesRequest` (opc/OPCBasic.cpp) against what the file system
-- holds.
use oldpart.Base.{ℕ, ◌≡◌, refl, Option, none, some, List, [], ◌∷◌, ◌++◌}
use oldpart.Opc.Files.{FilePath, Exception, Attempt, done, raised, Entries}
use oldpart.Opc.Files.Walk.{AreReadable, walk_all, keep, find_files_in-walk}
use oldpart.Opc.Handlers.{
  Regex, regex_search, FileSystem, FileInfo, collect, get_file_info, list_files, find_paths,
  find_infos,
}

-- The call returns these values for these paths.
abbrev pub Yields : {A : Type 0} → (FilePath → Attempt A) → List FilePath → List A → Type 0
Yields f [] [] = Unit
Yields f [] (a ∷ xs) = ⊥
Yields f (p ∷ ps) [] = ⊥
Yields f (p ∷ ps) (a ∷ xs) = (f p ≡ done a) × Yields f ps xs

pub collect_all :
    {A : Type 0} (f : FilePath → Attempt A) (last : Option Exception) (ps : List FilePath)
    (xs : List A)
    → Yields f ps xs
    → collect f last ps ≡ record { stored = xs; failure = last }
unfolding collect
collect_all f last [] [] h = refl
collect_all f last [] (a ∷ xs) h = absurd h
collect_all f last (p ∷ ps) [] h = absurd h
collect_all f last (p ∷ ps) (a ∷ xs) h = rw (collect, h.0, collect_all f last ps xs h.1) refl

pub collect_until :
    {A : Type 0} (f : FilePath → Attempt A) (last : Option Exception) (ps : List FilePath)
    (xs : List A) (p : FilePath) (qs : List FilePath) (e : Exception)
    → Yields f ps xs
    → f p ≡ raised e
    → collect f last (ps ++ (p ∷ qs)) ≡ record { stored = xs; failure = some e }
unfolding collect
collect_until f last [] [] p qs e h r = rw (collect, r) refl
collect_until f last [] (a ∷ xs) p qs e h r = absurd h
collect_until f last (x ∷ ps) [] p qs e h r = absurd h
collect_until f last (x ∷ ps) (a ∷ xs) p qs e h r =
    rw (collect, h.0, collect_until f last ps xs p qs e h.1 r) refl

module _ (fs : FileSystem) where
  -- Where the size of a path cannot be told, xs of a directory, listing it ends with that
  -- exception before anything is stored.
  pub list_files_unsized :
      (p : FilePath) (t : ℕ) (e : Exception)
      → fs.status p ≡ done t
      → fs.file_size p ≡ raised e
      → list_files fs p ≡ record { stored = []; failure = some e }
  unfolding list_files get_file_info
  list_files_unsized p t e s z = rw (list_files, get_file_info, s, z) refl

  -- The paths found in a directory, when all in it can be opened.
  pub find_paths-walk :
      (path : FilePath) (pattern : List ℕ) (r : Regex) (es : Entries)
      → fs.compile pattern ≡ done r
      → fs.tree path ≡ done es
      → AreReadable es
      → find_paths fs path pattern ≡ done (keep (regex_search r) (walk_all es))
  unfolding find_paths
  find_paths-walk path pattern r es c t h = rw (c, t) (find_files_in-walk (regex_search r) es h)

  -- A search stores the data of the paths found, in the order of the walk, up to the first path
  -- whose data cannot be read, and ends with its exception; none after it is stored. The pattern
  -- compiles and all directories can be opened.
  pub find_infos_until :
      (path : FilePath) (pattern : List ℕ) (r : Regex) (es : Entries) (ps : List FilePath)
      (infos : List FileInfo) (p : FilePath) (qs : List FilePath) (e : Exception)
      → fs.compile pattern ≡ done r
      → fs.tree path ≡ done es
      → AreReadable es
      → keep (regex_search r) (walk_all es) ≡ ps ++ (p ∷ qs)
      → Yields (get_file_info fs) ps infos
      → get_file_info fs p ≡ raised e
      → find_infos fs path pattern ≡ record { stored = infos; failure = some e }
  unfolding find_infos
  find_infos_until path pattern r es ps infos p qs e c t h k y f =
      rw (find_infos, find_paths-walk path pattern r es c t h, k)
        (collect_until (get_file_info fs) none ps infos p qs e y f)

  -- A search stores the data of every path found, in the order of the walk, when all of them can
  -- be read. The pattern compiles and all directories can be opened.
  pub find_infos_all :
      (path : FilePath) (pattern : List ℕ) (r : Regex) (es : Entries) (infos : List FileInfo)
      → fs.compile pattern ≡ done r
      → fs.tree path ≡ done es
      → AreReadable es
      → Yields (get_file_info fs) (keep (regex_search r) (walk_all es)) infos
      → find_infos fs path pattern ≡ record { stored = infos; failure = none }
  unfolding find_infos
  find_infos_all path pattern r es infos c t h y =
      rw (find_infos, find_paths-walk path pattern r es c t h)
        (collect_all (get_file_info fs) none (keep (regex_search r) (walk_all es)) infos y)
