-- ===== src/Opc/Files/Walk.antt =====
-- `FindFiles` on a regular expression (opc/FileHandler.cpp) against a filtered walk of the tree.
use oldpart.Base.{
  ◌≡◌, refl, sym, ap, Bool, true, false, ◌||◌, List, [], ◌∷◌, ◌++◌, if◌then◌else◌, Bool-cases, inl,
  inr,
}
use oldpart.Opc.Files.{
  FilePath, Entry, Entries, file, directory, locked, nil, cons, done, find_files, find_entry,
  pattern_filter, find_files_in,
}

-- Every directory can be opened.
abbrev mutual
  pub IsReadable : Entry → Type 0
  IsReadable (file p) = Unit
  IsReadable (directory p es) = AreReadable es
  IsReadable (locked p e) = ⊥

  pub AreReadable : Entries → Type 0
  AreReadable nil = Unit
  AreReadable (cons e es) = IsReadable e × AreReadable es

-- all paths below a directory, each with whether it is one, a directory before its contents
unfoldable mutual
  pub walk : Entry → List (FilePath × Bool)
  walk (file p) = (p, false) ∷ []
  walk (directory p es) = (p, true) ∷ walk_all es
  walk (locked p e) = (p, true) ∷ []

  pub walk_all : Entries → List (FilePath × Bool)
  walk_all nil = []
  walk_all (cons e es) = walk e ++ walk_all es

-- the directories, and the files that the pattern is found in
unfoldable pub keep : (FilePath → Bool) → List (FilePath × Bool) → List FilePath
keep search [] = []
keep search ((p, is_dir) ∷ ps) =
    let rest = keep search ps in if is_dir || search p then p ∷ rest else rest

keep-append :
    (search : FilePath → Bool) (ps qs : List (FilePath × Bool))
    → keep search (ps ++ qs) ≡ keep search ps ++ keep search qs
unfolding keep
keep-append search [] qs = refl
keep-append search ((p, is_dir) ∷ ps) qs = elim (Bool-cases (is_dir || search p)) [
  | inl e ↦ rw e (ap (λ k. p ∷ k) (keep-append search ps qs))
  | inr e ↦ rw e (keep-append search ps qs)
]

mutual
  unfolding find_files find_entry walk walk_all keep

  find_entry-walk :
      (search : FilePath → Bool) (e : Entry)
      → IsReadable e
      → find_entry (pattern_filter search) e ≡ done (keep search (walk e))
  find_entry-walk search (file p) h = refl
  find_entry-walk search (directory p es) h = rw (find_files-walk search es h)
  find_entry-walk search (locked p e) h = absurd h

  find_files-walk :
      (search : FilePath → Bool) (es : Entries)
      → AreReadable es
      → find_files (pattern_filter search) es ≡ done (keep search (walk_all es))
  find_files-walk search nil h = refl
  find_files-walk search (cons e es) h =
      rw (find_entry-walk search e h.0, find_files-walk search es h.1)
        (ap (λ k. done k) (sym (keep-append search (walk e) (walk_all es))))

-- In a tree whose directories can be opened `FindFiles` on a pattern yields every directory and
-- every file that the pattern is found in, wherever they stand, and nothing else, each once, a
-- directory before its contents.
pub find_files_in-walk :
    (search : FilePath → Bool) (es : Entries)
    → AreReadable es
    → find_files_in search (done es) ≡ done (keep search (walk_all es))
unfolding find_files_in
find_files_in-walk search es h = find_files-walk search es h
