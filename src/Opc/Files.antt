-- ===== src/Opc/Files.antt =====
-- `FindFiles` and `CopyFiles` (opc/FileHandler.cpp), and what they and opc/OPCBasic.cpp use of
-- boost::filesystem and boost::xpressive.
pub mod Walk
use oldpart.Base.{
  ℕ, ◌+◌, Bool, true, false, ◌||◌, Option, none, some, List, [], ◌∷◌, ◌++◌, if◌then◌else◌,
}

abbrev pub FilePath : Type 0
FilePath = List ℕ

-- A `filesystem_error` with its code, or another exception; with what they say.
pub data Exception : Type 0 where
  filesystem_error : ℕ → List ℕ → Exception
  other_exception : List ℕ → Exception

pub data Attempt {ℓ} (A : Type ℓ) : Type ℓ where
  done : A → Attempt A
  raised : Exception → Attempt A

infixl 5 ◌>>=◌
abbrev pub ◌>>=◌ {ℓ κ} : {A : Type ℓ} {B : Type κ} → Attempt A → (A → Attempt B) → Attempt B
raised e >>= f = raised e
done a >>= f = f a

-- What a `directory_iterator` yields: files, directories with their own contents, and directories
-- that cannot be opened. The tree is finite: no link leads back up.
mutual
  pub data Entry : Type 0 where
    file : FilePath → Entry
    directory : FilePath → Entries → Entry
    locked : FilePath → Exception → Entry

  pub data Entries : Type 0 where
    nil : Entries
    cons : Entry → Entries → Entries

-- `Filter`: of a path, and whether it is a directory
abbrev pub Filter : Type 0
Filter = FilePath → Bool → Bool

-- `FindFiles(dirPath, filter, out)`: what is appended to `out`
unfoldable mutual
  pub find_files : Filter → Entries → Attempt (List FilePath)
  find_files filter nil = done []
  find_files filter (cons e es) =
      find_entry filter e >>= λ ps. find_files filter es >>= λ qs. done (ps ++ qs)

  pub find_entry : Filter → Entry → Attempt (List FilePath)
  find_entry filter (file p) = done (if filter p false then p ∷ [] else [])
  find_entry filter (directory p es) =
      let inside = find_files filter es >>= λ ps. done (p ∷ ps) in
      if filter p true then inside else done []
  find_entry filter (locked p e) = if filter p true then raised e else done []

-- `FindFiles(dirPath, pattern, out)` on a regular expression, as its `regex_search`
abbrev pub pattern_filter : (FilePath → Bool) → Filter
pattern_filter search p is_dir = is_dir || search p

-- A directory as `FindFiles` starts on it; one that cannot be opened raises.
unfoldable pub find_files_in : (FilePath → Bool) → Attempt Entries → Attempt (List FilePath)
find_files_in search root = root >>= find_files (pattern_filter search)

-- The loop of `CopyFiles`, on `copy_file` as it changes the state of the file system.
unfoldable pub copy_each {ℓ} :
    {S : Type ℓ} → (FilePath → S → Attempt S) → List FilePath → S → Attempt S
copy_each copy_file [] s = done s
copy_each copy_file (p ∷ ps) s = copy_file p s >>= copy_each copy_file ps

-- `CopyFiles`; the target of every `copy_file` is `toDir` itself.
unfoldable pub copy_files {ℓ} :
    {S : Type ℓ}
    → (FilePath → FilePath → S → Attempt S)
    → Attempt Entries
    → FilePath
    → (FilePath → Bool)
    → S
    → Attempt S
copy_files copy_file root to_dir search s =
    find_files_in search root >>= λ ps. copy_each (λ p. copy_file p to_dir) ps s
