-- ===== src/Opc/Handlers.antt =====
-- The handlers of opc/OPCBasic.cpp with common/OProtoResponseGuard.cpp, over boost::filesystem,
-- std::fstream and boost::xpressive as a parameter.
pub mod Answered
pub mod Listed
pub mod Found
use Prim.Native.String.{String}
use oldpart.Base.{
  ℕ, ◌+◌, ◌-◌, ◌%◌, ◌^◌, Bool, true, false, Option, none, some, List, [], ◌∷◌, ltb, if◌then◌else◌,
  Outcome, ok, deref, literal,
}
use oldpart.Base.{◌>>=◌ as bind}
use oldpart.Message.{OMessage}
use oldpart.Opc.Files.{
  FilePath, Exception, filesystem_error, other_exception, Attempt, done, raised, Entries,
  find_files_in, ◌>>=◌,
}
use oldpart.Opc.Grep.{GrepMatchRange, GrepResult, grep_file, is_empty}

-- A regular expression, as the ranges that its token iterator yields on a text.
abbrev pub Regex : Type 0
Regex = List ℕ → List GrepMatchRange

-- `regex_search`: whether there is a match
abbrev pub regex_search : Regex → FilePath → Bool
regex_search r p = elim (is_empty (r p)) [ true ↦ false | false ↦ true ]

-- What a `try` block has stored when it ends, and the exception that ended it.
pub record Run {ℓ} (A : Type ℓ) : Type ℓ where
  pub stored : A
  pub failure : Option Exception

-- The services used of the libraries. `entries` is what iterating over a directory yields and the
-- exception that ends it, `tree` a directory as `FindFiles` sees it, `lines` what `getline` reads.
pub record FileSystem : Type 0 where
  pub status : FilePath → Attempt ℕ
  pub file_size : FilePath → Attempt ℕ
  pub last_write_time : FilePath → Attempt ℕ
  pub is_symlink : FilePath → Attempt Bool
  pub read_symlink : FilePath → Attempt FilePath
  pub is_directory : FilePath → Attempt Bool
  pub entries : FilePath → Run (List FilePath)
  pub tree : FilePath → Attempt Entries
  pub lines : FilePath → List (List ℕ)
  pub compile : List ℕ → Attempt Regex

pub record FileInfo : Type 0 where
  pub ftype : ℕ
  pub name : List ℕ
  pub link2 : List ℕ
  pub size : ℕ
  pub last_modify_time : ℕ

-- A response: `OMESSAGE_RESPONSE_FIELDS`, a code as a pattern of 32 bits, and its other fields.
pub record Response {ℓ} (A : Type ℓ) : Type ℓ where
  pub err_code : ℕ
  pub err_msg : List ℕ
  pub content : A

-- `CATCH_RESPONSE`; the fields of a response start as 0 and empty.
unfoldable pub catch_response {ℓ} : {A : Type ℓ} → Run A → Response A
catch_response r = elim r.failure [
  | none ↦ record { err_code = 0; err_msg = []; content = r.stored }
  | some (filesystem_error code what) ↦ record {
    err_code = code;
    err_msg = what;
    content = r.stored;
  }
  | some (other_exception what) ↦ record {
    err_code = 2 ^ 32 - 1;
    err_msg = what;
    content = r.stored;
  }
]

-- `TSocket::Send(messageId, requestId, pProto)` as it is called
pub record Sent {ℓ} (A : Type ℓ) : Type ℓ where
  pub socket : ℕ
  pub message_id : ℕ
  pub request_id : ℕ
  pub proto : A

-- `~OProtoResponseGuard`, on the socket and the request it was made with
unfoldable pub send_response {ℓ} : {A : Type ℓ} → Option ℕ → OMessage → A → Outcome (Sent A)
send_response socket request response = bind (deref socket) (λ s. ok (record {
  socket = s;
  message_id = (2 ^ 32 - request.message_id) % 2 ^ 32;
  request_id = request.request_id;
  proto = response;
}))

-- A handler: `TRY_RESPONSE`, its block and `CATCH_RESPONSE`.
unfoldable pub respond {ℓ} :
    {A : Type ℓ} → Option ℕ → OMessage → Run A → Outcome (Sent (Response A))
respond socket request r = send_response socket request (catch_response r)

-- `push_back` in front of what the rest of a block stores
abbrev pub prepend {ℓ} : {A : Type ℓ} → A → Run (List A) → Run (List A)
prepend a r = record { stored = a ∷ r.stored; failure = r.failure }

-- a block that an exception ends before it stores anything
abbrev pub fail {ℓ} : {A : Type ℓ} → Exception → Run (List A)
fail e = record { stored = []; failure = some e }

-- A loop that appends what a call returns for each path in turn; `last` ends the iteration.
unfoldable pub collect {ℓ} :
    {A : Type ℓ} → (FilePath → Attempt A) → Option Exception → List FilePath → Run (List A)
collect f last [] = record { stored = []; failure = last }
collect f last (p ∷ ps) = elim (f p) [ raised e ↦ fail e | done a ↦ prepend a (collect f last ps) ]

-- what a negative number of lines raises
abbrev pub invalid_argument : String → Exception
invalid_argument text = other_exception (literal text)

pub record GrepFileRequest : Type 0 where
  pub path : FilePath
  pub pattern : List ℕ
  pub before : ℕ
  pub after : ℕ

pub record GrepFilesRequest : Type 0 where
  pub path : FilePath
  pub find_pattern : List ℕ
  pub pattern : List ℕ
  pub before : ℕ
  pub after : ℕ

pub record GrepFilesResult : Type 0 where
  pub path : FilePath
  pub single_matches : GrepResult

-- a response that nothing was stored in
abbrev pub no_result : GrepResult
no_result = record { matches = []; selected_lines = [] }

-- The two tests in front of a block that greps. The numbers of lines are patterns of 32 bits; room
-- for `before + 1` traces is granted.
unfoldable pub check_counts {ℓ} : {A : Type ℓ} → A → ℕ → ℕ → Exception → Exception → Run A → Run A
check_counts nothing before after no_before no_after rest =
    let on_after =
      if ltb after (2 ^ 31) then rest else record { stored = nothing; failure = some no_after } in
    if ltb before (2 ^ 31) then on_after else record { stored = nothing; failure = some no_before }

module _ (fs : FileSystem) where
  unfoldable pub get_file_info : FilePath → Attempt FileInfo
  get_file_info p = fs.status p >>= λ ftype. fs.file_size p >>= λ size.
      fs.last_write_time p >>= λ time. fs.is_symlink p >>= λ link.
      (if link then fs.read_symlink p else done []) >>= λ link2.
      done (record { ftype = ftype; name = p; link2 = link2; size = size; last_modify_time = time })

  -- the entries of a path, when it is a directory
  unfoldable pub list_entries : FilePath → Run (List FileInfo)
  list_entries p = elim (fs.is_directory p) [
    | raised e ↦ fail e
    | done true ↦ let es = fs.entries p in collect get_file_info es.failure es.stored
    | done false ↦ record { stored = []; failure = none }
  ]

  unfoldable pub list_files : FilePath → Run (List FileInfo)
  list_files p = elim (get_file_info p) [ raised e ↦ fail e | done i ↦ prepend i (list_entries p) ]

  -- `FindFiles` on a directory and the text of a pattern
  unfoldable pub find_paths : FilePath → List ℕ → Attempt (List FilePath)
  find_paths path pattern =
      fs.compile pattern >>= λ r. find_files_in (regex_search r) (fs.tree path)

  unfoldable pub find_infos : FilePath → List ℕ → Run (List FileInfo)
  find_infos path pattern = elim (find_paths path pattern) [
    | raised e ↦ fail e
    | done ps ↦ collect get_file_info none ps
  ]

  -- `GrepFile`
  unfoldable pub grep_path : FilePath → List ℕ → ℕ → ℕ → Attempt GrepResult
  grep_path path pattern before after =
      fs.compile pattern >>= λ r. done (grep_file r before after (fs.lines path))

  -- the block of `OnGrepFileRequest`
  unfoldable pub grep_checked : GrepFileRequest → Run GrepResult
  grep_checked q =
      check_counts no_result q.before q.after
        (invalid_argument "GrepFileRequest::before should greatequal 0")
        (invalid_argument "GrepFileRequest::after should greatequal 0")
        (elim (grep_path q.path q.pattern q.before q.after) [
          | raised e ↦ record { stored = no_result; failure = some e }
          | done r ↦ record { stored = r; failure = none }
        ])

  -- The loop of `OnGrepFilesRequest`: an element is stored before its file is read.
  unfoldable pub grep_each : GrepFilesRequest → List FilePath → Run (List GrepFilesResult)
  grep_each q [] = record { stored = []; failure = none }
  grep_each q (p ∷ ps) = elim (grep_path q.path q.pattern q.before q.after) [
    | raised e ↦ record {
      stored = record { path = p; single_matches = no_result } ∷ [];
      failure = some e;
    }
    | done r ↦ prepend (record { path = p; single_matches = r }) (grep_each q ps)
  ]

  -- the block of `OnGrepFilesRequest`
  unfoldable pub grep_all : GrepFilesRequest → Run (List GrepFilesResult)
  grep_all q =
      check_counts [] q.before q.after
        (invalid_argument "GrepFilesRequest::before should greatequal 0")
        (invalid_argument "GrepFilesRequest::after should greatequal 0")
        (elim (find_paths q.path q.pattern) [ raised e ↦ fail e | done ps ↦ grep_each q ps ])

  -- The handlers, on `mSocket` and the message and object they are called with.
  unfoldable pub on_list_files_request :
      Option ℕ → OMessage → FilePath → Outcome (Sent (Response (List FileInfo)))
  on_list_files_request socket m path = respond socket m (list_files path)

  unfoldable pub on_find_files_request :
      Option ℕ → OMessage → FilePath → List ℕ → Outcome (Sent (Response (List FileInfo)))
  on_find_files_request socket m path pattern = respond socket m (find_infos path pattern)

  -- `OnCatFileRequest`: an empty stream
  unfoldable pub on_cat_file_request : Option ℕ → OMessage → Outcome (Sent (Response (List ℕ)))
  on_cat_file_request socket m = respond socket m (record { stored = []; failure = none })

  unfoldable pub on_grep_file_request :
      Option ℕ → OMessage → GrepFileRequest → Outcome (Sent (Response GrepResult))
  on_grep_file_request socket m q = respond socket m (grep_checked q)

  unfoldable pub on_grep_files_request :
      Option ℕ → OMessage → GrepFilesRequest → Outcome (Sent (Response (List GrepFilesResult)))
  on_grep_files_request socket m q = respond socket m (grep_all q)
