-- ===== src/Opc/Handlers/Answered.antt =====
-- The responses that the handlers of opc/OPCBasic.cpp send.
use oldpart.Base.{
  ℕ, ◌+◌, ◌-◌, ◌^◌, ◌≤◌, ◌<◌, ◌≡◌, ◌⊎◌, inl, inr, refl, none, some, List, [], ltb, le→ltb,
  Bool-cases, ltb→lt, arith, Outcome, ok, err, fault,
}
use oldpart.Message.{OMessage}
use oldpart.Opc.Files.{FilePath, other_exception}
use oldpart.Opc.Handlers.{
  FileSystem, GrepFileRequest, GrepFilesRequest, Response, Run, Sent, catch_response, send_response,
  respond, no_result, check_counts, list_files, find_infos, grep_checked, grep_all,
  on_list_files_request, on_find_files_request, on_cat_file_request, on_grep_file_request,
  on_grep_files_request,
}

-- One response goes out on the socket, under the negated id of the request, with its number.
abbrev pub IsAnswer {ℓ} : {A : Type ℓ} → ℕ → OMessage → Outcome (Sent A) → Type 0
IsAnswer socket m (err e) = ⊥
IsAnswer socket m (ok t) =
    (t.socket ≡ socket) × (t.message_id + m.message_id ≡ 2 ^ 32) × (t.request_id ≡ m.request_id)

respond-IsAnswer {ℓ} :
    {A : Type ℓ} (socket : ℕ) (m : OMessage) (r : Run A)
    → 0 < m.message_id
    → m.message_id < 2 ^ 31
    → IsAnswer socket m (respond (some socket) m r)
unfolding respond send_response
respond-IsAnswer socket m r positive small = (refl, omega arith, refl)

-- Given a socket, which this program never gives them, every handler answers a request of an id from
-- 1 to 2 ^ 31 - 1 once, whatever the file system does and whether
-- or not an exception is raised: under the negated id, and with the number of the request.
pub handlers-IsAnswer :
    (fs : FileSystem) (socket : ℕ) (m : OMessage) (path : FilePath) (pattern : List ℕ)
    (q : GrepFileRequest) (qs : GrepFilesRequest)
    → 0 < m.message_id
    → m.message_id < 2 ^ 31
    → IsAnswer socket m (on_list_files_request fs (some socket) m path)
      × IsAnswer socket m (on_find_files_request fs (some socket) m path pattern)
      × IsAnswer socket m (on_cat_file_request fs (some socket) m)
      × IsAnswer socket m (on_grep_file_request fs (some socket) m q)
      × IsAnswer socket m (on_grep_files_request fs (some socket) m qs)
unfolding on_list_files_request on_find_files_request on_cat_file_request on_grep_file_request
    on_grep_files_request
handlers-IsAnswer fs socket m path pattern q qs positive small = (
  respond-IsAnswer socket m (list_files fs path) positive small,
  respond-IsAnswer socket m (find_infos fs path pattern) positive small,
  respond-IsAnswer socket m (record { stored = []; failure = none }) positive small,
  respond-IsAnswer socket m (grep_checked fs q) positive small,
  respond-IsAnswer socket m (grep_all fs qs) positive small,
)

-- Without a socket no handler answers: each of them follows a null pointer.
pub handlers_without_socket :
    (fs : FileSystem) (m : OMessage) (path : FilePath) (pattern : List ℕ) (q : GrepFileRequest)
    (qs : GrepFilesRequest)
    → (on_list_files_request fs none m path ≡ err fault)
      × (on_find_files_request fs none m path pattern ≡ err fault)
      × (on_cat_file_request fs none m ≡ err fault)
      × (on_grep_file_request fs none m q ≡ err fault)
      × (on_grep_files_request fs none m qs ≡ err fault)
unfolding on_list_files_request on_find_files_request on_cat_file_request on_grep_file_request
    on_grep_files_request respond send_response
handlers_without_socket fs m path pattern q qs = (refl, refl, refl, refl, refl)

-- A response with code -1 and nothing else than it started with.
abbrev pub IsRefusal : {A : Type 0} → A → Response A → Type 0
IsRefusal nothing r = (r.err_code ≡ 2 ^ 32 - 1) × (r.content ≡ nothing)

check_counts_refused :
    {A : Type 0} (nothing : A) (before after : ℕ) (a b : List ℕ) (rest : Run A)
    → (2 ^ 31 ≤ before) ⊎ (2 ^ 31 ≤ after)
    → IsRefusal nothing (
        catch_response
          (check_counts nothing before after (other_exception a) (other_exception b) rest))
unfolding check_counts catch_response
check_counts_refused nothing before after a b rest h = elim (Bool-cases (ltb before (2 ^ 31))) [
  | inr e ↦ rw e (refl, refl)
  | inl e ↦ elim h [
    | inl big ↦ absurd (omega (arith, ltb→lt before (2 ^ 31) e))
    | inr big ↦ rw (e, le→ltb after (2 ^ 31) big) (refl, refl)
  ]
]

-- A grep request with a negative number of lines is refused with code -1 and without any result,
-- whatever the file system holds.
pub grep_refused :
    (fs : FileSystem) (q : GrepFileRequest) (qs : GrepFilesRequest)
    → (2 ^ 31 ≤ q.before) ⊎ (2 ^ 31 ≤ q.after)
    → (2 ^ 31 ≤ qs.before) ⊎ (2 ^ 31 ≤ qs.after)
    → IsRefusal no_result (catch_response (grep_checked fs q))
      × IsRefusal [] (catch_response (grep_all fs qs))
unfolding grep_checked grep_all
grep_refused fs q qs h hs = (
  check_counts_refused no_result q.before q.after _ _ _ h,
  check_counts_refused [] qs.before qs.after _ _ _ hs,
)
