-- ===== src/Opc/Daemon/Streams.antt =====
-- The descriptors that the daemon of opc/main.cpp runs with.
use oldpart.Base.{
  ℕ, zero, suc, ◌<◌, ◌≡◌, ◌≢◌, refl, sym, subst, ap, Option, none, some, List, [], ◌∷◌, ◌++◌, arith,
  Bool-cases, inl, inr,
}
use oldpart.Opc.Files.{Attempt, done, raised}
use oldpart.Net.Discovery.{FindOrganization, make}
use oldpart.Opc.Daemon.{
  File, null_device, log_file, Table, Call, fork_prepare, open_log, fork, setsid, chdir, umask,
  fork_child, Process, Forked, child, parent, failed, Kernel, Options, Network, Started, ended,
  running, called, assign, attach, fork_once, redirect, become_daemon, connect, serve, with_options,
  main,
}

-- The lowest descriptor that nothing stands behind.
abbrev pub IsLowest : Table → ℕ → Type 0
IsLowest t n = (t n ≡ none) × ((j : ℕ) → j < n → t j ≢ none)

-- Documented of `open` and `dup`: the descriptor that they take is the lowest free one.
abbrev pub GivesLowest : Kernel → Type 0
GivesLowest k =
    ((t : Table) (f : File) (n : ℕ) → k.open_file t f ≡ some n → IsLowest t n)
    × ((t : Table) (n m : ℕ) → k.dup t n ≡ some m → IsLowest t m)

-- Documented of `notify_fork`: it replaces descriptors that the program itself has opened, and none
-- that were open when it began.
abbrev pub KeepsInherited : Kernel → Type 0
KeepsInherited k = (start now : Table) (n : ℕ) → start n ≢ none → k.reopened start now n ≡ now n

-- The three standard streams are open.
abbrev pub HasStreams : Process → Type 0
HasStreams p = (p.descriptors 0 ≢ none) × (p.descriptors 1 ≢ none) × (p.descriptors 2 ≢ none)

-- What holds of the process, and of the server, when the event loop runs.
abbrev Runs : (FindOrganization → Process → Type 0) → Started → Type 0
Runs Q (ended n p) = Unit
Runs Q (running s p) = Q s p

-- "/dev/null" is the standard input, and the log file the standard output and the standard error.
pub record IsRedirected (q : Process) : Type 0 where
  pub input : q.descriptors 0 ≡ some null_device
  pub output : q.descriptors 1 ≡ some log_file
  pub errors : q.descriptors 2 ≡ some log_file

lowest_zero : (t : Table) (n : ℕ) → IsLowest t n → t 0 ≡ none → n ≡ 0
lowest_zero t zero l free = refl
lowest_zero t (suc n) l free = absurd (l.1 0 (omega arith) free)

lowest_one : (t : Table) (n : ℕ) (f : File) → IsLowest t n → t 0 ≡ some f → t 1 ≡ none → n ≡ 1
lowest_one t zero f l taken free = absurd (cc)
lowest_one t (suc zero) f l taken free = refl
lowest_one t (suc (suc n)) f l taken free = absurd (l.1 1 (omega arith) free)

lowest_two :
    (t : Table) (n : ℕ) (f g : File)
    → IsLowest t n
    → t 0 ≡ some f
    → t 1 ≡ some g
    → t 2 ≡ none
    → n ≡ 2
lowest_two t zero f g l a b free = absurd (cc)
lowest_two t (suc zero) f g l a b free = absurd (cc)
lowest_two t (suc (suc zero)) f g l a b free = refl
lowest_two t (suc (suc (suc n))) f g l a b free = absurd (l.1 2 (omega arith) free)

abbrev closed : Process → Process
closed p = assign 2 none (assign 1 none (assign 0 none p))

abbrev redirected : Process → Process
redirected p =
    assign 2 (some log_file) (assign 1 (some log_file) (assign 0 (some null_device) (closed p)))

redirected-IsRedirected :
    (k : Kernel) (p r : Process) (cs : List Call)
    → KeepsInherited k
    → HasStreams p
    → IsRedirected (
        called cs (record (redirected r) {
          descriptors = k.reopened p.descriptors (redirected r).descriptors;
        }))
redirected-IsRedirected k p r cs keeps has = record {
  input = keeps p.descriptors (redirected r).descriptors 0 has.0;
  output = keeps p.descriptors (redirected r).descriptors 1 has.1;
  errors = keeps p.descriptors (redirected r).descriptors 2 has.2;
}

module _ (Q : FindOrganization → Process → Type 0) where
  attach-Runs :
      (o : Option ℕ) (f : Option File) (p : Process) (next : Process → Started) (n : ℕ)
      → ((i : ℕ) → o ≡ some i → i ≡ n)
      → Runs Q (next (assign n f p))
      → Runs Q (attach o f p next)
  unfolding attach
  attach-Runs none f p next n only h = tt
  attach-Runs (some i) f p next n only h =
      subst (λ j. Runs Q (next (assign j f p))) (sym (only i refl)) h

  -- Whichever of `open` and `dup` succeed, the program goes on with the streams redirected or not
  -- at all.
  redirect-Runs :
      (k : Kernel) (p : Process) (next : Process → Started)
      → GivesLowest k
      → Runs Q (next (redirected p))
      → Runs Q (redirect k p next)
  unfolding redirect
  redirect-Runs k p next lowest h =
      let q = closed p in
      let q0 = assign 0 (some null_device) q in
      let q1 = assign 1 (some log_file) q0 in
      attach-Runs (k.open_file q.descriptors null_device) (some null_device) q _ 0
        (λ i e. lowest_zero q.descriptors i (lowest.0 q.descriptors null_device i e) refl)
        (attach-Runs (k.open_file q0.descriptors log_file) (some log_file) q0 _ 1
          (λ i e.
            lowest_one q0.descriptors i null_device (lowest.0 q0.descriptors log_file i e) refl
              refl)
          (attach-Runs (k.dup q1.descriptors 1) (some log_file) q1 next 2
            (λ i e.
              lowest_two q1.descriptors i null_device log_file (lowest.1 q1.descriptors 1 i e) refl
                refl refl)
            h))

  fork_once-Runs :
      (f : Forked) (p : Process) (next : Process → Started)
      → Runs Q (next (called (fork ∷ []) p))
      → Runs Q (fork_once f p next)
  unfolding fork_once
  fork_once-Runs child p next h = h
  fork_once-Runs parent p next h = tt
  fork_once-Runs failed p next h = tt

-- the calls of `main` when the event loop is reached
abbrev pub detached : List Call
detached = fork_prepare ∷ open_log ∷ fork ∷ setsid ∷ chdir ∷ umask ∷ fork ∷ fork_child ∷ []

-- The process runs as a daemon.
abbrev IsDaemon : Process → FindOrganization → Process → Type 0
IsDaemon p server q = IsRedirected q × (q.calls ≡ p.calls ++ detached)

become_daemon-Runs :
    (k : Kernel) (server : FindOrganization) (p : Process)
    → GivesLowest k
    → KeepsInherited k
    → HasStreams p
    → Runs (IsDaemon p) (become_daemon k server p)
unfolding become_daemon
become_daemon-Runs k server p lowest keeps has =
    let Q = IsDaemon p in
    let start : Process = record p { descriptors = k.opened p.descriptors } in
    let q = called (fork_prepare ∷ open_log ∷ []) start in
    let q2 = called (setsid ∷ chdir ∷ umask ∷ []) (called (fork ∷ []) q) in
    let r = called (fork ∷ []) q2 in
    fork_once-Runs Q k.first_fork q _ (
      fork_once-Runs Q k.second_fork q2 _ (
        redirect-Runs Q k r _ lowest
          (redirected-IsRedirected k p r (fork_child ∷ []) keeps has, joined p.calls)))
  where
    joined :
        (cs : List Call)
        → cs
            ++ (fork_prepare ∷ open_log ∷ [])
            ++ (fork ∷ [])
            ++ (setsid ∷ chdir ∷ umask ∷ [])
            ++ (fork ∷ [])
            ++ (fork_child ∷ [])
          ≡ cs ++ detached
    joined [] = refl
    joined (c ∷ cs) = ap (λ t. c ∷ t) (joined cs)

module _ (k : Kernel) (net : Network) (memory : List ℕ) (p : Process) (lowest : GivesLowest k)
    (keeps : KeepsInherited k) (has : HasStreams p) where
  serve-Runs :
      (name ip mip : List ℕ) (mport : ℕ)
      → Runs (IsDaemon p) (serve k net memory name ip mip mport p)
  unfolding serve
  serve-Runs name ip mip mport = opened (connect net ip mip mport)
    where
      opened :
          (a : Attempt ℕ)
          → Runs (IsDaemon p) (elim a [
            | raised e ↦ ended 0 p
            | done address ↦ become_daemon k (make memory address name) p
          ])
      opened (raised e) = tt
      opened (done address) = become_daemon-Runs k (make memory address name) p lowest keeps has

  with_options-Runs :
      (name ip mip : Option (List ℕ)) (mport : Option ℕ)
      → Runs (IsDaemon p) (with_options k net memory p name ip mip mport)
  unfolding with_options
  with_options-Runs none ip mip mport = tt
  with_options-Runs (some name) none mip mport = tt
  with_options-Runs (some name) (some ip) none mport = tt
  with_options-Runs (some name) (some ip) (some mip) none = tt
  with_options-Runs (some name) (some ip) (some mip) (some mport) = serve-Runs name ip mip mport

  main-Runs : (parsed : Attempt Options) → Runs (IsDaemon p) (main k net memory parsed p)
  unfolding main
  main-Runs (raised e) = tt
  main-Runs (done o) = elim (Bool-cases o.help) [
    | inl h ↦ rw h tt
    | inr h ↦ rw h (with_options-Runs o.name o.ip o.mip o.mport)
  ]

  -- Where `main` comes to its event loop, the process has been forked twice, with a session of its
  -- own from between the forks on, its standard input is "/dev/null", and its standard output
  -- and standard error are the log file. `open` and `dup` take the lowest free descriptor, the three
  -- streams are open when it is started, and `notify_fork` keeps what was.
  pub main-IsDaemon :
      (parsed : Attempt Options) (server : FindOrganization) (q : Process)
      → main k net memory parsed p ≡ running server q
      → IsRedirected q × (q.calls ≡ p.calls ++ detached)
  main-IsDaemon parsed server q e = subst (Runs (IsDaemon p)) e (main-Runs parsed)
