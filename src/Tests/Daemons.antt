-- ===== src/Tests/Daemons.antt =====
-- A process that becomes a daemon, its event loop, a pool that runs, and a text under Blowfish.
use native.Mathlib.Omega.{arith}
use mathlib.Core.List.{Mem, mem-cons_self}
use oldpart.Base.{
  zero, suc, subst, ℕ, ◌<◌, ◌≡◌, ◌≢◌, refl, true, false, none, some, Option, [], ◌∷◌, ◌++◌, ◌==◌,
  replicate, ok, err, fault, literal,
}
use oldpart.Proto.Types.{All}
use oldpart.Opc.Files.{done}
use oldpart.Net.SendQueue.{success}
use oldpart.Net.Discovery.{
  FindOrganization, make, discover_size, on_received, wait_organization_exit, erase,
}
use oldpart.Opc.Daemon.{
  File, Table, Process, child, Kernel, Options, Network, running, fork_once, attach, redirect,
  become_daemon, connect, make_socket, serve, with_options, main, started, datagram, child_ended,
  on_event, run,
}
use oldpart.Opc.Daemon.Streams.{IsLowest, GivesLowest, IsRedirected, detached, main-IsDaemon}
use oldpart.Opc.Daemon.Loop.{datagram_faults}
use oldpart.Net.ContextPool.{Pool, fresh, stop}
use oldpart.Net.ContextPool.Threads.{
  Running, Step, Steps, here, step, begun, IsStopped, joined-IsStopped, run_returns,
}
use oldpart.Crypto.Keys.{BlowFish, blow_fish_encrypt, blow_fish_encrypt_lem}

-- the lowest free one of four descriptors
abbrev lowest : Table → Option ℕ
lowest t = elim (t 0) [
  | none ↦ some 0
  | some a ↦ elim (t 1) [ none ↦ some 1 | some b ↦ elim (t 2) [ none ↦ some 2 | some c ↦ none ] ]
]

lowest-IsLowest : (t : Table) (n : ℕ) → lowest t ≡ some n → IsLowest t n
lowest-IsLowest t n e = go (t 0) (t 1) (t 2) refl refl refl e
  where
    at : (k : ℕ) → t k ≡ none → ((j : ℕ) → j < k → t j ≢ none) → k ≡ n → IsLowest t n
    at k free taken same = subst (IsLowest t) same (free, taken)

    below1 : (x : File) → t 0 ≡ some x → (j : ℕ) → j < 1 → t j ≢ none
    below1 x p zero h = λ f. cc
    below1 x p (suc j) h = absurd (omega arith)

    below2 : (x y : File) → t 0 ≡ some x → t 1 ≡ some y → (j : ℕ) → j < 2 → t j ≢ none
    below2 x y p q zero h = λ f. cc
    below2 x y p q (suc zero) h = λ f. cc
    below2 x y p q (suc (suc j)) h = absurd (omega arith)

    go :
        (a b c : Option File)
        → t 0 ≡ a
        → t 1 ≡ b
        → t 2 ≡ c
        → elim a as (λ x. Option ℕ) [
          | none ↦ some 0
          | some x ↦ elim b as (λ x. Option ℕ) [
            | none ↦ some 1
            | some y ↦ elim c as (λ x. Option ℕ) [ none ↦ some 2 | some z ↦ none ]
          ]
        ]
          ≡ some n
        → IsLowest t n
    go none b c p q r k = at 0 p (λ j h. absurd (omega arith)) (cc)
    go (some x) none c p q r k = at 1 q (below1 x p) (cc)
    go (some x) (some y) none p q r k = at 2 r (below2 x y p q) (cc)
    go (some x) (some y) (some z) p q r k = absurd (cc)

abbrev kernel : Kernel
kernel = record {
  first_fork = child;
  second_fork = child;
  open_file = λ t f. lowest t;
  dup = λ t n. lowest t;
  opened = λ t. t;
  reopened = λ start now. now;
}

kernel-GivesLowest : GivesLowest kernel
kernel-GivesLowest = (λ t f n e. lowest-IsLowest t n e, λ t n m e. lowest-IsLowest t m e)

abbrev network : Network
network = record {
  make_address = λ text. done 7;
  open_socket = λ listen. done tt;
  reuse_address = λ listen. done tt;
  bind = λ listen port. done tt;
  join_group = λ multicast. done tt;
  resolve = λ text. done 7;
}

abbrev options : Options
options = record {
  help = false;
  name = some (literal "opc");
  ip = some (literal "10.0.0.7");
  mip = some (literal "239.0.0.1");
  mport = some 9000;
}

-- every descriptor open
abbrev process : Process
process = record { descriptors = λ k. some (File.other k); calls = [] }

abbrev server : FindOrganization
server = make (replicate 32 9) 7 (literal "opc")

abbrev daemon : Process
daemon = record {
  descriptors = λ k. elim (k == 2) [
    | true ↦ some File.log_file
    | false ↦ elim (k == 1) [
      | true ↦ some File.log_file
      | false ↦ elim (k == 0) [
        | true ↦ some File.null_device
        | false ↦ elim (k == 2) [
          | true ↦ none
          | false ↦ elim (k == 1) [
            | true ↦ none
            | false ↦ elim (k == 0) [ true ↦ none | false ↦ some (File.other k) ]
          ]
        ]
      ]
    ]
  ];
  calls = detached;
}

reaches : main kernel network (replicate 32 9) (done options) process ≡ running server daemon
unfolding main with_options serve connect make_socket become_daemon fork_once redirect attach
reaches = refl

main-IsDaemon_example : IsRedirected daemon × (daemon.calls ≡ [] ++ detached)
main-IsDaemon_example =
    main-IsDaemon kernel network (replicate 32 9) process kernel-GivesLowest (λ start now n e. refl)
      ((λ e. cc), (λ e. cc), λ e. cc) (done options) server daemon reaches

still_running :
    run [] (child_ended 12 ∷ datagram success 5 none ∷ []) (started server)
    ≡ ok (record (started server) { awaits_child = false })
unfolding run on_event on_received wait_organization_exit erase make
still_running = refl

datagram_faults_example :
    run []
      ((child_ended 12 ∷ datagram success 5 none ∷ [])
        ++ (datagram success discover_size none ∷ []))
      (started server)
    ≡ err fault
datagram_faults_example =
    datagram_faults [] (child_ended 12 ∷ datagram success 5 none ∷ []) [] server
      (record (started server) { awaits_child = false }) none still_running refl refl

abbrev pool : Pool
pool = record { io_contexts = fresh 0 1; next_io_context = 0 }

abbrev two_steps : Running
two_steps = record { pool = stop pool; started = 1; finished = []; joined = 0 }

to_two_steps : (t : Running) → Steps two_steps t → Steps (begun pool) t
unfolding stop fresh
to_two_steps t xs =
    step (Step.start (begun pool) (omega arith))
      (step (Step.stopped (record (begun pool) { started = 1 })) xs)

abbrev all_joined : Running
all_joined = record { pool = stop pool; started = 1; finished = 0 ∷ []; joined = 1 }

to_all_joined : Steps (begun pool) all_joined
unfolding stop fresh
to_all_joined = to_two_steps all_joined (
    step (Step.finish two_steps 0 (record { id = 0; stopped = true }) (omega arith) refl refl) (
      step (Step.join (record two_steps { finished = 0 ∷ [] }) refl (omega arith) mem-cons_self)
        (here all_joined)))

stop_pool-IsStopped : IsStopped (stop pool)
unfolding stop fresh
stop_pool-IsStopped = refl

joined-IsStopped_example : IsStopped all_joined.pool × Mem 0 all_joined.finished
joined-IsStopped_example =
    joined-IsStopped 1 0 pool all_joined refl (omega arith) to_all_joined refl

run_returns_example : (t : Running) × Steps two_steps t × (t.joined ≡ 1)
run_returns_example =
    run_returns 1 pool two_steps refl (to_two_steps two_steps (here two_steps)) stop_pool-IsStopped

-- a cipher that leaves texts as they are
abbrev copying_fish : BlowFish
copying_fish = record { cfb64_encrypt = λ key text. text; length_encrypt = λ key text. refl }

no_zero : All (λ c. c ≢ 0) (literal "two of 4")
no_zero = (
  λ e. omega arith,
  (
    λ e. omega arith,
    (
      λ e. omega arith,
      (
        λ e. omega arith,
        (λ e. omega arith, (λ e. omega arith, (λ e. omega arith, (λ e. omega arith, tt)))),
      ),
    ),
  ),
)

blow_fish_encrypt_lem_example :
    (blow_fish_encrypt copying_fish [] (replicate 101 1) ≡ err fault)
    × (blow_fish_encrypt copying_fish [] (literal "two of 4") ≡ ok (false, literal "two of 4"))
blow_fish_encrypt_lem_example =
    blow_fish_encrypt_lem copying_fish [] (replicate 101 1) (literal "two of 4")
      (literal "two of 4") (replicate 91 0) (omega arith) (omega arith) no_zero refl
