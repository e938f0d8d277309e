-- ===== src/Opc/Daemon.antt =====
-- `main` of opc/main.cpp: how the process becomes a daemon, and what its event loop does. The
-- options parser, the resolver, the multicast socket and the kernel are parameters.
pub mod Streams
pub mod Loop
use oldpart.Base.{
  ℕ, ◌-◌, ◌^◌, Bool, true, false, Option, none, some, List, [], ◌∷◌, ◌++◌, ◌==◌, if◌then◌else◌,
  Outcome, ok,
}
use oldpart.Base.{◌>>=◌ as then_run}
use oldpart.Opc.Files.{Attempt, done, raised, ◌>>=◌}
use oldpart.Net.SendQueue.{ErrorCode}
use oldpart.Net.Discovery.{Discover, FindOrganization, make, on_received, wait_organization_exit}

-- what a descriptor refers to: "/dev/null", the log file of the daemon, or something else
pub data File : Type 0 where
  null_device log_file : File
  other : ℕ → File

-- the descriptors of a process
abbrev pub Table : Type 0
Table = ℕ → Option File

-- the calls of `main` that are not about descriptors
pub data Call : Type 0 where
  fork_prepare open_log fork setsid chdir umask fork_child : Call

pub record Process : Type 0 where
  pub descriptors : Table
  pub calls : List Call

-- what `fork` returns: nothing to a child, a pid to a parent, or -1
pub data Forked : Type 0 where
  child parent failed : Forked

-- `open` and `dup` give the descriptor that they take, or -1. The event loop, the socket, the signal
-- sets and the logger open descriptors: `opened` is what is open when the streams are closed, and
-- `reopened` what `notify_fork(fork_child)` makes of the descriptors, by those at the start.
pub record Kernel : Type 0 where
  pub first_fork : Forked
  pub second_fork : Forked
  pub open_file : Table → File → Option ℕ
  pub dup : Table → ℕ → Option ℕ
  pub opened : Table → Table
  pub reopened : Table → Table → Table

-- The command line, as far as it is given.
pub record Options : Type 0 where
  pub help : Bool
  pub name : Option (List ℕ)
  pub ip : Option (List ℕ)
  pub mip : Option (List ℕ)
  pub mport : Option ℕ

-- Addresses of a text, what the constructor of `MSocket` calls on its socket, and the resolver.
pub record Network : Type 0 where
  pub make_address : List ℕ → Attempt ℕ
  pub open_socket : ℕ → Attempt (Unit {0})
  pub reuse_address : ℕ → Attempt (Unit {0})
  pub bind : ℕ → ℕ → Attempt (Unit {0})
  pub join_group : ℕ → Attempt (Unit {0})
  pub resolve : List ℕ → Attempt ℕ

-- the constructor of `MSocket`; the pattern of the port is the same in 16 bits with and without sign.
unfoldable pub make_socket : Network → ℕ → ℕ → ℕ → Attempt (Unit {0})
make_socket net listen multicast port = net.open_socket listen >>= λ a.
    net.reuse_address listen >>= λ b. net.bind listen port >>= λ c. net.join_group multicast

-- How `main` goes on: it is over, with a status, or its event loop runs.
pub data Started : Type 0 where
  ended : ℕ → Process → Started
  running : FindOrganization → Process → Started

abbrev pub called : List Call → Process → Process
called cs p = record p { calls = p.calls ++ cs }

-- what stands behind a descriptor from now on
abbrev pub assign : ℕ → Option File → Process → Process
assign n f p = record p { descriptors = λ k. elim (k == n) [ true ↦ f | false ↦ p.descriptors k ] }

-- `if (pid_t pid = fork())`
unfoldable pub fork_once : Forked → Process → (Process → Started) → Started
fork_once child p next = next (called (fork ∷ []) p)
fork_once parent p next = ended 0 (called (fork ∷ []) p)
fork_once failed p next = ended 1 (called (fork ∷ []) p)

-- the test of a descriptor that `open` or `dup` gives, and what stands behind it
unfoldable pub attach : Option ℕ → Option File → Process → (Process → Started) → Started
attach none f p next = ended 1 p
attach (some n) f p next = next (assign n f p)

-- The standard streams are closed and opened anew.
unfoldable pub redirect : Kernel → Process → (Process → Started) → Started
unfolding attach
redirect k p next =
    let q = assign 2 none (assign 1 none (assign 0 none p)) in
    attach (k.open_file q.descriptors null_device) (some null_device) q (λ q0.
      attach (k.open_file q0.descriptors log_file) (some log_file) q0
        (λ q1. attach (k.dup q1.descriptors 1) (q1.descriptors 1) q1 next))

-- from `notify_fork(fork_prepare)` to `io_context.run()`
unfoldable pub become_daemon : Kernel → FindOrganization → Process → Started
become_daemon k server p =
    let start : Process = record p { descriptors = k.opened p.descriptors } in
    fork_once k.first_fork (called (fork_prepare ∷ open_log ∷ []) start) (λ q.
      fork_once k.second_fork (called (setsid ∷ chdir ∷ umask ∷ []) q) (λ r. redirect k r (λ s.
        running server (
          called (fork_child ∷ [])
            (record s { descriptors = k.reopened p.descriptors s.descriptors })))))

-- the socket and the address that the daemon announces
unfoldable pub connect : Network → List ℕ → List ℕ → ℕ → Attempt ℕ
unfolding make_socket
connect net ip mip mport = net.make_address ip >>= λ listen. net.make_address mip >>= λ multicast.
    make_socket net listen multicast mport >>= λ u. net.resolve ip

-- the block of `try` behind the test of the options
unfoldable pub serve : Kernel → Network → List ℕ → List ℕ → List ℕ → List ℕ → ℕ → Process → Started
unfolding connect
serve k net memory name ip mip mport p = elim (connect net ip mip mport) [
  | raised e ↦ ended 0 p
  | done address ↦ become_daemon k (make memory address name) p
]

-- the test of the options, and what follows it
unfoldable pub with_options :
    Kernel
    → Network
    → List ℕ
    → Process
    → Option (List ℕ)
    → Option (List ℕ)
    → Option (List ℕ)
    → Option ℕ
    → Started
with_options k net memory p (some name) (some ip) (some mip) (some mport) =
    serve k net memory name ip mip mport p
with_options k net memory p _ _ _ _ = ended (2 ^ 32 - 1) p

-- `main`, on what parsing the command line gives and what the stack holds before `mName`. An
-- exception is caught, and the function is left at its end.
unfoldable pub main : Kernel → Network → List ℕ → Attempt Options → Process → Started
main k net memory (raised e) p = ended 0 p
main k net memory (done o) p =
    if o.help then ended 0 p else with_options k net memory p o.name o.ip o.mip o.mport

-- The event loop: `mMessageHandler` of the socket, as far as it is set, the receiving of the
-- socket, the two signal sets, and what `MSocket::Send` was called with.
pub record Daemon : Type 0 where
  pub server : FindOrganization
  pub handled : Bool
  pub receiving : Bool
  pub awaits_child : Bool
  pub stopped : Bool
  pub sent : List Discover

-- Nothing in `main` calls `SetMessageHandler`.
abbrev pub started : FindOrganization → Daemon
started server = record {
  server = server;
  handled = false;
  receiving = true;
  awaits_child = true;
  stopped = false;
  sent = [];
}

-- bytes arrive, a child ends (with the answer of `waitpid`), or a signal to stop comes
pub data Event : Type 0 where
  datagram : ErrorCode → ℕ → Option Discover → Event
  child_ended : ℕ → Event
  stop_signal : Event

abbrev pub handler_of : Daemon → Option FindOrganization
handler_of d = elim d.handled [ true ↦ some d.server | false ↦ none ]

-- the completion handlers; a signal set waits once
unfoldable pub on_event : List ℕ → Event → Daemon → Outcome Daemon
on_event memory (datagram ec n local) d =
    let received =
      then_run (on_received memory (handler_of d) ec n local)
        (λ r. ok (record d { receiving = r.0; sent = d.sent ++ r.1 })) in
    if d.receiving then received else ok d
on_event memory (child_ended pid) d =
    if d.awaits_child
    then ok (record d { server = wait_organization_exit pid d.server; awaits_child = false })
    else ok d
on_event memory stop_signal d = ok (record d { stopped = true })

-- `io_context.run()`
unfoldable pub run : List ℕ → List Event → Daemon → Outcome Daemon
run memory [] d = ok d
run memory (e ∷ es) d =
    let on = then_run (on_event memory e d) (λ c. run memory es c) in if d.stopped then ok d else on
