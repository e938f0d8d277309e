-- ===== src/Net/Server.antt =====
-- common/TServer.cpp: the acceptor, its signal and the clients by name, with the handlers of
-- asio's completions, on the name mapping and the connection manager.
use oldpart.Base.{
  ◌≡◌, refl, ℕ, ◌+◌, Bool, true, false, Option, none, some, List, [], ◌∷◌, is_none, if◌then◌else◌,
  same_text, Outcome, ok, err, thrown, ◌>>=◌,
}
use oldpart.Net.Mapping.{Mapping, find_in_mapping}
use oldpart.Net.Connections.{Manager}
use oldpart.Net.Connections
use oldpart.Net.SendQueue.{ErrorCode, success, operation_aborted, failure}

abbrev pub Name : Type 0
Name = List ℕ

-- `mClients.find(peer)`
unfoldable pub find : Name → List (Name × ℕ) → Option ℕ
find n [] = none
find n ((k, c) ∷ m) = if same_text k n then some c else find n m

-- `mClients.insert`: an entry that is there stays.
unfoldable pub insert : Name → ℕ → List (Name × ℕ) → List (Name × ℕ)
insert n c m = if is_none (find n m) then (n, c) ∷ m else m

-- The server and what it shares. A socket is its number, given in the order in which they are
-- made; `accepting` is the one that the acceptor waits to fill, and `owned` says whether a
-- `shared_ptr` that `enable_shared_from_this` knows holds the server.
pub record Server : Type 0 where
  pub owned : Bool
  pub acceptor_open : Bool
  pub awaits_signal : Bool
  pub accepting : Option ℕ
  pub next_socket : ℕ
  pub clients : List (Name × ℕ)
  pub mapping : Mapping
  pub manager : Manager

-- `shared_from_this()`
abbrev pub shared_from_this : Server → Outcome Server
shared_from_this s = if s.owned then ok s else err thrown

unfoldable pub wait_stop : Server → Outcome Server
wait_stop s = shared_from_this s >>= λ t. ok (record t { awaits_signal = true })

unfoldable pub do_accept : Server → Outcome Server
do_accept s =
    let t : Server = record s { next_socket = s.next_socket + 1 } in
    shared_from_this t >>= λ u. ok (record u { accepting = some s.next_socket })

-- The constructor: the server is not owned while it runs.
unfoldable pub make : Mapping → Manager → Outcome Server
make mapping manager =
    let s : Server = record {
      owned = false;
      acceptor_open = false;
      awaits_signal = false;
      accepting = none;
      next_socket = 0;
      clients = [];
      mapping = mapping;
      manager = manager;
    } in
    wait_stop s >>= λ t. do_accept (record t { acceptor_open = true })

-- `Send`: its result, and the socket that is handed the message
unfoldable pub send : Name → Server → Bool × Option ℕ
send peer s = elim (find peer s.clients) [ none ↦ (false, none) | some c ↦ (true, some c) ]

-- what the handler of `async_accept` does with a client of this address and port
unfoldable pub admit : ℕ → ℕ → ℕ → Server → Server
admit c ip port s = record s {
  clients = insert (find_in_mapping ip port s.mapping) c s.clients;
  manager = Connections.start c s.manager;
}

-- The handler of `async_accept` for socket `c`, from its start to its end: that of a signal belongs to
-- another context, and what it does meanwhile is not modelled. `remote_endpoint` and `to_v4` raise for a peer that
-- is gone or has no such address, `none` here.
unfoldable pub on_accept : ErrorCode → ℕ → Option (ℕ × ℕ) → Server → Outcome Server
on_accept ec c endpoint s =
    let admitted : Outcome Server = elim endpoint [
      | none ↦ err thrown
      | some (ip, port) ↦ do_accept (admit c ip port s)
    ] in
    if s.acceptor_open
    then elim ec [ success ↦ admitted | operation_aborted ↦ do_accept s | failure ↦ do_accept s ]
    else ok s

-- the handler of a signal, from its start to its end
unfoldable pub on_signal : Server → Server
on_signal s = record s { acceptor_open = false; manager = Connections.stop_all s.manager }

-- The constructor throws whatever it is given: it asks for a shared pointer to a server that none
-- owns yet.
pub make_throws : (mapping : Mapping) (manager : Manager) → make mapping manager ≡ err thrown
unfolding make wait_stop
make_throws mapping manager = refl
