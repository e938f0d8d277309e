-- ===== src/Net/Client.antt =====
-- common/TClient.cpp and common/TClient.h, which own one socket.
use oldpart.Base.{
  ℕ, ◌+◌, Bool, false, Option, none, some, List, [], ◌∷◌, ◌++◌, Outcome, ok, err, thrown, deref,
  ◌>>=◌, if◌then◌else◌,
}
use oldpart.Message.{OMessage}

-- What the sockets are told.
pub data Call : Type 0 where
  sent : ℕ → OMessage → Call
  started stopped : ℕ → Call

-- A socket is a number; `owned` says whether a `shared_ptr` that `enable_shared_from_this` knows
-- holds the client, which a private base never tells it.
pub record Client : Type 0 where
  pub owned : Bool
  pub socket : Option ℕ
  pub next_socket : ℕ
  pub calls : List Call

unfoldable pub make : Client
make = record { owned = false; socket = none; next_socket = 0; calls = [] }

-- `Connect`, where `resolve` and `connect` succeed or raise
unfoldable pub connect : Outcome (Unit {0}) → Outcome (Unit {0}) → Client → Outcome Client
connect resolved connected c =
    let self : Outcome Client = if c.owned then ok c else err thrown in
    resolved >>= λ endpoints. self >>= λ d. connected >>= λ done.
    ok (record d { socket = some d.next_socket; next_socket = d.next_socket + 1 })

unfoldable pub send : OMessage → Client → Outcome Client
send m c = deref c.socket >>= λ s. ok (record c { calls = c.calls ++ (sent s m ∷ []) })

unfoldable pub start : Option ℕ → Client → Outcome Client
start socket c = deref socket >>= λ s. ok (record c { calls = c.calls ++ (started s ∷ []) })

unfoldable pub stop : Option ℕ → Client → Outcome Client
stop socket c = deref socket >>= λ s. ok (record c { calls = c.calls ++ (stopped s ∷ []) })

unfoldable pub stop_all : Client → Outcome Client
stop_all c = stop c.socket c
