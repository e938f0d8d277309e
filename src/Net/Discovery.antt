-- ===== src/Net/Discovery.antt =====
-- Discovery by multicast: common/MSocket.cpp, opp/Discover.h and `FindOrganization` of
-- opc/main.cpp.
use oldpart.Base.{
  ℕ, zero, suc, ◌-◌, ◌^◌, Bool, true, false, ◌&&◌, not, Option, List, [], ◌∷◌, drop, ltb, ◌==◌,
  if◌then◌else◌, Outcome, ok, deref, ◌>>=◌,
}
use oldpart.Net.SendQueue.{ErrorCode, success, operation_aborted, failure}

-- `Discover`, its numbers as patterns of 32 bits and its name as 32 bytes
pub record Discover : Type 0 where
  pub magic : ℕ
  pub ip : ℕ
  pub port : ℕ
  pub name : List ℕ

-- `sizeof(Discover)`
abbrev pub discover_size : ℕ
discover_size = 44

pub record OrganizationIp : Type 0 where
  pub ip : ℕ
  pub port : ℕ

-- `FindOrganization`: its organizations by process id, its own address and name.
pub record FindOrganization : Type 0 where
  pub organizations : List (ℕ × OrganizationIp)
  pub ip : ℕ
  pub name : List ℕ

-- `strncpy(to, from, n)`, on what `to` holds before it
unfoldable pub strncpy : ℕ → List ℕ → List ℕ → List ℕ
strncpy zero from to = to
strncpy (suc n) [] to = 0 ∷ strncpy n [] (drop 1 to)
strncpy (suc n) (c ∷ cs) to =
    let rest = if c == 0 then strncpy n [] (drop 1 to) else strncpy n cs (drop 1 to) in c ∷ rest

-- The constructor, on what the 32 bytes of `mName` hold before it and the bytes of the name.
unfoldable pub make : List ℕ → ℕ → List ℕ → FindOrganization
make memory ip name = record { organizations = []; ip = ip; name = strncpy 25 name memory }

-- whether an organization has the address of a message
unfoldable pub is_duplicate : List (ℕ × OrganizationIp) → Discover → Bool
is_duplicate [] d = false
is_duplicate ((pid, o) ∷ os) d =
    let rest = is_duplicate os d in if (o.ip == d.ip) && (o.port == d.port) then true else rest

-- `OnMessage`: what `MSocket::Send` is called with. That keeps a reference to a variable which is gone
-- when `OnMessage` returns, so these need not be the bytes on the wire. The bytes of the name come from a field of 32 bytes, into a local
-- one with the contents of `memory`.
unfoldable pub on_message : List ℕ → Discover → FindOrganization → List Discover
on_message memory d f =
    if is_duplicate f.organizations d
    then []
    else record { magic = 2 ^ 32 - 1; ip = f.ip; port = 0; name = strncpy 31 f.name memory } ∷ []

-- `discover.magic < 0`
unfoldable pub filt_out : Discover → Bool
filt_out d = not (ltb d.magic (2 ^ 31))

unfoldable pub erase : ℕ → List (ℕ × OrganizationIp) → List (ℕ × OrganizationIp)
erase pid [] = []
erase pid ((k, o) ∷ os) = let rest = erase pid os in if k == pid then rest else (k, o) ∷ rest

-- `WaitOrganizationExit`, on what `waitpid` returns
unfoldable pub wait_organization_exit : ℕ → FindOrganization → FindOrganization
wait_organization_exit pid f =
    if not (pid == 0) && ltb pid (2 ^ 31)
    then record f { organizations = erase pid f.organizations }
    else f

-- What a socket does with a message for its handler: `FiltOut`, then `OnMessage`.
unfoldable pub handle : List ℕ → FindOrganization → Discover → List Discover
handle memory f d = if filt_out d then [] else on_message memory d f

-- The handler of `DoReceive`, with the number of bytes received: whether it receives again, and
-- what `Send` is called with. `local` is the variable `discover` that the bytes are received into, none once the
-- call of `DoReceive` that it belongs to has returned.
unfoldable pub on_received :
    List ℕ
    → Option FindOrganization
    → ErrorCode
    → ℕ
    → Option Discover
    → Outcome (Bool × List Discover)
on_received memory handler success n local =
    let handled = deref handler >>= λ f. deref local >>= λ d. ok (true, handle memory f d) in
    if n == discover_size then handled else ok (true, [])
on_received memory handler operation_aborted n local = ok (false, [])
on_received memory handler failure n local = ok (false, [])
