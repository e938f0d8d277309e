-- ===== src/Net/Mapping.antt =====
-- common/IConnectionManager.h: names of peers by address and port.
use oldpart.Base.{
  ℕ, ◌+◌, ◌*◌, ◌%◌, ◌^◌, ◌<◌, ◌≡◌, ◌≢◌, Bool, true, false, Option, none, some, List, [], ◌∷◌, arith,
  ◌==◌, if◌then◌else◌,
}

-- `mNameMapping`; a name is its bytes. An `int32_t` key is sign-extended to 64 bits, which tells
-- the same keys apart.
abbrev pub Mapping : Type 0
Mapping = List (ℕ × List ℕ)

unfoldable pub find : ℕ → Mapping → Option (List ℕ)
find k [] = none
find k ((j, name) ∷ m) = if j == k then some name else find k m

-- `GetCompositeIP` on patterns: computed in 64 bits, returned as an `int32_t`.
unfoldable pub get_composite_ip : ℕ → ℕ → ℕ
get_composite_ip ip port = (ip * 2 ^ 32 % 2 ^ 64 + port) % 2 ^ 64 % 2 ^ 32

-- `AddMapping`: its result, and the mapping after it
unfoldable pub add_mapping : ℕ → ℕ → List ℕ → Mapping → Bool × Mapping
add_mapping ip port name m = elim (find (get_composite_ip ip port) m) [
  | none ↦ (true, (get_composite_ip ip port, name) ∷ m)
  | some n ↦ (false, m)
]

-- `FindInMapping`: the empty name where there is none
unfoldable pub find_in_mapping : ℕ → ℕ → Mapping → List ℕ
find_in_mapping ip port m = elim (find (get_composite_ip ip port) m) [ none ↦ [] | some n ↦ n ]

-- The composite of an address and a port is the port.
pub get_composite_ip-eq-port : (ip port : ℕ) → port < 2 ^ 32 → get_composite_ip ip port ≡ port
unfolding get_composite_ip
get_composite_ip-eq-port ip port h = omega arith

-- Peers with the same port share one name, whatever their addresses: once a name is found for a
-- port on some address, adding one for that port on any other address returns false and changes
-- nothing, and every address is found under the same name.
pub addresses_ignored :
    (ip other port : ℕ) (name found : List ℕ) (m : Mapping)
    → find (get_composite_ip ip port) m ≡ some found
    → (add_mapping other port name m ≡ (false, m)) × (find_in_mapping other port m ≡ found)
unfolding add_mapping find_in_mapping get_composite_ip
addresses_ignored ip other port name found m h =
    let same : get_composite_ip other port ≡ get_composite_ip ip port =
      unfold get_composite_ip in omega arith in
    ground (arith, same)

-- What was added is found: after `AddMapping` the pair has a name, the one given if the call
-- returned true and the older one if it returned false; a different port, as numbers of
-- 32 bits, keeps its name.
pub find_in_mapping-add_mapping :
    (ip port ip2 port2 : ℕ) (name : List ℕ) (m : Mapping)
    → port < 2 ^ 32
    → port2 < 2 ^ 32
    → port ≢ port2
    → let (added, m2) = add_mapping ip port name m in
      (find_in_mapping ip port m2 ≡ (if added then name else find_in_mapping ip port m))
      × (find_in_mapping ip2 port2 m2 ≡ find_in_mapping ip2 port2 m)
unfolding add_mapping find_in_mapping find
find_in_mapping-add_mapping ip port ip2 port2 name m h h2 ne = (
  ground (arith, get_composite_ip-eq-port ip port h),
  ground (arith, get_composite_ip-eq-port ip port h, get_composite_ip-eq-port ip2 port2 h2),
)
