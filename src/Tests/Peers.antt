-- ===== src/Tests/Peers.antt =====
-- Contexts that a pool hands out.
use native.Mathlib.Omega.{arith}
use oldpart.Base.{◌≡◌, ok}
use oldpart.Net.ContextPool.{Pool, make, get_many, turns, round_robin}

round_robin_example :
    (p : Pool) × (q : Pool) × (make 3 ≡ ok p) × (get_many 7 p ≡ ok (turns 3 0 7, q))
round_robin_example = round_robin 3 7 (omega arith)
