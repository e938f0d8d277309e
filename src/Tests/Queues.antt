-- ===== src/Tests/Queues.antt =====
-- The array queue, used by one thread.
use oldpart.Base.{drop, get_elem?, some, ℕ, ◌≡◌, [], ◌∷◌, ◌++◌, ok, arith}
use oldpart.Spsc.Array.{skip, first, SpscArray, push, consume_all}
use oldpart.Spsc.Window.{contents}
use oldpart.Spsc.Queue.{
  IsValid, Gives, push_refines, consume_all_refines, skip_refines, first_refines,
}

-- three places, of which two are taken, round the end
abbrev two_of_three : SpscArray ℕ
two_of_three = record { items = 30 ∷ 10 ∷ 20 ∷ []; capacity = 3; write_pos = 4; read_pos = 2 }

two_of_three-IsValid : IsValid two_of_three
two_of_three-IsValid = record {
  room = omega arith;
  positive = omega arith;
  ordered = omega arith;
  bounded = omega arith;
  small = omega arith;
}

abbrev all_of_three : SpscArray ℕ
all_of_three = record two_of_three { write_pos = 5 }

all_of_three-IsValid : IsValid all_of_three
all_of_three-IsValid = record {
  room = omega arith;
  positive = omega arith;
  ordered = omega arith;
  bounded = omega arith;
  small = omega arith;
}

push_refines_example : Gives 0 (push two_of_three 40) 3 (contents 0 two_of_three ++ (40 ∷ []))
push_refines_example =
    push_refines 0 two_of_three 40 two_of_three-IsValid (omega arith) (omega arith)

consume_all_refines_example :
    (b : SpscArray ℕ) × (consume_all two_of_three ≡ ok (contents 0 two_of_three, b))
    × (contents 0 b ≡ [])
    × (b.read_pos ≡ two_of_three.write_pos)
consume_all_refines_example = consume_all_refines 0 two_of_three two_of_three-IsValid

skip_refines_example : Gives 0 (skip two_of_three 1) 3 (drop 1 (contents 0 two_of_three))
skip_refines_example = skip_refines 0 two_of_three 1 two_of_three-IsValid (omega arith)

first_refines_example :
    (x : ℕ) × (first two_of_three 1 ≡ ok x) × (get_elem? (contents 0 two_of_three) 1 ≡ some x)
first_refines_example = first_refines 0 two_of_three 1 two_of_three-IsValid (omega arith)
