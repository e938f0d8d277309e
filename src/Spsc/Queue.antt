-- ===== src/Spsc/Queue.antt =====
-- The plain `SPSCArray` (common/SPSCArray.h) against the list of its contents.
use oldpart.Base.{
  ℕ, zero, suc, ◌+◌, ◌-◌, ◌%◌, ◌^◌, ◌<◌, ◌≤◌, ◌≡◌, refl, sym, ap, ◌∙◌, some, List, [], ◌∷◌, ◌++◌,
  length, get_elem?, get_or, set, ltb, ◌==◌, Outcome, ok, err, fault, arith, length-set,
  get_elem?-eq-get_or, lt→ltb, le→ltb, drop,
}
use oldpart.Spsc.Window.{window, contents, length-window, window-set, get_elem?-window, drop-window}
use oldpart.Spsc.Array.{
  SpscArray, at, push, first, valid, pop, skip, size, empty, consume_from, consume_all,
}

-- The invariant: the positions are ordered, at most a capacity apart, and fit an `int32_t`.
pub record IsValid {ℓ} {T : Type ℓ} (a : SpscArray T) : Type 0 where
  pub room : a.capacity ≤ length a.items
  pub positive : 0 < a.capacity
  pub ordered : a.read_pos ≤ a.write_pos
  pub bounded : a.write_pos ≤ a.read_pos + a.capacity
  pub small : a.write_pos < 2 ^ 31

module _ {ℓ} {T : Type ℓ} (dflt : T) where
  -- A step that succeeds, keeps the invariant and leaves these contents.
  pub record Gives (r : Outcome (SpscArray T)) (cap : ℕ) (items : List T) : Type ℓ where
    pub out : SpscArray T
    pub returns : r ≡ ok out
    pub valid : IsValid out
    pub same_capacity : out.capacity ≡ cap
    pub contents : contents dflt out ≡ items

  -- On a valid array with fewer elements than its capacity, whose write position can still grow,
  -- `Push` succeeds, appends the element to the contents and leaves the array valid.
  pub push_refines :
      (a : SpscArray T) (x : T)
      → IsValid a
      → a.write_pos + 1 < 2 ^ 31
      → length (contents dflt a) < a.capacity
      → Gives (push a x) a.capacity (contents dflt a ++ (x ∷ []))
  unfolding push
  push_refines a x v grows space =
      let n : ℕ = a.write_pos - a.read_pos in
      let count : length (contents dflt a) ≡ n =
        length-window dflt a.items a.capacity a.read_pos n in
      rw
        (
          lt→ltb a.write_pos (a.read_pos + a.capacity) (omega (arith, v.ordered)),
          lt→ltb 0 a.capacity v.positive,
          lt→ltb (a.write_pos % a.capacity) (length a.items) (omega (arith, v.room, v.positive)),
          lt→ltb (a.write_pos + 1) (2 ^ 31) grows,
        )
        (record {
          out = record a {
            items = set a.items (a.write_pos % a.capacity) x;
            write_pos = a.write_pos + 1;
          };
          returns = refl;
          valid = record {
            room = omega (arith, v.room, length-set a.items (a.write_pos % a.capacity) x);
            positive = v.positive;
            ordered = omega (arith, v.ordered);
            bounded = omega (arith, v.ordered);
            small = grows;
          };
          same_capacity = refl;
          contents =
              let more : a.write_pos + 1 - a.read_pos ≡ suc n = omega (arith, v.ordered) in
              ap (window dflt (set a.items (a.write_pos % a.capacity) x) a.capacity a.read_pos) more
              ∙ window-set dflt a.items a.capacity a.read_pos n a.write_pos x v.room (omega arith)
                  (omega (arith, v.ordered));
        })

  -- On a valid array with as many elements as its capacity `Push` is stopped by its assertion:
  -- no element is ever overwritten.
  pub push_full :
      (a : SpscArray T) (x : T)
      → IsValid a
      → length (contents dflt a) ≡ a.capacity
      → push a x ≡ err fault
  unfolding push
  push_full a x v full =
      let count = length-window dflt a.items a.capacity a.read_pos (a.write_pos - a.read_pos) in
      rw (le→ltb a.write_pos (a.read_pos + a.capacity) (omega (arith, v.ordered, count)))

  at_lem :
      (a : SpscArray T) (pos : ℕ)
      → IsValid a
      → at a pos ≡ ok (get_or a.items (pos % a.capacity) dflt)
  unfolding at
  at_lem a pos v = rw (
    lt→ltb 0 a.capacity v.positive,
    get_elem?-eq-get_or a.items (pos % a.capacity) dflt (omega (arith, v.room, v.positive)),
  )

  -- On a valid array `Size` and `Empty` count the contents, and `Valid(k)` says whether there is
  -- a `k`-th element.
  pub size_refines :
      (a : SpscArray T) (k : ℕ)
      → IsValid a
      → (size a ≡ length (contents dflt a))
        × (empty a ≡ (length (contents dflt a) == 0))
        × (valid a k ≡ ltb k (length (contents dflt a)))
  unfolding size empty valid
  size_refines a k v =
      let count = length-window dflt a.items a.capacity a.read_pos (a.write_pos - a.read_pos) in
      (sym count, ground (arith, v.ordered, count), ground (arith, v.ordered, count))

  -- On a valid array with more than `k` elements `First(k)` returns the `k`-th of the contents.
  pub first_refines :
      (a : SpscArray T) (k : ℕ)
      → IsValid a
      → k < length (contents dflt a)
      → (x : T) × (first a k ≡ ok x) × (get_elem? (contents dflt a) k ≡ some x)
  unfolding first
  first_refines a k v h =
      let n : ℕ = a.write_pos - a.read_pos in
      let count : length (contents dflt a) ≡ n =
        length-window dflt a.items a.capacity a.read_pos n in
      (
        get_or a.items ((a.read_pos + k) % a.capacity) dflt,
        at_lem a (a.read_pos + k) v,
        get_elem?-window dflt a.items a.capacity a.read_pos n k (a.read_pos + k) (omega arith) refl,
      )

  moved :
      (b : SpscArray T) (j : ℕ)
      → IsValid b
      → j ≤ b.write_pos - b.read_pos
      → Gives (ok (record b { read_pos = b.read_pos + j })) b.capacity (drop j (contents dflt b))
  moved b j w p = record {
    out = record b { read_pos = b.read_pos + j };
    returns = refl;
    valid = record {
      room = w.room;
      positive = w.positive;
      ordered = omega (arith, w.ordered);
      bounded = omega (arith, w.bounded);
      small = w.small;
    };
    same_capacity = refl;
    contents =
        ap (window dflt b.items b.capacity (b.read_pos + j)) (omega (arith, w.ordered))
        ∙ sym (drop-window dflt b.items b.capacity b.read_pos (b.write_pos - b.read_pos) j p);
  }

  -- On a valid array with `k` elements or more, `Skip(k)` succeeds, drops the first `k` of the
  -- contents and leaves the array valid.
  pub skip_refines :
      (a : SpscArray T) (k : ℕ)
      → IsValid a
      → k ≤ length (contents dflt a)
      → Gives (skip a k) a.capacity (drop k (contents dflt a))
  unfolding skip
  skip_refines a k v h =
      let count = length-window dflt a.items a.capacity a.read_pos (a.write_pos - a.read_pos) in
      rw (lt→ltb (a.read_pos + k) (2 ^ 31) (omega (arith, v.ordered, v.small, count)))
        (moved a k v (omega (arith, count)))

  -- On a valid array with an element `Pop` succeeds, drops the first of the contents and leaves
  -- the array valid.
  pub pop_refines :
      (a : SpscArray T)
      → IsValid a
      → 0 < length (contents dflt a)
      → Gives (pop a) a.capacity (drop 1 (contents dflt a))
  unfolding pop
  pop_refines a v h =
      let count = length-window dflt a.items a.capacity a.read_pos (a.write_pos - a.read_pos) in
      rw (lt→ltb (a.read_pos + 1) (2 ^ 31) (omega (arith, v.ordered, v.small, count)))
        (moved a 1 v (omega (arith, count)))

  consume_from-window :
      (a : SpscArray T) (pos n : ℕ)
      → IsValid a
      → consume_from a pos n ≡ ok (window dflt a.items a.capacity pos n)
  unfolding consume_from
  consume_from-window a pos zero v = refl
  consume_from-window a pos (suc n) v = rw (at_lem a pos v, consume_from-window a (pos + 1) n v)

  -- `consume_all` calls the callback with all the contents in order, and leaves the array empty.
  -- The array is valid.
  pub consume_all_refines :
      (a : SpscArray T)
      → IsValid a
      → (b : SpscArray T) × (consume_all a ≡ ok (contents dflt a, b))
        × (contents dflt b ≡ [])
        × (b.read_pos ≡ a.write_pos)
  unfolding consume_all
  consume_all_refines a v =
      let n : ℕ = a.write_pos - a.read_pos in
      let done : a.read_pos + n ≡ a.write_pos = omega (arith, v.ordered) in
      let gone : a.write_pos - (a.read_pos + n) ≡ 0 = omega arith in
      (
        record a { read_pos = a.read_pos + n },
        rw (consume_from-window a a.read_pos n v),
        ap (window dflt a.items a.capacity (a.read_pos + n)) gone,
        done,
      )
