-- ===== src/Serializer/Registry.antt =====
-- `RegisteProtoCreator` and `DoCreateProto`: an `unordered_map` from message ids to creators.
use oldpart.Base.{
  is_none, ℕ, ◌^◌, ◌≡◌, ap, sym, Bool, true, false, ◌&&◌, not, Option, none, some, List, [], ◌∷◌,
  arith, ltb, ◌==◌, if◌then◌else◌, ==_iff, ◌-◌,
}

-- Message ids are patterns of 32 bits; an object pointer is a value of `P`, or null. An empty
-- `std::function` is `none`, a creator is what it returns.
pub record ProtoCreator (P : Type 0) : Type 0 where
  pub request_creator : Option (Option P)
  pub response_creator : Option (Option P)

-- `messageId > 0` on a signed number
abbrev pub is_positive : ℕ → Bool
is_positive id = not (id == 0) && ltb id (2 ^ 31)

module _ {P : Type 0} where
  unfoldable pub find : ℕ → List (ℕ × ProtoCreator P) → Option (ProtoCreator P)
  find k [] = none
  find k ((j, c) ∷ m) = if j == k then some c else find k m

  -- `insert` keeps an entry that is there, and returns false.
  unfoldable pub registe_proto_creator :
      ℕ
      → Option (Option P)
      → Option (Option P)
      → List (ℕ × ProtoCreator P)
      → Bool × List (ℕ × ProtoCreator P)
  registe_proto_creator id request response m = elim (find id m) [
    | none ↦ (true, (id, record { request_creator = request; response_creator = response }) ∷ m)
    | some c ↦ (false, m)
  ]

  abbrev pub call : Option (Option P) → Option P
  call none = none
  call (some p) = p

  unfoldable pub do_create_proto : ℕ → List (ℕ × ProtoCreator P) → Option P
  do_create_proto id m = elim (find id m) [
    | none ↦ none
    | some c ↦ if is_positive id then call c.request_creator else call c.response_creator
  ]

  -- Registration succeeds exactly when the id is new. Afterwards the id creates a request or a
  -- response, by its sign, from the creators given if it was new, and as before if it was not;
  -- every other id creates what it created before.
  pub registe_proto_creator_lem :
      (id k : ℕ) (request response : Option (Option P)) (m : List (ℕ × ProtoCreator P))
      → ((registe_proto_creator id request response m).0 ≡ is_none (find id m))
        × (do_create_proto k (registe_proto_creator id request response m).1 ≡ (
            if (id == k) && is_none (find id m)
            then (if is_positive k then call request else call response)
            else do_create_proto k m))
  unfolding registe_proto_creator do_create_proto find
  registe_proto_creator_lem id k request response m = ground (arith, same_find)
    where
      same_find : (id == k) ≡ true → find k m ≡ find id m
      same_find e = ap (λ j. find j m) (sym ((==_iff id k).0 e))

  -- A response carries the negated id of its request. Registering both creators under the id of
  -- the request leaves the negated id as it was: where it had no entry, no response is created.
  pub response_not_created :
      (id : ℕ) (request response : Option (Option P)) (m : List (ℕ × ProtoCreator P))
      → is_positive id ≡ true
      → find (2 ^ 32 - id) m ≡ none
      → do_create_proto (2 ^ 32 - id) (registe_proto_creator id request response m).1 ≡ none
  unfolding registe_proto_creator do_create_proto find
  response_not_created id request response m pos none_there = ground arith
