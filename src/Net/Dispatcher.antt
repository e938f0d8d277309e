-- ===== src/Net/Dispatcher.antt =====
-- common/MessageDispatcher.cpp: handlers by message id.
use oldpart.Base.{
  is_none, ℕ, ◌≡◌, ap, sym, Bool, true, false, ◌&&◌, not, Option, none, some, List, [], ◌∷◌, arith,
  ◌==◌, if◌then◌else◌, ==_iff,
}
use oldpart.Message.{OMessage}

-- The keys of `mHandlers` with their handlers; what a handler does to the program's state `S`
-- with a message and an object is a function.
abbrev pub Handler : Type 0 → Type 0 → Type 0
Handler S P = OMessage → P → S → S

module _ {S P : Type 0} where
  unfoldable pub find : ℕ → List (ℕ × Handler S P) → Option (Handler S P)
  find k [] = none
  find k ((j, h) ∷ m) = if j == k then some h else find k m

  -- `RegisteHandler`: `insert` keeps an entry that is there.
  unfoldable pub registe_handler :
      ℕ → Handler S P → List (ℕ × Handler S P) → Bool × List (ℕ × Handler S P)
  registe_handler id handler m = elim (find id m) [
    | none ↦ (true, (id, handler) ∷ m)
    | some h ↦ (false, m)
  ]

  unfoldable pub erase : ℕ → List (ℕ × Handler S P) → List (ℕ × Handler S P)
  erase id [] = []
  erase id ((j, h) ∷ m) = let rest = erase id m in if j == id then rest else (j, h) ∷ rest

  -- `UnregisteHandler`: whether an entry was erased
  unfoldable pub unregiste_handler : ℕ → List (ℕ × Handler S P) → Bool × List (ℕ × Handler S P)
  unregiste_handler id m = elim (find id m) [ none ↦ (false, m) | some h ↦ (true, erase id m) ]

  unfoldable pub on_message : List (ℕ × Handler S P) → OMessage → P → S → S
  on_message m message proto s = elim (find message.message_id m) [
    | none ↦ s
    | some h ↦ h message proto s
  ]

  find-erase :
      (id k : ℕ) (m : List (ℕ × Handler S P))
      → find k (erase id m) ≡ (if id == k then none else find k m)
  unfolding find erase
  find-erase id k [] = ground arith
  find-erase id k ((j, h) ∷ m) = ground (arith, find-erase id k m)

  same_find : (id k : ℕ) (m : List (ℕ × Handler S P)) → (id == k) ≡ true → find k m ≡ find id m
  same_find id k m e = ap (λ j. find j m) (sym ((==_iff id k).0 e))

  -- Registering succeeds exactly when the id has no handler. Afterwards a message of an id that
  -- had none goes to the handler given, and every other message goes where it went before.
  pub on_message-registe_handler :
      (id : ℕ) (handler : Handler S P) (m : List (ℕ × Handler S P)) (message : OMessage) (proto : P)
      (s : S)
      → ((registe_handler id handler m).0 ≡ is_none (find id m))
        × (on_message (registe_handler id handler m).1 message proto s ≡ (
            if (id == message.message_id) && is_none (find id m)
            then handler message proto s
            else on_message m message proto s))
  unfolding registe_handler on_message find
  on_message-registe_handler id handler m message proto s =
      ground (arith, same_find id message.message_id m)

  -- After unregistering an id its messages are dropped, and all others go where they went before;
  -- the call returns whether there was a handler.
  pub on_message-unregiste_handler :
      (id : ℕ) (m : List (ℕ × Handler S P)) (message : OMessage) (proto : P) (s : S)
      → ((unregiste_handler id m).0 ≡ not (is_none (find id m)))
        × (on_message (unregiste_handler id m).1 message proto s
            ≡ (if id == message.message_id then s else on_message m message proto s))
  unfolding unregiste_handler on_message
  on_message-unregiste_handler id m message proto s = (
    ground arith,
    ground (arith, find-erase id message.message_id m, same_find id message.message_id m),
  )
