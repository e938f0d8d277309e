-- ===== src/Ops/Runs.antt =====
-- The runs of the sender of ops/sender.cpp.
use oldpart.Base.{
  ℕ, zero, suc, ◌+◌, ◌*◌, ◌≤◌, ◌<◌, ◌≡◌, ◌≢◌, inl, inr, refl, ap, ◌∙◌, subst, Bool, true, false,
  ◌&&◌, List, [], ◌∷◌, ◌++◌, ltb, arith, Bool-cases, ltb→lt, ltb→le,
}
use oldpart.Ops.{
  Awaited, nothing, sending, timeout, Sender, max_message_count, message, do_send, do_timeout, make,
  on_sent, on_timeout, complete_on, complete,
}

module _ (decimal : ℕ → List ℕ) where
  -- The states after `n` completions, and whether all of them succeeded.
  pub data Reach : ℕ → Bool → Sender → Type 0 where
    begin : Reach 0 true (make decimal)
    completed :
        {n : ℕ} {fine : Bool} {s : Sender} (success : Bool)
        → s.awaited ≢ nothing
        → Reach n fine s
        → Reach (n + 1) (fine && success) (complete decimal success s)

  -- the first messages
  unfoldable pub messages : ℕ → List (List ℕ)
  messages zero = []
  messages (suc n) = messages n ++ (message decimal n ∷ [])

  -- What holds of the number of completions, as it goes with what is awaited.
  abbrev IsTimed : Awaited → ℕ → Bool → ℕ → Type 0
  IsTimed nothing n fine count = (n ≤ 19) × ((fine ≡ true) → count ≡ 10)
  IsTimed sending n fine count = n + 2 ≡ 2 * count
  IsTimed timeout n fine count = (n + 1 ≡ 2 * count) × (count < 10)

  record Inv (n : ℕ) (fine : Bool) (s : Sender) : Type 0 where
    timed : IsTimed s.awaited n fine s.message_count
    bounded : s.message_count ≤ 10
    numbered : s.sent ≡ messages s.message_count

  not_both : (fine : Bool) → (fine && false) ≡ true → ⊥
  not_both true h = ground arith
  not_both false h = ground arith

  complete_on-Inv :
      (n : ℕ) (fine : Bool) (s : Sender) (success : Bool) (w : Awaited)
      → w ≢ nothing
      → IsTimed w n fine s.message_count
      → s.message_count ≤ 10
      → s.sent ≡ messages s.message_count
      → Inv (n + 1) (fine && success) (complete_on decimal w success s)
  unfolding complete_on on_sent on_timeout do_send do_timeout messages
  complete_on-Inv n fine s success nothing some_one t b m = absurd (some_one refl)
  complete_on-Inv n fine s false sending some_one t b m = record {
    timed = (omega arith, λ all. absurd (not_both fine all));
    bounded = b;
    numbered = m;
  }
  complete_on-Inv n fine s true sending some_one t b m =
      elim (Bool-cases (ltb s.message_count 10)) [
        | inl e ↦
            rw (on_sent, e)
              (record {
                timed = (omega arith, ltb→lt s.message_count 10 e);
                bounded = b;
                numbered = m;
              })
        | inr e ↦
            rw (on_sent, e)
              (record {
                timed = (omega arith, λ all. omega (arith, ltb→le s.message_count 10 e));
                bounded = b;
                numbered = m;
              })
      ]
  complete_on-Inv n fine s false timeout some_one t b m = record {
    timed = (omega (arith, t.0, t.1), λ all. absurd (not_both fine all));
    bounded = b;
    numbered = m;
  }
  complete_on-Inv n fine s true timeout some_one t b m =
      let next : suc s.message_count ≡ s.message_count + 1 = omega arith in
      record {
        timed = omega (arith, t.0);
        bounded = omega (arith, t.1);
        numbered = ap (λ k. k ++ (message decimal s.message_count ∷ [])) m ∙ ap messages next;
      }

  Reach-Inv : {n : ℕ} {fine : Bool} {s : Sender} → Reach n fine s → Inv n fine s
  unfolding make do_send messages complete
  Reach-Inv begin = record { timed = omega arith; bounded = omega arith; numbered = refl }
  Reach-Inv (completed {n = n} {fine = fine} {s = s} success some_one r) =
      let v = Reach-Inv r in
      complete_on-Inv n fine s success s.awaited some_one v.timed v.bounded v.numbered

  -- Whatever completes, with success or not, the messages sent are the first ones in order,
  -- each once and at most ten, and there are at most nineteen completions.
  pub sent_messages :
      {n : ℕ} {fine : Bool} {s : Sender}
      → Reach n fine s
      → (s.sent ≡ messages s.message_count) × (s.message_count ≤ max_message_count) × (n ≤ 19)
  sent_messages {n = n} {fine = fine} {s = s} r =
      let v = Reach-Inv r in (v.numbered, v.bounded, soon s.awaited v.timed v.bounded)
    where
      soon : (w : Awaited) → IsTimed w n fine s.message_count → s.message_count ≤ 10 → n ≤ 19
      soon nothing t b = t.0
      soon sending t b = omega arith
      soon timeout t b = omega (arith, t.0, t.1)

  -- When all completions have succeeded and none is awaited, exactly ten messages have been sent.
  pub all_sent :
      {n : ℕ} {s : Sender}
      → Reach n true s
      → s.awaited ≡ nothing
      → s.sent ≡ messages max_message_count
  all_sent {n = n} {s = s} r idle =
      let v = Reach-Inv r in
      let ended : IsTimed nothing n true s.message_count =
        subst (λ w. IsTimed w n true s.message_count) idle v.timed in
      v.numbered ∙ ap messages (ended.1 refl)
