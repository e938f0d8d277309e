-- ===== src/Opc/Daemon/Loop.antt =====
-- The event loop that `main` of opc/main.cpp runs.
use oldpart.Base.{
  ℕ, ◌≡◌, refl, ap, ap₂, ◌∙◌, sym, subst, Bool, true, false, Option, none, some, List, [], ◌∷◌,
  ◌++◌, ◌==◌, Outcome, ok, err, fault, ◌>>=◌, if◌then◌else◌,
}
use oldpart.Serializer.Returned.{Post, Post-bind, Post-if}
use oldpart.Net.SendQueue.{ErrorCode, success, operation_aborted, failure}
use oldpart.Net.Discovery.{Discover, FindOrganization, discover_size, on_received}
use oldpart.Opc.Daemon.{
  Daemon, started, handler_of, Event, datagram, child_ended, stop_signal, on_event, run,
}

-- No handler is set, and nothing has been sent.
record IsMute (d : Daemon) : Type 0 where
  unhandled : d.handled ≡ false
  unsent : d.sent ≡ []

handler_of_unhandled : (d : Daemon) → d.handled ≡ false → handler_of d ≡ none
handler_of_unhandled d h =
    ap (λ b. elim b as (λ x. Option FindOrganization) [ true ↦ some d.server | false ↦ none ]) h

-- Without a handler nothing is sent.
on_received_unsent :
    (memory : List ℕ) (ec : ErrorCode) (n : ℕ) (local : Option Discover)
    → Post (λ r. r.1 ≡ []) (on_received memory none ec n local)
unfolding on_received
on_received_unsent memory success n local =
    Post-if (λ r. r.1 ≡ []) (n == discover_size) _ _ (λ e. tt) (λ e. refl)
on_received_unsent memory operation_aborted n local = refl
on_received_unsent memory failure n local = refl

on_event-IsMute :
    (memory : List ℕ) (e : Event) (d : Daemon) → IsMute d → Post IsMute (on_event memory e d)
unfolding on_event
on_event-IsMute memory (datagram ec n local) d v =
    Post-if IsMute d.receiving _ _
      (λ e.
        Post-bind (λ r. r.1 ≡ []) IsMute (on_received memory (handler_of d) ec n local) _
          (subst (λ h. Post (λ r. r.1 ≡ []) (on_received memory h ec n local))
            (sym (handler_of_unhandled d v.unhandled)) (on_received_unsent memory ec n local))
          (λ r h. record { unhandled = v.unhandled; unsent = ap₂ (λ a b. a ++ b) v.unsent h }))
      (λ e. v)
on_event-IsMute memory (child_ended pid) d v =
    Post-if IsMute d.awaits_child _ _ (λ e. record { unhandled = v.unhandled; unsent = v.unsent })
      (λ e. v)
on_event-IsMute memory stop_signal d v = record { unhandled = v.unhandled; unsent = v.unsent }

run-IsMute :
    (memory : List ℕ) (es : List Event) (d : Daemon) → IsMute d → Post IsMute (run memory es d)
unfolding run
run-IsMute memory [] d v = v
run-IsMute memory (e ∷ es) d v =
    Post-if IsMute d.stopped _ _ (λ h. v)
      (λ h.
        Post-bind IsMute IsMute (on_event memory e d) _ (on_event-IsMute memory e d v)
          (λ c w. run-IsMute memory es c w))

-- The daemon as `main` sets it up answers no message: whatever arrives, while it runs nothing is
-- sent.
pub never_answers :
    (memory : List ℕ) (es : List Event) (server : FindOrganization) (d : Daemon)
    → run memory es (started server) ≡ ok d
    → d.sent ≡ []
never_answers memory es server d e =
    (subst (Post IsMute) e
      (run-IsMute memory es (started server) (record { unhandled = refl; unsent = refl }))).unsent

-- A run that is not stopped at its end goes on with the events that follow.
continued :
    (memory : List ℕ) (c d : Daemon) (b : Bool) (m : Outcome Daemon)
    (short long : Daemon → Outcome Daemon) (rest : Outcome Daemon)
    → c.stopped ≡ b
    → d.stopped ≡ false
    → ((a : Daemon) → short a ≡ ok d → long a ≡ rest)
    → (if b then ok c else (m >>= short)) ≡ ok d
    → (if b then ok c else (m >>= long)) ≡ rest
continued memory c d true m short long rest s h again e =
    let same : c ≡ d = cc in
    absurd (true_ne_false (sym s ∙ ap (λ (a : Daemon). a.stopped) same ∙ h))
  where
    true_ne_false : true ≡ false → ⊥
    true_ne_false p = cc
continued memory c d false (err x) short long rest s h again e = absurd (cc)
continued memory c d false (ok a) short long rest s h again e = again a e

run-append :
    (memory : List ℕ) (es fs : List Event) (c d : Daemon)
    → run memory es c ≡ ok d
    → d.stopped ≡ false
    → run memory (es ++ fs) c ≡ run memory fs d
unfolding run
run-append memory [] fs c d e h = cc
run-append memory (x ∷ es) fs c d e h =
    continued memory c d c.stopped (on_event memory x c) (λ b. run memory es b)
      (λ b. run memory (es ++ fs) b) (run memory fs d) refl h
      (λ a k. run-append memory es fs a d k h) e

-- Without a handler a message of the right size is undefined behaviour.
datagram_unhandled :
    (memory : List ℕ) (local : Option Discover) (d : Daemon)
    → d.receiving ≡ true
    → d.handled ≡ false
    → on_event memory (datagram success discover_size local) d ≡ err fault
unfolding on_event on_received
datagram_unhandled memory local d receiving unhandled =
    ap
      (λ b.
        if b
        then (on_received memory (handler_of d) success discover_size local >>= λ r.
            ok (record d { receiving = r.0; sent = d.sent ++ r.1 }))
        else ok d)
      receiving
    ∙ ap
        (λ h. on_received memory h success discover_size local >>= λ r.
          ok (record d { receiving = r.0; sent = d.sent ++ r.1 }))
        (handler_of_unhandled d unhandled)

-- The first message of the right size that a daemon receives, as `main` sets it up, is undefined
-- behaviour, whatever happened before it and whatever it says: no handler was set for the socket.
-- The daemon is still receiving and has not been stopped.
pub datagram_faults :
    (memory : List ℕ) (es after : List Event) (server : FindOrganization) (d : Daemon)
    (local : Option Discover)
    → run memory es (started server) ≡ ok d
    → d.receiving ≡ true
    → d.stopped ≡ false
    → run memory (es ++ (datagram success discover_size local ∷ after)) (started server) ≡ err fault
unfolding run
datagram_faults memory es after server d local e receiving going =
    let mute : IsMute d =
      subst (Post IsMute) e
        (run-IsMute memory es (started server) (record { unhandled = refl; unsent = refl })) in
    run-append memory es (datagram success discover_size local ∷ after) (started server) d e going
    ∙ ap
        (λ b.
          if b
          then ok d
          else (on_event memory (datagram success discover_size local) d >>= λ c.
              run memory after c))
        going
    ∙ ap (λ o. o >>= λ c. run memory after c)
        (datagram_unhandled memory local d receiving mute.unhandled)
