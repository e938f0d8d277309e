-- ===== src/Net/Reading/Delivery.antt =====
-- What `TSocket::DoRead` (common/TSocket.cpp) does with the messages of a stream.
use oldpart.Base.{
  ℕ, ◌^◌, ◌<◌, ◌≡◌, ◌≢◌, refl, ap, ap₂, sym, subst, ◌++◌, ◌+◌, true, false, some, List, [], ◌∷◌,
  ◌==◌, ==_iff, Bool-cases, inl, inr, lt→ltb, ok, err, fault,
}
use oldpart.Message.{single, OMessage, get_receive_buffer}
use oldpart.Serializer.Registry.{ProtoCreator, do_create_proto}
use oldpart.Net.SendQueue.{operation_aborted, failure}
use oldpart.Net.Reading.{
  Awaiting, idle, head, body, Reader, Peers, do_read, on_error, on_empty, on_head, on_body,
  complete_on, complete, arrive, arrive_all,
}

module _ {S P : Type 0} (peers : Peers S P) where
  -- A message that can arrive: a body of the length announced, or none and a number of -1.
  pub record IsArriving (m : OMessage) : Type 0 where
    pub small : m.body_length < 2 ^ 31
    pub alone : m.body_length ≡ 0 → m.message_sequence_id ≡ single
    pub bare : m.body_length ≡ 0 → m.body ≡ []

  -- The first form of `OnMessage` takes each of these messages in turn, and keeps `t` at the end.
  abbrev pub AreTaken : List OMessage → S → S → Type 0
  AreTaken [] s t = s ≡ t
  AreTaken (m ∷ ms) s t =
      IsArriving m × ((peers.on_raw m s).0 ≡ true) × AreTaken ms (peers.on_raw m s).1 t

  bare_eq : (m : OMessage) → m.body ≡ [] → record m { body = [] } ≡ m
  bare_eq m h = ap (λ b. record m { body = b }) (sym h)

  pub arrive_taken :
      (m : OMessage) (r : Reader S)
      → r.awaiting ≡ head
      → IsArriving m
      → (peers.on_raw m r.served).0 ≡ true
      → arrive peers m r ≡ ok (record r { awaiting = head; served = (peers.on_raw m r.served).1 })
  unfolding arrive complete on_head on_body on_empty do_read get_receive_buffer complete_on
  arrive_taken m r a i h = elim (Bool-cases (m.body_length == 0)) [
    | inl e ↦
        let none_long : m.body_length ≡ 0 = (==_iff m.body_length 0).0 e in
        let one : (m.message_sequence_id == single) ≡ true =
          (==_iff m.message_sequence_id single).1 (i.alone none_long) in
        rw (e, a) (rw e (rw (bare_eq m (i.bare none_long), h, one) refl))
    | inr e ↦ rw (e, a) (rw (e, lt→ltb m.body_length (2 ^ 31) i.small) (rw h refl))
  ]

  -- Messages that the first form of `OnMessage` takes are handed to it one by one, in the order in
  -- which they arrive, and then the next head is awaited. The reader awaits a head at the start.
  pub arrive_all_taken :
      (ms : List OMessage) (r : Reader S) (t : S)
      → r.awaiting ≡ head
      → AreTaken ms r.served t
      → arrive_all peers ms r ≡ ok (record r { awaiting = head; served = t })
  unfolding arrive_all
  arrive_all_taken [] r t a h = ap₂ (λ w v. ok (record r { awaiting = w; served = v })) a h
  arrive_all_taken (m ∷ ms) r t a h = rw (arrive_taken m r a h.0 h.1) (
      arrive_all_taken ms (record r { awaiting = head; served = (peers.on_raw m r.served).1 }) t
        refl h.2)

  arrive_untaken :
      (m : OMessage) (r : Reader S)
      → r.awaiting ≡ head
      → m.body_length < 2 ^ 31
      → m.body_length ≢ 0
      → (peers.on_raw m r.served).0 ≡ false
      → arrive peers m r ≡ err fault
  unfolding arrive complete on_head on_body get_receive_buffer complete_on
  arrive_untaken m r a small long h = elim (Bool-cases (m.body_length == 0)) [
    | inl e ↦ absurd (long ((==_iff m.body_length 0).0 e))
    | inr e ↦ rw (e, a) (rw (e, lt→ltb m.body_length (2 ^ 31) small) (rw h refl))
  ]

  -- The first message with a body that the first form of `OnMessage` does not take ends the
  -- program in undefined behaviour, whatever its number is and whatever arrived before it: the
  -- handler uses variables of a call that has returned.
  pub arrive_all_untaken :
      (ms : List OMessage) (m : OMessage) (after : List OMessage) (r : Reader S) (t : S)
      → r.awaiting ≡ head
      → AreTaken ms r.served t
      → m.body_length < 2 ^ 31
      → m.body_length ≢ 0
      → (peers.on_raw m t).0 ≡ false
      → arrive_all peers (ms ++ (m ∷ after)) r ≡ err fault
  unfolding arrive_all
  arrive_all_untaken [] m after r t a h small long e =
      rw (arrive_untaken m r a small long (subst (λ v. (peers.on_raw m v).0 ≡ false) (sym h) e))
        refl
  arrive_all_untaken (x ∷ ms) m after r t a h small long e = rw (arrive_taken x r a h.0 h.1) (
      arrive_all_untaken ms m after
        (record r { awaiting = head; served = (peers.on_raw x r.served).1 }) t refl h.2 small long
        e)

  -- A message without a body that the first form does not take goes to the second with the object
  -- created for its id, and the next head is awaited.
  pub arrive_empty :
      (m : OMessage) (r : Reader S) (creators : List (ℕ × ProtoCreator P))
      → r.awaiting ≡ head
      → IsArriving m
      → m.body_length ≡ 0
      → peers.serializer ≡ some creators
      → (peers.on_raw m r.served).0 ≡ false
      → arrive peers m r
        ≡ ok (record r {
          awaiting = head;
          served =
              peers.on_proto m (do_create_proto m.message_id creators) (peers.on_raw m r.served).1;
        })
  unfolding arrive complete on_head on_empty do_read complete_on
  arrive_empty m r creators a i z c h =
      let e : (m.body_length == 0) ≡ true = (==_iff m.body_length 0).1 z in
      let one : (m.message_sequence_id == single) ≡ true =
        (==_iff m.message_sequence_id single).1 (i.alone z) in
      rw (e, a) (rw e (rw (bare_eq m (i.bare z), h, one, c) refl))

  -- A read that fails stops the connection once, one that is aborted does nothing; either way no
  -- message is handed on and no other read begins.
  pub complete_failed :
      (m : OMessage) (r : Reader S)
      → r.awaiting ≢ idle
      → (complete peers failure m r ≡ ok (record r { awaiting = idle; stops = r.stops + 1 }))
        × (complete peers operation_aborted m r ≡ ok (record r { awaiting = idle }))
  unfolding complete complete_on on_head on_body on_error
  complete_failed m r h = both r.awaiting h
    where
      both :
          (w : Awaiting)
          → w ≢ idle
          → (complete_on peers w failure m (record r { awaiting = idle })
              ≡ ok (record r { awaiting = idle; stops = r.stops + 1 }))
            × (complete_on peers w operation_aborted m (record r { awaiting = idle })
                ≡ ok (record r { awaiting = idle }))
      both idle n = absurd (n refl)
      both head n = (refl, refl)
      both (body b) n = (refl, refl)
