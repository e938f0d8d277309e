-- ===== src/Tests/Services.antt =====
-- Sending, reading, enumerations, the string helpers and the sender.
use oldpart.Base.{
  err, fault, length, ◌+◌, ℕ, zero, suc, ap, ◌≤◌, ◌≡◌, ◌≢◌, refl, Bool, true, false, none, some,
  List, [], ◌∷◌, ◌++◌, ◌==◌, if◌then◌else◌, ok, arith, literal, inr, ◌>>=◌,
}
use oldpart.Message.{OMessage}
use oldpart.Crypto.Strings.{
  aes_encrypt_string, aes_decrypt_string, aes_decrypt_string-aes_encrypt_string,
  aes_encrypt_string_overread,
}
use oldpart.Proto.Enumeration.{
  file_type_values, file_type_values-AreDistinct, find_value, to_string, parse, parse-to_string,
}
use oldpart.Net.SendQueue.{
  success, sent, begin, Socket, send, Reach, begun_in_order, on_written, stops_count,
}
use oldpart.Net.SendQueue
use oldpart.Net.Reading.{head, Reader, Peers, arrive_all}
use oldpart.Net.Reading.Delivery.{IsArriving, AreTaken, arrive_all_taken}
use oldpart.Ops.{
  Sender, Awaited, nothing, sending, timeout, max_message_count, complete as complete_send,
}
use oldpart.Ops
use oldpart.Ops.Runs.{messages, sent_messages, all_sent}
use oldpart.Ops.Runs
use oldpart.Tests.Inputs.{plain_aes, key}

-- a message with these bytes as its body
abbrev carrying : List ℕ → OMessage
carrying bytes = record {
  body_length = length bytes;
  major = 1;
  minor = 1;
  sequence_id = 5;
  message_id = 1000;
  message_sequence_id = 4294967295;
  request_id = 77;
  body_serialize_method = 0;
  compress_level = 0;
  encrypt_pad_num = 0;
  checksum = 0;
  body = bytes;
}

-- handlers that keep what they take, the first one all messages but those of three bytes
abbrev peers : Peers (List (List ℕ)) ℕ
peers = record {
  on_raw = λ m s. if m.body_length == 3 then (false, s) else (true, s ++ (m.body ∷ []));
  on_proto = λ m p s. s ++ ([] ∷ []);
  serializer = none;
}

abbrev reader : Reader (List (List ℕ))
reader = record { awaiting = head; is_open = true; stops = 0; served = [] }

carrying-IsArriving : IsArriving peers (carrying (1 ∷ 2 ∷ []))
carrying-IsArriving = record {
  small = omega arith;
  alone = λ h. absurd (omega arith);
  bare = λ h. absurd (omega arith);
}

taken : AreTaken peers (carrying (1 ∷ 2 ∷ []) ∷ []) [] ((1 ∷ 2 ∷ []) ∷ [])
taken = (carrying-IsArriving, refl, refl)

arrive_all_taken_example :
    arrive_all peers (carrying (1 ∷ 2 ∷ []) ∷ []) reader
    ≡ ok (record reader { awaiting = head; served = (1 ∷ 2 ∷ []) ∷ [] })
arrive_all_taken_example =
    arrive_all_taken peers (carrying (1 ∷ 2 ∷ []) ∷ []) reader ((1 ∷ 2 ∷ []) ∷ []) refl taken

-- A message is handled, and another one waits while the first is being written.
abbrev used : Socket
used = record SendQueue.start {
  is_in_sending = true;
  given = carrying [] ∷ carrying (1 ∷ []) ∷ [];
  posted = carrying (1 ∷ []) ∷ [];
  in_flight = carrying [] ∷ [];
  begun = carrying [] ∷ [];
}

used_reached : Reach 0 0 used
unfolding send SendQueue.on_posted SendQueue.do_write
used_reached =
    SendQueue.handled (carrying []) (carrying (1 ∷ []) ∷ []) refl
      (sent (carrying (1 ∷ [])) (sent (carrying []) begin))

begun_in_order_example : (used.given ≡ used.begun ++ used.posted) × (used.pending_messages ≡ [])
begun_in_order_example = begun_in_order used_reached

-- The first write completes with success, while the second message waits.
written_one : Reach 1 0 (on_written success (record used { in_flight = [] }))
written_one = SendQueue.completed [] (carrying []) [] success refl used_reached

stops_count_example :
    ((on_written success (record used { in_flight = [] })).stops ≡ 1)
    × (length (on_written success (record used { in_flight = [] })).begun
        ≡ length (on_written success (record used { in_flight = [] })).in_flight + 1 + 0)
stops_count_example = stops_count written_one

directory_named : find_value 2 file_type_values ≡ some (literal "Directory")
unfolding find_value
directory_named = refl

parse-to_string_example :
    (to_string [] file_type_values 2 ≡ literal "Directory")
    × (parse file_type_values (to_string [] file_type_values 2) 0 ≡ (true, 2))
parse-to_string_example =
    parse-to_string [] file_type_values 2 0 (literal "Directory") file_type_values-AreDistinct
      directory_named

aes_decrypt_string-aes_encrypt_string_example :
    (aes_encrypt_string plain_aes [] key (literal "fifteen letters") 0 >>= λ (done, cipher, n).
    aes_decrypt_string plain_aes [] key cipher n)
    ≡ ok (true, literal "fifteen letters")
aes_decrypt_string-aes_encrypt_string_example =
    aes_decrypt_string-aes_encrypt_string plain_aes key (literal "fifteen letters") [] [] 0
      (omega arith, refl) (omega arith) (inr (omega arith))

abbrev digit : ℕ → List ℕ
digit n = (48 + n) ∷ []

-- the sender after its first message is on its way
abbrev sender : Sender
sender = Ops.make digit

sent_messages_example :
    (sender.sent ≡ messages digit sender.message_count)
    × (sender.message_count ≤ max_message_count)
    × (0 ≤ 19)
sent_messages_example = sent_messages digit Runs.begin

abbrev is_idle : Awaited → Bool
is_idle nothing = true
is_idle sending = false
is_idle timeout = false

busy : (w : Awaited) → is_idle w ≡ false → w ≢ nothing
busy nothing h e = ground arith
busy sending h e = ground (arith, ap is_idle e)
busy timeout h e = ground (arith, ap is_idle e)

-- completions that all succeed, while one is awaited
abbrev steps : ℕ → Sender → Sender
steps zero s = s
steps (suc k) s = steps k (complete_send digit true s)

abbrev AreBusy : ℕ → Sender → Type 0
AreBusy zero s = Unit
AreBusy (suc k) s = (is_idle s.awaited ≡ false) × AreBusy k (complete_send digit true s)

driven :
    (k : ℕ) {n : ℕ} {s : Sender}
    → Runs.Reach digit n true s
    → AreBusy k s
    → (m : ℕ) × Runs.Reach digit m true (steps k s)
driven zero {n = n} r h = (n, r)
driven (suc k) {n = n} {s = s} r h = driven k (Runs.completed true (busy s.awaited h.0) r) h.1

nineteen : AreBusy 19 sender
unfolding complete_send Ops.complete_on Ops.on_sent Ops.on_timeout Ops.do_send Ops.do_timeout
    Ops.make
nineteen = (
  refl,
  (
    refl,
    (
      refl,
      (
        refl,
        (
          refl,
          (
            refl,
            (
              refl,
              (
                refl,
                (
                  refl,
                  (
                    refl,
                    (refl, (refl, (refl, (refl, (refl, (refl, (refl, (refl, (refl, tt))))))))),
                  ),
                ),
              ),
            ),
          ),
        ),
      ),
    ),
  ),
)

aes_encrypt_string_overread_example :
    aes_encrypt_string plain_aes [] key (literal "abc") 0 ≡ err fault
aes_encrypt_string_overread_example =
    aes_encrypt_string_overread plain_aes key (literal "abc") [] 0 (omega arith, refl) (omega arith)
      (omega arith) (omega arith)
