-- ===== src/Ops.antt =====
-- ops/sender.cpp: a class that multicasts numbered messages, one a second, with asio's completions
-- as steps.
pub mod Runs
use Prim.Native.String.{String}
use oldpart.Base.{ℕ, ◌+◌, Bool, true, false, ◌&&◌, List, [], ◌∷◌, ◌++◌, ltb, if◌then◌else◌, literal}

abbrev pub max_message_count : ℕ
max_message_count = 10

-- the operation whose completion is awaited
pub data Awaited : Type 0 where
  nothing sending timeout : Awaited

-- The count and the texts that `async_send_to` was called with, the oldest first.
pub record Sender : Type 0 where
  pub awaited : Awaited
  pub message_count : ℕ
  pub sent : List (List ℕ)

-- `os << n`, on how a stream prints a number
module _ (decimal : ℕ → List ℕ) where
  abbrev pub message : ℕ → List ℕ
  message n = literal "Message " ++ decimal n

  unfoldable pub do_send : Sender → Sender
  do_send s = record {
    awaited = sending;
    message_count = s.message_count + 1;
    sent = s.sent ++ (message s.message_count ∷ []);
  }

  unfoldable pub do_timeout : Sender → Sender
  do_timeout s = record s { awaited = timeout }

  -- the constructor
  unfoldable pub make : Sender
  make = do_send (record { awaited = nothing; message_count = 0; sent = [] })

  -- The two handlers, on whether the operation succeeded.
  unfoldable pub on_sent : Bool → Sender → Sender
  on_sent success s =
      if success && ltb s.message_count max_message_count
      then do_timeout s
      else record s { awaited = nothing }

  unfoldable pub on_timeout : Bool → Sender → Sender
  on_timeout success s = if success then do_send s else record s { awaited = nothing }

  unfoldable pub complete_on : Awaited → Bool → Sender → Sender
  complete_on nothing success s = s
  complete_on sending success s = on_sent success s
  complete_on timeout success s = on_timeout success s

  -- the completion of what is awaited
  unfoldable pub complete : Bool → Sender → Sender
  complete success s = complete_on s.awaited success s
