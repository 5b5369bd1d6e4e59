-- ===== src/Services/Dispatch.antt =====
-- services/message_queue.py and services/error_handler.py: who is told of a message or an error. A callback is a function
-- on a state that stands for all that callbacks change; it gives the state back, and whether it raised an exception.
pub mod Laws
use config_manager.Prelude.{
  ℕ, Bool, true, false, List, [], ◌∷◌, ◌++◌, Eq, ◌==◌, ◌≡◌, if◌then◌else◌, nat_beq,
}

-- `MessageType`
pub data MessageType : Type 0 where
  config_scraped config_validated config_published error_occurred user_action : MessageType

-- `ErrorType`
pub data ErrorType : Type 0 where
  database network validation parsing publishing scraping unknown : ErrorType

abbrev pub message_code : MessageType → ℕ
message_code config_scraped = 0
message_code config_validated = 1
message_code config_published = 2
message_code error_occurred = 3
message_code user_action = 4

abbrev pub error_code : ErrorType → ℕ
error_code database = 0
error_code network = 1
error_code validation = 2
error_code parsing = 3
error_code publishing = 4
error_code scraping = 5
error_code unknown = 6

-- The state after a call, and whether the call raised an exception.
pub record Called (S : Type 0) : Type 0 where
  pub state : S
  pub raised : Bool

abbrev pub Callback : Type 0 → Type 0 → Type 0
Callback D S = D → S → Called S

-- The dictionary of the lists of callbacks, which has a list for every key.
abbrev pub Registry : Type 0 → Type 0 → Type 0 → Type 0
Registry K D S = K → List (Callback D S)

-- the loop over the callbacks: an exception is logged, and the loop goes on
unfoldable pub call_each : {D S : Type 0} → List (Callback D S) → D → S → S
call_each [] d s = s
call_each (callback ∷ callbacks) d s = call_each callbacks d (callback d s).state

-- `put`
unfoldable pub put_message : {K D : Type 0} → K → D → List (K × D) → List (K × D)
put_message msg_type d queue = queue ++ (msg_type, d) ∷ []

module _ {K D S : Type 0} where
  unfoldable pub no_callbacks : Registry K D S
  no_callbacks k = []

  -- `subscribe` and `register_handler`, for keys compared by their codes
  unfoldable pub register : (K → ℕ) → K → Callback D S → Registry K D S → Registry K D S
  register code key callback registry k =
      if nat_beq (code k) (code key) then registry k ++ callback ∷ [] else registry k

  -- `handle_error`
  unfoldable pub handle_error : Registry K D S → K → D → S → S
  unfolding call_each
  handle_error registry error_type d s = call_each (registry error_type) d s

  -- `process_messages`, until the queue is empty and the task waits for the next message
  unfoldable pub process_messages : Registry K D S → List (K × D) → S → S
  unfolding call_each
  process_messages registry [] s = s
  process_messages registry ((msg_type, d) ∷ queue) s =
      process_messages registry queue (call_each (registry msg_type) d s)
