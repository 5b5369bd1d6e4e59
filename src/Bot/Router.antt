-- ===== src/Bot/Router.antt =====
-- app/handlers/router.py, and the dispatch of updates that main.py registers. A state holds the tables
-- and the `user_data` of every user.
use config_manager.Prelude.{ℕ, Option, List, [], ◌∷◌, nat_beq, if◌then◌else◌}
use config_manager.Prelude.Text.{Text}
use config_manager.Bot.Buttons.{admin_callback}
use config_manager.Bot.Texts.{handle_admin_text}
use config_manager.Bot.Documents.{Document, handle_document}
use config_manager.Bot.Users.{start_command, health_command, user_callback, handle_user_text}
use config_manager.Bot.Context.{
  UserData, Store, Shown, invalid_option, main_menu, handled, declined, raised, HandlerResult, Env,
  reply,
}

-- what a handler answers, and if it declines, what comes next
unfoldable pub or_else : HandlerResult → (Store → UserData → HandlerResult) → HandlerResult
or_else o next = elim o.ending [ handled ↦ o | declined ↦ next o.store o.session | raised ↦ o ]

-- the text and the menu when no handler takes an update
unfoldable pub fall_back : Shown → Store → UserData → HandlerResult
unfolding reply
fall_back answer s d = reply s d (answer ∷ [])

-- An exception is caught and printed.
unfoldable pub callback_router : Env → ℕ → Text → Store → UserData → HandlerResult
unfolding or_else fall_back
callback_router e user_id query s d =
    or_else (or_else (admin_callback e user_id query s d) (user_callback e query))
      (fall_back invalid_option)

unfoldable pub message_router : Env → ℕ → Text → Store → UserData → HandlerResult
unfolding or_else fall_back
message_router e user_id text s d =
    or_else (or_else (handle_user_text e text s d) (handle_admin_text e user_id text))
      (fall_back main_menu)

-- The handlers that `build_application` adds.
pub data Action : Type 0 where
  start : Option Text → Option Text → Action
  health_check : Action
  button : Text → Action
  message : Text → Action
  upload : Option Document → Action

pub record Update : Type 0 where
  pub sender : ℕ
  pub action : Action
  pub env : Env

pub record State : Type 0 where
  pub store : Store
  pub sessions : ℕ → UserData

-- the handler of an action
unfoldable pub dispatch : Env → ℕ → Action → Store → UserData → HandlerResult
unfolding start_command health_command callback_router message_router handle_document
dispatch e user_id (start first_name username) s d = start_command e user_id first_name username s d
dispatch e user_id health_check s d = health_command e user_id s d
dispatch e user_id (button query) s d = callback_router e user_id query s d
dispatch e user_id (message text) s d = message_router e user_id text s d
dispatch e user_id (upload document) s d = handle_document e user_id document s d

unfoldable pub put_session : ℕ → UserData → (ℕ → UserData) → ℕ → UserData
put_session user_id d sessions k = if nat_beq k user_id then d else sessions k

-- an update, handled; `user_data` is that of the sender.
unfoldable pub receive : Update → State → State
unfolding put_session
receive up w =
    let o = dispatch up.env up.sender up.action w.store (w.sessions up.sender) in
    record { store = o.store; sessions = put_session up.sender o.session w.sessions }

unfoldable pub receive_all : List Update → State → State
receive_all [] w = w
receive_all (up ∷ ups) w = receive_all ups (receive up w)
