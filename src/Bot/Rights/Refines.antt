-- ===== src/Bot/Rights/Refines.antt =====
-- Every update moves the rights as the abstract machine does.
use config_manager.Prelude.{
  ℕ, ◌≡◌, refl, ap, ◌∙◌, Bool, true, false, List, [], ◌∷◌, if◌then◌else◌, nat_eq, member, nat_beq,
}
use config_manager.Prelude.Text.{text_eq}
use config_manager.Database.Models.{Admin}
use config_manager.Database.Users.{get_admin_ids}
use config_manager.Bot.Context.{UserData, Store, HandlerResult, Env}
use config_manager.Bot.Users.{start_command, health_command}
use config_manager.Bot.Documents.{handle_document}
use config_manager.Bot.Router.{
  callback_router, Action, start, health_check, button, message, upload, Update, State, dispatch,
  receive, receive_all,
}
use config_manager.Bot.Rights.{Asked, asked_of, admin_set, view, press, act, follow, follow_all}
use config_manager.Bot.Rights.Quiet.{
  Quiet, start_command-Quiet, health_command-Quiet, handle_document-Quiet,
}
use config_manager.Bot.Rights.Pressed.{pressed}
use config_manager.Bot.Rights.Said.{said}
use mathlib.Core.Path.{fun_ext}

module _ (e : Env) (user_id : ℕ) (s : Store) (d : UserData) where
  -- an outcome that leaves the administrators
  still :
      (o : HandlerResult) (a : Asked)
      → Quiet s.admins a o
      → ((k : ℕ) → admin_set o.store k ≡ admin_set s k) × (asked_of o.session ≡ a)
  unfolding admin_set
  still o a q = (λ k. ap (λ (rows : List Admin). member k (get_admin_ids rows)) q.0, q.1)

  dispatched :
      (action : Action)
      → let o = dispatch e user_id action s d in
        let r = act e user_id (admin_set s) (asked_of d) action in
        ((k : ℕ) → admin_set o.store k ≡ r.0 k) × (asked_of o.session ≡ r.1)
  unfolding dispatch act
  dispatched (start first_name username) =
      still (start_command e user_id first_name username s d) (asked_of d)
        (start_command-Quiet s.admins (asked_of d) e user_id s d refl refl first_name username)
  dispatched health_check =
      still (health_command e user_id s d) (asked_of d)
        (health_command-Quiet s.admins (asked_of d) e user_id s d refl refl)
  dispatched (button query) =
      still (callback_router e user_id query s d) (press e user_id (admin_set s) (asked_of d) query)
        (pressed e user_id s d query)
  dispatched (message given) = said e user_id given s d
  dispatched (upload document) =
      still (handle_document e user_id document s d) (asked_of d)
        (handle_document-Quiet s.admins (asked_of d) e user_id s d refl refl document)

asked_of_if :
    (b : Bool) (d d' : UserData) (a : Asked)
    → asked_of d ≡ a
    → asked_of (if b then d else d') ≡ (if b then a else asked_of d')
asked_of_if true d d' a h = h
asked_of_if false d d' a h = refl

-- Refinement: an update of the bot is an update of the machine that knows only the set of
-- administrators and what each user was asked for.
pub receive-follow : (up : Update) (w : State) → view (receive up w) ≡ follow up (view w)
unfolding view receive follow
receive-follow up w =
    let p = dispatched up.env up.sender w.store (w.sessions up.sender) up.action in
    let o = dispatch up.env up.sender up.action w.store (w.sessions up.sender) in
    let r = act up.env up.sender (admin_set w.store) (asked_of (w.sessions up.sender)) up.action in
    λ i. record {
      admins = fun_ext p.0 i;
      asked =
          fun_ext (λ (k : ℕ). asked_of_if (nat_beq k up.sender) o.session (w.sessions k) r.1 p.1) i;
    }

-- Whatever updates the bot receives: the set of administrators, and for each user whether he was asked for an administrator to
-- add, one to remove, or a count, become what the abstract machine says that knows nothing else, with `view` as the
-- abstraction. In the machine four buttons ask or forget, and a text of the owner adds or removes the number that it
-- is, if this fits into 64 bits.
pub receive_all-follow_all :
    (ups : List Update) (w : State) → view (receive_all ups w) ≡ follow_all ups (view w)
unfolding receive_all follow_all
receive_all-follow_all [] w = refl
receive_all-follow_all (up ∷ ups) w =
    receive_all-follow_all ups (receive up w) ∙ ap (follow_all ups) (receive-follow up w)
