-- ===== src/Bot/Rights/Owner.antt =====
-- The administrators change by the owner's texts alone.
use config_manager.Prelude.{
  ℕ, ◌≡◌, refl, ap, ◌∙◌, Bool, false, not, ◌&&◌, ◌||◌, List, [], ◌∷◌, arith, nat_eq, member, All,
}
use config_manager.Prelude.Text.{Text, text_eq}
use config_manager.Database.Users.{get_admin_ids}
use config_manager.Bot.Context.{Env, is_owner}
use config_manager.Bot.Router.{
  start, health_check, button, message, upload, Update, Action, State, receive_all,
}
use config_manager.Bot.Rights.{
  Asked, Rights, changed, say, act, admin_set, view, follow, follow_all,
}
use config_manager.Bot.Rights.Refines.{receive_all-follow_all}

-- whether an action of a user is a text of the owner
unfoldable pub is_owner_text : Env → ℕ → Action → Bool
is_owner_text e user_id (start first_name username) = false
is_owner_text e user_id health_check = false
is_owner_text e user_id (button query) = false
is_owner_text e user_id (message text) = is_owner e user_id
is_owner_text e user_id (upload document) = false

changed-admins :
    (e : Env) (user_id : ℕ) (admins : ℕ → Bool) (a : Asked) (join : Bool → Bool → Bool)
    (text : Text) (k : ℕ)
    → is_owner e user_id ≡ false
    → changed e user_id admins a join text k ≡ admins k
unfolding changed is_owner
changed-admins e user_id admins a join text k h = ground arith

say-admins :
    (e : Env) (user_id : ℕ) (admins : ℕ → Bool) (a : Asked) (text : Text) (k : ℕ)
    → is_owner e user_id ≡ false
    → (say e user_id admins a text).0 k ≡ admins k
unfolding say
say-admins e user_id admins a text k h = ground (
  arith,
  changed-admins e user_id admins a (λ (b : Bool) (same : Bool). b || same) text k h,
  changed-admins e user_id admins a (λ (b : Bool) (same : Bool). b && not same) text k h,
)

act-admins :
    (e : Env) (user_id : ℕ) (action : Action) (admins : ℕ → Bool) (a : Asked) (k : ℕ)
    → is_owner_text e user_id action ≡ false
    → (act e user_id admins a action).0 k ≡ admins k
unfolding act is_owner_text
act-admins e user_id (start first_name username) admins a k h = refl
act-admins e user_id health_check admins a k h = refl
act-admins e user_id (button query) admins a k h = refl
act-admins e user_id (message text) admins a k h = say-admins e user_id admins a text k h
act-admins e user_id (upload document) admins a k h = refl

follow_all-admins :
    (ups : List Update) (r : Rights) (k : ℕ)
    → All (λ (up : Update). is_owner_text up.env up.sender up.action ≡ false) ups
    → (follow_all ups r).admins k ≡ r.admins k
unfolding follow_all follow
follow_all-admins [] r k h = refl
follow_all-admins (up ∷ ups) r k h =
    follow_all-admins ups (follow up r) k h.1
    ∙ act-admins up.env up.sender up.action r.admins (r.asked up.sender) k h.0

-- Over any list of updates among which there is no text of the owner, whoever presses what, the
-- administrators stay the same.
pub receive_all-admins :
    (ups : List Update) (w : State) (k : ℕ)
    → All (λ (up : Update). is_owner_text up.env up.sender up.action ≡ false) ups
    → member k (get_admin_ids (receive_all ups w).store.admins)
      ≡ member k (get_admin_ids w.store.admins)
unfolding view admin_set
receive_all-admins ups w k h =
    ap (λ (r : Rights). r.admins k) (receive_all-follow_all ups w)
    ∙ follow_all-admins ups (view w) k h
