-- ===== src/Bot/Rights.antt =====
-- Who is an administrator, and who has been asked for a number: what app/handlers promises about rights,
-- with everything else forgotten.
pub mod Quiet
pub mod Pressed
pub mod Said
pub mod Refines
pub mod Owner
use config_manager.Prelude.{
  ℕ, Bool, true, false, not, ◌&&◌, ◌||◌, Option, none, some, List, [], ◌∷◌, member, ◌==◌, nat_eq,
  nat_beq, if◌then◌else◌,
}
use config_manager.Prelude.Text.{Text, text_eq, codes, strip}
use config_manager.Utils.Numbers.{ℤ, int, user_key}
use config_manager.Database.Users.{fits, get_admin_ids}
use config_manager.Bot.Router.{Action, start, health_check, button, message, upload, Update, State}
use config_manager.Bot.Context.{
  awaiting_admin_id, awaiting_remove_admin, awaiting_count, UserData, Store, Env,
}

-- What a user was asked for, as far as it decides what his next text means.
pub record Asked : Type 0 where
  pub adding : Bool
  pub removing : Bool
  pub counting : Bool

-- The set of administrators, and what each user was asked for.
pub record Rights : Type 0 where
  pub admins : ℕ → Bool
  pub asked : ℕ → Asked

unfoldable pub asked_of : UserData → Asked
asked_of d = record {
  adding = d.flags awaiting_admin_id;
  removing = d.flags awaiting_remove_admin;
  counting = d.flags awaiting_count;
}

unfoldable pub admin_set : Store → ℕ → Bool
admin_set s k = member k (get_admin_ids s.admins)

unfoldable pub view : State → Rights
unfolding asked_of admin_set
view w = record { admins = admin_set w.store; asked = λ k. asked_of (w.sessions k) }

module _ (e : Env) (user_id : ℕ) (admins : ℕ → Bool) (a : Asked) where
  -- Four buttons matter: three ask, one forgets.
  unfoldable pub press : Text → Asked
  press query =
      if query == codes "add_admin"
      then (if user_id == e.owner_id then record a { adding = true } else a)
      else if query == codes "remove_admin"
      then (if user_id == e.owner_id || admins user_id then record a { removing = true } else a)
      else if query == codes "menu_custom"
      then record a { counting = true }
      else if query == codes "back_main"
      then record { adding = false; removing = false; counting = false }
      else a

  -- The set with the number of a text, or without it, if the owner wrote a number that
  -- the database can hold.
  unfoldable pub changed : (Bool → Bool → Bool) → Text → ℕ → Bool
  unfolding fits
  changed join text k =
      if user_id == e.owner_id
      then elim (int e.unicode (strip text)) [
        | none ↦ admins k
        | some n ↦ if fits (user_key n) then join (admins k) (k == user_key n) else admins k
      ]
      else admins k

  -- A text answers the first question: a count, then an administrator to add, then one to remove.
  unfoldable pub say : Text → (ℕ → Bool) × Asked
  unfolding changed
  say text =
      if a.counting
      then (admins, record a { counting = false })
      else if a.adding
      then (changed (λ b same. b || same) text, record a { adding = false })
      else if a.removing
      then (changed (λ b same. b && not same) text, record a { removing = false })
      else (admins, a)

  unfoldable pub act : Action → (ℕ → Bool) × Asked
  unfolding press say
  act (start first_name username) = (admins, a)
  act health_check = (admins, a)
  act (button query) = (admins, press query)
  act (message text) = say text
  act (upload document) = (admins, a)

-- An update, on the rights.
unfoldable pub follow : Update → Rights → Rights
unfolding act
follow up r =
    let o = act up.env up.sender r.admins (r.asked up.sender) up.action in
    record { admins = o.0; asked = λ k. if nat_beq k up.sender then o.1 else r.asked k }

unfoldable pub follow_all : List Update → Rights → Rights
follow_all [] r = r
follow_all (up ∷ ups) r = follow_all ups (follow up r)
