-- ===== src/Bot/Rights/Pressed.antt =====
-- Buttons move the rights as the abstract machine does.
use config_manager.Prelude.{
  ℕ, ◌≡◌, refl, true, false, [], ◌∷◌, arith, Bool-cases, inl, inr, ◌==◌, ==_iff, nat_eq, member,
}
use config_manager.Prelude.Text.{Text, text_eq, text_beq, codes, starts_with}
use config_manager.Bot.Context.{UserData, Store, invalid_option, Env}
use config_manager.Bot.Buttons.{is_admin_route, people_buttons, admin_callback}
use config_manager.Bot.Users.{user_callback}
use config_manager.Bot.Router.{or_else, fall_back, callback_router}
use config_manager.Bot.Rights.{Asked, asked_of, admin_set, press}
use config_manager.Bot.Rights.Quiet.{
  Quiet, reply-Quiet, or_else-Quiet, admin_callback-Quiet, user_callback-Quiet,
}

pub eq_of : (s t : Text) → (s == t) ≡ true → s ≡ t
eq_of s t h = (==_iff s t).0 h

module _ (e : Env) (user_id : ℕ) (s : Store) (d : UserData) where
  -- What an action has done to the rights, if it did what the machine does.
  abbrev pub Pressed : Text → Type 0
  Pressed query =
      Quiet s.admins (press e user_id (admin_set s) (asked_of d) query)
        (callback_router e user_id query s d)

  add_admin-Pressed : Pressed (codes "add_admin")
  unfolding callback_router admin_callback is_admin_route people_buttons press asked_of text_beq
      member
  add_admin-Pressed = ground arith

  remove_admin-Pressed : Pressed (codes "remove_admin")
  unfolding callback_router admin_callback is_admin_route people_buttons press asked_of text_beq
      member admin_set
  remove_admin-Pressed = ground arith

  menu_custom-Pressed : Pressed (codes "menu_custom")
  unfolding callback_router admin_callback user_callback is_admin_route press asked_of text_beq
      member starts_with
  menu_custom-Pressed = ground arith

  back_main-Pressed : Pressed (codes "back_main")
  unfolding callback_router admin_callback user_callback is_admin_route press asked_of text_beq
      member starts_with
  back_main-Pressed = ground arith

  press_other :
      (query : Text) (a : Asked)
      → (query == codes "add_admin") ≡ false
      → (query == codes "remove_admin") ≡ false
      → (query == codes "menu_custom") ≡ false
      → (query == codes "back_main") ≡ false
      → press e user_id (admin_set s) a query ≡ a
  unfolding press
  press_other query a n1 n2 n3 n4 = rw (n1, n2, n3, n4) refl

  pressed_other :
      (query : Text)
      → (query == codes "add_admin") ≡ false
      → (query == codes "remove_admin") ≡ false
      → (query == codes "menu_custom") ≡ false
      → (query == codes "back_main") ≡ false
      → Quiet s.admins (asked_of d) (callback_router e user_id query s d)
  unfolding callback_router
  pressed_other query n1 n2 n3 n4 =
      or_else-Quiet s.admins (asked_of d)
        (or_else (admin_callback e user_id query s d) (user_callback e query))
        (fall_back invalid_option)
        (or_else-Quiet s.admins (asked_of d) (admin_callback e user_id query s d)
          (user_callback e query)
          (admin_callback-Quiet s.admins (asked_of d) e user_id query s d refl refl n1 n2)
          (λ s' d' h k. user_callback-Quiet s.admins (asked_of d) e user_id query s' d' h k n3 n4))
        (λ s' d' h k. reply-Quiet s.admins (asked_of d) s' d' (invalid_option ∷ []) h k)

  pub pressed : (query : Text) → Pressed query
  pressed query = elim (Bool-cases (query == codes "add_admin")) [
    | inl p ↦ rw (eq_of query _ p) add_admin-Pressed
    | inr n1 ↦ elim (Bool-cases (query == codes "remove_admin")) [
      | inl p ↦ rw (eq_of query _ p) remove_admin-Pressed
      | inr n2 ↦ elim (Bool-cases (query == codes "menu_custom")) [
        | inl p ↦ rw (eq_of query _ p) menu_custom-Pressed
        | inr n3 ↦ elim (Bool-cases (query == codes "back_main")) [
          | inl p ↦ rw (eq_of query _ p) back_main-Pressed
          | inr n4 ↦
              rw (press_other query (asked_of d) n1 n2 n3 n4) (pressed_other query n1 n2 n3 n4)
        ]
      ]
    ]
  ]
