-- ===== src/Bot/Menus/Taken.antt =====
-- Which texts of buttons the two handlers take.
use config_manager.Prelude.{
  ℕ, ◌≡◌, refl, ap, ◌∙◌, ◌⊎◌, inl, inr, Bool, true, false, not, ◌||◌, ◌&&◌, List, [], ◌∷◌, arith,
  member, Bool-cases,
}
use config_manager.Prelude.Text.{Text, text_eq, codes, starts_with}
use config_manager.Bot.Context.{
  UserData, Store, handled, HandlerResult, Env, require_admin, decline, invalid_option,
}
use config_manager.Bot.Buttons.{
  admin_callback, is_admin_route, people_buttons, white_buttons, vip_buttons, address_buttons,
  scraper_buttons,
}
use config_manager.Bot.Users.{user_callback}
use config_manager.Bot.Router.{callback_router, or_else, fall_back}

abbrev people_texts : List Text
people_texts =
    codes "admin_panel"
    ∷ codes "add_admin"
    ∷ codes "list_admins"
    ∷ codes "remove_admin"
    ∷ codes "admin_users"
    ∷ codes "admin_stats"
    ∷ codes "admin_broadcast"
    ∷ codes "health_check"
    ∷ []

abbrev white_texts : List Text
white_texts = codes "white_configs_menu" ∷ codes "request_white_configs_perf" ∷ []

abbrev vip_texts : List Text
vip_texts =
    codes "vip_panel"
    ∷ codes "vip_add"
    ∷ codes "vip_remove"
    ∷ codes "vip_list"
    ∷ codes "vip_broadcast"
    ∷ []

abbrev address_texts : List Text
address_texts =
    codes "clean_ip_menu"
    ∷ codes "clean_ip_upload"
    ∷ codes "list_clean_ip"
    ∷ codes "ip_config_count"
    ∷ codes "ip_generated_configs"
    ∷ codes "ip_single"
    ∷ codes "ip_bulk"
    ∷ codes "ip_file"
    ∷ []

abbrev scraper_texts : List Text
scraper_texts =
    codes "scraper_status"
    ∷ codes "scraper_toggle"
    ∷ codes "scraper_menu"
    ∷ codes "scraper_add_tg"
    ∷ codes "scraper_add_sub"
    ∷ codes "scraper_remove"
    ∷ codes "scraper_list"
    ∷ []

either : (a b : Bool) {P : Type 0} → (a || b) ≡ true → (b ≡ true → P) → (a ≡ true) ⊎ P
either true b h f = inl refl
either false b h f = inr (f h)

module _ (e : Env) (user_id : ℕ) (q : Text) (s : Store) (d : UserData) where
  -- Each part of the chain takes its own texts, and leaves what a later part takes.
  people_buttons-handled :
      (rest : HandlerResult)
      → (member q people_texts ≡ true) ⊎ (rest.ending ≡ handled)
      → (people_buttons e user_id q s d rest).ending ≡ handled
  unfolding people_buttons member
  people_buttons-handled rest h = ground arith

  white_buttons-handled :
      (rest : HandlerResult)
      → (member q white_texts ≡ true) ⊎ (rest.ending ≡ handled)
      → (white_buttons e user_id q s d rest).ending ≡ handled
  unfolding white_buttons member
  white_buttons-handled rest h = ground arith

  vip_buttons-handled :
      (rest : HandlerResult)
      → (member q vip_texts ≡ true) ⊎ (rest.ending ≡ handled)
      → (vip_buttons e user_id q s d rest).ending ≡ handled
  unfolding vip_buttons member
  vip_buttons-handled rest h = ground arith

  address_buttons-handled :
      (rest : HandlerResult)
      → (member q address_texts ≡ true) ⊎ (rest.ending ≡ handled)
      → (address_buttons e user_id q s d rest).ending ≡ handled
  unfolding address_buttons member
  address_buttons-handled rest h = ground arith

  scraper_buttons-handled :
      (rest : HandlerResult)
      → starts_with (codes "scraper_toggle_source") q ≡ false
      → member q scraper_texts ≡ true
      → (scraper_buttons e user_id q s d rest).ending ≡ handled
  unfolding scraper_buttons member
  scraper_buttons-handled rest plain h = ground arith

  -- A text of one of the parts is answered, to administrators and to others.
  admin_callback-handled :
      is_admin_route q ≡ true
      → starts_with (codes "scraper_toggle_source") q ≡ false
      → (member q people_texts
          || member q white_texts
          || member q vip_texts
          || member q address_texts
          || member q scraper_texts)
        ≡ true
      → (admin_callback e user_id q s d).ending ≡ handled
  unfolding admin_callback
  admin_callback-handled route plain listed =
      let o1 = scraper_buttons e user_id q s d (decline s d) in
      let o2 = address_buttons e user_id q s d o1 in
      let o3 = vip_buttons e user_id q s d o2 in
      let o4 = white_buttons e user_id q s d o3 in
      let scraper = scraper_buttons-handled (decline s d) plain in
      let h2 : ((member q address_texts || member q scraper_texts) ≡ true) → o2.ending ≡ handled =
        λ l.
          address_buttons-handled o1
            (either (member q address_texts) (member q scraper_texts) l scraper) in
      let h3 : ((member q vip_texts || (member q address_texts || member q scraper_texts)) ≡ true)
          → o3.ending ≡ handled =
        λ l. vip_buttons-handled o2 (either (member q vip_texts) _ l h2) in
      let h4 : ((member q white_texts
              || (member q vip_texts || (member q address_texts || member q scraper_texts)))
            ≡ true)
          → o4.ending ≡ handled =
        λ l. white_buttons-handled o3 (either (member q white_texts) _ l h3) in
      let h5 = people_buttons-handled o4 (
        either (member q people_texts)
          (member q white_texts
            || (member q vip_texts || (member q address_texts || member q scraper_texts)))
          (ground arith) h4) in
      elim (Bool-cases (require_admin e user_id s)) [
        | inl y ↦ rw (route, y) h5
        | inr y ↦ rw (route, y) refl
      ]

  user_callback-handled :
      (member q (
            codes "back_main"
            ∷ codes "menu_country"
            ∷ codes "menu_protocol"
            ∷ codes "menu_custom"
            ∷ codes "last_20"
            ∷ [])
          || starts_with (codes "country_") q
          || starts_with (codes "proto_") q)
        ≡ true
      → (user_callback e q s d).ending ≡ handled
  unfolding user_callback member
  user_callback-handled h = ground arith

-- A text that an administrator's or a user's handler takes.
for_admins : Text → Bool
for_admins q =
    is_admin_route q
    && not (starts_with (codes "scraper_toggle_source") q)
    && (member q people_texts
        || member q white_texts
        || member q vip_texts
        || member q address_texts
        || member q scraper_texts)

for_users : Text → Bool
for_users q =
    not (is_admin_route q)
    && (member q (
          codes "back_main"
          ∷ codes "menu_country"
          ∷ codes "menu_protocol"
          ∷ codes "menu_custom"
          ∷ codes "last_20"
          ∷ [])
        || starts_with (codes "country_") q
        || starts_with (codes "proto_") q)

-- One of the two handlers takes the button of this text and answers, and the router gives its answer.
abbrev pub IsReachedIn : Env → ℕ → Store → UserData → Text → Type 0
IsReachedIn e user_id s d q =
    (((admin_callback e user_id q s d).ending ≡ handled)
      × (callback_router e user_id q s d ≡ admin_callback e user_id q s d))
    ⊎ (((user_callback e q s d).ending ≡ handled)
        × (callback_router e user_id q s d ≡ user_callback e q s d))

-- So it is whoever presses the button.
abbrev pub IsReached : Text → Type 0
IsReached q = (e : Env) (user_id : ℕ) (s : Store) (d : UserData) → IsReachedIn e user_id s d q

or_else-first :
    (o : HandlerResult) (next : Store → UserData → HandlerResult)
    → o.ending ≡ handled
    → or_else o next ≡ o
unfolding or_else
or_else-first o next h = ground arith

pub handled-IsReachedIn :
    (e : Env) (user_id : ℕ) (s : Store) (d : UserData) (q : Text)
    → (admin_callback e user_id q s d).ending ≡ handled
    → IsReachedIn e user_id s d q
unfolding callback_router
handled-IsReachedIn e user_id s d q done =
    let o = admin_callback e user_id q s d in
    let first = or_else-first o (user_callback e q) done in
    inl (
      done,
      ap (λ (r : HandlerResult). or_else r (fall_back invalid_option)) first
          ∙ or_else-first o (fall_back invalid_option) done,
    )

for_admins-IsReached : (q : Text) → for_admins q ≡ true → IsReached q
unfolding for_admins callback_router
for_admins-IsReached q h e user_id s d =
    let route : is_admin_route q ≡ true = ground arith in
    let plain : starts_with (codes "scraper_toggle_source") q ≡ false = ground arith in
    handled-IsReachedIn e user_id s d q
      (admin_callback-handled e user_id q s d route plain (ground arith))

-- A text that is no route is left to the users' handler.
user_route :
    (e : Env) (user_id : ℕ) (q : Text) (s : Store) (d : UserData)
    → is_admin_route q ≡ false
    → or_else (admin_callback e user_id q s d) (user_callback e q) ≡ user_callback e q s d
unfolding or_else admin_callback decline
user_route e user_id q s d route = ground arith

for_users-IsReached : (q : Text) → for_users q ≡ true → IsReached q
unfolding for_users callback_router
for_users-IsReached q h e user_id s d =
    let route : is_admin_route q ≡ false = ground arith in
    let o = user_callback e q s d in
    let done = user_callback-handled e user_id q s d (ground arith) in
    inr (
      done,
      ap (λ (r : HandlerResult). or_else r (fall_back invalid_option))
            (user_route e user_id q s d route)
          ∙ or_else-first o (fall_back invalid_option) done,
    )

unfoldable pub is_taken : Text → Bool
unfolding for_admins for_users
is_taken q = for_admins q || for_users q

pub is_taken-IsReached : (q : Text) → is_taken q ≡ true → IsReached q
unfolding is_taken
is_taken-IsReached q h = elim (Bool-cases (for_admins q)) [
  | inl a ↦ for_admins-IsReached q a
  | inr n ↦ for_users-IsReached q (ground arith)
]
