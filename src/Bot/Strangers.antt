-- ===== src/Bot/Strangers.antt =====
-- What the bot lets a user do who is no administrator.
use config_manager.Prelude.{
  not, ◌&&◌, nat_eq, member, ◌||◌, ℕ, ◌≡◌, refl, sym, ap, ◌∙◌, Bool, true, false, Option, List, [],
  ◌∷◌, arith, if◌then◌else◌, Bool-cases, inl, inr, nat_beq, All, All-weaken,
}
use config_manager.Prelude.Text.{Text}
use config_manager.Bot.Context.{
  is_owner, Flag, awaiting_count, flag_number, UserData, Store, HandlerResult, Env, is_admin,
  require_admin, awaiting_admin_id, awaiting_remove_admin, awaiting_vip_id, awaiting_vip_remove,
  awaiting_ip_single, awaiting_ip_bulk, awaiting_scraper_tg, awaiting_scraper_sub, broadcast_mode,
  vip_broadcast_mode, awaiting_white_perf_count, awaiting_config_count, awaiting_ip_count,
  awaiting_clean_ip, invalid_option, main_menu, Ending, handled, declined, raised, decline,
}
use config_manager.Bot.Buttons.{is_admin_route, admin_callback}
use config_manager.Bot.Texts.{handle_admin_text}
use config_manager.Bot.Documents.{Document, handle_document}
use config_manager.Bot.Router.{
  or_else, fall_back, callback_router, message_router, Action, start, health_check, button, message,
  upload, dispatch, Update, State, put_session, receive, receive_all,
}
use mathlib.Core.Path.{subst}
use config_manager.Database.Users.{get_admin_ids}
use config_manager.Bot.Users.{start_command, health_command, user_callback, handle_user_text}

-- Nothing but a count of configs is awaited from the user.
abbrev pub IsGuest : UserData → Type 0
IsGuest d =
    (f : Flag) → (not (nat_beq (flag_number f) (flag_number awaiting_count)) && d.flags f) ≡ false

-- All tables but those of users and their starts, and the switch of the scraper, are as they were.
abbrev pub Untouched : Store → Store → Type 0
Untouched s t = t ≡ record s { users = t.users; stats = t.stats }

-- An outcome that leaves all tables, and from a guest a guest.
abbrev Harmless : Store → HandlerResult → Type 0
Harmless s o = (o.store ≡ s) × IsGuest o.session

choose-Harmless :
    (s : Store) (v : Ending) (o t : HandlerResult)
    → Harmless s o
    → Harmless s t
    → Harmless s (elim v [ handled ↦ o | declined ↦ t | raised ↦ o ])
choose-Harmless s handled o t h k = h
choose-Harmless s declined o t h k = k
choose-Harmless s raised o t h k = h

module _ (e : Env) (user_id : ℕ) (s : Store) (no_right : is_admin e user_id s ≡ false) where
  or_else-Harmless :
      (o : HandlerResult) (next : Store → UserData → HandlerResult)
      → Harmless s o
      → ((d : UserData) → IsGuest d → Harmless s (next s d))
      → Harmless s (or_else o next)
  unfolding or_else
  or_else-Harmless o next h k =
      choose-Harmless s o.ending o (next o.store o.session) h
        (subst (λ (t : Store). Harmless s (next t o.session)) (sym h.0) (k o.session h.1))

  admin_callback-Harmless :
      (query : Text) (d : UserData) → IsGuest d → Harmless s (admin_callback e user_id query s d)
  unfolding admin_callback require_admin
  admin_callback-Harmless query d g = elim (Bool-cases (is_admin_route query)) [
    | inl r ↦ rw (no_right, r) (refl, g)
    | inr r ↦ rw (no_right, r) (refl, g)
  ]

  user_callback-Harmless :
      (query : Text) (d : UserData) → IsGuest d → Harmless s (user_callback e query s d)
  unfolding user_callback flag_number
  user_callback-Harmless query d g = (ground arith, λ f. ground (arith, g f))

  handle_user_text-Harmless :
      (text : Text) (d : UserData) → IsGuest d → Harmless s (handle_user_text e text s d)
  unfolding handle_user_text flag_number
  handle_user_text-Harmless text d g = (ground arith, λ f. ground (arith, g f))

  handle_admin_text_guest :
      (text : Text) (d : UserData) → IsGuest d → handle_admin_text e user_id text s d ≡ decline s d
  unfolding handle_admin_text flag_number
  handle_admin_text_guest text d g =
      rw
        (
          g awaiting_admin_id,
          g awaiting_remove_admin,
          g awaiting_vip_id,
          g awaiting_vip_remove,
          g awaiting_ip_single,
          g awaiting_ip_bulk,
          g awaiting_scraper_tg,
          g awaiting_scraper_sub,
          g broadcast_mode,
          g vip_broadcast_mode,
          g awaiting_white_perf_count,
          g awaiting_config_count,
          g awaiting_ip_count,
        )
        refl

  handle_admin_text-Harmless :
      (text : Text) (d : UserData) → IsGuest d → Harmless s (handle_admin_text e user_id text s d)
  unfolding decline
  handle_admin_text-Harmless text d g = rw (handle_admin_text_guest text d g) (refl, g)

  callback_router-Harmless :
      (query : Text) (d : UserData) → IsGuest d → Harmless s (callback_router e user_id query s d)
  unfolding callback_router
  callback_router-Harmless query d g =
      or_else-Harmless (or_else (admin_callback e user_id query s d) (user_callback e query))
        (fall_back invalid_option)
        (or_else-Harmless (admin_callback e user_id query s d) (user_callback e query)
          (admin_callback-Harmless query d g) (user_callback-Harmless query))
        (λ d' g'. (refl, g'))

  message_router-Harmless :
      (text : Text) (d : UserData) → IsGuest d → Harmless s (message_router e user_id text s d)
  unfolding message_router
  message_router-Harmless text d g =
      or_else-Harmless (or_else (handle_user_text e text s d) (handle_admin_text e user_id text))
        (fall_back main_menu)
        (or_else-Harmless (handle_user_text e text s d) (handle_admin_text e user_id text)
          (handle_user_text-Harmless text d g) (handle_admin_text-Harmless text))
        (λ d' g'. (refl, g'))

  handle_document-Harmless :
      (document : Option Document) (d : UserData)
      → IsGuest d
      → Harmless s (handle_document e user_id document s d)
  unfolding handle_document flag_number decline
  handle_document-Harmless document d g = rw (g awaiting_clean_ip) (refl, g)

  health_command-Harmless : (d : UserData) → IsGuest d → Harmless s (health_command e user_id s d)
  unfolding health_command require_admin
  health_command-Harmless d g = rw no_right (refl, g)

  harmless : (o : HandlerResult) → Harmless s o → Untouched s o.store × IsGuest o.session
  harmless o h =
      (h.0 ∙ ap (λ (t : Store). record s { users = t.users; stats = t.stats }) (sym h.0), h.1)

  dispatch-IsGuest :
      (action : Action) (d : UserData)
      → IsGuest d
      → let o = dispatch e user_id action s d in Untouched s o.store × IsGuest o.session
  unfolding dispatch start_command
  dispatch-IsGuest (start first_name username) d g = (refl, g)
  dispatch-IsGuest health_check d g =
      harmless (health_command e user_id s d) (health_command-Harmless d g)
  dispatch-IsGuest (button query) d g =
      harmless (callback_router e user_id query s d) (callback_router-Harmless query d g)
  dispatch-IsGuest (message text) d g =
      harmless (message_router e user_id text s d) (message_router-Harmless text d g)
  dispatch-IsGuest (upload document) d g =
      harmless (handle_document e user_id document s d) (handle_document-Harmless document d g)

-- a sender with no right, who is a guest
abbrev pub IsStranger : State → Update → Type 0
IsStranger w up = (is_admin up.env up.sender w.store ≡ false) × IsGuest (w.sessions up.sender)

Untouched-is_admin :
    (e : Env) (user_id : ℕ) (s t : Store)
    → Untouched s t
    → is_admin e user_id t ≡ is_admin e user_id s
unfolding is_admin
Untouched-is_admin e user_id s t h =
    ap (λ (x : Store). is_owner e user_id || member user_id (get_admin_ids x.admins)) h

put_session-IsGuest :
    (b : Bool) (d d' : UserData) → IsGuest d → IsGuest d' → IsGuest (if b then d else d')
put_session-IsGuest true d d' g g' = g
put_session-IsGuest false d d' g g' = g'

receive-IsStranger :
    (up next : Update) (w : State)
    → IsStranger w up
    → IsStranger w next
    → IsStranger (receive up w) next
unfolding receive put_session
receive-IsStranger up next w h k =
    let p = dispatch-IsGuest up.env up.sender w.store h.0 up.action (w.sessions up.sender) h.1 in
    (
      Untouched-is_admin next.env next.sender w.store (receive up w).store p.0 ∙ k.0,
      put_session-IsGuest (nat_beq next.sender up.sender) _ _ p.1 k.1,
    )

-- Whatever users do who are no administrators, and from whom nothing but a count of configs is awaited,
-- in any order: only the tables of users and of their starts change.
pub receive_all-Untouched :
    (ups : List Update) (w : State)
    → All (IsStranger w) ups
    → Untouched w.store (receive_all ups w).store
unfolding receive_all receive
receive_all-Untouched [] w h = refl
receive_all-Untouched (up ∷ ups) w h =
    let p =
      dispatch-IsGuest up.env up.sender w.store h.0.0 up.action (w.sessions up.sender) h.0.1 in
    let later =
      All-weaken (IsStranger w) (IsStranger (receive up w))
        (λ next k. receive-IsStranger up next w h.0 k) ups h.1 in
    let t = (receive_all ups (receive up w)).store in
    receive_all-Untouched ups (receive up w) later
    ∙ ap (λ (x : Store). record x { users = t.users; stats = t.stats }) p.0
