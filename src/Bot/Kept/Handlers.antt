-- ===== src/Bot/Kept/Handlers.antt =====
-- Each handler of app/handlers, and the dispatch of updates, keeps what the operations keep.
use config_manager.Prelude.{
  ℕ, ◌≡◌, sym, not, Option, none, some, List, [], ◌∷◌, arith, if◌then◌else◌, Bool-cases,
  Option-cases, inl, inr, ◌⊎◌, All,
}
use mathlib.Core.Path.{subst}
use config_manager.Prelude.Text.{Text, text_eq, strip}
use config_manager.Utils.Numbers.{pos, negsuc}
use config_manager.Utils.Ip.{is_valid_ip}
use config_manager.Database.Sources.{toggle_scraper_source}
use config_manager.Bot.Context.{
  UserData, Store, HandlerResult, Env, scraper_is_enabled, scraper_known, invalid_option, main_menu,
  require_admin, decline,
}
use config_manager.Bot.Buttons.{
  people_buttons, white_buttons, vip_buttons, address_buttons, source_id_of, toggle_source,
  scraper_buttons, is_admin_route, admin_callback,
}
use config_manager.Bot.Texts.Addresses.{save_ip}
use config_manager.Bot.Texts.{handle_admin_text}
use config_manager.Bot.Router.{
  dispatch, or_else, fall_back, callback_router, message_router, Action, start, health_check,
  button, message, upload, Update, State, receive, receive_all,
}
use config_manager.Bot.Documents.{save_lines, without_old, Document, handle_document}
use config_manager.Bot.Users.{start_command, health_command, user_callback, handle_user_text}
use config_manager.Bot.Kept.{IsKept}
use config_manager.Bot.Kept.Texts.{handle_admin_text-kept, or_else-kept, if_valid}

-- An outcome is one of some stores.
abbrev OneOf : Store → List Store → Type 0
OneOf t [] = ⊥
OneOf t (s ∷ ss) = (t ≡ s) ⊎ OneOf t ss

one_of : (P : Store → Type 0) (t : Store) (ss : List Store) → OneOf t ss → All P ss → P t
one_of P t [] h p = absurd h
one_of P t (s ∷ ss) (inl h) p = subst P (sym h) p.0
one_of P t (s ∷ ss) (inr h) p = one_of P t ss h p.1

module _ (P : Store → Type 0) (K : IsKept P) where
  module _ (e : Env) (user_id : ℕ) (query : Text) (s : Store) (d : UserData) (p : P s) where
    toggle_source-kept : P (toggle_source e user_id query s d).store
    unfolding toggle_source
    toggle_source-kept = elim (Option-cases (source_id_of e user_id query s d)) [
      | inl h ↦ subst P (ground arith) p
      | inr (negsuc n, h) ↦ subst P (ground arith) p
      | inr (pos n, h) ↦ elim (Option-cases (toggle_scraper_source n s.sources)) [
        | inl k ↦ subst P (ground arith) p
        | inr (r, k) ↦ subst P (ground arith) (K.source_toggled n s r k p)
      ]
    ]

    known-kept : P (scraper_known s)
    unfolding scraper_known
    known-kept = K.switched (scraper_is_enabled s) s p

    white_buttons-kept :
        (rest : HandlerResult) → P rest.store → P (white_buttons e user_id query s d rest).store
    unfolding white_buttons
    white_buttons-kept rest q = one_of P _ (s ∷ rest.store ∷ []) (ground arith) (p, (q, tt))

    vip_buttons-kept :
        (rest : HandlerResult) → P rest.store → P (vip_buttons e user_id query s d rest).store
    unfolding vip_buttons
    vip_buttons-kept rest q = one_of P _ (s ∷ rest.store ∷ []) (ground arith) (p, (q, tt))

    address_buttons-kept :
        (rest : HandlerResult) → P rest.store → P (address_buttons e user_id query s d rest).store
    unfolding address_buttons
    address_buttons-kept rest q = one_of P _ (s ∷ rest.store ∷ []) (ground arith) (p, (q, tt))

    people_buttons-kept :
        (rest : HandlerResult) → P rest.store → P (people_buttons e user_id query s d rest).store
    unfolding people_buttons
    people_buttons-kept rest q =
        one_of P _ (s ∷ scraper_known s ∷ rest.store ∷ []) (ground arith) (p, (known-kept, (q, tt)))

    scraper_buttons-kept :
        (rest : HandlerResult) → P rest.store → P (scraper_buttons e user_id query s d rest).store
    unfolding scraper_buttons
    scraper_buttons-kept rest q =
        one_of P _
          (s
            ∷ scraper_known s
            ∷ record s { scraper_enabled = some (not (scraper_is_enabled s)) }
            ∷ (toggle_source e user_id query s d).store
            ∷ rest.store
            ∷ [])
          (ground arith)
          (
            p,
            (
              known-kept,
              (K.switched (not (scraper_is_enabled s)) s p, (toggle_source-kept, (q, tt))),
            ),
          )

    admin_callback-kept : P (admin_callback e user_id query s d).store
    unfolding admin_callback
    admin_callback-kept =
        let scraper = scraper_buttons-kept (decline s d) p in
        let address = address_buttons-kept _ scraper in
        let vip = vip_buttons-kept _ address in
        let white = white_buttons-kept _ vip in
        let people = people_buttons-kept _ white in
        elim (Bool-cases (is_admin_route query)) [
          | inl r ↦ elim (Bool-cases (require_admin e user_id s)) [
            | inl y ↦ rw (r, y) people
            | inr y ↦ rw (r, y) p
          ]
          | inr r ↦ rw r p
        ]

    user_callback-kept : P (user_callback e query s d).store
    unfolding user_callback
    user_callback-kept = subst P (ground arith) p

    handle_user_text-kept : P (handle_user_text e query s d).store
    unfolding handle_user_text
    handle_user_text-kept = subst P (ground arith) p

    health_command-kept : P (health_command e user_id s d).store
    unfolding health_command
    health_command-kept = one_of P _ (s ∷ scraper_known s ∷ []) (ground arith) (p, (known-kept, tt))

  save_lines-kept :
      (now : ℕ) (lines : List Text) (s : Store) (count invalid : ℕ)
      → P s
      → P (save_lines now lines s count invalid).0
  unfolding save_lines
  save_lines-kept now [] s count invalid p = p
  save_lines-kept now (line ∷ lines) s count invalid p = save_lines-kept now lines _ _ _ (
      one_of P _ (s ∷ (if is_valid_ip (strip line) then save_ip now (strip line) s else s) ∷ [])
        (ground arith) (p, (if_valid P K now line s p, tt)))

  handle_document-kept :
      (e : Env) (user_id : ℕ) (document : Option Document) (s : Store) (d : UserData)
      → P s
      → P (handle_document e user_id document s d).store
  unfolding handle_document
  handle_document-kept e user_id none s d p = subst P (ground arith) p
  handle_document-kept e user_id (some doc) s d p =
      let r = save_lines e.now doc.lines (without_old e.now s) 0 0 in
      one_of P _ (s ∷ r.0 ∷ []) (ground arith)
        (p, (save_lines-kept e.now doc.lines _ 0 0 (K.old_deleted e.now s p), tt))

  callback_router-kept :
      (e : Env) (user_id : ℕ) (query : Text) (s : Store) (d : UserData)
      → P s
      → P (callback_router e user_id query s d).store
  unfolding callback_router
  callback_router-kept e user_id query s d p =
      or_else-kept P (or_else (admin_callback e user_id query s d) (user_callback e query))
        (fall_back invalid_option)
        (or_else-kept P (admin_callback e user_id query s d) (user_callback e query)
          (admin_callback-kept e user_id query s d p)
          (λ s' d' p'. user_callback-kept e user_id query s' d' p'))
        (λ s' d' p'. p')

  message_router-kept :
      (e : Env) (user_id : ℕ) (text : Text) (s : Store) (d : UserData)
      → P s
      → P (message_router e user_id text s d).store
  unfolding message_router
  message_router-kept e user_id text s d p =
      or_else-kept P (or_else (handle_user_text e text s d) (handle_admin_text e user_id text))
        (fall_back main_menu)
        (or_else-kept P (handle_user_text e text s d) (handle_admin_text e user_id text)
          (handle_user_text-kept e user_id text s d p)
          (λ s' d' p'. handle_admin_text-kept P K e user_id text s' d' p'))
        (λ s' d' p'. p')

  dispatch-kept :
      (e : Env) (user_id : ℕ) (action : Action) (s : Store) (d : UserData)
      → P s
      → P (dispatch e user_id action s d).store
  unfolding dispatch start_command
  dispatch-kept e user_id (start first_name username) s d p =
      K.started e.now user_id first_name username s p
  dispatch-kept e user_id health_check s d p = health_command-kept e user_id [] s d p
  dispatch-kept e user_id (button query) s d p = callback_router-kept e user_id query s d p
  dispatch-kept e user_id (message text) s d p = message_router-kept e user_id text s d p
  dispatch-kept e user_id (upload document) s d p = handle_document-kept e user_id document s d p

  -- What the operations on the tables keep, every list of updates keeps.
  pub receive_all-kept : (ups : List Update) (w : State) → P w.store → P (receive_all ups w).store
  unfolding receive_all receive
  receive_all-kept [] w p = p
  receive_all-kept (up ∷ ups) w p =
      receive_all-kept ups (receive up w)
        (dispatch-kept up.env up.sender up.action w.store (w.sessions up.sender) p)
