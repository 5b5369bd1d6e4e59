-- ===== src/Bot/Rights/Quiet.antt =====
-- The parts of the handlers of app/handlers that touch neither the administrators nor what a user was
-- asked for.
use config_manager.Prelude.{
  ℕ, ◌≡◌, refl, ◌∙◌, false, Option, none, some, List, [], ◌∷◌, arith, Bool-cases, inl, inr, ◌==◌,
}
use config_manager.Prelude.Text.{Text, text_eq, codes, strip}
use config_manager.Database.Models.{Admin}
use config_manager.Bot.Context.{
  denied, require_admin, decline, UserData, Store, Shown, HandlerResult, Env, reply,
  awaiting_admin_id, awaiting_remove_admin, awaiting_vip_id, awaiting_vip_remove,
  awaiting_ip_single, awaiting_ip_bulk, awaiting_scraper_tg, awaiting_scraper_sub, broadcast_mode,
  vip_broadcast_mode, awaiting_white_perf_count, awaiting_config_count, awaiting_ip_count, pop_flag,
}
use config_manager.Bot.Buttons.{
  is_admin_route, people_buttons, admin_callback, white_buttons, scraper_buttons, address_buttons,
  vip_buttons,
}
use config_manager.Bot.Texts.{handle_admin_text}
use config_manager.Bot.Router.{or_else}
use config_manager.Database.Users.{add_vip, remove_vip}
use config_manager.Bot.Texts.People.{
  take_vip_id, take_vip_remove, take_broadcast, take_vip_broadcast,
}
use config_manager.Bot.Texts.Addresses.{
  save_ip, save_ips, take_ip_single, take_ip_bulk, take_scraper_tg, take_scraper_sub, split_words,
}
use config_manager.Bot.Texts.Output.{take_white_perf_count, take_config_count, take_ip_count}
use config_manager.Bot.Users.{user_callback, start_command, health_command}
use config_manager.Bot.Documents.{save_lines, without_old, Document, handle_document}
use config_manager.Bot.Rights.{Asked, asked_of}

save_ip-admins : (now : ℕ) (ip : Text) (s : Store) → (save_ip now ip s).admins ≡ s.admins
unfolding save_ip
save_ip-admins now ip s = refl

pub save_ips-admins :
    (now : ℕ) (ws : List Text) (s : Store) (count invalid : ℕ)
    → (save_ips now ws s count invalid).0.admins ≡ s.admins
unfolding save_ips
save_ips-admins now [] s count invalid = refl
save_ips-admins now (w ∷ ws) s count invalid = save_ips-admins now ws _ _ _ ∙ ground arith

pub save_lines-admins :
    (now : ℕ) (lines : List Text) (s : Store) (count invalid : ℕ)
    → (save_lines now lines s count invalid).0.admins ≡ s.admins
unfolding save_lines
save_lines-admins now [] s count invalid = refl
save_lines-admins now (line ∷ lines) s count invalid =
    save_lines-admins now lines _ _ _ ∙ ground arith

module _ (admins : List Admin) (a : Asked) where
  -- The administrators and the questions after an outcome.
  abbrev pub Quiet : HandlerResult → Type 0
  Quiet o = (o.store.admins ≡ admins) × (asked_of o.session ≡ a)

  pub reply-Quiet :
      (s : Store) (d : UserData) (shown : List Shown)
      → s.admins ≡ admins
      → asked_of d ≡ a
      → Quiet (reply s d shown)
  unfolding reply
  reply-Quiet s d shown h k = (h, k)

  pub or_else-Quiet :
      (o : HandlerResult) (next : Store → UserData → HandlerResult)
      → Quiet o
      → ((s : Store) (d : UserData) → s.admins ≡ admins → asked_of d ≡ a → Quiet (next s d))
      → Quiet (or_else o next)
  unfolding or_else
  or_else-Quiet o next h k = ground (arith, k o.store o.session)

  module _ (e : Env) (user_id : ℕ) (query : Text) (s : Store) (d : UserData) (h : s.admins ≡ admins)
      (k : asked_of d ≡ a) where
    people_buttons-Quiet :
        (rest : HandlerResult)
        → (query == codes "add_admin") ≡ false
        → (query == codes "remove_admin") ≡ false
        → Quiet rest
        → Quiet (people_buttons e user_id query s d rest)
    unfolding people_buttons asked_of
    people_buttons-Quiet rest n m q = ground arith

    white_buttons-Quiet :
        (rest : HandlerResult) → Quiet rest → Quiet (white_buttons e user_id query s d rest)
    unfolding white_buttons asked_of
    white_buttons-Quiet rest q = ground arith

    vip_buttons-Quiet :
        (rest : HandlerResult) → Quiet rest → Quiet (vip_buttons e user_id query s d rest)
    unfolding vip_buttons asked_of
    vip_buttons-Quiet rest q = ground arith

    address_buttons-Quiet :
        (rest : HandlerResult) → Quiet rest → Quiet (address_buttons e user_id query s d rest)
    unfolding address_buttons asked_of
    address_buttons-Quiet rest q = ground arith

    scraper_buttons-Quiet :
        (rest : HandlerResult) → Quiet rest → Quiet (scraper_buttons e user_id query s d rest)
    unfolding scraper_buttons asked_of
    scraper_buttons-Quiet rest q = ground arith

    decline-Quiet : Quiet (decline s d)
    unfolding decline
    decline-Quiet = (h, k)

    pub admin_callback-Quiet :
        (query == codes "add_admin") ≡ false
        → (query == codes "remove_admin") ≡ false
        → Quiet (admin_callback e user_id query s d)
    unfolding admin_callback
    admin_callback-Quiet n m =
        let scraper = scraper_buttons-Quiet (decline s d) decline-Quiet in
        let address = address_buttons-Quiet _ scraper in
        let vip = vip_buttons-Quiet _ address in
        let white = white_buttons-Quiet _ vip in
        let people = people_buttons-Quiet _ n m white in
        elim (Bool-cases (is_admin_route query)) [
          | inl r ↦ elim (Bool-cases (require_admin e user_id s)) [
            | inl y ↦ rw (r, y) people
            | inr y ↦ rw (r, y) (reply-Quiet s d (denied ∷ []) h k)
          ]
          | inr r ↦ rw r decline-Quiet
        ]

    pub user_callback-Quiet :
        (query == codes "menu_custom") ≡ false
        → (query == codes "back_main") ≡ false
        → Quiet (user_callback e query s d)
    unfolding user_callback asked_of
    user_callback-Quiet n m = ground arith

  module _ (e : Env) (user_id : ℕ) (text : Text) (s : Store) (d : UserData) (h : s.admins ≡ admins)
      (k : asked_of d ≡ a) where
    take_vip_id-Quiet : Quiet (take_vip_id e user_id text s d)
    unfolding take_vip_id add_vip
    take_vip_id-Quiet = ground arith

    take_vip_remove-Quiet : Quiet (take_vip_remove e user_id text s d)
    unfolding take_vip_remove remove_vip
    take_vip_remove-Quiet = ground arith

    take_broadcast-Quiet : Quiet (take_broadcast e user_id text s d)
    unfolding take_broadcast
    take_broadcast-Quiet = ground arith

    take_vip_broadcast-Quiet : Quiet (take_vip_broadcast e user_id text s d)
    unfolding take_vip_broadcast
    take_vip_broadcast-Quiet = ground arith

    take_ip_single-Quiet : Quiet (take_ip_single e user_id text s d)
    unfolding take_ip_single
    take_ip_single-Quiet = ground arith

    take_ip_bulk-Quiet : Quiet (take_ip_bulk e user_id text s d)
    unfolding take_ip_bulk
    take_ip_bulk-Quiet = (save_ips-admins e.now (split_words [] (strip text)) s 0 0 ∙ h, k)

    take_scraper_tg-Quiet : Quiet (take_scraper_tg e user_id text s d)
    unfolding take_scraper_tg
    take_scraper_tg-Quiet = ground arith

    take_scraper_sub-Quiet : Quiet (take_scraper_sub e user_id text s d)
    unfolding take_scraper_sub
    take_scraper_sub-Quiet = ground arith

    take_white_perf_count-Quiet : Quiet (take_white_perf_count e user_id text s d)
    unfolding take_white_perf_count
    take_white_perf_count-Quiet = ground arith

    take_config_count-Quiet : Quiet (take_config_count e user_id text s d)
    unfolding take_config_count asked_of
    take_config_count-Quiet = ground arith

    take_ip_count-Quiet : Quiet (take_ip_count e user_id text s d)
    unfolding take_ip_count
    take_ip_count-Quiet = ground arith

  module _ (e : Env) (user_id : ℕ) (s : Store) (d : UserData) (h : s.admins ≡ admins)
      (k : asked_of d ≡ a) where
    pub start_command-Quiet :
        (first_name username : Option Text)
        → Quiet (start_command e user_id first_name username s d)
    unfolding start_command
    start_command-Quiet first_name username = (h, k)

    pub health_command-Quiet : Quiet (health_command e user_id s d)
    unfolding health_command
    health_command-Quiet = ground arith

    pub handle_document-Quiet :
        (document : Option Document) → Quiet (handle_document e user_id document s d)
    unfolding handle_document asked_of
    handle_document-Quiet none = ground arith
    handle_document-Quiet (some doc) =
        ground (arith, save_lines-admins e.now doc.lines (without_old e.now s) 0 0)

  -- A text of a user who was asked for no administrator.
  pub handle_admin_text-Quiet :
      (e : Env) (user_id : ℕ) (text : Text) (s : Store) (d : UserData)
      → s.admins ≡ admins
      → asked_of d ≡ a
      → d.flags awaiting_admin_id ≡ false
      → d.flags awaiting_remove_admin ≡ false
      → Quiet (handle_admin_text e user_id text s d)
  unfolding handle_admin_text asked_of
  handle_admin_text-Quiet e user_id text s d h k n m = ground (
    arith,
    take_vip_id-Quiet e user_id (strip text) s (pop_flag awaiting_vip_id d) h k,
    take_vip_remove-Quiet e user_id (strip text) s (pop_flag awaiting_vip_remove d) h k,
    take_ip_single-Quiet e user_id (strip text) s (pop_flag awaiting_ip_single d) h k,
    take_ip_bulk-Quiet e user_id (strip text) s (pop_flag awaiting_ip_bulk d) h k,
    take_scraper_tg-Quiet e user_id (strip text) s (pop_flag awaiting_scraper_tg d) h k,
    take_scraper_sub-Quiet e user_id (strip text) s (pop_flag awaiting_scraper_sub d) h k,
    take_broadcast-Quiet e user_id (strip text) s (pop_flag broadcast_mode d) h k,
    take_vip_broadcast-Quiet e user_id (strip text) s (pop_flag vip_broadcast_mode d) h k,
    take_white_perf_count-Quiet e user_id (strip text) s (pop_flag awaiting_white_perf_count d) h k,
    take_config_count-Quiet e user_id (strip text) s (pop_flag awaiting_config_count d) h k,
    take_ip_count-Quiet e user_id (strip text) s (pop_flag awaiting_ip_count d) h k,
  )
