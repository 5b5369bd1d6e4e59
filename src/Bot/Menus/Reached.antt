-- ===== src/Bot/Menus/Reached.antt =====
-- Whether the buttons of the keyboards are taken by a handler.
use config_manager.Prelude.{
  ◌≡◌, refl, ap, sym, ◌∙◌, Bool, true, false, ◌&&◌, List, [], ◌∷◌, ◌++◌, map, arith, member, All,
  All-append, ℕ,
}
use mathlib.Core.List.{append_assoc}
use config_manager.Prelude.Text.{Text, text_eq, text_beq, codes, starts_with}
use config_manager.Bot.Buttons.{is_admin_route}
use config_manager.Database.Models.{ScraperSource}
use config_manager.Bot.Context.{Env, Store, UserData}
use config_manager.Bot.Kept.Sources.{SourcesOk}
use config_manager.Bot.Menus.Sources.{
  source_button, build_source_list_buttons, admin_callback-source_button-handled,
}
use config_manager.Bot.Menus.Taken.{
  IsReachedIn, handled-IsReachedIn, IsReached, is_taken, is_taken-IsReached,
}
use config_manager.Bot.Menus.{
  Keyboard, rows_of_two, main_menu, country_menu, protocol_menu, admin_panel_menu, vip_panel_menu,
  clean_ip_menu, scraper_management_menu, scraper_menu, white_configs_menu, protocols,
  scraper_status_menu, back,
}

-- the texts of a keyboard
unfoldable pub buttons : Keyboard → List Text
buttons [] = []
buttons (row ∷ rows) = row ++ buttons rows

every : (Text → Bool) → List Text → Bool
every p [] = true
every p (q ∷ qs) = p q && every p qs

every-All : (qs : List Text) → every is_taken qs ≡ true → All IsReached qs
unfolding every
every-All [] h = tt
every-All (q ∷ qs) h = (is_taken-IsReached q (ground arith), every-All qs (ground arith))

-- the buttons of the administrators' keyboards, with the keyboards that only lead back
abbrev pub panels : List Text
panels = buttons (
    admin_panel_menu
    ++ vip_panel_menu
    ++ clean_ip_menu
    ++ scraper_management_menu
    ++ scraper_menu
    ++ white_configs_menu
    ++ scraper_status_menu
    ++ back (codes "admin_panel")
    ++ back (codes "white_configs_menu")
    ++ back (codes "vip_panel")
    ++ back (codes "clean_ip_menu")
    ++ back (codes "scraper_menu"))

panels_taken : every is_taken panels ≡ true
unfolding every is_taken buttons is_admin_route member starts_with text_beq admin_panel_menu
    vip_panel_menu clean_ip_menu scraper_management_menu scraper_menu white_configs_menu
    scraper_status_menu back
panels_taken = refl

buttons-append : (k l : Keyboard) → buttons (k ++ l) ≡ buttons k ++ buttons l
unfolding buttons
buttons-append [] l = refl
buttons-append (row ∷ k) l =
    ap (λ (b : List Text). row ++ b) (buttons-append k l)
    ∙ sym (append_assoc row (buttons k) (buttons l))

buttons-rows_of_two : (texts : List Text) → buttons (rows_of_two texts) ≡ texts
unfolding buttons rows_of_two
buttons-rows_of_two [] = refl
buttons-rows_of_two (a ∷ []) = refl
buttons-rows_of_two (a ∷ b ∷ rest) = ap (λ (l : List Text). a ∷ b ∷ l) (buttons-rows_of_two rest)

prefixed_taken :
    (p : Text) (words : List Text)
    → ((w : Text) → is_taken (p ++ w) ≡ true)
    → All IsReached (map (λ (w : Text). p ++ w) words)
prefixed_taken p [] h = tt
prefixed_taken p (w ∷ words) h = (is_taken-IsReached (p ++ w) (h w), prefixed_taken p words h)

-- A menu with a button for each word, and one that leads back.
prefixed_menu :
    (p : Text)
    → ((w : Text) → is_taken (p ++ w) ≡ true)
    → (back_callback : Text) (words : List Text) → is_taken back_callback ≡ true
    → All IsReached
        (buttons (rows_of_two (map (λ (w : Text). p ++ w) words) ++ (back_callback ∷ []) ∷ []))
unfolding buttons
prefixed_menu p h back_callback words b =
    let texts = map (λ (w : Text). p ++ w) words in
    rw (buttons-append (rows_of_two texts) ((back_callback ∷ []) ∷ []), buttons-rows_of_two texts)
      (All-append IsReached texts (back_callback ∷ []) (prefixed_taken p words h)
        (is_taken-IsReached back_callback b, tt))

country_taken : (w : Text) → is_taken (codes "country_" ++ w) ≡ true
unfolding is_taken is_admin_route member starts_with text_beq
country_taken w = refl

protocol_taken : (w : Text) → is_taken (codes "proto_" ++ w) ≡ true
unfolding is_taken is_admin_route member starts_with text_beq
protocol_taken w = refl

main_taken : (is_admin_user : Bool) → every is_taken (buttons (main_menu is_admin_user)) ≡ true
unfolding every is_taken buttons is_admin_route member starts_with text_beq main_menu
main_taken true = refl
main_taken false = refl

source_list-IsReachedIn :
    (e : Env) (user_id : ℕ) (s : Store) (d : UserData) (sources : List ScraperSource)
    → SourcesOk s.sources
    → All (IsReachedIn e user_id s d) (buttons (build_source_list_buttons sources))
unfolding buttons build_source_list_buttons is_taken is_admin_route member text_beq starts_with
source_list-IsReachedIn e user_id s d [] ok =
    (is_taken-IsReached (codes "scraper_menu") refl e user_id s d, tt)
source_list-IsReachedIn e user_id s d (src ∷ sources) ok = (
  handled-IsReachedIn e user_id s d (source_button src.id)
      (admin_callback-source_button-handled e user_id src.id s d ok),
  source_list-IsReachedIn e user_id s d sources ok,
)

-- Every button of every keyboard that the handlers show, whatever countries and sources there are, is taken by the
-- administrators' or by the users' handler for whoever presses it, and answered: the router never falls back to the
-- message that the option is invalid. For the list of sources, which may be an old one, no two sources of the table
-- may have one number, one address or one name.
pub keyboards-IsReached :
    (is_admin_user : Bool) (countries : List Text) (e : Env) (user_id : ℕ) (s : Store)
    (d : UserData) (sources : List ScraperSource)
    → SourcesOk s.sources
    → All IsReached (buttons (main_menu is_admin_user))
      × (All IsReached (buttons (country_menu countries (codes "back_main")))
          × (All IsReached (buttons (protocol_menu protocols (codes "menu_country")))
              × (All IsReached panels
                  × All (IsReachedIn e user_id s d) (buttons (build_source_list_buttons sources)))))
unfolding country_menu protocol_menu is_taken is_admin_route member text_beq starts_with
keyboards-IsReached is_admin_user countries e user_id s d sources ok = (
  every-All (buttons (main_menu is_admin_user)) (main_taken is_admin_user),
  (
    prefixed_menu (codes "country_") country_taken (codes "back_main") countries refl,
    (
      prefixed_menu (codes "proto_") protocol_taken (codes "menu_country") protocols refl,
      (every-All panels panels_taken, source_list-IsReachedIn e user_id s d sources ok),
    ),
  ),
)
