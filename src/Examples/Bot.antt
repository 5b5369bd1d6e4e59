-- ===== src/Examples/Bot.antt =====
-- The bot at a concrete state: an owner, a stranger, a source and a clean address.
use config_manager.Prelude.{
  All, arith, nat_eq, ◌≡◌, refl, true, false, none, some, List, [], ◌∷◌, member, length, ◌≤◌, map,
  find_where,
}
use config_manager.Bot.Menus.{main_menu, country_menu, protocol_menu, protocols}
use config_manager.Bot.Menus.Taken.{IsReached, IsReachedIn}
use config_manager.Bot.Menus.Reached.{buttons, panels, keyboards-IsReached}
use config_manager.Prelude.Text.{text_eq, codes, strip, has, text_beq}
use config_manager.Prelude.Case.{ascii_only, digit_char}
use config_manager.Utils.Ip.{is_valid_ip}
use config_manager.Database.Users.{get_all_user_ids, get_admin_ids, get_vip_ids}
use config_manager.Database.Sources.{SourceTable}
use config_manager.Perf.{Machine}
use config_manager.Bot.Context.{
  require_admin, no_data, Store, Env, is_owner, is_admin, reply, source_toggled,
}
use config_manager.Bot.Router.{
  callback_router, start, button, message, Update, State, dispatch, receive, receive_all,
}
use config_manager.Bot.Users.{handle_user_text}
use config_manager.Bot.Buttons.{admin_callback, shown_sources}
use config_manager.Bot.Texts.{handle_admin_text}
use config_manager.Bot.Texts.People.{take_admin_id}
use config_manager.Bot.Rights.{view, follow_all}
use config_manager.Bot.Rights.Refines.{receive_all-follow_all}
use config_manager.Bot.Rights.Owner.{is_owner_text, receive_all-admins}
use config_manager.Bot.Strangers.{IsGuest, Untouched, receive_all-Untouched}
use config_manager.Bot.Kept.Sources.{SourcesOk}
use config_manager.Bot.Kept.Tables.{PeopleOk, AddressesOk, receive_all-Tables}
use config_manager.Database.Models.{ScraperSource}
use config_manager.Bot.Menus.Sources.{
  build_source_list_buttons, flip, flip_if, source_button, callback_router-source_button,
}
use config_manager.Bot.Documents.{safe_name}
use config_manager.Bot.Documents.Names.{IsSafe, safe_name-IsSafe}
use config_manager.Examples.Values.{no_codec, empty_table}

abbrev idle : Machine
idle = record {
  spawns = λ r. false;
  opens = λ r. false;
  ttfb = λ r i. none;
  connect = λ v p i. none;
}

abbrev day : Env
day = record {
  now = 100;
  owner_id = 14;
  unicode = ascii_only;
  codec = no_codec;
  order = λ rows. rows;
  reaches = λ uid text. true;
  accepts = λ text. true;
  database_answers = true;
  has_xray = false;
  number = λ t. none;
  machine = idle;
  completed = λ rs. rs;
  stamp = [];
}

abbrev one_source : SourceTable
one_source = record {
  rows =
      record {
        id = 1;
        name = codes "a";
        url = codes "u";
        source_type = codes "telegram";
        is_active = true;
        last_scraped = none;
        last_config_count = 0;
        created_at = 0;
      }
      ∷ [];
  next_id = 2;
}

-- an administrator with number 8, and a clean address
abbrev tables : Store
tables = record {
  users = [];
  stats = [];
  admins = record { user_id = 8; added_at = 1; added_by = some 14 } ∷ [];
  vips = [];
  sources = one_source;
  clean_ips = record { id = 1; ip = codes "1.1.1.1"; created_at = 90 } ∷ [];
  next_ip = 2;
  configs = empty_table;
  scraper_enabled = none;
}

abbrev at_rest : State
at_rest = record { store = tables; sessions = λ k. no_data }

-- The owner adds the administrator with number 5, whose code is 10.
abbrev owner_adds : List Update
owner_adds =
    record { sender = 14; action = button (codes "add_admin"); env = day }
    ∷ record { sender = 14; action = message (codes " 5 "); env = day }
    ∷ []

-- An administrator tries the same, and saves an address.
abbrev admin_tries : List Update
admin_tries =
    record { sender = 8; action = button (codes "add_admin"); env = day }
    ∷ record { sender = 8; action = message (codes "5"); env = day }
    ∷ record { sender = 8; action = button (codes "ip_single"); env = day }
    ∷ record { sender = 8; action = message (codes "8.8.8.8"); env = day }
    ∷ []

-- A stranger tries the same.
abbrev stranger_tries : List Update
stranger_tries =
    record { sender = 6; action = start (some (codes "x")) none; env = day }
    ∷ record { sender = 6; action = button (codes "ip_single"); env = day }
    ∷ record { sender = 6; action = message (codes "8.8.8.8"); env = day }
    ∷ []

receive_all-follow_all_example :
    view (receive_all owner_adds at_rest) ≡ follow_all owner_adds (view at_rest)
receive_all-follow_all_example = receive_all-follow_all owner_adds at_rest

receive_all-admins_example :
    member 10 (get_admin_ids (receive_all admin_tries at_rest).store.admins)
    ≡ member 10 (get_admin_ids at_rest.store.admins)
unfolding is_owner_text is_owner
receive_all-admins_example =
    receive_all-admins admin_tries at_rest 10 (refl, (refl, (refl, (refl, tt))))

no_data-IsGuest : IsGuest no_data
unfolding no_data
no_data-IsGuest f = ground arith

receive_all-Untouched_example : Untouched tables (receive_all stranger_tries at_rest).store
unfolding is_admin is_owner get_admin_ids member
receive_all-Untouched_example =
    receive_all-Untouched stranger_tries at_rest
      ((refl, no_data-IsGuest), ((refl, no_data-IsGuest), ((refl, no_data-IsGuest), tt)))

tables-PeopleOk : PeopleOk tables
unfolding get_all_user_ids get_admin_ids get_vip_ids member
tables-PeopleOk = record { users_once = tt; admins_once = (refl, tt); vips_once = tt }

tables-AddressesOk : AddressesOk tables.clean_ips
unfolding is_valid_ip strip member
tables-AddressesOk = record { ips_valid = (refl, tt); ips_once = (refl, tt) }

tables-SourcesOk : SourcesOk one_source
unfolding member
tables-SourcesOk = record {
  ids_once = (refl, tt);
  ids_below = (omega arith, tt);
  urls_once = (refl, tt);
  names_once = (refl, tt);
}

receive_all-Tables_example :
    let s = (receive_all admin_tries at_rest).store in
    PeopleOk s × (AddressesOk s.clean_ips × SourcesOk s.sources)
receive_all-Tables_example =
    receive_all-Tables admin_tries at_rest tables-PeopleOk tables-AddressesOk tables-SourcesOk

safe_name-IsSafe_example :
    IsSafe (safe_name ascii_only (codes "../../etc/p w.txt"))
    × ((has b'/' (safe_name ascii_only (codes "../../etc/p w.txt")) ≡ false)
        × (length (safe_name ascii_only (codes "../../etc/p w.txt")) ≤ 124))
safe_name-IsSafe_example = safe_name-IsSafe ascii_only (codes "../../etc/p w.txt")

-- The name that comes out.
safe_name_test : safe_name ascii_only (codes "../../etc/p w.txt") ≡ codes "__etc_p_w.txt"
unfolding safe_name text_beq
safe_name_test = refl

-- The owner's number has been added, the administrator's has not, and the address has been saved.
owner_adds_test : get_admin_ids (receive_all owner_adds at_rest).store.admins ≡ 8 ∷ 10 ∷ []
unfolding receive_all receive dispatch handle_user_text admin_callback member text_beq no_data
    handle_admin_text take_admin_id strip digit_char
owner_adds_test = refl

keyboards-IsReached_example :
    All IsReached (buttons (main_menu true))
    × (All IsReached (buttons (country_menu (codes "DE" ∷ []) (codes "back_main")))
        × (All IsReached (buttons (protocol_menu protocols (codes "menu_country")))
            × (All IsReached panels
                × All
                    (IsReachedIn day 8 tables no_data)
                    (buttons (build_source_list_buttons one_source.rows)))))
keyboards-IsReached_example =
    keyboards-IsReached true (codes "DE" ∷ []) day 8 tables no_data one_source.rows tables-SourcesOk

abbrev the_source : ScraperSource
the_source = record {
  id = 1;
  name = codes "a";
  url = codes "u";
  source_type = codes "telegram";
  is_active = true;
  last_scraped = none;
  last_config_count = 0;
  created_at = 0;
}

callback_router-source_button_example :
    let t : SourceTable = record { rows = map (flip_if 1) one_source.rows; next_id = 2 } in
    callback_router day 8 (source_button 1) tables no_data
    ≡ reply
        (record tables { sources = t })
        no_data
        (source_toggled (some (flip the_source))
          ∷ shown_sources day 8 (source_button 1) tables no_data t
          ∷ [])
unfolding require_admin member find_where
callback_router-source_button_example =
    callback_router-source_button day 8 1 the_source tables no_data tables-SourcesOk refl refl
