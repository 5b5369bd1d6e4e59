-- ===== src/Bot/Kept/Tables.antt =====
-- What holds of the tables whatever the users of the bot do.
use config_manager.Prelude.{
  nat_eq, ℕ, ◌≡◌, true, List, map, Bool-cases, inl, inr, member, Distinct, All, All-append,
  All-filter_where, Distinct-map-filter_where,
}
use config_manager.Prelude.Keys.{Distinct-added}
use config_manager.Prelude.Text.{Text, text_eq, strip}
use config_manager.Utils.Ip.{is_valid_ip}
use config_manager.Database.Models.{CleanIp}
use config_manager.Database.Users.{get_all_user_ids, get_admin_ids, get_vip_ids}
use config_manager.Database.Users.Laws.{
  insert_admin-Distinct, delete_admin-Distinct, insert_vip-Distinct, delete_vip-Distinct,
  upsert_user-Distinct,
}
use config_manager.Database.Sources.{add_clean_ip, delete_old_clean_ips}
use config_manager.Database.Sources.Laws.{ip_of}
use config_manager.Bot.Kept.Sources.{
  SourcesOk, add_scraper_source-SourcesOk, toggle_scraper_source-SourcesOk,
}
use config_manager.Bot.Router.{Update, State, receive_all}
use config_manager.Bot.Kept.Handlers.{receive_all-kept}
use config_manager.Bot.Context.{Store}
use config_manager.Bot.Texts.Addresses.{save_ip}
use config_manager.Bot.Documents.{without_old}
use config_manager.Bot.Kept.{IsKept}

-- No number of a user occurs twice in a table of users.
pub record PeopleOk (s : Store) : Type 0 where
  pub users_once : Distinct (get_all_user_ids s.users)
  pub admins_once : Distinct (get_admin_ids s.admins)
  pub vips_once : Distinct (get_vip_ids s.vips)

PeopleOk-IsKept : IsKept PeopleOk
PeopleOk-IsKept = record {
  admin_added = λ now n by s p. record {
    users_once = p.users_once;
    admins_once = insert_admin-Distinct now n by s.admins p.admins_once;
    vips_once = p.vips_once;
  };
  admin_removed = λ n s p. record {
    users_once = p.users_once;
    admins_once = delete_admin-Distinct n s.admins p.admins_once;
    vips_once = p.vips_once;
  };
  vip_added = λ now n s p. record {
    users_once = p.users_once;
    admins_once = p.admins_once;
    vips_once = insert_vip-Distinct now n s.vips p.vips_once;
  };
  vip_removed = λ n s p. record {
    users_once = p.users_once;
    admins_once = p.admins_once;
    vips_once = delete_vip-Distinct n s.vips p.vips_once;
  };
  ip_saved = λ now given s h p.
      unfold save_ip in
      record { users_once = p.users_once; admins_once = p.admins_once; vips_once = p.vips_once };
  old_deleted = λ now s p.
      unfold without_old in
      record { users_once = p.users_once; admins_once = p.admins_once; vips_once = p.vips_once };
  source_saved = λ now name url source_type s r h p. record {
    users_once = p.users_once;
    admins_once = p.admins_once;
    vips_once = p.vips_once;
  };
  source_toggled = λ n s r h p. record {
    users_once = p.users_once;
    admins_once = p.admins_once;
    vips_once = p.vips_once;
  };
  started = λ now user_id first_name username s p. record {
    users_once = upsert_user-Distinct now user_id first_name username s.users p.users_once;
    admins_once = p.admins_once;
    vips_once = p.vips_once;
  };
  switched = λ b s p. record {
    users_once = p.users_once;
    admins_once = p.admins_once;
    vips_once = p.vips_once;
  };
}

-- Every clean address is a valid one, and none occurs twice.
pub record AddressesOk (rows : List CleanIp) : Type 0 where
  pub ips_valid : All (λ (r : CleanIp). is_valid_ip r.ip ≡ true) rows
  pub ips_once : Distinct (map ip_of rows)

add_clean_ip-AddressesOk :
    (now i : ℕ) (ip : Text) (rows : List CleanIp)
    → is_valid_ip ip ≡ true
    → AddressesOk rows
    → AddressesOk (add_clean_ip now i ip rows)
unfolding add_clean_ip
add_clean_ip-AddressesOk now i ip rows h p = elim (Bool-cases (member ip (map ip_of rows))) [
  | inl e ↦ rw (e, add_clean_ip) p
  | inr e ↦
      rw (e, add_clean_ip)
        (record {
          ips_valid = All-append _ rows _ p.ips_valid (h, tt);
          ips_once = Distinct-added ip_of rows _ p.ips_once e;
        })
]

delete_old_clean_ips-AddressesOk :
    (now days : ℕ) (rows : List CleanIp)
    → AddressesOk rows
    → AddressesOk (delete_old_clean_ips now days rows).1
unfolding delete_old_clean_ips
delete_old_clean_ips-AddressesOk now days rows p = record {
  ips_valid = All-filter_where _ _ rows p.ips_valid;
  ips_once = Distinct-map-filter_where ip_of _ rows p.ips_once;
}

abbrev AddressesKept : Store → Type 0
AddressesKept s = AddressesOk s.clean_ips

AddressesOk-IsKept : IsKept AddressesKept
AddressesOk-IsKept = record {
  admin_added = λ now n by s p. p;
  admin_removed = λ n s p. p;
  vip_added = λ now n s p. p;
  vip_removed = λ n s p. p;
  ip_saved = λ now given s h p.
      unfold save_ip in add_clean_ip-AddressesOk now s.next_ip (strip given) s.clean_ips h p;
  old_deleted =
      λ now s p. unfold without_old in delete_old_clean_ips-AddressesOk now 5 s.clean_ips p;
  source_saved = λ now name url source_type s r h p. p;
  source_toggled = λ n s r h p. p;
  started = λ now user_id first_name username s p. p;
  switched = λ b s p. p;
}

SourcesOk-IsKept : IsKept (λ (s : Store). SourcesOk s.sources)
SourcesOk-IsKept = record {
  admin_added = λ now n by s p. p;
  admin_removed = λ n s p. p;
  vip_added = λ now n s p. p;
  vip_removed = λ n s p. p;
  ip_saved = λ now given s h p. unfold save_ip in p;
  old_deleted = λ now s p. unfold without_old in p;
  source_saved = λ now name url source_type s r h p.
      add_scraper_source-SourcesOk now name url source_type s.sources r h p;
  source_toggled = λ n s r h p. toggle_scraper_source-SourcesOk n s.sources r h p;
  started = λ now user_id first_name username s p. p;
  switched = λ b s p. p;
}

-- Whatever the users of the bot do, in any order, no number of a user occurs twice in the table of
-- users, of administrators or of VIPs; every clean address is valid, and none occurs twice; and no two
-- sources have one number, one address or one name, if all this held before.
pub receive_all-Tables :
    (ups : List Update) (w : State)
    → PeopleOk w.store
    → AddressesOk w.store.clean_ips
    → SourcesOk w.store.sources
    → let s = (receive_all ups w).store in
      PeopleOk s × (AddressesOk s.clean_ips × SourcesOk s.sources)
receive_all-Tables ups w p a r = (
  receive_all-kept PeopleOk PeopleOk-IsKept ups w p,
  (
    receive_all-kept (λ (s : Store). AddressesOk s.clean_ips) AddressesOk-IsKept ups w a,
    receive_all-kept (λ (s : Store). SourcesOk s.sources) SourcesOk-IsKept ups w r,
  ),
)
