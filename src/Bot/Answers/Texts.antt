-- ===== src/Bot/Answers/Texts.antt =====
-- Every text of an administrator is answered.
use config_manager.Prelude.{ℕ, ◌≡◌, ◌≢◌, ◌∷◌, arith, List-cases, inl, inr}
use config_manager.Prelude.Text.{Text, text_eq, codes, strip}
use config_manager.Database.Sources.Laws.{add_scraper_source-Distinct}
use config_manager.Bot.Context.{
  awaiting_admin_id, awaiting_remove_admin, awaiting_vip_id, awaiting_vip_remove,
  awaiting_ip_single, awaiting_ip_bulk, awaiting_scraper_tg, awaiting_scraper_sub, broadcast_mode,
  vip_broadcast_mode, awaiting_white_perf_count, awaiting_config_count, awaiting_ip_count, UserData,
  pop_flag, Store, handled, raised, Env,
}
use config_manager.Prelude.{Option-cases, some, true}
use config_manager.Utils.Numbers.{ℤ, int, user_key}
use config_manager.Database.Users.{fits, add_admin, remove_admin, add_vip, remove_vip}
use config_manager.Bot.Texts.People.{
  take_admin_id, take_remove_admin, take_vip_id, take_vip_remove, take_broadcast,
  take_vip_broadcast,
}
use config_manager.Bot.Texts.Addresses.{
  lstrip_at, name_of_url, take_ip_single, take_ip_bulk, save_source, take_scraper_tg,
  take_scraper_sub,
}
use config_manager.Bot.Texts.Output.{take_white_perf_count, take_config_count, take_ip_count}
use config_manager.Bot.Texts.{handle_admin_text}
use config_manager.Bot.Kept.Sources.{SourcesOk}

-- The number of a text, if it is one, is one that the database can hold.
abbrev pub IsStorable : Env → Text → Type 0
IsStorable e text = (n : ℤ) → int e.unicode text ≡ some n → fits (user_key n) ≡ true

module _ (e : Env) (user_id : ℕ) (text : Text) (s : Store) (d : UserData)
    (ok : SourcesOk s.sources) where
  save_source-handled :
      (name url source_type : Text)
      → (save_source e user_id text s d name url source_type).ending ≡ handled
  unfolding save_source
  save_source-handled name url source_type =
      let (t, (h, d)) =
        add_scraper_source-Distinct e.now name url source_type s.sources ok.urls_once
          ok.names_once in
      ground (arith, h)

  take_admin_id-handled : IsStorable e text → (take_admin_id e user_id text s d).ending ≡ handled
  unfolding take_admin_id add_admin
  take_admin_id-handled h = elim (Option-cases (int e.unicode text)) [
    | inl p ↦ ground arith
    | inr (n, p) ↦ ground (arith, h n p)
  ]

  take_remove_admin-handled :
      IsStorable e text → (take_remove_admin e user_id text s d).ending ≡ handled
  unfolding take_remove_admin remove_admin
  take_remove_admin-handled h = elim (Option-cases (int e.unicode text)) [
    | inl p ↦ ground arith
    | inr (n, p) ↦ ground (arith, h n p)
  ]

  take_vip_id-handled : IsStorable e text → (take_vip_id e user_id text s d).ending ≡ handled
  unfolding take_vip_id add_vip
  take_vip_id-handled h = elim (Option-cases (int e.unicode text)) [
    | inl p ↦ ground arith
    | inr (n, p) ↦ ground (arith, h n p)
  ]

  take_vip_remove-handled :
      IsStorable e text → (take_vip_remove e user_id text s d).ending ≡ handled
  unfolding take_vip_remove remove_vip
  take_vip_remove-handled h = elim (Option-cases (int e.unicode text)) [
    | inl p ↦ ground arith
    | inr (n, p) ↦ ground (arith, h n p)
  ]

  take_ip_single-handled : (take_ip_single e user_id text s d).ending ≡ handled
  unfolding take_ip_single
  take_ip_single-handled = ground arith

  take_ip_bulk-handled : (take_ip_bulk e user_id text s d).ending ≡ handled
  unfolding take_ip_bulk
  take_ip_bulk-handled = ground arith

  take_scraper_tg-handled : (take_scraper_tg e user_id text s d).ending ≡ handled
  unfolding take_scraper_tg
  take_scraper_tg-handled = elim (List-cases (lstrip_at text)) [
    | inl h ↦ ground arith
    | inr (c, (channel, h)) ↦
        ground (arith, save_source-handled (c ∷ channel) (c ∷ channel) (codes "telegram"))
  ]

  take_scraper_sub-handled : (take_scraper_sub e user_id text s d).ending ≡ handled
  unfolding take_scraper_sub
  take_scraper_sub-handled =
      ground
        (arith, save_source-handled (name_of_url (strip text)) (strip text) (codes "subscription"))

  take_broadcast-handled : (take_broadcast e user_id text s d).ending ≡ handled
  unfolding take_broadcast
  take_broadcast-handled = ground arith

  take_vip_broadcast-handled : (take_vip_broadcast e user_id text s d).ending ≡ handled
  unfolding take_vip_broadcast
  take_vip_broadcast-handled = ground arith

  take_white_perf_count-handled : (take_white_perf_count e user_id text s d).ending ≡ handled
  unfolding take_white_perf_count
  take_white_perf_count-handled = ground arith

  take_config_count-handled : (take_config_count e user_id text s d).ending ≡ handled
  unfolding take_config_count
  take_config_count-handled = ground arith

  take_ip_count-handled : (take_ip_count e user_id text s d).ending ≡ handled
  unfolding take_ip_count
  take_ip_count-handled = ground arith

pub handle_admin_text-ne-raised :
    (e : Env) (user_id : ℕ) (text : Text) (s : Store) (d : UserData)
    → SourcesOk s.sources
    → IsStorable e (strip text)
    → (handle_admin_text e user_id text s d).ending ≢ raised
unfolding handle_admin_text
handle_admin_text-ne-raised e user_id text s d ok n h = ground (
  arith,
  take_admin_id-handled e user_id (strip text) s (pop_flag awaiting_admin_id d) ok n,
  take_remove_admin-handled e user_id (strip text) s (pop_flag awaiting_remove_admin d) ok n,
  take_vip_id-handled e user_id (strip text) s (pop_flag awaiting_vip_id d) ok n,
  take_vip_remove-handled e user_id (strip text) s (pop_flag awaiting_vip_remove d) ok n,
  take_ip_single-handled e user_id (strip text) s (pop_flag awaiting_ip_single d) ok,
  take_ip_bulk-handled e user_id (strip text) s (pop_flag awaiting_ip_bulk d) ok,
  take_scraper_tg-handled e user_id (strip text) s (pop_flag awaiting_scraper_tg d) ok,
  take_scraper_sub-handled e user_id (strip text) s (pop_flag awaiting_scraper_sub d) ok,
  take_broadcast-handled e user_id (strip text) s (pop_flag broadcast_mode d) ok,
  take_vip_broadcast-handled e user_id (strip text) s (pop_flag vip_broadcast_mode d) ok,
  take_white_perf_count-handled e user_id (strip text) s (pop_flag awaiting_white_perf_count d) ok,
  take_config_count-handled e user_id (strip text) s (pop_flag awaiting_config_count d) ok,
  take_ip_count-handled e user_id (strip text) s (pop_flag awaiting_ip_count d) ok,
)
