-- ===== src/Bot/Kept/Texts.antt =====
-- Each text handler of app/handlers/admin.py keeps what the operations keep.
use config_manager.Prelude.{
  ℕ, ◌≡◌, sym, Bool, true, false, List, [], ◌∷◌, arith, if◌then◌else◌, Bool-cases, Option-cases,
  List-cases, inl, inr, ◌⊎◌,
}
use mathlib.Core.Path.{subst}
use config_manager.Prelude.Text.{Text, text_eq, codes, strip}
use config_manager.Utils.Numbers.{int, user_key}
use config_manager.Database.Users.{add_admin, remove_admin, add_vip, remove_vip}
use config_manager.Utils.Ip.{is_valid_ip}
use config_manager.Bot.Context.{
  UserData, Store, Ending, handled, declined, raised, HandlerResult, Env, awaiting_admin_id,
  awaiting_remove_admin, awaiting_vip_id, awaiting_vip_remove, awaiting_ip_single, awaiting_ip_bulk,
  awaiting_scraper_tg, awaiting_scraper_sub, broadcast_mode, vip_broadcast_mode,
  awaiting_white_perf_count, awaiting_config_count, awaiting_ip_count, pop_flag, decline,
}
use config_manager.Bot.Texts.People.{
  take_admin_id, take_remove_admin, take_vip_id, take_vip_remove, take_broadcast,
  take_vip_broadcast,
}
use config_manager.Bot.Texts.Addresses.{
  save_ips, save_ip, split_words, lstrip_at, name_of_url, take_ip_single, take_ip_bulk, save_source,
  take_scraper_tg, take_scraper_sub,
}
use config_manager.Bot.Texts.{handle_admin_text}
use config_manager.Bot.Router.{or_else}
use config_manager.Bot.Texts.Output.{take_white_perf_count, take_config_count, take_ip_count}
use config_manager.Database.Sources.{add_scraper_source}
use config_manager.Bot.Kept.{IsKept}

module _ (P : Store → Type 0) where
  pub either : {s t u : Store} → (s ≡ t) ⊎ (s ≡ u) → P t → P u → P s
  either (inl h) p q = subst P (sym h) p
  either (inr h) p q = subst P (sym h) q

  choose-kept :
      (v : Ending) (o t : HandlerResult)
      → P o.store
      → P t.store
      → P (elim v as (λ x. HandlerResult) [ handled ↦ o | declined ↦ t | raised ↦ o ]).store
  choose-kept handled o t p q = p
  choose-kept declined o t p q = q
  choose-kept raised o t p q = p

  if_kept : (b : Bool) (x y : HandlerResult) → P x.store → P y.store → P (if b then x else y).store
  if_kept true x y p q = p
  if_kept false x y p q = q

  pub or_else-kept :
      (o : HandlerResult) (next : Store → UserData → HandlerResult)
      → P o.store
      → ((s : Store) (d : UserData) → P s → P (next s d).store)
      → P (or_else o next).store
  unfolding or_else
  or_else-kept o next p q =
      choose-kept o.ending o (next o.store o.session) p (q o.store o.session p)

module _ (P : Store → Type 0) (K : IsKept P) where
  pub if_valid :
      (now : ℕ) (w : Text) (s : Store)
      → P s
      → P (if is_valid_ip (strip w) then save_ip now (strip w) s else s)
  if_valid now w s p = elim (Bool-cases (is_valid_ip (strip w))) [
    | inl h ↦ rw h (K.ip_saved now w s h p)
    | inr h ↦ rw h p
  ]

  save_ips-kept :
      (now : ℕ) (ws : List Text) (s : Store) (count invalid : ℕ)
      → P s
      → P (save_ips now ws s count invalid).0
  unfolding save_ips
  save_ips-kept now [] s count invalid p = p
  save_ips-kept now (w ∷ ws) s count invalid p = save_ips-kept now ws _ _ _ (if_valid now w s p)

  module _ (e : Env) (user_id : ℕ) (text : Text) (s : Store) (d : UserData) (p : P s) where
    take_admin_id-kept : P (take_admin_id e user_id text s d).store
    unfolding take_admin_id add_admin
    take_admin_id-kept = elim (Option-cases (int e.unicode text)) [
      | inl h ↦ subst P (ground arith) p
      | inr (n, h) ↦ either P (ground arith) p (K.admin_added e.now (user_key n) user_id s p)
    ]

    take_remove_admin-kept : P (take_remove_admin e user_id text s d).store
    unfolding take_remove_admin remove_admin
    take_remove_admin-kept = elim (Option-cases (int e.unicode text)) [
      | inl h ↦ subst P (ground arith) p
      | inr (n, h) ↦ either P (ground arith) p (K.admin_removed (user_key n) s p)
    ]

    take_vip_id-kept : P (take_vip_id e user_id text s d).store
    unfolding take_vip_id add_vip
    take_vip_id-kept = elim (Option-cases (int e.unicode text)) [
      | inl h ↦ subst P (ground arith) p
      | inr (n, h) ↦ either P (ground arith) p (K.vip_added e.now (user_key n) s p)
    ]

    take_vip_remove-kept : P (take_vip_remove e user_id text s d).store
    unfolding take_vip_remove remove_vip
    take_vip_remove-kept = elim (Option-cases (int e.unicode text)) [
      | inl h ↦ subst P (ground arith) p
      | inr (n, h) ↦ either P (ground arith) p (K.vip_removed (user_key n) s p)
    ]

    take_ip_single-kept : P (take_ip_single e user_id text s d).store
    unfolding take_ip_single
    take_ip_single-kept = elim (Bool-cases (is_valid_ip (strip text))) [
      | inl h ↦ subst P (ground arith) (K.ip_saved e.now text s h p)
      | inr h ↦ subst P (ground arith) p
    ]

    take_ip_bulk-kept : P (take_ip_bulk e user_id text s d).store
    unfolding take_ip_bulk
    take_ip_bulk-kept = save_ips-kept e.now (split_words [] (strip text)) s 0 0 p

    save_source-kept :
        (name url source_type : Text)
        → P (save_source e user_id text s d name url source_type).store
    unfolding save_source
    save_source-kept name url source_type =
        elim (Option-cases (add_scraper_source e.now name url source_type s.sources)) [
          | inl h ↦ subst P (ground arith) p
          | inr (r, h) ↦ subst P (ground arith) (K.source_saved e.now name url source_type s r h p)
        ]

    take_scraper_tg-kept : P (take_scraper_tg e user_id text s d).store
    unfolding take_scraper_tg
    take_scraper_tg-kept = elim (List-cases (lstrip_at text)) [
      | inl h ↦ subst P (ground arith) p
      | inr (c, (channel, h)) ↦
          either P (ground arith) p
            (save_source-kept (c ∷ channel) (c ∷ channel) (codes "telegram"))
    ]

    take_scraper_sub-kept : P (take_scraper_sub e user_id text s d).store
    unfolding take_scraper_sub
    take_scraper_sub-kept =
        either P (ground arith) p
          (save_source-kept (name_of_url (strip text)) (strip text) (codes "subscription"))

    take_broadcast-kept : P (take_broadcast e user_id text s d).store
    unfolding take_broadcast
    take_broadcast-kept = subst P (ground arith) p

    take_vip_broadcast-kept : P (take_vip_broadcast e user_id text s d).store
    unfolding take_vip_broadcast
    take_vip_broadcast-kept = subst P (ground arith) p

    take_white_perf_count-kept : P (take_white_perf_count e user_id text s d).store
    unfolding take_white_perf_count
    take_white_perf_count-kept = subst P (ground arith) p

    take_config_count-kept : P (take_config_count e user_id text s d).store
    unfolding take_config_count
    take_config_count-kept = subst P (ground arith) p

    take_ip_count-kept : P (take_ip_count e user_id text s d).store
    unfolding take_ip_count
    take_ip_count-kept = subst P (ground arith) p

  -- One of the texts is taken, or none.
  pub handle_admin_text-kept :
      (e : Env) (user_id : ℕ) (text : Text) (s : Store) (d : UserData)
      → P s
      → P (handle_admin_text e user_id text s d).store
  unfolding handle_admin_text decline pop_flag
  handle_admin_text-kept e user_id text s d p =
      let t = strip text in
      if_kept P (d.flags awaiting_admin_id)
        (take_admin_id e user_id t s (pop_flag awaiting_admin_id d)) _
        (take_admin_id-kept e user_id t s (pop_flag awaiting_admin_id d) p)
        (if_kept P (d.flags awaiting_remove_admin)
          (take_remove_admin e user_id t s (pop_flag awaiting_remove_admin d)) _
          (take_remove_admin-kept e user_id t s (pop_flag awaiting_remove_admin d) p)
          (if_kept P (d.flags awaiting_vip_id)
            (take_vip_id e user_id t s (pop_flag awaiting_vip_id d)) _
            (take_vip_id-kept e user_id t s (pop_flag awaiting_vip_id d) p)
            (if_kept P (d.flags awaiting_vip_remove)
              (take_vip_remove e user_id t s (pop_flag awaiting_vip_remove d)) _
              (take_vip_remove-kept e user_id t s (pop_flag awaiting_vip_remove d) p)
              (if_kept P (d.flags awaiting_ip_single)
                (take_ip_single e user_id t s (pop_flag awaiting_ip_single d)) _
                (take_ip_single-kept e user_id t s (pop_flag awaiting_ip_single d) p)
                (if_kept P (d.flags awaiting_ip_bulk)
                  (take_ip_bulk e user_id t s (pop_flag awaiting_ip_bulk d)) _
                  (take_ip_bulk-kept e user_id t s (pop_flag awaiting_ip_bulk d) p)
                  (if_kept P (d.flags awaiting_scraper_tg)
                    (take_scraper_tg e user_id t s (pop_flag awaiting_scraper_tg d)) _
                    (take_scraper_tg-kept e user_id t s (pop_flag awaiting_scraper_tg d) p)
                    (if_kept P (d.flags awaiting_scraper_sub)
                      (take_scraper_sub e user_id t s (pop_flag awaiting_scraper_sub d)) _
                      (take_scraper_sub-kept e user_id t s (pop_flag awaiting_scraper_sub d) p)
                      (if_kept P (d.flags broadcast_mode)
                        (take_broadcast e user_id t s (pop_flag broadcast_mode d)) _
                        (take_broadcast-kept e user_id t s (pop_flag broadcast_mode d) p)
                        (if_kept P (d.flags vip_broadcast_mode)
                          (take_vip_broadcast e user_id t s (pop_flag vip_broadcast_mode d)) _
                          (take_vip_broadcast-kept e user_id t s (pop_flag vip_broadcast_mode d) p)
                          (if_kept P (d.flags awaiting_white_perf_count)
                            (take_white_perf_count e user_id t s
                              (pop_flag awaiting_white_perf_count d))
                            _
                            (take_white_perf_count-kept e user_id t s
                              (pop_flag awaiting_white_perf_count d) p)
                            (if_kept P (d.flags awaiting_config_count)
                              (take_config_count e user_id t s (pop_flag awaiting_config_count d)) _
                              (take_config_count-kept e user_id t s
                                (pop_flag awaiting_config_count d) p)
                              (if_kept P (d.flags awaiting_ip_count)
                                (take_ip_count e user_id t s (pop_flag awaiting_ip_count d)) _
                                (take_ip_count-kept e user_id t s (pop_flag awaiting_ip_count d) p)
                                (p)))))))))))))
