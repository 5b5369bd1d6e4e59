-- ===== src/Bot/Texts/Addresses.antt =====
-- app/handlers/admin.py, `handle_admin_text`: clean addresses and sources. Each handler has popped its
-- flag: `d` is what is left.
use config_manager.Prelude.{
  ℕ, suc, ◌+◌, not, ◌||◌, none, some, List, [], ◌∷◌, ◌++◌, map, member, take, nat_beq,
  if◌then◌else◌,
}
use config_manager.Prelude.Text.{Text, text_eq, codes, strip, is_space, starts_with, has}
use config_manager.Utils.Ip.{is_valid_ip, split_on}
use config_manager.Database.Models.{CleanIp}
use config_manager.Database.Sources.{add_clean_ip, add_scraper_source}
use config_manager.Bot.Context.{
  UserData, Store, denied, bad_ip, bad_name, bad_link, ip_saved, ips_saved, source_added,
  HandlerResult, Env, require_admin, reply, throw,
}

-- `crud.add_clean_ip`; the database gives a number to a new row.
unfoldable pub save_ip : ℕ → Text → Store → Store
unfolding add_clean_ip
save_ip now ip s = record s {
  clean_ips = add_clean_ip now s.next_ip ip s.clean_ips;
  next_ip =
      if member ip (map (λ (r : CleanIp). r.ip) s.clean_ips) then s.next_ip else suc s.next_ip;
}

-- `text.split()`; `word` holds what was read of the current word.
ended : Text → List Text → List Text
ended [] rest = rest
ended (c ∷ w) rest = (c ∷ w) ∷ rest

unfoldable pub split_words : Text → Text → List Text
unfolding ended
split_words word [] = ended word []
split_words word (c ∷ s) =
    let next = split_words [] s in
    let more = split_words (word ++ c ∷ []) s in if is_space c then ended word next else more

-- the loop over the candidates, with the numbers of those saved and those refused
unfoldable pub save_ips : ℕ → List Text → Store → ℕ → ℕ → Store × ℕ × ℕ
unfolding save_ip
save_ips now [] s count invalid = (s, count, invalid)
save_ips now (w ∷ ws) s count invalid =
    let ip = strip w in
    let valid = is_valid_ip ip in
    save_ips now ws (if valid then save_ip now ip s else s) (if valid then count + 1 else count)
      (if valid then invalid else invalid + 1)

-- `text.lstrip("@")`
unfoldable pub lstrip_at : Text → Text
lstrip_at [] = []
lstrip_at (c ∷ s) = if nat_beq c b'@' then lstrip_at s else c ∷ s

-- `pieces[-1]`
unfoldable pub last_of : Text → List Text → Text
last_of w [] = w
last_of w (v ∷ vs) = last_of v vs

-- `url.split("/")[-1][:80] if "/" in url else url[:80]`
unfoldable pub name_of_url : Text → Text
unfolding split_on last_of
name_of_url url = if has b'/' url then take 80 (last_of [] (split_on b'/' url)) else take 80 url

module _ (e : Env) (user_id : ℕ) (text : Text) (s : Store) (d : UserData) where
  -- No right is asked for.
  unfoldable pub take_ip_single : HandlerResult
  unfolding save_ip reply
  take_ip_single =
      let ip = strip text in
      if not (is_valid_ip ip)
      then reply s d (bad_ip ∷ [])
      else reply (save_ip e.now ip s) d (ip_saved ip ∷ [])

  -- No right is asked for.
  unfoldable pub take_ip_bulk : HandlerResult
  unfolding save_ips split_words reply
  take_ip_bulk =
      let r = save_ips e.now (split_words [] (strip text)) s 0 0 in
      reply r.0 d (ips_saved r.1 r.2 ∷ [])

  -- `crud.add_scraper_source`, and the answer
  unfoldable pub save_source : Text → Text → Text → HandlerResult
  unfolding add_scraper_source reply throw
  save_source name url source_type =
      elim (add_scraper_source e.now name url source_type s.sources) [
        | none ↦ throw s d
        | some r ↦ reply (record s { sources = r.1 }) d (source_added r.0 name ∷ [])
      ]

  unfoldable pub take_scraper_tg : HandlerResult
  unfolding require_admin reply lstrip_at save_source
  take_scraper_tg =
      if not (require_admin e user_id s) then reply s d (denied ∷ []) else elim (lstrip_at text) [
        | [] ↦ reply s d (bad_name ∷ [])
        | c ∷ channel ↦ save_source (c ∷ channel) (c ∷ channel) (codes "telegram")
      ]

  unfoldable pub take_scraper_sub : HandlerResult
  unfolding require_admin reply name_of_url save_source
  take_scraper_sub =
      let url = strip text in
      if not (require_admin e user_id s)
      then reply s d (denied ∷ [])
      else if not (
          starts_with (codes "http://") url
          || starts_with (codes "https://") url
          || starts_with (codes "sub://") url)
      then reply s d (bad_link ∷ [])
      else save_source (name_of_url url) url (codes "subscription")
