-- ===== src/Bot/Menus/Sources.antt =====
-- app/handlers/admin.py, `_build_source_list_buttons`: a button for each source, which toggles it.
use config_manager.Prelude.{
  ℕ, ◌≡◌, refl, ap, ◌∙◌, true, false, Option, some, List, [], ◌∷◌, ◌++◌, arith, nat_beq, member,
  All, not, map, Distinct, ◌==◌, nat_eq, if◌then◌else◌, Bool-cases, inl, inr, ==_iff, find_where,
  sym,
}
use config_manager.Prelude.Text.{Text, codes, starts_with, has, text_beq, text_eq}
use mathlib.Core.Path.{subst}
use mathlib.Core.Option.{some-injective}
use config_manager.Database.Sources.{with_id, toggled, SourceTable, toggle_scraper_source}
use config_manager.Database.Sources.Laws.{one_or_none-Distinct}
use config_manager.Utils.Decimal.{decimal, IsDigit, decimal-IsDigit, int-decimal}
use config_manager.Utils.Ip.{split_on}
use config_manager.Utils.Numbers.{pos, int}
use config_manager.Database.Models.{ScraperSource}
use config_manager.Bot.Context.{
  handled, UserData, Store, source_toggled, HandlerResult, Env, require_admin, reply,
  invalid_option,
}
use config_manager.Bot.Buttons.{
  admin_callback, is_admin_route, people_buttons, white_buttons, vip_buttons, address_buttons,
  scraper_buttons, source_id_of, toggle_source, shown_sources,
}
use config_manager.Bot.Router.{callback_router, or_else, fall_back}
use config_manager.Bot.Users.{user_callback}
use config_manager.Bot.Kept.Sources.{SourcesOk, id_of, toggle_scraper_source_total}
use config_manager.Bot.Menus.{Keyboard}

-- `f"scraper_toggle_source:{src.id}"`
unfoldable pub source_button : ℕ → Text
source_button source_id = codes "scraper_toggle_source:" ++ decimal source_id

unfoldable pub build_source_list_buttons : List ScraperSource → Keyboard
unfolding source_button
build_source_list_buttons [] = (codes "scraper_menu" ∷ []) ∷ []
build_source_list_buttons (src ∷ sources) =
    (source_button src.id ∷ []) ∷ build_source_list_buttons sources

-- Digits hold no colon.
split_on-digits : (t : Text) → All IsDigit t → split_on b':' t ≡ t ∷ []
unfolding split_on
split_on-digits [] h = refl
split_on-digits (c ∷ t) h =
    let plain : nat_beq c b':' ≡ false = ground (arith, h.0) in
    rw (plain, split_on-digits t h.1) refl

-- The first piece is what stands before the first colon.
split_on-append :
    (p t : Text) → has b':' p ≡ false → split_on b':' (p ++ b':' ∷ t) ≡ p ∷ split_on b':' t
unfolding split_on has
split_on-append [] t h = refl
split_on-append (c ∷ p) t h =
    let plain : nat_beq c b':' ≡ false = ground arith in
    rw (plain, split_on-append p t (ground arith)) refl

source_id_of_split :
    (e : Env) (user_id : ℕ) (q w t : Text) (s : Store) (d : UserData)
    → split_on b':' q ≡ w ∷ t ∷ []
    → source_id_of e user_id q s d ≡ int e.unicode t
unfolding source_id_of
source_id_of_split e user_id q w t s d h = rw (h, source_id_of) refl

source_id_of-source_button :
    (e : Env) (user_id n : ℕ) (s : Store) (d : UserData)
    → source_id_of e user_id (source_button n) s d ≡ some (pos n)
unfolding source_button
source_id_of-source_button e user_id n s d =
    let prefix : split_on b':' (codes "scraper_toggle_source:" ++ decimal n)
        ≡ codes "scraper_toggle_source" ∷ decimal n ∷ [] =
      split_on-append (codes "scraper_toggle_source") (decimal n) (unfold has in refl)
      ∙ ap (λ (l : List Text). codes "scraper_toggle_source" ∷ l)
          (split_on-digits (decimal n) (decimal-IsDigit n)) in
    source_id_of_split e user_id (source_button n) (codes "scraper_toggle_source") (decimal n) s d
      prefix
    ∙ int-decimal e.unicode n

-- No other test takes the text of such a button.
admin_callback-source_button :
    (e : Env) (user_id n : ℕ) (s : Store) (d : UserData)
    → require_admin e user_id s ≡ true
    → admin_callback e user_id (source_button n) s d ≡ toggle_source e user_id (source_button n) s d
unfolding admin_callback is_admin_route people_buttons white_buttons vip_buttons address_buttons
    scraper_buttons source_button text_beq starts_with member
admin_callback-source_button e user_id n s d admin = rw (admin) refl

-- a source that is turned on if it was off, and off if it was on
abbrev pub flip : ScraperSource → ScraperSource
flip src = record src { is_active = not src.is_active }

-- the same for the source of a number, and no other
unfoldable pub flip_if : ℕ → ScraperSource → ScraperSource
flip_if n src = if src.id == n then flip src else src

flip_if-others :
    (n : ℕ) (rows : List ScraperSource)
    → member n (map id_of rows) ≡ false
    → map (flip_if n) rows ≡ rows
unfolding flip_if member
flip_if-others n [] h = refl
flip_if-others n (x ∷ rows) h =
    let other : (x.id == n) ≡ false = ground (arith, ==_iff x.id n, ==_iff n x.id) in
    rw (other, flip_if-others n rows (ground arith)) refl

toggled-flip_if :
    (n : ℕ) (rows : List ScraperSource)
    → Distinct (map id_of rows)
    → toggled n rows ≡ map (flip_if n) rows
unfolding toggled flip_if
toggled-flip_if n [] d = refl
toggled-flip_if n (x ∷ rows) d = elim (Bool-cases (x.id == n)) [
  | inl e ↦
      let same : x.id ≡ n = (==_iff x.id n).0 e in
      let others : map (flip_if n) rows ≡ rows =
        flip_if-others n rows (subst (λ (k : ℕ). member k (map id_of rows) ≡ false) same d.0) in
      rw (e, others) refl
  | inr e ↦ rw (e, toggled-flip_if n rows d.1) refl
]

found-member :
    (n : ℕ) (src : ScraperSource) (rows : List ScraperSource)
    → find_where (λ (x : ScraperSource). x.id == n) rows ≡ some src
    → member n (map id_of rows) ≡ true
unfolding find_where member
found-member n src [] h = cc
found-member n src (x ∷ rows) h = elim (Bool-cases (x.id == n)) [
  | inl e ↦ ground (arith, ==_iff x.id n, ==_iff n x.id)
  | inr e ↦ ground (arith, found-member n src rows (sym (rw e refl) ∙ h))
]

found-toggled :
    (n : ℕ) (src : ScraperSource) (rows : List ScraperSource)
    → find_where (λ (x : ScraperSource). x.id == n) rows ≡ some src
    → find_where (λ (x : ScraperSource). x.id == n) (toggled n rows) ≡ some (flip src)
unfolding find_where toggled
found-toggled n src [] h = cc
found-toggled n src (x ∷ rows) h = elim (Bool-cases (x.id == n)) [
  | inl e ↦
      let first : some x ≡ some src = sym (rw e refl) ∙ h in
      rw (e, e) (ap (λ (y : ScraperSource). some (flip y)) (some-injective x src first))
  | inr e ↦ rw (e, e) (found-toggled n src rows (sym (rw e refl) ∙ h))
]

-- Of a table in order, the source of a number is toggled, and no other.
toggle_scraper_source-flip :
    (n : ℕ) (src : ScraperSource) (t : SourceTable)
    → SourcesOk t
    → find_where (λ (x : ScraperSource). x.id == n) t.rows ≡ some src
    → toggle_scraper_source n t
      ≡ some (some (flip src), record { rows = map (flip_if n) t.rows; next_id = t.next_id })
unfolding toggle_scraper_source with_id
toggle_scraper_source-flip n src t ok found =
    elim (one_or_none-Distinct id_of n t.rows ok.ids_once) [
      | inl (e, m) ↦ absurd (ground (arith, found-member n src t.rows found, m))
      | inr (x, (e, m)) ↦
          rw
            (
              e,
              toggle_scraper_source,
              found-toggled n src t.rows found,
              toggled-flip_if n t.rows ok.ids_once,
            )
            refl
    ]

toggle_source-reply :
    (e : Env) (user_id n : ℕ) (s : Store) (d : UserData) (r : Option ScraperSource × SourceTable)
    → toggle_scraper_source n s.sources ≡ some r
    → toggle_source e user_id (source_button n) s d
      ≡ reply
          (record s { sources = r.1 })
          d
          (source_toggled r.0 ∷ shown_sources e user_id (source_button n) s d r.1 ∷ [])
unfolding toggle_source
toggle_source-reply e user_id n s d r toggles =
    rw (source_id_of-source_button e user_id n s d, toggles, toggle_source) refl

-- A button of the list is answered, to administrators and to others.
pub admin_callback-source_button-handled :
    (e : Env) (user_id n : ℕ) (s : Store) (d : UserData)
    → SourcesOk s.sources
    → (admin_callback e user_id (source_button n) s d).ending ≡ handled
unfolding admin_callback is_admin_route source_button text_beq starts_with member reply
admin_callback-source_button-handled e user_id n s d ok =
    elim (Bool-cases (require_admin e user_id s)) [
      | inl admin ↦
          let (r, toggles) = toggle_scraper_source_total n s.sources ok in
          ap (λ (o : HandlerResult). o.ending)
            (admin_callback-source_button e user_id n s d admin
              ∙ toggle_source-reply e user_id n s d r toggles)
      | inr stranger ↦ rw stranger refl
    ]

-- If no two sources have one number, one address or one name, and the next number is above all: an administrator who
-- presses the button that the list shows for a source of the table turns this source on if it was off, and off if it
-- was on. Nothing else of it changes, nor any other source or table. He is told its new state, and shown the list
-- after the change.
pub callback_router-source_button :
    (e : Env) (user_id n : ℕ) (src : ScraperSource) (s : Store) (d : UserData)
    → SourcesOk s.sources
    → require_admin e user_id s ≡ true
    → find_where (λ (x : ScraperSource). x.id == n) s.sources.rows ≡ some src
    → let t : SourceTable = record {
      rows = map (flip_if n) s.sources.rows;
      next_id = s.sources.next_id;
    } in
      callback_router e user_id (source_button n) s d
      ≡ reply
          (record s { sources = t })
          d
          (source_toggled (some (flip src)) ∷ shown_sources e user_id (source_button n) s d t ∷ [])
unfolding callback_router or_else reply
callback_router-source_button e user_id n src s d ok admin found =
    let t : SourceTable = record {
      rows = map (flip_if n) s.sources.rows;
      next_id = s.sources.next_id;
    } in
    let q = source_button n in
    let o : admin_callback e user_id q s d
        ≡ reply (record s { sources = t }) d
            (source_toggled (some (flip src)) ∷ shown_sources e user_id q s d t ∷ []) =
      admin_callback-source_button e user_id n s d admin
      ∙ toggle_source-reply e user_id n s d (some (flip src), t)
          (toggle_scraper_source-flip n src s.sources ok found) in
    ap (λ (o : HandlerResult). or_else (or_else o (user_callback e q)) (fall_back invalid_option)) o
