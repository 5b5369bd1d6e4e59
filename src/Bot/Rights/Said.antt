-- ===== src/Bot/Rights/Said.antt =====
-- Texts move the rights as the abstract machine does.
use config_manager.Prelude.{
  ℕ, ◌≡◌, ◌≢◌, refl, ap, ◌∙◌, Bool, true, false, not, ◌&&◌, ◌||◌, List, [], ◌∷◌, arith, Bool-cases,
  inl, inr, Option-cases, nat_eq, member,
}
use config_manager.Prelude.Text.{Text, text_eq, strip}
use config_manager.Utils.Numbers.{int, user_key}
use config_manager.Database.Models.{Admin}
use config_manager.Database.Users.{fits, add_admin, remove_admin, get_admin_ids}
use config_manager.Database.Users.Laws.{insert_admin-member, delete_admin-member}
use config_manager.Bot.Context.{
  awaiting_admin_id, awaiting_remove_admin, awaiting_count, UserData, pop_flag, Store, main_menu,
  declined, HandlerResult, Env,
}
use config_manager.Bot.Texts.People.{take_admin_id, take_remove_admin}
use config_manager.Bot.Texts.{handle_admin_text}
use config_manager.Bot.Users.{handle_user_text}
use config_manager.Bot.Router.{or_else, fall_back, message_router}
use config_manager.Bot.Rights.{Asked, asked_of, admin_set, changed, say}
use config_manager.Bot.Rights.Quiet.{Quiet, reply-Quiet, or_else-Quiet, handle_admin_text-Quiet}

module _ (e : Env) (user_id : ℕ) (text : Text) (s : Store) (d : UserData) where
  -- What a text has done to the rights, if it did what the machine does.
  abbrev pub Said : HandlerResult → (ℕ → Bool) × Asked → Type 0
  Said o r = ((k : ℕ) → admin_set o.store k ≡ r.0 k) × (asked_of o.session ≡ r.1)

  take_admin_id-changed :
      (a : Asked) (d' : UserData) (k : ℕ)
      → admin_set (take_admin_id e user_id (strip text) s d').store k
        ≡ changed e user_id (admin_set s) a (λ b same. b || same) text k
  unfolding take_admin_id add_admin changed admin_set
  take_admin_id-changed a d' k = elim (Option-cases (int e.unicode (strip text))) [
    | inl p ↦ ground arith
    | inr (n, p) ↦ elim (Bool-cases (fits (user_key n))) [
      | inl f ↦ ground (arith, insert_admin-member e.now (user_key n) user_id k s.admins)
      | inr f ↦ ground arith
    ]
  ]

  take_remove_admin-changed :
      (a : Asked) (d' : UserData) (k : ℕ)
      → admin_set (take_remove_admin e user_id (strip text) s d').store k
        ≡ changed e user_id (admin_set s) a (λ b same. b && not same) text k
  unfolding take_remove_admin remove_admin changed admin_set
  take_remove_admin-changed a d' k = elim (Option-cases (int e.unicode (strip text))) [
    | inl p ↦ ground arith
    | inr (n, p) ↦ elim (Bool-cases (fits (user_key n))) [
      | inl f ↦ ground (arith, delete_admin-member (user_key n) k s.admins)
      | inr f ↦ ground arith
    ]
  ]

  take_admin_id-ne-declined :
      (d' : UserData) → (take_admin_id e user_id (strip text) s d').ending ≢ declined
  unfolding take_admin_id add_admin
  take_admin_id-ne-declined d' r = ground arith

  take_admin_id-session : (d' : UserData) → (take_admin_id e user_id (strip text) s d').session ≡ d'
  unfolding take_admin_id add_admin
  take_admin_id-session d' = ground arith

  take_remove_admin-ne-declined :
      (d' : UserData) → (take_remove_admin e user_id (strip text) s d').ending ≢ declined
  unfolding take_remove_admin remove_admin
  take_remove_admin-ne-declined d' r = ground arith

  take_remove_admin-session :
      (d' : UserData) → (take_remove_admin e user_id (strip text) s d').session ≡ d'
  unfolding take_remove_admin remove_admin
  take_remove_admin-session d' = ground arith

  counting-Said :
      d.flags awaiting_count ≡ true
      → Said (message_router e user_id text s d) (say e user_id (admin_set s) (asked_of d) text)
  unfolding message_router handle_user_text say asked_of
  counting-Said h = ground arith

  adding-Said :
      d.flags awaiting_count ≡ false
      → d.flags awaiting_admin_id ≡ true
      → Said (message_router e user_id text s d) (say e user_id (admin_set s) (asked_of d) text)
  unfolding message_router handle_user_text handle_admin_text say asked_of
  adding-Said h k = (
    λ k'. ground (
      arith,
      take_admin_id-changed (asked_of d) (pop_flag awaiting_admin_id d) k',
      take_admin_id-ne-declined (pop_flag awaiting_admin_id d),
    ),
    ground (
      arith,
      take_admin_id-session (pop_flag awaiting_admin_id d),
      take_admin_id-ne-declined (pop_flag awaiting_admin_id d),
    ),
  )

  removing-Said :
      d.flags awaiting_count ≡ false
      → d.flags awaiting_admin_id ≡ false
      → d.flags awaiting_remove_admin ≡ true
      → Said (message_router e user_id text s d) (say e user_id (admin_set s) (asked_of d) text)
  unfolding message_router handle_user_text handle_admin_text say asked_of
  removing-Said h k l = (
    λ k'. ground (
      arith,
      take_remove_admin-changed (asked_of d) (pop_flag awaiting_remove_admin d) k',
      take_remove_admin-ne-declined (pop_flag awaiting_remove_admin d),
    ),
    ground (
      arith,
      take_remove_admin-session (pop_flag awaiting_remove_admin d),
      take_remove_admin-ne-declined (pop_flag awaiting_remove_admin d),
    ),
  )

  handle_user_text-Quiet :
      d.flags awaiting_count ≡ false → Quiet s.admins (asked_of d) (handle_user_text e text s d)
  unfolding handle_user_text
  handle_user_text-Quiet h = ground arith

  message_router-Quiet :
      d.flags awaiting_count ≡ false
      → d.flags awaiting_admin_id ≡ false
      → d.flags awaiting_remove_admin ≡ false
      → Quiet s.admins (asked_of d) (message_router e user_id text s d)
  unfolding message_router asked_of
  message_router-Quiet h k l =
      or_else-Quiet s.admins (asked_of d)
        (or_else (handle_user_text e text s d) (handle_admin_text e user_id text))
        (fall_back main_menu)
        (or_else-Quiet s.admins (asked_of d) (handle_user_text e text s d)
          (handle_admin_text e user_id text) (handle_user_text-Quiet h)
          (λ s' d' same eq.
            handle_admin_text-Quiet s.admins (asked_of d) e user_id text s' d' same eq
              (ap (λ (a : Asked). a.adding) eq ∙ k) (ap (λ (a : Asked). a.removing) eq ∙ l)))
        (λ s' d' same eq. reply-Quiet s.admins (asked_of d) s' d' (main_menu ∷ []) same eq)

  say_other :
      d.flags awaiting_count ≡ false
      → d.flags awaiting_admin_id ≡ false
      → d.flags awaiting_remove_admin ≡ false
      → say e user_id (admin_set s) (asked_of d) text ≡ (admin_set s, asked_of d)
  unfolding say asked_of
  say_other h k l = rw (h, k, l) refl

  pub said :
      Said (message_router e user_id text s d) (say e user_id (admin_set s) (asked_of d) text)
  unfolding admin_set
  said = elim (Bool-cases (d.flags awaiting_count)) [
    | inl h ↦ counting-Said h
    | inr h ↦ elim (Bool-cases (d.flags awaiting_admin_id)) [
      | inl k ↦ adding-Said h k
      | inr k ↦ elim (Bool-cases (d.flags awaiting_remove_admin)) [
        | inl l ↦ removing-Said h k l
        | inr l ↦
            let q = message_router-Quiet h k l in
            rw (say_other h k l)
              (λ k'. ap (λ (rows : List Admin). member k' (get_admin_ids rows)) q.0, q.1)
      ]
    ]
  ]
