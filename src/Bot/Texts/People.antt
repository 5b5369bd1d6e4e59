-- ===== src/Bot/Texts/People.antt =====
-- app/handlers/admin.py, `handle_admin_text`: the numbers of administrators and VIPs, and the messages
-- to all users and to all VIPs. Each handler has popped its flag: `d` is what is left. The exception of the database for a
-- number beyond 64 bits is caught by nobody.
use config_manager.Prelude.{
  ℕ, not, none, some, List, [], ◌∷◌, length, map, filter_where, if◌then◌else◌,
}
use config_manager.Prelude.Text.{Text}
use config_manager.Database.Users.{
  add_admin, remove_admin, add_vip, remove_vip, get_all_user_ids, get_vip_ids,
}
use config_manager.Utils.Numbers.{int, user_key}
use config_manager.Bot.Context.{
  UserData, Store, denied, owner_only, bad_number, admin_added, admin_removed, vip_added,
  vip_removed, broadcast_sent, handled, HandlerResult, Env, is_owner, require_admin, reply, throw,
}

module _ (e : Env) (user_id : ℕ) (text : Text) (s : Store) (d : UserData) where
  unfoldable pub take_admin_id : HandlerResult
  unfolding is_owner reply int user_key add_admin throw
  take_admin_id =
      if not (is_owner e user_id) then reply s d (owner_only ∷ []) else elim (int e.unicode text) [
        | none ↦ reply s d (bad_number ∷ [])
        | some n ↦ elim (add_admin e.now (user_key n) user_id s.admins) [
          | none ↦ throw s d
          | some r ↦ reply (record s { admins = r.1 }) d (admin_added r.0 ∷ [])
        ]
      ]

  unfoldable pub take_remove_admin : HandlerResult
  unfolding is_owner reply int user_key remove_admin throw
  take_remove_admin =
      if not (is_owner e user_id) then reply s d (owner_only ∷ []) else elim (int e.unicode text) [
        | none ↦ reply s d (bad_number ∷ [])
        | some n ↦ elim (remove_admin (user_key n) s.admins) [
          | none ↦ throw s d
          | some r ↦ reply (record s { admins = r.1 }) d (admin_removed r.0 ∷ [])
        ]
      ]

  unfoldable pub take_vip_id : HandlerResult
  unfolding require_admin reply int user_key add_vip throw
  take_vip_id =
      if not (require_admin e user_id s)
      then reply s d (denied ∷ [])
      else elim (int e.unicode text) [
        | none ↦ reply s d (bad_number ∷ [])
        | some n ↦ elim (add_vip e.now (user_key n) s.vips) [
          | none ↦ throw s d
          | some vips ↦ reply (record s { vips = vips }) d (vip_added n ∷ [])
        ]
      ]

  -- A stranger gets no answer here.
  unfoldable pub take_vip_remove : HandlerResult
  unfolding require_admin reply int user_key remove_vip throw
  take_vip_remove =
      if not (require_admin e user_id s) then reply s d [] else elim (int e.unicode text) [
        | none ↦ reply s d (bad_number ∷ [])
        | some n ↦ elim (remove_vip (user_key n) s.vips) [
          | none ↦ throw s d
          | some r ↦ reply (record s { vips = r.1 }) d (vip_removed n ∷ [])
        ]
      ]

  -- the loop over the receivers; `reaches` tells which of the calls raise nothing.
  unfoldable pub send_to : List ℕ → HandlerResult
  send_to ids =
      let reached = filter_where (λ uid. e.reaches uid text) ids in
      let lost = filter_where (λ uid. not (e.reaches uid text)) ids in
      record {
        ending = handled;
        store = s;
        session = d;
        shown = broadcast_sent (length reached) (length lost) ∷ [];
        sent = map (λ uid. (uid, text)) reached;
      }

  unfoldable pub take_broadcast : HandlerResult
  unfolding require_admin reply send_to get_all_user_ids
  take_broadcast =
      if not (require_admin e user_id s)
      then reply s d (denied ∷ [])
      else send_to (get_all_user_ids s.users)

  unfoldable pub take_vip_broadcast : HandlerResult
  unfolding require_admin reply send_to get_vip_ids
  take_vip_broadcast =
      if not (require_admin e user_id s)
      then reply s d (denied ∷ [])
      else send_to (get_vip_ids s.vips)
