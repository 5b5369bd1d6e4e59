-- ===== src/Database/Users/Laws.antt =====
-- Who is an administrator, a VIP or a user after an operation, and the count of starts.
use config_manager.Prelude.{
  nat_eq, ℕ, ◌+◌, ◌≡◌, refl, true, false, not, ◌||◌, ◌&&◌, List, [], ◌∷◌, member, Distinct,
  Distinct-map-filter_where, ◌==◌, Bool-cases, inl, inr, arith,
}
use config_manager.Prelude.Keys.{member-added, member-removed, Distinct-added}
use config_manager.Database.Models.{User, VipUser, Admin, UserStat}
use config_manager.Database.Users.{
  Text, Option, get_vip_ids, get_all_user_ids, upsert_user, delete_vip, insert_vip, bump_user_start,
  total_starts, get_admin_ids, insert_admin, delete_admin,
}

pub insert_admin-member :
    (now user_id by k : ℕ) (admins : List Admin)
    → member k (get_admin_ids (insert_admin now user_id by admins).1)
      ≡ (member k (get_admin_ids admins) || k == user_id)
unfolding insert_admin get_admin_ids
insert_admin-member now user_id by k admins =
    elim (Bool-cases (member user_id (get_admin_ids admins))) [
      | inl e ↦ rw (e, insert_admin) (known (get_admin_ids admins) e)
      | inr e ↦ rw (e, insert_admin) (member-added (λ (a : Admin). a.user_id) k admins _)
    ]
  where
    known :
        (ids : List ℕ) → member user_id ids ≡ true → member k ids ≡ (member k ids || k == user_id)
    known ids e = elim (Bool-cases (k == user_id)) [
      | inl h ↦ let kk : k ≡ user_id = ground arith in rw (kk, e) refl
      | inr h ↦ ground arith
    ]

pub insert_admin-Distinct :
    (now user_id by : ℕ) (admins : List Admin)
    → Distinct (get_admin_ids admins)
    → Distinct (get_admin_ids (insert_admin now user_id by admins).1)
unfolding insert_admin get_admin_ids
insert_admin-Distinct now user_id by admins d =
    elim (Bool-cases (member user_id (get_admin_ids admins))) [
      | inl e ↦ rw (e, insert_admin) d
      | inr e ↦ rw (e, insert_admin) (Distinct-added (λ (a : Admin). a.user_id) admins _ d e)
    ]

pub delete_admin-member :
    (user_id k : ℕ) (admins : List Admin)
    → member k (get_admin_ids (delete_admin user_id admins).1)
      ≡ (member k (get_admin_ids admins) && not (k == user_id))
unfolding delete_admin get_admin_ids
delete_admin-member user_id k admins = elim (Bool-cases (member user_id (get_admin_ids admins))) [
  | inl e ↦ rw (e, delete_admin) (member-removed (λ (a : Admin). a.user_id) k user_id admins)
  | inr e ↦ rw (e, delete_admin) (stranger (get_admin_ids admins) e)
]
  where
    stranger :
        (ids : List ℕ)
        → member user_id ids ≡ false
        → member k ids ≡ (member k ids && not (k == user_id))
    stranger ids e = elim (Bool-cases (k == user_id)) [
      | inl h ↦ let kk : k ≡ user_id = ground arith in rw (kk, e) refl
      | inr h ↦ ground arith
    ]

pub delete_admin-Distinct :
    (user_id : ℕ) (admins : List Admin)
    → Distinct (get_admin_ids admins)
    → Distinct (get_admin_ids (delete_admin user_id admins).1)
unfolding delete_admin get_admin_ids
delete_admin-Distinct user_id admins d = elim (Bool-cases (member user_id (get_admin_ids admins))) [
  | inl e ↦ rw (e, delete_admin) (Distinct-map-filter_where (λ (a : Admin). a.user_id) _ admins d)
  | inr e ↦ rw (e, delete_admin) d
]

-- After `insert_admin` the administrators are those before and the user; after `delete_admin` those
-- before without him. Neither makes a number occur twice.
pub insert_admin-delete_admin :
    (now user_id by : ℕ) (admins : List Admin)
    → Distinct (get_admin_ids admins)
    → let more = (insert_admin now user_id by admins).1 in
      let fewer = (delete_admin user_id admins).1 in
      ((k : ℕ)
        → (member k (get_admin_ids more) ≡ (member k (get_admin_ids admins) || k == user_id))
          × (member k (get_admin_ids fewer)
              ≡ (member k (get_admin_ids admins) && not (k == user_id))))
      × (Distinct (get_admin_ids more) × Distinct (get_admin_ids fewer))
insert_admin-delete_admin now user_id by admins d = (
  λ k. (insert_admin-member now user_id by k admins, delete_admin-member user_id k admins),
  (insert_admin-Distinct now user_id by admins d, delete_admin-Distinct user_id admins d),
)

-- Every start is counted: the total grows by one, whether the user has a row or not.
pub bump_user_start-total_starts :
    (now user_id : ℕ) (stats : List UserStat)
    → total_starts (bump_user_start now user_id stats) ≡ total_starts stats + 1
unfolding total_starts bump_user_start
bump_user_start-total_starts now user_id [] = omega arith
bump_user_start-total_starts now user_id (s ∷ ss) =
    ground (arith, bump_user_start-total_starts now user_id ss)

-- The numbers of VIPs, users and starts stay distinct.
pub insert_vip-Distinct :
    (now user_id : ℕ) (vips : List VipUser)
    → Distinct (get_vip_ids vips)
    → Distinct (get_vip_ids (insert_vip now user_id vips))
unfolding insert_vip get_vip_ids
insert_vip-Distinct now user_id vips d = elim (Bool-cases (member user_id (get_vip_ids vips))) [
  | inl e ↦ rw (e, insert_vip) d
  | inr e ↦ rw (e, insert_vip) (Distinct-added (λ (v : VipUser). v.user_id) vips _ d e)
]

pub delete_vip-Distinct :
    (user_id : ℕ) (vips : List VipUser)
    → Distinct (get_vip_ids vips)
    → Distinct (get_vip_ids (delete_vip user_id vips).1)
unfolding delete_vip get_vip_ids
delete_vip-Distinct user_id vips d = elim (Bool-cases (member user_id (get_vip_ids vips))) [
  | inl e ↦ rw (e, delete_vip) (Distinct-map-filter_where (λ (v : VipUser). v.user_id) _ vips d)
  | inr e ↦ rw (e, delete_vip) d
]

-- An upsert adds its number at most.
upsert_user-member :
    (now user_id k : ℕ) (first_name username : Option Text) (users : List User)
    → member k (get_all_user_ids users) ≡ false
    → (k == user_id) ≡ false
    → member k (get_all_user_ids (upsert_user now user_id first_name username users)) ≡ false
unfolding upsert_user get_all_user_ids member
upsert_user-member now user_id k first_name username [] h n = ground arith
upsert_user-member now user_id k first_name username (u ∷ us) h n =
    ground (arith, upsert_user-member now user_id k first_name username us)

pub upsert_user-Distinct :
    (now user_id : ℕ) (first_name username : Option Text) (users : List User)
    → Distinct (get_all_user_ids users)
    → Distinct (get_all_user_ids (upsert_user now user_id first_name username users))
unfolding upsert_user get_all_user_ids
upsert_user-Distinct now user_id first_name username [] d = (unfold member in refl, tt)
upsert_user-Distinct now user_id first_name username (u ∷ us) d =
    elim (Bool-cases (u.user_id == user_id)) [
      | inl h ↦ rw h d
      | inr h ↦ rw h (
        upsert_user-member now user_id u.user_id first_name username us d.0 h,
        upsert_user-Distinct now user_id first_name username us d.1,
      )
    ]
