-- ===== src/Database/Users.antt =====
-- database/crud.py, the operations on users, their statistics, administrators and VIPs. A table is
-- the list of its rows; `session.get` looks a row up by its primary key, the number of the user.
pub mod Laws
use config_manager.Prelude.{
  nat_eq, ℕ, ◌+◌, Bool, true, false, not, Option, none, some, List, [], ◌∷◌, ◌++◌, map, length,
  member, take, ltb, filter_where, ◌==◌, if◌then◌else◌,
}
use config_manager.Prelude.Text.{Text}
use config_manager.Prelude.Sort.{sort_desc}
use config_manager.Database.Models.{User, Admin, VipUser, UserStat}

-- `upsert_user`
unfoldable pub upsert_user : ℕ → ℕ → Option Text → Option Text → List User → List User
upsert_user now user_id first_name username [] =
    record { user_id = user_id; first_name = first_name; username = username; joined_at = now } ∷ []
upsert_user now user_id first_name username (u ∷ us) =
    if u.user_id == user_id
    then record {
      user_id = u.user_id;
      first_name = first_name;
      username = username;
      joined_at = u.joined_at;
    }
      ∷ us
    else u ∷ upsert_user now user_id first_name username us

unfoldable pub get_all_user_ids : List User → List ℕ
get_all_user_ids users = map (λ (u : User). u.user_id) users

unfoldable pub count_users : List User → ℕ
count_users users = length users

-- `bump_user_start`
unfoldable pub bump_user_start : ℕ → ℕ → List UserStat → List UserStat
bump_user_start now user_id [] =
    record { user_id = user_id; start_count = 1; last_activity = some now } ∷ []
bump_user_start now user_id (s ∷ ss) =
    if s.user_id == user_id
    then record { user_id = s.user_id; start_count = s.start_count + 1; last_activity = some now }
      ∷ ss
    else s ∷ bump_user_start now user_id ss

-- `total_starts`: the sum, 0 for an empty table
unfoldable pub total_starts : List UserStat → ℕ
total_starts [] = 0
total_starts (s ∷ ss) = s.start_count + total_starts ss

-- Whether a column of type BigInteger, of 64 bits with a sign, can hold a number, which is given by its code (user_key): the
-- numbers from -2^63 to 2^63 - 1 have the codes below 2^64. A query with another number raises an exception.
unfoldable pub fits : ℕ → Bool
fits user_id = ltb user_id 18446744073709551616

unfoldable pub get_admin_ids : List Admin → List ℕ
get_admin_ids admins = map (λ (a : Admin). a.user_id) admins

-- the row that `add_admin` adds for a number that the column can hold
unfoldable pub insert_admin : ℕ → ℕ → ℕ → List Admin → Bool × List Admin
unfolding get_admin_ids
insert_admin now user_id added_by admins =
    if member user_id (get_admin_ids admins) then (false, admins) else (
      true,
      admins ++ record { user_id = user_id; added_at = now; added_by = some added_by } ∷ [],
    )

-- what `remove_admin` does for such a number
unfoldable pub delete_admin : ℕ → List Admin → Bool × List Admin
unfolding get_admin_ids
delete_admin user_id admins =
    if member user_id (get_admin_ids admins)
    then (true, filter_where (λ (a : Admin). not (a.user_id == user_id)) admins)
    else (false, admins)

-- `add_admin` and `remove_admin`; `none` is the exception for a number that the column cannot hold.
unfoldable pub add_admin : ℕ → ℕ → ℕ → List Admin → Option (Bool × List Admin)
unfolding fits insert_admin
add_admin now user_id added_by admins =
    if fits user_id then some (insert_admin now user_id added_by admins) else none

unfoldable pub remove_admin : ℕ → List Admin → Option (Bool × List Admin)
unfolding fits delete_admin
remove_admin user_id admins = if fits user_id then some (delete_admin user_id admins) else none

-- `list_admins_with_info`
unfoldable pub list_admins_with_info : List Admin → List Admin
list_admins_with_info admins = sort_desc (λ (a : Admin). a.added_at) admins

unfoldable pub get_vip_ids : List VipUser → List ℕ
get_vip_ids vips = map (λ (v : VipUser). v.user_id) vips

-- what `add_vip` does for such a number
unfoldable pub insert_vip : ℕ → ℕ → List VipUser → List VipUser
unfolding get_vip_ids
insert_vip now user_id vips =
    if member user_id (get_vip_ids vips)
    then vips
    else vips ++ record { user_id = user_id; added_at = now } ∷ []

-- what `remove_vip` does for such a number
unfoldable pub delete_vip : ℕ → List VipUser → Bool × List VipUser
unfolding get_vip_ids
delete_vip user_id vips =
    if member user_id (get_vip_ids vips)
    then (true, filter_where (λ (v : VipUser). not (v.user_id == user_id)) vips)
    else (false, vips)

-- `add_vip` and `remove_vip`; `none` is the same exception.
unfoldable pub add_vip : ℕ → ℕ → List VipUser → Option (List VipUser)
unfolding fits insert_vip
add_vip now user_id vips = if fits user_id then some (insert_vip now user_id vips) else none

unfoldable pub remove_vip : ℕ → List VipUser → Option (Bool × List VipUser)
unfolding fits delete_vip
remove_vip user_id vips = if fits user_id then some (delete_vip user_id vips) else none

-- `list_vips`
unfoldable pub list_vips : List VipUser → ℕ → List VipUser
list_vips vips limit = take limit (sort_desc (λ (v : VipUser). v.added_at) vips)
