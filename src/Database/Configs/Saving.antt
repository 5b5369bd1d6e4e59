-- ===== src/Database/Configs/Saving.antt =====
-- What `save_config` and `batch_save_configs` leave in the table.
use mathlib.Core.List.{append_assoc, append-nil}
use config_manager.Prelude.{
  disjoint_sym, ◌==◌, member-map-filter_where, filter_where_cong, All-member-map, ℕ, ◌≡◌, refl, sym,
  ◌∙◌, true, false, not, ◌||◌, Option, none, some, List, [], ◌∷◌, ◌++◌, map, length, member,
  Distinct, Distinct-append, member-append, Distinct-map-filter_where, filter_where, find_where,
  All, All-weaken, arith, ==_iff, Bool-cases, inl, inr,
}
use config_manager.Prelude.Text.{Text, text_eq}
use config_manager.Database.Models.{ProcessedConfig}
use config_manager.Database.Configs.{
  ConfigTable, Validated, row_hash, item_hash, hashes, config_exists, new_row, add_row, add_rows,
  store_new, batch_exists_hashes, batch_save_configs,
}

-- the items whose hash the table does not have
abbrev pub unseen : ConfigTable → List Validated → List Validated
unseen t items = filter_where (λ i. not (member (item_hash i) (hashes t))) items

map-append_hash :
    (rs ss : List ProcessedConfig) → map row_hash (rs ++ ss) ≡ map row_hash rs ++ map row_hash ss
map-append_hash [] ss = refl
map-append_hash (r ∷ rs) ss = rw (map-append_hash rs ss)

hashes-add_rows :
    (now : ℕ) (source : Option Text) (items : List Validated) (t : ConfigTable)
    → hashes (add_rows now source items t) ≡ hashes t ++ map item_hash items
unfolding add_rows add_row new_row
hashes-add_rows now source [] t = sym (append-nil (hashes t))
hashes-add_rows now source (c ∷ cs) t = rw (
  hashes-add_rows now source cs (add_row now c source true t),
  map-append_hash t.rows (new_row t.next_id now c source true ∷ []),
  append_assoc,
)

member-existing :
    (h : Text) (asked : List Text) (rs : List ProcessedConfig)
    → member h asked ≡ true
    → member h (map row_hash (filter_where (λ r. member (row_hash r) asked) rs))
      ≡ member h (map row_hash rs)
unfolding filter_where member
member-existing h asked [] e = refl
member-existing h asked (r ∷ rs) e =
    ground (arith, member-existing h asked rs e, ==_iff h (row_hash r))

batch-unseen :
    (t : ConfigTable) (items : List Validated)
    → filter_where
        (λ i. not (member (item_hash i) (batch_exists_hashes t (map item_hash items))))
        items
      ≡ unseen t items
unfolding batch_exists_hashes
batch-unseen t [] = unfold filter_where in refl
batch-unseen t (c ∷ cs) =
    let asked = map item_hash (c ∷ cs) in
    filter_where_cong _ _ (c ∷ cs) (
      All-weaken (λ i. member (item_hash i) asked ≡ true) _
        (λ i h. rw (member-existing (item_hash i) asked t.rows h)) (c ∷ cs)
        (All-member-map item_hash (c ∷ cs)))

stored :
    (now : ℕ) (source : Option Text) (xs : List Validated) (t : ConfigTable)
    → store_new now source xs t ≡ ((length xs, xs), add_rows now source xs t)
unfolding store_new add_rows
stored now source [] t = refl
stored now source (x ∷ xs) t = refl

pub batch_save_configs-eq :
    (now : ℕ) (source : Option Text) (items : List Validated) (t : ConfigTable)
    → batch_save_configs now source items t
      ≡ ((length (unseen t items), unseen t items), add_rows now source (unseen t items) t)
unfolding batch_save_configs add_rows
batch_save_configs-eq now source [] t = unfold filter_where in refl
batch_save_configs-eq now source (c ∷ cs) t =
    rw (batch-unseen t (c ∷ cs)) (stored now source (unseen t (c ∷ cs)) t)

-- The call returns the items whose hash the table did not have, in their order, and how many they
-- are. Exactly their hashes are added to the table, after those that it had.
pub batch_save_configs-unseen :
    (now : ℕ) (source : Option Text) (items : List Validated) (t : ConfigTable)
    → let ((count, new), after) = batch_save_configs now source items t in
      (count ≡ length new)
      × ((new ≡ unseen t items) × (hashes after ≡ hashes t ++ map item_hash (unseen t items)))
batch_save_configs-unseen now source items t =
    rw (batch_save_configs-eq now source items t)
      (refl, (refl, hashes-add_rows now source (unseen t items) t))

found :
    (h : Text) (rs : List ProcessedConfig)
    → elim (find_where (λ r. row_hash r == h) rs) [ none ↦ false | some _ ↦ true ]
      ≡ member h (map row_hash rs)
unfolding find_where member
found h [] = refl
found h (r ∷ rs) = ground (arith, found h rs, ==_iff h (row_hash r), ==_iff (row_hash r) h)

pub config_exists-member : (h : Text) (t : ConfigTable) → config_exists h t ≡ member h (hashes t)
unfolding config_exists
config_exists-member h t = found h t.rows

member-kept :
    (known : List Text) (h : Text) (items : List Validated)
    → member h (map item_hash items) ≡ true
    → (member h known
        || member h (map item_hash (filter_where (λ i. not (member (item_hash i) known)) items)))
      ≡ true
unfolding filter_where member
member-kept known h [] e = cc
member-kept known h (c ∷ cs) e = ground (arith, member-kept known h cs, ==_iff h (item_hash c))

member-unseen :
    (h : Text) (items : List Validated) (t : ConfigTable)
    → member h (hashes t ++ map item_hash (unseen t items))
      ≡ (member h (hashes t) || member h (map item_hash items))
member-unseen h items t = ground (
  arith,
  member-append h (hashes t) (map item_hash (unseen t items)),
  member-kept (hashes t) h items,
  member-map-filter_where item_hash (λ i. not (member (item_hash i) (hashes t))) h items,
)

-- After the call a hash is stored if and only if it was stored before or an item has it.
pub config_exists-batch_save_configs :
    (now : ℕ) (source : Option Text) (items : List Validated) (t : ConfigTable) (h : Text)
    → config_exists h (batch_save_configs now source items t).1
      ≡ (config_exists h t || member h (map item_hash items))
config_exists-batch_save_configs now source items t h =
    rw
      (
        config_exists-member h (batch_save_configs now source items t).1,
        config_exists-member h t,
        batch_save_configs-eq now source items t,
        hashes-add_rows now source (unseen t items) t,
      )
      (member-unseen h items t)

unseen-none :
    (items : List Validated) (t : ConfigTable)
    → All (λ i. member (item_hash i) (hashes t) ≡ true) items
    → unseen t items ≡ []
unfolding filter_where
unseen-none [] t h = refl
unseen-none (c ∷ cs) t h = rw h.0 (unseen-none cs t h.1)

-- A batch that was saved is not saved again: the second call, at any later time and for any source,
-- returns no item and leaves the table as it is.
pub batch_save_configs-again :
    (now later : ℕ) (source other : Option Text) (items : List Validated) (t : ConfigTable)
    → let after = (batch_save_configs now source items t).1 in
      batch_save_configs later other items after ≡ ((0, []), after)
batch_save_configs-again now later source other items t =
    let after = (batch_save_configs now source items t).1 in
    let all_in : All (λ i. member (item_hash i) (hashes after) ≡ true) items =
      All-weaken (λ i. member (item_hash i) (map item_hash items) ≡ true) _
        (λ i h. ground (
          arith,
          config_exists-batch_save_configs now source items t (item_hash i),
          config_exists-member (item_hash i) after,
          h,
        ))
        items (All-member-map item_hash items) in
    batch_save_configs-eq later other items after
    ∙ rw (unseen-none items after all_in) (unfold add_rows in refl)

unseen-fresh :
    (known : List Text) (items : List Validated)
    → All
        (λ h. member h known ≡ false)
        (map item_hash (filter_where (λ i. not (member (item_hash i) known)) items))
unfolding filter_where
unseen-fresh known [] = tt
unseen-fresh known (c ∷ cs) = elim (Bool-cases (member (item_hash c) known)) [
  | inl e ↦ rw e (unseen-fresh known cs)
  | inr e ↦ rw e (e, unseen-fresh known cs)
]

-- If no two rows have one hash and no two items of the batch do, then no two rows do afterwards.
pub batch_save_configs-Distinct :
    (now : ℕ) (source : Option Text) (items : List Validated) (t : ConfigTable)
    → Distinct (hashes t)
    → Distinct (map item_hash items)
    → Distinct (hashes (batch_save_configs now source items t).1)
batch_save_configs-Distinct now source items t dt di =
    rw (batch_save_configs-eq now source items t, hashes-add_rows now source (unseen t items) t)
      (Distinct-append (hashes t) (map item_hash (unseen t items)) dt
        (Distinct-map-filter_where item_hash _ items di)
        (disjoint_sym (hashes t) _ (unseen-fresh (hashes t) items)))
