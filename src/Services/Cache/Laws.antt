-- ===== src/Services/Cache/Laws.antt =====
-- The keys of the cache's two dictionaries, and a value that is set and read.
use config_manager.Prelude.{
  lt→ltb, ℕ, ◌+◌, ◌<◌, ◌≡◌, refl, inl, inr, Bool, true, false, Option, none, some, List, [], ◌∷◌,
  ltb, ◌==◌, ==_refl, Bool-cases, Option-cases, arith, ap, sym, ◌∙◌,
}
use config_manager.Prelude.Text.{Text, text_eq}
use config_manager.Services.Cache.{
  Dict, lookup, assign, remove, Cache, cache_key, evict, write, look, get, set, seconds_of,
  until_of, was_there, answer, default_ttl, delete, exists, clear,
}

module _ {ℓ} {A : Type ℓ} where
  abbrev pub keys : Dict A → List Text
  keys [] = []
  keys ((k, v) ∷ rest) = k ∷ keys rest

  lookup-assign :
      (key k : Text) (value : A) (d : Dict A) → lookup key (assign key value d) ≡ some value
  unfolding lookup assign
  lookup-assign key k value [] = rw (==_refl key)
  lookup-assign key k value ((j, v) ∷ rest) = ground (arith, lookup-assign key k value rest)

module _ {ℓ} {A : Type ℓ} where
  assign-keys :
      (key : Text) (value : A) (until : ℕ) (d : Dict A) (e : Dict ℕ)
      → keys d ≡ keys e
      → keys (assign key value d) ≡ keys (assign key until e)
  unfolding assign
  assign-keys key value until [] [] h = refl
  assign-keys key value until [] ((j, u) ∷ e) h = cc
  assign-keys key value until ((k, v) ∷ d) [] h = cc
  assign-keys key value until ((k, v) ∷ d) ((j, u) ∷ e) h =
      let kj : j ≡ k = cc in
      let rest : keys d ≡ keys e = cc in
      elim (Bool-cases (k == key)) [
        | inl b ↦ rw (kj, b) (ap (λ (r : List Text). k ∷ r) rest)
        | inr b ↦ rw (kj, b) (ap (λ (r : List Text). k ∷ r) (assign-keys key value until d e rest))
      ]

  remove-keys :
      (key : Text) (v : A) (d : Dict A) (e : Dict ℕ)
      → keys d ≡ keys e
      → lookup key d ≡ some v
      → (d' : Dict A) × ((e' : Dict ℕ) × ((remove key d ≡ some d')
            × ((remove key e ≡ some e') × (keys d' ≡ keys e'))))
  unfolding lookup remove
  remove-keys key v [] e h f = cc
  remove-keys key v ((k, w) ∷ d) [] h f = cc
  remove-keys key v ((k, w) ∷ d) ((j, u) ∷ e) h f =
      let kj : j ≡ k = cc in
      let rest : keys d ≡ keys e = cc in
      elim (Bool-cases (k == key)) [
        | inl b ↦
            let bj : (j == key) ≡ true = ap (λ (x : Text). x == key) kj ∙ b in
            (d, (e, (rw b, (rw bj, rest))))
        | inr b ↦
            let f' : lookup key d ≡ some v = rw (sym f, b) in
            let (d', (e', (rd, (re, same)))) = remove-keys key v d e rest f' in
            let bj : (j == key) ≡ false = ap (λ (x : Text). x == key) kj ∙ b in
            ((k, w) ∷ d', ((j, u) ∷ e', (rw (b, rd), (rw (bj, re), cc (kj, same)))))
      ]

-- Both dictionaries have the same keys, in the same order.
abbrev pub WellFormed {ℓ} : {A : Type ℓ} → Cache A → Type 0
WellFormed c = keys c.values ≡ keys c.expiry

-- A step that gives a value and a well-formed cache.
abbrev pub Runs {ℓ κ} : {A : Type ℓ} {B : Type κ} → Option (B × Cache A) → Type (ℓ ⊔ κ)
Runs {A = A} {B = B} r = (b : B) × ((c : Cache A) × ((r ≡ some (b, c)) × WellFormed c))

module _ {ℓ} {A : Type ℓ} where
  evict-WellFormed :
      (k : Text) (v : A) (c : Cache A)
      → WellFormed c
      → lookup k c.values ≡ some v
      → (c' : Cache A) × ((evict k c ≡ some c') × WellFormed c')
  unfolding evict
  evict-WellFormed k v c w f =
      let (d, (e, (rd, (re, same)))) = remove-keys k v c.values c.expiry w f in
      (record { values = d; expiry = e }, (rw (rd, re, evict), same))

  look-Runs : (now : ℕ) (k : Text) (c : Cache A) → WellFormed c → Runs (look now k c)
  unfolding look
  look-Runs now k c w = elim (Option-cases (lookup k c.values)) [
    | inl none_there ↦ (none, (c, (rw (none_there, look), w)))
    | inr (v, there) ↦ elim (Bool-cases (ltb now (until_of (lookup k c.expiry)))) [
      | inl fresh ↦ (some v, (c, (rw (there, fresh, look), w)))
      | inr stale ↦
          let (c', (e, w')) = evict-WellFormed k v c w there in
          (none, (c', (rw (there, stale, e, look), w')))
    ]
  ]

  answered :
      (now : ℕ) (remote : Option A) (key : Text) (default : A) (c : Cache A) (found : Option A)
      → WellFormed c
      → Runs (answer now remote key default found c)
  unfolding answer write
  answered now remote key default c (some value) w = (value, (c, (refl, w)))
  answered now none key default c none w = (default, (c, (refl, w)))
  answered now (some given) key default c none w = (
    given,
    (
      write (cache_key key) given (now + default_ttl) c,
      (refl, assign-keys (cache_key key) given (now + default_ttl) c.values c.expiry w),
    ),
  )

  get-Runs :
      (now : ℕ) (remote : Option A) (key : Text) (default : A) (c : Cache A)
      → WellFormed c
      → Runs (get now remote key default c)
  unfolding get
  get-Runs now remote key default c w =
      let (found, (c', (e, w'))) = look-Runs now (cache_key key) c w in
      rw (e, get) (answered now remote key default c' found w')

  look-set :
      (now later : ℕ) (key : Text) (value : A) (ttl : Option ℕ) (c : Cache A)
      → later < now + seconds_of ttl
      → look later (cache_key key) (set now key value ttl c)
        ≡ some (some value, set now key value ttl c)
  unfolding set write until_of look assign
  look-set now later key value ttl c h =
      let kept = lookup-assign (cache_key key) (cache_key key) value c.values in
      let due = lookup-assign (cache_key key) (cache_key key) (now + seconds_of ttl) c.expiry in
      rw (kept, due, lt→ltb later (now + seconds_of ttl) h, look)

  delete-WellFormed :
      (key : Text) (c : Cache A)
      → WellFormed c
      → (c' : Cache A) × ((delete key c ≡ some c') × WellFormed c')
  unfolding delete
  delete-WellFormed key c w = elim (Option-cases (lookup (cache_key key) c.values)) [
    | inl h ↦ (c, (rw (h, delete), w))
    | inr (v, h) ↦
        let (c', (e, w')) = evict-WellFormed (cache_key key) v c w h in
        (c', (rw (h, e, delete), w'))
  ]

  exists-Runs :
      (now : ℕ) (remote : Bool) (key : Text) (c : Cache A)
      → WellFormed c
      → Runs (exists now remote key c)
  unfolding exists
  exists-Runs now remote key c w =
      let (found, (c', (e, w'))) = look-Runs now (cache_key key) c w in
      (was_there remote found, (c', (rw (e, exists), w')))

  -- In a cache whose two dictionaries have the same keys, no operation raises a KeyError, whatever the
  -- time and the answer of Redis, and each leaves such a cache.
  pub cache-WellFormed :
      (now : ℕ) (key : Text) (c : Cache A)
      → WellFormed c
      → ((remote : Option A) (default : A) → Runs (get now remote key default c))
        × (((remote : Bool) → Runs (exists now remote key c))
            × (((value : A) (ttl : Option ℕ) → WellFormed (set now key value ttl c))
                × (((c' : Cache A) × ((delete key c ≡ some c') × WellFormed c'))
                    × WellFormed (clear c))))
  unfolding set write clear
  cache-WellFormed now key c w = (
    λ remote default. get-Runs now remote key default c w,
    (
      λ remote. exists-Runs now remote key c w,
      (
        λ value ttl. assign-keys (cache_key key) value (now + seconds_of ttl) c.values c.expiry w,
        (delete-WellFormed key c w, refl),
      ),
    ),
  )

  -- What was set is given back until its time is over, whatever the default and the answer of Redis.
  -- The time is `ttl` seconds, or the default of an hour for none and for 0.
  pub get-set :
      (now later : ℕ) (key : Text) (value default : A) (ttl : Option ℕ) (remote : Option A)
      (c : Cache A)
      → later < now + seconds_of ttl
      → get later remote key default (set now key value ttl c)
        ≡ some (value, set now key value ttl c)
  unfolding get answer
  get-set now later key value default ttl remote c h =
      rw (look-set now later key value ttl c h, get)
