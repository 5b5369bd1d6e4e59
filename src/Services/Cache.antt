-- ===== src/Services/Cache.antt =====
-- services/cache_service.py: the cache, which keeps values and their times of expiry in two
-- dictionaries. Redis is a parameter; the clock counts in a unit of the event loop.
pub mod Laws
use config_manager.Prelude.{
  ℕ, ◌+◌, Bool, true, false, Option, none, some, List, [], ◌∷◌, ◌++◌, ltb, if◌then◌else◌, ◌==◌,
  nat_beq,
}
use config_manager.Prelude.Text.{Text, text_eq, codes}

-- a dictionary from texts, as a list
abbrev pub Dict {ℓ} : Type ℓ → Type ℓ
Dict A = List (Text × A)

module _ {ℓ} {A : Type ℓ} where
  -- `d.get(key)`
  unfoldable pub lookup : Text → Dict A → Option A
  lookup key [] = none
  lookup key ((k, v) ∷ rest) = if k == key then some v else lookup key rest

  -- `d[key] = value`
  unfoldable pub assign : Text → A → Dict A → Dict A
  assign key value [] = (key, value) ∷ []
  assign key value ((k, v) ∷ rest) =
      if k == key then (k, value) ∷ rest else (k, v) ∷ assign key value rest

  -- `del d[key]`; `none` is a KeyError.
  unfoldable pub remove : Text → Dict A → Option (Dict A)
  remove key [] = none
  remove key ((k, v) ∷ rest) =
      let removed = remove key rest in
      if k == key then some rest else elim removed [ none ↦ none | some d ↦ some ((k, v) ∷ d) ]

-- `_local_cache` and `_local_cache_ttl`
pub record Cache {ℓ} (A : Type ℓ) : Type ℓ where
  pub values : Dict A
  pub expiry : Dict ℕ

abbrev pub default_ttl : ℕ
default_ttl = 3600

-- `_get_cache_key`
unfoldable pub cache_key : Text → Text
cache_key key = codes "config_manager:" ++ key

-- `ttl or self._default_ttl`
unfoldable pub seconds_of : Option ℕ → ℕ
seconds_of none = default_ttl
seconds_of (some t) = if nat_beq t 0 then default_ttl else t

-- `self._local_cache_ttl.get(cache_key, 0)`
unfoldable pub until_of : Option ℕ → ℕ
until_of none = 0
until_of (some until) = until

module _ {ℓ} {A : Type ℓ} where
  -- `del` in both dictionaries
  unfoldable pub evict : Text → Cache A → Option (Cache A)
  evict k c = elim (remove k c.values) [
    | none ↦ none
    | some values ↦ elim (remove k c.expiry) [
      | none ↦ none
      | some expiry ↦ some (record { values = values; expiry = expiry })
    ]
  ]

  -- the entries of both dictionaries
  unfoldable pub write : Text → A → ℕ → Cache A → Cache A
  write k value until c = record {
    values = assign k value c.values;
    expiry = assign k until c.expiry;
  }

  -- The local part of `get` and `exists`: the value if it is there and has not expired, and the cache
  -- without it if it has. `none` is a KeyError.
  unfoldable pub look : ℕ → Text → Cache A → Option (Option A × Cache A)
  unfolding evict until_of
  look now k c = elim (lookup k c.values) [
    | none ↦ some (none, c)
    | some value ↦
        let gone = evict k c in
        if ltb now (until_of (lookup k c.expiry))
        then some (some value, c)
        else elim gone [ none ↦ none | some c' ↦ some (none, c') ]
  ]

  -- The rest of `get`; `remote` is what Redis answers, `none` if it is not connected or fails. A value
  -- from Redis is kept for the default time.
  unfoldable pub answer : ℕ → Option A → Text → A → Option A → Cache A → Option (A × Cache A)
  unfolding write
  answer now remote key default (some value) c = some (value, c)
  answer now none key default none c = some (default, c)
  answer now (some given) key default none c =
      some (given, write (cache_key key) given (now + default_ttl) c)

  -- `get`
  unfoldable pub get : ℕ → Option A → Text → A → Cache A → Option (A × Cache A)
  unfolding look answer
  get now remote key default c = elim (look now (cache_key key) c) [
    | none ↦ none
    | some (found, c') ↦ answer now remote key default found c'
  ]

  -- `set`
  unfoldable pub set : ℕ → Text → A → Option ℕ → Cache A → Cache A
  unfolding write seconds_of
  set now key value ttl c = write (cache_key key) value (now + seconds_of ttl) c

  -- `delete`
  unfoldable pub delete : Text → Cache A → Option (Cache A)
  unfolding evict
  delete key c = elim (lookup (cache_key key) c.values) [
    | none ↦ some c
    | some v ↦ evict (cache_key key) c
  ]

  unfoldable pub was_there : Bool → Option A → Bool
  was_there remote none = remote
  was_there remote (some value) = true

  -- `exists`; `remote` is whether Redis answers "true".
  unfoldable pub exists : ℕ → Bool → Text → Cache A → Option (Bool × Cache A)
  unfolding look was_there
  exists now remote key c = elim (look now (cache_key key) c) [
    | none ↦ none
    | some (found, c') ↦ some (was_there remote found, c')
  ]

  -- `clear`
  unfoldable pub clear : Cache A → Cache A
  clear c = record { values = []; expiry = [] }
