-- ===== src/Validator/Changes.antt =====
-- What one event does to a validation and to the validator.
use config_manager.Prelude.{
  Bool, ◌≡◌, ◌≢◌, refl, ◌⊎◌, inl, inr, true, false, Option, none, some, ◌∷◌, member, arith, ◌==◌,
  ==_iff, Bool-cases,
}
use config_manager.Prelude.Text.{Text, text_eq, codes}
use config_manager.Utils.Codec.{Value, null, str, scalar, container, truthy}
use config_manager.Utils.Host.{extract_host}
use config_manager.Utils.Protocol.{detect_protocol, unknown_name}
use config_manager.Validator.{
  Context, Validator, Task, ready, fetching, returned, raised, hash_of, accepted, finish, look_up,
  locate, begin, cached, resume, Event, start, arrived, advance,
}

abbrev pub config_of : Task → Text
config_of (ready c) = c
config_of (fetching c h) = c
config_of (returned c o) = c
config_of (raised c) = c

-- a task that has a protocol and has not returned
abbrev pub Live : Context → Task → Type 0
Live ctx (ready c) = detect_protocol ctx.unicode c ≢ unknown_name
Live ctx (fetching c h) = detect_protocol ctx.unicode c ≢ unknown_name
Live ctx t = false ≡ true

-- What waits for its country has a protocol.
abbrev pub Waiting : Context → Task → Type 0
Waiting ctx (fetching c h) = detect_protocol ctx.unicode c ≢ unknown_name
Waiting ctx t = Unit

-- The host of a config is a list or an object, which is no key of a dictionary.
abbrev pub Unhashable : Context → Text → Type 0
Unhashable ctx c = (b : Bool) × ((x : Text) × (extract_host ctx.codec c ≡ some (container b x)))

-- The effects of an event on a task, with what is left.
pub data Change (ctx : Context) (v : Validator) (t : Task) (r : Task × Validator) : Type 0 where
  unchanged : r ≡ (t, v) → Change ctx v t r
  rejects :
      (c : Text)
      → t ≡ ready c
      → ((detect_protocol ctx.unicode c ≡ unknown_name)
          ⊎ (member (hash_of ctx c) v.seen_hashes ≡ true))
      → r ≡ (returned c none, v)
      → Change ctx v t r
  raises : (c : Text) → t ≡ ready c → Unhashable ctx c → r ≡ (raised c, v) → Change ctx v t r
  waits :
      (c : Text) (host : Value)
      → t ≡ ready c
      → detect_protocol ctx.unicode c ≢ unknown_name
      → r ≡ (fetching c host, v)
      → Change ctx v t r
  accepts :
      (c : Text) (country : Text)
      → config_of t ≡ c
      → Live ctx t
      → r.0 ≡ returned c (some (accepted ctx c country))
      → r.1.seen_hashes ≡ hash_of ctx c ∷ v.seen_hashes
      → Change ctx v t r

module _ (ctx : Context) (v : Validator) where
  finish-Change :
      (t : Task) (country : Text) → Live ctx t → Change ctx v t (finish ctx v (config_of t) country)
  unfolding finish
  finish-Change t country h = accepts (config_of t) country refl h refl refl

  module _ (c : Text) (h : detect_protocol ctx.unicode c ≢ unknown_name) where
    found :
        (o : Option Text) (host : Value)
        → Change ctx v
            (ready c)
            (elim o [ none ↦ (fetching c host, v) | some country ↦ finish ctx v c country ])
    found none host = waits c host refl h refl
    found (some country) host = finish-Change (ready c) country h

    look_up-Change :
        (host : Value)
        → extract_host ctx.codec c ≡ some host
        → Change ctx v (ready c) (look_up ctx v c host)
    unfolding look_up
    look_up-Change (container b t) e = raises c refl (b, (t, e)) refl
    look_up-Change null e = found (cached ctx null v.country_cache) null
    look_up-Change (str t) e = found (cached ctx (str t) v.country_cache) (str t)
    look_up-Change (scalar b t) e = found (cached ctx (scalar b t) v.country_cache) (scalar b t)

    locate-Change :
        (host : Option Value)
        → extract_host ctx.codec c ≡ host
        → Change ctx v (ready c) (locate ctx v c host)
    unfolding locate
    locate-Change none eh = finish-Change (ready c) (codes "UN") h
    locate-Change (some host) eh = elim (Bool-cases (truthy host)) [
      | inl e ↦ rw e (look_up-Change host eh)
      | inr e ↦ rw e (finish-Change (ready c) (codes "UN") h)
    ]

  begin-Change : (c : Text) → Change ctx v (ready c) (begin ctx v c)
  unfolding begin
  begin-Change c = elim (Bool-cases (detect_protocol ctx.unicode c == unknown_name)) [
    | inl e ↦
        rw e (rejects c refl (inl ((==_iff (detect_protocol ctx.unicode c) unknown_name).0 e)) refl)
    | inr e ↦ elim (Bool-cases (member (hash_of ctx c) v.seen_hashes)) [
      | inl m ↦ rw (e, m) (rejects c refl (inr m) refl)
      | inr m ↦
          rw (e, m)
            (locate-Change c
              (λ k. ground (arith, ==_iff (detect_protocol ctx.unicode c) unknown_name))
              (extract_host ctx.codec c) refl)
    ]
  ]

pub advance-Change :
    (ctx : Context) (v : Validator) (e : Event) (t : Task)
    → Waiting ctx t
    → Change ctx v t (advance ctx v e t)
unfolding advance resume finish
advance-Change ctx v start (ready c) w = begin-Change ctx v c
advance-Change ctx v (arrived country) (fetching c host) w = accepts c country refl w refl refl
advance-Change ctx v start (fetching c host) w = unchanged refl
advance-Change ctx v start (returned c o) w = unchanged refl
advance-Change ctx v start (raised c) w = unchanged refl
advance-Change ctx v (arrived country) (ready c) w = unchanged refl
advance-Change ctx v (arrived country) (returned c o) w = unchanged refl
advance-Change ctx v (arrived country) (raised c) w = unchanged refl
