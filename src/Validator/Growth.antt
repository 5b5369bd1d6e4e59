-- ===== src/Validator/Growth.antt =====
-- What one event does to the tasks of a batch, and how the hashes seen and returned grow.
use config_manager.Prelude.{
  ℕ, zero, suc, ◌≡◌, ◌≢◌, refl, sym, ◌⊎◌, inl, inr, true, ◌||◌, none, some, List, [], ◌∷◌, map,
  member, arith, ◌==◌, All, All-weaken,
}
use mathlib.Core.Path.{subst}
use config_manager.Prelude.Text.{Text, text_eq}
use config_manager.Utils.Protocol.{detect_protocol, unknown_name}
use config_manager.Database.Configs.{item_hash}
use config_manager.Validator.{
  Context, Validator, Task, ready, fetching, returned, raised, hash_of, accepted, Event, advance,
  advance_at, results,
}
use config_manager.Validator.Changes.{
  Unhashable, config_of, Live, Waiting, Change, unchanged, rejects, raises, waits, accepts,
  advance-Change,
}

-- What holds of a task at any time, given the hashes seen so far: a dictionary is that of the task's
-- config and some country; who returned None has no known protocol, or a hash
-- that was seen; and an exception ends the validation of a config whose host is no key.
abbrev pub Good : Context → List Text → Task → Type 0
Good ctx seen (ready c) = Unit
Good ctx seen (fetching c h) = detect_protocol ctx.unicode c ≢ unknown_name
Good ctx seen (returned c none) =
    (detect_protocol ctx.unicode c ≡ unknown_name) ⊎ (member (hash_of ctx c) seen ≡ true)
Good ctx seen (returned c (some r)) =
    (r ≡ accepted ctx c r.country_code) × (detect_protocol ctx.unicode c ≢ unknown_name)
Good ctx seen (raised c) = Unhashable ctx c

-- the hashes that the tasks have returned
abbrev pub result_hashes : List Task → List Text
result_hashes ts = map item_hash (results ts)

-- The hashes seen and the hashes returned grow together, by one hash or none.
pub data Grown (seen seen' found found' : List Text) : Type 0 where
  still :
      seen' ≡ seen → ((h : Text) → member h found' ≡ member h found) → Grown seen seen' found found'
  grew :
      (k : Text)
      → seen' ≡ k ∷ seen
      → ((h : Text) → member h found' ≡ (h == k || member h found))
      → Grown seen seen' found found'

Good-Waiting : (ctx : Context) (seen : List Text) (t : Task) → Good ctx seen t → Waiting ctx t
Good-Waiting ctx seen (ready c) g = tt
Good-Waiting ctx seen (fetching c h) g = g
Good-Waiting ctx seen (returned c o) g = tt
Good-Waiting ctx seen (raised c) g = tt

Good-cons :
    (ctx : Context) (k : Text) (seen : List Text) (t : Task)
    → Good ctx seen t
    → Good ctx (k ∷ seen) t
unfolding member
Good-cons ctx k seen (ready c) g = tt
Good-cons ctx k seen (fetching c h) g = g
Good-cons ctx k seen (returned c none) (inl e) = inl e
Good-cons ctx k seen (returned c none) (inr e) = inr (ground arith)
Good-cons ctx k seen (returned c (some r)) g = g
Good-cons ctx k seen (raised c) g = g

Grown-Good :
    (ctx : Context) (seen seen' found found' : List Text) (t : Task)
    → Grown seen seen' found found'
    → Good ctx seen t
    → Good ctx seen' t
Grown-Good ctx seen seen' found found' t (still e m) g = subst (λ s. Good ctx s t) (sym e) g
Grown-Good ctx seen seen' found found' t (grew k e m) g =
    subst (λ s. Good ctx s t) (sym e) (Good-cons ctx k seen t g)

Live-known :
    (ctx : Context) (t : Task)
    → Live ctx t
    → detect_protocol ctx.unicode (config_of t) ≢ unknown_name
Live-known ctx (ready c) l = l
Live-known ctx (fetching c h) l = l
Live-known ctx (returned c o) l = cc
Live-known ctx (raised c) l = cc

Live-results :
    (ctx : Context) (t : Task) (ts : List Task) → Live ctx t → results (t ∷ ts) ≡ results ts
unfolding results
Live-results ctx (ready c) ts l = refl
Live-results ctx (fetching c h) ts l = refl
Live-results ctx (returned c o) ts l = cc
Live-results ctx (raised c) ts l = cc

pub Grown-recorded :
    (before seen seen' found found' : List Text)
    → Grown seen seen' found found'
    → ((h : Text) → member h seen ≡ (member h before || member h found))
    → (h : Text) → member h seen' ≡ (member h before || member h found')
unfolding member
Grown-recorded before seen seen' found found' (still e m) r h = rw (e, m h) (r h)
Grown-recorded before seen seen' found found' (grew k e m) r h = rw (e, m h) (ground (arith, r h))

module _ (ctx : Context) (v : Validator) where
  Change-Grown :
      (t : Task) (r : Task × Validator) (ts : List Task)
      → Change ctx v t r
      → Grown v.seen_hashes r.1.seen_hashes (result_hashes (t ∷ ts)) (result_hashes (r.0 ∷ ts))
  unfolding results
  Change-Grown t r ts (unchanged e) = rw e (still refl (λ h. refl))
  Change-Grown t r ts (rejects c et why e) = rw (e, et) (still refl (λ h. refl))
  Change-Grown t r ts (raises c et uh e) = rw (e, et) (still refl (λ h. refl))
  Change-Grown t r ts (waits c host et k e) = rw (e, et) (still refl (λ h. refl))
  Change-Grown t r ts (accepts c country et l e es) =
      rw (e, Live-results ctx t ts l)
        (grew (hash_of ctx c) es (λ h. unfold accepted member in refl))

  Change-Good :
      (t : Task) (r : Task × Validator)
      → Change ctx v t r
      → Good ctx v.seen_hashes t
      → Good ctx r.1.seen_hashes r.0
  Change-Good t r (unchanged e) g = rw e g
  Change-Good t r (rejects c et why e) g = rw e why
  Change-Good t r (raises c et uh e) g = rw e uh
  Change-Good t r (waits c host et k e) g = rw e k
  Change-Good t r (accepts c country et l e es) g =
      rw e (unfold accepted in refl, rw (sym et) (Live-known ctx t l))

  Change-config : (t : Task) (r : Task × Validator) → Change ctx v t r → config_of r.0 ≡ config_of t
  Change-config t r (unchanged e) = rw e
  Change-config t r (rejects c et why e) = rw (e, et)
  Change-config t r (raises c et uh e) = rw (e, et)
  Change-config t r (waits c host et k e) = rw (e, et)
  Change-config t r (accepts c country et l e es) = rw (e, et)

  -- The same for the event at a position of a list.
  Grown-cons :
      (t : Task) (ts ts' : List Task) (v' : Validator)
      → Grown v.seen_hashes v'.seen_hashes (result_hashes ts) (result_hashes ts')
      → Grown v.seen_hashes v'.seen_hashes (result_hashes (t ∷ ts)) (result_hashes (t ∷ ts'))
  unfolding results member
  Grown-cons (returned c (some r)) ts ts' v' (still e m) = still e (λ h. rw (m h))
  Grown-cons (returned c (some r)) ts ts' v' (grew k e m) = grew k e (λ h. ground (arith, m h))
  Grown-cons (returned c none) ts ts' v' g = g
  Grown-cons (ready c) ts ts' v' g = g
  Grown-cons (fetching c h) ts ts' v' g = g
  Grown-cons (raised c) ts ts' v' g = g

  pub advance_at-keeps :
      (e : Event) (i : ℕ) (ts : List Task)
      → All (Good ctx v.seen_hashes) ts
      → let (ts', v') = advance_at ctx v e i ts in
        (map config_of ts' ≡ map config_of ts)
        × (All (Good ctx v'.seen_hashes) ts'
            × Grown v.seen_hashes v'.seen_hashes (result_hashes ts) (result_hashes ts'))
  unfolding advance_at
  advance_at-keeps e i [] g = (refl, (tt, still refl (λ h. refl)))
  advance_at-keeps e zero (t ∷ ts) g =
      let c = advance-Change ctx v e t (Good-Waiting ctx v.seen_hashes t g.0) in
      let grown = Change-Grown t (advance ctx v e t) ts c in
      (
        rw (Change-config t (advance ctx v e t) c),
        (
          (
            Change-Good t (advance ctx v e t) c g.0,
            All-weaken (Good ctx v.seen_hashes) _ (λ u k. Grown-Good ctx _ _ _ _ u grown k) ts g.1,
          ),
          grown,
        ),
      )
  advance_at-keeps e (suc i) (t ∷ ts) g =
      let (same, (good, grown)) = advance_at-keeps e i ts g.1 in
      (
        rw same,
        (
          (Grown-Good ctx _ _ _ _ t grown g.0, good),
          Grown-cons t ts (advance_at ctx v e i ts).0 (advance_at ctx v e i ts).1 grown,
        ),
      )
