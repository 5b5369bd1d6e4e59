-- ===== src/Utils/Dedup.antt =====
-- core/utils.py, `config_hash`: the key under which configs are taken for duplicates, and the
-- duplicate removal of the scrapers. MD5 is a parameter.
use config_manager.Prelude.{
  ◌≡◌, refl, true, false, ◌||◌, List, [], ◌∷◌, ◌++◌, map, arith, if◌then◌else◌, ==_iff, ==_refl,
  member, Distinct, Bool-cases, inl, inr, ap,
}
use config_manager.Prelude.Text.{
  Text, text_eq, strip, strip_idem, before, before-append_of_has, before_of_not_has, has,
  has-before, has-strip,
}

-- `config.split("#")[0].strip()`
unfoldable pub normalized : Text → Text
normalized config = strip (before b'#' config)

pub has-normalized : (config : Text) → has b'#' (normalized config) ≡ false
unfolding normalized
has-normalized config = has-strip b'#' (before b'#' config) (has-before b'#' config)

module _ (md5 : Text → Text) where
  unfoldable pub config_hash : Text → Text
  unfolding normalized
  config_hash config = md5 (normalized config)

  -- Two configs that differ in their remark alone have one hash: a remark, of any text, may be
  -- added, and what follows the first `#` does not count.
  pub config_hash-remark :
      (base remark : Text)
      → has b'#' base ≡ false
      → config_hash (base ++ b'#' ∷ remark) ≡ config_hash base
  unfolding config_hash
  config_hash-remark base remark h =
      rw (before-append_of_has b'#' base remark h, before_of_not_has b'#' base h)

  -- A config rebuilt from its normal form and a new fragment keeps its hash.
  pub config_hash-normalized :
      (config fragment : Text)
      → config_hash (normalized config ++ b'#' ∷ fragment) ≡ config_hash config
  unfolding config_hash
  config_hash-normalized config fragment =
      rw (before-append_of_has b'#' (normalized config) fragment (has-normalized config))
        (ap md5 (strip_idem (before b'#' config)))

  -- One round of the scrapers' loops: `if h not in seen: seen.add(h); configs.append(cfg)`. The
  -- hashes seen are those of `found`, newest first.
  unfoldable pub unique_from : List Text → List Text → List Text
  unfolding config_hash
  unique_from seen [] = []
  unique_from seen (cfg ∷ rest) =
      let h = config_hash cfg in
      let skip = unique_from seen rest in
      let keep = cfg ∷ unique_from (h ∷ seen) rest in if member h seen then skip else keep

  unique_from-new :
      (k : Text) (seen configs : List Text)
      → member k seen ≡ true
      → member k (map config_hash (unique_from seen configs)) ≡ false
  unfolding unique_from member
  unique_from-new k seen [] h = refl
  unique_from-new k seen (cfg ∷ rest) h = ground (
    arith,
    ==_iff k (config_hash cfg),
    unique_from-new k seen rest,
    unique_from-new k (config_hash cfg ∷ seen) rest,
  )

  -- No two configs that the loop keeps have one hash.
  pub unique_from-Distinct :
      (seen configs : List Text) → Distinct (map config_hash (unique_from seen configs))
  unfolding unique_from
  unique_from-Distinct seen [] = tt
  unique_from-Distinct seen (cfg ∷ rest) = elim (Bool-cases (member (config_hash cfg) seen)) [
    | inl e ↦ rw e (unique_from-Distinct seen rest)
    | inr e ↦ rw e (
      unique_from-new (config_hash cfg) (config_hash cfg ∷ seen) rest
          (unfold member in rw (==_refl (config_hash cfg))),
      unique_from-Distinct (config_hash cfg ∷ seen) rest,
    )
  ]

  -- The loop loses no hash: what it does not keep was seen before, or is kept in another config.
  pub member-unique_from :
      (k : Text) (seen configs : List Text)
      → member k (map config_hash configs) ≡ true
      → (member k seen || member k (map config_hash (unique_from seen configs))) ≡ true
  unfolding unique_from member
  member-unique_from k seen [] h = cc
  member-unique_from k seen (cfg ∷ rest) h = ground (
    arith,
    ==_iff k (config_hash cfg),
    member-unique_from k seen rest,
    member-unique_from k (config_hash cfg ∷ seen) rest,
  )
