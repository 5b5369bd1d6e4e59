-- ===== src/Utils/Codec.antt =====
-- The payload of a vmess link: a JSON object in Base64. `json` and `base64` are a parameter; the
-- padding and the dictionary operations are the program's.
use config_manager.Prelude.{
  ◌≢◌, ==_refl, ℕ, zero, suc, ◌-◌, ◌%◌, ◌≡◌, refl, Bool, true, false, Option, none, some, List, [],
  ◌∷◌, ◌++◌, arith, length, drop, nat_beq, if◌then◌else◌, ◌==◌, ==_iff,
}
use config_manager.Prelude.Text.{Text, text_eq, codes, strip}

-- A JSON value as the program looks at it: `scalar` is a number or a boolean and `container` an array
-- or an object, by its truth value and its text.
pub data Value : Type 0 where
  null : Value
  str : Text → Value
  scalar container : Bool → Text → Value

abbrev pub Object : Type 0
Object = List (Text × Value)

-- `none` is an exception, and also a JSON value that is no object. `decode` reads the bytes by
-- `decode("utf-8")`, `decode_ignore` by `decode("utf-8", errors="ignore")`. `sub_escapes` is `re.sub` of the hosts
-- of a link by a template that has a backslash, where `none` is `re.error`.
pub record Codec : Type 0 where
  pub decode : Text → Option Object
  pub decode_ignore : Text → Option Object
  pub encode : Object → Text
  pub sub_escapes : Text → Text → Option Text

-- `if value:`
unfoldable pub truthy : Value → Bool
truthy null = false
truthy (str []) = false
truthy (str (c ∷ s)) = true
truthy (scalar b s) = b
truthy (container b s) = b

-- `data.get(key)`; a null is None
unfoldable pub get_field : Text → Object → Option Value
get_field key [] = none
get_field key ((k, v) ∷ rest) =
    if k == key then elim v [ null ↦ none | w ↦ some w ] else get_field key rest

-- `data[key] = value`
unfoldable pub set_field : Text → Value → Object → Object
set_field key value [] = (key, value) ∷ []
set_field key value ((k, v) ∷ rest) =
    if k == key then (k, value) ∷ rest else (k, v) ∷ set_field key value rest

pub get_field-set_field :
    (key j : Text) (t : Text) (o : Object)
    → get_field j (set_field key (str t) o) ≡ (if key == j then some (str t) else get_field j o)
unfolding get_field set_field
get_field-set_field key j t [] = refl
get_field-set_field key j t ((k, v) ∷ rest) =
    ground (arith, ==_iff k key, ==_iff k j, ==_iff key j, get_field-set_field key j t rest)

-- `"=" * n`
equals : ℕ → Text
equals zero = []
equals (suc n) = b'=' ∷ equals n

-- `raw = config[len("vmess://"):].strip()`, padded to a multiple of four
unfoldable pub vmess_payload : Text → Text
unfolding equals
vmess_payload config =
    let raw = strip (drop 8 config) in
    let padding = length raw % 4 in if nat_beq padding 0 then raw else raw ++ equals (4 - padding)

-- What `base64` and `json` document of a text that `encode` wrote: it has no white space at its
-- ends, its length is a multiple of four, and both readers read the object back.
pub record RoundTrips (c : Codec) (o : Object) : Type 0 where
  pub no_space : strip (c.encode o) ≡ c.encode o
  pub aligned : length (c.encode o) % 4 ≡ 0
  pub decoded : c.decode (c.encode o) ≡ some o
  pub decoded_ignore : c.decode_ignore (c.encode o) ≡ some o

pub vmess_payload-encode :
    (c : Codec) (o : Object)
    → RoundTrips c o
    → vmess_payload (codes "vmess://" ++ c.encode o) ≡ c.encode o
unfolding vmess_payload
vmess_payload-encode c o r = rw (r.no_space) (ground (arith, r.aligned))

pub get_field-set_field_self :
    (key : Text) (t : Text) (o : Object) → get_field key (set_field key (str t) o) ≡ some (str t)
get_field-set_field_self key t o = rw (get_field-set_field key key t o, ==_refl key)

pub get_field-set_field_ne :
    (key j : Text) (t : Text) (o : Object)
    → key ≢ j
    → get_field j (set_field key (str t) o) ≡ get_field j o
get_field-set_field_ne key j t o h =
    rw (get_field-set_field key j t o) (ground (arith, ==_iff key j))
