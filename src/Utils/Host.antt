-- ===== src/Utils/Host.antt =====
-- core/utils.py, `extract_host`: the server of a config, from the pattern `@([^:]+):` or from the
-- payload of a vmess link.
use config_manager.Prelude.{
  true, ◌≢◌, ℕ, ◌≡◌, refl, false, ◌||◌, Option, none, some, [], ◌∷◌, ◌++◌, arith, nat_beq,
  if◌then◌else◌,
}
use config_manager.Prelude.Text.{
  before-append_left, Text, codes, starts_with, strip, before, has, has-append,
  before-append_of_has,
}
use config_manager.Utils.Codec.{Value, str, Codec, get_field, vmess_payload}

-- `[^:]+:` at the front of a text: what stands before the first colon, if that is something
unfoldable pub host_here : Text → Option Text
host_here s = if has b':' s then elim (before b':' s) [ [] ↦ none | c ∷ w ↦ some (c ∷ w) ] else none

-- `re.search(r"@([^:]+):", s)`, its group 1: the leftmost `@` at which the pattern fits
unfoldable pub search_host : Text → Option Text
search_host [] = none
search_host (c ∷ s) =
    let later = search_host s in
    if nat_beq c b'@' then elim (host_here s) [ none ↦ later | some h ↦ some h ] else later

unfoldable pub extract_host : Codec → Text → Option Value
unfolding search_host host_here vmess_payload get_field
extract_host codec given =
    let config = strip given in
    let found = search_host config in
    if starts_with (codes "vless://") config
      || starts_with (codes "trojan://") config
      || starts_with (codes "ss://") config
    then elim found [ none ↦ none | some h ↦ some (str h) ]
    else if starts_with (codes "vmess://") config
    then elim (codec.decode_ignore (vmess_payload config)) [
      | none ↦ none
      | some o ↦ get_field (codes "add") o
    ]
    else none

pub host_here-append :
    (c : ℕ) (host rest : Text)
    → has b':' (c ∷ host) ≡ false
    → host_here ((c ∷ host) ++ b':' ∷ rest) ≡ some (c ∷ host)
unfolding host_here
host_here-append c host rest h =
    rw (has-append b':' (c ∷ host) (b':' ∷ rest), h, before-append_of_has b':' (c ∷ host) rest h)
      (unfold has in refl)

-- The host of a text that puts `@host:` after a part with no `@` is that host.
pub search_host-append :
    (prefix host rest : Text)
    → has b'@' prefix ≡ false
    → has b':' host ≡ false
    → host ≢ []
    → search_host (prefix ++ b'@' ∷ (host ++ b':' ∷ rest)) ≡ some host
unfolding search_host has
search_host-append [] [] rest h k n = absurd (n refl)
search_host-append [] (c ∷ host) rest h k n = rw (host_here-append c host rest k)
search_host-append (d ∷ prefix) host rest h k n =
    ground (arith, search_host-append prefix host rest)

-- Where the pattern fits there is a colon.
pub has_of_host_here : (s h : Text) → host_here s ≡ some h → has b':' s ≡ true
unfolding host_here
has_of_host_here s h e = ground arith

pub has_of_search_host : (s h : Text) → search_host s ≡ some h → has b':' s ≡ true
unfolding search_host has
has_of_search_host [] h e = cc
has_of_search_host (c ∷ s) h e = ground (arith, has_of_search_host s h, has_of_host_here s h)

-- It fits at no `@` that a colon follows, and that is the only way to fail before a colon.
pub host_here_colon : (s : Text) → host_here (b':' ∷ s) ≡ none
unfolding host_here has before
host_here_colon s = refl

pub colon_of_host_here :
    (s : Text) → host_here s ≡ none → has b':' s ≡ true → (r : Text) × (s ≡ b':' ∷ r)
unfolding host_here has before
colon_of_host_here [] e h = cc
colon_of_host_here (c ∷ s) e h = (s, ground arith)

host_here-append_left : (s t : Text) → has b':' s ≡ true → host_here (s ++ t) ≡ host_here s
unfolding host_here
host_here-append_left s t h = rw (has-append b':' s t, h, before-append_left b':' s t h) refl

-- What follows a match does not matter.
pub search_host-append_left :
    (s t h : Text) → search_host s ≡ some h → search_host (s ++ t) ≡ some h
unfolding search_host has
search_host-append_left [] t h e = cc
search_host-append_left (c ∷ s) t h e = ground (
  arith,
  search_host-append_left s t h,
  host_here-append_left s t,
  has_of_search_host s h,
  has_of_host_here s h,
)
