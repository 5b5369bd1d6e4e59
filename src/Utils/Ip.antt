-- ===== src/Utils/Ip.antt =====
-- core/utils.py, `is_valid_ip`: `ipaddress.IPv4Address(ip.strip())` raises nothing. An address is
-- four octets between dots; an octet is one to three ASCII digits with no leading zero, at most 255.
use config_manager.Prelude.{
  ℕ, ◌+◌, ◌-◌, ◌*◌, ◌/◌, ◌%◌, ◌≤◌, ◌≡◌, refl, ◌↔◌, ◌≢◌, ◌∙◌, Bool, true, false, ◌&&◌, Option, none,
  some, List, [], ◌∷◌, ◌++◌, arith, ltb, leb, nat_beq, if◌then◌else◌, ap,
}
use config_manager.Prelude.Text.{Text, strip, has}

-- `s.split(sep)`
unfoldable pub split_on : ℕ → Text → List Text
split_on sep [] = [] ∷ []
split_on sep (c ∷ s) =
    if nat_beq c sep
    then [] ∷ split_on sep s
    else elim (split_on sep s) [ [] ↦ (c ∷ []) ∷ [] | w ∷ ws ↦ (c ∷ w) ∷ ws ]

is_digit : ℕ → Bool
is_digit c = leb b'0' c && leb c b'9'

-- `_parse_octet`; `none` is the exception that it raises.
parse_octet : Text → Option ℕ
unfolding is_digit
parse_octet (a ∷ []) = if is_digit a then some (a - 48) else none
parse_octet (a ∷ b ∷ []) =
    if is_digit a && is_digit b
    then (if nat_beq a b'0' then none else some ((a - 48) * 10 + (b - 48)))
    else none
parse_octet (a ∷ b ∷ c ∷ []) =
    if is_digit a && is_digit b && is_digit c
    then (let n = (a - 48) * 100 + (b - 48) * 10 + (c - 48) in
        if nat_beq a b'0' then none else if ltb 255 n then none else some n)
    else none
parse_octet _ = none

parse_octets : List Text → Option (List ℕ)
parse_octets [] = some []
parse_octets (w ∷ ws) = elim (parse_octet w) [
  | none ↦ none
  | some n ↦ elim (parse_octets ws) [ none ↦ none | some ns ↦ some (n ∷ ns) ]
]

ipv4 : List Text → Bool
ipv4 (a ∷ b ∷ c ∷ d ∷ []) = elim (parse_octets (a ∷ b ∷ c ∷ d ∷ [])) [
  | none ↦ false
  | some _ ↦ true
]
ipv4 _ = false

unfoldable pub is_valid_ip : Text → Bool
unfolding split_on ipv4 parse_octets parse_octet
is_valid_ip ip = ipv4 (split_on b'.' (strip ip))

-- An octet as it is printed.
unfoldable pub octet : ℕ → Text
octet n =
    if ltb n 10
    then (48 + n) ∷ []
    else if ltb n 100
    then (48 + n / 10) ∷ (48 + n % 10) ∷ []
    else (48 + n / 100) ∷ (48 + n / 10 % 10) ∷ (48 + n % 10) ∷ []

unfoldable pub dotted : ℕ → ℕ → ℕ → ℕ → Text
dotted a b c d = octet a ++ b'.' ∷ (octet b ++ b'.' ∷ (octet c ++ b'.' ∷ octet d))

parse_octet_sound : (s : Text) (n : ℕ) → parse_octet s ≡ some n → (s ≡ octet n) × (n ≤ 255)
unfolding parse_octet octet
parse_octet_sound [] n h = cc
parse_octet_sound (a ∷ []) n h = ground arith
parse_octet_sound (a ∷ b ∷ []) n h = ground arith
parse_octet_sound (a ∷ b ∷ c ∷ []) n h = ground arith
parse_octet_sound (a ∷ b ∷ c ∷ d ∷ s) n h = cc

parse_octet-octet : (n : ℕ) → n ≤ 255 → parse_octet (octet n) ≡ some n
unfolding parse_octet octet
parse_octet-octet n h = ground arith

join_dots : List Text → Text
join_dots [] = []
join_dots (w ∷ []) = w
join_dots (w ∷ v ∷ ws) = w ++ b'.' ∷ join_dots (v ∷ ws)

-- One step of `split_on`, undone.
join_dots_step :
    (c : ℕ) (l : List Text)
    → l ≢ []
    → join_dots
        (if nat_beq c b'.' then [] ∷ l else elim l [ [] ↦ (c ∷ []) ∷ [] | w ∷ ws ↦ (c ∷ w) ∷ ws ])
      ≡ c ∷ join_dots l
unfolding join_dots
join_dots_step c [] h = absurd (h refl)
join_dots_step c (w ∷ []) h = ground arith
join_dots_step c (w ∷ v ∷ ws) h = ground arith

split_on-ne-nil : (sep : ℕ) (s : Text) → split_on sep s ≢ []
unfolding split_on
split_on-ne-nil sep [] h = cc
split_on-ne-nil sep (c ∷ s) h = ground arith

join_dots-split_on : (s : Text) → join_dots (split_on b'.' s) ≡ s
unfolding join_dots split_on
join_dots-split_on [] = refl
join_dots-split_on (c ∷ s) =
    join_dots_step c (split_on b'.' s) (split_on-ne-nil b'.' s) ∙ ap (◌∷◌ c) (join_dots-split_on s)

split_on-append :
    (s t : Text) → has b'.' s ≡ false → split_on b'.' (s ++ b'.' ∷ t) ≡ s ∷ split_on b'.' t
unfolding split_on has
split_on-append [] t h = refl
split_on-append (c ∷ s) t h = ground (arith, split_on-append s t)

split_on_of_not_has : (s : Text) → has b'.' s ≡ false → split_on b'.' s ≡ s ∷ []
unfolding split_on has
split_on_of_not_has [] h = refl
split_on_of_not_has (c ∷ s) h = ground (arith, split_on_of_not_has s)

has-octet : (n : ℕ) → n ≤ 255 → has b'.' (octet n) ≡ false
unfolding has octet
has-octet n h = ground arith

-- The split of a dotted quadruple is its octets.
split_on-dotted :
    (a b c d : ℕ)
    → a ≤ 255
    → b ≤ 255
    → c ≤ 255
    → d ≤ 255
    → split_on b'.' (dotted a b c d) ≡ octet a ∷ octet b ∷ octet c ∷ octet d ∷ []
unfolding dotted
split_on-dotted a b c d ha hb hc hd = rw (split_on-append (octet a) _ (has-octet a ha)) (
    rw (split_on-append (octet b) _ (has-octet b hb)) (
      rw (split_on-append (octet c) _ (has-octet c hc))
        (rw (split_on_of_not_has (octet d) (has-octet d hd)))))

ipv4-octets :
    (a b c d : ℕ)
    → a ≤ 255
    → b ≤ 255
    → c ≤ 255
    → d ≤ 255
    → ipv4 (octet a ∷ octet b ∷ octet c ∷ octet d ∷ []) ≡ true
unfolding ipv4 parse_octets
ipv4-octets a b c d ha hb hc hd =
    cc (
      parse_octet-octet a ha,
      parse_octet-octet b hb,
      parse_octet-octet c hc,
      parse_octet-octet d hd,
    )

-- An address of four octets in range.
pub record Quad (s : Text) : Type 0 where
  pub a : ℕ
  pub b : ℕ
  pub c : ℕ
  pub d : ℕ
  pub a_le : a ≤ 255
  pub b_le : b ≤ 255
  pub c_le : c ≤ 255
  pub d_le : d ≤ 255
  pub printed : s ≡ dotted a b c d

all_parsed :
    (p q r s : Text)
    → ipv4 (p ∷ q ∷ r ∷ s ∷ []) ≡ true
    → ((a : ℕ) × (parse_octet p ≡ some a))
      × ((b : ℕ) × (parse_octet q ≡ some b))
      × ((c : ℕ) × (parse_octet r ≡ some c))
      × ((d : ℕ) × (parse_octet s ≡ some d))
unfolding ipv4 parse_octets
all_parsed p q r s h = ground arith

ipv4-Quad : (l : List Text) → ipv4 l ≡ true → Quad (join_dots l)
unfolding ipv4 parse_octets join_dots dotted
ipv4-Quad [] h = cc
ipv4-Quad (p ∷ []) h = cc
ipv4-Quad (p ∷ q ∷ []) h = cc
ipv4-Quad (p ∷ q ∷ r ∷ []) h = cc
ipv4-Quad (p ∷ q ∷ r ∷ s ∷ t ∷ l) h = cc
ipv4-Quad (p ∷ q ∷ r ∷ s ∷ []) h =
    let ((a, ea), (b, eb), (c, ec), (d, ed)) = all_parsed p q r s h in
    let sa = parse_octet_sound p a ea in
    let sb = parse_octet_sound q b eb in
    let sc = parse_octet_sound r c ec in
    let sd = parse_octet_sound s d ed in
    record {
      a = a;
      b = b;
      c = c;
      d = d;
      a_le = sa.1;
      b_le = sb.1;
      c_le = sc.1;
      d_le = sd.1;
      printed = cc (sa.0, sb.0, sc.0, sd.0);
    }

-- `is_valid_ip` accepts a text exactly if it is, between white space, four decimal octets from 0 to
-- 255 without leading zeros, joined by dots.
pub is_valid_ip_iff : (s : Text) → (is_valid_ip s ≡ true) ↔ Quad (strip s)
unfolding is_valid_ip
is_valid_ip_iff s = (
  λ h. rw (← join_dots-split_on (strip s)) (ipv4-Quad (split_on b'.' (strip s)) h),
  λ q.
      rw (q.printed, split_on-dotted q.a q.b q.c q.d q.a_le q.b_le q.c_le q.d_le)
        (ipv4-octets q.a q.b q.c q.d q.a_le q.b_le q.c_le q.d_le),
)
