-- ===== src/IpManager/Reading.antt =====
-- `parse_ips_from_text` on what `format_configs_as_text` writes.
use config_manager.Prelude.{
  ltb, ◌+◌, ◌/◌, ◌%◌, sym, sym, ltb, ℕ, ◌≤◌, ◌≡◌, refl, true, false, List, [], ◌∷◌, ◌++◌, arith,
  All, filter_where, Bool-cases, inl, inr, All-append, All-weaken, ap, ◌∙◌,
}
use mathlib.Core.Path.{subst}
use mathlib.Core.List.{append_assoc, append-nil}
use config_manager.Prelude.Text.{
  lstrip, Text, codes, strip, rstrip, is_space, strip_cons, rstrip_cons, rstrip_solid,
  rstrip-append,
}
use config_manager.Utils.Ip.{is_valid_ip, octet, dotted, Quad, is_valid_ip_iff}
use config_manager.IpManager.{
  is_separator, candidates, flush, parse_ips_from_text, format_configs_as_text,
}

-- a text that holds no separator
abbrev Solid : Text → Type 0
Solid = All (λ c. is_separator c ≡ false)

abbrev Unspaced : Text → Type 0
Unspaced = All (λ c. is_space c ≡ false)

Solid-Unspaced : (s : Text) → Solid s → Unspaced s
unfolding is_separator
Solid-Unspaced s h = All-weaken _ _ (λ c e. ground arith) s h

candidates-append :
    (word s t : Text) → Solid s → candidates word (s ++ t) ≡ candidates (word ++ s) t
unfolding candidates
candidates-append word [] t h = rw append-nil
candidates-append word (c ∷ s) t h =
    rw h.0 (candidates-append (word ++ c ∷ []) s t h.1 ∙ rw append_assoc)

Solid-octet : (n : ℕ) → n ≤ 255 → Solid (octet n)
unfolding octet is_separator is_space
Solid-octet n h = ground arith

Solid-dotted : (a b c d : ℕ) → a ≤ 255 → b ≤ 255 → c ≤ 255 → d ≤ 255 → Solid (dotted a b c d)
unfolding dotted
Solid-dotted a b c d ha hb hc hd =
    let P : ℕ → Type 0 = λ c. is_separator c ≡ false in
    let dot : is_separator b'.' ≡ false = unfold is_separator in unfold is_space in refl in
    All-append P (octet a) _ (Solid-octet a ha) (
      dot,
      All-append P (octet b) _ (Solid-octet b hb)
          (dot, All-append P (octet c) _ (Solid-octet c hc) (dot, Solid-octet d hd)),
    )

Solid-Quad : (s : Text) → Quad s → Solid s
Solid-Quad s q = rw q.printed (Solid-dotted q.a q.b q.c q.d q.a_le q.b_le q.c_le q.d_le)

octet-cons : (n : ℕ) → (x : ℕ) × ((s : Text) × (octet n ≡ x ∷ s))
unfolding octet
octet-cons n = elim (Bool-cases (ltb n 10)) [
  | inl h ↦ (48 + n, ([], rw h))
  | inr h ↦ elim (Bool-cases (ltb n 100)) [
    | inl h' ↦ (48 + n / 10, ((48 + n % 10) ∷ [], rw (h, h')))
    | inr h' ↦ (48 + n / 100, ((48 + n / 10 % 10) ∷ (48 + n % 10) ∷ [], rw (h, h')))
  ]
]

dotted-cons : (a b c d : ℕ) → (x : ℕ) × ((s : Text) × (dotted a b c d ≡ x ∷ s))
unfolding dotted
dotted-cons a b c d =
    let (x, (s, e)) = octet-cons a in
    (x, (s ++ (b'.' ∷ (octet b ++ b'.' ∷ (octet c ++ b'.' ∷ octet d))), rw e))

-- An address begins with a code point.
Quad-cons : (s : Text) → Quad s → (c : ℕ) × ((t : Text) × (s ≡ c ∷ t))
Quad-cons s q = let (c, (t, e)) = dotted-cons q.a q.b q.c q.d in (c, (t, q.printed ∙ e))

flush-cons : (w : Text) (c : ℕ) (t : Text) (rest : List Text) → w ≡ c ∷ t → flush w rest ≡ w ∷ rest
unfolding flush
flush-cons w c t rest h = rw h

candidates-joined :
    (w rest : Text) → Quad w → candidates [] (w ++ (codes "\n\n" ++ rest)) ≡ w ∷ candidates [] rest
unfolding candidates is_separator is_space flush
candidates-joined w rest q =
    let (c, (t, e)) = Quad-cons w q in
    candidates-append [] w (codes "\n\n" ++ rest) (Solid-Quad w q)
    ∙ flush-cons w c t (candidates [] rest) e

candidates-last : (w : Text) → Quad w → candidates [] w ≡ w ∷ []
unfolding candidates
candidates-last w q =
    let (c, (t, e)) = Quad-cons w q in
    let again : candidates [] (w ++ []) ≡ candidates w [] =
      candidates-append [] w [] (Solid-Quad w q) in
    ap (candidates []) (sym (append-nil w)) ∙ (again ∙ flush-cons w c t [] e)

candidates-format : (xs : List Text) → All Quad xs → candidates [] (format_configs_as_text xs) ≡ xs
unfolding format_configs_as_text candidates flush
candidates-format [] h = refl
candidates-format (x ∷ []) h = candidates-last x h.0
candidates-format (x ∷ y ∷ xs) h =
    rw (candidates-joined x (format_configs_as_text (y ∷ xs)) h.0, candidates-format (y ∷ xs) h.1)

rstrip_before : (c d : ℕ) (s : Text) → rstrip (d ∷ s) ≡ d ∷ s → rstrip (c ∷ d ∷ s) ≡ c ∷ d ∷ s
unfolding rstrip
rstrip_before c d s h = rw h

format-cons :
    (x : Text) (xs : List Text)
    → Quad x
    → (c : ℕ) × ((t : Text) × ((is_space c ≡ false) × (format_configs_as_text (x ∷ xs) ≡ c ∷ t)))
unfolding format_configs_as_text
format-cons x [] q =
    let (c, (t, e)) = Quad-cons x q in
    let solid : Unspaced (c ∷ t) = subst Unspaced e (Solid-Unspaced x (Solid-Quad x q)) in
    (c, (t, (solid.0, e)))
format-cons x (y ∷ ys) q =
    let (c, (t, e)) = Quad-cons x q in
    let solid : Unspaced (c ∷ t) = subst Unspaced e (Solid-Unspaced x (Solid-Quad x q)) in
    (
      c,
      (
        t ++ (codes "\n\n" ++ format_configs_as_text (y ∷ ys)),
        (solid.0, ap (λ (w : Text). w ++ (codes "\n\n" ++ format_configs_as_text (y ∷ ys))) e),
      ),
    )

rstrip-format :
    (x : Text) (xs : List Text)
    → All Quad (x ∷ xs)
    → rstrip (format_configs_as_text (x ∷ xs)) ≡ format_configs_as_text (x ∷ xs)
unfolding format_configs_as_text
rstrip-format x [] h = rstrip_solid x (Solid-Unspaced x (Solid-Quad x h.0))
rstrip-format x (y ∷ ys) h =
    let (c, (t, (n, e))) = format-cons y ys h.1.0 in
    let kept : rstrip (c ∷ t) ≡ c ∷ t = rw (sym e) (rstrip-format y ys h.1) in
    rw (
      rstrip-append x (codes "\n\n" ++ format_configs_as_text (y ∷ ys))
          (Solid-Unspaced x (Solid-Quad x h.0)),
      e,
      rstrip_before b'\n' b'\n' (c ∷ t) (rstrip_before b'\n' c t kept),
    )

strip-format :
    (xs : List Text) → All Quad xs → strip (format_configs_as_text xs) ≡ format_configs_as_text xs
strip-format [] h = unfold format_configs_as_text strip lstrip rstrip in refl
strip-format (x ∷ xs) h =
    let (c, (t, (n, e))) = format-cons x xs h.0 in
    let kept : rstrip (c ∷ t) ≡ c ∷ t = rw (sym e) (rstrip-format x xs h) in
    rw e (strip_cons c t n ∙ (sym (rstrip_cons c t n) ∙ kept))

strip-Quad : (x : Text) → Quad x → strip x ≡ x
unfolding format_configs_as_text
strip-Quad x q = strip-format (x ∷ []) (q, tt)

filter_where-valid : (xs : List Text) → All Quad xs → filter_where is_valid_ip xs ≡ xs
unfolding filter_where
filter_where-valid [] h = refl
filter_where-valid (x ∷ xs) h =
    let valid : is_valid_ip x ≡ true =
      (is_valid_ip_iff x).1 (subst Quad (sym (strip-Quad x h.0)) h.0) in
    rw (valid, filter_where-valid xs h.1)

-- What the one function writes for a list of addresses, the other reads back: the addresses, in
-- their order.
pub parse_ips_from_text-format_configs_as_text :
    (xs : List Text) → All Quad xs → parse_ips_from_text (format_configs_as_text xs) ≡ xs
unfolding parse_ips_from_text
parse_ips_from_text-format_configs_as_text xs h =
    rw (strip-format xs h, candidates-format xs h) (filter_where-valid xs h)
