-- ===== src/IpManager/Rotation.antt =====
-- Which config each clean address is put into.
use config_manager.Prelude.{
  ◌∙◌, ℕ, zero, suc, ◌+◌, ◌*◌, ◌%◌, ◌<◌, ◌≡◌, refl, some, List, [], ◌∷◌, ◌++◌, arith, length,
  length-append, get_elem?, get_or,
}
use config_manager.Prelude.Text.{Text}
use config_manager.Utils.Codec.{Codec}
use config_manager.Database.Models.{ProcessedConfig}
use config_manager.IpManager.{applied, rounds, for_ips, apply_ips_to_configs}

module _ (codec : Codec) (first : ProcessedConfig) (configs : List ProcessedConfig) where
  length-rounds : (ip : Text) (i left : ℕ) → length (rounds codec ip first configs i left) ≡ left
  unfolding rounds
  length-rounds ip i zero = refl
  length-rounds ip i (suc left) = omega (arith, length-rounds ip (i + 1) left)

  get_elem?-rounds :
      (ip : Text) (i left k : ℕ)
      → k < left
      → get_elem? (rounds codec ip first configs i left) k
        ≡ some (applied codec ip (get_or configs ((i + k) % length configs) first))
  unfolding rounds
  get_elem?-rounds ip i zero k h = absurd (omega arith)
  get_elem?-rounds ip i (suc left) zero h = let e : i + 0 ≡ i = omega arith in rw e
  get_elem?-rounds ip i (suc left) (suc k) h =
      let e : i + suc k ≡ i + 1 + k = omega arith in
      rw e (get_elem?-rounds ip (i + 1) left k (omega arith))

get_elem?-append_left {ℓ} :
    {A : Type ℓ} (xs ys : List A) (i : ℕ) → i < length xs → get_elem? (xs ++ ys) i ≡ get_elem? xs i
get_elem?-append_left [] ys i h = absurd (omega arith)
get_elem?-append_left (x ∷ xs) ys zero h = refl
get_elem?-append_left (x ∷ xs) ys (suc i) h = get_elem?-append_left xs ys i (omega arith)

get_elem?-append_right {ℓ} :
    {A : Type ℓ} (xs ys : List A) (i : ℕ) → get_elem? (xs ++ ys) (length xs + i) ≡ get_elem? ys i
get_elem?-append_right [] ys i = let e : 0 + i ≡ i = omega arith in rw e
get_elem?-append_right (x ∷ xs) ys i =
    let e : suc (length xs) + i ≡ suc (length xs + i) = omega arith in
    rw e (get_elem?-append_right xs ys i)

module _ (codec : Codec) (first : ProcessedConfig) (configs : List ProcessedConfig)
    (per_ip : ℕ) where
  length-for_ips :
      (ips : List Text) → length (for_ips codec ips first configs per_ip) ≡ length ips * per_ip
  unfolding for_ips
  length-for_ips [] = omega arith
  length-for_ips (ip ∷ ips) = grind (
    arith,
    length-append (rounds codec ip first configs 0 per_ip) (for_ips codec ips first configs per_ip),
    length-rounds codec first configs ip 0 per_ip,
    length-for_ips ips,
  )

  get_elem?-for_ips :
      (ips : List Text) (j k : ℕ) (ip : Text)
      → get_elem? ips j ≡ some ip
      → k < per_ip
      → get_elem? (for_ips codec ips first configs per_ip) (j * per_ip + k)
        ≡ some (applied codec ip (get_or configs (k % length configs) first))
  unfolding for_ips
  get_elem?-for_ips [] j k ip h lt = cc
  get_elem?-for_ips (x ∷ ips) zero k ip h lt =
      let here = rounds codec x first configs 0 per_ip in
      let rest = for_ips codec ips first configs per_ip in
      let e : 0 * per_ip + k ≡ k = omega arith in
      let e' : 0 + k ≡ k = omega arith in
      rw e (
        cc (
          e',
          get_elem?-append_left here rest k (rw (length-rounds codec first configs x 0 per_ip) lt),
          get_elem?-rounds codec first configs x 0 per_ip k lt,
        ))
  get_elem?-for_ips (x ∷ ips) (suc j) k ip h lt =
      let here = rounds codec x first configs 0 per_ip in
      let rest = for_ips codec ips first configs per_ip in
      let e : suc j * per_ip + k ≡ length here + (j * per_ip + k) =
        rw (length-rounds codec first configs x 0 per_ip) (grind arith) in
      rw e (get_elem?-append_right here rest (j * per_ip + k) ∙ get_elem?-for_ips ips j k ip h lt)

-- For every clean address the output holds `apply_per_ip` texts: the one of round `k` for the address
-- at position `j` stands at `j * apply_per_ip + k`, and is the address put into the config at position
-- `k` modulo the number of configs. The output has no other text.
pub apply_ips_to_configs-rotation :
    (codec : Codec) (ips : List Text) (c : ProcessedConfig) (cs : List ProcessedConfig) (per_ip : ℕ)
    → (length (apply_ips_to_configs codec ips (c ∷ cs) per_ip) ≡ length ips * per_ip)
      × ((j k : ℕ) (ip : Text)
          → get_elem? ips j ≡ some ip
          → k < per_ip
          → get_elem? (apply_ips_to_configs codec ips (c ∷ cs) per_ip) (j * per_ip + k)
            ≡ some (applied codec ip (get_or (c ∷ cs) (k % length (c ∷ cs)) c)))
unfolding apply_ips_to_configs
apply_ips_to_configs-rotation codec ips c cs per_ip =
    (length-for_ips codec c (c ∷ cs) per_ip ips, get_elem?-for_ips codec c (c ∷ cs) per_ip ips)
