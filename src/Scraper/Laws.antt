-- ===== src/Scraper/Laws.antt =====
-- How often a source is asked, and what the scrapers return.
use mathlib.Core.Path.{subst}
use config_manager.Prelude.{
  ℕ, zero, suc, ◌+◌, ◌≤◌, ◌<◌, ◌≡◌, refl, ◌⊎◌, inl, inr, false, Option, none, some, List, [], ◌∷◌,
  ◌++◌, map, length, take, length-take, member, Distinct, arith,
}
use config_manager.Prelude.Text.{Text, text_eq}
use config_manager.Utils.Dedup.{config_hash, unique_from, unique_from-Distinct}
use config_manager.Scraper.{
  attempts, fetch, Searches, limited, unique_found, parse_configs, scrape_source,
  scrape_subscription, extract_configs, decode_base64_content,
}

attempts-first :
    (response : ℕ → Option Text) (a left k : ℕ) (text : Text)
    → a ≤ k
    → k ≤ a + left
    → ((j : ℕ) → a ≤ j → j < k → response j ≡ none)
    → response k ≡ some text
    → attempts response a left ≡ some text
unfolding attempts
attempts-first response a zero k text ak ka failed found = let e : a ≡ k = omega arith in rw e found
attempts-first response a (suc left) k text ak ka failed found = elim (eq_or_lt a k ak) [
  | inl e ↦ rw (e, found, attempts)
  | inr lt ↦
      rw (failed a (omega arith) lt, attempts)
        (attempts-first response (a + 1) left k text (omega arith) (omega arith)
          (λ j aj jk. failed j (omega arith) jk) found)
]
  where
    eq_or_lt : (a k : ℕ) → a ≤ k → (a ≡ k) ⊎ (a < k)
    eq_or_lt a k h = ground arith

attempts-none :
    (response : ℕ → Option Text) (a left : ℕ)
    → ((j : ℕ) → a ≤ j → j ≤ a + left → response j ≡ none)
    → attempts response a left ≡ none
unfolding attempts
attempts-none response a zero failed = failed a (omega arith) (omega arith)
attempts-none response a (suc left) failed =
    rw (failed a (omega arith) (omega arith), attempts)
      (attempts-none response (a + 1) left (λ j aj jl. failed j (omega arith) (omega arith)))

-- The fetch returns the text of the first attempt that succeeds, among the first `retries + 1`. It
-- raises when all of them fail.
pub fetch-first :
    (response : ℕ → Option Text) (retries : ℕ)
    → ((k : ℕ) (text : Text)
        → k ≤ retries
        → ((j : ℕ) → j < k → response j ≡ none)
        → response k ≡ some text
        → fetch response retries ≡ some text)
      × (((j : ℕ) → j ≤ retries → response j ≡ none) → fetch response retries ≡ none)
unfolding fetch
fetch-first response retries = (
  λ k text le failed found.
      attempts-first response 0 retries k text (omega arith) (omega arith) (λ j _ jk. failed j jk)
        found,
  λ failed. attempts-none response 0 retries (λ j _ le. failed j (omega arith)),
)

member-take :
    (key : Text → Text) (k : Text) (n : ℕ) (xs : List Text)
    → member k (map key xs) ≡ false
    → member k (map key (take n xs)) ≡ false
unfolding member
member-take key k zero xs h = refl
member-take key k (suc n) [] h = h
member-take key k (suc n) (y ∷ ys) h = ground (arith, member-take key k n ys)

pub Distinct-take :
    (key : Text → Text) (n : ℕ) (xs : List Text)
    → Distinct (map key xs)
    → Distinct (map key (take n xs))
Distinct-take key zero xs d = tt
Distinct-take key (suc n) [] d = tt
Distinct-take key (suc n) (x ∷ xs) d =
    (member-take key (key x) n xs d.0, Distinct-take key n xs d.1)

given :
    (md5 : Text → Text) (most : ℕ) (found configs : List Text)
    → Distinct (map (config_hash md5) found)
    → length found ≤ most
    → some found ≡ some configs
    → Distinct (map (config_hash md5) configs) × (length configs ≤ most)
given md5 most found configs d l h =
    let e : found ≡ configs = cc in
    subst (λ cs. Distinct (map (config_hash md5) cs) × (length cs ≤ most)) e (d, l)

limited-Distinct :
    (md5 : Text → Text) (most : ℕ) (configs : List Text) (a b : Option (List Text))
    → limited (some most) (unique_found md5 a b) ≡ some configs
    → Distinct (map (config_hash md5) configs) × (length configs ≤ most)
unfolding limited unique_found
limited-Distinct md5 most configs none none k = cc
limited-Distinct md5 most configs none (some more) k = cc
limited-Distinct md5 most configs (some found) none k = cc
limited-Distinct md5 most configs (some found) (some more) k =
    let all = unique_from md5 [] (found ++ more) in
    given md5 most (take most all) configs
      (Distinct-take (config_hash md5) most all (unique_from-Distinct md5 [] (found ++ more)))
      (omega (arith, length-take most all)) k

-- No two configs of one channel have one hash, and there are at most as many as asked for.
pub scrape_source-Distinct :
    (md5 : Text → Text) (searches : Searches) (page : Option Text) (most : ℕ) (configs : List Text)
    → scrape_source md5 searches page (some most) ≡ some configs
    → Distinct (map (config_hash md5) configs) × (length configs ≤ most)
unfolding scrape_source parse_configs
scrape_source-Distinct md5 searches none most configs h =
    given md5 most [] configs tt (omega arith) h
scrape_source-Distinct md5 searches (some []) most configs h =
    given md5 most [] configs tt (omega arith) h
scrape_source-Distinct md5 searches (some (c ∷ text)) most configs h =
    limited-Distinct md5 most configs (searches.first (c ∷ text)) (searches.second (c ∷ text)) h

-- No two configs of one subscription have one hash, and there are at most as many as asked for,
-- whether its content is in Base64 or not.
pub scrape_subscription-Distinct :
    (md5 : Text → Text) (b64decode : Text → Option Text) (searches : Searches) (page : Option Text)
    (most : ℕ) (configs : List Text)
    → scrape_subscription md5 b64decode searches page (some most) ≡ some configs
    → Distinct (map (config_hash md5) configs) × (length configs ≤ most)
unfolding scrape_subscription extract_configs
scrape_subscription-Distinct md5 b64decode searches none most configs h =
    given md5 most [] configs tt (omega arith) h
scrape_subscription-Distinct md5 b64decode searches (some []) most configs h =
    given md5 most [] configs tt (omega arith) h
scrape_subscription-Distinct md5 b64decode searches (some (c ∷ text)) most configs h =
    let decoded = decode_base64_content b64decode (c ∷ text) in
    limited-Distinct md5 most configs (searches.first decoded) (searches.second decoded) h
