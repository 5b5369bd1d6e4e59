-- ===== src/Scraper.antt =====
-- scraper/base.py and scraper/subscription.py: fetching a source, taking its configs, and the loop
-- over the sources. HTTP, the HTML parser and the regular expressions are parameters.
pub mod Laws
pub mod All
use config_manager.Prelude.{
  Bool, not, ◌||◌, ◌%◌, length, filter_where, nat_beq, ℕ, zero, suc, ◌+◌, Option, none, some, List,
  [], ◌∷◌, ◌++◌, take, if◌then◌else◌, ◌==◌,
}
use config_manager.Prelude.Text.{starts_with, strip, Text, text_eq, codes}
use config_manager.Utils.Dedup.{unique_from}
use config_manager.Database.Models.{ScraperSource}

-- `for attempt in range(retries + 1)`, from an attempt on, with `left` further attempts. `none` is an
-- exception, of one attempt and of the whole call.
unfoldable pub attempts : (ℕ → Option Text) → ℕ → ℕ → Option Text
attempts response attempt zero = response attempt
attempts response attempt (suc left) = elim (response attempt) [
  | none ↦ attempts response (attempt + 1) left
  | some text ↦ some text
]

-- `fetch_channel_html`
unfoldable pub fetch : (ℕ → Option Text) → ℕ → Option Text
unfolding attempts
fetch response retries = attempts response 0 retries

-- What the two searches of a page find, in their order: `_extract_text_nodes` with
-- `extract_from_text`, and `_extract_configs_from_html`. For a subscription: `re.findall`, and
-- `extract_from_text`. `none` is an exception.
pub record Searches : Type 0 where
  pub first : Text → Option (List Text)
  pub second : Text → Option (List Text)

-- the two loops, which test and fill the same set
unfoldable pub unique_found :
    (Text → Text) → Option (List Text) → Option (List Text) → Option (List Text)
unique_found md5 (some found) (some more) = some (unique_from md5 [] (found ++ more))
unique_found md5 _ _ = none

-- `parse_configs`
unfoldable pub parse_configs : (Text → Text) → Searches → Text → Option (List Text)
unfolding unique_found
parse_configs md5 searches text = unique_found md5 (searches.first text) (searches.second text)

-- `configs[:max_configs]`, or all of them
unfoldable pub limited : Option ℕ → Option (List Text) → Option (List Text)
limited max_configs none = none
limited none (some configs) = some configs
limited (some most) (some configs) = some (take most configs)

-- `scrape_source`
unfoldable pub scrape_source :
    (Text → Text) → Searches → Option Text → Option ℕ → Option (List Text)
unfolding parse_configs limited
scrape_source md5 searches none max_configs = some []
scrape_source md5 searches (some []) max_configs = some []
scrape_source md5 searches (some (c ∷ text)) max_configs =
    limited max_configs (parse_configs md5 searches (c ∷ text))

-- `fetch_subscription`
unfoldable pub fetch_subscription : (ℕ → Option Text) → ℕ → Option Text
unfolding attempts
fetch_subscription response retries = attempts response 0 retries

-- `clean += "=" * (4 - padding)`, if there is a padding
pad_to : ℕ → Text → Text
pad_to (suc zero) clean = clean ++ codes "==="
pad_to (suc (suc zero)) clean = clean ++ codes "=="
pad_to (suc (suc (suc zero))) clean = clean ++ codes "="
pad_to _ clean = clean

-- `p in text`
unfoldable pub contains : Text → Text → Bool
contains p [] = starts_with p []
contains p (c ∷ s) = starts_with p (c ∷ s) || contains p s

-- `any(p in text for p in (...))`
unfoldable pub has_scheme : Text → Bool
unfolding contains
has_scheme text =
    contains (codes "vmess://") text
    || contains (codes "vless://") text
    || contains (codes "trojan://") text
    || contains (codes "ss://") text

-- the text without line ends and blanks, padded to a multiple of four
unfoldable pub padded : Text → Text
unfolding pad_to
padded content =
    let clean =
      filter_where (λ c. not (nat_beq c b'\n' || nat_beq c b'\r' || nat_beq c b' ')) content in
    pad_to (length clean % 4) clean

-- `_decode_base64_content`; `b64decode` reads a text, without what is no UTF-8, or raises. The first
-- test of the source is contained in the second.
unfoldable pub decode_base64_content : (Text → Option Text) → Text → Text
unfolding has_scheme padded
decode_base64_content b64decode given =
    let content = strip given in
    if has_scheme content then content else elim (b64decode (padded content)) [
      | none ↦ content
      | some decoded ↦ if has_scheme decoded then decoded else content
    ]

-- `_extract_configs`
unfoldable pub extract_configs :
    (Text → Text) → (Text → Option Text) → Searches → Text → Option (List Text)
unfolding unique_found decode_base64_content
extract_configs md5 b64decode searches content =
    let decoded = decode_base64_content b64decode content in
    unique_found md5 (searches.first decoded) (searches.second decoded)

-- `scrape_subscription`
unfoldable pub scrape_subscription :
    (Text → Text) → (Text → Option Text) → Searches → Option Text → Option ℕ → Option (List Text)
unfolding extract_configs limited
scrape_subscription md5 b64decode searches none max_configs = some []
scrape_subscription md5 b64decode searches (some []) max_configs = some []
scrape_subscription md5 b64decode searches (some (c ∷ text)) max_configs =
    limited max_configs (extract_configs md5 b64decode searches (c ∷ text))

-- `results[name] = configs`
unfoldable pub put_result : Text → List Text → List (Text × List Text) → List (Text × List Text)
put_result name configs [] = (name, configs) ∷ []
put_result name configs ((n, old) ∷ rest) =
    if n == name then (n, configs) ∷ rest else (n, old) ∷ put_result name configs rest

-- What the network answers for a source, attempt by attempt, and how its text is searched.
pub record Web : Type 0 where
  pub response : Text → ℕ → Option Text
  pub channel_searches : Searches
  pub subscription_searches : Searches
  pub b64decode : Text → Option Text

-- One source: what it gives, `some none` for an exception and `none` for a type that is skipped.
unfoldable pub scrape_one : (Text → Text) → Web → ℕ → ScraperSource → Option (Option (List Text))
unfolding scrape_source fetch scrape_subscription fetch_subscription
scrape_one md5 web retries src =
    if src.source_type == codes "telegram"
    then some
        (scrape_source md5 web.channel_searches (fetch (web.response src.url) retries) (some 2000))
    else if src.source_type == codes "subscription"
    then some (
        scrape_subscription md5 web.b64decode web.subscription_searches
          (fetch_subscription (web.response src.url) retries) (some 5000))
    else none

-- the entry of a source, which is empty after an exception
unfoldable pub put_outcome :
    Text → Option (Option (List Text)) → List (Text × List Text) → List (Text × List Text)
unfolding put_result
put_outcome name none results = results
put_outcome name (some none) results = put_result name [] results
put_outcome name (some (some configs)) results = put_result name configs results

-- `scrape_all`, the loop over the sources of the database
unfoldable pub scrape_sources :
    (Text → Text) → Web → ℕ → List ScraperSource → List (Text × List Text) → List (Text × List Text)
unfolding scrape_one put_outcome
scrape_sources md5 web retries [] results = results
scrape_sources md5 web retries (src ∷ rest) results =
    scrape_sources md5 web retries rest
      (put_outcome src.name (scrape_one md5 web retries src) results)
