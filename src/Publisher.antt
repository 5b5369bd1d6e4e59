-- ===== src/Publisher.antt =====
-- publisher/broadcaster.py: sending a message to the channel, its text, and the worker's loop over
-- the queue. The replies of the server are a parameter.
pub mod Sending
pub mod Message
pub mod Pool
use config_manager.Prelude.{
  ℕ, zero, suc, ◌+◌, Bool, true, false, ◌&&◌, Option, none, some, List, [], ◌∷◌, ◌++◌, nat_beq,
  if◌then◌else◌, ◌==◌,
}
use config_manager.Prelude.Text.{Text, text_eq, codes}
use config_manager.Prelude.Case.{Unicode, upper}
use config_manager.Utils.Flag.{get_flag}
use config_manager.Utils.Protocol.{detect_protocol}
use config_manager.Parser.{channel_name}
use config_manager.Pipeline.{PublishItem}

-- Reading the body of a response: it is read, `aiohttp` or a timeout fails, or another exception is
-- raised.
pub data Body : Type 0 where
  readable broken odd : Body

-- What a request gives: a status with a body, a failure of `aiohttp` or a timeout, or another
-- exception.
pub data Reply : Type 0 where
  answered : ℕ → Body → Reply
  failed crashed : Reply

-- What `send_message` does with a reply: it sends again, returns, or raises.
pub data Verdict : Type 0 where
  again : Verdict
  return : Bool → Verdict
  raise : Verdict

-- `except (asyncio.TimeoutError, aiohttp.ClientError)`; the argument is `retries < PUBLISH_MAX_RETRIES`.
unfoldable pub on_failure : Bool → Verdict
on_failure true = again
on_failure false = return false

unfoldable pub on_body : Bool → Verdict → Body → Verdict
unfolding on_failure
on_body may_retry next readable = next
on_body may_retry next broken = on_failure may_retry
on_body may_retry next odd = raise

unfoldable pub verdict : Bool → Reply → Verdict
unfolding on_body on_failure
verdict may_retry (answered status body) =
    if nat_beq status 429 && may_retry
    then on_body may_retry again body
    else if nat_beq status 200
    then return true
    else on_body may_retry (return false) body
verdict may_retry failed = on_failure may_retry
verdict may_retry crashed = raise

-- The value returned, or `none` for an exception, and the number of requests; the first argument is
-- those of the call that follows.
unfoldable pub conclude : Option Bool × ℕ → Verdict → Option Bool × ℕ
conclude (result, requests) again = (result, suc requests)
conclude next (return ok) = (some ok, 1)
conclude next raise = (none, 1)

-- `send_message`, from a number of retries on, with `left` further ones allowed
unfoldable pub send_from : (ℕ → Reply) → ℕ → ℕ → Option Bool × ℕ
unfolding verdict conclude
send_from reply retries zero = conclude (none, 0) (verdict false (reply retries))
send_from reply retries (suc left) =
    conclude (send_from reply (retries + 1) left) (verdict true (reply retries))

abbrev pub publish_max_retries : ℕ
publish_max_retries = 5

unfoldable pub send_message : (ℕ → Reply) → Option Bool × ℕ
unfolding send_from
send_message reply = send_from reply 0 publish_max_retries

-- `html.escape`
unfoldable pub escape_char : ℕ → Text
escape_char c =
    if nat_beq c b'&'
    then codes "&amp;"
    else if nat_beq c b'<'
    then codes "&lt;"
    else if nat_beq c b'>'
    then codes "&gt;"
    else if nat_beq c b'"'
    then codes "&quot;"
    else if nat_beq c b'\''
    then codes "&#x27;"
    else c ∷ []

unfoldable pub escape : Text → Text
unfolding escape_char
escape [] = []
escape (c ∷ s) = escape_char c ++ escape s

-- `COUNTRY_LABELS.get(code, code)`
country_label : List (Text × Text) → Text → Text
country_label [] code = code
country_label ((k, label) ∷ rest) code = if k == code then label else country_label rest code

-- `format_message`; the labels are those of constants.py, `line` is `LINE`.
unfoldable pub format_message : Unicode → List (Text × Text) → Text → Text → PublishItem → Text
unfolding escape country_label
format_message u labels line channel item =
    let header =
      get_flag u item.country_code
      ++ codes " <b>"
      ++ country_label labels item.country_code
      ++ codes "</b> ┃ ⚙"
      ++ (65039 ∷ codes " ")
      ++ upper u (detect_protocol u item.config) in
    let body = codes "<pre>" ++ escape item.config ++ codes "</pre>" in
    let name = channel_name channel in
    let footer =
      codes "📢 <a href=\"https://t.me/" ++ name ++ codes "\">t.me/" ++ name ++ codes "</a>" in
    header ++ codes "\n" ++ line ++ codes "\n" ++ body ++ codes "\n" ++ line ++ codes "\n" ++ footer

-- How a worker ends: at the signal to stop, with what is left in the queue; by an exception; or it
-- waits for the queue to be filled.
pub data End : Type 0 where
  stopped : List (Option PublishItem) → End
  died : List (Option PublishItem) → End
  waiting : End

-- `worker`: the items whose message was accepted, and how the worker ends.
unfoldable pub worker :
    (PublishItem → Option Bool) → List (Option PublishItem) → List PublishItem × End
worker send [] = ([], waiting)
worker send (none ∷ rest) = ([], stopped rest)
worker send (some item ∷ rest) =
    let (published, how) = worker send rest in
    elim (send item) [
      | none ↦ ([], died rest)
      | some ok ↦ (if ok then item ∷ published else published, how)
    ]
