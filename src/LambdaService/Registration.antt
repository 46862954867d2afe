-- ===== src/LambdaService/Registration.antt =====
-- services/lambda-service/internal/registration/consumer.go: built functions enter the lambda
-- service. The JSON decoder is a parameter; the broker delivers a list of messages, and what is
-- done with each is recorded.
pub mod Pipeline
pub mod Limits
mod Tests
use text.Mathlib.Text.{starts_with}
use mini_lambda.Common.{
  ℕ, String, Bool, true, false, Option, none, some, List, [], ◌∷◌, if◌then◌else◌,
}
use mini_lambda.Common.Int.{ℤ, pos, leb_ℤ, ◌*ℤ◌, wrap64}
use mini_lambda.Common.Text.{cat}
use mini_lambda.Common.Strings.{first_part}
use mini_lambda.Shared.Bucket.{Bucket}
use mini_lambda.Shared.BuildEvent.{FunctionBuiltEvent}
use mini_lambda.Shared.Functions.{Function}
use mini_lambda.Shared.Functions.Interfaces.{FunctionRepository}
use mini_lambda.LambdaService.CodeStore.{Hash, store, retrieve_raw}

abbrev dot : ℕ
dot = b'.'

-- `time.Second`
abbrev pub second : ℕ
second = 1_000_000_000

-- `handlerFilename`
unfoldable pub handler_filename : String → String → String
handler_filename runtime handler =
    let file = first_part dot handler in
    if starts_with runtime "nodejs"
    then cat file ".js"
    else if starts_with runtime "python"
    then cat file ".py"
    else file

abbrev pub or_default : ℤ → ℤ → ℤ
or_default value default = if leb_ℤ value (pos 0) then default else value

-- The function that is registered for an event, with its code under the key.
unfoldable pub function_of : FunctionBuiltEvent → String → ℕ → Function
function_of evt code_key now = record {
  id = evt.function_id;
  name = evt.name;
  runtime = evt.runtime;
  handler = evt.handler;
  code = code_key;
  timeout = wrap64 (or_default evt.timeout_secs (pos 30) *ℤ pos second);
  memory = or_default evt.memory_mb (pos 128);
  environment = [];
  created_at = now;
  updated_at = now;
}

unfoldable pub handler_key : FunctionBuiltEvent → String
handler_key evt = cat evt.s3_prefix (handler_filename evt.runtime evt.handler)

-- What is done with a message.
pub data Settled : Type 0 where
  acked dropped : Settled

module _ (bucket : Bucket) (blake3 : Hash) (prefix : String) (repo : FunctionRepository) where
  abbrev pub State : Type 0
  State = bucket.Objects × repo.Db

  -- From the save on; false is an error.
  unfoldable pub save_function : FunctionBuiltEvent → String → ℕ → State → State × Bool
  save_function evt code_key now (o, d) =
      let (d', saved) = repo.save (function_of evt code_key now) d in ((o, d'), saved)

  abbrev pub if_key : Option String → State → (String → State × Bool) → State × Bool
  if_key none s next = (s, false)
  if_key (some key) s next = next key

  -- From the download of the handler's file on.
  unfoldable pub register_code : FunctionBuiltEvent → Option String → ℕ → State → State × Bool
  register_code evt none now s = (s, false)
  register_code evt (some code) now (o, d) =
      let (o', key) = store bucket blake3 prefix evt.function_id code o in
      if_key key (o', d) (λ key. save_function evt key now (o', d))

  -- `handle`, for a message that is decoded or not.
  unfoldable pub handle : Option FunctionBuiltEvent → ℕ → State → State × Bool
  handle none now s = (s, false)
  handle (some evt) now (o, d) =
      register_code evt (retrieve_raw bucket blake3 prefix (handler_key evt) o) now (o, d)

  -- The loop of `Start`, over the messages that arrive before it is stopped: a message is
  -- acknowledged, or refused without going back to the queue.
  unfoldable pub start :
      (String → Option FunctionBuiltEvent) → List (String × ℕ) → State → State × List Settled
  start decode [] s = (s, [])
  start decode ((body, now) ∷ later) s =
      let (s', ok) = handle (decode body) now s in
      let (last, settled) = start decode later s' in
      (last, (if ok then acked else dropped) ∷ settled)
