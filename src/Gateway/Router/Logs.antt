-- ===== src/Gateway/Router/Logs.antt =====
-- services/gateway/internal/router/stream.go: the log of a build, sent to the client line by line
-- as Redis gives it. The entries of a Redis stream have increasing IDs, here numbers with 0 for
-- "0-0". A turn of the loop is an argument: what its two checks say, and what `XRead` answers.
pub mod Order
use text.Mathlib.Text.{◌==◌ as str_eq, starts_with}
use mini_lambda.Common.{
  ℕ, String, Bool, true, false, ◌||◌, Option, none, some, List, [], ◌∷◌, ◌++◌, ◌⊎◌, inl, inr, not,
  if◌then◌else◌,
}
use mini_lambda.Common.Text.{cat}
use mini_lambda.Common.Strings.{split, trim, replace_char, slash}
use mini_lambda.Gateway.Router.{HttpRequest, Headers, HttpResponse, http_error}

abbrev pub newline : ℕ
newline = b'\n'

abbrev job_of_parts : List String → Option String
job_of_parts (jobs ∷ id ∷ logs ∷ []) =
    if str_eq jobs "jobs"
    then if str_eq logs "logs" then if str_eq id "" then none else some id else none
    else none
job_of_parts _ = none

-- `parseBuildLogsPath`
unfoldable pub parse_build_logs_path : String → Option String
parse_build_logs_path path = job_of_parts (split slash (trim slash path))

-- `buildlog.StreamKey` of shared/buildlog/stream.go
unfoldable pub stream_key : String → String
stream_key job_id = cat "build_logs:" job_id

-- An entry of the stream.
pub record Message : Type 0 where
  pub id : ℕ
  pub log : String

-- One turn of the loop. `read` is `XRead` after an ID: none is an error, and no message is
-- `redis.Nil` or an empty answer.
pub record Turn : Type 0 where
  pub timed_out : Bool
  pub cancelled : Bool
  pub read : ℕ → Option (List Message)

-- The event that is written for a line.
unfoldable pub event_of : String → String
event_of line = cat "data: " (cat (replace_char newline " " line) "\n\n")

unfoldable pub ends_log : String → Bool
ends_log line = str_eq line "__BUILD_DONE__" || starts_with line "__BUILD_FAILED__:"

-- What the loop has written, the last ID it has seen, and whether it has seen the last line.
pub record Progress : Type 0 where
  pub written : List String
  pub last_id : ℕ
  pub ended : Bool

abbrev pub stopped : ℕ → Progress
stopped last_id = record { written = []; last_id = last_id; ended = false }

-- The messages of one answer.
unfoldable pub deliver : List Message → ℕ → Progress
deliver [] last_id = stopped last_id
deliver (m ∷ later) last_id =
    let rest = deliver later m.id in
    if ends_log m.log
    then record { written = event_of m.log ∷ []; last_id = m.id; ended = true }
    else record rest { written = event_of m.log ∷ rest.written }

-- Whether the loop goes on after an answer, with the given turns.
abbrev pub resume : Progress → (ℕ → Progress) → Progress
resume p next =
    let rest = next p.last_id in
    if p.ended then p else record rest { written = p.written ++ rest.written }

-- What a turn makes of an answer, and what follows it.
unfoldable pub after_read : Option (List Message) → ℕ → (ℕ → Progress) → Progress
after_read none last_id next = stopped last_id
after_read (some messages) last_id next = resume (deliver messages last_id) next

-- The loop, for as many turns as are given.
unfoldable pub stream : List Turn → ℕ → Progress
stream [] last_id = stopped last_id
stream (t ∷ later) last_id =
    if t.timed_out || t.cancelled
    then stopped last_id
    else after_read (t.read last_id) last_id (stream later)

-- Whether there is a Redis client, and whether the writer can flush.
unfoldable pub handle_build_logs :
    Bool → Bool → HttpRequest → List Turn → HttpResponse ⊎ (String × Progress)
handle_build_logs has_redis can_flush r turns = elim (parse_build_logs_path r.path) [
  | none ↦ inl (http_error 400 "invalid path: expected /jobs/{job_id}/logs")
  | some id ↦
      if not has_redis
      then inl (http_error 503 "log streaming unavailable")
      else if not can_flush
      then inl (http_error 500 "streaming not supported")
      else inr (stream_key id, stream turns 0)
]
