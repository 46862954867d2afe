-- ===== src/BuildService/Notifier.antt =====
-- services/build-service/internal/builder/webhook.go: the notices to a job's webhook. The URL
-- parser, the resolver and the HTTP client are parameters; a notice that goes out is recorded.
use text.Mathlib.Text.{◌==◌ as str_eq}
use mini_lambda.Common.{
  ℕ, String, Bool, true, false, not, ◌&&◌, ◌||◌, Option, none, some, List, [], ◌∷◌, leb, ltb,
  if◌then◌else◌,
}
use mini_lambda.BuildService.Jobs.{BuildStatus}

-- What the methods of `net.IP` say of an address.
pub record Ip : Type 0 where
  pub is_loopback : Bool
  pub is_private : Bool
  pub is_link_local_multicast : Bool
  pub is_link_local_unicast : Bool

pub record WebhookPayload : Type 0 where
  pub job_id : String
  pub status : BuildStatus
  pub timestamp : ℕ
  pub error : String

-- `url.Parse` gives a scheme and a host name, `net.LookupIP` the addresses of a host.
pub record Network : Type 0 where
  pub parse : String → Option (String × String)
  pub lookup_ip : String → Option (List Ip)

-- The outside world of one notice: whether ALLOW_PRIVATE_WEBHOOKS is "true", whether the request
-- can be made, the status that answers it, and the time.
pub record Occasion : Type 0 where
  pub allow_private : Bool
  pub request_made : Bool
  pub status_code : Option ℕ
  pub now : ℕ

-- The notices that have gone out, the last one first.
abbrev pub Notices : Type 0
Notices = List (String × WebhookPayload)

-- `isPrivateIP`
unfoldable pub is_private_ip : Ip → Bool
is_private_ip ip =
    ip.is_loopback || ip.is_private || ip.is_link_local_multicast || ip.is_link_local_unicast

-- The loop over the addresses.
unfoldable pub all_public : List Ip → Bool
all_public [] = true
all_public (ip ∷ ips) = let rest = all_public ips in if is_private_ip ip then false else rest

abbrev resolved_public : Option (List Ip) → Bool
resolved_public none = false
resolved_public (some ips) = all_public ips

abbrev parsed_valid : Network → Option (String × String) → Bool
parsed_valid net none = false
parsed_valid net (some (scheme, hostname)) =
    if not (str_eq scheme "http") && not (str_eq scheme "https")
    then false
    else resolved_public (net.lookup_ip hostname)

-- `validateWebhookURL`; true is a nil error.
unfoldable pub validate_webhook_url : Network → Bool → String → Bool
validate_webhook_url net allow_private url =
    if allow_private then true else parsed_valid net (net.parse url)

-- Whether an answer is a nil error.
abbrev pub accepted : Option ℕ → Bool
accepted none = false
accepted (some status_code) = not (ltb status_code 200 || leb 300 status_code)

-- `Notify`; true is a nil error.
unfoldable pub notify :
    Network → Occasion → String → String → BuildStatus → String → Notices → Notices × Bool
notify net at url job_id status error sent =
    if str_eq url ""
    then (sent, true)
    else if not (validate_webhook_url net at.allow_private url)
    then (sent, false)
    else if not at.request_made
    then (sent, false)
    else (
      (url, record { job_id = job_id; status = status; timestamp = at.now; error = error }) ∷ sent,
      accepted at.status_code,
    )

-- `NotifyQueued`
unfoldable pub notify_queued : Network → Occasion → String → String → Notices → Notices × Bool
notify_queued net at url job_id = notify net at url job_id BuildStatus.queued ""

-- `NotifyBuilding`
unfoldable pub notify_building : Network → Occasion → String → String → Notices → Notices × Bool
notify_building net at url job_id = notify net at url job_id BuildStatus.building ""

-- `NotifyCompleted`
unfoldable pub notify_completed : Network → Occasion → String → String → Notices → Notices × Bool
notify_completed net at url job_id = notify net at url job_id BuildStatus.completed ""

-- `NotifyFailed`
unfoldable pub notify_failed :
    Network → Occasion → String → String → String → Notices → Notices × Bool
notify_failed net at url job_id error = notify net at url job_id BuildStatus.failed error
