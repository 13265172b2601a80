-- ===== src/Webhook/Github.antt =====
-- internal/github/adapter.go: the signature check and the normalization of GitHub webhooks.
use hookfly.Base.{
  ℕ, String, Bool, true, false, not, ◌&&◌, ◌||◌, ◌==◌, Option, none, some, [], ◌∷◌, any, length,
  drop, codes, same_codes, in_range, has_prefix, if◌then◌else◌, str_eq,
}
use hookfly.Domain.{Bytes}
use hookfly.Redact.{Fields}
use hookfly.Webhook.Provider.{
  Headers, SafeHeaders, IncomingEvent, Library, decode_object, value_at, string_at,
  number_string_at, positive_id, or_empty, kept_header,
}

abbrev signature_prefix : String
signature_prefix = "sha256="

-- A lower-case hexadecimal digit.
abbrev is_hex : ℕ → Bool
is_hex c = in_range 48 57 c || in_range 97 102 c

-- The length is that of the bytes: a text that passes the digits is ASCII.
unfoldable pub valid_signature : String → Bool
valid_signature signature =
    has_prefix (codes signature) (codes signature_prefix)
    && (length (codes signature) == 71
        && not (any (λ c. not (is_hex c)) (drop 7 (codes signature))))

module _ (lib : Library) where
  abbrev same_mac : Bytes → Option Bytes → Bool
  same_mac expected none = false
  same_mac expected (some provided) = same_codes provided expected

  unfoldable pub authenticate : (secret : String) → Headers → Bytes → Bool
  authenticate secret headers body =
      not (str_eq secret "")
      && (valid_signature (headers "X-Hub-Signature-256")
          && same_mac (lib.hmac_sha256 secret body)
              (lib.decode_hex (lib.trim_prefix (headers "X-Hub-Signature-256") signature_prefix)))

  unfoldable pub normalized_event_name : String → String × Bool
  normalized_event_name event =
      if str_eq event "workflow_run"
      then ("pipeline", true)
      else if str_eq event "workflow_job"
      then ("job", true)
      else if str_eq event "push"
      then ("push", true)
      else if str_eq event "pull_request"
      then ("merge_request", true)
      else (event, false)

  abbrev lowercase : String → String
  lowercase s = lib.to_lower s

  unfoldable pub completed_status : Fields → String → String
  completed_status payload path =
      if str_eq (string_at payload path ("conclusion" ∷ [])) ""
      then lowercase (string_at payload path ("status" ∷ []))
      else lowercase (string_at payload path ("conclusion" ∷ []))

  unfoldable pub github_safe_headers : Headers → SafeHeaders
  github_safe_headers headers =
      ("X-GitHub-Event", headers "X-GitHub-Event") ∷ kept_header headers "X-GitHub-Delivery"

  abbrev pub start_event : Headers → String × Bool → String → IncomingEvent
  start_event headers (name, supported) repository = record {
    repository_external_id = repository;
    event = name;
    ref = "";
    status = "";
    revision = "";
    commit_message = "";
    external_id = "";
    trigger = "";
    delivery_id = headers "X-GitHub-Delivery";
    supported = supported;
    safe_headers = github_safe_headers headers;
  }

  abbrev fill_run : Fields → IncomingEvent → IncomingEvent
  fill_run payload event = record event {
    ref = string_at payload "workflow_run" ("head_branch" ∷ []);
    status = completed_status payload "workflow_run";
    revision = string_at payload "workflow_run" ("head_sha" ∷ []);
    commit_message = string_at payload "workflow_run" ("head_commit" ∷ "message" ∷ []);
    external_id = number_string_at payload "workflow_run" ("id" ∷ []);
    trigger = string_at payload "workflow_run" ("event" ∷ []);
  }

  abbrev fill_job : Fields → IncomingEvent → IncomingEvent
  fill_job payload event = record event {
    ref = string_at payload "workflow_job" ("head_branch" ∷ []);
    status = completed_status payload "workflow_job";
    revision = string_at payload "workflow_job" ("head_sha" ∷ []);
    external_id = number_string_at payload "workflow_job" ("id" ∷ []);
  }

  -- A push of a tag is an event of its own.
  abbrev fill_ref : String → IncomingEvent → IncomingEvent
  fill_ref ref event =
      if lib.has_prefix ref "refs/tags/"
      then record event { event = "tag_push"; ref = lib.trim_prefix ref "refs/tags/" }
      else record event { ref = lib.trim_prefix ref "refs/heads/" }

  abbrev fill_push : Fields → IncomingEvent → IncomingEvent
  fill_push payload event = record (fill_ref (string_at payload "ref" []) event) {
    revision = string_at payload "after" [];
    commit_message = string_at payload "head_commit" ("message" ∷ []);
  }

  abbrev fill_pull_request : Fields → IncomingEvent → IncomingEvent
  fill_pull_request payload event = record event {
    ref = string_at payload "pull_request" ("head" ∷ "ref" ∷ []);
    status = lowercase (string_at payload "pull_request" ("state" ∷ []));
    revision = string_at payload "pull_request" ("head" ∷ "sha" ∷ []);
    external_id = number_string_at payload "number" [];
    trigger = lowercase (string_at payload "action" []);
  }

  unfoldable pub fill_event : String → Fields → IncomingEvent → IncomingEvent
  fill_event header_event payload event =
      if str_eq header_event "workflow_run"
      then fill_run payload event
      else if str_eq header_event "workflow_job"
      then fill_job payload event
      else if str_eq header_event "push"
      then fill_push payload event
      else if str_eq header_event "pull_request"
      then fill_pull_request payload event
      else event

  abbrev fill_supported : Headers → String → Fields → Option String → Option IncomingEvent
  fill_supported headers header_event payload none = none
  fill_supported headers header_event payload (some repository) = some (
      fill_event header_event payload
        (start_event headers (normalized_event_name header_event) repository))

  abbrev normalize_payload : Headers → String → Option Fields → Option IncomingEvent
  normalize_payload headers header_event none = none
  normalize_payload headers header_event (some payload) =
      let id = positive_id lib (value_at payload "repository" ("id" ∷ [])) in
      if (normalized_event_name header_event).1
      then fill_supported headers header_event payload id
      else some (start_event headers (normalized_event_name header_event) (or_empty id))

  abbrev header_event_of : Headers → String
  header_event_of headers = lib.to_lower (lib.trim_space (headers "X-GitHub-Event"))

  -- `none` is an error.
  unfoldable pub normalize : Headers → Bytes → Option IncomingEvent
  normalize headers body =
      if str_eq (header_event_of headers) ""
      then none
      else normalize_payload headers (header_event_of headers) (decode_object lib body)
