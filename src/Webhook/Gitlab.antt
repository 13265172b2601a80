-- ===== src/Webhook/Gitlab.antt =====
-- internal/gitlab: the token check and the normalization of GitLab webhooks.
use hookfly.Base.{
  String, Bool, true, false, not, ◌&&◌, ◌||◌, ◌==◌, Option, none, some, [], ◌∷◌, ◌++◌, length,
  same_codes, if◌then◌else◌, str_eq,
}
use hookfly.Domain.{Bytes}
use hookfly.Redact.{Value, array, object, Items, nil, cons, Fields}
use hookfly.Webhook.Provider.{
  Headers, SafeHeaders, IncomingEvent, Library, decode_object, lookup, value_at, string_at,
  number_string_at, positive_id, or_empty, kept_header,
}

-- The last element of an array.
abbrev last_item : Items → Option Value
last_item nil = none
last_item (cons v nil) = some v
last_item (cons v (cons w items)) = last_item (cons w items)

abbrev last_of : Option Value → Option Value
last_of (some (array items)) = last_item items
last_of _ = none

abbrev text_in : String → Option Value → String
text_in key (some (object fields)) = string_at fields key []
text_in key _ = ""

unfoldable pub last_object_string_at : Fields → (array_key value_key : String) → String
last_object_string_at payload array_key value_key =
    text_in value_key (last_of (lookup array_key payload))

module _ (lib : Library) where
  unfoldable pub token_matches : (provided expected : String) → Bool
  token_matches provided expected =
      not (str_eq provided "")
      && (not (str_eq expected "")
          && (length (lib.bytes provided) == length (lib.bytes expected)
              && same_codes (lib.bytes provided) (lib.bytes expected)))

  unfoldable pub authenticate : (token : String) → Headers → Bytes → Bool
  authenticate token headers body = token_matches (headers "X-Gitlab-Token") token

  abbrev event_name : String → String × Bool
  event_name normalized =
      if str_eq normalized "pipeline hook"
      then ("pipeline", true)
      else if str_eq normalized "job hook"
      then ("job", true)
      else if str_eq normalized "push hook"
      then ("push", true)
      else if str_eq normalized "tag push hook"
      then ("tag_push", true)
      else if str_eq normalized "merge request hook"
      then ("merge_request", true)
      else (lib.join_words (lib.words normalized) "_", false)

  unfoldable pub normalized_event_name : String → String × Bool
  normalized_event_name header = event_name (lib.to_lower (lib.trim_space header))

  unfoldable pub gitlab_delivery_id : Headers → String
  gitlab_delivery_id headers =
      if str_eq (headers "X-Gitlab-Event-UUID") ""
      then headers "X-Gitlab-Webhook-UUID"
      else headers "X-Gitlab-Event-UUID"

  unfoldable pub gitlab_safe_headers : Headers → SafeHeaders
  gitlab_safe_headers headers =
      ("X-Gitlab-Event", headers "X-Gitlab-Event") ∷ kept_header headers "X-Gitlab-Event-UUID"
      ++ kept_header headers "X-Gitlab-Webhook-UUID"

  abbrev repository_value : Fields → String → Option Value
  repository_value payload event =
      if str_eq event "pipeline" || str_eq event "merge_request"
      then value_at payload "project" ("id" ∷ [])
      else value_at payload "project_id" []

  unfoldable pub required_repository_external_id : Fields → String → Option String
  required_repository_external_id payload event = positive_id lib (repository_value payload event)

  abbrev first_present : Option Value → Option Value → Option Value
  first_present (some v) second = some v
  first_present none second = second

  unfoldable pub optional_repository_external_id : Fields → String
  optional_repository_external_id payload = or_empty (
      positive_id lib
        (first_present (value_at payload "project" ("id" ∷ [])) (value_at payload "project_id" [])))

  abbrev lowercase : String → String
  lowercase s = lib.to_lower s

  abbrev pub start_event : Headers → String × Bool → String → IncomingEvent
  start_event headers (name, supported) repository = record {
    repository_external_id = repository;
    event = name;
    ref = "";
    status = "";
    revision = "";
    commit_message = "";
    external_id = "";
    trigger = "";
    delivery_id = gitlab_delivery_id headers;
    supported = supported;
    safe_headers = gitlab_safe_headers headers;
  }

  abbrev fill_pipeline : Fields → IncomingEvent → IncomingEvent
  fill_pipeline payload event = record event {
    ref = string_at payload "object_attributes" ("ref" ∷ []);
    status = lowercase (string_at payload "object_attributes" ("status" ∷ []));
    revision = string_at payload "object_attributes" ("sha" ∷ []);
    commit_message = string_at payload "commit" ("message" ∷ []);
    external_id = number_string_at payload "object_attributes" ("id" ∷ []);
    trigger = lowercase (string_at payload "object_attributes" ("source" ∷ []));
  }

  abbrev fill_job : Fields → IncomingEvent → IncomingEvent
  fill_job payload event = record event {
    ref = string_at payload "ref" [];
    status = lowercase (string_at payload "build_status" []);
    revision = string_at payload "sha" [];
    commit_message = string_at payload "commit" ("message" ∷ []);
    external_id = number_string_at payload "pipeline_id" [];
  }

  abbrev fill_push : (prefix : String) → Fields → IncomingEvent → IncomingEvent
  fill_push prefix payload event = record event {
    ref = lib.trim_prefix (string_at payload "ref" []) prefix;
    revision = string_at payload "after" [];
    commit_message = last_object_string_at payload "commits" "message";
  }

  abbrev fill_merge_request : Fields → IncomingEvent → IncomingEvent
  fill_merge_request payload event = record event {
    ref = string_at payload "object_attributes" ("source_branch" ∷ []);
    status = lowercase (string_at payload "object_attributes" ("state" ∷ []));
    revision = string_at payload "object_attributes" ("last_commit" ∷ "id" ∷ []);
    commit_message = string_at payload "object_attributes" ("last_commit" ∷ "message" ∷ []);
    external_id = number_string_at payload "object_attributes" ("id" ∷ []);
    trigger = lowercase (string_at payload "object_attributes" ("action" ∷ []));
  }

  unfoldable pub fill_event : String → Fields → IncomingEvent → IncomingEvent
  fill_event name payload event =
      if str_eq name "pipeline"
      then fill_pipeline payload event
      else if str_eq name "job"
      then fill_job payload event
      else if str_eq name "push"
      then fill_push "refs/heads/" payload event
      else if str_eq name "tag_push"
      then fill_push "refs/tags/" payload event
      else if str_eq name "merge_request"
      then fill_merge_request payload event
      else event

  abbrev fill_supported : Headers → String × Bool → Fields → Option String → Option IncomingEvent
  fill_supported headers name payload none = none
  fill_supported headers name payload (some repository) =
      some (fill_event name.0 payload (start_event headers name repository))

  abbrev normalize_payload : Headers → String × Bool → Option Fields → Option IncomingEvent
  normalize_payload headers name none = none
  normalize_payload headers name (some payload) =
      if name.1
      then fill_supported headers name payload (required_repository_external_id payload name.0)
      else some (start_event headers name (optional_repository_external_id payload))

  -- `none` is an error.
  unfoldable pub normalize : Headers → Bytes → Option IncomingEvent
  normalize headers body =
      let name = normalized_event_name (headers "X-Gitlab-Event") in
      if str_eq name.0 "" then none else normalize_payload headers name (decode_object lib body)
