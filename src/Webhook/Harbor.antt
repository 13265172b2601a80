-- ===== src/Webhook/Harbor.antt =====
-- internal/harbor/adapter.go: the authorization check and the normalization of Harbor webhooks.
use hookfly.Base.{
  String, Bool, true, false, not, ◌&&◌, ◌||◌, Option, none, some, List, [], ◌∷◌, same_codes,
  if◌then◌else◌, str_eq,
}
use hookfly.Domain.{Bytes}
use hookfly.Webhook.Provider.{Headers, SafeHeaders, IncomingEvent, Library, kept_header}

pub record Resource : Type 0 where
  pub digest : String
  pub tag : String

pub record EventData : Type 0 where
  pub resources : List Resource
  pub repository_full_name : String

pub record Envelope : Type 0 where
  pub spec_version : String
  pub id : String
  pub event_type : String
  pub event_data : EventData
  pub cloud_data : EventData

-- `cloud_data` is the field `data`. The decoded envelope, and whether nothing follows it.
pub record DecodedEnvelope : Type 0 where
  pub envelope : Envelope
  pub at_end : Bool

module _ (lib : Library) (decode : Bytes → Option DecodedEnvelope) where
  unfoldable pub authenticate : (authorization : String) → Headers → Bytes → Bool
  authenticate authorization headers body =
      not (str_eq authorization "")
      && (not (str_eq (headers "Authorization") "")
          && same_codes (lib.bytes (headers "Authorization")) (lib.bytes authorization))

  abbrev is_one_of : String → String → String → Bool
  is_one_of event old new = str_eq event old || str_eq event new

  abbrev event_name : String → String × Bool
  event_name event =
      if is_one_of event "PUSH_ARTIFACT" "harbor.artifact.pushed"
      then ("artifact_push", true)
      else if is_one_of event "PULL_ARTIFACT" "harbor.artifact.pulled"
      then ("artifact_pull", false)
      else if is_one_of event "DELETE_ARTIFACT" "harbor.artifact.deleted"
      then ("artifact_delete", false)
      else if is_one_of event "SCANNING_COMPLETED" "harbor.scan.completed"
      then ("scan_completed", false)
      else if is_one_of event "SCANNING_STOPPED" "harbor.scan.stopped"
      then ("scan_stopped", false)
      else if is_one_of event "SCANNING_FAILED" "harbor.scan.failed"
      then ("scan_failed", false)
      else if is_one_of event "QUOTA_EXCEED" "harbor.quota.exceeded"
      then ("quota_exceeded", false)
      else if is_one_of event "QUOTA_WARNING" "harbor.quota.warned"
      then ("quota_warning", false)
      else if is_one_of event "REPLICATION" "harbor.replication.status.changed"
      then ("replication", false)
      else if is_one_of event "TAG_RETENTION" "harbor.tag_retention.finished"
      then ("tag_retention", false)
      else (lib.to_lower event, false)

  unfoldable pub normalized_event_name : String → String × Bool
  normalized_event_name event = event_name (lib.trim_space event)

  unfoldable pub harbor_safe_headers : Headers → SafeHeaders
  harbor_safe_headers headers = kept_header headers "Content-Type"

  abbrev is_cloud_event : Envelope → Bool
  is_cloud_event payload = not (str_eq payload.spec_version "")

  abbrev data_of : Envelope → EventData
  data_of payload = if is_cloud_event payload then payload.cloud_data else payload.event_data

  abbrev id_of : Envelope → String
  id_of payload = if is_cloud_event payload then lib.trim_space payload.id else ""

  abbrev pub start_event : Headers → Envelope → IncomingEvent
  start_event headers payload = record {
    repository_external_id = lib.trim_space (data_of payload).repository_full_name;
    event = (normalized_event_name payload.event_type).0;
    ref = "";
    status = "";
    revision = "";
    commit_message = "";
    external_id = id_of payload;
    trigger = "";
    delivery_id = id_of payload;
    supported = (normalized_event_name payload.event_type).1;
    safe_headers = harbor_safe_headers headers;
  }

  abbrev fill_artifact : IncomingEvent → List Resource → Option IncomingEvent
  fill_artifact event [] = none
  fill_artifact event (r ∷ rs) =
      if str_eq (lib.trim_space r.digest) ""
      then none
      else some (record event { ref = lib.trim_space r.tag; revision = lib.trim_space r.digest })

  abbrev fill_supported : EventData → IncomingEvent → Option IncomingEvent
  fill_supported contents event =
      if str_eq event.repository_external_id ""
      then none
      else fill_artifact event contents.resources

  unfoldable pub normalize_envelope : Headers → Envelope → Option IncomingEvent
  normalize_envelope headers payload =
      let event = start_event headers payload in
      if str_eq event.event ""
      then none
      else if event.supported
      then fill_supported (data_of payload) event
      else some event

  abbrev single_envelope : Headers → Option DecodedEnvelope → Option IncomingEvent
  single_envelope headers none = none
  single_envelope headers (some d) =
      if d.at_end then normalize_envelope headers d.envelope else none

  -- `none` is an error.
  unfoldable pub normalize : Headers → Bytes → Option IncomingEvent
  normalize headers body = single_envelope headers (decode body)
