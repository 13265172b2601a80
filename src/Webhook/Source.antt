-- ===== src/Webhook/Source.antt =====
-- internal/runtimecfg/generation.go: the webhook boundary of one source.
use hookfly.Base.{String, Bool, Option, none, some, List, [], ◌∷◌, if◌then◌else◌, str_eq}
use hookfly.Domain.{Bytes, CanonicalEvent}
use hookfly.Webhook.Provider.{Headers, IncomingEvent}

pub record Adapter : Type 0 where
  pub authenticate : Headers → Bytes → Bool
  pub normalize : Headers → Bytes → Option IncomingEvent

pub record Source : Type 0 where
  pub provider : String
  pub id : String
  pub adapter : Adapter
  pub repositories : List (String × String)

-- A repository that is not configured is the empty text.
abbrev pub repository_of : String → List (String × String) → String
repository_of external_id [] = ""
repository_of external_id ((key, id) ∷ rest) =
    let other = repository_of external_id rest in if str_eq key external_id then id else other

abbrev pub canonical_event : Source → IncomingEvent → CanonicalEvent
canonical_event s incoming = record {
  provider = s.provider;
  source = s.id;
  repository = repository_of incoming.repository_external_id s.repositories;
  event = incoming.event;
  ref = incoming.ref;
  status = incoming.status;
  revision = incoming.revision;
  commit_message = incoming.commit_message;
  external_id = incoming.external_id;
  trigger = incoming.trigger;
}

abbrev stamped : Source → Option IncomingEvent → Option (CanonicalEvent × IncomingEvent)
stamped s none = none
stamped s (some incoming) = some (canonical_event s incoming, incoming)

-- `Source.Normalize`.
unfoldable pub normalize : Source → Headers → Bytes → Option (CanonicalEvent × IncomingEvent)
normalize s headers body = stamped s (s.adapter.normalize headers body)
