-- ===== src/Examples/Webhooks.antt =====
-- A webhook on an empty store, directly and while the queue drains: the theorems at concrete inputs.
use mathlib.Core.Option
use mathlib.Core.List.{head?}
use hookfly.Store.Headers.{safe_headers_json}
use hookfly.Base.{
  suc, int, String, true, false, none, some, [], ◌∷◌, ◌++◌, ◌≡◌, refl, arith, codes, str_eq,
  if◌then◌else◌, lex_le, order_by, join, List, contains_codes,
}
use hookfly.Domain.{CanonicalEvent, RouteDecision}
use hookfly.Redact.{Fields, text, object, number, end, field}
use hookfly.Store.Invariant.{Inv}
use hookfly.Store.Routing.{
  DeferredEvent, insert_event, insert_deliveries, insert_delivery, validate_deliveries,
  validate_persisted_event, ingest, ingest_deferred, peek_deferred, count_queued,
}
use hookfly.Store.Routing.Queue.{waiting_events, QueueInv, peek_deferred-waiting_events}
use hookfly.Store.Routing.Arrivals.{ingest_deferred-waiting_events, ingest-waiting_events}
use hookfly.Store.Routing.Departures.{finalize_deferred-waiting_events}
use hookfly.Runtime.Manager.{State, Manager, is_draining, new_manager}
use hookfly.Matcher.{first_canonical, route_matches, matches_scalar}
use hookfly.Worker.Drainer.{Generation, route, act, deliveries_to, rounds}
use hookfly.Worker.Drainer.Progress.{IsDrained, rounds-IsDrained}
use hookfly.Webhook.Provider.{
  Headers, IncomingEvent, Library, decode_object, positive_id, value_at, string_at,
}
use hookfly.Webhook.Source.{Source, normalize}
use hookfly.Examples.Configured.{example_generation, example_routed}
use hookfly.Webhook.Github
use hookfly.Webhook.Framing.{
  write_identity_bytes, read_component, read_component-write_identity_bytes,
}
use hookfly.Webhook.Identity.{
  AreShort, identity_components, delivery_identity, delivery_identity-identity_components,
}
use hookfly.Webhook.Handler.{
  read, Request, Encoding, is_accepted, decide, has_forward_delivery, store_command, serve,
}
use hookfly.Webhook.Authentic.{named_source, Verified, serve-Verified}
use hookfly.Webhook.Acceptance.{serve-Invs, serve_refused, serve-reload_defers}
use hookfly.Examples.{
  empty_db, empty_db-Inv, sample_codec, first_result, pushed_db, pushed_ok, push_command,
  push_event,
}
use hookfly.Examples.Inputs.{
  deferred_command, deferred_db, deferred_ok, head_event, deploy_decision, routed_db, routed_ok,
}

empty_db-QueueInv : QueueInv empty_db
empty_db-QueueInv = record { ascending = tt; distinct = tt; waits = λ q m. absurd m }

ingest_deferred-waiting_events_example :
    QueueInv deferred_db × (waiting_events deferred_db ≡ waiting_events empty_db ++ 10 ∷ [])
ingest_deferred-waiting_events_example =
    ingest_deferred-waiting_events sample_codec deferred_command empty_db first_result deferred_db
      empty_db-QueueInv deferred_ok

deferred_db-QueueInv : QueueInv deferred_db
deferred_db-QueueInv =
    (ingest_deferred-waiting_events sample_codec deferred_command empty_db first_result deferred_db
      empty_db-QueueInv deferred_ok).0

ingest-waiting_events_example :
    QueueInv pushed_db × (waiting_events pushed_db ≡ waiting_events empty_db)
ingest-waiting_events_example =
    ingest-waiting_events sample_codec push_command empty_db first_result pushed_db
      empty_db-QueueInv pushed_ok

peek_deferred-waiting_events_example :
    Option.map (λ (d : DeferredEvent). d.event.id) (peek_deferred deferred_db)
    ≡ head? (waiting_events deferred_db)
peek_deferred-waiting_events_example = peek_deferred-waiting_events deferred_db deferred_db-QueueInv

head_peeked : peek_deferred deferred_db ≡ some head_event
unfolding peek_deferred lex_le ingest_deferred ingest insert_event insert_deliveries insert_delivery
    validate_deliveries validate_persisted_event join order_by
head_peeked = refl

finalize_deferred-waiting_events_example :
    (true ≡ true)
    × (waiting_events deferred_db ≡ 10 ∷ waiting_events routed_db)
    × QueueInv routed_db
finalize_deferred-waiting_events_example =
    finalize_deferred-waiting_events deferred_db head_event deploy_decision "digest" routed_db true
      deferred_db-QueueInv head_peeked routed_ok

abbrev drained_by : Manager Generation
drained_by = record (new_manager example_generation 0) { state = State.draining }

drained_by-draining : is_draining drained_by.state ≡ true
unfolding new_manager
drained_by-draining = refl

routed_by : (e : CanonicalEvent) → (d : RouteDecision) × (route drained_by.current e ≡ some d)
unfolding new_manager
routed_by = example_routed

rounds-IsDrained_example :
    IsDrained (rounds (suc (count_queued deferred_db)) drained_by deferred_db)
rounds-IsDrained_example =
    rounds-IsDrained drained_by drained_by-draining routed_by deferred_db deferred_db-QueueInv

read_component-write_identity_bytes_example :
    read_component (write_identity_bytes (104 ∷ 105 ∷ []) ++ 33 ∷ []) ≡ (104 ∷ 105 ∷ [], 33 ∷ [])
read_component-write_identity_bytes_example =
    read_component-write_identity_bytes (104 ∷ 105 ∷ []) (33 ∷ []) (ground arith)

abbrev push_payload : Fields
push_payload =
    field "repository" (object (field "id" (number "7") end))
      (field "ref" (text "refs/heads/main") (field "after" (text "abc") end))

abbrev pub webhook_library : Library
webhook_library = record {
  to_lower = λ s. s;
  trim_space = λ s. s;
  trim_prefix = λ s p. s;
  has_prefix = λ s p. false;
  words = λ s. s ∷ [];
  join_words = λ ws s. s;
  parse_int = λ s. some (int 7);
  format_int = λ n. "7";
  decode = λ b. some (record { value = object push_payload; at_end = true });
  bytes = λ s. codes s;
  hmac_sha256 = λ s b. 1 ∷ [];
  sha256 = λ b. b;
  decode_hex = λ s. some (1 ∷ []);
  encode_hex = λ b. "identity";
}

abbrev push_headers : Headers
push_headers name =
    if str_eq name "X-GitHub-Event"
    then "push"
    else if str_eq name "X-GitHub-Delivery"
    then "d1"
    else "sha256=0123456789abcdef0123456789abcdef0123456789abcdef0123456789abcdef"

abbrev github_source : Source
github_source = record {
  provider = "github";
  id = "gh";
  adapter = record {
    authenticate = Github.authenticate webhook_library "secret";
    normalize = Github.normalize webhook_library;
  };
  repositories = ("7", "app") ∷ [];
}

abbrev serving : Manager Generation
serving =
    new_manager
      (record example_generation {
        sources = λ p id. if str_eq id "gh" then some github_source else none;
      })
      0

abbrev plain_encoding : Encoding
plain_encoding = record {
  marshal_headers = λ h. some (0 ∷ 1 ∷ 2 ∷ []);
  marshal_request = λ r. some [];
  snapshot_type = λ b. some "forward";
}

abbrev push_to : String → Request
push_to source = record {
  method = "POST";
  host = "hooks";
  raw_query = "";
  source_id = source;
  headers = push_headers;
  body = read (1 ∷ []);
}

serve-Invs_example :
    Inv
      (serve webhook_library plain_encoding sample_codec "github" 5
        (push_to "gh")
        serving
        empty_db).db
    × QueueInv
        (serve webhook_library plain_encoding sample_codec "github" 5
          (push_to "gh")
          serving
          empty_db).db
serve-Invs_example =
    serve-Invs webhook_library plain_encoding sample_codec "github" 5 (push_to "gh") serving
      empty_db empty_db-Inv empty_db-QueueInv

webhook_accepted :
    is_accepted
      (serve webhook_library plain_encoding sample_codec "github" 5
        (push_to "gh")
        serving
        empty_db).response
    ≡ true
unfolding serve store_command decide has_forward_delivery normalize Github.authenticate
    Github.valid_signature Github.normalize Github.normalized_event_name Github.fill_event
    Github.github_safe_headers decode_object positive_id value_at string_at route act deliveries_to
    first_canonical route_matches matches_scalar ingest insert_event insert_deliveries
    insert_delivery validate_deliveries validate_persisted_event delivery_identity new_manager codes
webhook_accepted = refl

unknown_source :
    is_accepted
      (serve webhook_library plain_encoding sample_codec "github" 5
        (push_to "other")
        serving
        empty_db).response
    ≡ false
unfolding serve new_manager
unknown_source = refl

serve_refused_example :
    ((serve webhook_library plain_encoding sample_codec "github" 5
        (push_to "other")
        serving
        empty_db).db
      ≡ empty_db)
    × ((serve webhook_library plain_encoding sample_codec "github" 5
          (push_to "other")
          serving
          empty_db).manager
        ≡ serving)
serve_refused_example =
    serve_refused webhook_library plain_encoding sample_codec "github" 5 (push_to "other") serving
      empty_db unknown_source

abbrev deferring : Manager Generation
deferring = record serving { state = State.waiting }

serve-reload_defers_example :
    (serve webhook_library plain_encoding sample_codec "github" 5
      (push_to "gh")
      deferring
      empty_db).db.deliveries
    ≡ empty_db.deliveries
serve-reload_defers_example =
    serve-reload_defers webhook_library plain_encoding sample_codec "github" 5 (push_to "gh")
      deferring empty_db refl

abbrev delivered : IncomingEvent
delivered = record {
  repository_external_id = "7";
  event = "push";
  ref = "main";
  status = "";
  revision = "abc";
  commit_message = "";
  external_id = "";
  trigger = "";
  delivery_id = "d1";
  supported = true;
  safe_headers = [];
}

abbrev redelivered : IncomingEvent
redelivered = record delivered { commit_message = "again" }

components_short : AreShort (identity_components webhook_library push_event delivered (1 ∷ []))
unfolding identity_components codes
components_short = (ground arith, (ground arith, (ground arith, (ground arith, tt))))

same_identity :
    delivery_identity webhook_library push_event delivered (1 ∷ [])
    ≡ delivery_identity webhook_library push_event redelivered (1 ∷ [])
unfolding delivery_identity identity_components
same_identity = refl

delivery_identity-identity_components_example :
    identity_components webhook_library push_event delivered (1 ∷ [])
    ≡ identity_components webhook_library push_event redelivered (1 ∷ [])
unfolding identity_components
delivery_identity-identity_components_example =
    delivery_identity-identity_components webhook_library push_event push_event delivered
      redelivered (1 ∷ []) (1 ∷ []) components_short components_short (λ h. refl) (λ h. refl)
      same_identity

-- Of a token and an accepted header, the accepted one is stored.
token_dropped : safe_headers_json sample_codec (0 ∷ 1 ∷ 2 ∷ []) ≡ 0 ∷ 2 ∷ []
unfolding safe_headers_json codes contains_codes
token_dropped = refl

serve-Verified_example :
    (s : Source) × (named_source webhook_library plain_encoding sample_codec "github" 5
        (push_to "gh")
        serving
        empty_db
      ≡ some s)
    × Verified webhook_library plain_encoding sample_codec "github" 5
        (push_to "gh")
        serving
        empty_db
        s
serve-Verified_example =
    serve-Verified webhook_library plain_encoding sample_codec "github" 5 (push_to "gh") serving
      empty_db webhook_accepted
