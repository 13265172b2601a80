-- ===== src/Worker/Drainer.antt =====
-- internal/worker/drainer.go and the routing of internal/runtimecfg/generation.go: deferred events
-- are routed by the current generation, in the order of their acceptance.
pub mod Laws
pub mod Progress
use hookfly.Base.{
  ℕ, zero, suc, String, Bool, true, false, Option, none, some, List, [], ◌∷◌, if◌then◌else◌, find?,
  ◌*◌, ltb,
}
use hookfly.Domain.{Bytes, Millis, CanonicalEvent, RoutingResult, NewDelivery, RouteDecision}
use hookfly.Matcher.{Route, ActionType, first_canonical}
use hookfly.Webhook.Source.{Source}
use hookfly.Store.Tables.{Db, StoreError, Result, ok, err}
use hookfly.Store.Routing.{DeferredEvent, peek_deferred, finalize_deferred, count_queued, is_empty}
use hookfly.Runtime.Manager.{Manager, is_draining, set_idle_if_queue_empty}

-- What routing reads of a compiled target: its snapshot and its fingerprint.
pub record RouteTarget : Type 0 where
  pub id : String
  pub snapshot : Bytes
  pub fingerprint : String

-- What routing and the webhooks read of a generation: the routes and the maps of targets and sources,
-- those of GitLab by the hash of their token. `rule_snapshot` encodes a route as JSON.
pub record Generation : Type 0 where
  pub digest : String
  pub routes : List Route
  pub targets : String → Option RouteTarget
  pub sources : String → String → Option Source
  pub gitlab_sources : Bytes → Option Source
  pub rule_snapshot : Route → Bytes

abbrev pub delivery_to : RouteTarget → NewDelivery
delivery_to t = record {
  target_id = t.id;
  target_snapshot = t.snapshot;
  dispatch_key = t.fingerprint;
}

abbrev cons_found : Option RouteTarget → Option (List NewDelivery) → Option (List NewDelivery)
cons_found (some t) (some ds) = some (delivery_to t ∷ ds)
cons_found _ _ = none

-- One delivery for each target of the route; a missing target is an error.
unfoldable pub deliveries_to : Generation → List String → Option (List NewDelivery)
deliveries_to g [] = some []
deliveries_to g (id ∷ ids) = cons_found (g.targets id) (deliveries_to g ids)

abbrev pub unmatched_decision : RouteDecision
unmatched_decision = record {
  routing_result = RoutingResult.unmatched;
  rule_id = "";
  rule_snapshot = [];
  deliveries = [];
}

abbrev pub decide : Generation → Route → RoutingResult → List NewDelivery → RouteDecision
decide g r result deliveries = record {
  routing_result = result;
  rule_id = r.id;
  rule_snapshot = g.rule_snapshot r;
  deliveries = deliveries;
}

abbrev deploy_to : Generation → Route → Option (List NewDelivery) → Option RouteDecision
deploy_to g r none = none
deploy_to g r (some ds) = some (decide g r RoutingResult.deploy ds)

-- The action of the route that matched; `none` is an error.
unfoldable pub act : Generation → Route → ActionType → Option RouteDecision
act g r ActionType.record_only =
    if is_empty r.targets then some (decide g r RoutingResult.record_only []) else none
act g r ActionType.deploy =
    if is_empty r.targets then none else deploy_to g r (deliveries_to g r.targets)
act g r (ActionType.other name) = none

-- `Generation.Route`.
unfoldable pub route : Generation → CanonicalEvent → Option RouteDecision
route g e = elim (first_canonical g.routes e) [
  | none ↦ some unmatched_decision
  | some r ↦ act g r r.action
]

pub data DrainError : Type 0 where
  store_failed : StoreError → DrainError
  route_unavailable : DrainError

pub record Drained : Type 0 where
  pub processed : Bool
  pub error : Option DrainError
  pub manager : Manager Generation
  pub db : Db

abbrev pub finalized : Manager Generation → Db → Result (Bool × Db) → Drained
finalized m db (err e) = record {
  processed = false;
  error = some (store_failed e);
  manager = m;
  db = db;
}
finalized m db (ok (changed, db')) = record {
  processed = changed;
  error = none;
  manager = m;
  db = db';
}

-- The finalization of the queue head that was peeked at, under the same read gate.
abbrev pub finalize : DeferredEvent → Manager Generation → Db → Option RouteDecision → Drained
finalize d m db none = record {
  processed = false;
  error = some route_unavailable;
  manager = m;
  db = db;
}
finalize d m db (some decision) = finalized m db (finalize_deferred d decision m.current.digest db)

-- What a draining round does with the head of the queue.
abbrev pub drain : Option DeferredEvent → Manager Generation → Db → Drained
drain none m db = record {
  processed = false;
  error = none;
  manager = (set_idle_if_queue_empty (some (count_queued db)) m).1;
  db = db;
}
drain (some d) m db = finalize d m db (route m.current d.event.canonical)

-- `RunOnce`: at most one queue head, or back to idle where no deferred event is left.
unfoldable pub run_once : Manager Generation → Db → Drained
run_once m db =
    if is_draining m.state
    then drain (peek_deferred db) m db
    else record { processed = false; error = none; manager = m; db = db }

abbrev pub unless_failed : Option DrainError → Drained → Drained → Drained
unless_failed none round rest = rest
unless_failed (some e) round rest = round

-- The rounds of `Run` without the waiting in between, up to the first that fails.
unfoldable pub rounds : ℕ → Manager Generation → Db → Drained
rounds zero m db = record { processed = false; error = none; manager = m; db = db }
rounds (suc n) m db =
    let round = run_once m db in
    let rest = rounds n round.manager round.db in unless_failed round.error round rest

-- The waiting time and the next retry delay that `Run` computes after a round.
abbrev pub drain_retry_minimum : Millis
drain_retry_minimum = 100

abbrev pub drain_retry_maximum : Millis
drain_retry_maximum = 5000

abbrev pub drain_level_check : Millis
drain_level_check = 1000

pub record Pause : Type 0 where
  pub wait : Millis
  pub retry : Millis

abbrev capped : Millis → Millis
capped d = if ltb drain_retry_maximum d then drain_retry_maximum else d

-- The `bool` tells that the round failed; a round that processed an event is followed at once.
unfoldable pub next_pause : Bool → Bool → Millis → Pause
next_pause true processed retry = record { wait = retry; retry = capped (retry * 2) }
next_pause false true retry = record { wait = 0; retry = drain_retry_minimum }
next_pause false false retry = record { wait = drain_level_check; retry = drain_retry_minimum }
