-- ===== src/Config/Routes.antt =====
-- internal/config/validate.go: the routes, their overlaps and their order.
use hookfly.Base.{
  ℕ, Int64, String, Bool, ◌&&◌, ◌==◌, Option, none, some, List, [], ◌∷◌, codes, find?, is_some,
}
use hookfly.Matcher.{RouteMatch, Route, ActionType, overlaps}
use hookfly.Config.Checks.{
  unsupported, priority_required, unknown_source, unknown_repository, invalid_action,
  duplicate_target, unknown_target, overlapping_routes, Checked, invalid, valid, ◌>>◌, require,
  refuse, check_all, validate_identifier, is_known, add_unique, has_none,
}
use hookfly.Config.Sources.{has_key, Repositories}

abbrev check_repository :
    (route repository : String)
    → Option (String × List String)
    → (source : String) → Checked (Unit {0})
check_repository route repository none source = invalid (unknown_source route source)
check_repository route repository (some known) source = do
  validate_identifier "route repository" repository
  require (is_known repository known.1) (unknown_repository route repository)

abbrev canonical_events : List String
canonical_events = "pipeline" ∷ "job" ∷ "push" ∷ "tag_push" ∷ "merge_request" ∷ "artifact_push" ∷ []

unfoldable pub validate_route_match : String → RouteMatch → Repositories → Checked (Unit {0})
validate_route_match route m repositories = do
  validate_identifier "route source" m.source
  check_repository route m.repository (find? (has_key m.source) repositories) m.source
  require (is_known m.event canonical_events) (unsupported "event" m.event)

-- The targets of a deploying route, with those met so far.
unfoldable pub validate_route_targets :
    (route : String) → (targets seen : List String) → List String → Checked (Unit {0})
validate_route_targets route targets seen [] = valid tt
validate_route_targets route targets seen (id ∷ ids) = do
  refuse (is_known id seen) (duplicate_target route id)
  require (is_known id targets) (unknown_target route id)
  validate_route_targets route targets (id ∷ seen) ids

abbrev pub validate_action_of : Route → List String → ActionType → Checked (Unit {0})
validate_action_of r targets ActionType.record_only =
    require (has_none r.targets) (invalid_action r.id)
validate_action_of r targets ActionType.deploy = do
  refuse (has_none r.targets) (invalid_action r.id)
  validate_route_targets r.id targets [] r.targets
validate_action_of r targets (ActionType.other name) = invalid (unsupported "action" name)

unfoldable pub validate_action : Route → List String → Checked (Unit {0})
validate_action r targets = validate_action_of r targets r.action

-- The first loop of `validateRoutes`.
unfoldable pub validate_each_route :
    Repositories → (targets known : List String) → List Route → Checked (Unit {0})
validate_each_route repositories targets known [] = valid tt
validate_each_route repositories targets known (r ∷ rs) = do
  validate_identifier "route" r.id
  add_unique "route" r.id known
  require (is_some r.priority) (priority_required r.id)
  validate_route_match r.id r.matching repositories
  validate_action r targets
  validate_each_route repositories targets (r.id ∷ known) rs

-- `*route.Priority`, which the first loop has found not to be nil.
abbrev pub priority_of : Option Int64 → Int64
priority_of (some p) = p
priority_of none = 0

unfoldable pub routes_clash : Route → Route → Bool
routes_clash l r =
    priority_of l.priority == priority_of r.priority && overlaps l.matching r.matching

-- The second loop: two routes of one priority share no event.
unfoldable pub validate_overlaps : List Route → Checked (Unit {0})
validate_overlaps [] = valid tt
validate_overlaps (l ∷ rs) = do
  check_all (λ r. refuse (routes_clash l r) (overlapping_routes l.id r.id)) rs
  validate_overlaps rs

unfoldable pub validate_routes :
    List Route → Repositories → (targets : List String) → Checked (Unit {0})
validate_routes routes repositories targets = do
  validate_each_route repositories targets [] routes
  validate_overlaps routes

-- The order of the routes: by priority, then by ID.
abbrev pub route_key : Route → List ℕ
route_key r = priority_of r.priority ∷ codes r.id
