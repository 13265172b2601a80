-- ===== src/Matcher/Overlap.antt =====
-- What the route predicates mean: overlap is the existence of a common event, and the first match wins.
use hookfly.Base.{
  String, true, false, Option, none, some, List, [], ◌∷◌, ◌++◌, ◌≡◌, refl, ◌↔◌, All, arith, eq_iff,
  str_eq_self, str_eq→≡, inl, inr, Bool-cases,
}
use hookfly.Domain.{CanonicalEvent}
use hookfly.Matcher.{
  RouteMatch, Route, matches_scalar, scalar_domains_overlap, route_matches, overlaps,
  first_canonical,
}

-- A value that both scalar predicates accept.
abbrev common_scalar : Option String → Option String → String
common_scalar none none = ""
common_scalar none (some r) = r
common_scalar (some l) right = l

scalar_overlap_witness :
    (l r : Option String)
    → scalar_domains_overlap l r ≡ true
    → (matches_scalar l (common_scalar l r) ≡ true) × (matches_scalar r (common_scalar l r) ≡ true)
unfolding matches_scalar scalar_domains_overlap
scalar_overlap_witness none none h = (refl, refl)
scalar_overlap_witness none (some r) h = (refl, str_eq_self r)
scalar_overlap_witness (some l) none h = (str_eq_self l, refl)
scalar_overlap_witness (some l) (some r) h = (str_eq_self l, rw (str_eq→≡ l r h) (str_eq_self r))

scalar_common_overlap :
    (l r : Option String) (v : String)
    → matches_scalar l v ≡ true
    → matches_scalar r v ≡ true
    → scalar_domains_overlap l r ≡ true
unfolding matches_scalar scalar_domains_overlap
scalar_common_overlap none r v h k = refl
scalar_common_overlap (some l) none v h k = refl
scalar_common_overlap (some l) (some r) v h k = ground (arith, eq_iff l v, eq_iff r v, eq_iff l r)

-- The event that the required fields and the common scalars of two predicates describe.
abbrev common_event : RouteMatch → RouteMatch → CanonicalEvent
common_event l r = record {
  provider = "";
  source = l.source;
  repository = l.repository;
  event = l.event;
  ref = common_scalar l.ref r.ref;
  status = common_scalar l.status r.status;
  revision = common_scalar l.revision r.revision;
  commit_message = "";
  external_id = common_scalar l.external_id r.external_id;
  trigger = common_scalar l.trigger r.trigger;
}

overlaps-common_event :
    (l r : RouteMatch)
    → overlaps l r ≡ true
    → (route_matches l (common_event l r) ≡ true) × (route_matches r (common_event l r) ≡ true)
unfolding overlaps route_matches
overlaps-common_event l r h = ground (
  arith,
  str_eq_self l.source,
  str_eq_self l.repository,
  str_eq_self l.event,
  eq_iff l.source r.source,
  eq_iff l.repository r.repository,
  eq_iff l.event r.event,
  eq_iff r.source l.source,
  eq_iff r.repository l.repository,
  eq_iff r.event l.event,
  scalar_overlap_witness l.ref r.ref,
  scalar_overlap_witness l.status r.status,
  scalar_overlap_witness l.revision r.revision,
  scalar_overlap_witness l.external_id r.external_id,
  scalar_overlap_witness l.trigger r.trigger,
)

common_event-overlaps :
    (l r : RouteMatch) (e : CanonicalEvent)
    → route_matches l e ≡ true
    → route_matches r e ≡ true
    → overlaps l r ≡ true
unfolding overlaps route_matches
common_event-overlaps l r e h k = ground (
  arith,
  eq_iff l.source e.source,
  eq_iff r.source e.source,
  eq_iff l.source r.source,
  eq_iff l.repository e.repository,
  eq_iff r.repository e.repository,
  eq_iff l.repository r.repository,
  eq_iff l.event e.event,
  eq_iff r.event e.event,
  eq_iff l.event r.event,
  scalar_common_overlap l.ref r.ref e.ref,
  scalar_common_overlap l.status r.status e.status,
  scalar_common_overlap l.revision r.revision e.revision,
  scalar_common_overlap l.external_id r.external_id e.external_id,
  scalar_common_overlap l.trigger r.trigger e.trigger,
)

-- Two route predicates overlap exactly when some canonical event matches both.
pub overlaps_iff :
    (l r : RouteMatch)
    → (overlaps l r ≡ true)
      ↔ ((e : CanonicalEvent) × (route_matches l e ≡ true) × (route_matches r e ≡ true))
overlaps_iff l r = (
  λ h. let (p, q) = overlaps-common_event l r h in (common_event l r, p, q),
  λ w. common_event-overlaps l r w.0 w.1 w.2,
)

-- The chosen route matches the event and no route before it does.
pub first_canonical_first :
    (rs : List Route) (e : CanonicalEvent) (r : Route)
    → first_canonical rs e ≡ some r
    → (before : List Route) × (after : List Route) × (rs ≡ before ++ r ∷ after)
      × All (λ b. route_matches b.matching e ≡ false) before
      × (route_matches r.matching e ≡ true)
unfolding first_canonical
first_canonical_first [] e r h = ground arith
first_canonical_first (x ∷ xs) e r h = elim (Bool-cases (route_matches x.matching e)) [
  | inl hit ↦ ([], xs, ground arith, tt, ground arith)
  | inr miss ↦
      let (before, after, split, none_before, found) =
        first_canonical_first xs e r (rw miss at h) in
      (x ∷ before, after, ground arith, (miss, none_before), found)
]
