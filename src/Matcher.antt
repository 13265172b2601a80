-- ===== src/Matcher.antt =====
-- internal/matcher and the same predicates in internal/runtimecfg/generation.go: which route an
-- event takes, and which routes two events could share.
pub mod Overlap
use hookfly.Base.{
  Int64, String, Bool, true, false, ◌&&◌, Option, none, some, List, [], ◌∷◌, str_eq, if◌then◌else◌,
}
use hookfly.Domain.{CanonicalEvent}

-- An absent predicate (nil) matches every value.
pub record RouteMatch : Type 0 where
  pub source : String
  pub repository : String
  pub event : String
  pub ref : Option String
  pub status : Option String
  pub revision : Option String
  pub external_id : Option String
  pub trigger : Option String

pub data ActionType : Type 0 where
  record_only deploy : ActionType
  other : String → ActionType

pub record Route : Type 0 where
  pub id : String
  pub priority : Option Int64
  pub matching : RouteMatch
  pub action : ActionType
  pub targets : List String

unfoldable pub matches_scalar : Option String → String → Bool
matches_scalar none value = true
matches_scalar (some predicate) value = str_eq predicate value

unfoldable pub scalar_domains_overlap : Option String → Option String → Bool
scalar_domains_overlap none right = true
scalar_domains_overlap (some left) none = true
scalar_domains_overlap (some left) (some right) = str_eq left right

unfoldable pub route_matches : RouteMatch → CanonicalEvent → Bool
route_matches m e =
    str_eq m.source e.source
    && (str_eq m.repository e.repository
        && (str_eq m.event e.event
            && (matches_scalar m.ref e.ref
                && (matches_scalar m.status e.status
                    && (matches_scalar m.revision e.revision
                        && (matches_scalar m.external_id e.external_id
                            && matches_scalar m.trigger e.trigger))))))

unfoldable pub overlaps : RouteMatch → RouteMatch → Bool
overlaps l r =
    str_eq l.source r.source
    && (str_eq l.repository r.repository
        && (str_eq l.event r.event
            && (scalar_domains_overlap l.ref r.ref
                && (scalar_domains_overlap l.status r.status
                    && (scalar_domains_overlap l.revision r.revision
                        && (scalar_domains_overlap l.external_id r.external_id
                            && scalar_domains_overlap l.trigger r.trigger))))))

-- The loop over the routes, which stand in validated priority order.
unfoldable pub first_canonical : List Route → CanonicalEvent → Option Route
first_canonical [] e = none
first_canonical (r ∷ rs) e = if route_matches r.matching e then some r else first_canonical rs e
