-- ===== src/Config/Priority.antt =====
-- internal/config/validate.go: which route of a validated configuration an event takes.
use hookfly.Base.{
  Bool, true, false, ◌<◌, some, List, [], ◌∷◌, ◌++◌, ◌≡◌, ◌≢◌, sym, ap, ◌∙◌, In, All, is_some,
  lex_le, order_by, In-order_by, order_by-IsOrdered, IsOrdered, In-append, inl, inr, map,
  Bool-cases, arith, String,
}
use hookfly.Domain.{CanonicalEvent}
use hookfly.Matcher.{Route, route_matches, overlaps, first_canonical}
use hookfly.Matcher.Overlap.{overlaps_iff, first_canonical_first}
use hookfly.Config.Bundle.{SshTunnel, Target, Bundle}
use hookfly.Config.Checks.{
  Stdlib, valid, check_all, refuse, require, add_unique, validate_identifier, overlapping_routes,
  priority_required, >>=-eq-valid, >>-eq-valid, require-eq-valid, refuse-eq-valid, check_all-In,
  valid_inj,
}
use hookfly.Config.Sources.{Repositories, validate_sources}
use hookfly.Config.Targets.{validate_connections, validate_targets}
use hookfly.Config.Tunnels.{validate_ssh_tunnels}
use hookfly.Config.Routes.{
  validate_route_match, validate_action, validate_each_route, validate_overlaps, validate_routes,
  routes_clash, priority_of, route_key,
}
use hookfly.Config.Validate.{validate_and_canonicalize, canonicalize}

overlaps_sym :
    (l r : Route) → overlaps l.matching r.matching ≡ true → overlaps r.matching l.matching ≡ true
overlaps_sym l r h =
    let (e, p, q) = (overlaps_iff l.matching r.matching).0 h in
    (overlaps_iff r.matching l.matching).1 (e, q, p)

routes_clash_sym : (l r : Route) → routes_clash l r ≡ false → routes_clash r l ≡ false
unfolding routes_clash
routes_clash_sym l r h = ground (arith, overlaps_sym r l)

validate_overlaps-In :
    (rs : List Route)
    → validate_overlaps rs ≡ valid tt
    → (l r : Route) → In l rs
    → In r rs
    → l.id ≢ r.id
    → routes_clash l r ≡ false
unfolding validate_overlaps
validate_overlaps-In [] h l r m k different = elim m [ ]
validate_overlaps-In (x ∷ xs) h l r m k different =
    let (this, others) =
      >>-eq-valid (check_all (λ y. refuse (routes_clash x y) (overlapping_routes x.id y.id)) xs)
        (validate_overlaps xs) h in
    let from_first = λ (y : Route) (i : In y xs).
      refuse-eq-valid (routes_clash x y) (overlapping_routes x.id y.id) (
        check_all-In (λ y. refuse (routes_clash x y) (overlapping_routes x.id y.id)) xs this y i) in
    elim m [
      | inl p ↦ elim k [
        | inl q ↦ absurd (different (ap (λ (z : Route). z.id) p ∙ sym (ap (λ (z : Route). z.id) q)))
        | inr i ↦ rw p (from_first r i)
      ]
      | inr j ↦ elim k [
        | inl q ↦ rw q (routes_clash_sym x l (from_first l j))
        | inr i ↦ validate_overlaps-In xs others l r j i different
      ]
    ]

-- What the first loop has checked of each route.
pub validate_each_route-In :
    (repositories : Repositories) (targets known : List String) (rs : List Route)
    → validate_each_route repositories targets known rs ≡ valid tt
    → (r : Route) → In r rs
    → (is_some r.priority ≡ true) × (validate_action r targets ≡ valid tt)
unfolding validate_each_route
validate_each_route-In repositories targets known [] h r m = elim m [ ]
validate_each_route-In repositories targets known (x ∷ xs) h r m =
    let (a, h1) = >>-eq-valid (validate_identifier "route" x.id) _ h in
    let (b, h2) = >>-eq-valid (add_unique "route" x.id known) _ h1 in
    let (c, h3) = >>-eq-valid (require (is_some x.priority) (priority_required x.id)) _ h2 in
    let (d, h4) = >>-eq-valid (validate_route_match x.id x.matching repositories) _ h3 in
    let (e, h5) = >>-eq-valid (validate_action x targets) _ h4 in
    elim m [
      | inl p ↦ rw p (require-eq-valid (is_some x.priority) (priority_required x.id) c, e)
      | inr k ↦ validate_each_route-In repositories targets (x.id ∷ known) xs h5 r k
    ]

ordered_after :
    (before after : List Route) (r : Route)
    → IsOrdered route_key (before ++ r ∷ after)
    → (y : Route) → In y after
    → lex_le (route_key r) (route_key y) ≡ true
ordered_after [] after r o y m = o.0 y m
ordered_after (x ∷ xs) after r o y m = ordered_after xs after r o.1 y m

-- The checks that a validated configuration has passed, and what it was made of.
pub validate_and_canonicalize-eq-valid :
    (std : Stdlib) (b : Bundle) {b' : Bundle}
    → validate_and_canonicalize std b ≡ valid b'
    → (tunnels : List SshTunnel) × (repositories : Repositories) × (connections : List
        (String × String))
      × (targets : List Target) × (validate_targets std connections [] b.targets ≡ valid targets)
      × (validate_routes b.routes repositories (map (λ (t : Target). t.id) targets) ≡ valid tt)
      × (canonicalize (record b { ssh_tunnels = tunnels; targets = targets }) ≡ b')
unfolding validate_and_canonicalize
validate_and_canonicalize-eq-valid std b h =
    let (tunnels, p, h1) = >>=-eq-valid (validate_ssh_tunnels std b) _ h in
    let (repositories, q, h2) = >>=-eq-valid (validate_sources std b) _ h1 in
    let (connections, r, h3) =
      >>=-eq-valid (validate_connections std b.dokploy_connections b.http_connections) _ h2 in
    let (targets, s, h4) = >>=-eq-valid (validate_targets std connections [] b.targets) _ h3 in
    let (t, h5) =
      >>-eq-valid (validate_routes b.routes repositories (map (λ (t : Target). t.id) targets)) _
        h4 in
    (tunnels, repositories, connections, targets, s, t, valid_inj h5)

pub first_canonical-In :
    (rs : List Route) (e : CanonicalEvent) (r : Route) → first_canonical rs e ≡ some r → In r rs
unfolding first_canonical
first_canonical-In [] e r h = ground arith
first_canonical-In (x ∷ xs) e r h = elim (Bool-cases (route_matches x.matching e)) [
  | inl hit ↦ inl (sym (some_inj (rw hit at h)))
  | inr miss ↦ inr (first_canonical-In xs e r (rw miss at h))
]
  where
    some_inj : {x y : Route} → some x ≡ some y → x ≡ y
    some_inj q = cc

strictly :
    (x y : Route)
    → lex_le (route_key x) (route_key y) ≡ true
    → overlaps x.matching y.matching ≡ true
    → routes_clash x y ≡ false
    → priority_of x.priority < priority_of y.priority
unfolding lex_le routes_clash
strictly x y l p c = ground arith

chosen_least :
    (rs : List Route) (e : CanonicalEvent) (r s : Route)
    → IsOrdered route_key rs
    → first_canonical rs e ≡ some r
    → In s rs
    → route_matches s.matching e ≡ true
    → s.id ≢ r.id
    → routes_clash r s ≡ false
    → priority_of r.priority < priority_of s.priority
chosen_least rs e r s o h m t different c =
    let (before, after, split, missed, hit) = first_canonical_first rs e r h in
    elim (In-append before (r ∷ after) s (rw split at m)) [
      | inl k ↦ absurd (none_match before s missed k t)
      | inr k ↦ elim k [
        | inl q ↦ absurd (different (ap (λ (z : Route). z.id) q))
        | inr i ↦ strictly r s (ordered_after before after r (rw split at o) s i) (overlap hit t) c
      ]
    ]
  where
    none_match :
        (xs : List Route) (x : Route)
        → All (λ b. route_matches b.matching e ≡ false) xs
        → In x xs
        → route_matches x.matching e ≡ true
        → ⊥
    none_match [] x a k t = k
    none_match (y ∷ ys) x a k t = elim k [
      | inl q ↦ clash (route_matches y.matching e) (rw q at t) a.0
      | inr i ↦ none_match ys x a.1 i t
    ]
      where
        clash : (b : Bool) → b ≡ true → b ≡ false → ⊥
        clash b p q = cc

    overlap :
        route_matches r.matching e ≡ true
        → route_matches s.matching e ≡ true
        → overlaps r.matching s.matching ≡ true
    overlap p q = (overlaps_iff r.matching s.matching).1 (e, p, q)

-- In a validated configuration, of all the routes that match an event the one that the event takes has
-- the least priority, and no other has the same.
pub chosen_route-least :
    (std : Stdlib) (b b' : Bundle)
    → validate_and_canonicalize std b ≡ valid b'
    → (e : CanonicalEvent) (r : Route) → first_canonical b'.routes e ≡ some r
    → (s : Route) → In s b'.routes
    → route_matches s.matching e ≡ true
    → s.id ≢ r.id
    → priority_of r.priority < priority_of s.priority
unfolding validate_routes canonicalize
chosen_route-least std b b' h e r found s m t different =
    let (tunnels, repositories, connections, targets, _, checked, made) =
      validate_and_canonicalize-eq-valid std b h in
    let (_, disjoint) = >>-eq-valid _ (validate_overlaps b.routes) checked in
    let same : order_by route_key b.routes ≡ b'.routes = ap (λ (x : Bundle). x.routes) made in
    let in_b =
      λ (x : Route) (i : In x b'.routes). In-order_by route_key x b.routes (rw (sym same) at i) in
    chosen_least b'.routes e r s (rw same at (order_by-IsOrdered route_key b.routes)) found m t
      different
      (validate_overlaps-In b.routes disjoint r s (in_b r (first_canonical-In b'.routes e r found))
        (in_b s m) (λ q. different (sym q)))
