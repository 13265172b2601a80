-- ===== src/Config/References.antt =====
-- internal/config/validate.go and runtimecfg/generation.go: routing by a generation that was made of a
-- validated configuration finds every target that it names, once.

use hookfly.Base.{
  Bool, true, false, Option, none, some, List, [], ◌∷◌, ◌≡◌, ◌≢◌, refl, sym, ap, ◌∙◌, In, is_some,
  map, str_eq, str_eq_self, str_eq→≡, In-order_by_conv, In-order_by, inl, inr, Bool-cases,
  Option-cases, arith, String, any-In, codes,
}
use hookfly.Domain.{CanonicalEvent, NewDelivery, RouteDecision, RoutingResult}
use hookfly.Matcher.{Route, ActionType, first_canonical}
use hookfly.Worker.Drainer.{
  RouteTarget, Generation, route, act, deliveries_to, delivery_to, decide, unmatched_decision,
}
use hookfly.Store.Routing.{is_empty}
use hookfly.Config.Bundle.{Target, Bundle}
use hookfly.Config.Checks.{
  Stdlib, valid, require, refuse, is_known, has_none, duplicate_target, unknown_target,
  invalid_action, >>-eq-valid, require-eq-valid, refuse-eq-valid,
}
use hookfly.Config.Routes.{
  validate_action_of, route_key, validate_routes, validate_each_route, validate_action,
  validate_route_targets,
}
use hookfly.Config.Validate.{validate_and_canonicalize, canonicalize}
use hookfly.Config.Priority.{
  validate_and_canonicalize-eq-valid, validate_each_route-In, first_canonical-In,
}

-- No text stands twice in the list.
abbrev pub NoRepeats : List String → Type 0
NoRepeats [] = Unit
NoRepeats (x ∷ xs) = ((y : String) → In y xs → x ≢ y) × NoRepeats xs

is_known-In : (x y : String) (ids : List String) → x ≡ y → In y ids → is_known x ids ≡ true
is_known-In x y ids e m = any-In (str_eq x) ids y m (rw e (str_eq_self y))

-- What the check of a route's targets means.
validate_route_targets-IsKnown :
    (r : String) (targets seen ids : List String)
    → validate_route_targets r targets seen ids ≡ valid tt
    → ((id : String) → In id ids → (is_known id targets ≡ true) × (is_known id seen ≡ false))
      × NoRepeats ids
unfolding validate_route_targets
validate_route_targets-IsKnown r targets seen [] h = ((λ id m. elim m [ ]), tt)
validate_route_targets-IsKnown r targets seen (x ∷ xs) h =
    let (a, h1) = >>-eq-valid (refuse (is_known x seen) (duplicate_target r x)) _ h in
    let (b, h2) = >>-eq-valid (require (is_known x targets) (unknown_target r x)) _ h1 in
    let (known, distinct) = validate_route_targets-IsKnown r targets (x ∷ seen) xs h2 in
    (
      λ id m. elim m [
        | inl q ↦ rw q (
          require-eq-valid (is_known x targets) (unknown_target r x) b,
          refuse-eq-valid (is_known x seen) (duplicate_target r x) a,
        )
        | inr k ↦ ((known id k).0, unseen id x (known id k).1)
      ],
      ((λ y k q. repeated y x (known y k).1 (sym q)), distinct),
    )
  where
    unseen : (id x : String) → is_known id (x ∷ seen) ≡ false → is_known id seen ≡ false
    unseen id x k = ground arith

    repeated : (y x : String) → is_known y (x ∷ seen) ≡ false → y ≡ x → ⊥
    repeated y x k q = clash (is_known y (x ∷ seen)) (is_known-In y x (x ∷ seen) q (inl refl)) k
      where
        clash : (b : Bool) → b ≡ true → b ≡ false → ⊥
        clash b p q = cc

-- Targets that a generation has become one delivery each.
deliveries_to-eq-some :
    (g : Generation) (ids : List String)
    → ((id : String) → In id ids → is_some (g.targets id) ≡ true)
    → ((id : String) (t : RouteTarget) → g.targets id ≡ some t → t.id ≡ id)
    → (ds : List NewDelivery) × (deliveries_to g ids ≡ some ds)
      × (map (λ (n : NewDelivery). n.target_id) ds ≡ ids)
unfolding deliveries_to
deliveries_to-eq-some g [] found named = ([], refl, refl)
deliveries_to-eq-some g (x ∷ xs) found named =
    let (ds, e, q) = deliveries_to-eq-some g xs (λ id m. found id (inr m)) named in
    elim (Option-cases (g.targets x)) [
      | inl n ↦ absurd (missing (g.targets x) (found x (inl refl)) n)
      | inr (t, n) ↦ (delivery_to t ∷ ds, rw (n, e) refl, rw (named x t n) (ap (◌∷◌ x) q))
    ]
  where
    missing : (o : Option RouteTarget) → is_some o ≡ true → o ≡ none → ⊥
    missing none p q = ground arith
    missing (some t) p q = ground arith

-- The IDs of the targets that a run of the code has checked.
abbrev target_ids : List Target → List String
target_ids ts = map (λ (t : Target). t.id) ts

is_known-target_ids :
    (id : String) (ts : List Target)
    → is_known id (target_ids ts) ≡ true
    → (t : Target) × In t ts × (t.id ≡ id)
is_known-target_ids id [] h = absurd (ground arith)
is_known-target_ids id (t ∷ ts) h = elim (Bool-cases (str_eq id t.id)) [
  | inl e ↦ (t, inl refl, sym (str_eq→≡ id t.id e))
  | inr e ↦ let (s, m, q) = is_known-target_ids id ts (rw e at h) in (s, inr m, q)
]

none_empty : {A : Type 0} (xs : List A) → has_none xs ≡ is_empty xs
none_empty [] = refl
none_empty (x ∷ xs) = refl

routed :
    (g : Generation) (r : Route) (a : ActionType) (targets : List String)
    → validate_action_of r targets a ≡ valid tt
    → ((id : String) → is_known id targets ≡ true → is_some (g.targets id) ≡ true)
    → ((id : String) (t : RouteTarget) → g.targets id ≡ some t → t.id ≡ id)
    → (d : RouteDecision) × (act g r a ≡ some d)
      × NoRepeats (map (λ (n : NewDelivery). n.target_id) d.deliveries)
unfolding act
routed g r ActionType.record_only targets h found named =
    let empty =
      sym (none_empty r.targets) ∙ require-eq-valid (has_none r.targets) (invalid_action r.id) h in
    (decide g r RoutingResult.record_only [], rw empty refl, tt)
routed g r ActionType.deploy targets h found named =
    let (a, h1) = >>-eq-valid (refuse (has_none r.targets) (invalid_action r.id)) _ h in
    let some_target =
      sym (none_empty r.targets) ∙ refuse-eq-valid (has_none r.targets) (invalid_action r.id) a in
    let (known, distinct) = validate_route_targets-IsKnown r.id targets [] r.targets h1 in
    let (ds, e, q) = deliveries_to-eq-some g r.targets (λ id m. found id (known id m).0) named in
    (decide g r RoutingResult.deploy ds, rw (some_target, e) refl, rw (sym q) at distinct)
routed g r (ActionType.other name) targets h found named = absurd (ground arith)

-- Routing by a generation that has the routes of a validated configuration, and under their IDs its
-- targets, decides on every event, and a decision has no two deliveries for one target.
pub route-eq-some :
    (std : Stdlib) (b b' : Bundle)
    → validate_and_canonicalize std b ≡ valid b'
    → (g : Generation) → g.routes ≡ b'.routes
    → ((t : Target) → In t b'.targets → is_some (g.targets t.id) ≡ true)
    → ((id : String) (t : RouteTarget) → g.targets id ≡ some t → t.id ≡ id)
    → (e : CanonicalEvent)
    → (d : RouteDecision) × (route g e ≡ some d)
      × NoRepeats (map (λ (n : NewDelivery). n.target_id) d.deliveries)
unfolding validate_routes canonicalize route validate_action
route-eq-some std b b' h g same compiled named e =
    let (tunnels, repositories, connections, targets, _, checked, made) =
      validate_and_canonicalize-eq-valid std b h in
    let (each, _) =
      >>-eq-valid (validate_each_route repositories (target_ids targets) [] b.routes) _ checked in
    let found = λ (id : String) (k : is_known id (target_ids targets) ≡ true).
      let (t, m, q) = is_known-target_ids id targets k in
      rw q at (
        compiled t (
          rw (ap (λ (x : Bundle). x.targets) made) at
            (In-order_by_conv (λ (x : Target). codes x.id) t targets m))) in
    elim (Option-cases (first_canonical g.routes e)) [
      | inl n ↦ (unmatched_decision, rw (n, route) refl, tt)
      | inr (r, f) ↦
          let m = first_canonical-In b'.routes e r (rw same at f) in
          let i =
            In-order_by route_key r b.routes (rw (sym (ap (λ (x : Bundle). x.routes) made)) at m) in
          let (d, q, distinct) =
            routed g r r.action (target_ids targets)
              (validate_each_route-In repositories (target_ids targets) [] b.routes each r i).1
              found named in
          (d, rw (f, route) q, distinct)
    ]
