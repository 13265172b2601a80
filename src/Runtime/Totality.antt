-- ===== src/Runtime/Totality.antt =====
-- internal/runtimecfg/generation.go: a generation that compiles routes every event.
use hookfly.Base.{
  Option, none, some, List, [], ◌∷◌, ◌≡◌, refl, sym, ap, In, is_some, map, find?-In, find?-true,
  str_eq, str_eq_self, str_eq→≡, Bool-cases, inl, inr, arith,
}
use hookfly.Domain.{CanonicalEvent, NewDelivery, RouteDecision}
use hookfly.Config.Bundle.{Target, Bundle}
use hookfly.Config.Checks.{Checked, valid, invalid}
use hookfly.Config.Validate.{validate_and_canonicalize}
use hookfly.Config.References.{NoRepeats, route-eq-some}
use hookfly.Worker.Drainer.{RouteTarget, Generation, route}
use hookfly.Runtime.Resolve.{Bound}
use hookfly.Runtime.Compile.{compile_target}
use hookfly.Runtime.Generation.{
  Toolbox, route_target, add_target, compile_targets, have_urls, generation_of, with_targets,
  compile_valid, compile,
}

module _ (tools : Toolbox) where
  -- Every target has its compiled one.
  compile_targets-In :
      (b : Bundle) (xs : List Target) (ts : List RouteTarget)
      → compile_targets tools b xs ≡ some ts
      → (t : Target) → In t xs
      → (r : RouteTarget) × In r ts × (r.id ≡ t.id)
  unfolding compile_targets
  compile_targets-In b [] ts h t m = absurd m
  compile_targets-In b (x ∷ xs) ts h t m =
      added (compile_target tools.urls tools.snapshots b x) (compile_targets tools b xs) refl h
        (λ rs e k. compile_targets-In b xs rs e t k)
    where
      added :
          (o : Option Bound) (rest : Option (List RouteTarget))
          → compile_targets tools b xs ≡ rest
          → add_target tools x o rest ≡ some ts
          → ((rs : List RouteTarget)
              → compile_targets tools b xs ≡ some rs
              → In t xs
              → (r : RouteTarget) × In r rs × (r.id ≡ t.id))
          → (r : RouteTarget) × In r ts × (r.id ≡ t.id)
      added none rest e k more = absurd (ground arith)
      added (some bound) none e k more = absurd (ground arith)
      added (some bound) (some rs) e k more =
          let same : route_target tools x bound ∷ rs ≡ ts = some_inj k in
          elim m [
            | inl p ↦ (
              route_target tools x bound,
              rw (sym same) (inl refl),
              ap (λ (y : Target). y.id) (sym p),
            )
            | inr j ↦ let (r, i, q) = more rs e j in (r, rw (sym same) (inr i), q)
          ]
        where
          some_inj : {xs ys : List RouteTarget} → some xs ≡ some ys → xs ≡ ys
          some_inj q = cc

  compile-eq-some :
      (b : Bundle) (g : Generation)
      → compile tools b ≡ some g
      → (b' : Bundle) × (ts : List RouteTarget) × (validate_and_canonicalize tools.std b ≡ valid b')
        × (compile_targets tools b' b'.targets ≡ some ts)
        × (g ≡ generation_of tools b' ts)
  unfolding compile
  compile-eq-some b g h = by_validation (validate_and_canonicalize tools.std b) refl h
    where
      by_targets :
          (b' : Bundle) (o : Option (List RouteTarget))
          → compile_targets tools b' b'.targets ≡ o
          → with_targets tools b' o ≡ some g
          → (ts : List RouteTarget) × (compile_targets tools b' b'.targets ≡ some ts)
            × (g ≡ generation_of tools b' ts)
      by_targets b' none e k = absurd (ground arith)
      by_targets b' (some ts) e k = (ts, e, sym (some_inj k))
        where
          some_inj : {x y : Generation} → some x ≡ some y → x ≡ y
          some_inj q = cc

      by_validation :
          (c : Checked Bundle)
          → validate_and_canonicalize tools.std b ≡ c
          → compile_valid tools c ≡ some g
          → (b' : Bundle) × (ts : List RouteTarget) × (validate_and_canonicalize tools.std b
              ≡ valid b')
            × (compile_targets tools b' b'.targets ≡ some ts)
            × (g ≡ generation_of tools b' ts)
      by_validation (invalid e) v k = absurd (ground arith)
      by_validation (valid b') v k = elim (Bool-cases (have_urls tools b')) [
        | inr n ↦ absurd (none_some (rw n at k))
        | inl y ↦
            let (ts, p, q) = by_targets b' (compile_targets tools b' b'.targets) refl (rw y at k) in
            (b', ts, v, p, q)
      ]
        where
          none_some : ◌≡◌ {A = Option Generation} none (some g) → ⊥
          none_some q = cc

  -- A generation that the compilation accepts decides on every event, and a decision has no two
  -- deliveries for one target.
  pub route-compile :
      (b : Bundle) (g : Generation)
      → compile tools b ≡ some g
      → (e : CanonicalEvent)
      → (d : RouteDecision) × (route g e ≡ some d)
        × NoRepeats (map (λ (n : NewDelivery). n.target_id) d.deliveries)
  route-compile b g h e =
      let (b', ts, v, made, same) = compile-eq-some b g h in
      let found = λ (t : Target) (m : In t b'.targets).
        let (r, i, q) = compile_targets-In b' b'.targets ts made t m in
        let (s, f) =
          find?-In (λ (x : RouteTarget). str_eq x.id t.id) ts r i (rw q (str_eq_self t.id)) in
        ap is_some f in
      rw same (
        route-eq-some tools.std b b' v (generation_of tools b' ts) refl (λ t m. found t m)
          (λ id t f. str_eq→≡ t.id id (find?-true (λ (x : RouteTarget). str_eq x.id id) ts f)) e)
