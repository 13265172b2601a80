-- ===== src/Dokploy/Lookup.antt =====
-- What a found deployment is: one that Dokploy lists after the cursor, and the only candidate for
-- the attempt.
use hookfly.Base.{
  String, Bool, true, not, ◌&&◌, Option, none, some, List, [], ◌∷◌, ◌++◌, ◌≡◌, refl, ap, ◌⊎◌, inl,
  inr, arith, str_eq, Bool-cases, str_eq→≡, keep_if,
}
use hookfly.Dokploy.{
  Deployment, DeploymentLookup, found, cursor_missing, deployment_matches_attempt, walk_to_cursor,
  exact_matches, choose_exact, choose_candidate, find_deployment_after,
}

-- The cursor splits the history: what the walk collects stands before it.
abbrev pub BeforeCursor : String → List Deployment → List Deployment → Type 0
BeforeCursor cursor listed candidates =
    (cursor ≡ "") × (candidates ≡ listed)
    ⊎ ((at : Deployment) × (older : List Deployment) × (listed ≡ candidates ++ at ∷ older)
        × (at.deployment_id ≡ cursor))

walk-BeforeCursor :
    (cursor : String) (listed : List Deployment)
    → (walk_to_cursor cursor listed).1 ≡ true
    → BeforeCursor cursor listed (walk_to_cursor cursor listed).0
unfolding walk_to_cursor
walk-BeforeCursor cursor [] h = inl (str_eq→≡ cursor "" h, refl)
walk-BeforeCursor cursor (d ∷ ds) h =
    elim (Bool-cases (not (str_eq cursor "") && str_eq d.deployment_id cursor)) [
      | inl hit ↦ rw hit (inr (d, ds, refl, str_eq→≡ d.deployment_id cursor (right _ _ hit)))
      | inr go ↦ rw go (elim (walk-BeforeCursor cursor ds (rw go at h)) [
        | inl (e, same) ↦ inl (e, ap (◌∷◌ d) same)
        | inr (c, older, split, id) ↦ inr (c, older, ap (◌∷◌ d) split, id)
      ])
    ]
  where
    right : (a b : Bool) → (a && b) ≡ true → b ≡ true
    right a b h = ground arith

-- The candidate is the only one, or the only one whose description names the attempt.
abbrev pub IsOnly : (Deployment → Bool) → Deployment → List Deployment → Type 0
IsOnly names d candidates = (candidates ≡ d ∷ []) ⊎ (keep_if names candidates ≡ d ∷ [])

module _ (fields : String → List String) (token : String) where
  choose_exact-found :
      (ds : List Deployment) (d : Deployment) → choose_exact ds ≡ (some d, found) → ds ≡ d ∷ []
  choose_exact-found [] d h = cc
  choose_exact-found (x ∷ []) d h = ap (λ (y : Deployment). y ∷ []) (cc)
  choose_exact-found (x ∷ y ∷ ds) d h = cc

  choose_candidate-found :
      (ds : List Deployment) (d : Deployment)
      → choose_candidate fields token ds ≡ (some d, found)
      → IsOnly (λ x. deployment_matches_attempt fields x token) d ds
  unfolding choose_candidate exact_matches
  choose_candidate-found [] d h = cc
  choose_candidate-found (x ∷ []) d h = inl (ap (λ (y : Deployment). y ∷ []) (cc))
  choose_candidate-found (x ∷ y ∷ ds) d h = inr (choose_exact-found _ d h)

  -- A deployment that is bound to an attempt stands in the history above the cursor, and no other
  -- deployment above the cursor could be meant.
  pub find_deployment_after_binds :
      (compose_id cursor : String) (listed : List Deployment) (d : Deployment)
      → find_deployment_after fields compose_id token cursor (some listed) ≡ some (some d, found)
      → (candidates : List Deployment) × BeforeCursor cursor listed candidates
        × IsOnly (λ x. deployment_matches_attempt fields x token) d candidates
  unfolding find_deployment_after
  find_deployment_after_binds compose_id cursor listed d h =
      elim (Bool-cases (str_eq compose_id "")) [
        | inl e ↦ absurd (no_history (rw (e, find_deployment_after) at h))
        | inr e ↦ elim (Bool-cases (walk_to_cursor cursor listed).1) [
          | inl met ↦ (
            (walk_to_cursor cursor listed).0,
            walk-BeforeCursor cursor listed met,
            choose_candidate-found _ d (some_inj (rw (e, met, find_deployment_after) at h)),
          )
          | inr gone ↦ absurd (missing (rw (e, gone, find_deployment_after) at h))
        ]
      ]
    where
      no_history :
          ◌≡◌ {A = Option (Option Deployment × DeploymentLookup)} none (some (some d, found)) → ⊥
      no_history p = cc

      missing :
          ◌≡◌ {A = Option (Option Deployment × DeploymentLookup)}
            (some (none, cursor_missing))
            (some (some d, found))
          → ⊥
      missing p = cc

      some_inj :
          {x y : Option Deployment × DeploymentLookup}
          → ◌≡◌ {A = Option (Option Deployment × DeploymentLookup)} (some x) (some y)
          → x ≡ y
      some_inj p = cc
