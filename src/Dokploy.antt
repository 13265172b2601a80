-- ===== src/Dokploy.antt =====
-- internal/dokploy/client.go: finding the deployment of an attempt in the history that Dokploy
-- lists newest first. The history is what `walkDeploymentHistory` decodes, or its error.
pub mod Lookup
use hookfly.Base.{
  ℕ, suc, String, Bool, true, false, not, ◌&&◌, ◌||◌, Option, none, some, List, [], ◌∷◌, ◌++◌, ◌==◌,
  if◌then◌else◌, find?, any, length, str_eq, keep_if,
}

pub record Deployment : Type 0 where
  pub deployment_id : String
  pub status : Option String
  pub description : Option String

pub data DeploymentLookup : Type 0 where
  not_found found ambiguous cursor_missing : DeploymentLookup

-- `none` is a transport or decoding error.
abbrev pub History : Type 0
History = Option (List Deployment)

-- `walkDeploymentHistory` refuses an empty Compose ID before it sends anything.
abbrev pub history_of : String → History → History
history_of compose_id history = if str_eq compose_id "" then none else history

-- The walk of `FindDeploymentAfter`: the candidates before the cursor, and whether it was met.
unfoldable pub walk_to_cursor : String → List Deployment → List Deployment × Bool
walk_to_cursor cursor [] = ([], str_eq cursor "")
walk_to_cursor cursor (d ∷ ds) =
    let rest = walk_to_cursor cursor ds in
    if not (str_eq cursor "") && str_eq d.deployment_id cursor
    then ([], true)
    else (d ∷ rest.0, rest.1)

abbrev pub choose_exact : List Deployment → Option Deployment × DeploymentLookup
choose_exact (d ∷ []) = (some d, found)
choose_exact _ = (none, ambiguous)

-- `fields` is `strings.Fields`, and `token` is "attempt_id=" with the attempt's identifier.
module _ (fields : String → List String) where
  unfoldable pub deployment_matches_attempt : Deployment → String → Bool
  deployment_matches_attempt d token = elim d.description [
    | none ↦ false
    | some text ↦ any (λ field. str_eq field token) (fields text)
  ]

  unfoldable pub deployment_matches : Deployment → String → String → Bool
  deployment_matches d token deployment_id =
      if str_eq deployment_id ""
      then deployment_matches_attempt d token
      else str_eq d.deployment_id deployment_id

  -- `FindDeployment`: `none` is an error, `some none` that no deployment matches. Each listed
  -- deployment has an ID, so a match is found exactly where one is listed.
  unfoldable pub find_deployment : String → String → String → History → Option (Option Deployment)
  find_deployment compose_id token deployment_id history = elim (history_of compose_id history) [
    | none ↦ none
    | some listed ↦ some (find? (λ d. deployment_matches d token deployment_id) listed)
  ]

  -- The exact matches among several candidates: the last of them, and how many.
  unfoldable pub exact_matches : String → List Deployment → List Deployment
  exact_matches token ds = keep_if (λ d. deployment_matches_attempt d token) ds

  unfoldable pub choose_candidate : String → List Deployment → Option Deployment × DeploymentLookup
  choose_candidate token [] = (none, not_found)
  choose_candidate token (d ∷ []) = (some d, found)
  choose_candidate token (d ∷ e ∷ ds) = choose_exact (exact_matches token (d ∷ e ∷ ds))

  -- `FindDeploymentAfter`.
  unfoldable pub find_deployment_after :
      String → String → String → History → Option (Option Deployment × DeploymentLookup)
  find_deployment_after compose_id token cursor history = elim (history_of compose_id history) [
    | none ↦ none
    | some listed ↦
        let (candidates, met) = walk_to_cursor cursor listed in
        some (if met then choose_candidate token candidates else (none, cursor_missing))
  ]

-- `LatestDeploymentID`: the newest ID, empty where the history is.
unfoldable pub latest_deployment_id : String → History → Option String
latest_deployment_id compose_id history = elim (history_of compose_id history) [
  | none ↦ none
  | some [] ↦ some ""
  | some (d ∷ ds) ↦ some d.deployment_id
]
