-- ===== src/Config/Sources.antt =====
-- internal/config/validate.go: the sources and their repositories.
use hookfly.Base.{ℕ, String, Bool, List, [], ◌∷◌, same_codes, any, map, str_eq}
use hookfly.Config.Bundle.{Repository, Source, Bundle}
use hookfly.Config.Checks.{
  Stdlib, credential_required, duplicate_token, within, Checked, invalid, valid, ◌>>=◌, ◌>>◌,
  refuse, validate_identifier, add_unique,
}
use hookfly.Config.Values.{validate_positive_external_id, validate_harbor_repository}

-- `fmt.Errorf("…: %w", err)`.
abbrev pub in_context : {A : Type 0} → String → Checked A → Checked A
in_context name (valid a) = valid a
in_context name (invalid e) = invalid (within name e)

-- The repositories of the sources: `map[string]map[string]struct{}`.
abbrev pub Repositories : Type 0
Repositories = List (String × List String)

abbrev pub has_key : {A : Type 0} → String → String × A → Bool
has_key id (key, value) = str_eq id key

abbrev pub source_ids : Repositories → List String
source_ids known = map (λ k. k.0) known

-- The loop over the repositories of a source, with the IDs and the external IDs met so far.
unfoldable pub validate_repositories :
    (String → Checked (Unit {0}))
    → (source : String) → (known external_ids : List String) → List Repository
    → Checked (Unit {0})
validate_repositories check source known external_ids [] = valid tt
validate_repositories check source known external_ids (r ∷ rs) = do
  validate_identifier "repository" r.id
  in_context r.id (check r.external_id)
  in_context source (add_unique "repository external" r.external_id external_ids)
  in_context source (add_unique "repository" r.id known)
  validate_repositories check source (r.id ∷ known) (r.external_id ∷ external_ids) rs

abbrev repository_ids : Source → List String
repository_ids s = map (λ (r : Repository). r.id) s.repositories

-- `validateSource`, returning the map with the source added.
unfoldable pub validate_source :
    (String → Checked (Unit {0})) → Source → Repositories → Checked Repositories
validate_source check s known = do
  validate_identifier "source" s.id
  add_unique "source" s.id (source_ids known)
  validate_repositories check s.id [] [] s.repositories
  valid ((s.id, repository_ids s) ∷ known)

-- The loop over the sources of GitHub and of Harbor.
unfoldable pub validate_sources_of :
    (provider : String)
    → (String → Checked (Unit {0}))
    → List Source
    → Repositories
    → Checked Repositories
validate_sources_of provider check [] known = valid known
validate_sources_of provider check (s ∷ ss) known = do
  refuse (str_eq s.credential "") (credential_required provider s.id)
  known' ← validate_source check s known
  validate_sources_of provider check ss known'

module _ (std : Stdlib) where
  -- The loop over the sources of GitLab, whose tokens have distinct hashes.
  unfoldable pub validate_gitlab_sources :
      List Source → (hashes : List (List ℕ)) → Repositories → Checked Repositories
  validate_gitlab_sources [] hashes known = valid known
  validate_gitlab_sources (s ∷ ss) hashes known = do
    refuse (str_eq s.credential "") (credential_required "GitLab" s.id)
    refuse (any (same_codes (std.sha256 s.credential)) hashes) duplicate_token
    known' ← validate_source (validate_positive_external_id std) s known
    validate_gitlab_sources ss (std.sha256 s.credential ∷ hashes) known'

  unfoldable pub validate_sources : Bundle → Checked Repositories
  validate_sources b = do
    gitlab ← validate_gitlab_sources b.gitlab_sources [] []
    github ←
        validate_sources_of "GitHub" (validate_positive_external_id std) b.github_sources gitlab
    validate_sources_of "Harbor" (validate_harbor_repository std) b.harbor_sources github
