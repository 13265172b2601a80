-- ===== src/Config/Exposure.antt =====
-- internal/config/validate.go: where the forward targets of a validated configuration may lead.
use hookfly.Base.{
  String, Bool, true, false, not, ◌||◌, Option, none, some, List, [], ◌∷◌, ◌≡◌, refl, sym, ap, ◌∙◌,
  In, str_eq, str_eq→≡, str_eq_self, In-order_by, inl, inr, Bool-cases, arith, codes,
}
use hookfly.Config.Bundle.{Target, Bundle}
use hookfly.Config.Checks.{
  connection_not_allowed, unsupported_fields, unsupported, Stdlib, Url, Address, ConfigError, valid,
  invalid, require, refuse, invalid_url, private_url, validate_identifier, add_unique, >>=-eq-valid,
  >>-eq-valid, refuse-eq-valid, valid_inj,
}
use hookfly.Config.Values.{check_url, validate_forward_url, unsafe_http_host, is_plain}
use hookfly.Config.Targets.{
  has_request_fields, forward_host, validate_dokploy_target, validate_http_target,
  validate_forward_target, validate_target, validate_targets,
}
use hookfly.Config.Validate.{validate_and_canonicalize, canonicalize}
use hookfly.Config.Priority.{validate_and_canonicalize-eq-valid}

-- None of the properties of an address that keep it out.
abbrev pub IsGlobal : Address → Type 0
IsGlobal a =
    (a.is_loopback ≡ false)
    × (a.is_link_local_unicast ≡ false)
    × (a.is_private ≡ false)
    × (a.is_unspecified ≡ false)
    × (a.is_multicast ≡ false)

module _ (std : Stdlib) where
  -- A checked target comes from a configured one.
  validate_targets-In :
      (connections : List (String × String)) (known : List String) (ts : List Target)
      {ts' : List Target}
      → validate_targets std connections known ts ≡ valid ts'
      → (t' : Target) → In t' ts'
      → (t : Target) × (validate_target std connections t ≡ valid t')
  unfolding validate_targets
  validate_targets-In connections known [] h t' m = absurd (rw (sym (valid_inj h)) at m)
  validate_targets-In connections known (t ∷ ts) h t' m =
      let (_, h1) = >>-eq-valid (validate_identifier "target" t.id) _ h in
      let (_, h2) = >>-eq-valid (add_unique "target" t.id known) _ h1 in
      let (s, p, h3) = >>=-eq-valid (validate_target std connections t) _ h2 in
      let (ss, q, h4) = >>=-eq-valid (validate_targets std connections (t.id ∷ known) ts) _ h3 in
      elim (rw (sym (valid_inj h4)) at m) [
        | inl e ↦ (t, rw e p)
        | inr k ↦ validate_targets-In connections (t.id ∷ known) ts q t' k
      ]

  check_url-eq-valid :
      (fits : Url → Bool) (o : Option Url) (e : ConfigError) {u : Url}
      → check_url fits o e ≡ valid u
      → (o ≡ some u) × (fits u ≡ true)
  check_url-eq-valid fits none e h = absurd (ground arith)
  check_url-eq-valid fits (some v) e h = elim (Bool-cases (fits v)) [
    | inl f ↦ let q = valid_inj (rw f at h) in (ap some q, rw (sym q) f)
    | inr f ↦ absurd (not_valid (rw f at h))
  ]
    where
      not_valid : {a : Url} → invalid e ≡ valid a → ⊥
      not_valid q = ground arith

  -- What the check of a forward target leaves of it.
  validate_forward_target-eq-valid :
      (t : Target) {t' : Target}
      → validate_forward_target std t ≡ valid t'
      → (validate_forward_url std t.url (t.allow_private_network || not (str_eq t.ssh_tunnel ""))
          ≡ valid tt)
        × (record t { host = forward_host std t.host } ≡ t')
  unfolding validate_forward_target
  validate_forward_target-eq-valid t h =
      let (_, h1) =
        >>-eq-valid (require (str_eq t.connection "") (connection_not_allowed t.id)) _ h in
      let (_, h2) =
        >>-eq-valid (refuse (has_request_fields std t) (unsupported_fields "forward")) _ h1 in
      let (url, h3) =
        >>-eq-valid
          (validate_forward_url std t.url (t.allow_private_network || not (str_eq t.ssh_tunnel "")))
          _ h2 in
      let (_, h4) =
        >>-eq-valid
          (require
            (str_eq (forward_host std t.host) "target" || str_eq (forward_host std t.host) "origin")
            (unsupported "host mode" (forward_host std t.host)))
          _ h3 in
      (url, valid_inj h4)

  only_forward :
      (connections : List (String × String)) (t : Target) {t' : Target}
      → validate_target std connections t ≡ valid t'
      → t'.target_type ≡ "forward"
      → validate_forward_target std t ≡ valid t'
  unfolding validate_target
  only_forward connections t {t'} h f = elim (Bool-cases (str_eq t.target_type "dokploy")) [
    | inl d ↦
        let (_, same) =
          >>-eq-valid (validate_dokploy_target std connections t) (valid t) (rw d at h) in
        absurd (differ t "dokploy" same d refl)
    | inr d ↦ elim (Bool-cases (str_eq t.target_type "http")) [
      | inl k ↦
          let (_, same) =
            >>-eq-valid (validate_http_target std connections t) (valid t) (rw (d, k) at h) in
          absurd (differ t "http" same k refl)
      | inr k ↦ elim (Bool-cases (str_eq t.target_type "forward")) [
        | inl w ↦ rw (d, k, w) at h
        | inr w ↦ absurd (refused (rw (d, k, w) at h))
      ]
    ]
  ]
    where
      refused : {e : ConfigError} → invalid e ≡ valid t' → ⊥
      refused q = ground arith

      differ :
          (s : Target) (kind : String)
          → valid s ≡ valid t'
          → str_eq s.target_type kind ≡ true
          → str_eq kind "forward" ≡ false
          → ⊥
      differ s kind same p q =
          let e : kind ≡ "forward" =
            sym (str_eq→≡ s.target_type kind p)
            ∙ ap (λ (x : Target). x.target_type) (valid_inj same)
            ∙ f in
          clash (str_eq kind "forward") (rw e (str_eq_self "forward")) q
        where
          clash : (b : Bool) → b ≡ true → b ≡ false → ⊥
          clash b p q = cc

  -- What the check of a host leaves open.
  unsafe_http_host-eq-false :
      (host : String)
      → unsafe_http_host std host ≡ false
      → (std.equal_fold host "localhost" ≡ false)
        × ((a : Address) → std.parse_addr host ≡ some a → IsGlobal a)
  unfolding unsafe_http_host
  unsafe_http_host-eq-false host h = (ground arith, λ a e. global a (second _ _ (rw e at h)))
    where
      second : (x y : Bool) → (x || y) ≡ false → y ≡ false
      second x y h = ground arith

      global :
          (a : Address)
          → (a.is_loopback
              || (a.is_link_local_unicast
                  || (a.is_private || (a.is_unspecified || a.is_multicast))))
            ≡ false
          → IsGlobal a
      global a h = (ground arith, ground arith, ground arith, ground arith, ground arith)

  -- In a validated configuration, a forward target that has neither an SSH tunnel nor the permission for
  -- private networks has a web URL without credentials, whose host is not `localhost` in any case of
  -- its letters; where the host is an address, that is not a loopback, link-local, private, unspecified
  -- or multicast one. Where a name leads is not asked.
  pub forward_url_exposes_no_local_host :
      (b b' : Bundle)
      → validate_and_canonicalize std b ≡ valid b'
      → (t : Target) → In t b'.targets
      → t.target_type ≡ "forward"
      → t.allow_private_network ≡ false
      → t.ssh_tunnel ≡ ""
      → (u : Url) × (std.parse_url t.url ≡ some u)
        × (is_plain std u ≡ true)
        × (std.equal_fold u.host_name "localhost" ≡ false)
        × ((a : Address) → std.parse_addr u.host_name ≡ some a → IsGlobal a)
  unfolding canonicalize validate_forward_url
  forward_url_exposes_no_local_host b b' h t m forward public direct =
      let (tunnels, repositories, connections, targets, checked, _, made) =
        validate_and_canonicalize-eq-valid std b h in
      let i =
        In-order_by (λ (x : Target). codes x.id) t targets
          (rw (sym (ap (λ (x : Bundle). x.targets) made)) at m) in
      let (s, p) = validate_targets-In connections [] b.targets checked t i in
      let (url, same) = validate_forward_target-eq-valid s (only_forward connections s p forward) in
      let same_url = ap (λ (x : Target). x.url) same in
      let no_tunnel = ap (λ (x : Target). x.ssh_tunnel) same ∙ direct in
      let not_private = ap (λ (x : Target). x.allow_private_network) same ∙ public in
      let (u, found, h1) =
        >>=-eq-valid (check_url (is_plain std) (std.parse_url t.url) (invalid_url "forward")) _
          (rw (not_private, no_tunnel, same_url) at url) in
      let (parsed, plain) =
        check_url-eq-valid (is_plain std) (std.parse_url t.url) (invalid_url "forward") found in
      let (named, global) =
        unsafe_http_host-eq-false u.host_name
          (refuse-eq-valid (unsafe_http_host std u.host_name) (private_url "forward") h1) in
      (u, parsed, plain, named, global)
