-- ===== src/Config/Tunnels.antt =====
-- internal/config/ssh.go: the SSH tunnels.
use hookfly.Base.{
  ℕ, suc, int, String, Bool, not, ◌&&◌, ◌||◌, ◌==◌, ltb, List, [], ◌∷◌, ◌++◌, if◌then◌else◌, codes,
  joined, contains_codes, contains_any, length, any, map, str_eq, order_by,
}
use hookfly.Config.Bundle.{Target, SshTunnel, Bundle}
use hookfly.Config.Checks.{
  Stdlib, tunnel_on_target, Checked, valid, ◌>>◌, refuse, check_all, is_identifier,
}

module _ (std : Stdlib) where
  abbrev is_malformed : SshTunnel → Bool
  is_malformed t =
      str_eq t.host ""
      || (contains_any (codes t.host) (32 ∷ 47 ∷ 92 ∷ 9 ∷ 13 ∷ 10 ∷ 91 ∷ 93 ∷ 0 ∷ [])
          || ((contains_codes (codes t.host) (codes ":") && not (std.parse_ip t.host))
              || (ltb t.port (int 1)
                  || (ltb (int 65535) t.port
                      || (str_eq (std.trim_space t.user) ""
                          || (contains_any (codes t.user) (13 ∷ 10 ∷ 0 ∷ [])
                              || (not (std.is_abs t.private_key_file)
                                  || (not (std.is_abs t.known_hosts_file)
                                      || (str_eq (std.clean t.private_key_file)
                                            (std.clean t.known_hosts_file)
                                          || not (str_eq t.host_key_policy "accept_new"))))))))))

  -- An ID that is no identifier is replaced by one that counts the tunnels.
  abbrev with_identifier : ℕ → SshTunnel → SshTunnel
  with_identifier i t = if is_identifier t.id then t else record t {
    id = joined "invalid-ssh-" (std.decimal (suc i));
    configuration_error = "invalid_configuration";
  }

  abbrev with_error : String → SshTunnel → SshTunnel
  with_error e t = record t { configuration_error = e }

  abbrev with_defaults : SshTunnel → SshTunnel
  with_defaults t = record t {
    host = std.to_lower t.host;
    port = if t.port == int 0 then int 22 else t.port;
    host_key_policy = if str_eq t.host_key_policy "" then "accept_new" else t.host_key_policy;
  }

  abbrev mark_malformed : SshTunnel → SshTunnel
  mark_malformed t = if is_malformed t then with_error "invalid_configuration" t else t

  -- A tunnel with the ID of an earlier one makes both of them duplicates.
  abbrev add_tunnel : List SshTunnel → SshTunnel → List SshTunnel
  add_tunnel earlier t =
      if any (λ (s : SshTunnel). str_eq s.id t.id) earlier
      then map (λ (s : SshTunnel). if str_eq s.id t.id then with_error "duplicate_id" s else s)
          earlier
        ++ mark_malformed (with_defaults (with_error "duplicate_id" t)) ∷ []
      else earlier ++ mark_malformed (with_defaults t) ∷ []

  unfoldable pub mark_tunnels : List SshTunnel → List SshTunnel → List SshTunnel
  mark_tunnels earlier [] = earlier
  mark_tunnels earlier (t ∷ ts) =
      mark_tunnels (add_tunnel earlier (with_identifier (length earlier) t)) ts

  abbrev check_target_tunnel : Target → Checked (Unit {0})
  check_target_tunnel t =
      refuse (not (str_eq t.ssh_tunnel "") && not (str_eq t.target_type "forward"))
        (tunnel_on_target t.target_type)

  unfoldable pub validate_ssh_tunnels : Bundle → Checked (List SshTunnel)
  validate_ssh_tunnels b = do
    check_all check_target_tunnel b.targets
    valid (order_by (λ t. codes t.id) (mark_tunnels [] b.ssh_tunnels))
