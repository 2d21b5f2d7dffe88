-- ===== src/DaemonConfig/Validate/Handed.antt =====
-- What daemonconfig/config.go hands on to the session, and what it warns of.
use zju_portal_core.Base.{
  ℕ, ◌/◌, ◌<◌, ◌≡◌, ◌↔◌, ◌⊎◌, refl, pos, Bool, true, false, not, none, [], String, string_eq, ◌==◌,
  arith,
}
use zju_portal_core.Stream.{ok}
use zju_portal_core.Dial.{
  Outbound, RoutingMode, global, rule, direct, unset, other_mode, mode_valid,
  new_router_with_direct,
}
use zju_portal_core.DaemonConfig.{DaemonConfig, second}
use zju_portal_core.DaemonConfig.Validate.{
  Library, validate, core_config, is_loopback_listen, security_warnings,
}
use zju_portal_core.DaemonConfig.Validate.Checked.{validate-IsChecked}

seconds_zero_iff : (n : ℕ) → (n / second ≡ 0) ↔ (n < second)
seconds_zero_iff n = (λ h. omega (arith, h), λ h. omega (arith, h))

-- A cache time that is not negative is handed on as 0 exactly if it is below one second.
pub core_config_ttl_lost :
    (c : DaemonConfig) (n : ℕ)
    → c.dns.cache_ttl ≡ pos n
    → ((core_config c).dns_ttl ≡ 0) ↔ (n < second)
unfolding core_config
core_config_ttl_lost c n h = rw h (seconds_zero_iff n)

module _ {ℓ} {Conn : Type ℓ} where
  router-ok :
      (vpn internet direct_out : Outbound Conn) (mode : RoutingMode)
      → mode_valid mode ≡ true
      → new_router_with_direct vpn internet direct_out mode
        ≡ ok (record { vpn = vpn; internet = internet; direct_out = direct_out; mode = mode })
  unfolding new_router_with_direct mode_valid
  router-ok vpn internet direct_out global h = refl
  router-ok vpn internet direct_out rule h = refl
  router-ok vpn internet direct_out direct h = refl
  router-ok vpn internet direct_out unset h = absurd (ground arith)
  router-ok vpn internet direct_out (other_mode s) h = absurd (ground arith)

  -- The router accepts the mode of every configuration that `Validate` accepts, and keeps it.
  pub router-core_config :
      (vpn internet direct_out : Outbound Conn) (lib : Library) (c : DaemonConfig)
      → validate lib c ≡ none
      → new_router_with_direct vpn internet direct_out (core_config c).routing_mode
        ≡ ok (record {
          vpn = vpn;
          internet = internet;
          direct_out = direct_out;
          mode = c.routing.mode;
        })
  unfolding core_config
  router-core_config vpn internet direct_out lib c h =
      router-ok vpn internet direct_out c.routing.mode (validate-IsChecked lib c h).mode

-- An inbound that is off or that only this host reaches.
abbrev pub IsLocal : Library → Bool → String → Type 0
IsLocal lib enabled listen = (enabled ≡ false) ⊎ (is_loopback_listen lib listen ≡ true)

-- `SecurityWarnings` is silent exactly if the REST control, the SOCKS5 and HTTP inbounds and the DNS service are
-- each off or limited to loopback.
pub security_warnings_iff :
    (lib : Library) (c : DaemonConfig)
    → (security_warnings lib c ≡ []) ↔ (
        IsLocal lib c.control.rest.enabled c.control.rest.listen
        × IsLocal lib c.inbounds.socks5.enabled c.inbounds.socks5.listen
        × IsLocal lib c.inbounds.http.enabled c.inbounds.http.listen
        × IsLocal lib (not (c.dns.listen == "")) c.dns.listen)
unfolding security_warnings
security_warnings_iff lib c = (λ h. ground arith, λ h. ground arith)
