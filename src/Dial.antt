-- ===== src/Dial.antt =====
-- dial/router.go, dial/vpn_outbound.go: which outbound carries a connection. The outbounds are
-- arguments: what their `DialContext` returns, a connection or an error. `Conn` stands for the
-- connections that they make.
pub mod Routing
pub mod Resources
use zju_portal_core.Base.{
  ℕ, Bool, true, false, ◌&&◌, ◌||◌, Option, none, some, List, [], ◌∷◌, String, ◌==◌, string_eq, leb,
  if◌then◌else◌,
}
use zju_portal_core.Core.Error.{
  Error, ErrorCode, config_invalid, invalid_request, wrap_error, is_error,
}
use zju_portal_core.Resource.{IpResource, DomainResource, bytes_le, to4}
use zju_portal_core.Stream.{Result, ok, err, fault, ◌>>=◌}

-- core/config.go: `unset` is the empty string, `other_mode` any other string.
pub data RoutingMode : Type 0 where
  global rule direct unset : RoutingMode
  other_mode : String → RoutingMode

unfoldable pub mode_valid : RoutingMode → Bool
mode_valid global = true
mode_valid rule = true
mode_valid direct = true
mode_valid _ = false

pub data OutboundName : Type 0 where
  out_atrust out_internet out_direct : OutboundName

pub data RouteReason : Type 0 where
  vpn_resource resource_not_matched global_mode direct_mode : RouteReason

pub record RouteInfo : Type 0 where
  pub outbound : OutboundName
  pub reason : RouteReason

abbrev pub err_not_in_resources : String
err_not_in_resources = "destination is not in VPN resources"

-- An outbound's `DialContext` at a network and an address.
abbrev pub Outbound {ℓ} : Type ℓ → Type ℓ
Outbound Conn = String → String → Result Error Conn

pub record Router {ℓ} (Conn : Type ℓ) : Type ℓ where
  pub vpn : Outbound Conn
  pub internet : Outbound Conn
  pub direct_out : Outbound Conn
  pub mode : RoutingMode

abbrev default_mode : RoutingMode → RoutingMode
default_mode unset = rule
default_mode mode = mode

module _ {ℓ} {Conn : Type ℓ} where
  unfoldable pub new_router_with_direct :
      Outbound Conn → Outbound Conn → Outbound Conn → RoutingMode → Result Error (Router Conn)
  new_router_with_direct vpn internet direct_out mode =
      if mode_valid (default_mode mode)
      then ok (record {
        vpn = vpn;
        internet = internet;
        direct_out = direct_out;
        mode = default_mode mode;
      })
      else err (wrap_error config_invalid "invalid routing mode" false none)

  -- `newRoutedConn`: the connection with its route.
  abbrev routed : Result Error Conn → OutboundName → RouteReason → Result Error (Conn × RouteInfo)
  routed r out why = r >>= λ conn. ok (conn, record { outbound = out; reason = why })

  unfoldable pub dial_rule : Router Conn → String → String → Result Error (Conn × RouteInfo)
  dial_rule router network address = elim (router.vpn network address) [
    | ok conn ↦ ok (conn, record { outbound = out_atrust; reason = vpn_resource })
    | fault ↦ fault
    | err e ↦
        if is_error e err_not_in_resources
        then routed (router.internet network address) out_internet resource_not_matched
        else err e
  ]

  unfoldable pub dial_context : Router Conn → String → String → Result Error (Conn × RouteInfo)
  unfolding dial_rule
  dial_context router network address = elim router.mode [
    | global ↦ routed (router.vpn network address) out_atrust global_mode
    | direct ↦ routed (router.direct_out network address) out_direct direct_mode
    | _ ↦ dial_rule router network address
  ]

  unfoldable pub set_mode : RoutingMode → Router Conn → Router Conn × Result Error RoutingMode
  unfolding mode_valid
  set_mode mode router =
      if mode_valid mode
      then (record router { mode = mode }, ok router.mode)
      else (router, err (wrap_error invalid_request "invalid routing mode" false none))

-- `resourceMatches`.
unfoldable pub resource_matches : ℕ → ℕ → String → ℕ → String → Bool
resource_matches port_min port_max protocol port network =
    leb port_min port && leb port port_max && (protocol == network || protocol == "all")

abbrev pub resource_network : String → String
resource_network network =
    if network == "tcp4" then "tcp" else if network == "udp4" then "udp" else network

-- Whether the 4-byte address lies in the range of the resource.
unfoldable pub in_range : List ℕ → IpResource → Bool
in_range ip r = elim (to4 r.ip_min) [
  | none ↦ false
  | some lo ↦ elim (to4 r.ip_max) [ none ↦ false | some hi ↦ bytes_le lo ip && bytes_le ip hi ]
]

unfoldable pub any_matches : List IpResource → List ℕ → ℕ → String → Bool
any_matches [] ip port network = false
any_matches (r ∷ rs) ip port network =
    in_range ip r && resource_matches r.port_min r.port_max r.protocol port network
    || any_matches rs ip port network

-- `matchesResources`; the domain's resource comes with the context, if the resolver found one.
unfoldable pub matches_resources :
    Option DomainResource → List IpResource → List ℕ → ℕ → String → Bool
unfolding any_matches resource_matches in_range
matches_resources domain resources ip port network =
    elim domain [
      | none ↦ false
      | some d ↦ resource_matches d.port_min d.port_max d.protocol port (resource_network network)
    ]
    || any_matches resources ip port (resource_network network)

-- The tests of the loop of `tcpResourceFor`.
abbrev pub tcp_hit : List ℕ → ℕ → IpResource → Bool
tcp_hit ip port r =
    in_range ip r
    && (leb r.port_min port && leb port r.port_max)
    && (r.protocol == "tcp" || r.protocol == "all")

-- `tcpResourceFor` of client/atrust/tcptunnel.go, with the loop that keeps the last match.
last_tcp : List IpResource → List ℕ → ℕ → String × String → String × String
last_tcp [] ip port best = best
last_tcp (r ∷ rs) ip port best =
    last_tcp rs ip port (if tcp_hit ip port r then (r.app_id, r.node_group_id) else best)

-- `host` is the name that was resolved, if the context has one; the third text is the domain.
unfoldable pub tcp_resource_for :
    Option DomainResource → Option String → List IpResource → List ℕ → ℕ → String × String × String
unfolding last_tcp in_range
tcp_resource_for (some d) host resources ip port =
    (d.app_id, d.node_group_id, elim host [ some h ↦ h | none ↦ "" ])
tcp_resource_for none host resources ip port = elim (to4 ip) [
  | none ↦ ("", "", "")
  | some ip4 ↦ let best = last_tcp resources ip4 port ("", "") in (best.0, best.1, "")
]
