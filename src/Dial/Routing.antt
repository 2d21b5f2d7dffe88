-- ===== src/Dial/Routing.antt =====
-- The router of dial/router.go: which outbound may carry a connection in which mode.
use zju_portal_core.Base.{◌≡◌, ◌≢◌, refl, inl, inr, true, String, arith}
use zju_portal_core.Core.Error.{Error, is_error}
use zju_portal_core.Stream.{ok, err}
use zju_portal_core.Stream.Laws.{Result-cases}
use zju_portal_core.Dial.{
  RoutingMode, global, rule, direct, unset, other_mode, RouteInfo, out_atrust, out_internet,
  out_direct, vpn_resource, resource_not_matched, global_mode, direct_mode, err_not_in_resources,
  Router, dial_rule, dial_context,
}

module _ {Conn : Type 0} where
  -- Why a connection may leave by an outbound.
  pub data Allowed (router : Router Conn) (network address : String) (conn : Conn)
      (route : RouteInfo) : Type 0 where
    by_mode_global :
        router.mode ≡ global
        → router.vpn network address ≡ ok conn
        → route ≡ record { outbound = out_atrust; reason = global_mode }
        → Allowed router network address conn route
    by_mode_direct :
        router.mode ≡ direct
        → router.direct_out network address ≡ ok conn
        → route ≡ record { outbound = out_direct; reason = direct_mode }
        → Allowed router network address conn route
    by_resource :
        router.mode ≢ global
        → router.mode ≢ direct
        → router.vpn network address ≡ ok conn
        → route ≡ record { outbound = out_atrust; reason = vpn_resource }
        → Allowed router network address conn route
    outside_resources :
        (e : Error)
        → router.mode ≢ global
        → router.mode ≢ direct
        → router.vpn network address ≡ err e
        → is_error e err_not_in_resources ≡ true
        → router.internet network address ≡ ok conn
        → route ≡ record { outbound = out_internet; reason = resource_not_matched }
        → Allowed router network address conn route

  dial_rule-Allowed :
      (router : Router Conn) (network address : String) (conn : Conn) (route : RouteInfo)
      → router.mode ≢ global
      → router.mode ≢ direct
      → dial_rule router network address ≡ ok (conn, route)
      → Allowed router network address conn route
  unfolding dial_rule
  dial_rule-Allowed router network address conn route g d h =
      elim (Result-cases (router.vpn network address)) [
        | inl (c, e) ↦ by_resource g d (ground arith) (ground arith)
        | inr (inl (x, e)) ↦ elim (Result-cases (router.internet network address)) [
          | inl (c, f) ↦ outside_resources x g d e (ground arith) (ground arith) (ground arith)
          | inr f ↦ absurd (ground arith)
        ]
        | inr (inr e) ↦ absurd (ground arith)
      ]

  by_mode :
      (router : Router Conn) (mode : RoutingMode) (network address : String) (conn : Conn)
      (route : RouteInfo)
      → router.mode ≡ mode
      → dial_context router network address ≡ ok (conn, route)
      → Allowed router network address conn route
  unfolding dial_context
  by_mode router global network address conn route m h =
      elim (Result-cases (router.vpn network address)) [
        | inl (c, e) ↦ by_mode_global m (ground arith) (ground arith)
        | inr e ↦ absurd (ground arith)
      ]
  by_mode router direct network address conn route m h =
      elim (Result-cases (router.direct_out network address)) [
        | inl (c, e) ↦ by_mode_direct m (ground arith) (ground arith)
        | inr e ↦ absurd (ground arith)
      ]
  by_mode router rule network address conn route m h =
      dial_rule-Allowed router network address conn route (λ e. ground arith) (λ e. ground arith)
        (ground arith)
  by_mode router unset network address conn route m h =
      dial_rule-Allowed router network address conn route (λ e. ground arith) (λ e. ground arith)
        (ground arith)
  by_mode router (other_mode s) network address conn route m h =
      dial_rule-Allowed router network address conn route (λ e. ground arith) (λ e. ground arith)
        (ground arith)

-- A connection of the router comes from the outbound that its route names, for a reason that holds:
-- the mode, a VPN that took it, or a VPN that answered that the destination is not among its
-- resources. So no other failure of the VPN ever sends a connection to the internet.
pub dial_context-Allowed :
    {Conn : Type 0} (router : Router Conn) (network address : String) (conn : Conn)
    (route : RouteInfo)
    → dial_context router network address ≡ ok (conn, route)
    → Allowed router network address conn route
dial_context-Allowed router network address conn route h =
    by_mode router router.mode network address conn route refl h
