-- ===== src/Control/Rest/Guarded.antt =====
-- control/rest/server.go: which requests reach a handler.
use zju_portal_core.Base.{
  ◌≡◌, ◌↔◌, refl, true, false, none, String, string_eq, eq_iff, ◌⊎◌, inl, inr, Bool-cases, arith,
}
use Prim.Native.String.{◌++◌}
use zju_portal_core.Core.Error.{Error, wrap_error, invalid_request}
use zju_portal_core.Control.Rest.{
  Request, Server, Reply, write_error, handle, authorized, from_host, same_origin, serve_http,
  handlers, api_base_path,
}

-- The request has the token, in its header or, for the events, in its query; or there is none.
abbrev HasToken : {W V : Type 0} → Server W V → Request → Type 0
HasToken s request =
    (s.token ≡ "")
    ⊎ (s.library.trim_prefix request.authorization "Bearer " ≡ s.token)
    ⊎ ((request.path ≡ api_base_path ++ "/events") × (request.access_token ≡ s.token))

-- An origin at the host that the request is for.
abbrev IsHosts : Request → Error ⊎ (String × String) → Type 0
IsHosts request (inl e) = ⊥
IsHosts request (inr (scheme, host)) =
    (host ≡ request.host) × ((scheme ≡ "http") ⊎ (scheme ≡ "https"))

-- The token, and no other origin.
abbrev pub IsAdmitted : {W V : Type 0} → Server W V → Request → Type 0
IsAdmitted s request =
    HasToken s request
    × ((request.origin ≡ "") ⊎ IsHosts request (s.library.parse_origin request.origin))

-- Nothing was done, and the reply is 401 or 403.
abbrev pub IsDenied : {W V : Type 0} → W → W × Reply V → Type 0
IsDenied w x =
    (x.0 ≡ w)
    × ((x.1
          ≡ write_error 401 (wrap_error invalid_request "unauthorized control request" false none))
        ⊎ (x.1
            ≡ write_error 403 (
                wrap_error invalid_request "cross-origin control request is forbidden" false none)))

module _ {W V : Type 0} (s : Server W V) (request : Request) where
  authorized_iff : (authorized s request ≡ true) ↔ HasToken s request
  unfolding authorized
  authorized_iff = ground (
    arith,
    eq_iff s.token "",
    eq_iff (s.library.trim_prefix request.authorization "Bearer ") s.token,
    eq_iff request.path (api_base_path ++ "/events"),
    eq_iff request.access_token s.token,
  )

  from_host_iff :
      (parsed : Error ⊎ (String × String))
      → (from_host s parsed request ≡ true) ↔ IsHosts request parsed
  unfolding from_host
  from_host_iff (inl e) = (λ h. absurd (ground arith), λ h. absurd h)
  from_host_iff (inr (scheme, host)) =
      ground (arith, eq_iff host request.host, eq_iff scheme "http", eq_iff scheme "https")

  same_origin_iff :
      (same_origin s request ≡ true)
      ↔ ((request.origin ≡ "") ⊎ IsHosts request (s.library.parse_origin request.origin))
  unfolding same_origin
  same_origin_iff =
      ground
        (arith, eq_iff request.origin "", from_host_iff (s.library.parse_origin request.origin))

  -- A request with the token, or to a server without one, that has no origin or one over http or https with its host
  -- is handled by the handler of its path; any other changes nothing and gets 401 or 403.
  pub serve_http-IsAdmitted :
      (w : W)
      → (IsAdmitted s request
          × (serve_http s request w ≡ handle s (s.library.mux handlers request.path) request w))
        ⊎ (¬ IsAdmitted s request × IsDenied w (serve_http s request w))
  unfolding serve_http
  serve_http-IsAdmitted w = elim (Bool-cases (authorized s request)) [
    | inl has ↦ elim (Bool-cases (same_origin s request)) [
      | inl same ↦ inl ((authorized_iff.0 has, same_origin_iff.0 same), rw has (rw same refl))
      | inr other ↦ inr (
        λ (a : IsAdmitted s request). absurd (ground (arith, other, same_origin_iff.1 a.1)),
        rw has (rw other (refl, inr refl)),
      )
    ]
    | inr lacks ↦ inr (
      λ (a : IsAdmitted s request). absurd (ground (arith, lacks, authorized_iff.1 a.0)),
      rw lacks (refl, inl refl),
    )
  ]
