-- ===== src/Dial/Resources.antt =====
-- Two readers of the resource list: `matchesResources` of dial/vpn_outbound.go admits a connection,
-- `tcpResourceFor` of client/atrust/tcptunnel.go names the application that carries it.
use zju_portal_core.Base.{
  ℕ, ◌≡◌, ◌≢◌, refl, subst, ◌⊎◌, inl, inr, true, false, Option, none, some, List, [], ◌∷◌, String,
  string_eq, arith, Bool-cases,
}
use zju_portal_core.Resource.{IpResource, DomainResource, to4}
use zju_portal_core.Dial.{
  resource_matches, resource_network, any_matches, tcp_hit, matches_resources, last_tcp,
  tcp_resource_for,
}

-- Every resource belongs to an application.
abbrev pub Named : List IpResource → Type 0
Named [] = Unit {0}
Named (r ∷ rs) = (r.app_id ≢ "") × Named rs

last_tcp-Named :
    (rs : List IpResource) (ip : List ℕ) (port : ℕ) (best : String × String)
    → Named rs
    → (best.0 ≢ "") ⊎ (any_matches rs ip port "tcp" ≡ true)
    → (last_tcp rs ip port best).0 ≢ ""
unfolding last_tcp any_matches resource_matches
last_tcp-Named [] ip port best n (inl h) = h
last_tcp-Named [] ip port best n (inr h) = cc
last_tcp-Named (r ∷ rs) ip port best n h = elim (Bool-cases (tcp_hit ip port r)) [
  | inl hit ↦ last_tcp-Named rs ip port _ n.1 (inl (rw hit n.0))
  | inr miss ↦ last_tcp-Named rs ip port _ n.1 (rw miss (later miss h))
]
  where
    later :
        tcp_hit ip port r ≡ false
        → (best.0 ≢ "") ⊎ (any_matches (r ∷ rs) ip port "tcp" ≡ true)
        → (best.0 ≢ "") ⊎ (any_matches rs ip port "tcp" ≡ true)
    later miss (inl b) = inl b
    later miss (inr m) = inr (ground arith)

-- A TCP connection that `matchesResources` admits, and that `VPNOutbound` hands to `DialTCP`, finds
-- an application there, provided that every resource has one.
pub tcp_resource_for_admitted :
    (domain : Option DomainResource) (host : Option String) (rs : List IpResource)
    (a b c d port : ℕ) (network : String)
    → Named rs
    → ((r : DomainResource) → domain ≡ some r → r.app_id ≢ "")
    → resource_network network ≡ "tcp"
    → matches_resources domain rs (a ∷ b ∷ c ∷ d ∷ []) port network ≡ true
    → (tcp_resource_for domain host rs (a ∷ b ∷ c ∷ d ∷ []) port).0 ≢ ""
unfolding matches_resources tcp_resource_for to4
tcp_resource_for_admitted (some r) host rs a b c d port network n m t h = m r refl
tcp_resource_for_admitted none host rs a b c d port network n m t h =
    last_tcp-Named rs (a ∷ b ∷ c ∷ d ∷ []) port ("", "") n
      (inr (subst (λ x. any_matches rs (a ∷ b ∷ c ∷ d ∷ []) port x ≡ true) t h))
