-- ===== src/Resource.antt =====
-- client/client.go: the resources that the VPN grants, with the library functions on addresses that
-- the code applies to them (`bytes.Compare`, `net.IP.To4`).
use zju_portal_core.Base.{
  ℕ, Bool, true, false, ◌&&◌, Option, none, some, String, List, [], ◌∷◌, nat_beq, ltb,
  if◌then◌else◌,
}

pub record IpResource : Type 0 where
  pub ip_min : List ℕ
  pub ip_max : List ℕ
  pub port_min : ℕ
  pub port_max : ℕ
  pub protocol : String
  pub app_id : String
  pub node_group_id : String

pub record DomainResource : Type 0 where
  pub port_min : ℕ
  pub port_max : ℕ
  pub protocol : String
  pub app_id : String
  pub node_group_id : String

-- `bytes.Compare(a, b) <= 0`.
unfoldable pub bytes_le : List ℕ → List ℕ → Bool
bytes_le [] ys = true
bytes_le (x ∷ xs) [] = false
bytes_le (x ∷ xs) (y ∷ ys) =
    let rest = bytes_le xs ys in if ltb x y then true else if nat_beq x y then rest else false

abbrev pub all_zero : List ℕ → Bool
all_zero [] = true
all_zero (x ∷ xs) = nat_beq x 0 && all_zero xs

-- `net.IP.To4`; `none` is nil.
unfoldable pub to4 : List ℕ → Option (List ℕ)
to4 (a ∷ b ∷ c ∷ d ∷ []) = some (a ∷ b ∷ c ∷ d ∷ [])
to4 (z₀ ∷ z₁ ∷ z₂ ∷ z₃ ∷ z₄ ∷ z₅ ∷ z₆ ∷ z₇ ∷ z₈ ∷ z₉ ∷ f ∷ g ∷ a ∷ b ∷ c ∷ d ∷ []) =
    if all_zero (z₀ ∷ z₁ ∷ z₂ ∷ z₃ ∷ z₄ ∷ z₅ ∷ z₆ ∷ z₇ ∷ z₈ ∷ z₉ ∷ [])
      && nat_beq f 255
      && nat_beq g 255
    then some (a ∷ b ∷ c ∷ d ∷ [])
    else none
to4 _ = none
