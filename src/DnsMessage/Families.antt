-- ===== src/DnsMessage/Families.antt =====
-- The families of the addresses that `resolveIPv4` and `resolveIPv6` of internal/dnsmessage/handler.go find.
use zju_portal_core.Base.{◌≡◌, refl, ap, true, Option, none, some, String, ◌⊎◌, inl, inr}
use zju_portal_core.DnsMessage.{
  Addr, addr4, addr6, is4, is6, unmap, QType, type_a, type_aaaa, other_type, DnsError, Handler,
  resolve, Lookup, found, missing, failed, if_is4, if_is6, looked_up, faked, fake_or_resolve4,
  static_or4, fake_or_resolve6, static_or6,
}

-- An address that the test of a type's records admits: `Is4` for A, and for AAAA `Is6`, which holds of every
-- address in sixteen bytes, an IPv4-mapped one included.
abbrev pub IsOfType : QType → Addr → Type 0
IsOfType type_a a = is4 a ≡ true
IsOfType type_aaaa a = is6 a ≡ true
IsOfType other_type a = ⊥

-- A store that gives out IPv4 addresses only.
abbrev pub IsFake4 : {S E : Type 0} → Option (S → String → S × (E ⊎ Addr)) → Type 0
IsFake4 none = Unit {0}
IsFake4 {S = S} {E = E} (some f) =
    (s t : S) (d : String) (a : Addr) → f s d ≡ (t, inr a) → is4 a ≡ true

abbrev pub IsFamily : {E : Type 0} → QType → Lookup E → Type 0
IsFamily t (found a) = IsOfType t a
IsFamily t missing = Unit {0}
IsFamily t (failed e) = Unit {0}

module _ {S E : Type 0} (h : Handler S E) (fake4 : IsFake4 h.fake_ipv4) where
  if_is4-IsFamily : (a : Addr) → IsFamily {E = E} type_a (if_is4 a)
  unfolding if_is4 is4
  if_is4-IsFamily (addr4 bytes) = refl
  if_is4-IsFamily (addr6 bytes) = tt

  if_is6-IsFamily : (a : Addr) → IsFamily {E = E} type_aaaa (if_is6 a)
  unfolding if_is6 is6
  if_is6-IsFamily (addr4 bytes) = tt
  if_is6-IsFamily (addr6 bytes) = refl

  looked_up-IsFamily :
      (t : QType) (f : Addr → Lookup E)
      → ((a : Addr) → IsFamily t (f a))
      → (x : S × (DnsError E ⊎ Addr)) → IsFamily t (looked_up f x).1
  unfolding looked_up
  looked_up-IsFamily t f p (s, inl e) = tt
  looked_up-IsFamily t f p (s, inr a) = p a

  faked-IsFamily :
      (x : S × (E ⊎ Addr)) → ((a : Addr) → x.1 ≡ inr a → is4 a ≡ true) → IsFamily type_a (faked x).1
  unfolding faked
  faked-IsFamily (s, inl e) p = tt
  faked-IsFamily (s, inr a) p = p a refl

  fake_or_resolve4-IsFamily :
      (f : Option (S → String → S × (E ⊎ Addr)))
      → IsFake4 f
      → (s : S) (d : String) → IsFamily type_a (fake_or_resolve4 h f s d).1
  unfolding fake_or_resolve4
  fake_or_resolve4-IsFamily none p s d =
      looked_up-IsFamily type_a _ (λ (a : Addr). if_is4-IsFamily (unmap a)) (resolve h s d)
  fake_or_resolve4-IsFamily (some f) p s d =
      faked-IsFamily (f s d) (λ (a : Addr) (e : (f s d).1 ≡ inr a).
        p s (f s d).0 d a (ap (λ (x : E ⊎ Addr). ((f s d).0, x)) e))

  fake_or_resolve6-IsFamily :
      (f : Option (S → String → S × (E ⊎ Addr))) (s : S) (d : String)
      → IsFamily type_aaaa (fake_or_resolve6 h f s d).1
  unfolding fake_or_resolve6
  fake_or_resolve6-IsFamily none s d =
      looked_up-IsFamily type_aaaa _ if_is6-IsFamily (resolve h s d)
  fake_or_resolve6-IsFamily (some f) s d = tt

  pub static_or4-IsFamily :
      (o : Option Addr) (s : S) (d : String) → IsFamily type_a (static_or4 h o s d).1
  unfolding static_or4
  static_or4-IsFamily none s d = fake_or_resolve4-IsFamily h.fake_ipv4 fake4 s d
  static_or4-IsFamily (some a) s d = if_is4-IsFamily (unmap a)

  pub static_or6-IsFamily :
      (o : Option Addr) (s : S) (d : String) → IsFamily type_aaaa (static_or6 h o s d).1
  unfolding static_or6
  static_or6-IsFamily none s d = fake_or_resolve6-IsFamily h.fake_ipv4 s d
  static_or6-IsFamily (some a) s d = if_is6-IsFamily a
