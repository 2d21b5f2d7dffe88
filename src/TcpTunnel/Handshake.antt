-- ===== src/TcpTunnel/Handshake.antt =====
-- What `waitForTCPConnect` of client/atrust/tcptunnel.go takes for a connection: the grammar of the
-- portal's answers.
use zju_portal_core.Base.{
  ℕ, ◌+◌, ◌*◌, ◌≡◌, ◌⊎◌, inl, inr, refl, sym, ap, ◌∙◌, subst, true, none, some, String, List, [],
  ◌∷◌, ◌++◌, length, arith, not, if◌then◌else◌, Bool-cases, nat_beq, ◌&&◌,
}
use zju_portal_core.Stream.{Result, ok, err, fault, ◌>>=◌, read_full, index, be16}
use zju_portal_core.Stream.Laws.{read_full-split, bind-ok}
use zju_portal_core.TcpTunnel.{
  TcpError, io_error, unexpected_status, contains, ok_text, domain_length, address_length,
  read_bound_address, read_tcp_connect_status, status_error, wrapped, finish_connect,
  read_tcp_protocol_response, validate_tcp_protocol_response, read_setup, wait_for_tcp_connect,
}

-- An address of the type t, with its port.
abbrev pub IsBound : ℕ → List ℕ → Type 0
IsBound t addr =
    ((t ≡ 1) × (length addr ≡ 6))
    ⊎ ((t ≡ 3) × ((n : ℕ) × (name : List ℕ) × (addr ≡ n ∷ name) × (length name ≡ n + 2)))
    ⊎ ((t ≡ 4) × (length addr ≡ 18))

-- The answers that a connection begins with, and the bytes behind them.
pub data IsConnected : List ℕ → List ℕ → Type 0 where
  method : {s rest : List ℕ} → IsConnected s rest → IsConnected (5 ∷ 0x81 ∷ s) rest
  granted :
      (h l reserved t : ℕ) (response addr rest : List ℕ)
      → length response ≡ h * 256 + l
      → contains response ok_text ≡ true
      → IsBound t addr
      → IsConnected (0x53 ∷ 0 ∷ h ∷ l ∷ (response ++ 5 ∷ 0 ∷ reserved ∷ t ∷ (addr ++ rest))) rest

domain_length-inv : (s s₁ : List ℕ) (n : ℕ) → domain_length s ≡ ok (n, s₁) → s ≡ n ∷ s₁
unfolding domain_length read_full index
domain_length-inv [] s₁ n h = absurd (ground arith)
domain_length-inv (x ∷ s) s₁ n h = ground arith

address_length-inv :
    (t n : ℕ) (s s₁ : List ℕ)
    → address_length t s ≡ ok (n, s₁)
    → ((t ≡ 1) × (n ≡ 4) × (s ≡ s₁)) ⊎ ((t ≡ 3) × (s ≡ n ∷ s₁)) ⊎ ((t ≡ 4) × (n ≡ 16) × (s ≡ s₁))
unfolding address_length
address_length-inv t n s s₁ h = ground (arith, domain_length-inv s s₁ n)

IsBound-cases :
    (t n : ℕ) (s s₁ addr rest : List ℕ)
    → ((t ≡ 1) × (n ≡ 4) × (s ≡ s₁)) ⊎ ((t ≡ 3) × (s ≡ n ∷ s₁)) ⊎ ((t ≡ 4) × (n ≡ 16) × (s ≡ s₁))
    → (s₁ ≡ addr ++ rest) × (length addr ≡ n + 2)
    → (whole : List ℕ) × IsBound t whole × (s ≡ whole ++ rest)
IsBound-cases t n s s₁ addr rest (inl (a, b, c)) (e, l) =
    (addr, inl (a, l ∙ ap (λ k. k + 2) b), c ∙ e)
IsBound-cases t n s s₁ addr rest (inr (inl (a, c))) (e, l) =
    (n ∷ addr, inr (inl (a, (n, addr, refl, l))), c ∙ ap (◌∷◌ n) e)
IsBound-cases t n s s₁ addr rest (inr (inr (a, b, c))) (e, l) =
    (addr, inr (inr (a, l ∙ ap (λ k. k + 2) b)), c ∙ e)

read_bound_address-IsBound :
    (t : ℕ) (s rest : List ℕ)
    → read_bound_address t s ≡ ok rest
    → (addr : List ℕ) × IsBound t addr × (s ≡ addr ++ rest)
unfolding read_bound_address
read_bound_address-IsBound t s rest h =
    let ((n, s₁), first, second) = bind-ok (address_length t s) _ h in
    let ((addr, s₂), third, last) = bind-ok (read_full io_error (n + 2) s₁) _ second in
    let (e, l) = read_full-split io_error (n + 2) s₁ third in
    IsBound-cases t n s s₁ addr rest (address_length-inv t n s s₁ first)
      (ground (arith, e, l, last))

-- What follows the header of a connect status.
abbrev pub after_header : ℕ → ℕ → ℕ → List ℕ → Result TcpError (ℕ × List ℕ)
after_header v st t s =
    if not (nat_beq v 5)
    then err (unexpected_status v st)
    else if not (nat_beq st 0)
    then ok (st, s)
    else read_bound_address t s >>= λ s₂. ok (st, s₂)

pub connect_status-header :
    (v st r t : ℕ) (s : List ℕ)
    → read_tcp_connect_status (v ∷ st ∷ r ∷ t ∷ s) ≡ after_header v st t s
unfolding read_tcp_connect_status read_full index
connect_status-header v st r t s = ground arith

granted_header :
    (v st t : ℕ) (s rest : List ℕ)
    → after_header v st t s ≡ ok (0, rest)
    → (v ≡ 5) × (st ≡ 0) × (read_bound_address t s ≡ ok rest)
granted_header v st t s rest h = ground arith

header-eq :
    {v st : ℕ} {s rest : List ℕ} (r t : ℕ)
    → v ≡ 5
    → st ≡ 0
    → s ≡ rest
    → v ∷ st ∷ r ∷ t ∷ s ≡ 5 ∷ 0 ∷ r ∷ t ∷ rest
header-eq r t p q e = cc

-- The header of a granted connection.
read_tcp_connect_status-granted :
    (s rest : List ℕ)
    → read_tcp_connect_status s ≡ ok (0, rest)
    → (reserved : ℕ) × (t : ℕ) × (addr : List ℕ) × IsBound t addr
      × (s ≡ 5 ∷ 0 ∷ reserved ∷ t ∷ (addr ++ rest))
unfolding read_tcp_connect_status read_full
read_tcp_connect_status-granted (v ∷ st ∷ r ∷ t ∷ s) rest h =
    let got : (v ≡ 5) × (st ≡ 0) × (read_bound_address t s ≡ ok rest) =
      granted_header v st t s rest (sym (connect_status-header v st r t s) ∙ h) in
    let (addr, b, e) = read_bound_address-IsBound t s rest got.2 in
    (r, t, addr, b, header-eq r t got.0 got.1 e)
read_tcp_connect_status-granted _ rest h = absurd (ground arith)

wrapped-ok {ℓ} :
    {A : Type ℓ} (text : String) (m : Result TcpError A) {a : A} → wrapped text m ≡ ok a → m ≡ ok a
wrapped-ok text (ok a) h = h
wrapped-ok text (err e) h = absurd (ground arith)
wrapped-ok text fault h = absurd (ground arith)

after_status : ℕ → List ℕ → Result TcpError (List ℕ)
after_status st s = elim (status_error st) [ none ↦ ok s | some e ↦ err e ]

after_status-ok : (st : ℕ) (s rest : List ℕ) → after_status st s ≡ ok rest → (st ≡ 0) × (s ≡ rest)
unfolding after_status status_error
after_status-ok st s rest h = ground arith

finish_connect-granted :
    (s rest : List ℕ) → finish_connect s ≡ ok rest → read_tcp_connect_status s ≡ ok (0, rest)
unfolding finish_connect after_status
finish_connect-granted s rest h =
    let ((st, s₁), first, second) =
      bind-ok (wrapped "failed to read tcp tunnel connect status" (read_tcp_connect_status s)) _
        h in
    let got = after_status-ok st s₁ rest second in
    wrapped-ok "failed to read tcp tunnel connect status" (read_tcp_connect_status s) first
    ∙ ap (λ p. ok p) (ap (λ k. (k, s₁)) got.0 ∙ ap (λ t. (0, t)) got.1)

two_bytes :
    (bytes s s₂ response s₁ : List ℕ)
    → s ≡ bytes ++ s₂
    → length bytes ≡ 2
    → s₂ ≡ response ++ s₁
    → length response ≡ be16 bytes
    → (h : ℕ) × (l : ℕ) × (length response ≡ h * 256 + l) × (s ≡ h ∷ l ∷ (response ++ s₁))
unfolding be16
two_bytes (h ∷ l ∷ []) s s₂ response s₁ e two f size = (h, l, size, e ∙ ap (λ z. h ∷ l ∷ z) f)
two_bytes [] s s₂ response s₁ e two f size = absurd (omega arith)
two_bytes (h ∷ []) s s₂ response s₁ e two f size = absurd (omega arith)
two_bytes (h ∷ l ∷ m ∷ more) s s₂ response s₁ e two f size = absurd (omega arith)

protocol_response-inv :
    (s response s₁ : List ℕ)
    → read_tcp_protocol_response s ≡ ok (response, s₁)
    → (h : ℕ) × (l : ℕ) × (length response ≡ h * 256 + l) × (s ≡ h ∷ l ∷ (response ++ s₁))
unfolding read_tcp_protocol_response
protocol_response-inv s response s₁ e =
    let ((lengthBytes, s₂), first, second) = bind-ok (read_full io_error 2 s) _ e in
    let (whole, two) = read_full-split io_error 2 s first in
    let (whole₂, size) = read_full-split io_error (be16 lengthBytes) s₂ second in
    two_bytes lengthBytes s s₂ response s₁ whole two whole₂ size

after_response : List ℕ → List ℕ → Result TcpError (List ℕ)
after_response response s = elim (validate_tcp_protocol_response response) [
  | none ↦ finish_connect s
  | some e ↦ err e
]

after_response-ok :
    (response s rest : List ℕ)
    → after_response response s ≡ ok rest
    → (contains response ok_text ≡ true) × (finish_connect s ≡ ok rest)
unfolding after_response validate_tcp_protocol_response
after_response-ok response s rest h = ground arith

headers : (a b : ℕ) (s : List ℕ) → nat_beq a 5 && nat_beq b 0x81 ≡ true → 5 ∷ 0x81 ∷ s ≡ a ∷ b ∷ s
headers a b s h = ground arith

-- The status of a granted connection has the response before it.
read_setup-IsConnected :
    (s rest : List ℕ) → read_setup s ≡ ok rest → IsConnected (0x53 ∷ 0 ∷ s) rest
unfolding read_setup after_response
read_setup-IsConnected s rest e =
    let ((response, s₁), first, second) =
      bind-ok (wrapped "failed to read tcp tunnel protocol response" (read_tcp_protocol_response s))
        _ e in
    let (h, l, size, whole) = protocol_response-inv s response s₁ (
      wrapped-ok "failed to read tcp tunnel protocol response" (read_tcp_protocol_response s)
        first) in
    let (granting, end) = after_response-ok response s₁ rest second in
    let (reserved, t, addr, b, tail) =
      read_tcp_connect_status-granted s₁ rest (finish_connect-granted s₁ rest end) in
    subst (λ z. IsConnected (0x53 ∷ 0 ∷ z) rest)
      (ap (λ z. h ∷ l ∷ (response ++ z)) (sym tail) ∙ sym whole)
      (granted h l reserved t response addr rest size granting b)

pub connect-IsConnected : (s rest : List ℕ) → wait_for_tcp_connect s ≡ ok rest → IsConnected s rest
unfolding wait_for_tcp_connect
connect-IsConnected (a ∷ b ∷ s) rest h = elim (Bool-cases (nat_beq a 5 && nat_beq b 0x81)) [
  | inl e ↦
      subst (λ z. IsConnected z rest) (headers a b s e)
        (method (connect-IsConnected s rest (ground arith)))
  | inr e ↦
      let setup : (a ≡ 0x53) × (b ≡ 0) × (read_setup s ≡ ok rest) = ground arith in
      subst (λ z. IsConnected z rest) (ground (arith, setup.0, setup.1))
        (read_setup-IsConnected s rest setup.2)
]
connect-IsConnected _ rest h = absurd (ground arith)
