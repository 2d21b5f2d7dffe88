-- ===== src/TcpTunnel/Accepts.antt =====
-- `waitForTCPConnect` of client/atrust/tcptunnel.go takes every sequence of answers of the grammar.
use zju_portal_core.Base.{
  ℕ, ◌+◌, ◌*◌, ◌≡◌, inl, inr, refl, sym, ◌∙◌, ◌↔◌, true, none, List, [], ◌∷◌, ◌++◌, length, arith,
}
use zju_portal_core.Stream.{ok, ◌>>=◌, read_full, index, be16}
use zju_portal_core.Stream.Laws.{read_full-append}
use zju_portal_core.TcpTunnel.{
  io_error, contains, ok_text, domain_length, address_length, read_bound_address,
  read_tcp_connect_status, status_error, wrapped, finish_connect, read_tcp_protocol_response,
  validate_tcp_protocol_response, read_setup, wait_for_tcp_connect,
}
use zju_portal_core.TcpTunnel.Handshake.{
  IsBound, IsConnected, method, granted, connect-IsConnected, connect_status-header,
}

domain_length-cons : (n : ℕ) (s : List ℕ) → domain_length (n ∷ s) ≡ ok (n, s)
unfolding domain_length read_full index
domain_length-cons n s = ground arith

read_bound_address-append :
    (t : ℕ) (addr rest : List ℕ) → IsBound t addr → read_bound_address t (addr ++ rest) ≡ ok rest
unfolding read_bound_address address_length
read_bound_address-append t addr rest (inl (e, l)) =
    rw (e, read_full-append io_error 6 addr rest (sym l)) refl
read_bound_address-append t addr rest (inr (inl (e, (n, name, whole, l)))) =
    rw
      (
        e,
        whole,
        domain_length-cons n (name ++ rest),
        read_full-append io_error (n + 2) name rest (sym l),
      )
      refl
read_bound_address-append t addr rest (inr (inr (e, l))) =
    rw (e, read_full-append io_error 18 addr rest (sym l)) refl

connect_status-granted :
    (reserved t : ℕ) (addr rest : List ℕ)
    → IsBound t addr
    → read_tcp_connect_status (5 ∷ 0 ∷ reserved ∷ t ∷ (addr ++ rest)) ≡ ok (0, rest)
connect_status-granted reserved t addr rest b =
    connect_status-header 5 0 reserved t (addr ++ rest)
    ∙ rw (read_bound_address-append t addr rest b) refl

protocol_response-append :
    (h l : ℕ) (response s : List ℕ)
    → length response ≡ h * 256 + l
    → read_tcp_protocol_response (h ∷ l ∷ (response ++ s)) ≡ ok (response, s)
unfolding read_tcp_protocol_response be16
protocol_response-append h l response s size =
    rw (read_full-append io_error 2 (h ∷ l ∷ []) (response ++ s) refl)
      (read_full-append io_error (h * 256 + l) response s (sym size))

validate-granted :
    (response : List ℕ)
    → contains response ok_text ≡ true
    → validate_tcp_protocol_response response ≡ none
unfolding validate_tcp_protocol_response
validate-granted response h = rw (validate_tcp_protocol_response, h) refl

finish_connect-status :
    (s rest : List ℕ) → read_tcp_connect_status s ≡ ok (0, rest) → finish_connect s ≡ ok rest
unfolding finish_connect status_error
finish_connect-status s rest h = rw (finish_connect, h) refl

read_setup-granted :
    (h l reserved t : ℕ) (response addr rest : List ℕ)
    → length response ≡ h * 256 + l
    → contains response ok_text ≡ true
    → IsBound t addr
    → read_setup (h ∷ l ∷ (response ++ 5 ∷ 0 ∷ reserved ∷ t ∷ (addr ++ rest))) ≡ ok rest
unfolding read_setup
read_setup-granted h l reserved t response addr rest size granting b =
    let tail = 5 ∷ 0 ∷ reserved ∷ t ∷ (addr ++ rest) in
    rw
      (
        protocol_response-append h l response tail size,
        wrapped,
        ◌>>=◌,
        validate-granted response granting,
      )
      (finish_connect-status tail rest (connect_status-granted reserved t addr rest b))

IsConnected-connect : (s rest : List ℕ) → IsConnected s rest → wait_for_tcp_connect s ≡ ok rest
unfolding wait_for_tcp_connect
IsConnected-connect _ _ (method c) = IsConnected-connect _ _ c
IsConnected-connect _ _ (granted h l reserved t response addr rest size granting b) =
    read_setup-granted h l reserved t response addr rest size granting b

-- `waitForTCPConnect` takes exactly the answers that begin with a line of chosen methods, then a response
-- with `OK` in it, then a connect status 0 with a bound address; it leaves the bytes behind them.
pub wait_for_tcp_connect_iff :
    (s rest : List ℕ) → (wait_for_tcp_connect s ≡ ok rest) ↔ IsConnected s rest
wait_for_tcp_connect_iff s rest = (connect-IsConnected s rest, IsConnected-connect s rest)
