-- ===== src/TcpTunnel/Setup.antt =====
-- `DialTCP` of client/atrust/tcptunnel.go with `establishTCPConnection`: the request, the wait for the
-- portal's answers, and what is closed when it fails. The context, the TLS dial and the deadlines
-- are what they answer.
pub mod Closed
use Prim.Native.String.{◌++◌ as append}
use zju_portal_core.Base.{
  ℕ, ◌-◌, Bool, true, false, not, ◌&&◌, Option, none, some, List, [], ◌∷◌, ◌++◌, String, string_eq,
  ◌==◌, length, take, ltb, nat_beq, if◌then◌else◌,
}
use zju_portal_core.Base.Map.{lookup}
use zju_portal_core.Stream.{Result, ok, err, fault, put16}
use zju_portal_core.Resource.{to4}
use zju_portal_core.TcpTunnel.{
  TcpError, session_invalid, plain_error, wrap, short_write, TcpTunnelConn, wait_for_tcp_connect,
}

-- `errors.Is` with `client.ErrSessionInvalid`.
unfoldable pub is_session_invalid : TcpError → Bool
is_session_invalid session_invalid = true
is_session_invalid (wrap s e) = is_session_invalid e
is_session_invalid _ = false

-- What a connection meets: `ctx_before` and `ctx_after` are `ctx.Err()` at the beginning and at the end.
pub record Network : Type 0 where
  pub ctx_before : Option TcpError
  pub ctx_after : Option TcpError
  pub tls_error : Option TcpError
  pub set_deadline : Option TcpError
  pub clear_deadline : Option TcpError
  pub written : ℕ × Option TcpError
  pub answers : List ℕ

-- A step with what it reports to `reportHealthError`.
abbrev pub reported : Result TcpError (List ℕ) → Result TcpError (List ℕ) × List TcpError
reported (err e) = (err e, if is_session_invalid e then e ∷ [] else [])
reported r = (r, [])

-- The body of `establishTCPConnection` up to its deferred function.
unfoldable pub send_and_wait : Network → Bool → List ℕ → Result TcpError (List ℕ) × List TcpError
send_and_wait net skip request = elim net.written.1 [
  | some e ↦ (err (wrap "failed to send tcp tunnel request" e), [])
  | none ↦
      if not (nat_beq net.written.0 (length request))
      then (err (wrap "failed to send tcp tunnel request" short_write), [])
      else if skip
      then (ok net.answers, [])
      else reported (wait_for_tcp_connect net.answers)
]

-- The bytes that are left behind the answers.
unfoldable pub establish_tcp_connection :
    Network → Bool → List ℕ → Result TcpError (List ℕ) × List TcpError
unfolding send_and_wait
establish_tcp_connection net skip request = elim net.ctx_before [
  | some e ↦ (err e, [])
  | none ↦
      let (r, health) = send_and_wait net skip request in
      elim net.ctx_after [ some e ↦ (err e, health) | none ↦ (r, health) ]
]

-- The parts of a client that `DialTCP` reads, and what it calls of the libraries: `message` is the
-- JSON text of `fmt.Sprintf` by address, application and process, `sign` is `calcXRequestSig`.
pub record Client : Type 0 where
  pub best_nodes : List (String × String)
  pub major_node_group : String
  pub skip_tcp_tunnel_wait : Bool
  pub sign_key : String
  pub bytes : String → List ℕ
  pub address_text : List ℕ → ℕ → String
  pub host_port : String → ℕ → String
  pub message : String → String → String → String → List ℕ
  pub decode_hex : String → Result TcpError (List ℕ)
  pub sign : List ℕ → List ℕ → List ℕ

abbrev pub text_of : Option String → String
text_of none = ""
text_of (some s) = s

-- The node of the group, or the one of the major group.
unfoldable pub node_addr : Client → String → String
node_addr c group =
    let own = text_of (lookup group c.best_nodes) in
    if own == "" then text_of (lookup c.major_node_group c.best_nodes) else own

abbrev pub proc_name : ℕ → String
proc_name port = if nat_beq port 22 then "ssh" else "google-chrome-stable"

abbrev pub proc_path : ℕ → String
proc_path port = if nat_beq port 22 then "/usr/bin/ssh" else "/usr/bin/google-chrome-stable"

-- The last three bytes of the message, `""}`, make way for the signature.
unfoldable pub signed_message : Client → List ℕ → List ℕ → List ℕ
signed_message c key msg = take (length msg - 3) msg ++ b'"' ∷ (c.sign key msg ++ b'"' ∷ b'}' ∷ [])

-- The SOCKS5 request behind the message: the address, or the name with its length.
unfoldable pub dest_message : Client → String → List ℕ → ℕ → Result TcpError (List ℕ)
dest_message c domain ip port =
    if domain == ""
    then ok (5 ∷ 1 ∷ 1 ∷ 1 ∷ (ip ++ put16 port))
    else if ltb 255 (length (c.bytes domain))
    then err (plain_error (append "domain name too long: " domain))
    else ok (5 ∷ 1 ∷ 1 ∷ 3 ∷ length (c.bytes domain) ∷ (c.bytes domain ++ put16 port))

abbrev pub dest_addr : Client → String → List ℕ → ℕ → String
dest_addr c domain ip port =
    if domain == "" then c.address_text ip port else c.host_port domain port

unfoldable pub init_message : Client → String → String → List ℕ → ℕ → Result TcpError (List ℕ)
unfolding signed_message dest_message
init_message c appID domain ip port = elim (to4 ip) [
  | none ↦ err (plain_error "invalid IPv4 address")
  | some destIP ↦ elim (c.decode_hex c.sign_key) [
    | fault ↦ fault
    | err e ↦ err (wrap "invalid sign key" e)
    | ok key ↦
        let msg =
          signed_message c key
            (c.message (dest_addr c domain ip port) appID (proc_name port) (proc_path port)) in
        elim (dest_message c domain destIP port) [
          | ok dest ↦ ok (5 ∷ 1 ∷ 0x81 ∷ 0x53 ∷ 3 ∷ (put16 (length msg) ++ (msg ++ dest)))
          | err e ↦ err e
          | fault ↦ fault
        ]
  ]
]

-- What a dial leaves behind: whether the TLS connection was opened and closed, and what was reported.
pub record Dialed : Type 0 where
  pub opened : Bool
  pub closed : Bool
  pub health : List TcpError
  pub result : Result TcpError TcpTunnelConn

abbrev pub not_opened : TcpError → Dialed
not_opened e = record { opened = false; closed = false; health = []; result = err e }

-- `conn.Close()` before an error.
abbrev pub closed_with : List TcpError → Result TcpError TcpTunnelConn → Dialed
closed_with health r = record { opened = true; closed = true; health = health; result = r }

abbrev pub new_tunnel_conn : List ℕ → TcpTunnelConn
new_tunnel_conn s = record {
  stream = s;
  read_buf = [];
  sent = [];
  closed = false;
  health_errors = [];
}

-- `DialTCP` after `establishTCPConnection`.
unfoldable pub clear_deadline_and_return :
    Option TcpError → Result TcpError (List ℕ) × List TcpError → Dialed
clear_deadline_and_return failed (err e, health) = closed_with health (err e)
clear_deadline_and_return failed (fault, health) = closed_with health fault
clear_deadline_and_return (some e) (ok rest, health) =
    closed_with health (err (wrap "failed to clear tcp tunnel deadline" e))
clear_deadline_and_return none (ok rest, health) = record {
  opened = true;
  closed = false;
  health = health;
  result = ok (new_tunnel_conn rest);
}

-- `DialTCP` from the request on.
unfoldable pub connect : Client → Network → Result TcpError (List ℕ) → Dialed
connect c net (err e) = closed_with [] (err e)
connect c net fault = closed_with [] fault
connect c net (ok request) = elim net.set_deadline [
  | some e ↦ closed_with [] (err (wrap "failed to set tcp tunnel deadline" e))
  | none ↦
      clear_deadline_and_return net.clear_deadline
        (establish_tcp_connection net c.skip_tcp_tunnel_wait request)
]

-- `DialTCP`; the second argument is what `tcpResourceFor` gave.
unfoldable pub dial_tcp : Client → String × String × String → Network → List ℕ → ℕ → Dialed
unfolding node_addr
dial_tcp c (appID, group, domain) net ip port =
    if appID == ""
    then not_opened (plain_error "no matching aTrust TCP resource")
    else if node_addr c group == ""
    then not_opened (plain_error "no available aTrust node")
    else elim net.tls_error [
      | some e ↦ not_opened (wrap "failed to connect to aTrust server" e)
      | none ↦ connect c net (init_message c appID domain ip port)
    ]
