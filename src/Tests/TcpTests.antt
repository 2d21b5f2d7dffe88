-- ===== src/Tests/TcpTests.antt =====
-- Runs of the model of client/atrust/tcptunnel.go at concrete inputs.
use zju_portal_core.Base.{arith, ◌≡◌, ◌↔◌, refl, false, none, some, List, [], ◌∷◌, ℕ}
use zju_portal_core.Stream.{ok, be16, put16, read_full, index}
use zju_portal_core.Base.Map.{lookup}
use zju_portal_core.Resource.{to4}
use zju_portal_core.TcpTunnel.{
  TcpTunnelConn, io_error, tcp_write, tcp_read, read_frame, read_data, wait_for_tcp_connect,
  read_tcp_protocol_response, validate_tcp_protocol_response, contains, read_tcp_connect_status,
}
use zju_portal_core.TcpTunnel.Framing.{reads, writes, InOrder, reads-writes}
use zju_portal_core.TcpTunnel.Ends.{IsAnswer, tcp_read-IsAnswer}
use zju_portal_core.TcpTunnel.Accepts.{wait_for_tcp_connect_iff}
use zju_portal_core.TcpTunnel.Handshake.{IsConnected}
use zju_portal_core.TcpTunnel.Setup.{
  Client, Network, dial_tcp, connect, init_message, clear_deadline_and_return,
  establish_tcp_connection, new_tunnel_conn,
}
use zju_portal_core.TcpTunnel.Setup.Closed.{leaves_open, is_ok, dial_tcp-open}

abbrev two_chunks : List (List ℕ)
two_chunks = (1 ∷ 2 ∷ 3 ∷ []) ∷ (4 ∷ []) ∷ []

abbrev sizes : List ℕ
sizes = 2 ∷ 2 ∷ 9 ∷ 9 ∷ []

abbrev reader : TcpTunnelConn
reader = new_tunnel_conn (1 ∷ 0 ∷ 0 ∷ 3 ∷ 1 ∷ 2 ∷ 3 ∷ 1 ∷ 0 ∷ 0 ∷ 1 ∷ 4 ∷ [])

run_of_three : reads sizes reader ≡ (1 ∷ 2 ∷ 3 ∷ 4 ∷ [], some io_error)
unfolding reads tcp_read read_frame read_data be16
run_of_three = refl

reads-writes_example : InOrder (1 ∷ 2 ∷ 3 ∷ 4 ∷ []) (reads sizes reader)
unfolding writes tcp_write put16
reads-writes_example =
    reads-writes sizes two_chunks (new_tunnel_conn []) reader (omega arith, (omega arith, tt)) refl
      refl refl

tcp_read-IsAnswer_example : IsAnswer (tcp_read 4 reader).1
tcp_read-IsAnswer_example = tcp_read-IsAnswer 4 reader

-- A chosen method, a response `OK`, a status with an IPv4 address, and one byte behind.
abbrev answers : List ℕ
answers =
    5 ∷ 0x81 ∷ 0x53 ∷ 0 ∷ 0 ∷ 2 ∷ b'O' ∷ b'K' ∷ 5 ∷ 0 ∷ 0 ∷ 1 ∷ 10 ∷ 0 ∷ 0 ∷ 1 ∷ 0 ∷ 80 ∷ 7 ∷ []

wait_for_tcp_connect_iff_example :
    (wait_for_tcp_connect answers ≡ ok (7 ∷ [])) ↔ IsConnected answers (7 ∷ [])
wait_for_tcp_connect_iff_example = wait_for_tcp_connect_iff answers (7 ∷ [])

accepts_answers : wait_for_tcp_connect answers ≡ ok (7 ∷ [])
unfolding wait_for_tcp_connect read_tcp_protocol_response read_full be16
    validate_tcp_protocol_response contains read_tcp_connect_status index
accepts_answers = refl

abbrev client : Client
client = record {
  best_nodes = ("major", "node:441") ∷ [];
  major_node_group = "major";
  skip_tcp_tunnel_wait = false;
  sign_key = "";
  bytes = λ s. [];
  address_text = λ ip port. "10.0.0.1:80";
  host_port = λ host port. host;
  message = λ destAddr app name path. b'{' ∷ b'"' ∷ b'"' ∷ b'}' ∷ [];
  decode_hex = λ s. ok [];
  sign = λ key msg. [];
}

abbrev network : Network
network = record {
  ctx_before = none;
  ctx_after = none;
  tls_error = none;
  set_deadline = none;
  clear_deadline = none;
  written = (21, none);
  answers = answers;
}

dial_tcp_result :
    (dial_tcp client ("app", "group", "") network (10 ∷ 0 ∷ 0 ∷ 1 ∷ []) 80).result
    ≡ ok (new_tunnel_conn (7 ∷ []))
unfolding dial_tcp lookup connect init_message to4 clear_deadline_and_return
    establish_tcp_connection put16 wait_for_tcp_connect read_tcp_protocol_response read_full be16
    validate_tcp_protocol_response contains read_tcp_connect_status index
dial_tcp_result = refl

dial_tcp-open_example :
    leaves_open (dial_tcp client ("app", "group", "") network (10 ∷ 0 ∷ 0 ∷ 1 ∷ []) 80)
    ≡ is_ok (dial_tcp client ("app", "group", "") network (10 ∷ 0 ∷ 0 ∷ 1 ∷ []) 80).result
dial_tcp-open_example = dial_tcp-open client ("app", "group", "") network (10 ∷ 0 ∷ 0 ∷ 1 ∷ []) 80
