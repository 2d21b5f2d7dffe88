-- ===== src/L3Tunnel/Connection/Loop.antt =====
-- What the read loop of client/atrust/l3tunnelconn.go keeps, whatever the portal sends.
use zju_portal_core.Base.{
  ℕ, zero, suc, ◌<◌, ◌≡◌, ◌≢◌, ◌⊎◌, inl, inr, refl, ◌∙◌, ◌&&◌, Bool, true, false, Option, none,
  some, List, [], ◌∷◌, ◌++◌, not, nat_beq, String, length, arith, Bool-cases, if◌then◌else◌,
}
use zju_portal_core.Stream.{Result, ok, err, fault}
use zju_portal_core.Stream.Meets.{Meets-cases}
use zju_portal_core.Core.Error.{Error, is_error?}
use zju_portal_core.L3Tunnel.Conntrack.Consistent.{IsConsistent}
use zju_portal_core.L3Tunnel.Conntrack.Invariant.{mark_auth-IsConsistent}
use zju_portal_core.L3Tunnel.DataPayload.{
  ParseError, DataMode, len_mode, token_mode, parse_data_payload,
}
use zju_portal_core.L3Tunnel.Frames.{
  Frame, cmd_data_resp, cmd_auth_resp, cmd_second_vip_resp, cmd_heartbeat_resp,
}
use zju_portal_core.L3Tunnel.Frames.Reading.{read_frame-Meets}
use zju_portal_core.L3Tunnel.Connection.{
  L3TunnelConn, Library, AuthResponseIp, close, record_error, fail, report_health_error, mark,
  mark_auth_error_from_payload, settle_response, handle_auth_resp, extract_vips,
  handle_second_vip_resp, deliver, deliver_parsed, touch_heartbeat, handle_data, handle_frame,
  frame_error, has_packets, read_loop, err_session_invalid,
}

-- Only session errors were reported.
abbrev pub AllInvalid : List Error → Type 0
AllInvalid [] = Unit {0}
AllInvalid (e ∷ es) = (is_error? (some e) err_session_invalid ≡ true) × AllInvalid es

-- Between frames: the table is consistent, the TLS connection was closed once if at all, and only
-- session errors were reported.
pub record IsSound (c : L3TunnelConn) : Type 0 where
  pub table : IsConsistent c.conntrack_mgr
  pub once : c.closes ≡ (if c.closed then 1 else 0)
  pub reports : AllInvalid c.health

report-IsSound :
    (e : Option Error) (c : L3TunnelConn) → IsSound c → IsSound (report_health_error e c)
unfolding report_health_error
report-IsSound none c h = h
report-IsSound (some e) c h = elim (Bool-cases (is_error? (some e) err_session_invalid)) [
  | inl t ↦
      rw (report_health_error, t)
        (record { table = h.table; once = h.once; reports = (t, h.reports) })
  | inr t ↦ rw (report_health_error, t) h
]

mark-IsSound :
    (id : ℕ) (token : String) (e : Option Error) (c : L3TunnelConn)
    → IsSound c
    → IsSound (mark id token e c)
unfolding mark
mark-IsSound id token e c h = record {
  table = mark_auth-IsConsistent id token e c.conntrack_mgr h.table;
  once = h.once;
  reports = h.reports;
}

choose-IsSound :
    {c d : L3TunnelConn} (t : Bool) → IsSound c → IsSound d → IsSound (if t then c else d)
choose-IsSound true h k = h
choose-IsSound false h k = k

Sum-cases {ℓ κ} :
    {A : Type ℓ} {B : Type κ} (x : A ⊎ B) → ((a : A) × (x ≡ inl a)) ⊎ ((b : B) × (x ≡ inr b))
Sum-cases (inl a) = inl (a, refl)
Sum-cases (inr b) = inr (b, refl)

either-IsSound :
    {f : Error → L3TunnelConn} {g : AuthResponseIp → L3TunnelConn} (x : Error ⊎ AuthResponseIp)
    → ((e : Error) → IsSound (f e))
    → ((r : AuthResponseIp) → IsSound (g r))
    → IsSound (elim x [ inl e ↦ f e | inr r ↦ g r ])
either-IsSound (inl e) h k = h e
either-IsSound (inr r) h k = k r

mark_error-IsSound :
    (lib : Library) (payload : List ℕ) (e : Error) (c : L3TunnelConn)
    → IsSound c
    → IsSound (mark_auth_error_from_payload lib payload e c)
unfolding mark_auth_error_from_payload
mark_error-IsSound lib payload e c h = elim (Sum-cases (lib.unmarshal_auth payload)) [
  | inl (f, p) ↦ rw (mark_auth_error_from_payload, p) (report-IsSound (some e) c h)
  | inr (resp, p) ↦
      rw (mark_auth_error_from_payload, p)
        (report-IsSound _ _ (choose-IsSound _ h (mark-IsSound _ _ _ c h)))
]

settle-IsSound :
    (lib : Library) (resp : AuthResponseIp) (c : L3TunnelConn)
    → IsSound c
    → IsSound (settle_response lib resp c)
unfolding settle_response
settle-IsSound lib resp c h = report-IsSound _ _ (mark-IsSound _ _ _ c h)

auth_resp-IsSound :
    (lib : Library) (status : ℕ) (payload : List ℕ) (c : L3TunnelConn)
    → IsSound c
    → IsSound (handle_auth_resp lib status payload c)
unfolding handle_auth_resp
auth_resp-IsSound lib status payload c h =
    choose-IsSound (not (nat_beq status 0)) (mark_error-IsSound lib payload _ c h) (
      either-IsSound (lib.unmarshal_auth payload) (λ f. mark_error-IsSound lib payload f c h)
        (λ resp.
          choose-IsSound _ (mark_error-IsSound lib payload _ c h) (settle-IsSound lib resp c h)))

vips-IsSound :
    (ips : List (List ℕ)) (c : L3TunnelConn)
    → IsSound c
    → IsSound (elim ips [ [] ↦ c | ip ∷ more ↦ record c { vips = (ip ∷ more) ∷ c.vips } ])
vips-IsSound [] c h = h
vips-IsSound (ip ∷ more) c h = record { table = h.table; once = h.once; reports = h.reports }

second_vip-IsSound :
    (lib : Library) (status : ℕ) (payload : List ℕ) (c : L3TunnelConn)
    → IsSound c
    → IsSound (handle_second_vip_resp lib status payload c)
unfolding handle_second_vip_resp
second_vip-IsSound lib status payload c h =
    choose-IsSound (not (nat_beq status 0)) h (vips-IsSound (extract_vips lib payload) c h)

deliver-IsSound : (ps : List (List ℕ)) (c : L3TunnelConn) → IsSound c → IsSound (deliver ps c)
unfolding deliver
deliver-IsSound ps c h =
    choose-IsSound {d = record c { incoming = c.incoming ++ ps }} c.closed h
      (record { table = h.table; once = h.once; reports = h.reports })

data-IsSound :
    {l t : L3TunnelConn} (m : Option DataMode)
    → IsSound l
    → IsSound t
    → IsSound (elim m [ some len_mode ↦ l | _ ↦ t ])
data-IsSound (some len_mode) h k = h
data-IsSound (some token_mode) h k = k
data-IsSound none h k = k

parsed-IsSound :
    (r : Result ParseError (List (List ℕ))) (c : L3TunnelConn)
    → IsSound c
    → IsSound (deliver_parsed r c)
unfolding deliver_parsed
parsed-IsSound (ok ps) c h = deliver-IsSound ps c h
parsed-IsSound (err e) c h = h
parsed-IsSound fault c h = h

handle_data-IsSound : (fr : Frame) (c : L3TunnelConn) → IsSound c → IsSound (handle_data fr c)
unfolding handle_data
handle_data-IsSound fr c h =
    data-IsSound fr.data_mode (deliver-IsSound (fr.payload ∷ []) c h)
      (parsed-IsSound (parse_data_payload fr.payload) c h)

heartbeat-IsSound : (now : ℕ) (c : L3TunnelConn) → IsSound c → IsSound (touch_heartbeat now c)
unfolding touch_heartbeat
heartbeat-IsSound now c h = record { table = h.table; once = h.once; reports = h.reports }

handle_frame-IsSound :
    (lib : Library) (now : ℕ) (fr : Frame) (c : L3TunnelConn)
    → IsSound c
    → IsSound (handle_frame lib now fr c)
unfolding handle_frame
handle_frame-IsSound lib now fr c h =
    choose-IsSound (nat_beq fr.cmd cmd_data_resp) (handle_data-IsSound fr c h) (
      choose-IsSound (nat_beq fr.cmd cmd_auth_resp) (auth_resp-IsSound lib fr.status fr.payload c h)
        (choose-IsSound (nat_beq fr.cmd cmd_second_vip_resp)
          (second_vip-IsSound lib fr.status fr.payload c h)
          (choose-IsSound (nat_beq fr.cmd cmd_heartbeat_resp) (heartbeat-IsSound now c h) h)))

handle_frame-terminal :
    (lib : Library) (now : ℕ) (fr : Frame) (c : L3TunnelConn)
    → (handle_frame lib now fr c).terminal_err ≡ c.terminal_err
unfolding handle_frame handle_auth_resp mark_auth_error_from_payload settle_response
    report_health_error mark
handle_frame-terminal lib now fr c = ground arith

handle_frame-closed :
    (lib : Library) (now : ℕ) (fr : Frame) (c : L3TunnelConn)
    → (handle_frame lib now fr c).closed ≡ c.closed
unfolding handle_frame handle_auth_resp mark_auth_error_from_payload settle_response
    report_health_error mark
handle_frame-closed lib now fr c = ground arith

-- The connection d, closed, whose error is that of c if that had one.
pub record IsEnded (c d : L3TunnelConn) : Type 0 where
  pub sound : IsSound d
  pub ended : d.closed ≡ true
  pub has_error : d.terminal_err ≢ none
  pub first_error : (e : Error) → c.terminal_err ≡ some e → d.terminal_err ≡ some e

fail-IsEnded : (e : Error) (c : L3TunnelConn) → IsSound c → IsEnded c (fail (some e) c)
unfolding fail close record_error
fail-IsEnded e c h = record {
  sound = record {
    table = ground (arith, h.table);
    once = ground (arith, h.once);
    reports = ground (arith, h.reports);
  };
  ended = ground arith;
  has_error = ground arith;
  first_error = λ f p. ground arith;
}

still_open :
    (fr : Frame) (c : L3TunnelConn) → c.closed ≡ false → (c.closed && has_packets fr) ≡ false
still_open fr c h = ground arith

after-IsEnded : {c d e : L3TunnelConn} → d.terminal_err ≡ c.terminal_err → IsEnded d e → IsEnded c e
after-IsEnded same h = record {
  sound = h.sound;
  ended = h.ended;
  has_error = h.has_error;
  first_error = λ f p. h.first_error f (same ∙ p);
}

-- Whatever the portal sends until it closes, and with fuel for its bytes, the read loop of a sound and
-- open connection ends it: the connection is closed, has an error, and keeps the first one it had; its TLS
-- connection was closed once, its table of flows is consistent, with no channel closed twice, and only
-- errors of the session were reported.
pub read_loop-IsEnded :
    (lib : Library) (clock : ℕ → ℕ) (fuel : ℕ) (s : List ℕ) (c : L3TunnelConn)
    → length s < fuel
    → c.closed ≡ false
    → IsSound c
    → IsEnded c (read_loop lib clock fuel s c)
unfolding read_loop
read_loop-IsEnded lib clock zero s c le up h = absurd (omega arith)
read_loop-IsEnded lib clock (suc fuel) s c le up h = elim (Meets-cases (read_frame-Meets s)) [
  | inr (e, p, q) ↦ rw (read_loop, p) (fail-IsEnded (frame_error e) c h)
  | inl ((fr, rest), p, shorter) ↦
      rw (read_loop, p, still_open fr c up)
        (after-IsEnded (handle_frame-terminal lib (clock (length rest)) fr c) (
          read_loop-IsEnded lib clock fuel rest (handle_frame lib (clock (length rest)) fr c)
            (omega (arith, le, shorter)) (handle_frame-closed lib (clock (length rest)) fr c ∙ up)
            (handle_frame-IsSound lib (clock (length rest)) fr c h)))
]
