-- ===== src/L3Tunnel/Request.antt =====
-- client/atrust/l3tunnelconn.go: the request that authenticates a flow, `buildAuthRequest`. encoding/json,
-- crypto and the texts of addresses are parameters.
use zju_portal_core.Base.{
  ℕ, ◌⊎◌, inl, inr, List, [], ◌∷◌, String, string_eq, ◌==◌, nat_beq, if◌then◌else◌,
}
use Prim.Native.String.{◌++◌}
use zju_portal_core.Core.Error.{Error}
use zju_portal_core.L3Tunnel.Conntrack.{Conntrack}
use zju_portal_core.L3Tunnel.Filter.{PacketMeta}

pub record ClientInfo : Type 0 where
  pub sid : String
  pub device_id : String
  pub connection_id : String
  pub username : String

pub record AuthIp : Type 0 where
  pub atype : ℕ
  pub protocol : ℕ
  pub dest_addr : String
  pub dest_port : ℕ
  pub src_addr : String
  pub src_port : ℕ

pub record TrustEnv : Type 0 where
  pub name : String
  pub digital_signature : String
  pub platform : String
  pub fingerprint : String
  pub description : String
  pub path : String
  pub version : String
  pub security_env : String
  pub process_trusted : String

pub record AuthRequestIp : Type 0 where
  pub sid : String
  pub app_id : String
  pub url : String
  pub device_id : String
  pub connection_id : String
  pub env : TrustEnv
  pub conntrack_hash : ℕ
  pub lang : String
  pub ip : AuthIp
  pub proc_hash : String
  pub x_request_sig : String

-- `proto_host_port` is `fmt.Sprintf("%s:%s:%d")`, `getenv` `os.Getenv`, `sign` `calcXRequestSig`.
pub record Formats : Type 0 where
  pub ip_text : List ℕ → String
  pub proto_host_port : String → String → ℕ → String
  pub marshal : AuthRequestIp → Error ⊎ List ℕ
  pub sign : List ℕ → List ℕ → String
  pub sha256_hex : String → String
  pub goos : String
  pub getenv : String → String
  pub split : String → String → List String
  pub replace_all : String → String → String → String
  pub to_lower : String → String
  pub to_upper : String → String
  pub text_length : String → ℕ

unfoldable pub proto_name : ℕ → String
proto_name proto =
    if nat_beq proto 6
    then "tcp"
    else if nat_beq proto 17
    then "udp"
    else if nat_beq proto 1
    then "icmp"
    else if nat_beq proto 58
    then "icmp6"
    else "ip"

unfoldable pub auth_ip_type : ℕ → ℕ
auth_ip_type atype = if nat_beq atype 6 then 0x86DD else 0x0800

unfoldable pub first_non_empty : List String → String
first_non_empty [] = ""
first_non_empty (s ∷ rest) = if s == "" then first_non_empty rest else s

-- The first part of `strings.Split`, which is never empty for a separator.
abbrev head_text : List String → String
head_text [] = ""
head_text (s ∷ rest) = s

abbrev two_parts : Formats → String → List String → String
two_parts f lang (a ∷ b ∷ []) = f.to_lower a ++ "-" ++ f.to_upper b
two_parts f lang parts = lang

unfoldable pub lang_from_env : Formats → String
unfolding first_non_empty
lang_from_env f =
    let lang = first_non_empty (
      f.getenv "ZJU_CONNECT_LANG"
      ∷ f.getenv "LC_ALL"
      ∷ f.getenv "LC_MESSAGES"
      ∷ f.getenv "LANG"
      ∷ []) in
    if lang == ""
    then "en-US"
    else let tag = f.replace_all (head_text (f.split lang ".")) "_" "-" in
      if nat_beq (f.text_length tag) 2
      then f.to_lower tag ++ "-" ++ f.to_upper (f.to_lower tag)
      else two_parts f tag (f.split tag "-")

abbrev pub platform_name : String → String
platform_name os =
    if os == "darwin"
    then "macOS"
    else if os == "windows"
    then "Windows"
    else if os == "linux"
    then "Linux"
    else os

unfoldable pub default_env : Formats → TrustEnv
default_env f = record {
  name = "zju-portal-core";
  digital_signature = "TrustAppClosed";
  platform = platform_name f.goos;
  fingerprint = f.sha256_hex "/usr/bin/zju-portal-core";
  description = "TrustAppClosed";
  path = "/usr/bin/zju-portal-core";
  version = "TrustAppClosed";
  security_env = "normal";
  process_trusted = "TRUSTED";
}

unfoldable pub unsigned_request : Formats → ClientInfo → PacketMeta → Conntrack → AuthRequestIp
unfolding proto_name auth_ip_type lang_from_env default_env
unsigned_request f info meta ct = record {
  sid = info.sid;
  app_id = ct.app_id;
  url = f.proto_host_port (proto_name meta.proto) (f.ip_text meta.dst_ip) meta.dst_port;
  device_id = info.device_id;
  connection_id = info.connection_id;
  env = default_env f;
  conntrack_hash = ct.auth_id;
  lang = lang_from_env f;
  ip = record {
    atype = auth_ip_type meta.atype;
    protocol = meta.proto;
    dest_addr = f.ip_text meta.dst_ip;
    dest_port = meta.dst_port;
    src_addr = f.ip_text meta.src_ip;
    src_port = meta.src_port;
  };
  proc_hash = (default_env f).fingerprint;
  x_request_sig = "";
}

-- The signature is that of the message without it.
unfoldable pub build_auth_request :
    Formats → ClientInfo → List ℕ → PacketMeta → Conntrack → Error ⊎ List ℕ
unfolding unsigned_request
build_auth_request f info signKey meta ct =
    let req = unsigned_request f info meta ct in
    elim (f.marshal req) [
      | inl e ↦ inl e
      | inr unsigned ↦ f.marshal (record req { x_request_sig = f.sign signKey unsigned })
    ]
