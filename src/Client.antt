-- ===== src/Client.antt =====
-- internal/client/types.go: what the client and the server say to each other about tunnels, and the
-- client's options.
pub mod Upstream
pub mod TunnelSpecs
mod Tests
use inlets.Common.{List, Bool, Option, Bytes}
use inlets.Common.Int.{ℤ}
use inlets.Protocol.{Capabilities}

pub record HttpTunnelAuth : Type 0 where
  pub type : Bytes
  pub username : Bytes
  pub password : Bytes
  pub token : Bytes

pub record HttpIncomingAuthRule : Type 0 where
  pub enable : Bool
  pub users : List HttpTunnelAuth

pub record TunnelSpec : Type 0 where
  pub name : Bytes
  pub type : Bytes
  pub upstream : Bytes
  pub sub_domain : Bytes
  pub remote_port : ℤ
  pub auth : Option HttpIncomingAuthRule
  pub auths : List HttpTunnelAuth

pub record Authentication : Type 0 where
  pub version : Bytes
  pub type : Bytes
  pub port : ℤ
  pub sub_domain : Bytes
  pub tunnel_port : ℤ
  pub timestamp : ℤ
  pub auth_type : Bytes
  pub client_id : Bytes
  pub signature : Bytes
  pub capabilities : Option Capabilities
  pub opaque_child : Bool
  pub http_ingress_basic : Option HttpTunnelAuth

-- `reconnect_interval` is in nanoseconds.
pub record Options : Type 0 where
  pub type : Bytes
  pub upstream_host : Bytes
  pub upstream_port : ℤ
  pub upstream_username : Bytes
  pub upstream_password : Bytes
  pub auth_type : Bytes
  pub token : Bytes
  pub client_id : Bytes
  pub client_secret : Bytes
  pub sub_domain : Bytes
  pub tunnel_port : ℤ
  pub server : Bytes
  pub remote : Bytes
  pub remote_tcp_port : ℤ
  pub healthcheck_int : ℤ
  pub report_url : Bytes
  pub version : Bytes
  pub reconnect_max_retries : ℤ
  pub reconnect_interval : ℤ
  pub opaque_child : Bool
