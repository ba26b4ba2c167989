-- ===== src/Monitor/Tests.antt =====
-- The control channel at concrete inputs.

use inlets.Common.{
  ℕ, ◌≡◌, refl, ◌^◌, ◌++◌, bytes_key, [], ◌∷◌, true, false, none, some, Bytes-discrete, ℕ_discrete,
  codes, ok, panic,
}
use inlets.Common.Int.{pos, negsuc, half}
use inlets.Common.Dict
use inlets.Common.Text.{same_text}
use inlets.Protocol.{Capabilities}
use inlets.Monitor.Negotiation.{
  brotli, gzip, negotiate_capabilities, agree, negotiate_chunk, negotiate_compression,
  negotiate_window, chunk_of, agreed_window, common_algorithms, with_preferred,
}
use inlets.Monitor.Negotiation.Limits.{IsFair, negotiate_capabilities-IsFair}
use inlets.Monitor.Negotiation.{get_server_url_by_sub_domain, url_at}
use inlets.Common.Text.{
  trim_space, trim_left, trim_right, before_end, to_lower, equal_fold, decimal, decimal_from,
}
use inlets.Client.{Authentication}
use inlets.Stats.{Clock, new_traffic_stats_container}
use inlets.Registry.Domains
use inlets.Registry.Domains.{bound_name, short_uuid}
use inlets.Registry.Tunnels
use inlets.Registry.Tunnels.{TunnelContainer}
use inlets.Monitor.Policy.{
  less, compare_version, is_version_greater_or_equal, requires_modern_client_for_advanced_features,
  should_apply_public_monitor_session_ttl, resolve_public_monitor_session_ttl,
}
use inlets.Monitor.Auth.{
  Settings, Server, Incoming, Session, handle_authenticate, handle_disconnect, checked, gate,
  verify, admit, enter, open_tunnel, is_used, session_of, client_name, format_int, with_tunnel,
  bind_domain,
}
use inlets.Monitor.Auth.Sound.{IsSound, handle_authenticate-IsSound}
use inlets.Monitor.Auth.Tables.{IsFree}
use inlets.Monitor.Auth.Lifetime.{handle_disconnect-handle_authenticate}

abbrev offer : Capabilities
offer = record {
  flags = 1038;
  version = codes "2.0.0";
  features = some (record {
    compression = some (record { algorithms = gzip ∷ codes "lz4" ∷ brotli ∷ []; preferred = [] });
    chunk_size = some (record { min_size = pos 1; max_size = pos 4096; default_size = negsuc 0 });
    window_size = none;
  });
}

-- the default chunk size may come out negative
abbrev agreed : Capabilities
agreed = record {
  flags = 14;
  version = codes "2.0.0";
  features = some (record {
    compression = some (record { algorithms = gzip ∷ brotli ∷ []; preferred = brotli });
    chunk_size =
        some (record { min_size = pos 1024; max_size = pos 4096; default_size = negsuc 0 });
    window_size = some (pos 1048576);
  });
}

agreement : negotiate_capabilities (some offer) ≡ ok (some agreed)
unfolding negotiate_capabilities agree negotiate_chunk negotiate_compression negotiate_window
    chunk_of agreed_window common_algorithms with_preferred same_text Bytes-discrete ℕ_discrete
agreement = refl

negotiate_capabilities-IsFair_example : IsFair 1038 offer.features agreed
negotiate_capabilities-IsFair_example = negotiate_capabilities-IsFair offer agreed 0 refl agreement

-- a client that sends flags without features stops the server's goroutine
no_features :
    negotiate_capabilities (some (record { flags = 4; version = []; features = none })) ≡ panic
unfolding negotiate_capabilities agree negotiate_chunk
no_features = refl

-- Versions are compared as texts, so that 10 comes before 2.
version_ten : is_version_greater_or_equal (codes "10.0.0") (codes "2.0.0") ≡ false
unfolding is_version_greater_or_equal compare_version less
version_ten = refl

-- A lifetime of one nanosecond is warned of a second before its end.
warned_late : resolve_public_monitor_session_ttl (pos 1) (pos 0) ≡ (pos 1, pos (10 ^ 9))
unfolding resolve_public_monitor_session_ttl half
warned_late = refl

-- One client is known; a text is signed by putting the key in front.
abbrev settings : Settings ℕ ℕ
settings = record {
  version = codes "2.0.0";
  url = record { domain = codes "example.com"; secure = true; port = 443 };
  token = λ kind id type child.
      some (record { auth_type = codes "token"; token = codes "k"; tunnels = [] });
  hmac = λ text key. key ++ text;
  adapter = λ caps. 1;
  get_token = 0;
}

abbrev now : Clock
now i = 1

abbrev idle : Server ℕ ℕ
idle = record { tunnels = []; domains = []; stats = new_traffic_stats_container now }

abbrev arrival : Incoming
arrival = record {
  socket = 4;
  request_host = codes "example.com";
  client_uuid = codes "c0ffee00-1";
  container_uuid = codes "t1";
  domain_uuid = codes "1b4e28ba-2";
}

abbrev asks : Authentication
asks = record {
  version = codes "2.0.0";
  type = codes "http";
  port = pos 3000;
  sub_domain = codes "App";
  tunnel_port = pos 0;
  timestamp = pos 7;
  auth_type = codes "token";
  client_id = codes "c";
  signature = codes "k7";
  capabilities = none;
  opaque_child = false;
  http_ingress_basic = none;
}

abbrev session : Session
session = record {
  client_id = codes "c";
  container_id = codes "t1";
  sub_domain = codes "app";
  url = codes "https://app.example.com";
  negotiated = none;
  offered = [];
  public_limit = false;
}

abbrev entered : Server ℕ ℕ
entered = (handle_authenticate settings idle arrival asks now).0

admitted : handle_authenticate settings idle arrival asks now ≡ (entered, ok session)
unfolding handle_authenticate checked gate verify admit enter open_tunnel is_used session_of
    client_name format_int with_tunnel bind_domain Domains.bind_ws_with_metadata Domains.has
    bound_name negotiate_capabilities get_server_url_by_sub_domain url_at
    requires_modern_client_for_advanced_features should_apply_public_monitor_session_ttl
    is_version_greater_or_equal compare_version less trim_space trim_left trim_right before_end
    to_lower same_text equal_fold decimal decimal_from Bytes-discrete ℕ_discrete Dict.get
admitted = refl

handle_authenticate-IsSound_example :
    IsSound settings idle arrival asks (handle_authenticate settings idle arrival asks now)
handle_authenticate-IsSound_example = handle_authenticate-IsSound settings idle arrival asks now

no_tunnel : Tunnels.get idle.tunnels arrival.container_uuid ≡ none
unfolding Tunnels.get Dict.get
no_tunnel = refl

uuid_unused : IsFree idle.domains (bound_name arrival.domain_uuid [])
unfolding Dict.get
uuid_unused = refl

handle_disconnect-handle_authenticate_example :
    (Tunnels.get (handle_disconnect entered session now).0.tunnels (codes "t1")
      ≡ Tunnels.get idle.tunnels (codes "t1"))
    × (Domains.get (handle_disconnect entered session now).0.domains (codes "APP")
        ≡ Domains.get idle.domains (codes "APP"))
handle_disconnect-handle_authenticate_example =
    handle_disconnect-handle_authenticate settings idle arrival no_tunnel (λ e. cc) uuid_unused asks
      now now entered session (codes "t1") (codes "APP") admitted
