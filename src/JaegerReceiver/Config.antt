-- ===== src/JaegerReceiver/Config.antt =====
-- receiver/jaegerreceiver/config.go, and createDefaultConfig of factory.go.
-- The settings of the servers are their endpoints and what `G` (gRPC), `H` (HTTP) stand for; the
-- collector's confmap is a parameter.
pub mod Valid
use hypertrace_collector.Prelude.{
  ℕ, Bool, true, false, ◌&&◌, ◌⊎◌, inl, inr, Option, none, some, List, [], ◌∷◌, Str, str, ltb,
  if◌then◌else◌,
}
use hypertrace_collector.Prelude.Int.{ℤ, pos, negsuc, parse_int}
use hypertrace_collector.Prelude.HostPort.{AddrError, split_host_port}

-- configgrpc.ServerConfig and confighttp.ServerConfig, of which the receiver reads the endpoint.
pub record ServerConfig (G : Type 0) : Type 0 where
  pub endpoint : Str
  pub options : G

pub record ServerConfigUdp : Type 0 where
  pub queue_size : ℕ
  pub max_packet_size : ℕ
  pub workers : ℕ
  pub socket_buffer_size : ℕ

pub record ProtocolUdp : Type 0 where
  pub endpoint : Str
  pub server : ServerConfigUdp

pub record Protocols (G H : Type 0) : Type 0 where
  pub grpc : Option (ServerConfig G)
  pub thrift_http : Option (ServerConfig H)
  pub thrift_binary : Option ProtocolUdp
  pub thrift_compact : Option ProtocolUdp

pub record RemoteSamplingConfig : Type 0 where
  pub host_endpoint : Str
  pub strategy_file : Str
  pub strategy_file_reload_interval : ℕ

pub record Config (G H : Type 0) : Type 0 where
  pub protocols : Protocols G H
  pub remote_sampling : Option RemoteSamplingConfig

abbrev default_server_config_udp : ServerConfigUdp
default_server_config_udp = record {
  queue_size = 1000;
  max_packet_size = 65000;
  workers = 10;
  socket_buffer_size = 0;
}

-- The default ports.
abbrev default_grpc_port : ℕ
default_grpc_port = 14250

abbrev default_http_port : ℕ
default_http_port = 14268

abbrev default_thrift_compact_port : ℕ
default_thrift_compact_port = 6831

abbrev default_thrift_binary_port : ℕ
default_thrift_binary_port = 6832

-- createDefaultConfig; `endpoint_for_port` is localhostgate.EndpointForPort, and the options are those
-- of a TCP server for gRPC and none for HTTP.
unfoldable pub create_default_config : {G H : Type 0} → (ℕ → Str) → G → H → Config G H
create_default_config endpoint_for_port tcp http = record {
  protocols = record {
    grpc = some (record { endpoint = endpoint_for_port default_grpc_port; options = tcp });
    thrift_http = some (record { endpoint = endpoint_for_port default_http_port; options = http });
    thrift_binary = some (record {
      endpoint = endpoint_for_port default_thrift_binary_port;
      server = default_server_config_udp;
    });
    thrift_compact = some (record {
      endpoint = endpoint_for_port default_thrift_compact_port;
      server = default_server_config_udp;
    });
  };
  remote_sampling = none;
}

-- The errors of checkPortFromEndpoint.
pub data PortError : Type 0 where
  not_formatted : AddrError → PortError
  not_a_number : PortError
  out_of_range : PortError

-- `port < 1 || port > 65535`
abbrev outside_ports : ℤ → Bool
outside_ports (pos n) = if ltb n 1 then true else ltb 65535 n
outside_ports (negsuc n) = true

-- checkPortFromEndpoint, in two steps; none is no error.
abbrev check_port : Option ℤ → Option PortError
check_port none = some not_a_number
check_port (some port) = if outside_ports port then some out_of_range else none

unfoldable pub check_port_from_endpoint : Str → Option PortError
unfolding split_host_port parse_int
check_port_from_endpoint endpoint = elim (split_host_port endpoint) [
  | inl e ↦ some (not_formatted e)
  | inr r ↦ check_port (parse_int r.1)
]

-- The errors of Validate.
pub data ConfigError : Type 0 where
  no_protocol : ConfigError
  grpc_port thrift_http_port thrift_binary_port thrift_compact_port : PortError → ConfigError
  remote_sampling_detected : ConfigError

abbrev pub is_nil : {A : Type 0} → Option A → Bool
is_nil none = true
is_nil (some _) = false

-- The test of one protocol: its error, or what the rest of Validate returns.
abbrev pub check_protocol :
    (PortError → ConfigError) → Option Str → Option ConfigError → Option ConfigError
check_protocol wrap none rest = rest
check_protocol wrap (some endpoint) rest = elim (check_port_from_endpoint endpoint) [
  | none ↦ rest
  | some e ↦ some (wrap e)
]

-- The endpoint of a protocol that is set.
abbrev pub server_endpoint : {G : Type 0} → Option (ServerConfig G) → Option Str
server_endpoint none = none
server_endpoint (some s) = some s.endpoint

abbrev pub udp_endpoint : Option ProtocolUdp → Option Str
udp_endpoint none = none
udp_endpoint (some s) = some s.endpoint

abbrev pub check_remote_sampling : Bool → Option RemoteSamplingConfig → Option ConfigError
check_remote_sampling gate none = none
check_remote_sampling gate (some _) = if gate then some remote_sampling_detected else none

-- Validate; the flag is that of the gate receiver.jaeger.DisableRemoteSampling.
unfoldable pub validate : {G H : Type 0} → Bool → Config G H → Option ConfigError
unfolding check_port_from_endpoint
validate gate cfg =
    let p = cfg.protocols in
    let checks = check_protocol grpc_port (server_endpoint p.grpc) (
      check_protocol thrift_http_port (server_endpoint p.thrift_http) (
        check_protocol thrift_binary_port (udp_endpoint p.thrift_binary) (
          check_protocol thrift_compact_port (udp_endpoint p.thrift_compact)
            (check_remote_sampling gate cfg.remote_sampling)))) in
    if is_nil p.grpc
      && (is_nil p.thrift_http && (is_nil p.thrift_binary && is_nil p.thrift_compact))
    then some no_protocol
    else checks

-- confmap.Conf, as Unmarshal uses it: AllKeys, Unmarshal, and Sub of "protocols" with its IsSet.
pub record Conf (G H E : Type 0) : Type 0 where
  pub all_keys : List Str
  pub unmarshal_into : Config G H → E ⊎ Config G H
  pub protocols : E ⊎ (Str → Bool)

-- The errors of Unmarshal.
pub data UnmarshalError (E : Type 0) : Type 0 where
  empty_config : UnmarshalError E
  conf_failed : E → UnmarshalError E

abbrev if_set : {A : Type 0} → Bool → Option A → Option A
if_set true o = o
if_set false o = none

-- The protocol structs whose keys were omitted are set to nil.
unfoldable without_unset : {G H : Type 0} → (Str → Bool) → Config G H → Config G H
without_unset is_set cfg = record cfg {
  protocols = record {
    grpc = if_set (is_set (str "grpc")) cfg.protocols.grpc;
    thrift_http = if_set (is_set (str "thrift_http")) cfg.protocols.thrift_http;
    thrift_binary = if_set (is_set (str "thrift_binary")) cfg.protocols.thrift_binary;
    thrift_compact = if_set (is_set (str "thrift_compact")) cfg.protocols.thrift_compact;
  };
}

abbrev no_keys : List Str → Bool
no_keys [] = true
no_keys (_ ∷ _) = false

-- Unmarshal; a missing parser is none.
unfoldable unmarshal :
    {G H E : Type 0} → Option (Conf G H E) → Config G H → UnmarshalError E ⊎ Config G H
unfolding without_unset
unmarshal none cfg = inl empty_config
unmarshal (some conf) cfg =
    if no_keys conf.all_keys then inl empty_config else elim (conf.unmarshal_into cfg) [
      | inl e ↦ inl (conf_failed e)
      | inr cfg' ↦ elim conf.protocols [
        | inl e ↦ inl (conf_failed e)
        | inr is_set ↦ inr (without_unset is_set cfg')
      ]
    ]
