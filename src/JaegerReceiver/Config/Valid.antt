-- ===== src/JaegerReceiver/Config/Valid.antt =====
-- Which settings Validate accepts.
use hypertrace_collector.Prelude.{
  ℕ, ◌≤◌, ◌<◌, ◌^◌, ◌≡◌, ◌↔◌, ◌⊎◌, refl, Bool, true, false, Option, none, some, ◌∷◌, ◌++◌, Str,
  arith,
}
use hypertrace_collector.Prelude.Decimal.{itoa}
use hypertrace_collector.Prelude.Int.{parse_int-itoa, all_digits-itoa}
use hypertrace_collector.Prelude.HostPort.{split_host_port-plain, plain}
use hypertrace_collector.JaegerReceiver.Config.{
  Config, ConfigError, PortError, grpc_port, thrift_http_port, thrift_binary_port,
  thrift_compact_port, check_port_from_endpoint, check_protocol, check_remote_sampling,
  RemoteSamplingConfig, is_nil, server_endpoint, udp_endpoint, validate,
}

-- An endpoint that is written as a host without colons and brackets, a colon and the number n (below
-- 2 ^ 63) is accepted exactly when n is from 1 to 65535.
pub check_port_from_endpoint_iff :
    (host : Str) (n : ℕ)
    → plain host ≡ true
    → n < 2 ^ 63
    → (check_port_from_endpoint (host ++ 58 ∷ itoa n) ≡ none) ↔ ((1 ≤ n) × (n ≤ 65535))
unfolding check_port_from_endpoint
check_port_from_endpoint_iff host n h lt =
    rw
      (
        check_port_from_endpoint,
        split_host_port-plain host (itoa n) h (all_digits-itoa n),
        parse_int-itoa n lt,
      )
      (λ e. ground arith, λ e. ground arith)

-- The endpoint of a protocol that is set is accepted.
abbrev Accepted : Option Str → Type 0
Accepted none = Unit
Accepted (some endpoint) = check_port_from_endpoint endpoint ≡ none

check_protocol_iff :
    (wrap : PortError → ConfigError) (endpoint : Option Str) (rest : Option ConfigError)
    → (check_protocol wrap endpoint rest ≡ none) ↔ (Accepted endpoint × (rest ≡ none))
check_protocol_iff wrap none rest = (λ h. (tt, h), λ h. h.1)
check_protocol_iff wrap (some endpoint) rest = ground arith

check_remote_sampling_iff :
    (gate : Bool) (r : Option RemoteSamplingConfig)
    → (check_remote_sampling gate r ≡ none) ↔ (gate ≡ true → is_nil r ≡ true)
check_remote_sampling_iff gate none = (λ h e. refl, λ h. refl)
check_remote_sampling_iff true (some r) = (λ h e. cc, λ h. cc (h refl))
check_remote_sampling_iff false (some r) = (λ h e. cc, λ h. refl)

-- The four tests of protocols and the one of remote sampling.
checks_iff :
    (a b c d : Option Str) (rest : Option ConfigError)
    → (check_protocol grpc_port a (
          check_protocol thrift_http_port b
            (check_protocol thrift_binary_port c (check_protocol thrift_compact_port d rest)))
        ≡ none)
      ↔ (Accepted a × Accepted b × Accepted c × Accepted d × (rest ≡ none))
checks_iff a b c d rest = (
  λ h.
      let (x, h1) = (check_protocol_iff grpc_port a _).0 h in
      let (y, h2) = (check_protocol_iff thrift_http_port b _).0 h1 in
      let (z, h3) = (check_protocol_iff thrift_binary_port c _).0 h2 in
      let (w, h4) = (check_protocol_iff thrift_compact_port d rest).0 h3 in (x, y, z, w, h4),
  λ (x, y, z, w, r). (check_protocol_iff grpc_port a _).1 (
    x,
    (check_protocol_iff thrift_http_port b _).1 (
      y,
      (check_protocol_iff thrift_binary_port c _).1
          (z, (check_protocol_iff thrift_compact_port d rest).1 (w, r)),
    ),
  ),
)

module _ {G H : Type 0} (gate : Bool) (cfg : Config G H) where
  -- Some protocol is set, the endpoint of each protocol that is set is accepted, and remote sampling is
  -- not set where the gate is on.
  abbrev pub Valid : Type 0
  Valid =
      ((is_nil cfg.protocols.grpc ≡ false)
        ⊎ ((is_nil cfg.protocols.thrift_http ≡ false)
            ⊎ ((is_nil cfg.protocols.thrift_binary ≡ false)
                ⊎ (is_nil cfg.protocols.thrift_compact ≡ false))))
      × Accepted (server_endpoint cfg.protocols.grpc)
      × Accepted (server_endpoint cfg.protocols.thrift_http)
      × Accepted (udp_endpoint cfg.protocols.thrift_binary)
      × Accepted (udp_endpoint cfg.protocols.thrift_compact)
      × (gate ≡ true → is_nil cfg.remote_sampling ≡ true)

  -- Validate returns no error exactly when some protocol is set, checkPortFromEndpoint accepts the
  -- endpoint of every protocol that is set, and remote sampling is not set where the gate that disables
  -- it is on.
  pub validate_receiver_iff : (validate gate cfg ≡ none) ↔ Valid
  unfolding validate
  validate_receiver_iff =
      let p = cfg.protocols in
      ground (
        arith,
        checks_iff (server_endpoint p.grpc) (server_endpoint p.thrift_http)
            (udp_endpoint p.thrift_binary) (udp_endpoint p.thrift_compact)
            (check_remote_sampling gate cfg.remote_sampling),
        check_remote_sampling_iff gate cfg.remote_sampling,
      )
