-- ===== src/JaegerReceiver/Receiver.antt =====
-- receiver/jaegerreceiver: the state of jReceiver, createTracesReceiver of factory.go, and
-- newJaegerReceiver of trace_receiver.modified.go. The servers, the transports, the processors and
-- the listeners of the libraries are handles of a type `R`; a goroutine is an entry of the list of
-- those that run.
use hypertrace_collector.Prelude.{
  ℕ, Bool, true, ◌⊎◌, inl, inr, Option, none, some, List, [], ◌∷◌, ◌++◌, Str, str, if◌then◌else◌,
}
use hypertrace_collector.JaegerReceiver.Config.{
  Config, ServerConfig, ProtocolUdp, RemoteSamplingConfig,
}

pub record Configuration (G H : Type 0) : Type 0 where
  pub http_server : ServerConfig H
  pub grpc_server : ServerConfig G
  pub agent_compact_thrift : ProtocolUdp
  pub agent_binary_thrift : ProtocolUdp
  pub agent_http_endpoint : Str

-- The zero values of the settings.
abbrev zero_server : {G : Type 0} → G → ServerConfig G
zero_server options = record { endpoint = []; options = options }

abbrev zero_udp : ProtocolUdp
zero_udp = record {
  endpoint = [];
  server = record { queue_size = 0; max_packet_size = 0; workers = 0; socket_buffer_size = 0 };
}

abbrev pub set_or : {A : Type 0} → A → Option A → A
set_or zero none = zero
set_or zero (some a) = a

-- The conversion in createTracesReceiver; `g` and `h` are the zero values of the servers' options.
unfoldable pub configuration_of : {G H : Type 0} → G → H → Config G H → Configuration G H
configuration_of g h cfg = record {
  http_server = set_or (zero_server h) cfg.protocols.thrift_http;
  grpc_server = set_or (zero_server g) cfg.protocols.grpc;
  agent_compact_thrift = set_or zero_udp cfg.protocols.thrift_compact;
  agent_binary_thrift = set_or zero_udp cfg.protocols.thrift_binary;
  agent_http_endpoint = [];
}

-- The calls of the libraries that can fail, and `httpserver.NewHTTPServer`, which cannot.
pub record Libraries (G H R E : Type 0) : Type 0 where
  pub new_obs_report : Str → E ⊎ R
  pub udp_transport : Str → E ⊎ R
  pub set_socket_buffer_size : R → ℕ → Option E
  pub buffered_server : R → ℕ → ℕ → E ⊎ R
  pub thrift_processor : R → ℕ → Str → R → E ⊎ R
  pub agent_http_server : Str → R
  pub to_listener : ServerConfig H → E ⊎ R
  pub to_server : ServerConfig H → E ⊎ R
  pub grpc_to_server : ServerConfig G → E ⊎ R
  pub grpc_listen : ServerConfig G → E ⊎ R

-- A goroutine that Start begins, with what it serves; the last two serve a server at a listener.
pub data Goroutine (R : Type 0) : Type 0 where
  serve_processor : R → Goroutine R
  serve_agent : R → Goroutine R
  serve_collector : R → R → Goroutine R
  serve_grpc : R → R → Goroutine R

-- The fields of jReceiver that change, with the counter of its WaitGroup, and what is outside of it:
-- the goroutines that run and the listeners that were bound.
pub record Receiver (G H R : Type 0) : Type 0 where
  pub config : Option (Configuration G H)
  pub grpc_obsrecv : R
  pub http_obsrecv : R
  pub grpc : Option R
  pub collector_server : Option R
  pub agent_processors : List R
  pub agent_server : Option R
  pub goroutines : ℕ
  pub running : List (Goroutine R)
  pub bound : List R

-- The errors of Start, with what their messages wrap.
pub data StartError (E : Type 0) : Type 0 where
  library_failed : E → StartError E
  collector_not_bound : Str → E → StartError E
  grpc_options_failed : E → StartError E
  grpc_not_bound : Str → E → StartError E

-- What a part of Start leaves behind: the receiver, and its error where it fails.
pub data Started (G H R E : Type 0) : Type 0 where
  started : Receiver G H R → Started G H R E
  failed : Receiver G H R → StartError E → Started G H R E

-- `if err != nil { return err }` between two calls.
abbrev pub and_then : {E A B : Type 0} → E ⊎ A → (A → E ⊎ B) → E ⊎ B
and_then (inl e) k = inl e
and_then (inr a) k = k a

module _ {G H R E : Type 0} (lib : Libraries G H R E) where
  -- newJaegerReceiver
  pub new_jaeger_receiver : Option (Configuration G H) → E ⊎ Receiver G H R
  new_jaeger_receiver config = and_then (lib.new_obs_report (str "grpc")) (λ g.
      and_then (lib.new_obs_report (str "collector_http")) (λ h. inr (record {
        config = config;
        grpc_obsrecv = g;
        http_obsrecv = h;
        grpc = none;
        collector_server = none;
        agent_processors = [];
        agent_server = none;
        goroutines = 0;
        running = [];
        bound = [];
      })))

-- createTracesReceiver: what it logs, whether the deprecation was logged by now (`once`), and the
-- receiver or the error of newJaegerReceiver.
pub record Created (G H R E : Type 0) : Type 0 where
  pub logged : List Str
  pub once_done : Bool
  pub receiver : E ⊎ Receiver G H R

abbrev deprecated : Str
deprecated =
    str
      "jaeger receiver will deprecate Thrift-gen and replace it with Proto-gen to be compatbible to jaeger 1.42.0 and higher. See https://github.com/open-telemetry/opentelemetry-collector-contrib/pull/18485 for more details."

abbrev log_deprecation : Bool → List Str
log_deprecation done = if done then [] else deprecated ∷ []

abbrev log_remote_sampling : Option RemoteSamplingConfig → List Str
log_remote_sampling none = []
log_remote_sampling (some _) =
    str
      "You are using a deprecated no-op `remote_sampling` option which will be removed soon; use a `jaegerremotesampling` extension instead"
    ∷ []

unfoldable pub create_traces_receiver :
    {G H R E : Type 0} → Libraries G H R E → G → H → Bool → Config G H → Created G H R E
unfolding new_jaeger_receiver
create_traces_receiver lib g h once_done cfg = record {
  logged = log_deprecation once_done ++ log_remote_sampling cfg.remote_sampling;
  once_done = true;
  receiver = new_jaeger_receiver lib (some (configuration_of g h cfg));
}
