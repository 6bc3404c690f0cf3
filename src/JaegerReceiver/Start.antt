-- ===== src/JaegerReceiver/Start.antt =====
-- receiver/jaegerreceiver/trace_receiver.modified.go: Start, with startAgent, buildProcessor and
-- startCollector.
pub mod Owned
pub mod Counts
pub mod Leaves
pub mod Endpoints
use hypertrace_collector.Prelude.{
  ◌+◌, ◌⊎◌, inl, inr, Option, none, some, [], ◌∷◌, ◌++◌, map, Str, str, is_empty, ltb, length,
  if◌then◌else◌,
}
use hypertrace_collector.JaegerReceiver.Config.{ServerConfig, ServerConfigUdp, ProtocolUdp}
use hypertrace_collector.JaegerReceiver.Receiver.{
  Configuration, Libraries, serve_processor, serve_agent, serve_collector, serve_grpc, Receiver,
  library_failed, collector_not_bound, grpc_options_failed, grpc_not_bound, Started, started,
  failed, and_then,
}

-- `if err != nil { return err }` between two blocks.
pub if_started :
    {G H R E : Type 0} → Started G H R E → (Receiver G H R → Started G H R E) → Started G H R E
if_started (started jr) k = k jr
if_started (failed jr e) k = failed jr e

abbrev socket_sized : {R E : Type 0} → R → Option E → E ⊎ R
socket_sized t none = inr t
socket_sized t (some e) = inl e

module _ {G H R E : Type 0} (lib : Libraries G H R E) where
  -- buildProcessor, for a protocol factory and the handler of an ObsReport.
  pub build_processor : Str → ServerConfigUdp → Str → R → E ⊎ R
  build_processor address cfg factory handler = and_then (lib.udp_transport address) (λ t.
      and_then
        (if ltb 0 cfg.socket_buffer_size
          then socket_sized t (lib.set_socket_buffer_size t cfg.socket_buffer_size)
          else inr t)
        (λ u.
          and_then (lib.buffered_server u cfg.queue_size cfg.max_packet_size)
            (λ s. lib.thrift_processor s cfg.workers factory handler)))

  -- A processor that was built is appended to those of the receiver.
  pub with_processor : Receiver G H R → E ⊎ R → Started G H R E
  with_processor jr (inl e) = failed jr (library_failed e)
  with_processor jr (inr p) =
      started (record jr { agent_processors = jr.agent_processors ++ p ∷ [] })

  -- The block of startAgent for one protocol.
  pub add_processor : Str → Str → ProtocolUdp → Receiver G H R → Started G H R E
  unfolding build_processor with_processor
  add_processor transport factory udp jr =
      if is_empty udp.endpoint
      then started jr
      else with_processor jr (
          and_then (lib.new_obs_report transport)
            (λ h. build_processor udp.endpoint udp.server factory h))

  -- The loop that begins a goroutine for every processor, and the HTTP server of the agent.
  pub serve_processors : Receiver G H R → Receiver G H R
  serve_processors jr = record jr {
    goroutines = jr.goroutines + length jr.agent_processors;
    running = jr.running ++ map serve_processor jr.agent_processors;
  }

  pub serve_agent_http : Str → Receiver G H R → Receiver G H R
  serve_agent_http endpoint jr = if is_empty endpoint then jr else record jr {
    agent_server = some (lib.agent_http_server endpoint);
    goroutines = jr.goroutines + 1;
    running = jr.running ++ serve_agent (lib.agent_http_server endpoint) ∷ [];
  }

  -- startAgent
  pub start_agent_with : Option (Configuration G H) → Receiver G H R → Started G H R E
  unfolding add_processor serve_processors serve_agent_http if_started
  start_agent_with none jr = started jr
  start_agent_with (some c) jr =
      if_started
        (if_started
          (add_processor (str "udp_thrift_binary") (str "binary") c.agent_binary_thrift jr)
          (add_processor (str "udp_thrift_compact") (str "compact") c.agent_compact_thrift))
        (λ b. started (serve_agent_http c.agent_http_endpoint (serve_processors b)))

  unfoldable pub start_agent : Receiver G H R → Started G H R E
  unfolding start_agent_with
  start_agent jr = start_agent_with jr.config jr

  -- startCollector, the server for HTTP after ToListener, and its goroutine after ToServer. The server is
  -- assigned also where ToServer fails, and is nil then.
  pub serve_http : R → Receiver G H R → E ⊎ R → Started G H R E
  serve_http ln jr (inl e) = failed (record jr { collector_server = none }) (library_failed e)
  serve_http ln jr (inr srv) = started (record jr {
    collector_server = some srv;
    goroutines = jr.goroutines + 1;
    running = jr.running ++ serve_collector srv ln ∷ [];
  })

  pub bind_http : ServerConfig H → Receiver G H R → E ⊎ R → Started G H R E
  unfolding serve_http
  bind_http c jr (inl e) = failed jr (collector_not_bound c.endpoint e)
  bind_http c jr (inr ln) =
      serve_http ln (record jr { bound = jr.bound ++ ln ∷ [] }) (lib.to_server c)

  -- The server for gRPC after ToServer, and its goroutine after Listen.
  pub serve_grpc_at : ServerConfig G → R → Receiver G H R → E ⊎ R → Started G H R E
  serve_grpc_at c srv jr (inl e) = failed jr (grpc_not_bound c.endpoint e)
  serve_grpc_at c srv jr (inr ln) = started (record jr {
    goroutines = jr.goroutines + 1;
    running = jr.running ++ serve_grpc srv ln ∷ [];
    bound = jr.bound ++ ln ∷ [];
  })

  pub start_grpc : ServerConfig G → Receiver G H R → E ⊎ R → Started G H R E
  unfolding serve_grpc_at
  start_grpc c jr (inl e) = failed (record jr { grpc = none }) (grpc_options_failed e)
  start_grpc c jr (inr srv) =
      serve_grpc_at c srv (record jr { grpc = some srv }) (lib.grpc_listen c)

  -- startCollector
  pub start_http_server : ServerConfig H → Receiver G H R → Started G H R E
  unfolding bind_http
  start_http_server c jr =
      if is_empty c.endpoint then started jr else bind_http c jr (lib.to_listener c)

  pub start_grpc_server : ServerConfig G → Receiver G H R → Started G H R E
  unfolding start_grpc
  start_grpc_server c jr =
      if is_empty c.endpoint then started jr else start_grpc c jr (lib.grpc_to_server c)

  pub start_collector_with : Option (Configuration G H) → Receiver G H R → Started G H R E
  unfolding start_http_server start_grpc_server if_started
  start_collector_with none jr = started jr
  start_collector_with (some c) jr =
      if_started (start_http_server c.http_server jr) (start_grpc_server c.grpc_server)

  unfoldable pub start_collector : Receiver G H R → Started G H R E
  unfolding start_collector_with
  start_collector jr = start_collector_with jr.config jr

  -- Start
  unfoldable pub start : Receiver G H R → Started G H R E
  unfolding start_agent start_collector
  start jr = if_started (start_agent jr) start_collector
