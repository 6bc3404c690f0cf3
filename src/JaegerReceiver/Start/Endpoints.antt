-- ===== src/JaegerReceiver/Start/Endpoints.antt =====
-- How many goroutines a Start that succeeds begins.
use hypertrace_collector.Prelude.{ℕ, ◌+◌, ◌≡◌, refl, sym, ◌∙◌, length, Option, some, [], str, arith}
use hypertrace_collector.JaegerReceiver.Receiver.{
  Configuration, Libraries, Receiver, Started, started, failed,
}
use hypertrace_collector.JaegerReceiver.Start.{
  add_processor, serve_processors, serve_agent_http, if_started, start_agent, start_agent_with,
  start_http_server, start_grpc_server, start_collector_with, start_collector, start,
}
use hypertrace_collector.JaegerReceiver.Start.Owned.{Owned, Idle, receiver_of}
use hypertrace_collector.JaegerReceiver.Start.Leaves.{start-Owned}
use hypertrace_collector.JaegerReceiver.Start.Counts.{
  one_if_set, endpoints_set, Succeeds, Counts, recount, Succeeds-if_started, add_processor-Counts,
  serve_agent_http-Counts, start_http_server-Counts, start_grpc_server-Counts,
}

module _ {G H R E : Type 0} (lib : Libraries G H R E) (o : Option (Configuration G H)) where
  start_agent-Counts :
      (c : Configuration G H) (jr : Receiver G H R)
      → o ≡ some c
      → Counts o 0 0 jr
      → Succeeds
          (Counts o
            (one_if_set c.agent_binary_thrift.endpoint + one_if_set c.agent_compact_thrift.endpoint)
            (one_if_set c.agent_binary_thrift.endpoint
              + one_if_set c.agent_compact_thrift.endpoint
              + one_if_set c.agent_http_endpoint))
          (start_agent lib jr)
  unfolding start_agent start_agent_with
  start_agent-Counts c jr e h =
      let binary = one_if_set c.agent_binary_thrift.endpoint in
      let compact = one_if_set c.agent_compact_thrift.endpoint in
      let add_binary =
        add_processor lib (str "udp_thrift_binary") (str "binary") c.agent_binary_thrift in
      let add_compact =
        add_processor lib (str "udp_thrift_compact") (str "compact") c.agent_compact_thrift in
      simp (h.configured ∙ e) (
        Succeeds-if_started lib o (Counts o (binary + compact) 0)
          (Counts o (binary + compact) (binary + compact + one_if_set c.agent_http_endpoint))
          (if_started (add_binary jr) add_compact)
          (λ b. started (serve_agent_http lib c.agent_http_endpoint (serve_processors lib b)))
          (Succeeds-if_started lib o (Counts o (0 + binary) 0) (Counts o (binary + compact) 0)
            (add_binary jr) add_compact
            (add_processor-Counts lib o (str "udp_thrift_binary") (str "binary")
              c.agent_binary_thrift 0 0 jr h)
            (λ b i.
              add_processor-Counts lib o (str "udp_thrift_compact") (str "compact")
                c.agent_compact_thrift binary 0 b (recount (omega arith) refl i)))
          (λ b i.
            recount refl (omega arith)
              (serve_agent_http-Counts lib o c.agent_http_endpoint (binary + compact) 0 b i)))

  start_collector-Counts :
      (c : Configuration G H) (p n : ℕ) (jr : Receiver G H R)
      → o ≡ some c
      → Counts o p n jr
      → Succeeds
          (Counts o p (n + one_if_set c.http_server.endpoint + one_if_set c.grpc_server.endpoint))
          (start_collector lib jr)
  unfolding start_collector start_collector_with
  start_collector-Counts c p n jr e h = simp (h.configured ∙ e) (
      Succeeds-if_started lib o (Counts o p (n + one_if_set c.http_server.endpoint))
        (Counts o p (n + one_if_set c.http_server.endpoint + one_if_set c.grpc_server.endpoint))
        (start_http_server lib c.http_server jr) (start_grpc_server lib c.grpc_server)
        (start_http_server-Counts lib o c.http_server p n jr h)
        (start_grpc_server-Counts lib o c.grpc_server p (n + one_if_set c.http_server.endpoint)))

module _ {G H R E : Type 0} (lib : Libraries G H R E) (c : Configuration G H)
    (jr : Receiver G H R) where
  -- A Start that succeeds, on a receiver that has a configuration, is idle and has no processors, has begun as
  -- many goroutines as the configuration sets endpoints, and has counted as many.
  pub start-endpoints_set :
      Idle jr
      → jr.config ≡ some c
      → jr.agent_processors ≡ []
      → Succeeds
          (λ b. (length b.running ≡ endpoints_set c) × (b.goroutines ≡ endpoints_set c))
          (start lib jr)
  unfolding start
  start-endpoints_set idle configured no_processors =
      let binary = one_if_set c.agent_binary_thrift.endpoint in
      let compact = one_if_set c.agent_compact_thrift.endpoint in
      let first : Counts (some c) 0 0 jr = record {
        processors = rw no_processors refl;
        counted = idle.none_counted;
        configured = configured;
      } in
      finish (binary + compact) (if_started (start_agent lib jr) (start_collector lib))
        (unfold start in start-Owned lib jr idle)
        (Succeeds-if_started lib (some c)
          (Counts (some c) (binary + compact) (binary + compact + one_if_set c.agent_http_endpoint))
          (Counts (some c) (binary + compact) (endpoints_set c)) (start_agent lib jr)
          (start_collector lib) (start_agent-Counts lib (some c) c jr refl first)
          (λ b h.
            start_collector-Counts lib (some c) c (binary + compact)
              (binary + compact + one_if_set c.agent_http_endpoint) b refl h))
    where
      finish :
          (p : ℕ) (s : Started G H R E)
          → Owned (receiver_of s)
          → Succeeds (Counts (some c) p (endpoints_set c)) s
          → Succeeds
              (λ b. (length b.running ≡ endpoints_set c) × (b.goroutines ≡ endpoints_set c))
              s
      finish p (started b) o h = (sym o.counted ∙ h.counted, h.counted)
      finish p (failed b e) o h = tt
