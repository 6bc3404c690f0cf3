-- ===== src/JaegerReceiver/Start/Owned.antt =====
-- Which goroutines of the receiver Shutdown stops, and those that startAgent leaves running, on every
-- branch.
use mathlib.Core.List.{Mem, mem-cons_self, mem-cons_of_mem}
use hypertrace_collector.Prelude.{
  ◌+◌, ◌≡◌, refl, inl, inr, Option, none, some, List, [], ◌∷◌, ◌++◌, map, Str, str, length, arith,
  Bool-cases, is_empty, length-append, length-map,
}
use hypertrace_collector.Prelude.All.{All, All-append, All-implies}
use hypertrace_collector.JaegerReceiver.Config.{ProtocolUdp}
use hypertrace_collector.JaegerReceiver.Receiver.{
  Configuration, Libraries, Goroutine, serve_processor, serve_agent, serve_collector, serve_grpc,
  Receiver, Started, started, failed,
}
use hypertrace_collector.JaegerReceiver.Start.{
  add_processor, with_processor, serve_processors, serve_agent_http, if_started, start_agent_with,
}

All-Mem : {R : Type 0} (ps : List R) → All (λ p. Mem p ps) ps
All-Mem [] = tt
All-Mem (p ∷ ps) = (mem-cons_self, All-implies _ _ (λ q m. mem-cons_of_mem p m) ps (All-Mem ps))

-- The goroutine serves one of these processors and servers.
abbrev pub Stops : {R : Type 0} → List R → Option R → Option R → Option R → Goroutine R → Type 0
Stops ps agent collector grpc (serve_processor p) = Mem p ps
Stops ps agent collector grpc (serve_agent s) = agent ≡ some s
Stops ps agent collector grpc (serve_collector s ln) = collector ≡ some s
Stops ps agent collector grpc (serve_grpc s ln) = grpc ≡ some s

module _ {G H R : Type 0} where
  -- What the goroutine serves is a server or a processor of the receiver, so Shutdown stops it.
  abbrev pub Told : Receiver G H R → Goroutine R → Type 0
  Told jr = Stops jr.agent_processors jr.agent_server jr.collector_server jr.grpc

  -- The WaitGroup counts the goroutines that run, and each is told to stop by Shutdown.
  pub record Owned (jr : Receiver G H R) : Type 0 where
    pub counted : jr.goroutines ≡ length jr.running
    pub told : All (Told jr) jr.running

  -- No goroutine runs, and no server was made.
  pub record Idle (jr : Receiver G H R) : Type 0 where
    pub none_running : jr.running ≡ []
    pub none_counted : jr.goroutines ≡ 0
    pub no_agent : jr.agent_server ≡ none
    pub no_collector : jr.collector_server ≡ none
    pub no_grpc : jr.grpc ≡ none

  -- The receiver between startAgent and startCollector.
  pub record AgentUp (jr : Receiver G H R) : Type 0 where
    pub owned : Owned jr
    pub no_collector : jr.collector_server ≡ none
    pub no_grpc : jr.grpc ≡ none

  abbrev pub receiver_of : {E : Type 0} → Started G H R E → Receiver G H R
  receiver_of (started jr) = jr
  receiver_of (failed jr e) = jr

  Idle-Owned : {jr : Receiver G H R} → Idle jr → Owned jr
  Idle-Owned h = record {
    counted = rw (h.none_counted, h.none_running);
    told = rw h.none_running tt;
  }

  pub if_started-holds :
      {E : Type 0} (P Q : Receiver G H R → Type 0) (s : Started G H R E)
      (k : Receiver G H R → Started G H R E)
      → P (receiver_of s)
      → ((b : Receiver G H R) → P b → Q b)
      → ((b : Receiver G H R) → P b → Q (receiver_of (k b)))
      → Q (receiver_of (if_started s k))
  unfolding if_started
  if_started-holds P Q (started b) k h stop go = go b h
  if_started-holds P Q (failed b e) k h stop go = stop b h

  -- One more goroutine is counted and begun.
  pub Owned-begin :
      (a b : Receiver G H R) (g : Goroutine R)
      → Owned a
      → b.running ≡ a.running ++ g ∷ []
      → b.goroutines ≡ a.goroutines + 1
      → ((x : Goroutine R) → Told a x → Told b x)
      → Told b g
      → Owned b
  Owned-begin a b g h runs counts kept new = record {
    counted = ground (arith, h.counted, counts, runs, length-append a.running (g ∷ []));
    told = rw runs (
        All-append (Told b) a.running (g ∷ []) (All-implies (Told a) (Told b) kept a.running h.told)
          (new, tt));
  }

  All-processors :
      (jr : Receiver G H R) (ps : List R)
      → All (λ p. Mem p jr.agent_processors) ps
      → All (Told jr) (map serve_processor ps)
  All-processors jr [] h = tt
  All-processors jr (p ∷ ps) (m, r) = (m, All-processors jr ps r)

module _ {G H R E : Type 0} (lib : Libraries G H R E) where
  add_processor-Idle :
      (transport factory : Str) (udp : ProtocolUdp) (jr : Receiver G H R)
      → Idle jr
      → Idle (receiver_of (add_processor lib transport factory udp jr))
  unfolding add_processor with_processor
  add_processor-Idle transport factory udp jr h = ground (arith, h)

  serve_processors-Owned : (jr : Receiver G H R) → Idle jr → Owned (serve_processors lib jr)
  unfolding serve_processors
  serve_processors-Owned jr h = record {
    counted =
        rw (h.none_running, h.none_counted)
          (omega (arith, length-map (λ (p : R). serve_processor p) jr.agent_processors));
    told = rw h.none_running (
        All-processors (serve_processors lib jr) jr.agent_processors (All-Mem jr.agent_processors));
  }

  Idle-AgentUp : (jr : Receiver G H R) → Idle jr → AgentUp jr
  Idle-AgentUp jr h = record {
    owned = Idle-Owned h;
    no_collector = h.no_collector;
    no_grpc = h.no_grpc;
  }

  serve_agent_http-AgentUp :
      (endpoint : Str) (jr : Receiver G H R)
      → AgentUp jr
      → jr.agent_server ≡ none
      → AgentUp (serve_agent_http lib endpoint jr)
  unfolding serve_agent_http
  serve_agent_http-AgentUp endpoint jr h n = elim (Bool-cases (is_empty endpoint)) [
    | inl e ↦ rw e h
    | inr e ↦ rw e (record {
      owned =
          Owned-begin jr _ (serve_agent (lib.agent_http_server endpoint)) h.owned refl refl kept
            refl;
      no_collector = h.no_collector;
      no_grpc = h.no_grpc;
    })
  ]
    where
      kept :
          (x : Goroutine R)
          → Told jr x
          → Told
              (record jr {
                agent_server = some (lib.agent_http_server endpoint);
                goroutines = jr.goroutines + 1;
                running = jr.running ++ serve_agent (lib.agent_http_server endpoint) ∷ [];
              })
              x
      kept (serve_processor p) t = t
      kept (serve_agent s) t = cc
      kept (serve_collector s ln) t = t
      kept (serve_grpc s ln) t = t

  serve_processors-AgentUp : (jr : Receiver G H R) → Idle jr → AgentUp (serve_processors lib jr)
  unfolding serve_processors
  serve_processors-AgentUp jr h = record {
    owned = serve_processors-Owned jr h;
    no_collector = h.no_collector;
    no_grpc = h.no_grpc;
  }

  pub start_agent_with-AgentUp :
      (o : Option (Configuration G H)) (jr : Receiver G H R)
      → Idle jr
      → AgentUp (receiver_of (start_agent_with lib o jr))
  unfolding start_agent_with serve_processors
  start_agent_with-AgentUp none jr h = Idle-AgentUp jr h
  start_agent_with-AgentUp (some c) jr h =
      let binary =
        add_processor lib (str "udp_thrift_binary") (str "binary") c.agent_binary_thrift in
      let compact =
        add_processor lib (str "udp_thrift_compact") (str "compact") c.agent_compact_thrift in
      if_started-holds Idle AgentUp (if_started (binary jr) compact)
        (λ b. started (serve_agent_http lib c.agent_http_endpoint (serve_processors lib b)))
        (if_started-holds Idle Idle (binary jr) compact
          (add_processor-Idle (str "udp_thrift_binary") (str "binary") c.agent_binary_thrift jr h)
          (λ b i. i)
          (add_processor-Idle (str "udp_thrift_compact") (str "compact") c.agent_compact_thrift))
        Idle-AgentUp
        (λ b i.
          serve_agent_http-AgentUp c.agent_http_endpoint (serve_processors lib b)
            (serve_processors-AgentUp b i) i.no_agent)
