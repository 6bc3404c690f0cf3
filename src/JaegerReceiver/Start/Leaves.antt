-- ===== src/JaegerReceiver/Start/Leaves.antt =====
-- The goroutines that startCollector and Start leave running, on every branch.
use hypertrace_collector.Prelude.{
  ◌≡◌, refl, ◌⊎◌, inl, inr, Option, none, some, List, Bool-cases, is_empty,
}
use hypertrace_collector.Prelude.All.{All-implies}
use hypertrace_collector.JaegerReceiver.Config.{ServerConfig}
use hypertrace_collector.JaegerReceiver.Receiver.{
  Configuration, Libraries, Goroutine, serve_processor, serve_agent, serve_collector, serve_grpc,
  Receiver,
}
use hypertrace_collector.JaegerReceiver.Start.{
  start_agent, start_http_server, start_grpc_server, start_collector_with, bind_http, serve_http,
  start_grpc, serve_grpc_at, start_collector, start,
}
use hypertrace_collector.JaegerReceiver.Start.Owned.{
  Stops, Told, Owned, Idle, AgentUp, receiver_of, Owned-begin, if_started-holds,
  start_agent_with-AgentUp,
}

module _ {G H R : Type 0} where
  -- What holds between the two servers of startCollector.
  record HttpUp (jr : Receiver G H R) : Type 0 where
    owned : Owned jr
    no_grpc : jr.grpc ≡ none

  -- A server that is nil already is assigned nil.
  no_collector-HttpUp :
      (jr : Receiver G H R) → AgentUp jr → HttpUp (record jr { collector_server = none })
  no_collector-HttpUp jr h = record {
    owned = record {
      counted = h.owned.counted;
      told = All-implies (Told jr) _ kept jr.running h.owned.told;
    };
    no_grpc = h.no_grpc;
  }
    where
      kept :
          (x : Goroutine R) → Told jr x → Stops jr.agent_processors jr.agent_server none jr.grpc x
      kept (serve_processor p) t = t
      kept (serve_agent s) t = t
      kept (serve_collector s l) t = cc (t, h.no_collector)
      kept (serve_grpc s l) t = t

  no_grpc-Owned : (jr : Receiver G H R) → HttpUp jr → Owned (record jr { grpc = none })
  no_grpc-Owned jr h = record {
    counted = h.owned.counted;
    told = All-implies (Told jr) _ kept jr.running h.owned.told;
  }
    where
      kept :
          (x : Goroutine R)
          → Told jr x
          → Stops jr.agent_processors jr.agent_server jr.collector_server none x
      kept (serve_processor p) t = t
      kept (serve_agent s) t = t
      kept (serve_collector s l) t = t
      kept (serve_grpc s l) t = cc (t, h.no_grpc)

  -- A listener that is bound changes nothing of this.
  bound-AgentUp :
      (jr : Receiver G H R) (lns : List R) → AgentUp jr → AgentUp (record jr { bound = lns })
  bound-AgentUp jr lns h = record {
    owned = record { counted = h.owned.counted; told = h.owned.told };
    no_collector = h.no_collector;
    no_grpc = h.no_grpc;
  }

module _ {G H R E : Type 0} (lib : Libraries G H R E) where
  serve_http-HttpUp :
      (ln : R) (jr : Receiver G H R) (srv : E ⊎ R)
      → AgentUp jr
      → HttpUp (receiver_of (serve_http lib ln jr srv))
  unfolding serve_http
  serve_http-HttpUp ln jr (inl e) h = no_collector-HttpUp jr h
  serve_http-HttpUp ln jr (inr srv) h = record {
    owned = Owned-begin jr _ (serve_collector srv ln) h.owned refl refl kept refl;
    no_grpc = h.no_grpc;
  }
    where
      kept :
          (x : Goroutine R)
          → Told jr x
          → Stops jr.agent_processors jr.agent_server (some srv) jr.grpc x
      kept (serve_processor p) t = t
      kept (serve_agent s) t = t
      kept (serve_collector s l) t = cc (t, h.no_collector)
      kept (serve_grpc s l) t = t

  bind_http-HttpUp :
      (c : ServerConfig H) (jr : Receiver G H R) (ln : E ⊎ R)
      → AgentUp jr
      → HttpUp (receiver_of (bind_http lib c jr ln))
  unfolding bind_http
  bind_http-HttpUp c jr (inl e) h = record { owned = h.owned; no_grpc = h.no_grpc }
  bind_http-HttpUp c jr (inr ln) h = serve_http-HttpUp ln _ (lib.to_server c) (bound-AgentUp jr _ h)

  start_http_server-HttpUp :
      (c : ServerConfig H) (jr : Receiver G H R)
      → AgentUp jr
      → HttpUp (receiver_of (start_http_server lib c jr))
  unfolding start_http_server
  start_http_server-HttpUp c jr h = elim (Bool-cases (is_empty c.endpoint)) [
    | inl e ↦ rw e (record { owned = h.owned; no_grpc = h.no_grpc })
    | inr e ↦ rw e (bind_http-HttpUp c jr (lib.to_listener c) h)
  ]

  serve_grpc_at-Owned :
      (c : ServerConfig G) (srv : R) (jr : Receiver G H R) (ln : E ⊎ R)
      → HttpUp jr
      → Owned (receiver_of (serve_grpc_at lib c srv (record jr { grpc = some srv }) ln))
  unfolding serve_grpc_at
  serve_grpc_at-Owned c srv jr ln h = go ln
    where
      kept :
          (x : Goroutine R)
          → Told jr x
          → Stops jr.agent_processors jr.agent_server jr.collector_server (some srv) x
      kept (serve_processor p) t = t
      kept (serve_agent s) t = t
      kept (serve_collector s l) t = t
      kept (serve_grpc s l) t = cc (t, h.no_grpc)

      go :
          (ln : E ⊎ R)
          → Owned (receiver_of (serve_grpc_at lib c srv (record jr { grpc = some srv }) ln))
      go (inl e) = record {
        counted = h.owned.counted;
        told = All-implies (Told jr) _ kept jr.running h.owned.told;
      }
      go (inr l) = Owned-begin jr _ (serve_grpc srv l) h.owned refl refl kept refl

  start_grpc-Owned :
      (c : ServerConfig G) (jr : Receiver G H R) (srv : E ⊎ R)
      → HttpUp jr
      → Owned (receiver_of (start_grpc lib c jr srv))
  unfolding start_grpc
  start_grpc-Owned c jr (inl e) h = no_grpc-Owned jr h
  start_grpc-Owned c jr (inr srv) h = serve_grpc_at-Owned c srv jr (lib.grpc_listen c) h

  start_grpc_server-Owned :
      (c : ServerConfig G) (jr : Receiver G H R)
      → HttpUp jr
      → Owned (receiver_of (start_grpc_server lib c jr))
  unfolding start_grpc_server
  start_grpc_server-Owned c jr h = elim (Bool-cases (is_empty c.endpoint)) [
    | inl e ↦ rw e h.owned
    | inr e ↦ rw e (start_grpc-Owned c jr (lib.grpc_to_server c) h)
  ]

  start_collector_with-Owned :
      (o : Option (Configuration G H)) (jr : Receiver G H R)
      → AgentUp jr
      → Owned (receiver_of (start_collector_with lib o jr))
  unfolding start_collector_with
  start_collector_with-Owned none jr h = h.owned
  start_collector_with-Owned (some c) jr h =
      if_started-holds HttpUp Owned (start_http_server lib c.http_server jr)
        (start_grpc_server lib c.grpc_server) (start_http_server-HttpUp c.http_server jr h)
        (λ b u. u.owned) (start_grpc_server-Owned c.grpc_server)

  -- After Start, whether it succeeds or fails, the WaitGroup counts the goroutines that run, and every one of
  -- them serves a processor or a server that the receiver holds, which is what Shutdown stops.
  pub start-Owned : (jr : Receiver G H R) → Idle jr → Owned (receiver_of (start lib jr))
  unfolding start start_agent start_collector
  start-Owned jr h =
      if_started-holds AgentUp Owned (start_agent lib jr) (start_collector lib)
        (start_agent_with-AgentUp lib jr.config jr h) (λ b u. u.owned)
        (λ b u. start_collector_with-Owned b.config b u)
