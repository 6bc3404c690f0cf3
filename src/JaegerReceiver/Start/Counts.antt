-- ===== src/JaegerReceiver/Start/Counts.antt =====
-- How many goroutines each part of Start begins, if it succeeds.
use hypertrace_collector.Prelude.{
  ℕ, ◌+◌, ◌≡◌, refl, ◌∙◌, ◌⊎◌, inl, inr, Option, [], ◌∷◌, ◌++◌, Str, is_empty, length,
  length-append, if◌then◌else◌, Bool-cases, arith,
}
use hypertrace_collector.JaegerReceiver.Config.{ServerConfig, ProtocolUdp}
use hypertrace_collector.JaegerReceiver.Receiver.{
  Configuration, Libraries, Receiver, Started, started, failed,
}
use hypertrace_collector.JaegerReceiver.Start.{
  add_processor, with_processor, serve_processors, serve_agent_http, if_started, start_http_server,
  start_grpc_server, bind_http, serve_http, start_grpc, serve_grpc_at,
}

-- 1 if the endpoint is set.
abbrev pub one_if_set : Str → ℕ
one_if_set endpoint = if is_empty endpoint then 0 else 1

-- The number of endpoints that the configuration sets.
abbrev pub endpoints_set : {G H : Type 0} → Configuration G H → ℕ
endpoints_set c =
    one_if_set c.agent_binary_thrift.endpoint
    + one_if_set c.agent_compact_thrift.endpoint
    + one_if_set c.agent_http_endpoint
    + one_if_set c.http_server.endpoint
    + one_if_set c.grpc_server.endpoint

module _ {G H R : Type 0} where
  -- What is left behind holds, if the part of Start succeeds.
  abbrev pub Succeeds : {E : Type 0} → (Receiver G H R → Type 0) → Started G H R E → Type 0
  Succeeds P (started b) = P b
  Succeeds P (failed b e) = Unit

  -- The processors that were built, the goroutines that were counted, and the configuration.
  pub record Counts (o : Option (Configuration G H)) (p n : ℕ) (jr : Receiver G H R) : Type 0 where
    pub processors : length jr.agent_processors ≡ p
    pub counted : jr.goroutines ≡ n
    pub configured : jr.config ≡ o

  pub recount :
      {o : Option (Configuration G H)} {p q n m : ℕ} {jr : Receiver G H R}
      → p ≡ q
      → n ≡ m
      → Counts o p n jr
      → Counts o q m jr
  recount e f h = record {
    processors = h.processors ∙ e;
    counted = h.counted ∙ f;
    configured = h.configured;
  }

module _ {G H R E : Type 0} (lib : Libraries G H R E) (o : Option (Configuration G H)) where
  pub Succeeds-if_started :
      (P Q : Receiver G H R → Type 0) (s : Started G H R E) (k : Receiver G H R → Started G H R E)
      → Succeeds P s
      → ((b : Receiver G H R) → P b → Succeeds Q (k b))
      → Succeeds Q (if_started s k)
  unfolding if_started
  Succeeds-if_started P Q (started b) k h go = go b h
  Succeeds-if_started P Q (failed b e) k h go = tt

  with_processor-Counts :
      (p n : ℕ) (jr : Receiver G H R) (x : E ⊎ R)
      → Counts o p n jr
      → Succeeds (Counts o (p + 1) n) (with_processor lib jr x)
  unfolding with_processor
  with_processor-Counts p n jr (inl e) h = tt
  with_processor-Counts p n jr (inr q) h = record {
    processors = ground (arith, h.processors, length-append jr.agent_processors (q ∷ []));
    counted = h.counted;
    configured = h.configured;
  }

  pub add_processor-Counts :
      (transport factory : Str) (udp : ProtocolUdp) (p n : ℕ) (jr : Receiver G H R)
      → Counts o p n jr
      → Succeeds
          (Counts o (p + one_if_set udp.endpoint) n)
          (add_processor lib transport factory udp jr)
  unfolding add_processor
  add_processor-Counts transport factory udp p n jr h = elim (Bool-cases (is_empty udp.endpoint)) [
    | inl e ↦ rw e (recount (omega arith) refl h)
    | inr e ↦ rw e (with_processor-Counts p n jr _ h)
  ]

  pub serve_agent_http-Counts :
      (endpoint : Str) (p n : ℕ) (jr : Receiver G H R)
      → Counts o p n jr
      → Counts o p
          (n + p + one_if_set endpoint)
          (serve_agent_http lib endpoint (serve_processors lib jr))
  unfolding serve_agent_http serve_processors
  serve_agent_http-Counts endpoint p n jr h = elim (Bool-cases (is_empty endpoint)) [
    | inl e ↦ rw e (record {
      processors = h.processors;
      counted = omega (arith, h.processors, h.counted);
      configured = h.configured;
    })
    | inr e ↦ rw e (record {
      processors = h.processors;
      counted = omega (arith, h.processors, h.counted);
      configured = h.configured;
    })
  ]

  serve_http-Counts :
      (ln : R) (p n : ℕ) (jr : Receiver G H R) (x : E ⊎ R)
      → Counts o p n jr
      → Succeeds (Counts o p (n + 1)) (serve_http lib ln jr x)
  unfolding serve_http
  serve_http-Counts ln p n jr (inl e) h = tt
  serve_http-Counts ln p n jr (inr s) h = record {
    processors = h.processors;
    counted = omega (arith, h.counted);
    configured = h.configured;
  }

  bind_http-Counts :
      (c : ServerConfig H) (p n : ℕ) (jr : Receiver G H R) (x : E ⊎ R)
      → Counts o p n jr
      → Succeeds (Counts o p (n + 1)) (bind_http lib c jr x)
  unfolding bind_http
  bind_http-Counts c p n jr (inl e) h = tt
  bind_http-Counts c p n jr (inr ln) h =
      serve_http-Counts ln p n (record jr { bound = jr.bound ++ ln ∷ [] }) (lib.to_server c)
        (record { processors = h.processors; counted = h.counted; configured = h.configured })

  pub start_http_server-Counts :
      (c : ServerConfig H) (p n : ℕ) (jr : Receiver G H R)
      → Counts o p n jr
      → Succeeds (Counts o p (n + one_if_set c.endpoint)) (start_http_server lib c jr)
  unfolding start_http_server
  start_http_server-Counts c p n jr h = elim (Bool-cases (is_empty c.endpoint)) [
    | inl e ↦ rw e (recount refl (omega arith) h)
    | inr e ↦ rw e (bind_http-Counts c p n jr (lib.to_listener c) h)
  ]

  serve_grpc_at-Counts :
      (c : ServerConfig G) (srv : R) (p n : ℕ) (jr : Receiver G H R) (x : E ⊎ R)
      → Counts o p n jr
      → Succeeds (Counts o p (n + 1)) (serve_grpc_at lib c srv jr x)
  unfolding serve_grpc_at
  serve_grpc_at-Counts c srv p n jr (inl e) h = tt
  serve_grpc_at-Counts c srv p n jr (inr ln) h = record {
    processors = h.processors;
    counted = omega (arith, h.counted);
    configured = h.configured;
  }

  start_grpc-Counts :
      (c : ServerConfig G) (p n : ℕ) (jr : Receiver G H R) (x : E ⊎ R)
      → Counts o p n jr
      → Succeeds (Counts o p (n + 1)) (start_grpc lib c jr x)
  unfolding start_grpc
  start_grpc-Counts c p n jr (inl e) h = tt
  start_grpc-Counts c p n jr (inr srv) h =
      serve_grpc_at-Counts c srv p n _ (lib.grpc_listen c)
        (record { processors = h.processors; counted = h.counted; configured = h.configured })

  pub start_grpc_server-Counts :
      (c : ServerConfig G) (p n : ℕ) (jr : Receiver G H R)
      → Counts o p n jr
      → Succeeds (Counts o p (n + one_if_set c.endpoint)) (start_grpc_server lib c jr)
  unfolding start_grpc_server
  start_grpc_server-Counts c p n jr h = elim (Bool-cases (is_empty c.endpoint)) [
    | inl e ↦ rw e (recount refl (omega arith) h)
    | inr e ↦ rw e (start_grpc-Counts c p n jr (lib.grpc_to_server c) h)
  ]
