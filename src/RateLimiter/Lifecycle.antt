-- ===== src/RateLimiter/Lifecycle.antt =====
-- processors/ratelimiter/factory.go, and Start, Shutdown and Capabilities of the processor.
pub mod Target
use hypertrace_collector.Prelude.{
  ℕ, ◌*◌, ◌⊎◌, inl, inr, Bool, true, false, ◌||◌, ◌==◌, Option, none, some, List, [], ◌∷◌, ◌++◌,
  Str, str, if◌then◌else◌,
}
use hypertrace_collector.Prelude.Decimal.{itoa}
use hypertrace_collector.Prelude.HostPort.{has_byte}
use hypertrace_collector.RateLimiter.Config.{Config}
use hypertrace_collector.RateLimiter.Consume.{RateLimiter}

-- `net.JoinHostPort`: a host with a colon (an IPv6 address) is put in brackets.
pub join_host_port : Str → Str → Str
unfolding str
join_host_port host port =
    if has_byte b':' host
    then str "[" ++ (host ++ (str "]:" ++ port))
    else host ++ (str ":" ++ port)

-- `time.Millisecond * time.Duration(timeoutMillis)`, in nanoseconds.
abbrev pub timeout_ns : ℕ → ℕ
timeout_ns ms = 1000000 * ms

-- What getRateLimitServiceClient and createTraceProcessor do. `C` is the connection, from which the
-- client is made, and `E` the error of the dial.
pub record Creation (C E : Type 0) : Type 0 where
  pub processor : Option (RateLimiter × C)
  pub error : Option E
  pub dialled : Str × ℕ
  pub cancelled : Bool
  -- The failures that are logged, by each of the two functions.
  pub logged : List E

module _ {C E : Type 0} where
  pub created : Config → Str × ℕ → E ⊎ C → Creation C E
  created c target (inl e) = record {
    processor = none;
    error = some e;
    dialled = target;
    cancelled = true;
    logged = e ∷ e ∷ [];
  }
  created c target (inr conn) = record {
    processor =
        some (record { domain = c.domain; tenant_id_header_name = c.tenant_id_header_name }, conn);
    error = none;
    dialled = target;
    cancelled = false;
    logged = [];
  }

  -- createTraceProcessor; `dial` is `grpc.DialContext` on a target and a timeout.
  pub create_trace_processor : (Str × ℕ → E ⊎ C) → Config → Creation C E
  unfolding created join_host_port
  create_trace_processor dial c =
      let target : Str × ℕ =
        (join_host_port c.service_host (itoa c.service_port), timeout_ns c.timeout_millis) in
      created c target (dial target)

-- What Shutdown does: it closes the connection, logs a failure, and calls cancelFunc.
pub record Stop (E : Type 0) : Type 0 where
  pub error : Option E
  pub cancelled : Bool
  pub logged : List E

-- Shutdown; `close` is the result of closing the connection.
shutdown : {E : Type 0} → Option E → Stop E
shutdown none = record { error = none; cancelled = true; logged = [] }
shutdown (some e) = record { error = none; cancelled = true; logged = e ∷ [] }
