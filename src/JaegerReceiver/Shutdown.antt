-- ===== src/JaegerReceiver/Shutdown.antt =====
-- receiver/jaegerreceiver/trace_receiver.modified.go: Shutdown, the goroutines that Start begins, and
-- the statuses that they report. A goroutine ends when the call of what it serves returns: after a
-- call of Shutdown has stopped that, or with an error. `Wait` returns when the counter is 0.
pub mod Drain
use mathlib.Core.List.{Mem}
use hypertrace_collector.Prelude.{
  ℕ, ◌+◌, ◌-◌, ◌≡◌, ◌⊎◌, Option, none, some, List, [], ◌∷◌, ◌++◌, map, suc,
}
use hypertrace_collector.JaegerReceiver.Receiver.{
  Goroutine, serve_processor, serve_agent, serve_collector, serve_grpc, Receiver,
}

-- The calls by which Shutdown stops a server or a processor.
pub data Call (R : Type 0) : Type 0 where
  shut_down stop graceful_stop : R → Call R

-- What a call of Serve or ListenAndServe returns: ErrServerClosed or ErrServerStopped, no error, or
-- another error.
pub data Ending (E : Type 0) : Type 0 where
  closed : Ending E
  no_error : Ending E
  failed_with : E → Ending E

-- The fatal events that ReportStatus gets.
pub data Event (E : Type 0) : Type 0 where
  agent_server_error : E → Event E
  fatal_error : E → Event E

-- The receiver, the calls that Shutdown made, the errors that it collected, and the reported events.
pub record Run (G H R E : Type 0) : Type 0 where
  pub receiver : Receiver G H R
  pub calls : List (Call R)
  pub errors : List E
  pub reported : List (Event E)

abbrev pub running_only : {G H R E : Type 0} → Receiver G H R → Run G H R E
running_only jr = record { receiver = jr; calls = []; errors = []; reported = [] }

-- The calls of a server that may be nil, and the error that `multierr.Append` takes.
abbrev pub call_of : {R : Type 0} → (R → Call R) → Option R → List (Call R)
call_of f none = []
call_of f (some s) = f s ∷ []

abbrev as_list : {E : Type 0} → Option E → List E
as_list none = []
as_list (some e) = e ∷ []

abbrev error_of : {R E : Type 0} → (R → Option E) → Option R → List E
error_of shutdown none = []
error_of shutdown (some s) = as_list (shutdown s)

-- The calls of Shutdown, in its order.
abbrev pub calls_of : {G H R : Type 0} → Receiver G H R → List (Call R)
calls_of jr =
    call_of shut_down jr.agent_server
    ++ (map {B = Call _} (λ p. stop p) jr.agent_processors
        ++ (call_of shut_down jr.collector_server ++ call_of graceful_stop jr.grpc))

-- What the goroutines report when the call that they make returns.
unfoldable pub report : {R E : Type 0} → Goroutine R → Ending E → List (Event E)
report (serve_processor p) _ = []
report (serve_agent s) (failed_with e) = agent_server_error e ∷ []
report (serve_collector s ln) (failed_with e) = fatal_error e ∷ []
report (serve_grpc s ln) (failed_with e) = fatal_error e ∷ []
report _ _ = []

-- The call that stops what a goroutine serves.
abbrev pub stop_of : {R : Type 0} → Goroutine R → Call R
stop_of (serve_processor p) = stop p
stop_of (serve_agent s) = shut_down s
stop_of (serve_collector s ln) = shut_down s
stop_of (serve_grpc s ln) = graceful_stop s

module _ {G H R E : Type 0} where
  -- Shutdown, before its Wait; `server_shutdown` is Shutdown of an http.Server.
  unfoldable pub shutdown : (R → Option E) → Run G H R E → Run G H R E
  shutdown server_shutdown r = record r {
    calls = r.calls ++ calls_of r.receiver;
    errors =
        r.errors
        ++ (error_of server_shutdown r.receiver.agent_server
            ++ error_of server_shutdown r.receiver.collector_server);
  }

  -- The end of a goroutine that runs between `xs` and `ys`, with its deferred Done.
  unfoldable pub ended :
      Run G H R E → List (Goroutine R) → Goroutine R → List (Goroutine R) → Ending E → Run G H R E
  unfolding report
  ended r xs g ys ending = record r {
    receiver = record r.receiver { goroutines = r.receiver.goroutines - 1; running = xs ++ ys };
    reported = r.reported ++ report g ending;
  }

  pub data Step (a b : Run G H R E) : Type 0 where
    stopped :
        (xs : List (Goroutine R)) (g : Goroutine R) (ys : List (Goroutine R)) (ending : Ending E)
        → a.receiver.running ≡ xs ++ g ∷ ys
        → Mem (stop_of g) a.calls
        → b ≡ ended a xs g ys ending
        → Step a b
    broken :
        (xs : List (Goroutine R)) (g : Goroutine R) (ys : List (Goroutine R)) (e : E)
        → a.receiver.running ≡ xs ++ g ∷ ys
        → b ≡ ended a xs g ys (failed_with e)
        → Step a b

  -- A run in which so many goroutines have ended; Shutdown is called at any time, and any number of times.
  pub data Steps (server_shutdown : R → Option E) (a : Run G H R E) : ℕ → Run G H R E → Type 0 where
    none_yet : Steps server_shutdown a 0 a
    and_one :
        {n : ℕ} {b c : Run G H R E}
        → Steps server_shutdown a n b
        → Step b c
        → Steps server_shutdown a (n + 1) c
    and_shutdown :
        {n : ℕ} {b : Run G H R E}
        → Steps server_shutdown a n b
        → Steps server_shutdown a n (shutdown server_shutdown b)

  -- A run in which so many goroutines end, each after Shutdown has made the call that stops it.
  pub data StoppedRun (c : Run G H R E) : Run G H R E → ℕ → Type 0 where
    all_stopped : StoppedRun c c 0
    one_stopped :
        {a : Run G H R E} {n : ℕ} (xs : List (Goroutine R)) (g : Goroutine R)
        (ys : List (Goroutine R)) (ending : Ending E)
        → a.receiver.running ≡ xs ++ g ∷ ys
        → Mem (stop_of g) a.calls
        → StoppedRun c (ended a xs g ys ending) n
        → StoppedRun c a (suc n)
