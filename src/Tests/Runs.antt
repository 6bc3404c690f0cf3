-- ===== src/Tests/Runs.antt =====
-- The start and the shutdown of the Jaeger receiver at concrete inputs.
use mathlib.Core.List.{mem-cons_self, mem-cons_of_mem}
use hypertrace_collector.Prelude.{
  ℕ, ◌+◌, ◌≡◌, refl, inr, Option, none, some, List, [], ◌∷◌, Str, str, length,
}
use hypertrace_collector.JaegerReceiver.Config.{create_default_config}
use hypertrace_collector.JaegerReceiver.Receiver.{
  Configuration, Libraries, Receiver, Goroutine, configuration_of, serve_processor, serve_collector,
  serve_grpc,
}
use hypertrace_collector.JaegerReceiver.Start.{start}
use hypertrace_collector.JaegerReceiver.Start.Owned.{Idle, receiver_of}
use hypertrace_collector.JaegerReceiver.Start.Counts.{Succeeds, endpoints_set}
use hypertrace_collector.JaegerReceiver.Start.Endpoints.{start-endpoints_set}
use hypertrace_collector.JaegerReceiver.Shutdown.{
  Run, running_only, shutdown, ended, failed_with, no_error, Step, stopped, broken, Steps, none_yet,
  and_one, StoppedRun,
}
use hypertrace_collector.JaegerReceiver.Shutdown.Drain.{ToldToStop, shutdown-drains}

-- Handles are names; nothing fails.
abbrev lib : Libraries ℕ ℕ Str Str
lib = record {
  new_obs_report = λ t. inr t;
  udp_transport = λ a. inr a;
  set_socket_buffer_size = λ t n. none;
  buffered_server = λ t q m. inr t;
  thrift_processor = λ s w f h. inr f;
  agent_http_server = λ e. e;
  to_listener = λ c. inr (str "http listener");
  to_server = λ c. inr (str "http server");
  grpc_to_server = λ c. inr (str "grpc server");
  grpc_listen = λ c. inr (str "grpc listener");
}

abbrev endpoint_for_port : ℕ → Str
endpoint_for_port n = str "localhost"

-- The configuration that the default settings give.
abbrev configuration : Configuration ℕ ℕ
configuration = configuration_of 0 0 (create_default_config endpoint_for_port 0 0)

abbrev fresh : Receiver ℕ ℕ Str
fresh = record {
  config = some configuration;
  grpc_obsrecv = str "grpc";
  http_obsrecv = str "collector_http";
  grpc = none;
  collector_server = none;
  agent_processors = [];
  agent_server = none;
  goroutines = 0;
  running = [];
  bound = [];
}

fresh-Idle : Idle fresh
fresh-Idle = record {
  none_running = refl;
  none_counted = refl;
  no_agent = refl;
  no_collector = refl;
  no_grpc = refl;
}

start-endpoints_set_example :
    Succeeds
      (λ b.
        (length b.running ≡ endpoints_set configuration)
        × (b.goroutines ≡ endpoints_set configuration))
      (start lib fresh)
start-endpoints_set_example = start-endpoints_set lib configuration fresh fresh-Idle refl refl

-- The default settings give four goroutines.
default_goroutines : (receiver_of (start lib fresh)).goroutines ≡ 4
unfolding start configuration_of create_default_config str
default_goroutines = refl

abbrev server_shutdown : Str → Option Str
server_shutdown s = none

-- What the start leaves, and the end of the first processor's goroutine.
abbrev first : Receiver ℕ ℕ Str
first = receiver_of (start lib fresh)

abbrev others : List (Goroutine Str)
others =
    serve_processor (str "compact")
    ∷ serve_collector (str "http server") (str "http listener")
    ∷ serve_grpc (str "grpc server") (str "grpc listener")
    ∷ []

first_running : first.running ≡ serve_processor (str "binary") ∷ others
unfolding start configuration_of create_default_config str
first_running = refl

abbrev one_less : Run ℕ ℕ Str Str
one_less =
    ended (running_only first) [] (serve_processor (str "binary")) others
      (failed_with (str "broken"))

one_step : Steps server_shutdown (running_only first) 1 one_less
one_step =
    and_one none_yet
      (broken [] (serve_processor (str "binary")) others (str "broken") first_running refl)

-- After that, Shutdown is called.
abbrev called : Run ℕ ℕ Str Str
called = shutdown server_shutdown one_less

abbrev others_but_compact : List (Goroutine Str)
others_but_compact =
    serve_collector (str "http server") (str "http listener")
    ∷ serve_grpc (str "grpc server") (str "grpc listener")
    ∷ []

-- The second processor's goroutine ends then.
abbrev two_less : Run ℕ ℕ Str Str
two_less = ended called [] (serve_processor (str "compact")) others_but_compact no_error

second_stops : Step called two_less
unfolding shutdown ended start configuration_of create_default_config str
second_stops =
    stopped [] (serve_processor (str "compact")) others_but_compact no_error refl
      (mem-cons_of_mem _ mem-cons_self) refl

shutdown-drains_example :
    (1 + (1 + two_less.receiver.goroutines) ≡ (receiver_of (start lib fresh)).goroutines)
    × (two_less.receiver.goroutines ≡ length two_less.receiver.running)
    × ToldToStop two_less
    × ((after : Run ℕ ℕ Str Str) × StoppedRun after two_less (length two_less.receiver.running)
        × (after.receiver.running ≡ [])
        × (after.receiver.goroutines ≡ 0))
shutdown-drains_example =
    shutdown-drains lib server_shutdown fresh fresh-Idle 1 1 one_less two_less one_step
      (and_one none_yet second_stops)
