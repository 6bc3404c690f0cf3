-- ===== src/JaegerReceiver/Shutdown/Drain.antt =====
-- What holds while the goroutines of the receiver end, and that Shutdown's Wait returns.
use mathlib.Core.List.{Mem, mem-cons_self, mem-append_left, mem-append_right, mem-map_of_mem}
use hypertrace_collector.Prelude.{
  ℕ, ◌+◌, ◌≡◌, refl, Option, some, List, [], ◌∷◌, ◌++◌, map, length, length-append, arith,
}
use hypertrace_collector.Prelude.All.{
  All, All-append, All-append_left, All-append_right, All-implies,
}
use hypertrace_collector.JaegerReceiver.Receiver.{
  Goroutine, serve_processor, serve_agent, serve_collector, serve_grpc, Receiver, Libraries,
}
use hypertrace_collector.JaegerReceiver.Start.{start}
use hypertrace_collector.JaegerReceiver.Start.Owned.{Told, Owned, Idle, receiver_of}
use hypertrace_collector.JaegerReceiver.Start.Leaves.{start-Owned}
use hypertrace_collector.JaegerReceiver.Shutdown.{
  Call, shut_down, stop, graceful_stop, Ending, closed, failed_with, Run, running_only, call_of,
  calls_of, shutdown, stop_of, ended, Step, stopped, broken, Steps, none_yet, and_one, and_shutdown,
  StoppedRun, all_stopped, one_stopped,
}

module _ {G H R E : Type 0} where
  -- A goroutine less is counted, and the others still serve what they served.
  ended-Owned :
      (r : Run G H R E) (xs : List (Goroutine R)) (g : Goroutine R) (ys : List (Goroutine R))
      (ending : Ending E)
      → r.receiver.running ≡ xs ++ g ∷ ys
      → Owned r.receiver
      → Owned (ended r xs g ys ending).receiver
        × ((ended r xs g ys ending).receiver.goroutines + 1 ≡ r.receiver.goroutines)
  unfolding ended
  ended-Owned r xs g ys ending e h =
      let n : r.receiver.goroutines ≡ length xs + length (g ∷ ys) =
        ground (arith, h.counted, e, length-append xs (g ∷ ys)) in
      let all : All (Told r.receiver) (xs ++ g ∷ ys) = rw e at h.told in
      (
        record {
          counted = ground (arith, n, length-append xs ys);
          told =
              All-append _ xs ys (All-append_left (Told r.receiver) xs (g ∷ ys) all)
                (All-append_right (Told r.receiver) xs (g ∷ ys) all).1;
        },
        ground (arith, n),
      )

  Step-Owned :
      (a b : Run G H R E)
      → Step a b
      → Owned a.receiver
      → Owned b.receiver × (b.receiver.goroutines + 1 ≡ a.receiver.goroutines)
  Step-Owned a b (stopped xs g ys ending e m p) h = rw p (ended-Owned a xs g ys ending e h)
  Step-Owned a b (broken xs g ys err e p) h = rw p (ended-Owned a xs g ys (failed_with err) e h)

  shutdown-Owned :
      (server_shutdown : R → Option E) (r : Run G H R E)
      → Owned r.receiver
      → Owned (shutdown server_shutdown r).receiver
  unfolding shutdown
  shutdown-Owned server_shutdown r h = h

  shutdown-goroutines :
      (server_shutdown : R → Option E) (r : Run G H R E)
      → (shutdown server_shutdown r).receiver.goroutines ≡ r.receiver.goroutines
  unfolding shutdown
  shutdown-goroutines server_shutdown r = refl

  -- Every step ends one of the goroutines that were counted at first.
  pub Steps-Owned :
      {server_shutdown : R → Option E} {a b : Run G H R E} {n : ℕ}
      → Steps server_shutdown a n b
      → Owned a.receiver
      → Owned b.receiver × (n + b.receiver.goroutines ≡ a.receiver.goroutines)
  Steps-Owned none_yet h = (h, omega arith)
  Steps-Owned (and_one {n} {b} {c} r st) h =
      let (o, m) = Steps-Owned r h in
      let (o', m') = Step-Owned b c st o in (o', omega (arith, m, m'))
  Steps-Owned {server_shutdown} (and_shutdown {n} {b} r) h =
      let (o, m) = Steps-Owned r h in
      (shutdown-Owned server_shutdown b o, omega (arith, m, shutdown-goroutines server_shutdown b))

Mem-call_of :
    {R : Type 0} (f : R → Call R) (o : Option R) (s : R) → o ≡ some s → Mem (f s) (call_of f o)
Mem-call_of f o s e = rw e mem-cons_self

-- Shutdown makes the call that stops a goroutine, if that goroutine serves what the receiver holds.
stop_of-Mem :
    {G H R : Type 0} (jr : Receiver G H R) (g : Goroutine R)
    → Told jr g
    → Mem (stop_of g) (calls_of jr)
stop_of-Mem {R = R} jr (serve_processor p) t =
    mem-append_right (call_of (λ x. shut_down x) jr.agent_server)
      (mem-append_left _ (mem-map_of_mem (λ p. stop p) t))
stop_of-Mem jr (serve_agent s) t = mem-append_left _ (Mem-call_of (λ x. shut_down x) _ s t)
stop_of-Mem {R = R} jr (serve_collector s ln) t =
    mem-append_right (call_of (λ x. shut_down x) jr.agent_server) (
      mem-append_right (map {B = Call R} (λ p. stop p) jr.agent_processors)
        (mem-append_left _ (Mem-call_of (λ x. shut_down x) _ s t)))
stop_of-Mem {R = R} jr (serve_grpc s ln) t =
    mem-append_right (call_of (λ x. shut_down x) jr.agent_server) (
      mem-append_right (map {B = Call R} (λ p. stop p) jr.agent_processors) (
        mem-append_right (call_of (λ x. shut_down x) jr.collector_server)
          (Mem-call_of (λ x. graceful_stop x) _ s t)))

module _ {G H R E : Type 0} where
  -- Shutdown has made the calls that stop what the receiver holds.
  abbrev Stopping : Run G H R E → Type 0
  Stopping r = (g : Goroutine R) → Told r.receiver g → Mem (stop_of g) r.calls

  shutdown-Stopping :
      (server_shutdown : R → Option E) (r : Run G H R E) → Stopping (shutdown server_shutdown r)
  unfolding shutdown
  shutdown-Stopping server_shutdown r g t = mem-append_right r.calls (stop_of-Mem r.receiver g t)

  Step-Stopping : (a b : Run G H R E) → Step a b → Stopping a → Stopping b
  unfolding ended
  Step-Stopping a b (stopped xs g ys ending e m p) h = rw p h
  Step-Stopping a b (broken xs g ys err e p) h = rw p h

  shutdown-keeps :
      (server_shutdown : R → Option E) (r : Run G H R E)
      → Stopping r
      → Stopping (shutdown server_shutdown r)
  unfolding shutdown
  shutdown-keeps server_shutdown r h g t = mem-append_left _ (h g t)

  Steps-Stopping :
      {server_shutdown : R → Option E} {a b : Run G H R E} {n : ℕ}
      → Steps server_shutdown a n b
      → Stopping a
      → Stopping b
  Steps-Stopping none_yet h = h
  Steps-Stopping (and_one {n} {b} {c} r st) h = Step-Stopping b c st (Steps-Stopping r h)
  Steps-Stopping {server_shutdown} (and_shutdown {n} {b} r) h =
      shutdown-keeps server_shutdown b (Steps-Stopping r h)

  -- The calls were made that stop each of the goroutines that run.
  abbrev pub ToldToStop : Run G H R E → Type 0
  ToldToStop r = All (λ g. Mem (stop_of g) r.calls) r.receiver.running

  -- The goroutines that run can all end after these calls.
  running-StoppedRun :
      (gs : List (Goroutine R)) (r : Run G H R E)
      → Owned r.receiver
      → r.receiver.running ≡ gs
      → All (λ g. Mem (stop_of g) r.calls) gs
      → (after : Run G H R E) × StoppedRun after r (length gs)
        × (after.receiver.running ≡ [])
        × (after.receiver.goroutines ≡ 0)
  unfolding ended
  running-StoppedRun [] r h e told = (r, all_stopped, e, ground (arith, h.counted, e))
  running-StoppedRun (g ∷ ys) r h e (m, told) =
      let (h', _) = ended-Owned r [] g ys closed e h in
      let (after, run, none_left, zero) =
        running-StoppedRun ys (ended r [] g ys closed) h' refl told in
      (after, one_stopped [] g ys closed e m run, none_left, zero)

module _ {G H R E : Type 0} (lib : Libraries G H R E) (server_shutdown : R → Option E)
    (fresh : Receiver G H R) where
  -- Start, whether it succeeds or fails; then goroutines may end and Shutdown may be called; then Shutdown is
  -- called, and again goroutines may end and Shutdown may be called. At any point from then on, the goroutines
  -- that have ended and the WaitGroup's counter add up to the goroutines that Start counted, the counter is
  -- the number of the goroutines that still run, and Shutdown has made the call that stops each of these. If
  -- each of them ends after that call, none is left to run and the counter is zero, so Wait returns.
  pub shutdown-drains :
      Idle fresh
      → (m n : ℕ) (a b : Run G H R E)
      → Steps server_shutdown (running_only (receiver_of (start lib fresh))) m a
      → Steps server_shutdown (shutdown server_shutdown a) n b
      → (m + (n + b.receiver.goroutines) ≡ (receiver_of (start lib fresh)).goroutines)
        × (b.receiver.goroutines ≡ length b.receiver.running)
        × ToldToStop b
        × ((after : Run G H R E) × StoppedRun after b (length b.receiver.running)
            × (after.receiver.running ≡ [])
            × (after.receiver.goroutines ≡ 0))
  shutdown-drains idle m n a b before after =
      let (held, counted) = Steps-Owned before (start-Owned lib fresh idle) in
      let (held', counted') = Steps-Owned after (shutdown-Owned server_shutdown a held) in
      let made = Steps-Stopping after (shutdown-Stopping server_shutdown a) in
      let told : ToldToStop b =
        All-implies (Told b.receiver) (λ g. Mem (stop_of g) b.calls) made b.receiver.running
          held'.told in
      (
        omega (arith, counted, counted', shutdown-goroutines server_shutdown a),
        held'.counted,
        told,
        running-StoppedRun b.receiver.running b held' refl told,
      )
