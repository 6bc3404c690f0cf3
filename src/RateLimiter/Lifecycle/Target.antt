-- ===== src/RateLimiter/Lifecycle/Target.antt =====
-- The target that createTraceProcessor dials.
use hypertrace_collector.Prelude.{ℕ, ◌≡◌, refl, ◌∙◌, ap, ◌⊎◌, inl, inr, false, Str, str, Bool-cases}
use hypertrace_collector.Prelude.Decimal.{itoa, read_digits, read-itoa}
use hypertrace_collector.Prelude.Int.{all_digits-itoa}
use hypertrace_collector.Prelude.HostPort.{
  has_byte, split_host_port, split_host_port-bracketed, split_host_port-unbracketed,
}
use hypertrace_collector.RateLimiter.Config.{Config}
use hypertrace_collector.RateLimiter.Lifecycle.{
  join_host_port, created, create_trace_processor, timeout_ns,
}

split-join :
    (host : Str) (port : ℕ)
    → has_byte b'[' host ≡ false
    → has_byte b']' host ≡ false
    → split_host_port (join_host_port host (itoa port)) ≡ inr (host, itoa port)
unfolding join_host_port str
split-join host port l r = elim (Bool-cases (has_byte 58 host)) [
  | inl colon ↦
      rw (colon, join_host_port)
        (split_host_port-bracketed host (itoa port) l r (all_digits-itoa port))
  | inr no_colon ↦
      rw (no_colon, join_host_port)
        (split_host_port-unbracketed host (itoa port) no_colon l r (all_digits-itoa port))
]

module _ {C E : Type 0} (dial : Str × ℕ → E ⊎ C) (c : Config) where
  created-dialled : (t : Str × ℕ) (r : E ⊎ C) → (created c t r).dialled ≡ t
  unfolding created
  created-dialled t (inl e) = refl
  created-dialled t (inr conn) = refl

  -- The target that is dialled is split by net.SplitHostPort into the configured host, if that has no
  -- brackets, and a port that reads as the configured number; this holds also of an IPv6 host, which
  -- is dialled in brackets.
  pub create_trace_processor-target :
      has_byte b'[' c.service_host ≡ false
      → has_byte b']' c.service_host ≡ false
      → (port : Str) × (split_host_port (create_trace_processor dial c).dialled.0
          ≡ inr (c.service_host, port))
        × (read_digits 0 port ≡ c.service_port)
  unfolding create_trace_processor
  create_trace_processor-target l r =
      let target : Str × ℕ =
        (join_host_port c.service_host (itoa c.service_port), timeout_ns c.timeout_millis) in
      (
        itoa c.service_port,
        ap (λ (t : Str × ℕ). split_host_port t.0) (created-dialled target (dial target))
            ∙ split-join c.service_host c.service_port l r,
        read-itoa c.service_port,
      )
