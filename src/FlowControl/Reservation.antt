-- ===== src/FlowControl/Reservation.antt =====
-- The reservation of request bytes against the budgets of the connection and of the server.
use easy_uds.Prelude.{ℕ, ◌+◌, ◌≡◌, ◌≤◌, ◌<◌, ◌⊎◌, inl, inr, arith, true, false, dec_lt}
use easy_uds.Options.{ServerOptions}
use easy_uds.FlowControl.{
  size_modulus, inflight_byte_limit, Budget, try_reserve_connection_request_bytes,
}

-- What the code keeps: both counters stand at most at their limits, which are `size_t`.
pub record IsWithin (options : ServerOptions) (b : Budget) : Type 0 where
  pub connection_within : b.connection_bytes ≤ inflight_byte_limit options
  pub global_within : b.global_bytes ≤ options.max_total_inflight_bytes
  pub connection_size : inflight_byte_limit options < size_modulus
  pub global_size : options.max_total_inflight_bytes < size_modulus

-- A request of some bytes fits what is left of both budgets.
abbrev pub Fits : ServerOptions → ℕ → Budget → Type 0
Fits options n b =
    (b.connection_bytes + n ≤ inflight_byte_limit options)
    × (b.global_bytes + n ≤ options.max_total_inflight_bytes)

abbrev pub reserved : ℕ → Budget → Budget
reserved n b = record {
  connection_bytes = b.connection_bytes + n;
  global_bytes = b.global_bytes + n;
}

-- With both counters within limits below 2 ^ 64: a request that fits both budgets is reserved in
-- both, and the counters stay within the limits; a request that does not fit one of them is refused
-- with both counters as they were, the connection's too where only the server's budget refused it.
pub try_reserve-exact :
    (options : ServerOptions) (n : ℕ) (b : Budget)
    → 0 < n
    → IsWithin options b
    → (Fits options n b
        × (try_reserve_connection_request_bytes options n b ≡ (true, reserved n b))
        × IsWithin options (reserved n b))
      ⊎ ((¬ Fits options n b) × (try_reserve_connection_request_bytes options n b ≡ (false, b)))
unfolding try_reserve_connection_request_bytes
try_reserve-exact options n b some_bytes w =
    let c = w.connection_within in
    let g = w.global_within in
    let cs = w.connection_size in
    let gs = w.global_size in
    elim (dec_lt (inflight_byte_limit options) (b.connection_bytes + n)) [
      | yes over ↦ inr (λ f. absurd (omega (arith, f.0)), ground arith)
      | no fits_connection ↦ elim (dec_lt options.max_total_inflight_bytes (b.global_bytes + n)) [
        | yes over ↦ inr (λ f. absurd (omega (arith, f.1)), ground arith)
        | no fits ↦ inl (
          (omega arith, omega arith),
          ground arith,
          record {
            connection_within = omega arith;
            global_within = omega arith;
            connection_size = w.connection_size;
            global_size = w.global_size;
          },
        )
      ]
    ]
