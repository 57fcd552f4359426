-- ===== src/Deadlines/Laws.antt =====
-- The bounds of deadlines and of the waits for them.
use easy_uds.Prelude.{
  ℕ, ◌+◌, ◌-◌, ◌*◌, ◌/◌, ◌≤◌, ◌<◌, ◌≡◌, ◌≢◌, ◌↔◌, ◌⊎◌, arith, inl, inr, dec_lt, ℕ_discrete, min,
  max,
}
use easy_uds.Options.{pos, negsuc}
use easy_uds.Deadlines.{max_time, ticks_per_ms, int_max, deadline_from, poll_timeout_ms}

-- A deadline from a time before the end of the clock does not wrap and does not lie before that
-- time; only a zero timeout gives none; and below saturation it is exactly the timeout later.
pub deadline_from_bounds :
    (start timeout : ℕ)
    → start < max_time
    → (start ≤ deadline_from start timeout)
      × (deadline_from start timeout ≤ max_time)
      × ((deadline_from start timeout ≡ max_time) ↔ (timeout ≡ 0))
      × ((timeout ≡ 0)
          ⊎ (max_time < start + (timeout + 1) * ticks_per_ms)
          ⊎ (deadline_from start timeout ≡ start + timeout * ticks_per_ms))
unfolding deadline_from
deadline_from_bounds start timeout h = (
  ground arith,
  ground arith,
  (ground arith, ground arith),
  elim (dec_lt 0 timeout) [
    | no zero_timeout ↦ inl (omega arith)
    | yes some_timeout ↦ elim (dec_lt max_time (start + (timeout + 1) * ticks_per_ms)) [
      | yes saturated ↦ inr (inl saturated)
      | no room ↦ inr (inr (ground arith))
    ]
  ],
)

-- The argument of `poll`: without a deadline it is -1, at or past the deadline 0, and before it a
-- positive `int` that lasts to the deadline, unless it is the largest one, and less than one
-- millisecond longer.
pub poll_timeout_ms_cases :
    (now deadline : ℕ)
    → ((deadline ≡ max_time) × (poll_timeout_ms now deadline ≡ negsuc 0))
      ⊎ ((deadline ≢ max_time) × (deadline ≤ now) × (poll_timeout_ms now deadline ≡ pos 0))
      ⊎ ((deadline ≢ max_time)
          × (now < deadline)
          × ((ms : ℕ) × (poll_timeout_ms now deadline ≡ pos ms)
              × (0 < ms)
              × (ms ≤ int_max)
              × ((ms ≡ int_max) ⊎ (deadline ≤ now + ms * ticks_per_ms))
              × (now + (ms - 1) * ticks_per_ms < deadline)))
unfolding poll_timeout_ms
poll_timeout_ms_cases now deadline = elim (ℕ_discrete deadline max_time) [
  | yes none_set ↦ inl (none_set, ground arith)
  | no set ↦ elim (dec_lt now deadline) [
    | yes before ↦ inr (
        inr (
          set,
          before,
          (
            max 1 (min ((deadline - now + ticks_per_ms - 1) / ticks_per_ms) int_max),
            ground arith,
            omega arith,
            omega arith,
            omega arith,
            omega arith,
          ),
        ))
    | no past ↦ inr (inl (set, omega arith, ground arith))
  ]
]
