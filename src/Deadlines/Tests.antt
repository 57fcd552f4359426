-- ===== src/Deadlines/Tests.antt =====
-- Deadlines at concrete times.
use easy_uds.Prelude.{ℕ, ◌+◌, ◌-◌, ◌*◌, ◌≤◌, ◌<◌, ◌≡◌, ◌≢◌, ◌↔◌, ◌⊎◌, refl, arith}
use easy_uds.Options.{pos, negsuc}
use easy_uds.Deadlines.{max_time, ticks_per_ms, int_max, deadline_from, poll_timeout_ms}
use easy_uds.Deadlines.Laws.{deadline_from_bounds, poll_timeout_ms_cases}

abbrev now : ℕ
now = 1_000_000_000

-- Five milliseconds, and a part of a millisecond left.
poll_timeout_ms_run : poll_timeout_ms now (deadline_from now 5 - 1) ≡ pos 5
unfolding poll_timeout_ms deadline_from
poll_timeout_ms_run = refl

deadline_from_bounds_example :
    (now ≤ deadline_from now 5)
    × (deadline_from now 5 ≤ max_time)
    × ((deadline_from now 5 ≡ max_time) ↔ (◌≡◌ {A = ℕ} 5 0))
    × ((◌≡◌ {A = ℕ} 5 0)
        ⊎ (max_time < now + (5 + 1) * ticks_per_ms)
        ⊎ (deadline_from now 5 ≡ now + 5 * ticks_per_ms))
deadline_from_bounds_example = deadline_from_bounds now 5 (omega arith)

poll_timeout_ms_cases_example :
    ((now + 7 ≡ max_time) × (poll_timeout_ms now (now + 7) ≡ negsuc 0))
    ⊎ ((now + 7 ≢ max_time) × (now + 7 ≤ now) × (poll_timeout_ms now (now + 7) ≡ pos 0))
    ⊎ ((now + 7 ≢ max_time)
        × (now < now + 7)
        × ((ms : ℕ) × (poll_timeout_ms now (now + 7) ≡ pos ms)
            × (0 < ms)
            × (ms ≤ int_max)
            × ((ms ≡ int_max) ⊎ (now + 7 ≤ now + ms * ticks_per_ms))
            × (now + (ms - 1) * ticks_per_ms < now + 7)))
poll_timeout_ms_cases_example = poll_timeout_ms_cases now (now + 7)
