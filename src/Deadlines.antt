-- ===== src/Deadlines.antt =====
-- The deadlines of transport/io.hpp, reactor/common.hpp and reactor/output.cpp. A time is a number
-- of ticks of `steady_clock`, nanoseconds, and is at most `max_time`, which stands for no deadline.
-- A timeout is a number of milliseconds; the option checks have refused the negative ones.
pub mod Laws
mod Tests
use easy_uds.Prelude.{
  ℕ, ◌+◌, ◌-◌, ◌*◌, ◌/◌, ◌^◌, ◌≡◌, Bool, true, false, not, ◌&&◌, ◌==◌, ltb, leb, if◌then◌else◌, min,
  max, ErrorCode, Exception, error, Result, ok, err,
}
use easy_uds.Options.{Count, pos, negsuc}

-- `Deadline::max()`
abbrev pub max_time : ℕ
max_time = 2 ^ 63 - 1

abbrev pub ticks_per_ms : ℕ
ticks_per_ms = 1_000_000

abbrev pub int_max : ℕ
int_max = 2 ^ 31 - 1

-- `deadline_from_now` is this at the present time.
unfoldable pub deadline_from : ℕ → ℕ → ℕ
deadline_from start timeout =
    let max_ms = (max_time - start) / ticks_per_ms in
    if timeout == 0
    then max_time
    else if leb max_ms timeout
    then max_time - 1
    else start + timeout * ticks_per_ms

unfoldable pub deadline_from_now : ℕ → ℕ → ℕ
unfolding deadline_from
deadline_from_now now timeout = deadline_from now timeout

-- Over the time of the last progress: of a connection's input and output in common.hpp, of its
-- output in output.cpp.
unfoldable pub inactivity_deadline : ℕ → ℕ → ℕ
inactivity_deadline progress timeout =
    let max_ms = (max_time - progress) / ticks_per_ms in
    if timeout == 0
    then max_time
    else if leb max_ms timeout
    then max_time - 1
    else progress + timeout * ticks_per_ms

unfoldable pub earlier_deadline : ℕ → ℕ → ℕ
earlier_deadline left right = if ltb left right then left else right

-- The whole milliseconds that are left, rounded up, within an `int`.
unfoldable pub poll_timeout_ms : ℕ → ℕ → Count
poll_timeout_ms now deadline =
    if deadline == max_time
    then negsuc 0
    else if leb deadline now
    then pos 0
    else pos (max 1 (min ((deadline - now + ticks_per_ms - 1) / ticks_per_ms) int_max))

unfoldable pub check_absolute_deadline : ℕ → ℕ → Exception → Result (Unit {0})
check_absolute_deadline now deadline timed_out =
    if not (deadline == max_time) && leb deadline now then err timed_out else ok tt
