-- ===== src/Webdav/Timeout/Range.antt =====
-- The timeout that a header asks for: exact below the cap, and what the int64 product makes of
-- large numbers.
use nextcloud_go.Prelude.{ℕ, ◌+◌, ◌*◌, ◌^◌, ◌≤◌, ◌<◌, min, ◌≡◌, arith, pos}
use nextcloud_go.Webdav.Timeout.{second, max_lock_timeout, capped_seconds}

-- A number of seconds whose nanoseconds fit an int64 gives that time, at most a day.
pub capped_seconds_exact :
    (n : ℕ) → n * second < 2 ^ 63 → capped_seconds n ≡ pos (min (n * second) max_lock_timeout)
unfolding capped_seconds
capped_seconds_exact n h = ground arith

-- A number of seconds whose nanoseconds pass 2 ^ 64 by at most a day gives the excess alone: the cap
-- does not see it.
pub capped_seconds_wraps :
    (n k d : ℕ) → n * second ≡ k * 2 ^ 64 + d → d ≤ max_lock_timeout → capped_seconds n ≡ pos d
unfolding capped_seconds
capped_seconds_wraps n k d e h = ground arith
