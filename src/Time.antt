-- ===== src/Time.antt =====
-- time.rs: an instant and a duration are their milliseconds, u64 values; addition saturates.
use smolgnet.Base.{ℕ, ◌+◌, ◌-◌, ◌*◌, ◌/◌, ◌^◌, min, Option, none, some, ltb, if◌then◌else◌}
use smolgnet.Base.Words.{sat_add64}

abbrev pub Instant : Type 0
Instant = ℕ

abbrev pub Duration : Type 0
Duration = ℕ

-- `saturating_duration_since`, and `Instant - Instant`.
unfoldable pub saturating_duration_since : Instant → Instant → Duration
saturating_duration_since now earlier = now - earlier

unfoldable pub checked_add : Instant → Duration → Option Instant
checked_add at duration = if ltb (at + duration) (2 ^ 64) then some (at + duration) else none

-- `Instant + Duration` and `Instant - Duration`.
unfoldable pub add : Instant → Duration → Instant
add at duration = sat_add64 at duration

unfoldable pub sub : Instant → Duration → Instant
sub at duration = at - duration

unfoldable pub from_secs : ℕ → Duration
from_secs seconds = min (seconds * 1000) (2 ^ 64 - 1)

unfoldable pub total_secs : Duration → ℕ
total_secs duration = duration / 1000

pub data PollAt : Type 0 where
  now ingress : PollAt
  time : Instant → PollAt

unfoldable pub delay_from : PollAt → Instant → Option Duration
unfolding saturating_duration_since
delay_from now at = some 0
delay_from (time deadline) at = some (saturating_duration_since deadline at)
delay_from ingress at = none
