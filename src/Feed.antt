-- ===== src/Feed.antt =====
-- check_for_rtp and realtime_clock_difference of source/srthub.c, which the receivers use on what the
-- network feeds them. Sizes are not negative: they are those that a receive call returned.
mod Tests
use opensrthub.Base.{
  ℕ, ◌+◌, ◌-◌, ◌*◌, ◌/◌, ◌%◌, ◌≤◌, ◌<◌, ◌≡◌, ◌↔◌, Bool, true, false, arith, ltb, ◌==◌,
  if◌then◌else◌,
}

abbrev pub packet_size : ℕ
packet_size = 188

abbrev pub rtp_header : ℕ
rtp_header = 12

-- A size below 12 gives a negative one without the header, whose quotient by 188 is 0; so it fails.
unfoldable pub check_for_rtp : ℕ → Bool
check_for_rtp size =
    if size / packet_size * packet_size == size
    then false
    else if ltb size rtp_header
    then false
    else (size - rtp_header) / packet_size * packet_size == size - rtp_header

-- struct timespec
pub record Timespec : Type 0 where
  pub tv_sec : ℕ
  pub tv_nsec : ℕ

-- In microseconds. `start` is not later than `now`, so that no difference is negative.
unfoldable pub realtime_clock_difference : Timespec → Timespec → ℕ
realtime_clock_difference now start =
    if ltb now.tv_nsec start.tv_nsec
    then (1000000000 + now.tv_nsec - start.tv_nsec) / 1000
      + (now.tv_sec - start.tv_sec - 1) * 1000000
    else (now.tv_nsec - start.tv_nsec) / 1000 + (now.tv_sec - start.tv_sec) * 1000000

abbrev pub nanoseconds : Timespec → ℕ
nanoseconds t = t.tv_sec * 1000000000 + t.tv_nsec

-- check_for_rtp holds of a packet size exactly if the size leaves 12 when divided by 188: a whole
-- number of transport packets behind an RTP header.
check_for_rtp_iff : (size : ℕ) → (check_for_rtp size ≡ true) ↔ (size % packet_size ≡ rtp_header)
unfolding check_for_rtp
check_for_rtp_iff size = ground arith

-- For two times with less than 10^9 nanoseconds in their tv_nsec, the first not later than the
-- second, realtime_clock_difference is the difference in nanoseconds, divided by 1000 and rounded
-- down.
realtime_clock_difference_lem :
    (now start : Timespec)
    → now.tv_nsec < 1000000000
    → start.tv_nsec < 1000000000
    → nanoseconds start ≤ nanoseconds now
    → realtime_clock_difference now start ≡ (nanoseconds now - nanoseconds start) / 1000
unfolding realtime_clock_difference
realtime_clock_difference_lem now start n s le = ground arith
