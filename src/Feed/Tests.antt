-- ===== src/Feed/Tests.antt =====
-- Tests of check_for_rtp and realtime_clock_difference of source/srthub.c.
use opensrthub.Base.{◌≡◌, refl, true, false}
use opensrthub.Feed.{check_for_rtp, Timespec, realtime_clock_difference}

rtp_packets : check_for_rtp 1328 ≡ true
unfolding check_for_rtp
rtp_packets = refl

plain_packets : check_for_rtp 1316 ≡ false
unfolding check_for_rtp
plain_packets = refl

abbrev earlier : Timespec
earlier = record { tv_sec = 3; tv_nsec = 999999000 }

abbrev later : Timespec
later = record { tv_sec = 5; tv_nsec = 2500 }

later_difference : realtime_clock_difference later earlier ≡ 1000003
unfolding realtime_clock_difference
later_difference = refl
