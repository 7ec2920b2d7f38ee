-- ===== src/Tests/Servers.antt =====
-- A time server whose answer says one second more than the clock.
use nucleo_tests.Base.{
  ℕ, ◌≡◌, ◌↔◌, arith, refl, ap, sym, subst, true, some, List, [], ◌∷◌, ◌++◌, replicate,
}
use nucleo_tests.Base.Int.{pos, ◌+ℤ◌, ◌-ℤ◌, ◌≤ℤ◌, i32, div_ℤ}
use nucleo_tests.Timespec.{Timespec, total, FitsAdd, FitsDiff, IsNormal, timespec_add, diff_of}
use nucleo_tests.Socket.{Net}
use nucleo_tests.Inet.{htonl, ntohl}
use nucleo_tests.Sntp.{
  sntp_socket, sntp_request, sntp_reply, sntp_message, timespec_to_ntp, lsrr, ntp_to_timespec,
  timespec_half, fraction_of, system_clock_estimate, clock_offset, sntp_gettime,
}
use nucleo_tests.Sntp.Estimate.{system_clock_estimate-mean}
use nucleo_tests.Timesync.{Sync, time_to_sync, timesync_now_timespec, sync_start}
use nucleo_tests.Timesync.Interval.{time_to_sync-interval}
use nucleo_tests.Tests.Network.{answering}

abbrev at : ℕ → ℕ → Timespec
at sec nsec = record { sec = pos sec; nsec = pos nsec }

fits : FitsAdd (at 11 0) (clock_offset (at 10 0) (at 12 5) (at 12 9) (at 11 0))
unfolding clock_offset timespec_half timespec_add diff_of div_ℤ i32 ◌+ℤ◌ ◌-ℤ◌
fits = omega arith

system_clock_estimate-mean_example :
    let change =
      total (system_clock_estimate (at 10 0) (at 12 5) (at 12 9) (at 11 0)) -ℤ total (at 11 0) in
    let sum = (total (at 12 5) -ℤ total (at 10 0)) +ℤ (total (at 12 9) -ℤ total (at 11 0)) in
    (change +ℤ change ≤ℤ sum) × (sum ≤ℤ change +ℤ change +ℤ pos 2)
system_clock_estimate-mean_example =
    system_clock_estimate-mean (at 10 0) (at 12 5) (at 12 9) (at 11 0) (omega arith) (omega arith)
      (omega arith) (omega arith) refl fits

-- The thousandth second of 1970.
abbrev stamp : List ℕ
stamp = 0x83 ∷ 0xaa ∷ 0x82 ∷ 0x68 ∷ 0 ∷ 0 ∷ 0 ∷ 0 ∷ []

abbrev net : Net ℕ
net = answering (0x24 ∷ replicate 23 0 ++ stamp ++ stamp ++ stamp) (at 998 0)

abbrev start : Sync ℕ
start = sync_start 1

got : sntp_gettime net start.sntp_server (at 0 0) start.world ≡ (pos 0, at 999 0, 0)
unfolding sntp_gettime sntp_socket sntp_request sntp_reply sntp_message timespec_to_ntp fraction_of
    lsrr htonl ntohl ntp_to_timespec timespec_add system_clock_estimate timespec_half diff_of i32
    ◌+ℤ◌ ◌-ℤ◌ div_ℤ
got = refl

set : (timesync_now_timespec net (at 0 0) (some (at 998 0)) start).0 ≡ pos 1
unfolding timesync_now_timespec
set = rw got

abbrev answer : Timespec
answer = (sntp_gettime net start.sntp_server (at 0 0) start.world).1

answered : at 999 0 ≡ answer
answered = ap (λ r. r.1) (sym got)

answer-IsNormal : IsNormal answer
answer-IsNormal = subst IsNormal answered (omega arith)

answer_fits : FitsAdd answer start.sync_interval
unfolding ◌+ℤ◌
answer_fits = subst (λ t. FitsAdd t start.sync_interval) answered (omega arith)

later_fits : FitsDiff (at 87399 0) (timespec_add answer start.sync_interval)
unfolding timespec_add i32 ◌+ℤ◌ ◌-ℤ◌
later_fits =
    subst (λ t. FitsDiff (at 87399 0) (timespec_add t start.sync_interval)) answered (omega arith)

time_to_sync-interval_example :
    (time_to_sync (some (at 87399 0)) (timesync_now_timespec net (at 0 0) (some (at 998 0)) start).2
      ≡ true)
    ↔ (total answer +ℤ total start.sync_interval ≤ℤ total (at 87399 0))
time_to_sync-interval_example =
    time_to_sync-interval net (at 0 0) (at 998 0) start (at 87399 0) answer-IsNormal (omega arith)
      (omega arith) answer_fits later_fits set
