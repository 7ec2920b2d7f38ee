-- ===== src/Timesync/Interval.antt =====
-- How often the clock is set.
use nucleo_tests.Base.{◌≡◌, ◌↔◌, arith, true, some, Option}
use nucleo_tests.Base.Int.{ℤ, pos, ◌+ℤ◌, ◌≤ℤ◌, parts_of_eq}
use nucleo_tests.Timespec.{Timespec, timespec_add, IsNormal, total, FitsAdd, FitsDiff}
use nucleo_tests.Timespec.Arith.{total-timespec_add, timespec_add-IsNormal}
use nucleo_tests.Timespec.Order.{timespec_diff_sign}
use nucleo_tests.Socket.{Net}
use nucleo_tests.Sntp.{sntp_gettime}
use nucleo_tests.Timesync.{Sync, time_to_sync, timesync_now_timespec, set_clock}

-- Against some time at which the clock was set.
due-total :
    {W : Type 0} (s : Sync W) (at now i : Timespec)
    → IsNormal at
    → IsNormal now
    → IsNormal i
    → FitsAdd at i
    → FitsDiff now (timespec_add at i)
    → s.next_sync ≡ timespec_add at i
    → (time_to_sync (some now) s ≡ true) ↔ (total at +ℤ total i ≤ℤ total now)
unfolding time_to_sync
due-total s at now i p q r f g e =
    let next = timespec_add at i in
    let sum = parts_of_eq (total-timespec_add at i p r f) in
    let sign = (timespec_diff_sign now next q (timespec_add-IsNormal at i p r f) g).0 in
    (λ h. ground (arith, rw e at h, sum, sign), λ h. rw e (ground (arith, sum, sign)))

module _ {W : Type 0} (net : Net W) (junk : Timespec) where
  set_clock-next :
      (out : Option Timespec) (s : Sync W) (got : ℤ × Timespec × W)
      → let r = set_clock net out s got in
        r.0 ≡ pos 1 → r.2.next_sync ≡ timespec_add got.1 s.sync_interval
  set_clock-next out s got h = ground arith

  -- Once `timesync_now_timespec` has returned 1 with the time that it set, and for normal times that
  -- do not overflow, the clock is due to be set again exactly when the interval has passed since that
  -- time.
  pub time_to_sync-interval :
      (old : Timespec) (s : Sync W) (now : Timespec)
      → let at = (sntp_gettime net s.sntp_server junk s.world).1 in
        let r = timesync_now_timespec net junk (some old) s in
        IsNormal at
        → IsNormal now
        → IsNormal s.sync_interval
        → FitsAdd at s.sync_interval
        → FitsDiff now (timespec_add at s.sync_interval)
        → r.0 ≡ pos 1
        → (time_to_sync (some now) r.2 ≡ true) ↔ (total at +ℤ total s.sync_interval ≤ℤ total now)
  unfolding timesync_now_timespec
  time_to_sync-interval old s now p q i f g h =
      let got = sntp_gettime net s.sntp_server junk s.world in
      due-total (set_clock net (some old) s got).2 got.1 now s.sync_interval p q i f g
        (set_clock-next (some old) s got h)
