-- ===== src/Timesync.antt =====
-- src/timesync.c: setting the clock from a time server, by SNTP (the default), once in an interval.
pub mod Interval
use nucleo_tests.Base.{ℕ, ◌*◌, Bool, true, false, Option, none, some, if◌then◌else◌}
use nucleo_tests.Base.Int.{ℤ, pos, leb_ℤ, eqb_ℤ, minus_one}
use nucleo_tests.Timespec.{Timespec, timespec_add, timespec_diff, timespec_zero}
use nucleo_tests.Socket.{Net}
use nucleo_tests.Sntp.{sntp_gettime, default_sntp_server}

-- The variables of the file, the server of src/sntp.c, and the network.
pub record Sync (W : Type 0) : Type 0 where
  pub next_sync : Timespec
  pub sync_interval : Timespec
  pub sntp_server : ℕ
  pub world : W

abbrev pub timesync_interval : ℕ
timesync_interval = 60 * 60 * 24

abbrev pub sync_start : {W : Type 0} → W → Sync W
sync_start w = record {
  next_sync = timespec_zero;
  sync_interval = record { sec = pos timesync_interval; nsec = pos 0 };
  sntp_server = default_sntp_server;
  world = w;
}

unfoldable pub time_to_sync : {W : Type 0} → Option Timespec → Sync W → Bool
time_to_sync none s = true
time_to_sync (some now) s = leb_ℤ (pos 0) (timespec_diff now s.next_sync)

-- `*out`, where there is one.
abbrev pub written : Option Timespec → Timespec → Option Timespec
written none now = none
written (some _) now = some now

module _ {W : Type 0} (net : Net W) where
  abbrev pub set_clock : Option Timespec → Sync W → ℤ × Timespec × W → ℤ × Option Timespec × Sync W
  set_clock out s (res, now, w) =
      let (set, w') = net.clock_settime now w in
      if eqb_ℤ res (pos 0)
      then (if eqb_ℤ set (pos 0)
          then (
            pos 1,
            written out now,
            record s { next_sync = timespec_add now s.sync_interval; world = w' },
          )
          else (minus_one, out, record s { world = w' }))
      else (minus_one, out, record s { world = w })

  -- What `*out` holds after it comes second, where one is given; `junk` is what `now` holds at first.
  unfoldable pub timesync_now_timespec :
      Timespec → Option Timespec → Sync W → ℤ × Option Timespec × Sync W
  timesync_now_timespec junk out s = set_clock out s (sntp_gettime net s.sntp_server junk s.world)

  unfoldable pub timesync_timespec :
      Timespec → Option Timespec → Sync W → ℤ × Option Timespec × Sync W
  timesync_timespec junk now s =
      if time_to_sync now s then timesync_now_timespec junk now s else (pos 0, now, s)

  unfoldable pub timesync : Timespec → Sync W → ℤ × Option Timespec × Sync W
  timesync junk s =
      let (now, w) = net.clock_realtime s.world in
      timesync_timespec junk (some now) (record s { world = w })
