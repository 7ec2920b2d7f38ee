-- ===== src/Rfc868.antt =====
-- src/rfc868_time.c: asking a time server by RFC 868, over UDP (the default).
pub mod Epoch
use nucleo_tests.Base.{ℕ, ◌==◌, List, [], ◌∷◌, get_or, if◌then◌else◌}
use nucleo_tests.Base.Bytes.{word32}
use nucleo_tests.Base.Int.{ℤ, pos, ◌-ℤ◌, i32, signed32, eqb_ℤ, ltb_ℤ, minus_one}
use nucleo_tests.Timespec.{Timespec}
use nucleo_tests.Socket.{Net}
use nucleo_tests.Inet.{htons, ntohl}
use nucleo_tests.Sntp.{secs_to_epoch}

abbrev pub default_rfc868_server : ℕ
default_rfc868_server = 0x1e0f0681

-- `ts->tv_nsec = NSECS_IN_SEC/2`
abbrev pub timespec_correct : Timespec → Timespec
timespec_correct ts = record ts { nsec = pos 500000000 }

-- What is written to `*ts` for a number of seconds, and the value returned; `old` is what `*ts` holds.
-- The seconds are an `int32_t`, and those of the epoch a `time_t`.
unfoldable pub rfc868_accept : ℕ → Timespec → ℤ × Timespec
rfc868_accept secs old =
    let tp_secs = signed32 secs in
    let to_epoch = signed32 secs_to_epoch in
    if eqb_ℤ tp_secs (pos 0)
    then (minus_one, old)
    else if ltb_ℤ tp_secs to_epoch
    then (minus_one, old)
    else (pos 0, timespec_correct (record { sec = i32 (tp_secs -ℤ to_epoch); nsec = pos 0 }))

module _ {W : Type 0} (net : Net W) where
  unfoldable pub recv_time32 : ℤ → W → ℕ × W
  recv_time32 sock w =
      let (size, msg, w') = net.recv sock 4 w in
      (
        (if eqb_ℤ size (pos 4)
            then ntohl (word32 (get_or msg 0 0) (get_or msg 1 0) (get_or msg 2 0) (get_or msg 3 0))
            else 0),
        w',
      )

  -- A datagram of one byte.
  unfoldable pub rfc868_connect : ℤ → ℕ → W → ℤ × W
  rfc868_connect sock server w =
      let (sent, w') = net.sendto sock (0 ∷ []) server (htons 37) w in
      ((if eqb_ℤ sent (pos 1) then pos 0 else minus_one), w')

  abbrev pub time_if_sent : ℤ → ℤ × W → ℕ × W
  time_if_sent sock (res, w) =
      let (secs, w') = recv_time32 sock w in
      if eqb_ℤ res (pos 0) then (secs, net.close sock w') else (0, net.close sock w)

  unfoldable pub rfc868_gettime32 : ℕ → W → ℕ × W
  rfc868_gettime32 server w =
      let (sock, w1) = net.socket w in
      if ltb_ℤ sock (pos 0) then (0, w1) else time_if_sent sock (rfc868_connect sock server w1)

  unfoldable pub rfc868_gettime : ℕ → Timespec → W → ℤ × Timespec × W
  rfc868_gettime server old w =
      let (secs, w') = rfc868_gettime32 server w in
      let (res, ts) = rfc868_accept secs old in (res, ts, w')
