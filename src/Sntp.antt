-- ===== src/Sntp.antt =====
-- src/sntp.c: asking a time server by SNTP. Words in a message are in network order.
pub mod Fraction
pub mod Estimate
use nucleo_tests.Base.{
  ℕ, zero, suc, ◌+◌, ◌-◌, ◌*◌, ◌/◌, ◌%◌, ◌^◌, bit_and, bit_or, List, [], ◌∷◌, ◌++◌, replicate, map,
  get_or, drop, ltb, ◌==◌, not, if◌then◌else◌,
}
use nucleo_tests.Base.Bytes.{bytes32, word32}
use nucleo_tests.Base.Int.{
  ℤ, pos, ◌+ℤ◌, ◌-ℤ◌, i32, signed32, to_unsigned, div_ℤ, pos_part, neg_part, eqb_ℤ, ltb_ℤ,
  minus_one,
}
use nucleo_tests.Timespec.{Timespec, Timeval, timespec_add, diff_of, nsecs_in_sec}
use nucleo_tests.Socket.{Net, so_rcvtimeo, so_sndtimeo}
use nucleo_tests.Inet.{htonl, htons, ntohl}

pub record NtpTimestamp : Type 0 where
  pub ntp_sec : ℕ
  pub ntp_fract : ℕ

abbrev pub secs_to_epoch : ℕ
secs_to_epoch = 2208988800

-- The default server, 129.6.15.30.
abbrev pub default_sntp_server : ℕ
default_sntp_server = 0x1e0f0681

-- `1 << (shift - 1)` is added where that does not overflow.
unfoldable pub lsrr : ℕ → ℕ → ℕ
lsrr v zero = v
lsrr v (suc s) = (if ltb v (2 ^ 32 - 1 - 2 ^ s) then v + 2 ^ s else v) / 2 ^ suc s

unfoldable pub ntp_to_timespec : NtpTimestamp → Timespec
unfolding lsrr
ntp_to_timespec nt =
    let sec = (ntohl nt.ntp_sec + (2 ^ 32 - secs_to_epoch)) % 2 ^ 32 in
    let fract = lsrr (ntohl nt.ntp_fract) 18 in
    let nsec = fract * lsrr nsecs_in_sec 14 % 2 ^ 32 in
    record { sec = signed32 sec; nsec = signed32 nsec }

abbrev pub inv_nsecs_in_sec : ℕ
inv_nsecs_in_sec = 281475

-- The fraction of a second, in host order, for a number of nanoseconds.
unfoldable pub fraction_of : ℕ → ℕ
unfolding lsrr
fraction_of nsec = lsrr nsec 16 * inv_nsecs_in_sec % 2 ^ 32

unfoldable pub timespec_to_ntp : Timespec → NtpTimestamp
timespec_to_ntp ts =
    let sec = (to_unsigned ts.sec + secs_to_epoch) % 2 ^ 32 in
    record { ntp_sec = htonl sec; ntp_fract = htonl (fraction_of (to_unsigned ts.nsec)) }

-- `t->tv_sec & 1`, in two's complement.
abbrev pub carried : Timespec → Timespec
carried t =
    if (pos_part t.sec + neg_part t.sec) % 2 == 1
    then record { sec = i32 (t.sec -ℤ pos 1); nsec = i32 (t.nsec +ℤ pos nsecs_in_sec) }
    else t

unfoldable pub timespec_half : Timespec → Timespec
timespec_half t = let c = carried t in record { sec = div_ℤ c.sec 2; nsec = div_ℤ c.nsec 2 }

unfoldable pub clock_offset : Timespec → Timespec → Timespec → Timespec → Timespec
clock_offset t1 t2 t3 t4 =
    timespec_add (timespec_half (diff_of t2 t1)) (timespec_half (diff_of t3 t4))

unfoldable pub system_clock_estimate : Timespec → Timespec → Timespec → Timespec → Timespec
unfolding clock_offset
system_clock_estimate t1 t2 t3 t4 = timespec_add t4 (clock_offset t1 t2 t3 t4)

-- The bytes of a message of words.
abbrev pub to_bytes : List ℕ → List ℕ
to_bytes [] = []
to_bytes (x ∷ xs) = bytes32 x ++ to_bytes xs

abbrev pub request_header : ℕ
request_header = htonl (bit_or (3 * 2 ^ 24) (4 * 2 ^ 27))

-- The header, nine words of zeros, and the time of sending.
unfoldable pub sntp_message : NtpTimestamp → List ℕ
sntp_message nt = to_bytes (request_header ∷ (replicate 9 0 ++ nt.ntp_sec ∷ nt.ntp_fract ∷ []))

-- Word `i` of a message.
abbrev pub word_of : List ℕ → ℕ → ℕ
word_of msg i =
    let rest = drop (4 * i) msg in
    word32 (get_or rest 0 0) (get_or rest 1 0) (get_or rest 2 0) (get_or rest 3 0)

abbrev pub timestamp_of : List ℕ → ℕ → NtpTimestamp
timestamp_of msg i = record { ntp_sec = word_of msg i; ntp_fract = word_of msg (suc i) }

abbrev pub message_size : ℕ
message_size = 48

abbrev pub one_second : Timeval
one_second = record { sec = pos 1; usec = pos 0 }

module _ {W : Type 0} (net : Net W) where
  unfoldable pub sntp_request : ℤ → ℕ → W → ℤ × W
  sntp_request sock server w =
      let (now, w1) = net.clock_realtime w in
      let (sent, w2) = net.sendto sock (sntp_message (timespec_to_ntp now)) server (htons 123) w1 in
      ((if eqb_ℤ sent (pos message_size) then pos 0 else minus_one), w2)

  -- What is written to `*ts` comes second; `old` is what it holds.
  unfoldable pub sntp_reply : ℤ → Timespec → W → ℤ × Timespec × W
  sntp_reply sock old w =
      let (size, msg, w1) = net.recv sock message_size w in
      let hdr = ntohl (word_of msg 0) in
      let (t4, w2) = net.clock_realtime w1 in
      if not (eqb_ℤ size (pos message_size))
      then (minus_one, old, w1)
      else if not (bit_and hdr (7 * 2 ^ 24) / 2 ^ 24 == 4)
      then (minus_one, old, w1)
      else if not (bit_and hdr (7 * 2 ^ 27) / 2 ^ 27 == 4)
      then (minus_one, old, w1)
      else (
        pos 0,
        system_clock_estimate (ntp_to_timespec (timestamp_of msg 6))
            (ntp_to_timespec (timestamp_of msg 8)) (ntp_to_timespec (timestamp_of msg 10)) t4,
        w2,
      )

  abbrev pub or_close : ℤ → ℤ × W → (W → ℤ × W) → ℤ × W
  or_close sock (ret, w) next =
      if eqb_ℤ ret minus_one then (minus_one, net.close sock w) else next w

  unfoldable pub sntp_socket : W → ℤ × W
  sntp_socket w =
      let (sock, w1) = net.socket w in
      if ltb_ℤ sock (pos 0)
      then (sock, w1)
      else or_close sock (net.setsockopt sock (so_rcvtimeo one_second) w1)
          (λ w2. or_close sock (net.setsockopt sock (so_sndtimeo one_second) w2) (λ w3. (sock, w3)))

  abbrev pub reply_if_sent : ℤ → Timespec → ℤ × W → ℤ × Timespec × W
  reply_if_sent sock old (sent, w) =
      let (res, ts, w') = sntp_reply sock old w in
      if eqb_ℤ sent (pos 0) then (res, ts, net.close sock w') else (sent, old, net.close sock w)

  unfoldable pub sntp_gettime : ℕ → Timespec → W → ℤ × Timespec × W
  sntp_gettime server old w =
      let (sock, w1) = sntp_socket w in
      if ltb_ℤ sock (pos 0)
      then (minus_one, old, w1)
      else reply_if_sent sock old (sntp_request sock server w1)
