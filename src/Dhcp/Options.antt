-- ===== src/Dhcp/Options.antt =====
-- src/dhcp_client.c: the options of a message, parsed and checked.
-- `bytes` is the message buffer from `p_options` on, and `left` is `p_end - p_options`, or 0 where
-- the pointer has passed the end. A read past the buffer is a `fault`.
pub mod Meaning
pub mod Overrun
pub mod Ending
use nucleo_tests.Base.{
  ℕ, zero, suc, ◌-◌, ◌/◌, ◌%◌, Bool, true, false, not, ◌||◌, List, [], ◌∷◌, drop, leb, ◌==◌,
  if◌then◌else◌,
}
use nucleo_tests.Base.Bytes.{word32}
use nucleo_tests.Base.Run.{Run, done, fault, more, ◌>>=◌}
use nucleo_tests.Base.Int.{ℤ, pos, eqb_ℤ}
use nucleo_tests.Timespec.{
  Timespec, timespec_add, timespec_diff, timespec_zero, timespec_infinity, int_max,
}
use nucleo_tests.Socket.{Net}
use nucleo_tests.Inet.{ntohl}
use nucleo_tests.Dhcp.State.{Binding, enoserverid, enogateway, enosubnet}

abbrev pub opt_pad : ℕ
opt_pad = 0

abbrev pub opt_end : ℕ
opt_end = 255

abbrev pub opt_subnet : ℕ
opt_subnet = 1

abbrev pub opt_router : ℕ
opt_router = 3

abbrev pub opt_domain_name_server : ℕ
opt_domain_name_server = 6

abbrev pub opt_ip_address_lease_time : ℕ
opt_ip_address_lease_time = 51

abbrev pub opt_dhcp_message_type : ℕ
opt_dhcp_message_type = 53

abbrev pub opt_server_identifier : ℕ
opt_server_identifier = 54

-- What the parser writes: `*type`, `*binding` and `len_error`.
pub record Parsed : Type 0 where
  pub type : ℕ
  pub options : Binding
  pub len_error : Bool

abbrev pub read8 : List ℕ → Run ℕ
read8 [] = fault
read8 (a ∷ _) = done a

abbrev pub read32 : List ℕ → Run ℕ
read32 (a ∷ b ∷ c ∷ d ∷ _) = done (word32 a b c d)
read32 _ = fault

abbrev pub bad_len : Bool → Parsed → Parsed
bad_len bad r = record r { len_error = r.len_error || bad }

module _ {W : Type 0} (net : Net W) where
  -- The two lease times, for a lease in seconds.
  unfoldable pub set_lease : ℕ → Parsed → W → Parsed × W
  set_lease lease r w =
      if leb int_max lease
      then (
        record r {
          options = record r.options { lease_t1 = timespec_infinity; lease_t2 = timespec_infinity };
        },
        w,
      )
      else (let t1 : Timespec = record { sec = pos (lease / 2); nsec = pos 0 } in
          let t2 : Timespec = record { sec = pos (lease - lease / 8); nsec = pos 0 } in
          let (now, w') = net.clock_realtime w in
          (
            record r {
              options = record r.options {
                lease_t1 = timespec_add now t1;
                lease_t2 = timespec_add now t2;
              };
            },
            w',
          ))

  -- The `switch` on the option, whose value starts `value`.
  unfoldable pub store_option : ℕ → ℕ → List ℕ → Parsed → W → Run (Parsed × W)
  store_option option len value r w =
      let bad4 = bad_len (not (len == 4)) r in
      if option == opt_dhcp_message_type
      then (read8 value >>= λ v. done (record (bad_len (not (len == 1)) r) { type = v }, w))
      else if option == opt_server_identifier
      then (read32 value >>= λ v.
          done (record bad4 { options = record r.options { dhcp_server = v } }, w))
      else if option == opt_ip_address_lease_time
      then (read32 value >>= λ v. done (set_lease (ntohl v) bad4 w))
      else if option == opt_subnet
      then (read32 value >>= λ v.
          done (record bad4 { options = record r.options { subnet = v } }, w))
      else if option == opt_router
      then (read32 value >>= λ v.
          done (record bad4 { options = record r.options { gateway = v } }, w))
      else if option == opt_domain_name_server
      then (read32 value >>= λ v. done (
        record (bad_len (not (len % 4 == 0)) r) { options = record r.options { dns_server = v } },
        w,
      ))
      else done (r, w)

  -- An option that is not the end: where the next one starts, and what it wrote.
  abbrev pub with_len : ℕ → List ℕ → ℕ → Parsed → W → Run (List ℕ × ℕ × Parsed × W)
  with_len option [] left r w = fault
  with_len option (len ∷ value) left r w =
      store_option option len value r w >>= λ s. done (drop len value, left - 1 - len, s.0, s.1)

  abbrev pub parse_one : ℕ → List ℕ → ℕ → Parsed → W → Run (List ℕ × ℕ × Parsed × W)
  parse_one option bytes left r w =
      if option == opt_pad then done (bytes, left, r, w) else with_len option bytes left r w

  -- The loop, with rounds.
  unfoldable pub parse_from : ℕ → List ℕ → ℕ → Parsed → W → Run (Parsed × W)
  parse_from zero bytes left r w = more
  parse_from (suc rounds) bytes zero r w = done (r, w)
  parse_from (suc rounds) [] (suc left) r w = fault
  parse_from (suc rounds) (option ∷ bytes) (suc left) r w =
      if option == opt_end
      then done (r, w)
      else (parse_one option bytes left r w >>= λ s. parse_from rounds s.0 s.1 s.2 s.3)

  -- A round for each byte, and one to find the end.
  unfoldable pub dhcp_parse_options : List ℕ → ℕ → Parsed → W → Run (Parsed × W)
  dhcp_parse_options bytes options_size r w = parse_from (suc options_size) bytes options_size r w

-- The value returned, and the options with the lease times that are not given.
abbrev pub default_lease : Timespec → Timespec
default_lease t = if eqb_ℤ (timespec_diff timespec_zero t) (pos 0) then timespec_infinity else t

unfoldable pub dhcp_check_options : Binding → ℤ × Binding
dhcp_check_options options =
    if options.dhcp_server == 0
    then (enoserverid, options)
    else if options.gateway == 0
    then (enogateway, options)
    else if options.subnet == 0
    then (enosubnet, options)
    else (
      pos 0,
      record options {
        lease_t1 = default_lease options.lease_t1;
        lease_t2 = default_lease options.lease_t2;
      },
    )
