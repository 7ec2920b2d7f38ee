-- ===== src/Syscalls.antt =====
-- src/syscalls.c and src/fcntl.c: the calls on a descriptor, and the program break.
-- A call through a null structure pointer is refused; one before the table is a `fault`.
pub mod Bad
pub mod Close
pub mod Flags
pub mod Break
use nucleo_tests.Base.{
  ℕ, zero, Bool, true, false, not, Option, none, some, List, set, ◌==◌, if◌then◌else◌,
}
use nucleo_tests.Base.Run.{Run, done, fault}
use nucleo_tests.Base.Int.{ℤ, pos, negsuc, ◌+ℤ◌, leb_ℤ, minus_one}
use nucleo_tests.File.{Files, Fd, Stat, file_struct_get, deref}

pub data Errno : Type 0 where
  ebadf enotty epipe einval enosys enomem : Errno
  other : ℕ → Errno

pub record Sys (W : Type 0) : Type 0 where
  pub files : Files
  pub errno : Errno
  pub world : W

-- The drivers behind the function pointers, called by address; the toolchain's file type tests; and
-- `fatfs_lseek`, which is the weak one of src/syscalls.c or that of src/fatfs.c, by what is linked.
pub record Env (W : Type 0) : Type 0 where
  pub write : ℕ → ℤ → ℕ → ℤ → Sys W → ℤ × Sys W
  pub read : ℕ → ℤ → ℕ → ℤ → Sys W → ℤ × Sys W
  pub close : ℕ → ℤ → Sys W → ℤ × Sys W
  pub fatfs_lseek : ℤ → ℤ → ℤ → Sys W → ℤ × Sys W
  pub s_issock : ℕ → Bool
  pub s_isreg : ℕ → Bool

abbrev pub fail {ℓ} : {W : Type 0} {A : Type ℓ} → ℤ → A → Errno → Sys W → Run (ℤ × A × Sys W)
fail ret nothing e s = done (ret, nothing, record s { errno = e })

abbrev pub lift_call : {W : Type 0} → ℤ × Sys W → Run (ℤ × Unit {0} × Sys W)
lift_call (ret, s) = done (ret, tt, s)

-- `f = file_struct_get(fd)` and what `f` points at, handed to the rest of the call.
abbrev pub with_entry {ℓ} :
    {W : Type 0} {A : Type ℓ} → A → Option Fd → (Fd → Run (ℤ × A × Sys W)) → Run (ℤ × A × Sys W)
with_entry nothing none k = fault
with_entry nothing (some f) k = k f

abbrev pub with_pointer {ℓ} :
    {W : Type 0} {A : Type ℓ}
    → A
    → Option ℤ
    → Sys W
    → (Fd → Run (ℤ × A × Sys W))
    → Run (ℤ × A × Sys W)
with_pointer nothing none s k = fail minus_one nothing ebadf s
with_pointer nothing (some i) s k = with_entry nothing (deref s.files i) k

-- The guard of most calls: there is a structure, and it is open.
abbrev pub with_open {ℓ} :
    {W : Type 0} {A : Type ℓ} → A → ℤ → Sys W → (Fd → Run (ℤ × A × Sys W)) → Run (ℤ × A × Sys W)
with_open nothing fd s k =
    with_pointer nothing (file_struct_get fd) s
      (λ f. if not f.isopen then fail minus_one nothing ebadf s else k f)

-- An update of the entry of a descriptor that has one.
abbrev pub put_entry : {W : Type 0} → ℤ → Fd → Sys W → Sys W
put_entry (pos fd) f s = record s { files = set s.files fd f }
put_entry (negsuc _) f s = s

module _ {W : Type 0} (env : Env W) where
  unfoldable pub sys_write : ℤ → ℕ → ℤ → Sys W → Run (ℤ × Unit {0} × Sys W)
  sys_write fd ptr len s = with_open tt fd s (λ f.
      if f.write == 0
      then fail minus_one tt ebadf s
      else lift_call (env.write f.write fd ptr len s))

  unfoldable pub sys_read : ℤ → ℕ → ℤ → Sys W → Run (ℤ × Unit {0} × Sys W)
  sys_read fd ptr len s = with_open tt fd s (λ f.
      if f.read == 0 then fail minus_one tt ebadf s else lift_call (env.read f.read fd ptr len s))

  -- Without a function of its own a file is only marked closed.
  unfoldable pub sys_close : ℤ → Sys W → Run (ℤ × Unit {0} × Sys W)
  sys_close fd s = with_open tt fd s (λ f.
      if not (f.close == 0)
      then lift_call (env.close f.close fd s)
      else done (pos 0, tt, put_entry fd (record f { isopen = false }) s))

  -- What is written to `*buf` comes second.
  unfoldable pub sys_fstat : ℤ → Sys W → Run (ℤ × Option Stat × Sys W)
  sys_fstat fd s = with_open none fd s (λ f. done (pos 0, some f.stat, s))

  unfoldable pub sys_isatty : ℤ → Sys W → Run (ℤ × Unit {0} × Sys W)
  sys_isatty fd s =
      with_open tt fd s (λ f. if f.isatty then done (pos 1, tt, s) else fail (pos 0) tt enotty s)

  unfoldable pub sys_lseek : ℤ → ℤ → ℤ → Sys W → Run (ℤ × Unit {0} × Sys W)
  sys_lseek fd offset whence s = with_open tt fd s (λ f.
      if env.s_issock f.stat.st_mode
      then fail minus_one tt epipe s
      else (if env.s_isreg f.stat.st_mode
          then lift_call (env.fatfs_lseek fd offset whence s)
          else fail minus_one tt einval s))

-- `fcntl` with its argument; it does not ask whether the file is open.
pub data Cmd : Type 0 where
  f_getfd f_getfl : Cmd
  f_setfd f_setfl : ℤ → Cmd
  other : ℤ → Cmd

abbrev pub run_cmd : {W : Type 0} → ℤ → Cmd → Sys W → Fd → Run (ℤ × Unit {0} × Sys W)
run_cmd fd f_getfd s f = done (f.descriptor_flags, tt, s)
run_cmd fd (f_setfd arg) s f =
    done (pos 0, tt, put_entry fd (record f { descriptor_flags = arg }) s)
run_cmd fd (f_setfl arg) s f = done (pos 0, tt, put_entry fd (record f { status_flags = arg }) s)
run_cmd fd f_getfl s f = done (f.status_flags, tt, s)
run_cmd fd (other _) s f = fail minus_one tt enosys s

unfoldable pub fcntl : {W : Type 0} → ℤ → Cmd → Sys W → Run (ℤ × Unit {0} × Sys W)
fcntl fd cmd s = with_pointer tt (file_struct_get fd) s (run_cmd fd cmd s)

-- The weak `fatfs_lseek`.
unfoldable pub weak_fatfs_lseek : {W : Type 0} → ℤ → ℤ → ℤ → Sys W → ℤ × Sys W
weak_fatfs_lseek fd offset whence s = (minus_one, record s { errno = enosys })

-- Addresses are integers; the result `none` is `(void *)-1`, with `errno` set to `ENOMEM`.
unfoldable pub sbrk : ℤ → ℤ → ℤ → Option ℤ × ℤ
sbrk max_break program_break incr =
    if leb_ℤ max_break (program_break +ℤ incr)
    then (none, program_break)
    else (some program_break, program_break +ℤ incr)
