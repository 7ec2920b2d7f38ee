-- ===== src/Syscalls/Bad.antt =====
-- Descriptors that are not open.
use nucleo_tests.Base.{
  ℕ, ◌≤◌, ◌≡◌, ◌⊎◌, inl, inr, arith, true, false, none, some, length, get_elem?, leb,
  lt_of_get_elem?,
}
use nucleo_tests.Base.Run.{Run}
use nucleo_tests.Base.Int.{ℤ, pos, minus_one}
use nucleo_tests.File.{Fd, Files, file_struct_get, deref, open_max}
use nucleo_tests.Syscalls.{
  Sys, Env, ebadf, with_open, fail, sys_write, sys_read, sys_close, sys_fstat, sys_isatty,
  sys_lseek,
}

-- No such descriptor, or one whose file is not open.
abbrev pub IsBad : Files → ℕ → Type 0
IsBad files fd = (open_max ≤ fd) ⊎ ((f : Fd) × (get_elem? files fd ≡ some f) × (f.isopen ≡ false))

pub with_open_bad {ℓ} :
    {W : Type 0} {A : Type ℓ} (nothing : A) (fd : ℕ) (s : Sys W) (k : Fd → Run (ℤ × A × Sys W))
    → length s.files ≡ open_max
    → IsBad s.files fd
    → with_open nothing (pos fd) s k ≡ fail minus_one nothing ebadf s
unfolding file_struct_get deref
with_open_bad nothing fd s k len (inl beyond) =
    let e : leb open_max fd ≡ true = ground arith in rw e
with_open_bad nothing fd s k len (inr (f, here, closed)) =
    let l = lt_of_get_elem? s.files fd f here in
    let e : leb open_max fd ≡ false = ground (arith, l, len) in rw (e, here, closed)

module _ {W : Type 0} (env : Env W) (s : Sys W) (ptr : ℕ) (len offset whence : ℤ) where
  -- On a descriptor that is not negative and whose file is not open, each of the six calls returns
  -- -1 with `EBADF` and does nothing else.
  closed_calls_fail :
      (fd : ℕ)
      → length s.files ≡ open_max
      → IsBad s.files fd
      → (sys_write env (pos fd) ptr len s ≡ fail minus_one tt ebadf s)
        × (sys_read env (pos fd) ptr len s ≡ fail minus_one tt ebadf s)
        × (sys_close env (pos fd) s ≡ fail minus_one tt ebadf s)
        × (sys_fstat env (pos fd) s ≡ fail minus_one none ebadf s)
        × (sys_isatty env (pos fd) s ≡ fail minus_one tt ebadf s)
        × (sys_lseek env (pos fd) offset whence s ≡ fail minus_one tt ebadf s)
  unfolding sys_write sys_read sys_close sys_fstat sys_isatty sys_lseek
  closed_calls_fail fd l b = (
    with_open_bad tt fd s _ l b,
    with_open_bad tt fd s _ l b,
    with_open_bad tt fd s _ l b,
    with_open_bad none fd s _ l b,
    with_open_bad tt fd s _ l b,
    with_open_bad tt fd s _ l b,
  )
