-- ===== src/Syscalls/Close.antt =====
-- Closing a file that has no function of its own for it.
use nucleo_tests.Base.{
  ℕ, ◌≡◌, ◌≢◌, inr, refl, arith, true, false, some, length, get_elem?, leb, get_elem?-set_self,
  get_elem?-set_ne, length-set, lt_of_get_elem?,
}
use nucleo_tests.Base.Run.{done}
use nucleo_tests.Base.Int.{ℤ, pos, minus_one}
use nucleo_tests.File.{Fd, file_struct_get, deref, open_max}
use nucleo_tests.Syscalls.{Sys, Env, ebadf, fail, put_entry, sys_write, sys_read, sys_close}
use nucleo_tests.Syscalls.Bad.{IsBad, with_open_bad}

-- Closing an open file without a close function succeeds, and from then on reads and writes through
-- the descriptor and a second close fail with `EBADF`; the entry stays allocated, and every other
-- entry is unchanged.
pub sys_close_then :
    {W : Type 0} (env : Env W) (s : Sys W) (fd ptr : ℕ) (len : ℤ) (f : Fd)
    → length s.files ≡ open_max
    → get_elem? s.files fd ≡ some f
    → f.isopen ≡ true
    → f.close ≡ 0
    → (s' : Sys W) × (sys_close env (pos fd) s ≡ done (pos 0, tt, s'))
      × (sys_write env (pos fd) ptr len s' ≡ fail minus_one tt ebadf s')
      × (sys_read env (pos fd) ptr len s' ≡ fail minus_one tt ebadf s')
      × (sys_close env (pos fd) s' ≡ fail minus_one tt ebadf s')
      × (get_elem? s'.files fd ≡ some (record f { isopen = false }))
      × ((j : ℕ) → fd ≢ j → get_elem? s'.files j ≡ get_elem? s.files j)
unfolding sys_close sys_write sys_read file_struct_get deref
sys_close_then env s fd ptr len f size here is_open no_close =
    let l = lt_of_get_elem? s.files fd f here in
    let shut = record f { isopen = false } in
    let s' : Sys _ = put_entry (pos fd) shut s in
    let size' : length s'.files ≡ open_max = omega (arith, length-set s.files fd shut) in
    let there = get_elem?-set_self s.files fd shut l in
    let bad : IsBad s'.files fd = inr (shut, there, refl) in
    let below : leb open_max fd ≡ false = ground (arith, l, size) in
    (
      s',
      rw (below, here, is_open, no_close) refl,
      with_open_bad tt fd s' _ size' bad,
      with_open_bad tt fd s' _ size' bad,
      with_open_bad tt fd s' _ size' bad,
      there,
      λ j ne. get_elem?-set_ne s.files shut ne,
    )
