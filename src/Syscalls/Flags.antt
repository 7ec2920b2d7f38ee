-- ===== src/Syscalls/Flags.antt =====
-- The flags of a descriptor, set and read back by `fcntl`.
use nucleo_tests.Base.{
  ℕ, ◌≡◌, refl, arith, some, false, length, get_elem?, leb, get_elem?-set_self, lt_of_get_elem?,
}
use nucleo_tests.Base.Run.{done}
use nucleo_tests.Base.Int.{ℤ, pos}
use nucleo_tests.File.{Fd, file_struct_get, deref, open_max}
use nucleo_tests.Syscalls.{Sys, f_getfd, f_setfd, f_getfl, f_setfl, fcntl, put_entry}

-- What F_SETFD or F_SETFL sets, F_GETFD or F_GETFL returns, and the flags of the other kind stay.
pub fcntl_set_get :
    {W : Type 0} (s : Sys W) (fd : ℕ) (arg : ℤ) (f : Fd)
    → length s.files ≡ open_max
    → get_elem? s.files fd ≡ some f
    → let s1 = put_entry (pos fd) (record f { descriptor_flags = arg }) s in
      let s2 = put_entry (pos fd) (record f { status_flags = arg }) s in
      (fcntl (pos fd) (f_setfd arg) s ≡ done (pos 0, tt, s1))
      × (fcntl (pos fd) f_getfd s1 ≡ done (arg, tt, s1))
      × (fcntl (pos fd) f_getfl s1 ≡ done (f.status_flags, tt, s1))
      × (fcntl (pos fd) (f_setfl arg) s ≡ done (pos 0, tt, s2))
      × (fcntl (pos fd) f_getfl s2 ≡ done (arg, tt, s2))
      × (fcntl (pos fd) f_getfd s2 ≡ done (f.descriptor_flags, tt, s2))
unfolding fcntl file_struct_get deref
fcntl_set_get s fd arg f size here =
    let l = lt_of_get_elem? s.files fd f here in
    let below : leb open_max fd ≡ false = ground (arith, l, size) in
    let e1 = get_elem?-set_self s.files fd (record f { descriptor_flags = arg }) l in
    let e2 = get_elem?-set_self s.files fd (record f { status_flags = arg }) l in
    (
      rw (below, here) refl,
      rw (below, e1) refl,
      rw (below, e1) refl,
      rw (below, here) refl,
      rw (below, e2) refl,
      rw (below, e2) refl,
    )
