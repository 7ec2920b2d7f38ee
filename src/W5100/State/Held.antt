-- ===== src/W5100/State/Held.antt =====
-- A descriptor that belongs to a socket, and the calls on it.
use nucleo_tests.Base.{ℕ, suc, ◌-◌, ◌<◌, ◌≡◌, refl, arith, true, false, some, get_elem?, leb, ◌==◌}
use nucleo_tests.Base.Run.{Run, ◌>>=◌}
use nucleo_tests.Base.Int.{pos}
use nucleo_tests.File.{Fd, file_struct_get, deref, open_max}
use nucleo_tests.W5100.State.{
  Socket, Layer, Driver, After, with_socket, put_back, get_socket_from_fd, get_socket_from_isocket,
}

-- Entry `fd` of the file table is `f`, whose `opaque` points at socket `i`, which is `s`.
pub record IsHeld {W : Type 0} (drv : Driver W) (t : Layer W) (fd : ℕ) (f : Fd) (i : ℕ) (s : Socket)
    : Type 0 where
  pub in_range : fd < open_max
  pub entry : get_elem? t.files fd ≡ some f
  pub is_socket : drv.s_issock f.stat.st_mode ≡ true
  pub points : f.opaque ≡ suc i
  pub structure : get_elem? t.sockets i ≡ some s

pub with_socket-IsHeld :
    {W A : Type 0} {drv : Driver W} {t : Layer W} {fd : ℕ} {f : Fd} {i : ℕ} {s : Socket}
    (nothing : A) (k : Socket → Layer W → Run (After W A))
    → IsHeld drv t fd f i s
    → with_socket drv nothing (pos fd) k t ≡ (k s t >>= put_back i)
unfolding get_socket_from_fd get_socket_from_isocket file_struct_get deref
with_socket-IsHeld {drv} {t} {fd} {f} {i} {s} nothing k h =
    let below : leb open_max fd ≡ false = ground (arith, h.in_range) in
    let not_null : (suc i == 0) ≡ false = ground arith in
    let index : suc i - 1 ≡ i = omega arith in
    rw (below, h.entry, h.is_socket, h.points, not_null) (rw (index, h.structure) refl)
