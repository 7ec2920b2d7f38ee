-- ===== src/File.antt =====
-- src/file.c and include/file.h: the table of file structures.
-- A function pointer is the address of the function, 0 for NULL. A pointer into `files` is the
-- index that it was made with, which may lie before the array: a read through it is then a fault.
pub mod Alloc
pub mod Free
use nucleo_tests.Base.{
  ℕ, zero, suc, ◌+◌, Option, none, some, Bool, true, false, List, ltb, leb, ◌==◌, if◌then◌else◌,
  get_elem?, set, not, ◌&&◌,
}
use nucleo_tests.Base.Int.{ℤ, pos, negsuc, minus_one}

abbrev pub open_max : ℕ
open_max = 20

-- Fields of `struct stat`; the size of a block, which only sockets set, is not among them.
pub record Stat : Type 0 where
  pub st_mode : ℕ
  pub st_size : ℕ

pub record Fd : Type 0 where
  pub fd : ℕ
  pub stat : Stat
  pub isatty : Bool
  pub isopen : Bool
  pub write : ℕ
  pub read : ℕ
  pub close : ℕ
  pub poll : ℕ
  pub isallocated : Bool
  pub descriptor_flags : ℤ
  pub status_flags : ℤ
  pub opaque : ℕ

-- `memset(&files[fd], 0, sizeof(files[fd]))`
abbrev pub zero_fd : Fd
zero_fd = record {
  fd = 0;
  stat = record { st_mode = 0; st_size = 0 };
  isatty = false;
  isopen = false;
  write = 0;
  read = 0;
  close = 0;
  poll = 0;
  isallocated = false;
  descriptor_flags = pos 0;
  status_flags = pos 0;
  opaque = 0;
}

abbrev pub Files : Type 0
Files = List Fd

-- `none` is NULL; `some fd` is `&files[fd]`.
unfoldable pub file_struct_get : ℤ → Option ℤ
file_struct_get (pos fd) = if leb open_max fd then none else some (pos fd)
file_struct_get (negsuc n) = some (negsuc n)

-- What `&files[fd]` points at: nothing, outside the array.
unfoldable pub deref : Files → ℤ → Option Fd
deref files (pos fd) = get_elem? files fd
deref files (negsuc n) = none

-- `files[fd].isallocated`
abbrev pub is_allocated : Files → ℕ → Bool
is_allocated files fd = elim (get_elem? files fd) [ some f ↦ f.isallocated | none ↦ false ]

abbrev pub fresh_fd : ℕ → Fd
fresh_fd fd = record zero_fd { fd = fd; isallocated = true }

-- The loop of `file_alloc`, with the rounds that are left.
unfoldable pub file_alloc_from : ℕ → ℕ → Files → ℤ × Files
file_alloc_from zero fd files = (minus_one, files)
file_alloc_from (suc rounds) fd files =
    let rest = file_alloc_from rounds (fd + 1) files in
    if not (is_allocated files fd) then (pos fd, set files fd (fresh_fd fd)) else rest

-- The descriptors below 3 are those of the standard streams.
unfoldable pub file_alloc : Files → ℤ × Files
unfolding file_alloc_from
file_alloc files = file_alloc_from 17 3 files

abbrev pub mark_free : Option Fd → ℕ → Files → Files
mark_free none fd files = files
mark_free (some f) fd files =
    if f.isallocated then set files fd (record f { isallocated = false }) else files

unfoldable pub file_free : Files → ℤ → Files
file_free files (pos fd) =
    if ltb fd open_max then mark_free (get_elem? files fd) fd files else files
file_free files (negsuc n) = files
