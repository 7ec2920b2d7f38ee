-- ===== src/Tests/Tables.antt =====
-- A table of files with one descriptor in use.
use nucleo_tests.Base.{◌≡◌, refl, replicate, set}
use nucleo_tests.Base.Int.{pos}
use nucleo_tests.File.{Files, zero_fd, fresh_fd, file_alloc, open_max}
use nucleo_tests.File.Alloc.{Outcome, file_alloc-Outcome}

abbrev files : Files
files = set (replicate 20 zero_fd) 3 (fresh_fd 3)

alloc_skips_three : (file_alloc files).0 ≡ pos 4
unfolding file_alloc
alloc_skips_three = refl

file_alloc-Outcome_example : Outcome files 3 open_max (file_alloc files)
file_alloc-Outcome_example = file_alloc-Outcome files
