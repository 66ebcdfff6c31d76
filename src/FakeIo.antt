-- ===== src/FakeIo.antt =====
-- packages/mirage-platform/runtime/ocaml/fake_io.c: the files of the run-time, which the kernel does
-- not have. Each stub prints its name and fails.
use mirage_kfreebsd.Base.{ℕ, List}
use mirage_kfreebsd.Base.Int.{ℤ, negsuc}

unfoldable pub open_file : List ℕ → ℕ → ℤ
open_file path flags = negsuc 0

unfoldable pub close : ℕ → ℤ
close fd = negsuc 0

unfoldable pub stat : List ℕ → ℕ → ℤ
stat path sb = negsuc 0

unfoldable pub fcntl : ℕ → ℕ → ℤ
fcntl fd cmd = negsuc 0

unfoldable pub unlink : List ℕ → ℤ
unlink rpath = negsuc 0

unfoldable pub rename : List ℕ → List ℕ → ℤ
rename from to = negsuc 0

-- NULL.
unfoldable pub getwd : ℕ → ℕ
getwd buf = 0

unfoldable pub system : List ℕ → ℤ
system string = negsuc 0

unfoldable pub chdir : List ℕ → ℤ
chdir path = negsuc 0
