-- ===== src/User/Fd/Tests.antt =====
-- dup and readn of lib/riscv/fd.c with one open descriptor.
use zynex_os.Base.{
  ℕ, zero, suc, Option, none, some, [], ◌∷◌, ◌≡◌, refl, true, arith, ◌==◌, if◌then◌else◌,
}
use zynex_os.User.Fd.{Space, Result, ok, fd_page, fd_lookup, seek, dup}
use zynex_os.User.Fd.Io.{Read, got, readn, Answer, readn-Answer}
use zynex_os.User.Fd.Dup.{dup-seek}

-- Descriptor 0 is open, on page 7.
abbrev small : Space
small = record {
  maps = λ v. if v == fd_page 0 then some 7 else none;
  fds = λ p. record { dev_id = 102; offset = 3; omode = 0; id = 1 };
}

-- A device that has nothing to do on close.
abbrev dev_close : ℕ → Space → ℕ → Result × Space
dev_close d s i = (ok 0, s)

dup-seek_example :
    (t u : Space) × (dup dev_close true true small 0 4 ≡ (ok 4, t))
    × (fd_lookup t 4 ≡ some 7)
    × (fd_lookup t 0 ≡ some 7)
    × (fd_lookup t 1 ≡ fd_lookup small 1)
    × (seek t 4 100 ≡ (ok 0, u))
    × ((u.fds 7).offset ≡ 100)
    × (fd_lookup u 0 ≡ some 7)
dup-seek_example =
    dup-seek dev_close small 0 4 1 7 100 (omega arith) (omega arith) (omega arith) (omega arith)
      refl refl

-- A device that gives one byte on each call, as often as its offset says.
abbrev lower : Space → ℕ → Space
lower s k = record s { fds = λ q. if q == 7 then record (s.fds q) { offset = k } else s.fds q }

abbrev give : ℕ → Space → Read × Space
give zero s = (got [], s)
give (suc k) s = (got (5 ∷ []), lower s k)

abbrev device_read : ℕ → Option (Space → (p n : ℕ) → Read × Space)
device_read d = some (λ s p n. give (s.fds 7).offset s)

readn-Answer_example : Answer device_read 0 0 small 2 (readn device_read small 0 2)
readn-Answer_example = readn-Answer device_read 0 small 2
