-- ===== src/User/Fd/Ops.antt =====
-- write, ftruncate, fstat and stat of lib/riscv/fd.c, which pass on to the device of a descriptor. What the
-- operations of a device do is a parameter; a null pointer is `none`. O_ACCMODE is the last two bits.
use zynex_os.Base.{ℕ, ◌%◌, ◌≡◌, refl, Option, none, some, List, [], true, ◌==◌, if◌then◌else◌}
use zynex_os.User.Fd.{Space, FdError, bad_fd, Result, fd_lookup, is_device, close}

-- What an operation answers: the device's result, the error of the descriptor, E_INVAL for the mode,
-- or E_NOT_SUPP.
pub data DeviceReply : Type 0 where
  done : Result → DeviceReply
  bad_descriptor : FdError → DeviceReply
  bad_mode : DeviceReply
  not_supported : DeviceReply

-- `struct Stat`, with the device that `st_dev` points to.
pub record Stat : Type 0 where
  pub st_name : List ℕ
  pub st_size : ℕ
  pub st_isdir : ℕ
  pub st_dev : ℕ

module _ (dev_write : ℕ → Option (Space → (p : ℕ) → List ℕ → Result × Space)) where
  pub write : Space → (fdnum : ℕ) → List ℕ → DeviceReply × Space
  write s fdnum buf = elim (fd_lookup s fdnum) [
    | none ↦ (bad_descriptor bad_fd, s)
    | some p ↦
        if is_device (s.fds p).dev_id
        then (if (s.fds p).omode % 4 == 0
            then (bad_mode, s)
            else elim (dev_write (s.fds p).dev_id) [
              | none ↦ (not_supported, s)
              | some op ↦ let (r, s') = op s p buf in (done r, s')
            ])
        else (bad_descriptor bad_fd, s)
  ]

module _ (dev_trunc : ℕ → Option (Space → (p newsize : ℕ) → Result × Space)) where
  pub ftruncate : Space → (fdnum newsize : ℕ) → DeviceReply × Space
  ftruncate s fdnum newsize = elim (fd_lookup s fdnum) [
    | none ↦ (bad_descriptor bad_fd, s)
    | some p ↦
        if is_device (s.fds p).dev_id
        then (if (s.fds p).omode % 4 == 0
            then (bad_mode, s)
            else elim (dev_trunc (s.fds p).dev_id) [
              | none ↦ (not_supported, s)
              | some op ↦ let (r, s') = op s p newsize in (done r, s')
            ])
        else (bad_descriptor bad_fd, s)
  ]

module _ (dev_stat : ℕ → Option (Space → (p : ℕ) → Stat → Result × Stat)) where
  pub fstat : Space → (fdnum : ℕ) → Stat → DeviceReply × Stat
  fstat s fdnum st = elim (fd_lookup s fdnum) [
    | none ↦ (bad_descriptor bad_fd, st)
    | some p ↦
        if is_device (s.fds p).dev_id
        then elim (dev_stat (s.fds p).dev_id) [
          | none ↦ (not_supported, st)
          | some op ↦
              let (r, st') =
                op s p
                  (record { st_name = []; st_size = 0; st_isdir = 0; st_dev = (s.fds p).dev_id }) in
              (done r, st')
        ]
        else (bad_descriptor bad_fd, st)
  ]

  -- `open_file` is open of lib/riscv/file.c, for reading.
  pub stat :
      (dev_close : ℕ → Space → ℕ → Result × Space)
      → (open_file : Space → List ℕ → Option ℕ × Space) → Space
      → List ℕ
      → Stat
      → Option DeviceReply × Stat × Space
  unfolding fstat
  stat dev_close open_file s path st =
      let (fd, s') = open_file s path in
      elim fd [
        | none ↦ (none, st, s')
        | some fdnum ↦
            let (r, st') = fstat s' fdnum st in (some r, st', (close dev_close s' fdnum).1)
      ]

-- Through a descriptor that is open for reading only, write and ftruncate answer E_INVAL and change
-- nothing, whatever the device would do.
pub write-read_only :
    (dev_write : ℕ → Option (Space → (p : ℕ) → List ℕ → Result × Space))
    (dev_trunc : ℕ → Option (Space → (p newsize : ℕ) → Result × Space)) (s : Space) (fdnum p n : ℕ)
    (buf : List ℕ)
    → fd_lookup s fdnum ≡ some p
    → is_device (s.fds p).dev_id ≡ true
    → (s.fds p).omode % 4 ≡ 0
    → (write dev_write s fdnum buf ≡ (bad_mode, s))
      × (ftruncate dev_trunc s fdnum n ≡ (bad_mode, s))
unfolding write ftruncate
write-read_only dev_write dev_trunc s fdnum p n buf e d mode =
    (rw (e, write) (rw (d, mode) refl), rw (e, ftruncate) (rw (d, mode) refl))
