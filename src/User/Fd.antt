-- ===== src/User/Fd.antt =====
-- lib/riscv/fd.c: file descriptors as pages of an environment's memory.
-- `maps` says which page of physical memory is mapped at each page number; `fds` is what the pages
-- hold as `struct Fd`s. Permissions of mappings are left out. Descriptor numbers are not negative.
-- Whether sys_page_map has memory for a table is an argument, and so is what a device does on close.
pub mod Io
pub mod Ops
pub mod Dup
mod Tests
use zynex_os.Base.{
  ℕ, zero, suc, ◌+◌, Option, none, some, ltb, leb, ◌==◌, ◌||◌, if◌then◌else◌, Bool, true, false,
  is_some,
}

pub record Fd : Type 0 where
  pub dev_id : ℕ
  pub offset : ℕ
  pub omode : ℕ
  pub id : ℕ

pub record Space : Type 0 where
  pub maps : ℕ → Option ℕ
  pub fds : ℕ → Fd

abbrev pub maxfd : ℕ
maxfd = 32

-- The page numbers of `INDEX2FD(i)` and `INDEX2DATA(i)`: the data pages follow the table.
abbrev pub fd_page : ℕ → ℕ
fd_page i = 0xD0000 + i

abbrev pub data_page : ℕ → ℕ
data_page i = 0xD0000 + maxfd + i

abbrev pub set_map : Space → ℕ → Option ℕ → Space
set_map s va p = record s { maps = λ v. if v == va then p else s.maps v }

pub data FdError : Type 0 where
  max_open bad_fd no_mem device : FdError

pub data Result : Type 0 where
  ok : ℕ → Result
  failed : FdError → Result

-- The loop of fd_alloc, `n` descriptors from `i` on.
pub fd_alloc_from : ℕ → Space → ℕ → Option ℕ
fd_alloc_from zero s i = none
fd_alloc_from (suc n) s i =
    let rest = fd_alloc_from n s (suc i) in if is_some (s.maps (fd_page i)) then rest else some i

pub fd_alloc : Space → Option ℕ
unfolding fd_alloc_from
fd_alloc s = fd_alloc_from maxfd s 0

-- The page of the `struct Fd`, if the descriptor is open.
pub fd_lookup : Space → (fdnum : ℕ) → Option ℕ
fd_lookup s fdnum = if leb maxfd fdnum then none else s.maps (fd_page fdnum)

-- `sys_page_map(0, from, 0, to, ...)` within the environment
abbrev pub map_within : (room : Bool) → Space → (from to : ℕ) → Result × Space
map_within room s from to = elim (s.maps from) [
  | none ↦ (failed bad_fd, s)
  | some p ↦ if room then (ok 0, set_map s to (some p)) else (failed no_mem, s)
]

pub seek : Space → (fdnum offset : ℕ) → Result × Space
unfolding fd_lookup
seek s fdnum offset = elim (fd_lookup s fdnum) [
  | none ↦ (failed bad_fd, s)
  | some p ↦ (
    ok 0,
    record s { fds = λ q. if q == p then record (s.fds q) { offset = offset } else s.fds q },
  )
]

-- The label `err`.
abbrev pub undo : Space → (newfdnum : ℕ) → FdError → Result × Space
undo s new e = (failed e, set_map (set_map s (fd_page new) none) (data_page new) none)

-- The Fd page, after the data page.
abbrev pub map_fd : (room : Bool) → (old new : ℕ) → Result × Space → Result × Space
map_fd room old new (failed e, s) = undo s new e
map_fd room old new (ok _, s) =
    let (r, s') = map_within room s (fd_page old) (fd_page new) in
    elim r [ failed e ↦ undo s' new e | ok _ ↦ (ok new, s') ]

abbrev pub map_data : (room : Bool) → (old new : ℕ) → Space → Result × Space
map_data room old new s =
    if is_some (s.maps (data_page old))
    then map_within room s (data_page old) (data_page new)
    else (ok 0, s)

-- The letters of devfile, devsock, devpipe and devcons.
abbrev pub is_device : ℕ → Bool
is_device d = d == 102 || (d == 115 || (d == 112 || d == 99))

-- `dev_close d s fdnum` is `(*dev->dev_close)(fd)` of the device `d`.
module _ (dev_close : ℕ → Space → ℕ → Result × Space) where
  -- For a descriptor that `fd_lookup` has found, on the page `p`; the Fd page is unmapped last.
  pub fd_close : Space → (fdnum p : ℕ) → Result × Space
  fd_close s fdnum p =
      let (r, s') =
        if is_device (s.fds p).dev_id
        then dev_close (s.fds p).dev_id s fdnum
        else (failed bad_fd, s) in
      (r, set_map s' (fd_page fdnum) none)

  pub close : Space → (fdnum : ℕ) → Result × Space
  unfolding fd_lookup fd_close
  close s fdnum = elim (fd_lookup s fdnum) [
    | none ↦ (failed bad_fd, s)
    | some p ↦ fd_close s fdnum p
  ]

  pub close_from : ℕ → Space → ℕ → Space
  unfolding close
  close_from zero s i = s
  close_from (suc n) s i = close_from n (close s i).1 (suc i)

  pub close_all : Space → Space
  unfolding close_from
  close_all s = close_from maxfd s 0

  -- `room_data` and `room_fd`: whether the two calls of sys_page_map have memory.
  pub dup : (room_data room_fd : Bool) → Space → (old new : ℕ) → Result × Space
  unfolding fd_lookup close
  dup room_data room_fd s old new = elim (fd_lookup s old) [
    | none ↦ (failed bad_fd, s)
    | some p ↦ map_fd room_fd old new (map_data room_data old new (close s new).1)
  ]
