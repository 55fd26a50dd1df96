-- ===== src/User/Pipe.antt =====
-- lib/riscv/pipe.c: the pipe's buffer, with devpipe_read and devpipe_write as they run in two
-- environments that the kernel interleaves. A step is one access of the shared `struct Pipe`; what
-- `_pipeisclosed` answers is chosen by the environment of the model at each wait.
-- The positions are `off_t`, 32 bits: a pipe carries fewer than `2 ^ 31` bytes in its life.
pub mod Queue
pub mod Stream
pub mod Read
mod Tests
use zynex_os.Base.{
  ℕ, zero, suc, ◌+◌, ◌-◌, ◌%◌, ◌<◌, ◌≤◌, ◌≡◌, Bool, true, false, Option, none, some, List, [], ◌∷◌,
  ◌++◌, ltb, leb, ◌==◌, if◌then◌else◌,
}

abbrev pub pipebufsiz : ℕ
pipebufsiz = 32

pub record Pipe : Type 0 where
  pub rpos : ℕ
  pub wpos : ℕ
  pub buf : ℕ → ℕ

-- Where `devpipe_read` of `n` bytes stands, with `i` bytes read: at the test of its inner loop,
-- before `buf[i] = …`, before `p->p_rpos++`, or returned.
pub data Reader : Type 0 where
  looking : (n i : ℕ) → Reader
  taking : (n i : ℕ) → Reader
  advancing : (n i : ℕ) → Reader
  returned : ℕ → Reader

-- Where `devpipe_write` stands, with `i` bytes written and the bytes that are left.
pub data Writer : Type 0 where
  checking : (i : ℕ) → List ℕ → Writer
  storing : (i x : ℕ) → List ℕ → Writer
  publishing : (i x : ℕ) → List ℕ → Writer
  finished : ℕ → Writer

-- A reader and a writer of one pipe. `got` is what all reads have put into their buffers, `sent`
-- what all writes have counted.
pub record System : Type 0 where
  pub pipe : Pipe
  pub reader : Reader
  pub got : List ℕ
  pub writer : Writer
  pub sent : List ℕ

-- One access of `devpipe_read`; `closed` is the answer of `_pipeisclosed`.
pub look : (closed : Bool) → Pipe → (n i : ℕ) → Reader
look closed p n i =
    if leb n i
    then returned i
    else if p.rpos == p.wpos
    then if ltb 0 i then returned i else if closed then returned 0 else looking n i
    else taking n i

pub read_at : (closed : Bool) → Reader → System → System
unfolding look
read_at closed (looking n i) s = record s { reader = look closed s.pipe n i }
read_at closed (taking n i) s = record s {
  reader = advancing n i;
  got = s.got ++ s.pipe.buf (s.pipe.rpos % pipebufsiz) ∷ [];
}
read_at closed (advancing n i) s = record s {
  reader = looking n (suc i);
  pipe = record (s.pipe) { rpos = suc s.pipe.rpos };
}
read_at closed (returned r) s = s

pub read_step : (closed : Bool) → System → System
unfolding read_at
read_step closed s = read_at closed s.reader s

-- One access of `devpipe_write`.
pub write_at : (closed : Bool) → Writer → System → System
write_at closed (checking i []) s = record s { writer = finished i }
write_at closed (checking i (x ∷ xs)) s =
    if leb (s.pipe.rpos + pipebufsiz) s.pipe.wpos
    then (if closed then record s { writer = finished 0 } else s)
    else record s { writer = storing i x xs }
write_at closed (storing i x xs) s = record s {
  writer = publishing i x xs;
  pipe = record (s.pipe) { buf = λ k. if k == s.pipe.wpos % pipebufsiz then x else s.pipe.buf k };
}
write_at closed (publishing i x xs) s = record s {
  writer = checking (suc i) xs;
  pipe = record (s.pipe) { wpos = suc s.pipe.wpos };
  sent = s.sent ++ x ∷ [];
}
write_at closed (finished r) s = s

pub write_step : (closed : Bool) → System → System
unfolding write_at
write_step closed s = write_at closed s.writer s

-- The kernel runs the two in any order; one that has returned may call again.
pub data Step (s : System) : System → Type 0 where
  read : (closed : Bool) → Step s (read_step closed s)
  write : (closed : Bool) → Step s (write_step closed s)
  call_read : (r n : ℕ) → s.reader ≡ returned r → Step s (record s { reader = looking n 0 })
  call_write :
      (r : ℕ) (bytes : List ℕ)
      → s.writer ≡ finished r
      → Step s (record s { writer = checking 0 bytes })

-- A pipe as `pipe` makes it, on a zeroed page.
abbrev pub new_pipe : System
new_pipe = record {
  pipe = record { rpos = 0; wpos = 0; buf = λ _. 0 };
  reader = returned 0;
  got = [];
  writer = finished 0;
  sent = [];
}

pub data Reach : System → Type 0 where
  start : Reach new_pipe
  later : {s t : System} → Reach s → Step s t → Reach t
