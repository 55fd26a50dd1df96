-- ===== src/User/Pipe/Tests.antt =====
-- The pipe of lib/riscv/pipe.c with a write of two bytes, which a read overtakes.
use zynex_os.Base.{◌+◌, refl, false, [], ◌∷◌, ◌≡◌, ◌≤◌, ◌++◌, arith, length, take}
use zynex_os.User.Pipe.{
  pipebufsiz, looking, returned, checking, System, write_at, write_step, write, call_read,
  call_write, new_pipe, Reach, start, later,
}
use zynex_os.User.Pipe.Queue.{window, queue_of, queued}
use zynex_os.User.Pipe.Stream.{IsSound, Channel, Step-Channel, Reach-IsSound, Reach-stream}
use zynex_os.User.Pipe.Read.{read_run, read_steps, read_run-queued}

-- A write of 7 and 8 has begun.
abbrev called : System
called = record new_pipe { writer = checking 0 (7 ∷ 8 ∷ []) }

abbrev after_two : System
after_two = write_step false (write_step false (write_step false called))

-- The first byte is there, and a read of three bytes begins.
abbrev reading : System
reading = record after_two { reader = looking 3 0 }

called-Reach : Reach called
called-Reach = later start (call_write 0 (7 ∷ 8 ∷ []) refl)

after_two-Reach : Reach after_two
after_two-Reach = later (later (later called-Reach (write false)) (write false)) (write false)

reading-Reach : Reach reading
unfolding write_step write_at
reading-Reach = later after_two-Reach (call_read 0 3 refl)

Step-Channel_example :
    IsSound after_two × Channel (write_step false (write_step false called)) after_two
Step-Channel_example =
    Step-Channel (write false)
      (Reach-IsSound (later (later called-Reach (write false)) (write false)))

Reach-stream_example :
    (reading.got ++ queued reading ≡ reading.sent) × (length (queued reading) ≤ pipebufsiz)
Reach-stream_example = Reach-stream reading-Reach

read_run-queued_example :
    let t = read_run (read_steps 1) false reading in
    (t.reader ≡ returned 1)
    × (t.got ≡ reading.got ++ take 1 (queued reading))
    × (length (queued t) + 1 ≡ length (queued reading))
    × (t.sent ≡ reading.sent)
unfolding write_step write_at queue_of window
read_run-queued_example =
    read_run-queued false reading 3 (Reach-IsSound reading-Reach) refl (omega arith)
