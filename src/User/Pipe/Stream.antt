-- ===== src/User/Pipe/Stream.antt =====
-- What passes through the pipe of lib/riscv/pipe.c: it refines a queue of bounded length.
use zynex_os.Base.{
  ℕ, suc, ◌+◌, ◌%◌, ◌≤◌, ◌<◌, ◌≡◌, refl, sym, ◌∙◌, ap, inl, inr, Bool, true, false, List, [], ◌∷◌,
  ◌++◌, arith, leb, if◌then◌else◌, length, Bool-cases,
}
use mathlib.Core.List.{append_assoc}
use zynex_os.User.Pipe.{
  pipebufsiz, Pipe, Reader, looking, taking, advancing, returned, Writer, checking, storing,
  publishing, finished, System, look, read_at, read_step, write_at, write_step, Step, read, write,
  call_read, call_write, new_pipe, Reach, start, later,
}
use zynex_os.User.Pipe.Queue.{
  held, length-queue_of, put_at, queue_of, queue_of-advancing, queue_of-held, queue_of-publishing,
  queue_of-put_at, queue_of-taking, queued, window,
}

abbrev IsTaking : Reader → Pipe → Type 0
IsTaking (taking n i) p = p.rpos < p.wpos
IsTaking (advancing n i) p = p.rpos < p.wpos
IsTaking _ p = Unit {0}

abbrev IsStoring : Writer → Pipe → Type 0
IsStoring (storing i x xs) p = p.wpos < p.rpos + pipebufsiz
IsStoring (publishing i x xs) p = (p.wpos < p.rpos + pipebufsiz) × (p.buf (p.wpos % pipebufsiz) ≡ x)
IsStoring _ p = Unit {0}

pub record Inv (p : Pipe) (r : Reader) (got : List ℕ) (w : Writer) (sent : List ℕ) : Type 0 where
  pub order : p.rpos + held r ≤ p.wpos
  pub room : p.wpos ≤ p.rpos + pipebufsiz
  pub can_take : IsTaking r p
  pub can_store : IsStoring w p
  pub stream : got ++ queue_of p r ≡ sent

abbrev pub IsSound : System → Type 0
IsSound s = Inv s.pipe s.reader s.got s.writer s.sent

-- What the two environments see of the pipe: a queue, what was taken from it and what was put.
pub data Channel (s t : System) : Type 0 where
  stay : queued t ≡ queued s → t.got ≡ s.got → t.sent ≡ s.sent → Channel s t
  put :
      (x : ℕ)
      → length (queued s) < pipebufsiz
      → queued t ≡ queued s ++ x ∷ []
      → t.got ≡ s.got
      → t.sent ≡ s.sent ++ x ∷ []
      → Channel s t
  take : (x : ℕ) → queued s ≡ x ∷ queued t → t.got ≡ s.got ++ x ∷ [] → t.sent ≡ s.sent → Channel s t

abbrev Moves : System → System → Type 0
Moves s t = IsSound t × Channel s t

look-held : (closed : Bool) (p : Pipe) (n i : ℕ) → held (look closed p n i) ≡ 0
unfolding look
look-held closed p n i = ground arith

look-IsTaking :
    (closed : Bool) (p : Pipe) (n i : ℕ) → p.rpos ≤ p.wpos → IsTaking (look closed p n i) p
unfolding look
look-IsTaking closed p n i le = ground arith

-- A reader that goes on without taking a byte.
Inv-reader :
    (p : Pipe) (r r' : Reader) (got : List ℕ) (w : Writer) (sent : List ℕ)
    → held r ≡ 0
    → held r' ≡ 0
    → IsTaking r' p
    → Inv p r got w sent
    → Inv p r' got w sent × (queue_of p r' ≡ queue_of p r)
Inv-reader p r r' got w sent e e' taking_ok inv =
    let same = queue_of-held p r' r (e' ∙ sym e) in
    (
      record {
        order = omega (arith, inv.order);
        room = inv.room;
        can_take = taking_ok;
        can_store = inv.can_store;
        stream = ap (λ q. got ++ q) same ∙ inv.stream;
      },
      same,
    )

read_at-Moves :
    (closed : Bool) (r : Reader) (p : Pipe) (got : List ℕ) (w : Writer) (sent : List ℕ)
    → Inv p r got w sent
    → let s : System = record { pipe = p; reader = r; got = got; writer = w; sent = sent } in
      Moves s (read_at closed r s)
unfolding read_at
read_at-Moves closed (looking n i) p got w sent inv =
    let taking_ok = look-IsTaking closed p n i (omega (arith, inv.order)) in
    let (keep, same) =
      Inv-reader p (looking n i) (look closed p n i) got w sent refl (look-held closed p n i)
        taking_ok inv in
    (keep, stay same refl refl)
read_at-Moves closed (taking n i) p got w sent inv =
    let first = queue_of-taking p n i inv.can_take in
    (
      record {
        order = omega (arith, inv.can_take);
        room = inv.room;
        can_take = inv.can_take;
        can_store = inv.can_store;
        stream =
            append_assoc got (p.buf (p.rpos % pipebufsiz) ∷ []) (queue_of p (advancing n i))
            ∙ ap (λ q. got ++ q) (sym first)
            ∙ inv.stream;
      },
      take (p.buf (p.rpos % pipebufsiz)) first refl refl,
    )
read_at-Moves closed (advancing n i) p got w sent inv =
    let same = queue_of-advancing p n i n (suc i) in
    (
      record {
        order = omega (arith, inv.order);
        room = omega (arith, inv.room);
        can_take = tt;
        can_store = still w inv.can_store;
        stream = ap (λ q. got ++ q) same ∙ inv.stream;
      },
      stay same refl refl,
    )
  where
    still : (v : Writer) → IsStoring v p → IsStoring v (record p { rpos = suc p.rpos })
    still (checking j xs) h = tt
    still (storing j x xs) h = omega (arith, h)
    still (publishing j x xs) h = (omega (arith, h.0), h.1)
    still (finished k) h = tt
read_at-Moves closed (returned k) p got w sent inv = (inv, stay refl refl refl)

-- A writer that goes on without a store.
Inv-writer :
    (p : Pipe) (r : Reader) (got : List ℕ) (w w' : Writer) (sent : List ℕ)
    → IsStoring w' p
    → Inv p r got w sent
    → Inv p r got w' sent
Inv-writer p r got w w' sent h inv = record {
  order = inv.order;
  room = inv.room;
  can_take = inv.can_take;
  can_store = h;
  stream = inv.stream;
}

-- The writer's steps.
write_at-Moves :
    (closed : Bool) (w : Writer) (p : Pipe) (r : Reader) (got : List ℕ) (sent : List ℕ)
    → Inv p r got w sent
    → let s : System = record { pipe = p; reader = r; got = got; writer = w; sent = sent } in
      Moves s (write_at closed w s)
unfolding write_at
write_at-Moves closed (checking i []) p r got sent inv =
    (Inv-writer p r got _ (finished i) sent tt inv, stay refl refl refl)
write_at-Moves closed (checking i (x ∷ xs)) p r got sent inv =
    elim (Bool-cases (leb (p.rpos + pipebufsiz) p.wpos)) [
      | inl full ↦ rw full (waits closed)
      | inr space ↦
          rw space
            (Inv-writer p r got _ (storing i x xs) sent (ground arith) inv, stay refl refl refl)
    ]
  where
    waits :
        (c : Bool)
        → let s : System = record {
          pipe = p;
          reader = r;
          got = got;
          writer = checking i (x ∷ xs);
          sent = sent;
        } in
          Moves s (if c then record s { writer = finished 0 } else s)
    waits true = (Inv-writer p r got _ (finished 0) sent tt inv, stay refl refl refl)
    waits false = (inv, stay refl refl refl)
write_at-Moves closed (storing i x xs) p r got sent inv =
    let same = queue_of-put_at p r x inv.order inv.can_store in
    (
      record {
        order = inv.order;
        room = inv.room;
        can_take = taking_ok r inv.can_take;
        can_store = (inv.can_store, ground arith);
        stream = ap (λ q. got ++ q) same ∙ inv.stream;
      },
      stay same refl refl,
    )
  where
    taking_ok : (q : Reader) → IsTaking q p → IsTaking q (record p { buf = put_at p.buf p.wpos x })
    taking_ok (looking n j) h = tt
    taking_ok (taking n j) h = h
    taking_ok (advancing n j) h = h
    taking_ok (returned k) h = tt
write_at-Moves closed (publishing i x xs) p r got sent inv =
    let added : queue_of (record p { wpos = suc p.wpos }) r ≡ queue_of p r ++ x ∷ [] =
      queue_of-publishing p r inv.order ∙ ap (λ v. queue_of p r ++ v ∷ []) inv.can_store.1 in
    (
      record {
        order = omega (arith, inv.order);
        room = omega (arith, inv.can_store.0);
        can_take = taking_ok r inv.can_take;
        can_store = tt;
        stream =
            ap (λ q. got ++ q) added
            ∙ sym (append_assoc got (queue_of p r) (x ∷ []))
            ∙ ap (λ q. q ++ x ∷ []) inv.stream;
      },
      put x (omega (arith, length-queue_of p r, inv.can_store.0)) added refl refl,
    )
  where
    taking_ok : (q : Reader) → IsTaking q p → IsTaking q (record p { wpos = suc p.wpos })
    taking_ok (looking n j) h = tt
    taking_ok (taking n j) h = omega (arith, h)
    taking_ok (advancing n j) h = omega (arith, h)
    taking_ok (returned k) h = tt
write_at-Moves closed (finished k) p r got sent inv = (inv, stay refl refl refl)

-- From a sound state every step of either environment is a step of the queue, to a sound state: a
-- byte is put at its end when it holds fewer than 32, its first byte is taken, or it stays.
pub Step-Channel : {s t : System} → Step s t → IsSound s → IsSound t × Channel s t
unfolding read_step write_step
Step-Channel {s} (read closed) inv = read_at-Moves closed s.reader s.pipe s.got s.writer s.sent inv
Step-Channel {s} (write closed) inv =
    write_at-Moves closed s.writer s.pipe s.reader s.got s.sent inv
Step-Channel {s} (call_read k n e) inv =
    let (keep, same) =
      Inv-reader s.pipe s.reader (looking n 0) s.got s.writer s.sent (ap held e) refl tt inv in
    (keep, stay same refl refl)
Step-Channel {s} (call_write k bytes e) inv = (
  Inv-writer s.pipe s.reader s.got s.writer (checking 0 bytes) s.sent tt inv,
  stay refl refl refl,
)

new_pipe-IsSound : IsSound new_pipe
unfolding queue_of window
new_pipe-IsSound = record {
  order = omega arith;
  room = omega arith;
  can_take = tt;
  can_store = tt;
  stream = refl;
}

pub Reach-IsSound : {s : System} → Reach s → IsSound s
Reach-IsSound start = new_pipe-IsSound
Reach-IsSound (later r st) = (Step-Channel st (Reach-IsSound r)).0

-- However the reader and the writer of a pipe are interleaved, the bytes that all reads have got,
-- followed by those in the buffer, are the bytes that all writes have sent, in order; at most 32 are
-- in the buffer.
pub Reach-stream :
    {s : System} → Reach s → (s.got ++ queued s ≡ s.sent) × (length (queued s) ≤ pipebufsiz)
Reach-stream {s} r =
    let inv = Reach-IsSound r in
    (inv.stream, omega (arith, length-queue_of s.pipe s.reader, inv.room))
