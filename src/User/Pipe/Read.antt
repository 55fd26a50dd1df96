-- ===== src/User/Pipe/Read.antt =====
-- devpipe_read of lib/riscv/pipe.c returns, when the pipe is not empty, and no two ends wait for
-- each other.
use zynex_os.Base.{
  ℕ, zero, suc, ◌+◌, ◌-◌, ◌%◌, ◌≤◌, ◌<◌, ◌≡◌, refl, sym, ◌∙◌, ap, subst, ◌⊎◌, inl, inr, min, Bool,
  false, List, [], ◌∷◌, ◌++◌, arith, length, take,
}
use native.Mathlib.Decide.{dec_lt}
use mathlib.Core.List.{append_assoc, append-nil}
use zynex_os.User.Pipe.{
  pipebufsiz, Pipe, looking, taking, returned, Writer, checking, storing, System, look, read_at,
  read_step, write_at, write_step,
}
use zynex_os.User.Pipe.Queue.{window, window_same, held, queue_of, queued, length-queue_of}
use zynex_os.User.Pipe.Stream.{IsSound}

-- The reader alone, for a number of its steps.
pub read_run : ℕ → (closed : Bool) → System → System
unfolding read_step
read_run zero closed s = s
read_run (suc n) closed s = read_run n closed (read_step closed s)

-- The steps of a read of `k` bytes: three for each, and a last look.
abbrev pub read_steps : ℕ → ℕ
read_steps zero = 1
read_steps (suc k) = suc (suc (suc (read_steps k)))

-- A read from position `i` has ended `k` bytes later.
record Ended (p : Pipe) (i k : ℕ) (got : List ℕ) (w : Writer) (sent : List ℕ) (t : System)
    : Type 0 where
  pub reader : t.reader ≡ returned (i + k)
  pub got_more : t.got ≡ got ++ window p.buf p.rpos k
  pub rpos : t.pipe.rpos ≡ p.rpos + k
  pub wpos : t.pipe.wpos ≡ p.wpos
  pub buf : t.pipe.buf ≡ p.buf
  pub writer : t.writer ≡ w
  pub sent_same : t.sent ≡ sent

look-returned :
    (closed : Bool) (p : Pipe) (n i : ℕ)
    → (i ≡ n) ⊎ ((p.rpos ≡ p.wpos) × (0 < i))
    → look closed p n i ≡ returned i
unfolding look
look-returned closed p n i h = ground arith

look-taking :
    (closed : Bool) (p : Pipe) (n i : ℕ) → i < n → p.rpos < p.wpos → look closed p n i ≡ taking n i
unfolding look
look-taking closed p n i h lt = ground arith

read_run-Ended :
    (k : ℕ) (closed : Bool) (p : Pipe) (n i : ℕ) (got : List ℕ) (w : Writer) (sent : List ℕ)
    → i + k ≤ n
    → p.rpos + k ≤ p.wpos
    → (i + k ≡ n) ⊎ ((p.rpos + k ≡ p.wpos) × (0 < i + k))
    → Ended p i k got w sent (
        read_run
          (read_steps k)
          closed
          (record { pipe = p; reader = looking n i; got = got; writer = w; sent = sent }))
unfolding read_run read_at window
read_run-Ended zero closed p n i got w sent h q stop =
    subst
      (λ r.
        Ended p i 0 got w sent
          (record { pipe = p; reader = r; got = got; writer = w; sent = sent }))
      (sym (look-returned closed p n i (ground (arith, stop))))
      (record {
        reader = ap returned (omega arith);
        got_more = sym (append-nil got);
        rpos = omega arith;
        wpos = refl;
        buf = refl;
        writer = refl;
        sent_same = refl;
      })
read_run-Ended (suc k) closed p n i got w sent h q stop =
    let p' : Pipe = record p { rpos = suc p.rpos } in
    let x = p.buf (p.rpos % pipebufsiz) in
    let r =
      read_run-Ended k closed p' n (suc i) (got ++ x ∷ []) w sent (omega arith) (omega arith)
        (ground (arith, stop)) in
    subst
      (λ r. Ended p i (suc k) got w sent (
        read_run (suc (suc (read_steps k))) closed
          (record { pipe = p; reader = r; got = got; writer = w; sent = sent })))
      (sym (look-taking closed p n i (omega arith) (omega arith)))
      (record {
        reader = r.reader ∙ ap returned (omega arith);
        got_more = r.got_more ∙ append_assoc got (x ∷ []) (window p.buf (suc p.rpos) k);
        rpos = omega (arith, r.rpos);
        wpos = r.wpos;
        buf = r.buf;
        writer = r.writer;
        sent_same = r.sent_same;
      })

take-window : (buf : ℕ → ℕ) (r k n : ℕ) → k ≤ n → take k (window buf r n) ≡ window buf r k
unfolding window
take-window buf r zero n h = refl
take-window buf r (suc k) zero h = absurd (omega arith)
take-window buf r (suc k) (suc n) h =
    ap (λ w. buf (r % pipebufsiz) ∷ w) (take-window buf (suc r) k n (omega arith))

-- devpipe_read of `n` bytes on a pipe that holds some returns, without waiting: it returns the
-- smaller of `n` and the number of bytes there, and has put exactly those, the first of the queue, at
-- the end of its buffer; the rest stays queued, and nothing is sent.
pub read_run-queued :
    (closed : Bool) (s : System) (n : ℕ)
    → IsSound s
    → s.reader ≡ looking n 0
    → 0 < length (queued s)
    → let k = min n (length (queued s)) in
      let t = read_run (read_steps k) closed s in
      (t.reader ≡ returned k)
      × (t.got ≡ s.got ++ take k (queued s))
      × (length (queued t) + k ≡ length (queued s))
      × (t.sent ≡ s.sent)
unfolding queue_of
read_run-queued closed s n inv at some_there =
    let k = min n (length (queued s)) in
    let e =
      subst
        (λ r.
          Ended s.pipe 0 k s.got s.writer s.sent
            (read_run (read_steps k) closed (record s { reader = r })))
        (sym at)
        (read_run-Ended k closed s.pipe n 0 s.got s.writer s.sent (omega arith)
          (omega (arith, size, inv.order)) (stops size)) in
    let t = read_run (read_steps k) closed s in
    (
      e.reader ∙ ap returned (omega arith),
      e.got_more ∙ ap (λ q. s.got ++ q) (sym (firsts size)),
      omega (
        arith,
        length-queue_of t.pipe t.reader,
        size,
        e.rpos,
        e.wpos,
        ap held e.reader,
        inv.order,
      ),
      e.sent_same,
    )
  where
    size : length (queued s) ≡ s.pipe.wpos - s.pipe.rpos
    size = omega (arith, length-queue_of s.pipe s.reader, ap held at)

    stops :
        length (queued s) ≡ s.pipe.wpos - s.pipe.rpos
        → (0 + min n (length (queued s)) ≡ n)
          ⊎ ((s.pipe.rpos + min n (length (queued s)) ≡ s.pipe.wpos)
              × (0 < 0 + min n (length (queued s))))
    stops z = elim (dec_lt (length (queued s)) n) [
      | yes lt ↦ inr (omega (arith, inv.order), omega arith)
      | no ge ↦ inl (omega arith)
    ]

    firsts :
        length (queued s) ≡ s.pipe.wpos - s.pipe.rpos
        → take (min n (length (queued s))) (queued s)
          ≡ window s.pipe.buf s.pipe.rpos (min n (length (queued s)))
    firsts z =
        ap (take (min n (length (queued s)))) (
          window_same s.pipe.buf (s.pipe.rpos + held s.reader) s.pipe.rpos
            (s.pipe.wpos - (s.pipe.rpos + held s.reader)) (length (queued s))
            (omega (arith, ap held at)) (omega (arith, z, ap held at)))
        ∙ take-window s.pipe.buf s.pipe.rpos (min n (length (queued s))) (length (queued s))
            (omega arith)

-- Where the reader must wait for a byte, the writer, if it is in a call with a byte to write, does
-- not wait for room: its next step goes on to the store. So the two never wait for each other.
pub write_step-storing :
    {s : System} (closed : Bool) (n i j x : ℕ) (xs : List ℕ)
    → s.reader ≡ looking n i
    → read_step false s ≡ s
    → s.writer ≡ checking j (x ∷ xs)
    → (write_step closed s).writer ≡ storing j x xs
unfolding write_step write_at read_step read_at look
write_step-storing {s} closed n i j x xs at waits w =
    let empty : s.pipe.rpos ≡ s.pipe.wpos =
      is_empty (sym (ap (λ v. (read_at false v s).reader) at) ∙ ap (λ t. t.reader) waits ∙ at) in
    ap (λ v. (write_at closed v s).writer) w ∙ has_room empty
  where
    is_empty : look false s.pipe n i ≡ looking n i → s.pipe.rpos ≡ s.pipe.wpos
    is_empty e = ground (arith, e)

    has_room :
        s.pipe.rpos ≡ s.pipe.wpos
        → (write_at closed (checking j (x ∷ xs)) s).writer ≡ storing j x xs
    has_room e = ground (arith, e)
