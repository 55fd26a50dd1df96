-- ===== src/User/Pipe/Queue.antt =====
-- The bytes between the positions of the pipe of lib/riscv/pipe.c, as a queue.
use zynex_os.Base.{
  ℕ, zero, suc, ◌+◌, ◌-◌, ◌%◌, ◌≤◌, ◌<◌, ◌≡◌, refl, ◌∙◌, ap, ap₂, List, [], ◌∷◌, ◌++◌, arith, ◌==◌,
  if◌then◌else◌, length,
}
use zynex_os.User.Pipe.{pipebufsiz, Pipe, Reader, looking, taking, advancing, System}

-- `n` bytes of the ring from position `r` on.
unfoldable pub window : (ℕ → ℕ) → ℕ → ℕ → List ℕ
window buf r zero = []
window buf r (suc n) = buf (r % pipebufsiz) ∷ window buf (suc r) n

abbrev pub put_at : (ℕ → ℕ) → ℕ → ℕ → ℕ → ℕ
put_at buf p x k = if k == p % pipebufsiz then x else buf k

pub window_same :
    (buf : ℕ → ℕ) (r r' n n' : ℕ) → r ≡ r' → n ≡ n' → window buf r n ≡ window buf r' n'
window_same buf r r' n n' e f = ap₂ (window buf) e f

-- A write behind the window, less than a round from its start, leaves it.
pub window-put_at :
    (buf : ℕ → ℕ) (r n p x : ℕ)
    → r + n ≤ p
    → p < r + pipebufsiz
    → window (put_at buf p x) r n ≡ window buf r n
unfolding window
window-put_at buf r zero p x lo hi = refl
window-put_at buf r (suc n) p x lo hi =
    ap₂ ◌∷◌ apart (window-put_at buf (suc r) n p x (omega arith) (omega arith))
  where
    apart : put_at buf p x (r % pipebufsiz) ≡ buf (r % pipebufsiz)
    apart = ground arith

pub window-suc :
    (buf : ℕ → ℕ) (r n : ℕ)
    → window buf r (suc n) ≡ window buf r n ++ buf ((r + n) % pipebufsiz) ∷ []
unfolding window
window-suc buf r zero = ap (λ k. buf (k % pipebufsiz) ∷ []) (omega arith)
window-suc buf r (suc n) =
    ap (λ w. buf (r % pipebufsiz) ∷ w)
      (window-suc buf (suc r) n
        ∙ ap (λ k. window buf (suc r) n ++ buf (k % pipebufsiz) ∷ []) (omega arith))

pub length-window : (buf : ℕ → ℕ) (r n : ℕ) → length (window buf r n) ≡ n
unfolding window
length-window buf r zero = refl
length-window buf r (suc n) = ap suc (length-window buf (suc r) n)

-- The reader has taken the byte at `rpos`, and not yet moved on.
abbrev pub held : Reader → ℕ
held (advancing n i) = 1
held _ = 0

-- The bytes that the reader has still to take.
unfoldable pub queue_of : Pipe → Reader → List ℕ
unfolding window
queue_of p r = window p.buf (p.rpos + held r) (p.wpos - (p.rpos + held r))

abbrev pub queued : System → List ℕ
queued s = queue_of s.pipe s.reader

pub queue_of-taking :
    (p : Pipe) (n i : ℕ)
    → p.rpos < p.wpos
    → queue_of p (taking n i) ≡ p.buf (p.rpos % pipebufsiz) ∷ queue_of p (advancing n i)
unfolding queue_of
queue_of-taking p n i lt =
    window_same p.buf (p.rpos + 0) p.rpos (p.wpos - (p.rpos + 0)) (suc (p.wpos - suc p.rpos))
      (omega arith) (omega arith)
    ∙ ap (λ w. p.buf (p.rpos % pipebufsiz) ∷ w)
        (window_same p.buf (suc p.rpos) (p.rpos + 1) (p.wpos - suc p.rpos) (p.wpos - (p.rpos + 1))
          (omega arith) (omega arith))

pub queue_of-advancing :
    (p : Pipe) (n i m j : ℕ)
    → queue_of (record p { rpos = suc p.rpos }) (looking m j) ≡ queue_of p (advancing n i)
unfolding queue_of
queue_of-advancing p n i m j = ap₂ (window p.buf) (omega arith) (omega arith)

pub queue_of-put_at :
    (p : Pipe) (r : Reader) (x : ℕ)
    → p.rpos + held r ≤ p.wpos
    → p.wpos < p.rpos + pipebufsiz
    → queue_of (record p { buf = put_at p.buf p.wpos x }) r ≡ queue_of p r
unfolding queue_of
queue_of-put_at p r x lo hi =
    window-put_at p.buf (p.rpos + held r) (p.wpos - (p.rpos + held r)) p.wpos x (omega arith)
      (omega arith)

pub queue_of-publishing :
    (p : Pipe) (r : Reader)
    → p.rpos + held r ≤ p.wpos
    → queue_of (record p { wpos = suc p.wpos }) r ≡ queue_of p r ++ p.buf (p.wpos % pipebufsiz) ∷ []
unfolding queue_of
queue_of-publishing p r lo =
    window_same p.buf (p.rpos + held r) (p.rpos + held r) (suc p.wpos - (p.rpos + held r))
      (suc (p.wpos - (p.rpos + held r))) refl (omega arith)
    ∙ window-suc p.buf (p.rpos + held r) (p.wpos - (p.rpos + held r))
    ∙ ap
        (λ k.
          window p.buf (p.rpos + held r) (p.wpos - (p.rpos + held r))
          ++ p.buf (k % pipebufsiz) ∷ [])
        (omega arith)

pub length-queue_of : (p : Pipe) (r : Reader) → length (queue_of p r) ≡ p.wpos - (p.rpos + held r)
unfolding queue_of
length-queue_of p r = length-window p.buf (p.rpos + held r) (p.wpos - (p.rpos + held r))

-- A reader that holds no byte sees the same queue wherever it stands.
pub queue_of-held : (p : Pipe) (r r' : Reader) → held r ≡ held r' → queue_of p r ≡ queue_of p r'
unfolding queue_of
queue_of-held p r r' e = ap (λ h. window p.buf (p.rpos + h) (p.wpos - (p.rpos + h))) e
