-- ===== src/User/Malloc/Fresh.antt =====
-- A new chunk of lib/riscv/malloc.c, from the search for its pages to their return.
use zynex_os.Base.{
  ℕ, suc, ◌+◌, ◌-◌, ◌*◌, ◌/◌, ◌≤◌, ◌<◌, ◌≡◌, ◌≢◌, ◌⊎◌, refl, sym, ◌∙◌, ap, subst, Bool, true, false,
  ◌||◌, ◌&&◌, Option, none, some, arith, ltb, leb, if◌then◌else◌, inl, inr,
}
use native.Mathlib.Decide.{dec_lt}
use zynex_os.User.Malloc.{
  Heap, mend, set_at, alloc_pages, free, drop_ref, Malloc, returned, asserts, searching, isfree,
  SpaceSearch, stopped, no_space, scanning, find_space, finish_chunk, take_chunk, malloc_fresh,
}
use zynex_os.User.Malloc.Space.{IsPages, isfree-last, Stopped, find_space-Stopped}
use zynex_os.User.Malloc.Chunk.{set_at_self, set_at_ne, Outcome, alloc_pages-Outcome}
use zynex_os.User.Malloc.Free.{Held, Freed, free-Freed, free-run, drop_ref-last, with_ref}

-- A chunk of `n` bytes at `v` that was not there before.
pub record Served (n : ℕ) (before : Heap) (v : ℕ) (h : Heap) : Type 0 where
  pub first : ℕ
  pub total : ℕ
  pub place : v ≡ first * 4096
  pub pages : IsPages (n + 4) total
  pub held : Held first total before h
  pub last_free : before.mapped (first + total - 1) ≡ false
  pub references : h.ref (first + total - 1) ≡ 2
  pub next : h.mptr ≡ v + n

-- What malloc may answer once it looks for pages: a chunk, or NULL, and then no page is mapped that was
-- not before.
abbrev pub Answer : ℕ → Heap → Malloc → Type 0
Answer n before (returned v h) =
    Served n before v h ⊎ ((v ≡ 0) × ((q : ℕ) → h.mapped q ≡ true → before.mapped q ≡ true))
Answer n before asserts = ⊥
Answer n before searching = ⊥

not_new : (a b : Bool) → (a ≡ false) ⊎ (a ≡ b) → a ≡ true → b ≡ true
not_new a b (inl e) t = absurd (ground (arith, e, t))
not_new a b (inr e) t = sym e ∙ t

finish_chunk-Answer :
    (n p total : ℕ) (h : Heap) (o : Option ℕ × Heap)
    → IsPages (n + 4) total
    → 32768 ≤ p
    → p + total < 65536
    → h.mapped (p + total - 1) ≡ false
    → Outcome p 0 total (record h { mptr = p * 4096 }) o
    → Answer n h (finish_chunk (p * 4096) n o)
finish_chunk-Answer n p total h (none, h') is lo hi un c = inr (
  refl,
  λ q. not_new (h'.mapped q) (h.mapped q) (elim (dec_lt q p) [
    | yes lt ↦ inr (c.outside q (inl lt))
    | no ge ↦ c.inside q (omega arith)
  ]),
)
finish_chunk-Answer n p total h (some k, h') is lo hi un o =
    let c = o.1 in
    let at : p * 4096 / 4096 + k - 1 ≡ p + total - 1 = omega (arith, o.0) in
    inl (record {
      first = p;
      total = total;
      place = refl;
      pages = is;
      held = record {
        inside = λ q le lt. c.inside q (omega arith) lt;
        outside = λ q u.
            let s = c.outside q (ground arith) in
            record {
              mapped = s.mapped;
              continued = s.continued;
              ref = set_at_ne h'.ref (p * 4096 / 4096 + k - 1) q 2 (omega (arith, at, is)) ∙ s.ref;
            };
        low = lo;
        high = hi;
        some_page = is.2;
      };
      last_free = un;
      references =
          ap (set_at h'.ref (p * 4096 / 4096 + k - 1) 2) (sym at)
          ∙ set_at_self h'.ref (p * 4096 / 4096 + k - 1) 2;
      next = refl;
    })

accepted :
    (h : Heap) (p n total : ℕ)
    → IsPages n total
    → 0 < n
    → isfree h (p * 4096) n ≡ true
    → ((p + total) * 4096 < mend) × (h.mapped (p + total - 1) ≡ false)
accepted h p n total is lt e =
    let f : (if leb mend ((p + total) * 4096) || h.mapped (p + total - 1) then false else true)
        ≡ true =
      sym (isfree-last h p n total is lt) ∙ e in
    (ground (arith, f), ground (arith, f))

take_chunk-Answer :
    (grants : Heap → ℕ → Bool) (h : Heap) (n : ℕ) (r : SpaceSearch)
    → Stopped h n r
    → Answer n h (take_chunk grants h n r)
unfolding take_chunk
take_chunk-Answer grants h n scanning f = absurd f
take_chunk-Answer grants h n (no_space a) f = inr (refl, λ q e. e)
take_chunk-Answer grants h n (stopped a) f =
    let p = f.0 in
    let total = (n + 4 + 4095) / 4096 in
    let is : IsPages (n + 4) total = (omega arith, omega arith, omega arith) in
    let ok : isfree h (p * 4096) (n + 4) ≡ true = ap (λ x. isfree h x (n + 4)) (sym f.1) ∙ f.4 in
    let (below, un) = accepted h p (n + 4) total is (omega arith) ok in
    subst (λ x. Answer n h (take_chunk grants h n (stopped x))) (sym f.1)
      (subst
        (λ i. Answer n h (
          finish_chunk (p * 4096) n
            (alloc_pages ((n + 4) / 4096 + 1) grants (record h { mptr = p * 4096 }) i 0 n)))
        (omega arith)
        (finish_chunk-Answer n p total h
          (alloc_pages ((n + 4) / 4096 + 1) grants (record h { mptr = p * 4096 }) p 0 n) is f.2
          (omega arith) un
          (alloc_pages-Outcome ((n + 4) / 4096 + 1) grants (record h { mptr = p * 4096 }) p 0 n
            total is (omega arith) (omega arith))))

-- malloc's search from a page in its range: with a round of fuel for each page of three times the range
-- it ends, in a chunk of pages of which the last was free, with two references, or in NULL, for no space or
-- no memory, and then no page is mapped that was not before.
pub malloc_fresh-Answer :
    (grants : Heap → ℕ → Bool) (h : Heap) (n p : ℕ)
    → h.mptr ≡ p * 4096
    → 32768 ≤ p
    → p < 65536
    → Answer n h (malloc_fresh 98304 grants h n)
unfolding malloc_fresh
malloc_fresh-Answer grants h n p e lo hi =
    take_chunk-Answer grants h n (find_space 98304 h h.mptr 0 n) (
      subst (λ a. Stopped h n (find_space 98304 h a 0 n)) (sym e)
        (find_space-Stopped 98304 h p 0 n lo hi (omega arith) (omega arith)))

-- The references of a chunk given back, that of the block and that of `mptr`.
pub record Returned (before : Heap) (n v : ℕ) (h : Heap) : Type 0 where
  pub served : Served n before v h
  pub once : Heap
  pub twice : Heap
  pub free_chunk : free h v ≡ some once
  pub freed : Freed served.first served.total 1 before once
  pub free_mptr : free once ((served.first + served.total - 1) * 4096) ≡ some twice
  pub restored :
      (q : ℕ)
      → twice.mapped q ≡ (
          if leb served.first q && ltb q (served.first + served.total)
          then false
          else before.mapped q)

restored_mapped :
    (before once : Heap) (first total r q : ℕ)
    → Freed first total r before once
    → 0 < total
    → set_at once.mapped (first + total - 1) false q
      ≡ (if leb first q && ltb q (first + total) then false else before.mapped q)
restored_mapped before once first total r q f lt = elim (dec_lt q first) [
  | yes less ↦ out (inl less)
  | no ge ↦ elim (dec_lt q (first + total)) [
    | no more ↦ out (inr (omega arith))
    | yes less ↦ elim (dec_lt (suc q) (first + total)) [
      | yes inner ↦
          set_at_ne once.mapped (first + total - 1) q false (omega arith)
          ∙ f.given q (omega arith) inner
          ∙ sym (within (omega arith) less)
      | no at_end ↦
          ap (set_at once.mapped (first + total - 1) false) (omega arith)
          ∙ set_at_self once.mapped (first + total - 1) false
          ∙ sym (within (omega arith) less)
    ]
  ]
]
  where
    within :
        first ≤ q
        → q < first + total
        → (if leb first q && ltb q (first + total) then false else before.mapped q) ≡ false
    within le less = ground (arith, le, less)

    beyond :
        (q < first) ⊎ (first + total ≤ q)
        → (if leb first q && ltb q (first + total) then false else before.mapped q)
          ≡ before.mapped q
    beyond o = ground (arith, o)

    out :
        (q < first) ⊎ (first + total ≤ q)
        → set_at once.mapped (first + total - 1) false q
          ≡ (if leb first q && ltb q (first + total) then false else before.mapped q)
    out o =
        set_at_ne once.mapped (first + total - 1) q false (omega (arith, lt))
        ∙ (f.outside q o).mapped
        ∙ sym (beyond o)

Served-Returned : (before : Heap) (n v : ℕ) (h : Heap) → Served n before v h → Returned before n v h
Served-Returned before n v h s =
    let (once, e, f) =
      free-Freed before h v s.first s.total 0 s.held (omega (arith, s.place)) s.references
        (omega arith) in
    let last = s.first + s.total - 1 in
    let e2 =
      free-run once (last * 4096) last 0 (omega arith) (omega (arith, s.held.low, s.held.some_page))
        (omega (arith, s.held.high)) (λ q le lt. absurd (omega arith))
        (ap once.continued (omega arith) ∙ f.last_continued) in
    record {
      served = s;
      once = once;
      twice = with_ref once last 0;
      free_chunk = e;
      freed = f;
      free_mptr =
          e2
          ∙ ap (λ q. some (drop_ref once q)) (omega arith)
          ∙ ap some (drop_ref-last once last f.last_ref);
      restored = λ q. restored_mapped before once s.first s.total 1 q f s.held.some_page;
    }

-- What malloc serves from new pages, free takes back: the free of the block unmaps all its pages but the
-- last, which keeps the one reference that `mptr` has, and touches no page outside the chunk; when
-- that reference is dropped too, the pages of the chunk are unmapped and every other page is as before.
pub free-malloc_fresh :
    (grants : Heap → ℕ → Bool) (before : Heap) (n p v : ℕ) (h : Heap)
    → before.mptr ≡ p * 4096
    → 32768 ≤ p
    → p < 65536
    → malloc_fresh 98304 grants before n ≡ returned v h
    → v ≢ 0
    → Returned before n v h
free-malloc_fresh grants before n p v h e lo hi run nz =
    elim (subst (Answer n before) run (malloc_fresh-Answer grants before n p e lo hi)) [
      | inl s ↦ Served-Returned before n v h s
      | inr z ↦ absurd (nz z.0)
    ]
