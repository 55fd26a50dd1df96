-- ===== src/User/Malloc/Page.antt =====
-- malloc of lib/riscv/malloc.c where the page of `mptr` is in use: a chunk that fits, and one that does not.
use zynex_os.Base.{
  ℕ, ◌+◌, ◌-◌, ◌*◌, ◌/◌, ◌%◌, ◌^◌, ◌≤◌, ◌<◌, ◌≡◌, ◌≢◌, refl, ◌∙◌, ap, Bool, true, false, Option,
  none, some, arith, leb, ◌==◌, if◌then◌else◌,
}
use zynex_os.User.Malloc.{
  Heap, maxmalloc, set_at, free, drop_ref, Malloc, returned, asserts, searching, find_space,
  take_chunk, malloc_fresh, malloc_sized, malloc,
}
use zynex_os.User.Malloc.Space.{find_space-past_end}
use zynex_os.User.Malloc.Free.{free-run}

-- The size that malloc reserves.
abbrev pub rounded : ℕ → ℕ
rounded n = (n + 7) / 8 * 8

ne→== : (a b : ℕ) → a ≢ b → (a == b) ≡ false
ne→== a b ne = ground (arith, ne)

malloc-malloc_sized :
    (fuel : ℕ) (grants : Heap → ℕ → Bool) (h : Heap) (n : ℕ)
    → 0 < h.mptr
    → rounded n < maxmalloc
    → malloc fuel grants h n ≡ malloc_sized fuel grants h (rounded n)
unfolding malloc
malloc-malloc_sized fuel grants h n pos lt =
    chosen (h.mptr == 0) (leb maxmalloc ((n + 7) % 2 ^ 64 / 8 * 8)) (record h { mptr = 0x08000000 })
      (λ k. malloc_sized fuel grants k ((n + 7) % 2 ^ 64 / 8 * 8)) (ne→== h.mptr 0 (omega arith))
      (ground arith)
    ∙ ap (malloc_sized fuel grants h) (omega arith)
  where
    chosen :
        (a b : Bool) (k : Heap) (f : Heap → Malloc)
        → a ≡ false
        → b ≡ false
        → (if b then returned 0 (if a then k else h) else f (if a then k else h)) ≡ f h
    chosen a b k f e g = rw (e, g) refl

-- The heap after a chunk of `n` bytes at `mptr` in a page that is in use.
abbrev pub bumped : Heap → ℕ → Heap
bumped h n = record h {
  mptr = h.mptr + n;
  ref = set_at h.ref (h.mptr / 4096) ((h.ref (h.mptr / 4096) + 1) % 2 ^ 32);
}

malloc_sized_fits :
    (fuel : ℕ) (grants : Heap → ℕ → Bool) (h : Heap) (n : ℕ)
    → h.mptr % 4096 ≢ 0
    → h.mptr / 4096 ≡ (h.mptr + n + 4 - 1) / 4096
    → malloc_sized fuel grants h n ≡ returned h.mptr (bumped h n)
unfolding malloc_sized
malloc_sized_fits fuel grants h n part fit =
    chosen (h.mptr % 4096 == 0) (h.mptr / 4096 == (h.mptr + n + 4 - 1) / 4096)
      (ne→== (h.mptr % 4096) 0 part) (ground (arith, fit)) _ _ _
  where
    chosen :
        (a b : Bool)
        → a ≡ false
        → b ≡ true
        → (x y z : Malloc) → (if a then x else if b then y else z) ≡ y
    chosen a b e f x y z = rw (e, f) refl

malloc_sized_moves :
    (fuel : ℕ) (grants : Heap → ℕ → Bool) (h h' : Heap) (n : ℕ)
    → h.mptr % 4096 ≢ 0
    → h.mptr / 4096 ≢ (h.mptr + n + 4 - 1) / 4096
    → free h h.mptr ≡ some h'
    → malloc_sized fuel grants h n
      ≡ malloc_fresh fuel grants (record h' { mptr = (h.mptr + 4096) / 4096 * 4096 }) n
unfolding malloc_sized
malloc_sized_moves fuel grants h h' n part no_fit e =
    chosen (h.mptr % 4096 == 0) (h.mptr / 4096 == (h.mptr + n + 4 - 1) / 4096) (free h h.mptr)
      (ne→== (h.mptr % 4096) 0 part) (ne→== (h.mptr / 4096) ((h.mptr + n + 4 - 1) / 4096) no_fit) e
      _ _
  where
    chosen :
        (a b : Bool) (o : Option Heap)
        → a ≡ false
        → b ≡ false
        → o ≡ some h'
        → (x y : Malloc)
        → (if a then x else if b then y else elim o [
          | none ↦ asserts
          | some k ↦ malloc_fresh fuel grants (record k { mptr = (h.mptr + 4096) / 4096 * 4096 }) n
        ])
          ≡ malloc_fresh fuel grants (record h' { mptr = (h.mptr + 4096) / 4096 * 4096 }) n
    chosen a b o e f g x y = rw (e, f, g) refl

-- A chunk that fits into the page in use with the four bytes of the count: malloc returns `mptr`, adds a
-- reference, and moves `mptr` past it.
pub malloc-bumped :
    (fuel : ℕ) (grants : Heap → ℕ → Bool) (h : Heap) (n : ℕ)
    → 0 < h.mptr % 4096
    → h.mptr % 4096 + rounded n + 4 ≤ 4096
    → malloc fuel grants h n ≡ returned h.mptr (bumped h (rounded n))
malloc-bumped fuel grants h n part fit =
    malloc-malloc_sized fuel grants h n (omega arith) (omega arith)
    ∙ malloc_sized_fits fuel grants h (rounded n) (omega arith) (omega arith)

-- If `mptr` is inside the last page below `mend` and the chunk, with the four bytes of the count, does not
-- fit there, malloc never comes back: for every fuel the search for pages is still going on, although
-- pages may be free.
pub malloc-searching :
    (fuel : ℕ) (grants : Heap → ℕ → Bool) (h : Heap) (n : ℕ)
    → h.mptr / 4096 ≡ 65535
    → 0 < h.mptr % 4096
    → 4096 < h.mptr % 4096 + rounded n + 4
    → rounded n < maxmalloc
    → h.continued 65535 ≡ false
    → malloc fuel grants h n ≡ searching
unfolding malloc_fresh take_chunk
malloc-searching fuel grants h n at part no_fit small stop =
    malloc-malloc_sized fuel grants h n (omega arith) small
    ∙ malloc_sized_moves fuel grants h (drop_ref h 65535) (rounded n) (omega arith) (omega arith) (
        free-run h h.mptr 65535 0 at (omega arith) (omega arith) (λ q le lt. absurd (omega arith))
          stop)
    ∙ past ((h.mptr + 4096) / 4096) (rounded n) (drop_ref h 65535) (omega (arith, at))
  where
    past :
        (p size : ℕ) (k : Heap)
        → 65536 ≤ p
        → take_chunk grants
            (record k { mptr = p * 4096 })
            size
            (find_space fuel (record k { mptr = p * 4096 }) (p * 4096) 0 size)
          ≡ searching
    past p size k le =
        ap (take_chunk grants (record k { mptr = p * 4096 }) size)
          (find_space-past_end fuel (record k { mptr = p * 4096 }) p 0 size le)
