-- ===== src/User/Malloc/Free.antt =====
-- free of lib/riscv/malloc.c gives back what malloc mapped.
use zynex_os.Base.{
  ℕ, zero, suc, ◌+◌, ◌-◌, ◌/◌, ◌%◌, ◌^◌, ◌≤◌, ◌<◌, ◌≡◌, ◌⊎◌, refl, sym, ◌∙◌, ap, Bool, true, false,
  ◌&&◌, Option, none, some, arith, ltb, leb, ◌==◌, if◌then◌else◌, inl, inr,
}
use native.Mathlib.Decide.{dec_lt}
use zynex_os.User.Malloc.{Heap, mend, mbegin, set_at, unmap_page, free_from, free, drop_ref}
use zynex_os.User.Malloc.Chunk.{Same, Same-trans, unmap_page-Same, set_at_self, set_at_ne}

-- `m` pages from `p` on unmapped.
abbrev unmap_run : Heap → (p m : ℕ) → Heap
unmap_run h p zero = h
unmap_run h p (suc m) = unmap_run (unmap_page h p) (suc p) m

unmap_run-outside : (h : Heap) (p m q : ℕ) → (q < p) ⊎ (p + m ≤ q) → Same h (unmap_run h p m) q
unmap_run-outside h p zero q o = record { mapped = refl; continued = refl; ref = refl }
unmap_run-outside h p (suc m) q o =
    Same-trans h (unmap_page h p) (unmap_run (unmap_page h p) (suc p) m) q
      (unmap_page-Same h p q (omega arith))
      (unmap_run-outside (unmap_page h p) (suc p) m q (ground arith))

unmap_run-inside : (h : Heap) (p m q : ℕ) → p ≤ q → q < p + m → (unmap_run h p m).mapped q ≡ false
unmap_run-inside h p zero q le lt = absurd (omega arith)
unmap_run-inside h p (suc m) q le lt = elim (dec_lt p q) [
  | yes gt ↦ unmap_run-inside (unmap_page h p) (suc p) m q gt (omega arith)
  | no ge ↦
      (unmap_run-outside (unmap_page h p) (suc p) m q (inl (omega arith))).mapped
      ∙ ap (set_at h.mapped p false) (omega arith)
      ∙ set_at_self h.mapped p false
]

-- The run of free over continued pages.
free_from-unmap_run :
    (rounds : ℕ) (h : Heap) (p m : ℕ)
    → ((q : ℕ) → p ≤ q → q < p + m → h.continued q ≡ true)
    → h.continued (p + m) ≡ false
    → p + m < 65536
    → m < rounds
    → free_from rounds h p ≡ some (drop_ref (unmap_run h p m) (p + m))
unfolding free_from
free_from-unmap_run zero h p m go stop hi lt = absurd (omega arith)
free_from-unmap_run (suc rounds) h p zero go stop hi lt =
    rw ended (ap (λ q. some (drop_ref h q)) (omega arith))
  where
    ended : h.continued p ≡ false
    ended = ap h.continued (omega arith) ∙ stop
free_from-unmap_run (suc rounds) h p (suc m) go stop hi lt =
    rw (go p (omega arith) (omega arith), inside)
      (free_from-unmap_run rounds (unmap_page h p) (suc p) m
          (λ q le less.
            (unmap_page-Same h p q (omega arith)).continued ∙ go q (omega arith) (omega arith))
          ((unmap_page-Same h p (suc p + m) (omega arith)).continued
            ∙ ap h.continued (omega arith)
            ∙ stop)
          (omega arith) (omega arith)
        ∙ ap (λ q. some (drop_ref (unmap_run (unmap_page h p) (suc p) m) q)) (omega arith))
  where
    inside : ltb (suc p) 65536 ≡ true
    inside = ground (arith, hi)

-- After a free: the pages of the chunk but the last one are given back, the last one has one reference
-- less, and the other pages are as they were.
pub record Freed (first total r : ℕ) (h h' : Heap) : Type 0 where
  pub given : (q : ℕ) → first ≤ q → suc q < first + total → h'.mapped q ≡ false
  pub last_mapped : h'.mapped (first + total - 1) ≡ true
  pub last_continued : h'.continued (first + total - 1) ≡ false
  pub last_ref : h'.ref (first + total - 1) ≡ r
  pub outside : (q : ℕ) → (q < first) ⊎ (first + total ≤ q) → Same h h' q

pub free-run :
    (h : Heap) (v p m : ℕ)
    → v / 4096 ≡ p
    → 32768 ≤ p
    → p + m < 65536
    → ((q : ℕ) → p ≤ q → q < p + m → h.continued q ≡ true)
    → h.continued (p + m) ≡ false
    → free h v ≡ some (drop_ref (unmap_run h p m) (p + m))
unfolding free
free-run h v p m e lo hi go stop =
    chosen (free_from 65536 h (v / 4096)) (v == 0) (leb mbegin v && ltb v mend) some_v range
    ∙ ap (free_from 65536 h) e
    ∙ free_from-unmap_run 65536 h p m go stop hi (omega arith)
  where
    chosen :
        (x : Option Heap) (a b : Bool)
        → a ≡ false
        → b ≡ true
        → (if a then some h else if b then x else none) ≡ x
    chosen x a b s t = rw (s, t) refl

    some_v : (v == 0) ≡ false
    some_v = ground arith

    range : (leb mbegin v && ltb v mend) ≡ true
    range = ground arith

abbrev pub with_ref : Heap → (p r : ℕ) → Heap
with_ref h p r =
    let h' = record h { ref = set_at h.ref p r } in if r == 0 then unmap_page h' p else h'

drop_ref-shared :
    (h : Heap) (p r : ℕ)
    → h.ref p ≡ suc (suc r)
    → suc (suc r) < 2 ^ 32
    → drop_ref h p ≡ record h { ref = set_at h.ref p (suc r) }
drop_ref-shared h p r e lt =
    (let one : drop_ref h p ≡ with_ref h p (suc r) = ap (with_ref h p) (omega (arith, e, lt)) in
      one)
    ∙ rw more refl
  where
    more : (suc r == 0) ≡ false
    more = ground arith

pub drop_ref-last : (h : Heap) (p : ℕ) → h.ref p ≡ 1 → drop_ref h p ≡ with_ref h p 0
drop_ref-last h p e = ap (with_ref h p) gone
  where
    gone : (h.ref p + 2 ^ 32 - 1) % 2 ^ 32 ≡ 0
    gone = omega (arith, e)

-- The pages of a chunk in `h`, over what was there before it.
pub record Held (first total : ℕ) (before h : Heap) : Type 0 where
  pub inside :
      (q : ℕ)
      → first ≤ q
      → q < first + total
      → (h.mapped q ≡ true) × (h.continued q ≡ ltb (suc q) (first + total))
  pub outside : (q : ℕ) → (q < first) ⊎ (first + total ≤ q) → Same before h q
  pub low : 32768 ≤ first
  pub high : first + total < 65536
  pub some_page : 0 < total

-- The two addresses of a chunk: its first page and its last.
pub free-Freed :
    (before h : Heap) (v first total r : ℕ)
    → Held first total before h
    → v / 4096 ≡ first
    → h.ref (first + total - 1) ≡ suc (suc r)
    → suc (suc r) < 2 ^ 32
    → (h' : Heap) × (free h v ≡ some h') × Freed first total (suc r) before h'
free-Freed before h v first total r held e two lt =
    let m = total - 1 in
    let h1 = unmap_run h first m in
    let last = first + m in
    let keep : Same h h1 last = unmap_run-outside h first m last (inr (omega arith)) in
    let h' = record h1 { ref = set_at h1.ref last (suc r) } in
    let at : last ≡ first + total - 1 = omega (arith, held.some_page) in
    let l = held.inside last (omega arith) (omega (arith, held.some_page)) in
    (
      h',
      free-run h v first m e held.low (omega (arith, held.high, held.some_page))
            (λ q le less. (held.inside q le (omega arith)).1 ∙ ground (arith, less))
            (l.1 ∙ ground (arith, held.some_page))
          ∙ ap some (drop_ref-shared h1 last r (keep.ref ∙ ap h.ref at ∙ two) lt),
      record {
        given = λ q le less. unmap_run-inside h first m q le (omega arith);
        last_mapped = ap h1.mapped (sym at) ∙ keep.mapped ∙ l.0;
        last_continued =
            ap h1.continued (sym at) ∙ keep.continued ∙ l.1 ∙ ground (arith, held.some_page);
        last_ref = ap h'.ref (sym at) ∙ set_at_self h1.ref last (suc r);
        outside = λ q o.
            let s =
              Same-trans before h h1 q (held.outside q o)
                (unmap_run-outside h first m q (ground arith)) in
            record {
              mapped = s.mapped;
              continued = s.continued;
              ref = set_at_ne h1.ref last q (suc r) (omega (arith, held.some_page)) ∙ s.ref;
            };
      },
    )
