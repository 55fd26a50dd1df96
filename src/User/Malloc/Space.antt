-- ===== src/User/Malloc/Space.antt =====
-- The search of lib/riscv/malloc.c for address space: isfree, and the loop of malloc around it.
use zynex_os.Base.{
  ℕ, zero, suc, ◌+◌, ◌-◌, ◌*◌, ◌/◌, ◌≤◌, ◌<◌, ◌≡◌, ◌≢◌, refl, sym, ◌∙◌, ap, ap₂, subst, Bool, true,
  false, ◌||◌, arith, ltb, leb, ◌==◌, if◌then◌else◌, Bool-cases, inl, inr,
}
use native.Mathlib.Decide.{dec_lt}
use zynex_os.User.Malloc.{
  Heap, mend, mbegin, isfree_from, isfree, SpaceSearch, stopped, no_space, scanning, find_space,
}

-- `k` pages are what `n` bytes from the start of a page need.
abbrev pub IsPages : ℕ → ℕ → Type 0
IsPages n k = (n ≤ k * 4096) × (k * 4096 < n + 4096) × (0 < k)

isfree_from_end :
    (rounds : ℕ) (h : Heap) (va end_va : ℕ) (pte : Bool)
    → end_va ≤ va
    → isfree_from rounds h va end_va pte ≡ (va, pte)
unfolding isfree_from
isfree_from_end zero h va end_va pte le = refl
isfree_from_end (suc rounds) h va end_va pte le = rw out refl
  where
    out : ltb va end_va ≡ false
    out = ground arith

isfree_from_step :
    (rounds : ℕ) (h : Heap) (p n : ℕ) (pte : Bool)
    → 0 < n
    → isfree_from (suc rounds) h (p * 4096) (p * 4096 + n) pte
      ≡ isfree_from rounds h (suc p * 4096) (p * 4096 + n) (h.mapped p)
unfolding isfree_from
isfree_from_step rounds h p n pte lt =
    rw more (
      ap₂ (λ va q. isfree_from rounds h va (p * 4096 + n) (h.mapped q)) (omega arith) (omega arith))
  where
    more : ltb (p * 4096) (p * 4096 + n) ≡ true
    more = ground (arith, lt)

isfree_from_last :
    (rounds : ℕ) (h : Heap) (p n k : ℕ) (pte : Bool)
    → IsPages n k
    → 0 < n
    → k ≤ rounds
    → isfree_from rounds h (p * 4096) (p * 4096 + n) pte ≡ ((p + k) * 4096, h.mapped (p + k - 1))
isfree_from_last zero h p n k pte is lt le = absurd (omega arith)
isfree_from_last (suc rounds) h p n k pte is lt le =
    isfree_from_step rounds h p n pte lt ∙ elim (dec_lt 4096 n) [
      | no ge ↦
          isfree_from_end rounds h (suc p * 4096) (p * 4096 + n) (h.mapped p) (omega arith)
          ∙ ap₂ (λ a q. (a, h.mapped q)) (omega arith) (omega arith)
      | yes gt ↦
          ap (λ e. isfree_from rounds h (suc p * 4096) e (h.mapped p)) (omega arith)
          ∙ isfree_from_last rounds h (suc p) (n - 4096) (k - 1) (h.mapped p)
              (omega arith, omega arith, omega arith) (omega arith) (omega arith)
          ∙ ap₂ (λ a q. (a, h.mapped q)) (omega arith) (omega arith)
    ]

-- isfree looks at nothing but the last page of the range: it answers by the entry of that page, and
-- by whether the page after it is below `mend`, whatever is mapped at the pages before.
pub isfree-last :
    (h : Heap) (p n k : ℕ)
    → IsPages n k
    → 0 < n
    → isfree h (p * 4096) n
      ≡ (if leb mend ((p + k) * 4096) || h.mapped (p + k - 1) then false else true)
unfolding isfree
isfree-last h p n k is lt =
    ap (λ (r : ℕ × Bool). if leb mend r.0 || r.1 then false else true)
      (isfree_from_last (n / 4096 + 1) h p n k false is lt (omega arith))

isfree-past_end :
    (h : Heap) (p n : ℕ) → 0 < n → mend ≤ (p + 1) * 4096 → isfree h (p * 4096) n ≡ false
isfree-past_end h p n lt le =
    let k = (n + 4095) / 4096 in
    isfree-last h p n k (omega arith, omega arith, omega arith) lt
    ∙ ap (λ b. if b || h.mapped (p + k - 1) then false else true) past
  where
    past : leb mend ((p + (n + 4095) / 4096) * 4096) ≡ true
    past = ground arith

find_space_next :
    (fuel : ℕ) (h : Heap) (p nwrap n : ℕ)
    → isfree h (p * 4096) (n + 4) ≡ false
    → p + 1 ≢ 65536
    → find_space (suc fuel) h (p * 4096) nwrap n ≡ find_space fuel h ((p + 1) * 4096) nwrap n
unfolding find_space
find_space_next fuel h p nwrap n e ne =
    rw (e, other) (ap (λ a. find_space fuel h a nwrap n) (omega arith))
  where
    other : (p * 4096 + 4096 == mend) ≡ false
    other = ground arith

-- The scan that has come past `mend` never stops, however long it runs: it tests for equality with
-- `mend` only after a step.
pub find_space-past_end :
    (fuel : ℕ) (h : Heap) (p nwrap n : ℕ)
    → 65536 ≤ p
    → find_space fuel h (p * 4096) nwrap n ≡ scanning
unfolding find_space
find_space-past_end zero h p nwrap n le = refl
find_space-past_end (suc fuel) h p nwrap n le =
    find_space_next fuel h p nwrap n (isfree-past_end h p (n + 4) (omega arith) (omega arith))
      (omega arith)
    ∙ find_space-past_end fuel h (p + 1) nwrap n (omega arith)

-- Where a scan may stop.
abbrev pub Stopped : Heap → ℕ → SpaceSearch → Type 0
Stopped h n (stopped a) =
    (p : ℕ) × (a ≡ p * 4096) × (32768 ≤ p) × (p < 65536) × (isfree h a (n + 4) ≡ true)
Stopped h n (no_space a) = a ≡ mbegin
Stopped h n scanning = ⊥

find_space_stop :
    (fuel : ℕ) (h : Heap) (p nwrap n : ℕ)
    → isfree h (p * 4096) (n + 4) ≡ true
    → find_space (suc fuel) h (p * 4096) nwrap n ≡ stopped (p * 4096)
unfolding find_space
find_space_stop fuel h p nwrap n e = rw e refl

find_space_wrap :
    (fuel : ℕ) (h : Heap) (nwrap n : ℕ)
    → isfree h (65535 * 4096) (n + 4) ≡ false
    → find_space (suc fuel) h (65535 * 4096) nwrap n
      ≡ (if nwrap + 1 == 2 then no_space mbegin else find_space fuel h mbegin (nwrap + 1) n)
unfolding find_space
find_space_wrap fuel h nwrap n e = rw e refl

-- The scan from a page in the range stops, within a round for each page that is left and for each page
-- of the whole range once more: at a page in the range that isfree accepts, or, after the second time
-- round, at `mbegin` without one.
pub find_space-Stopped :
    (fuel : ℕ) (h : Heap) (p nwrap n : ℕ)
    → 32768 ≤ p
    → p < 65536
    → nwrap ≤ 1
    → 65536 - p + (1 - nwrap) * 32768 ≤ fuel
    → Stopped h n (find_space fuel h (p * 4096) nwrap n)
find_space-Stopped zero h p nwrap n lo hi w le = absurd (omega arith)
find_space-Stopped (suc fuel) h p nwrap n lo hi w le =
    elim (Bool-cases (isfree h (p * 4096) (n + 4))) [
      | inl e ↦ subst (Stopped h n) (sym (find_space_stop fuel h p nwrap n e)) (p, refl, lo, hi, e)
      | inr e ↦ elim (dec_lt p 65535) [
        | yes lt ↦
            subst (Stopped h n) (sym (find_space_next fuel h p nwrap n e (omega arith))) (
              find_space-Stopped fuel h (p + 1) nwrap n (omega arith) (omega arith) w (omega arith))
        | no ge ↦ at_last (omega arith) e (λ (u : nwrap ≡ 0).
            find_space-Stopped fuel h 32768 1 n (omega arith) (omega arith) (omega arith)
              (omega arith))
      ]
    ]
  where
    wrapped :
        (k : ℕ)
        → k ≤ 1
        → (k ≡ 0 → Stopped h n (find_space fuel h mbegin 1 n))
        → Stopped h n (if k + 1 == 2 then no_space mbegin else find_space fuel h mbegin (k + 1) n)
    wrapped zero le f = f refl
    wrapped (suc zero) le f = refl
    wrapped (suc (suc k)) le f = absurd (omega arith)

    at_last :
        p ≡ 65535
        → isfree h (p * 4096) (n + 4) ≡ false
        → (nwrap ≡ 0 → Stopped h n (find_space fuel h mbegin 1 n))
        → Stopped h n (find_space (suc fuel) h (p * 4096) nwrap n)
    at_last q e f =
        subst (λ p. Stopped h n (find_space (suc fuel) h (p * 4096) nwrap n)) (sym q)
          (subst (Stopped h n)
            (sym
              (find_space_wrap fuel h nwrap n (ap (λ p. isfree h (p * 4096) (n + 4)) (sym q) ∙ e)))
            (wrapped nwrap w f))
