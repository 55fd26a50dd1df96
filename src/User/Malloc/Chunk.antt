-- ===== src/User/Malloc/Chunk.antt =====
-- The pages of a chunk of lib/riscv/malloc.c: how malloc maps them and free gives them back.
use zynex_os.Base.{
  ℕ, zero, suc, ◌+◌, ◌*◌, ◌≤◌, ◌<◌, ◌≡◌, ◌≢◌, ◌⊎◌, refl, ◌∙◌, ap, subst, Bool, true, false, Option,
  none, some, arith, ltb, ◌==◌, if◌then◌else◌, inl, inr,
}
use native.Mathlib.Decide.{dec_lt}
use zynex_os.User.Malloc.{Heap, set_at, map_new_page, unmap_page, unmap_pages, alloc_pages}
use zynex_os.User.Malloc.Space.{IsPages}

pub set_at_self {ℓ} : {A : Type ℓ} (f : ℕ → A) (p : ℕ) (v : A) → set_at f p v p ≡ v
set_at_self f p v = rw here refl
  where
    here : (p == p) ≡ true
    here = ground arith

pub set_at_ne {ℓ} : {A : Type ℓ} (f : ℕ → A) (p q : ℕ) (v : A) → q ≢ p → set_at f p v q ≡ f q
set_at_ne f p q v ne = rw other refl
  where
    other : (q == p) ≡ false
    other = ground (arith, ne)

-- The entry and the reference count of a page are the same in both.
pub record Same (h h' : Heap) (q : ℕ) : Type 0 where
  pub mapped : h'.mapped q ≡ h.mapped q
  pub continued : h'.continued q ≡ h.continued q
  pub ref : h'.ref q ≡ h.ref q

pub Same-trans : (a b c : Heap) (q : ℕ) → Same a b q → Same b c q → Same a c q
Same-trans a b c q s t = record {
  mapped = t.mapped ∙ s.mapped;
  continued = t.continued ∙ s.continued;
  ref = t.ref ∙ s.ref;
}

map_new_page-Same : (h : Heap) (p q : ℕ) (cont : Bool) → q ≢ p → Same h (map_new_page h p cont) q
map_new_page-Same h p q cont ne = record {
  mapped = set_at_ne h.mapped p q true ne;
  continued = set_at_ne h.continued p q cont ne;
  ref = set_at_ne h.ref p q 0 ne;
}

pub unmap_page-Same : (h : Heap) (p q : ℕ) → q ≢ p → Same h (unmap_page h p) q
unmap_page-Same h p q ne = record {
  mapped = set_at_ne h.mapped p q false ne;
  continued = set_at_ne h.continued p q false ne;
  ref = refl;
}

-- Pages `first + k` to `first + total - 1` are mapped, and all but the last are continued.
pub record Chunk (first k total : ℕ) (h h' : Heap) : Type 0 where
  pub inside :
      (q : ℕ)
      → first + k ≤ q
      → q < first + total
      → (h'.mapped q ≡ true) × (h'.continued q ≡ ltb (suc q) (first + total))
  pub outside : (q : ℕ) → (q < first + k) ⊎ (first + total ≤ q) → Same h h' q

-- Pages `first` to `first + k - 1` are not mapped, and no page is mapped that was not before.
pub record Cleared (first k total : ℕ) (h h' : Heap) : Type 0 where
  pub below : (q : ℕ) → first ≤ q → q < first + k → h'.mapped q ≡ false
  pub inside : (q : ℕ) → first + k ≤ q → (h'.mapped q ≡ false) ⊎ (h'.mapped q ≡ h.mapped q)
  pub outside : (q : ℕ) → (q < first) ⊎ (first + total ≤ q) → h'.mapped q ≡ h.mapped q

abbrev pub Outcome : (first k total : ℕ) → Heap → Option ℕ × Heap → Type 0
Outcome first k total h (some j, h') = (j ≡ total) × Chunk first k total h h'
Outcome first k total h (none, h') = Cleared first k total h h'

unmap_pages-outside :
    (h : Heap) (first k q : ℕ)
    → (q < first) ⊎ (first + k < q)
    → (unmap_pages h first k).mapped q ≡ h.mapped q
unmap_pages-outside h first zero q o = (unmap_page-Same h first q (omega arith)).mapped
unmap_pages-outside h first (suc k) q o =
    unmap_pages-outside (unmap_page h (first + suc k)) first k q (ground arith)
    ∙ (unmap_page-Same h (first + suc k) q (omega arith)).mapped

unmap_pages-inside :
    (h : Heap) (first k q : ℕ)
    → first ≤ q
    → q ≤ first + k
    → (unmap_pages h first k).mapped q ≡ false
unmap_pages-inside h first zero q le le' =
    ap (set_at h.mapped first false) (omega arith) ∙ set_at_self h.mapped first false
unmap_pages-inside h first (suc k) q le le' = elim (dec_lt (first + k) q) [
  | no ge ↦ unmap_pages-inside (unmap_page h (first + suc k)) first k q le (omega arith)
  | yes lt ↦
      unmap_pages-outside (unmap_page h (first + suc k)) first k q (inr lt)
      ∙ ap (set_at h.mapped (first + suc k) false) (omega arith)
      ∙ set_at_self h.mapped (first + suc k) false
]

unmap_pages-Cleared :
    (h : Heap) (first k total : ℕ) → k < total → Cleared first k total h (unmap_pages h first k)
unmap_pages-Cleared h first k total lt = record {
  below = λ q le le'. unmap_pages-inside h first k q le (omega arith);
  inside = λ q le. elim (dec_lt (first + k) q) [
    | no ge ↦ inl (unmap_pages-inside h first k q (omega arith) (omega arith))
    | yes gt ↦ inr (unmap_pages-outside h first k q (inr gt))
  ];
  outside = λ q o. unmap_pages-outside h first k q (ground arith);
}

continues :
    (first k total n : ℕ)
    → IsPages (n + 4) total
    → k < total
    → ltb (k * 4096 + 4096) (n + 4) ≡ ltb (suc (first + k)) (first + total)
continues first k total n is lt = ground (arith, is, lt)

-- The page that a round maps, under the pages of the later rounds.
Outcome_step :
    (first k total n : ℕ) (h : Heap) (r : Option ℕ × Heap)
    → IsPages (n + 4) total
    → k < total
    → Outcome first (suc k) total (map_new_page h (first + k) (ltb (k * 4096 + 4096) (n + 4))) r
    → Outcome first k total h r
Outcome_step first k total n h (some j, h') is lt o =
    let cont = ltb (k * 4096 + 4096) (n + 4) in
    let c = o.1 in
    let old : (q : ℕ)
        → (q < first + suc k) ⊎ (first + total ≤ q)
        → Same (map_new_page h (first + k) cont) h' q =
      c.outside in
    (
      o.0,
      record {
        inside = λ q le le'. elim (dec_lt (first + k) q) [
          | yes gt ↦ c.inside q (omega arith) le'
          | no ge ↦
              subst (λ q. (h'.mapped q ≡ true) × (h'.continued q ≡ ltb (suc q) (first + total)))
                (omega arith)
                (let s = old (first + k) (inl (omega arith)) in
                  (
                    s.mapped ∙ set_at_self h.mapped (first + k) true,
                    s.continued
                        ∙ set_at_self h.continued (first + k) cont
                        ∙ continues first k total n is lt,
                  ))
        ];
        outside = λ q u.
            Same-trans h (map_new_page h (first + k) cont) h' q
              (map_new_page-Same h (first + k) q cont (omega arith)) (old q (ground arith));
      },
    )
Outcome_step first k total n h (none, h') is lt c = record {
  below = λ q le le'. c.below q le (omega arith);
  inside = λ q le. elim (dec_lt (first + k) q) [
    | yes gt ↦ elim (c.inside q (omega arith)) [
      | inl e ↦ inl e
      | inr e ↦ inr (e ∙ (map_new_page-Same h (first + k) q false (omega arith)).mapped)
    ]
    | no ge ↦ inl (c.below q (omega arith) (omega arith))
  ];
  outside = λ q u. c.outside q u ∙ (map_new_page-Same h (first + k) q false (omega arith)).mapped;
}

alloc_pages_done : (h : Heap) (first k total : ℕ) → k ≡ total → Outcome first k total h (some k, h)
alloc_pages_done h first k total e = (
  e,
  record {
    inside = λ q le lt. absurd (omega arith);
    outside = λ q o. record { mapped = refl; continued = refl; ref = refl };
  },
)

-- The loop of malloc over the pages of a chunk, with a round for each page.
pub alloc_pages-Outcome :
    (rounds : ℕ) (grants : Heap → ℕ → Bool) (h : Heap) (first k n total : ℕ)
    → IsPages (n + 4) total
    → k ≤ total
    → total ≤ k + rounds
    → Outcome first k total h (alloc_pages rounds grants h first k n)
unfolding alloc_pages
alloc_pages-Outcome zero grants h first k n total is le r =
    alloc_pages_done h first k total (omega arith)
alloc_pages-Outcome (suc rounds) grants h first k n total is le r = elim (dec_lt k total) [
  | no ge ↦ rw (stop (omega arith)) (alloc_pages_done h first k total (omega arith))
  | yes lt ↦ rw (more lt) (
      granted (grants h (first + k)) _ _
        (Outcome_step first k total n h
          (alloc_pages rounds grants (map_new_page h (first + k) (ltb (k * 4096 + 4096) (n + 4)))
            first (suc k) n)
          is lt
          (alloc_pages-Outcome rounds grants
            (map_new_page h (first + k) (ltb (k * 4096 + 4096) (n + 4))) first (suc k) n total is lt
            (omega arith)))
        (unmap_pages-Cleared h first k total lt))
]
  where
    more : k < total → ltb (k * 4096) (n + 4) ≡ true
    more lt = ground (arith, is, lt)

    stop : k ≡ total → ltb (k * 4096) (n + 4) ≡ false
    stop e = ground (arith, is, e)

    granted :
        (b : Bool) (x : Option ℕ × Heap) (y : Heap)
        → Outcome first k total h x
        → Cleared first k total h y
        → Outcome first k total h (if b then x else (none, y))
    granted true x y p c = p
    granted false x y p c = c
