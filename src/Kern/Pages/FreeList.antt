-- ===== src/Kern/Pages/FreeList.antt =====
-- The free list of kern/riscv/pmap.c as the list of pages that it links: page_init, page_alloc,
-- page_free and page_decref.
use zynex_os.Base.{
  ℕ, ◌+◌, ◌-◌, ◌^◌, ◌%◌, ◌≡◌, ◌≢◌, refl, ◌∙◌, ◌⊎◌, ◌↔◌, inl, inr, Bool, true, false, ◌||◌, Option,
  none, some, List, [], ◌∷◌, arith, ◌==◌, if◌then◌else◌,
}
use zynex_os.Kern.Pages.{
  PageState, update, frame_of_page, push_free, page_alloc, page_free, page_decref, add_ref,
}

abbrev pub has : ℕ → List ℕ → Bool
has x [] = false
has x (y ∷ ys) = (x == y) || has x ys

abbrev pub Distinct : List ℕ → Type 0
Distinct [] = Unit {0}
Distinct (x ∷ xs) = (has x xs ≡ false) × Distinct xs

-- From `o` the links lead through `xs`.
abbrev pub Chain : (ℕ → Option ℕ) → Option ℕ → List ℕ → Type 0
Chain link o [] = o ≡ none
Chain link o (x ∷ xs) = (o ≡ some x) × Chain link (link x) xs

-- The free list holds the pages `xs`, each once, and none of them is referenced.
pub record IsFreeList (s : PageState) (xs : List ℕ) : Type 0 where
  pub chain : Chain s.link s.free xs
  pub distinct : Distinct xs
  pub unreferenced : (x : ℕ) → has x xs ≡ true → s.ref x ≡ 0

pub Chain-update :
    (link : ℕ → Option ℕ) (y : ℕ) (v o : Option ℕ) (xs : List ℕ)
    → has y xs ≡ false
    → Chain link o xs
    → Chain (update link y v) o xs
Chain-update link y v o [] h c = c
Chain-update link y v o (x ∷ xs) h c =
    (c.0, rw (step (ground arith)) (Chain-update link y v (link x) xs (ground arith) c.1))
  where
    step : (x == y) ≡ false → update link y v x ≡ link x
    step e = ground arith

-- What page_alloc does with a free list that starts with `x`.
pub record Allocated (s : PageState) (x : ℕ) (xs : List ℕ) (zeroed : Bool)
    (r : Option ℕ × PageState) : Type 0 where
  pub result : r.0 ≡ some x
  pub rest : IsFreeList r.1 xs
  pub unlinked : r.1.link x ≡ none
  pub ref_same : (y : ℕ) → r.1.ref y ≡ s.ref y
  pub word_zero : zeroed ≡ true → (i : ℕ) → r.1.word (frame_of_page x) i ≡ 0
  pub word_same : (f i : ℕ) → f ≢ frame_of_page x → r.1.word f i ≡ s.word f i
  pub word_kept :
      zeroed ≡ false → (i : ℕ) → r.1.word (frame_of_page x) i ≡ s.word (frame_of_page x) i

-- The state after page_alloc took `x` from the head.
abbrev taken : PageState → ℕ → Bool → PageState
taken s x zeroed =
    let s' = record s { free = s.link x; link = update s.link x none } in
    if zeroed then record s' { word = update s.word (frame_of_page x) (λ _. 0) } else s'

page_alloc-taken :
    (s : PageState) (x : ℕ) (zeroed : Bool)
    → s.free ≡ some x
    → page_alloc s zeroed ≡ (some x, taken s x zeroed)
unfolding page_alloc
page_alloc-taken s x zeroed h = ground arith

taken-IsFreeList :
    (s : PageState) (x : ℕ) (xs : List ℕ) (zeroed : Bool)
    → IsFreeList s (x ∷ xs)
    → IsFreeList (taken s x zeroed) xs
taken-IsFreeList s x xs true is = record {
  chain = Chain-update s.link x none (s.link x) xs is.distinct.0 is.chain.1;
  distinct = is.distinct.1;
  unreferenced = λ y h. is.unreferenced y (ground arith);
}
taken-IsFreeList s x xs false is = record {
  chain = Chain-update s.link x none (s.link x) xs is.distinct.0 is.chain.1;
  distinct = is.distinct.1;
  unreferenced = λ y h. is.unreferenced y (ground arith);
}

-- page_alloc on a free list `x ∷ xs` returns `x`, leaves the list `xs` and no link at `x`, keeps all
-- reference counts, zeroes the page if asked (else leaves it), and writes to no other frame.
pub page_alloc-Allocated :
    (s : PageState) (x : ℕ) (xs : List ℕ) (zeroed : Bool)
    → IsFreeList s (x ∷ xs)
    → Allocated s x xs zeroed (page_alloc s zeroed)
page_alloc-Allocated s x xs zeroed is = rw (page_alloc-taken s x zeroed is.chain.0) (record {
  result = refl;
  rest = taken-IsFreeList s x xs zeroed is;
  unlinked = ground arith;
  ref_same = λ y. ground arith;
  word_zero = λ z i. ground arith;
  word_same = λ f i ne. ground arith;
  word_kept = λ z i. ground arith;
})

-- On an empty free list page_alloc returns NULL and changes nothing.
pub page_alloc-empty :
    (s : PageState) (zeroed : Bool) → IsFreeList s [] → page_alloc s zeroed ≡ (none, s)
unfolding page_alloc
page_alloc-empty s zeroed is = ground (arith, is.chain)

-- page_free panics exactly when the page is still referenced or linked.
pub page_free-none_iff :
    (s : PageState) (pp : ℕ) → (page_free s pp ≡ none) ↔ ((s.ref pp ≢ 0) ⊎ (s.link pp ≢ none))
unfolding page_free
page_free-none_iff s pp = (panics (s.link pp) refl, λ h. why h)
  where
    panics :
        (o : Option ℕ) → s.link pp ≡ o → page_free s pp ≡ none → (s.ref pp ≢ 0) ⊎ (s.link pp ≢ none)
    panics none e h = inl (ground arith)
    panics (some q) e h = inr (ground arith)

    why : (s.ref pp ≢ 0) ⊎ (s.link pp ≢ none) → page_free s pp ≡ none
    why (inl h) = ground arith
    why (inr h) = ground arith

-- page_free of a page that is unreferenced, unlinked and not on the list puts it in front.
pub page_free-IsFreeList :
    (s : PageState) (pp : ℕ) (xs : List ℕ)
    → IsFreeList s xs
    → has pp xs ≡ false
    → s.ref pp ≡ 0
    → s.link pp ≡ none
    → (s' : PageState) × (page_free s pp ≡ some s') × IsFreeList s' (pp ∷ xs)
unfolding page_free
page_free-IsFreeList s pp xs is fresh r l = (
  record s { link = update s.link pp s.free; free = some pp },
  ground arith,
  record {
    chain = (refl, rw at_pp (Chain-update s.link pp s.free s.free xs fresh is.chain));
    distinct = (fresh, is.distinct);
    unreferenced = λ x h. ground (arith, is.unreferenced x);
  },
)
  where
    at_pp : update s.link pp s.free pp ≡ s.free
    at_pp = ground arith

-- A new count at a page off the list keeps the list.
IsFreeList-ref :
    (s : PageState) (pp n : ℕ) (xs : List ℕ)
    → IsFreeList s xs
    → has pp xs ≡ false
    → IsFreeList (record s { ref = update s.ref pp n }) xs
IsFreeList-ref s pp n xs is out = record {
  chain = is.chain;
  distinct = is.distinct;
  unreferenced = λ x h. ground (arith, is.unreferenced x);
}

pub push_free-IsFreeList :
    (s : PageState) (i : ℕ) (xs : List ℕ)
    → IsFreeList s xs
    → has i xs ≡ false
    → IsFreeList (push_free s i) (i ∷ xs)
push_free-IsFreeList s i xs is out = record {
  chain = (refl, rw at_i (Chain-update s.link i s.free s.free xs out is.chain));
  distinct = (out, is.distinct);
  unreferenced = λ x h. ground (arith, is.unreferenced x);
}
  where
    at_i : update s.link i s.free i ≡ s.free
    at_i = ground arith

-- Dropping the last reference puts the page on the free list.
pub page_decref_last :
    (s : PageState) (pp : ℕ)
    → s.ref pp ≡ 1
    → s.link pp ≡ none
    → page_decref s pp ≡ some (push_free s pp)
unfolding page_decref page_free
page_decref_last s pp h unlinked = rw one (ground arith)
  where
    one : (s.ref pp + (2 ^ 16 - 1)) % 2 ^ 16 ≡ 0
    one = omega arith

-- A page that page_alloc took from the free list `x ∷ xs`, once referenced and then dereferenced by
-- page_decref, is back at the head of the free list `x ∷ xs`, without a panic.
pub page_decref-page_alloc :
    (s : PageState) (x : ℕ) (xs : List ℕ) (zeroed : Bool)
    → IsFreeList s (x ∷ xs)
    → (s' : PageState) × (page_decref (add_ref (page_alloc s zeroed).1 x) x ≡ some s')
      × IsFreeList s' (x ∷ xs)
page_decref-page_alloc s x xs zeroed is =
    let a = page_alloc-Allocated s x xs zeroed is in
    let t = add_ref (page_alloc s zeroed).1 x in
    (
      push_free t x,
      page_decref_last t x (one (a.ref_same x ∙ is.unreferenced x (ground arith))) a.unlinked,
      push_free-IsFreeList t x xs
          (IsFreeList-ref (page_alloc s zeroed).1 x _ xs a.rest is.distinct.0) is.distinct.0,
    )
  where
    one : (page_alloc s zeroed).1.ref x ≡ 0 → (add_ref (page_alloc s zeroed).1 x).ref x ≡ 1
    one h = ground arith
