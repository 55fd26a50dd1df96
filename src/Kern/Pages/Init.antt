-- ===== src/Kern/Pages/Init.antt =====
-- page_init of kern/riscv/pmap.c: which pages the free list holds after it.
use zynex_os.Base.{
  ℕ, zero, suc, ◌+◌, ◌-◌, ◌≤◌, ◌≡◌, refl, ◌∙◌, inl, inr, Bool, false, ◌&&◌, ◌||◌, none, List, [],
  ◌∷◌, arith, max, ltb, leb, ◌==◌, ◌!=◌, if◌then◌else◌, Bool-cases,
}
use zynex_os.Kern.Pages.{
  PageState, push_free, mark_used, init_used, init_base, init_rest, page_init,
}
use zynex_os.Kern.Pages.FreeList.{IsFreeList, has, Chain-update, push_free-IsFreeList}

mark_used-IsFreeList :
    (s : PageState) (i : ℕ) (xs : List ℕ)
    → IsFreeList s xs
    → has i xs ≡ false
    → IsFreeList (mark_used s i) xs
mark_used-IsFreeList s i xs is out = record {
  chain = Chain-update s.link i none s.free xs out is.chain;
  distinct = is.distinct;
  unreferenced = λ x h. ground (arith, is.unreferenced x);
}

-- The list after a loop: free exactly what `was` says.
record Holds (s : PageState) (was : ℕ → Bool) : Type 0 where
  pub list : List ℕ
  pub is_list : IsFreeList s list
  pub members : (x : ℕ) → has x list ≡ was x

abbrev pub in_range : ℕ → ℕ → ℕ → Bool
in_range lo hi x = leb lo x && ltb x hi

init_used-Holds :
    (n : ℕ) (s : PageState) (i : ℕ) (was : ℕ → Bool)
    → Holds s was
    → ((x : ℕ) → i ≤ x → was x ≡ false)
    → Holds (init_used n s i) was
unfolding init_used
init_used-Holds zero s i was h above = h
init_used-Holds (suc n) s i was h above =
    init_used-Holds n (mark_used s i) (suc i) was
      (record {
        list = h.list;
        is_list = mark_used-IsFreeList s i h.list h.is_list (h.members i ∙ above i (omega arith));
        members = h.members;
      })
      (λ x le. above x (omega arith))

Holds-cast :
    {s : PageState} (was now : ℕ → Bool) → ((x : ℕ) → was x ≡ now x) → Holds s was → Holds s now
Holds-cast was now same h = record {
  list = h.list;
  is_list = h.is_list;
  members = λ x. h.members x ∙ same x;
}

push_free-Holds :
    (s : PageState) (i : ℕ) (was : ℕ → Bool)
    → Holds s was
    → was i ≡ false
    → Holds (push_free s i) (λ x. (x == i) || was x)
push_free-Holds s i was h out = record {
  list = i ∷ h.list;
  is_list = push_free-IsFreeList s i h.list h.is_list (h.members i ∙ out);
  members = λ x. ground (arith, h.members x);
}

mark_used-Holds :
    (s : PageState) (i : ℕ) (was : ℕ → Bool)
    → Holds s was
    → was i ≡ false
    → Holds (mark_used s i) was
mark_used-Holds s i was h out = record {
  list = h.list;
  is_list = mark_used-IsFreeList s i h.list h.is_list (h.members i ∙ out);
  members = h.members;
}

init_rest-Holds :
    (n : ℕ) (s : PageState) (i : ℕ) (was : ℕ → Bool)
    → Holds s was
    → ((x : ℕ) → i ≤ x → was x ≡ false)
    → Holds (init_rest n s i) (λ x. was x || in_range i (i + n) x)
unfolding init_rest
init_rest-Holds zero s i was h above = record {
  list = h.list;
  is_list = h.is_list;
  members = λ x. ground (arith, h.members x);
}
init_rest-Holds (suc n) s i was h above =
    Holds-cast (λ x. (x == i) || was x || in_range (suc i) (suc i + n) x) _ (λ x. ground arith)
      (init_rest-Holds n (push_free s i) (suc i) (λ x. (x == i) || was x)
        (push_free-Holds s i was h (above i (omega arith))) (λ x le. ground (arith, above x)))

init_base-Holds :
    (mpentry n : ℕ) (s : PageState) (i : ℕ) (was : ℕ → Bool)
    → Holds s was
    → ((x : ℕ) → i ≤ x → was x ≡ false)
    → Holds (init_base mpentry n s i) (λ x. was x || (in_range i (i + n) x && x != mpentry))
unfolding init_base
init_base-Holds mpentry zero s i was h above = record {
  list = h.list;
  is_list = h.is_list;
  members = λ x. ground (arith, h.members x);
}
init_base-Holds mpentry (suc n) s i was h above = elim (Bool-cases (mpentry == i)) [
  | inl boot ↦ rw boot (
      Holds-cast (λ x. was x || (in_range (suc i) (suc i + n) x && x != mpentry)) _
        (λ x. ground arith)
        (init_base-Holds mpentry n (mark_used s i) (suc i) was
          (mark_used-Holds s i was h (above i (omega arith))) (λ x le. above x (omega arith))))
  | inr other ↦ rw other (
      Holds-cast (λ x. (x == i) || was x || (in_range (suc i) (suc i + n) x && x != mpentry)) _
        (λ x. ground arith)
        (init_base-Holds mpentry n (push_free s i) (suc i) (λ x. (x == i) || was x)
          (push_free-Holds s i was h (above i (omega arith))) (λ x le. ground (arith, above x))))
]

empty-Holds : (s : PageState) → s.free ≡ none → Holds s (λ _. false)
empty-Holds s empty = record {
  list = [];
  is_list = record { chain = empty; distinct = tt; unreferenced = λ x h. cc };
  members = λ x. refl;
}

-- page_init, from an empty list and with the base memory ending below the extended memory, leaves a
-- free list that holds each free page once: exactly the pages from the end of the firmware to the
-- end of base memory, without the page of the boot code, and those past the kernel.
pub page_init-IsFreeList :
    (firmware basemem extended kernel_end mpentry : ℕ) (s : PageState)
    → s.free ≡ none
    → basemem ≤ extended
    → firmware ≤ extended
    → (xs : List ℕ) × IsFreeList (page_init firmware basemem extended kernel_end mpentry s) xs
      × ((x : ℕ)
          → has x xs ≡ (
              (in_range firmware basemem x && x != mpentry)
              || in_range (max extended kernel_end) s.npages x))
unfolding page_init
page_init-IsFreeList firmware basemem extended kernel_end mpentry s empty low firm =
    let base = λ (x : ℕ). in_range firmware (firmware + (basemem - firmware)) x && x != mpentry in
    let i = if ltb extended kernel_end then kernel_end else extended in
    let s1 = init_used firmware s 0 in
    let s2 = init_base mpentry (basemem - firmware) s1 firmware in
    let s3 = init_used (kernel_end - extended) s2 extended in
    let h1 = init_used-Holds firmware s 0 (λ _. false) (empty-Holds s empty) (λ x le. refl) in
    let h2 =
      init_base-Holds mpentry (basemem - firmware) s1 firmware (λ _. false) h1 (λ x le. refl) in
    let h3 = init_used-Holds (kernel_end - extended) s2 extended base h2 (λ x le. ground arith) in
    let h4 = init_rest-Holds (s.npages - i) s3 i base h3 (λ x le. ground arith) in
    (h4.list, h4.is_list, λ x. h4.members x ∙ ground arith)
