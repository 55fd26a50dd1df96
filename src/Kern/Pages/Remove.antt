-- ===== src/Kern/Pages/Remove.antt =====
-- page_remove of kern/riscv/pmap.c at an address whose tables exist.
use zynex_os.Base.{
  ℕ, ◌+◌, ◌-◌, ◌%◌, ◌^◌, ◌≤◌, ◌<◌, ◌≡◌, ◌≢◌, refl, sym, ap, ap₂, ◌∙◌, ◌⊎◌, inl, inr, true, false,
  none, some, List, ◌∷◌, arith, ◌==◌, Bool-cases,
}
use zynex_os.Kern.Pages.{
  PageState, update, read_word, write_word, unmapped, mapped, page_lookup, page_remove, page_decref,
  page_insert, inserted, push_free,
}
use zynex_os.Kern.Pages.FreeList.{IsFreeList, has, page_decref_last, push_free-IsFreeList}
use zynex_os.Kern.Pages.Mapping.{
  Walks, Mapped, Walks-same, write_word_self, write_word_ne, page_lookup-zero, page_decref_many,
  page_insert-empty,
}

page_remove-page_decref :
    (s s' : PageState) (pgdir va pp : ℕ) (slot : ℕ × ℕ)
    → page_lookup s pgdir va ≡ some (mapped pp slot)
    → s.ref pp ≢ 0
    → page_decref s pp ≡ some s'
    → page_remove s pgdir va ≡ some (write_word s' slot 0)
unfolding page_remove
page_remove-page_decref s s' pgdir va pp slot l ne d = rw (l, page_remove) (ground (arith, d))

-- The mapping at `va` is gone in `t`, which has the words of `s` in all other slots.
pub record Removed (s : PageState) (pgdir va : ℕ) (slot : ℕ × ℕ) (t : PageState) : Type 0 where
  pub lookup : page_lookup t pgdir va ≡ some unmapped
  pub slot_zero : read_word t slot ≡ 0
  pub word_same : (f i : ℕ) → (f ≢ slot.0) ⊎ (i ≢ slot.1) → t.word f i ≡ s.word f i

page_remove-Removed :
    (s s' : PageState) (pgdir va : ℕ) (slot : ℕ × ℕ)
    → Walks s pgdir va slot
    → ((f i : ℕ) → s'.word f i ≡ s.word f i)
    → s'.npages ≡ s.npages
    → Removed s pgdir va slot (write_word s' slot 0)
page_remove-Removed s s' pgdir va slot w same n =
    let others : (f i : ℕ)
        → (f ≢ slot.0) ⊎ (i ≢ slot.1)
        → (write_word s' slot 0).word f i ≡ s.word f i =
      λ f i ne. write_word_ne s' slot 0 f i ne ∙ same f i in
    let zero_word : read_word (write_word s' slot 0) slot ≡ 0 = write_word_self s' slot 0 in
    record {
      lookup =
          page_lookup-zero (write_word s' slot 0) pgdir va slot
            (Walks-same s _ pgdir va slot (λ f i ne. others f i (inl ne)) n w) zero_word;
      slot_zero = zero_word;
      word_same = others;
    }

-- page_remove of a page that has other references clears the slot alone, so that page_lookup finds
-- nothing there, lowers the count of that page alone by one, and leaves the free list as it is.
pub page_remove-shared :
    (s : PageState) (pgdir va pp : ℕ) (slot : ℕ × ℕ)
    → Walks s pgdir va slot
    → page_lookup s pgdir va ≡ some (mapped pp slot)
    → 1 < s.ref pp
    → s.ref pp < 2 ^ 16
    → (t : PageState) × (page_remove s pgdir va ≡ some t)
      × Removed s pgdir va slot t
      × (t.ref pp + 1 ≡ s.ref pp)
      × ((q : ℕ) → q ≢ pp → t.ref q ≡ s.ref q)
      × (t.free ≡ s.free)
      × (t.link ≡ s.link)
page_remove-shared s pgdir va pp slot w l h k =
    let s' = record s { ref = update s.ref pp (s.ref pp - 1) } in
    (
      write_word s' slot 0,
      page_remove-page_decref s s' pgdir va pp slot l (omega arith) (page_decref_many s pp h k),
      page_remove-Removed s s' pgdir va slot w (λ f i. refl) refl,
      ground arith,
      λ q ne. ground arith,
      refl,
      refl,
    )

-- page_remove of a page whose last reference this is clears the slot, and puts the page at the head
-- of the free list with a count of 0; no other count changes.
pub page_remove_last :
    (s : PageState) (pgdir va pp : ℕ) (slot : ℕ × ℕ) (xs : List ℕ)
    → Walks s pgdir va slot
    → page_lookup s pgdir va ≡ some (mapped pp slot)
    → s.ref pp ≡ 1
    → s.link pp ≡ none
    → IsFreeList s xs
    → has pp xs ≡ false
    → (t : PageState) × (page_remove s pgdir va ≡ some t)
      × Removed s pgdir va slot t
      × IsFreeList t (pp ∷ xs)
      × ((q : ℕ) → q ≢ pp → t.ref q ≡ s.ref q)
page_remove_last s pgdir va pp slot xs w l one unlinked is out =
    let list = push_free-IsFreeList s pp xs is out in
    (
      write_word (push_free s pp) slot 0,
      page_remove-page_decref s (push_free s pp) pgdir va pp slot l (omega arith)
          (page_decref_last s pp one unlinked),
      page_remove-Removed s (push_free s pp) pgdir va slot w (λ f i. refl) refl,
      record { chain = list.chain; distinct = list.distinct; unreferenced = list.unreferenced },
      λ q ne. ground arith,
    )

-- At an address whose tables exist and whose slot is empty, page_remove undoes page_insert of a
-- page that is already referenced (and is below the limit of its counter): every word of memory and
-- every reference count is what it was.
pub page_remove-page_insert :
    (s : PageState) (pgdir va pp perm : ℕ) (slot : ℕ × ℕ)
    → Walks s pgdir va slot
    → read_word s slot ≡ 0
    → pp < s.npages
    → s.npages ≤ 2 ^ 19
    → perm < 2 ^ 10
    → 0 < s.ref pp
    → s.ref pp + 1 < 2 ^ 16
    → (t u : PageState) × (page_insert s pgdir pp va perm ≡ some (inserted, t))
      × (page_remove t pgdir va ≡ some u)
      × ((f i : ℕ) → u.word f i ≡ s.word f i)
      × ((q : ℕ) → u.ref q ≡ s.ref q)
page_remove-page_insert s pgdir va pp perm slot w e h small p held room =
    let (t, ins, m, count, others) = page_insert-empty s pgdir va pp perm slot w e h small p in
    let (u, rem, r, lowered, kept, _, _) =
      page_remove-shared t pgdir va pp slot m.walks m.lookup (omega arith) (omega arith) in
    (t, u, ins, rem, words t u m r, refs t u count others lowered kept)
  where
    words :
        (t u : PageState)
        → Mapped s pgdir va pp slot t
        → Removed t pgdir va slot u
        → (f i : ℕ) → u.word f i ≡ s.word f i
    words t u m r f i = elim (Bool-cases (f == slot.0)) [
      | inl same_frame ↦ elim (Bool-cases (i == slot.1)) [
        | inl same_index ↦
            at f i (ground arith) (ground arith) u
            ∙ r.slot_zero
            ∙ sym e
            ∙ sym (at f i (ground arith) (ground arith) s)
        | inr ne ↦ r.word_same f i (inr (ground arith)) ∙ m.word_same f i (inr (ground arith))
      ]
      | inr ne ↦ r.word_same f i (inl (ground arith)) ∙ m.word_same f i (inl (ground arith))
    ]
      where
        at : (f i : ℕ) → f ≡ slot.0 → i ≡ slot.1 → (v : PageState) → v.word f i ≡ read_word v slot
        at f i a b v = ap₂ v.word a b

    refs :
        (t u : PageState)
        → t.ref pp ≡ (s.ref pp + 1) % 2 ^ 16
        → ((q : ℕ) → q ≢ pp → t.ref q ≡ s.ref q)
        → u.ref pp + 1 ≡ t.ref pp
        → ((q : ℕ) → q ≢ pp → u.ref q ≡ t.ref q)
        → (q : ℕ) → u.ref q ≡ s.ref q
    refs t u count others lowered kept q = elim (Bool-cases (q == pp)) [
      | inl same ↦ ap u.ref (eq same) ∙ back ∙ sym (ap s.ref (eq same))
      | inr ne ↦ kept q (ground arith) ∙ others q (ground arith)
    ]
      where
        eq : (q == pp) ≡ true → q ≡ pp
        eq same = ground arith

        back : u.ref pp ≡ s.ref pp
        back = omega arith
