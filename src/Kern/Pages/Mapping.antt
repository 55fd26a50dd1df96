-- ===== src/Kern/Pages/Mapping.antt =====
-- page_lookup, page_insert and page_remove of kern/riscv/pmap.c at an address whose tables exist.
use Prim.Native.Nat.{bit_or}
use zynex_os.Base.{
  ℕ, ◌+◌, ◌-◌, ◌%◌, ◌^◌, ◌≤◌, ◌<◌, ◌≡◌, ◌≢◌, sym, ap, ◌∙◌, ◌⊎◌, inl, Bool, true, false, some, arith,
}
use zynex_os.Base.BitOr.{bit_or-div, bit_or-one}
use zynex_os.Kern.Pages.{
  PageState, update, frame_of_page, frame_of_entry, entry_of_page, make_entry, entry_page_bits,
  page_of_frame, read_word, write_word, add_ref, drop_if_head, pgdir_walk_through, pgdir_walk,
  slot_at, pd0x, pd1x, pd2x, unmapped, mapped, page_lookup, page_decref, insert_at, insert_walked,
  inserted, page_insert,
}

frame_of_entry-make_entry :
    (pp perm : ℕ)
    → pp < 2 ^ 19
    → perm < 2 ^ 10
    → frame_of_entry (make_entry pp perm) ≡ frame_of_page pp
frame_of_entry-make_entry pp perm small p = omega (
  arith,
  bit_or-div (bit_or (entry_of_page pp) perm) 1 (omega arith),
  bit_or-div (entry_of_page pp) perm p,
)

make_entry-ne_zero : (pp perm : ℕ) → make_entry pp perm ≢ 0
make_entry-ne_zero pp perm = omega (arith, bit_or-one (bit_or (entry_of_page pp) perm))

entry_page_bits-make_entry :
    (pp perm : ℕ)
    → pp < 2 ^ 19
    → perm < 2 ^ 10
    → entry_page_bits (make_entry pp perm) ≡ entry_of_page pp
entry_page_bits-make_entry pp perm small p = omega (
  arith,
  bit_or-div (bit_or (entry_of_page pp) perm) 1 (omega arith),
  bit_or-div (entry_of_page pp) perm p,
)

-- The tables that lead to `va` exist, and its slot lies in a frame that is none of the upper three.
pub record Walks (s : PageState) (pgdir va : ℕ) (slot : ℕ × ℕ) : Type 0 where
  pub found : pgdir_walk_through s pgdir va ≡ slot_at slot
  pub apart0 : slot.0 ≢ pgdir
  pub apart1 : slot.0 ≢ frame_of_entry (s.word pgdir (pd0x va))
  pub apart2 : slot.0 ≢ frame_of_entry (s.word (frame_of_entry (s.word pgdir (pd0x va))) (pd1x va))

-- The walk reads no word of the slot's own frame.
pub Walks-same :
    (s t : PageState) (pgdir va : ℕ) (slot : ℕ × ℕ)
    → ((f i : ℕ) → f ≢ slot.0 → t.word f i ≡ s.word f i)
    → t.npages ≡ s.npages
    → Walks s pgdir va slot
    → Walks t pgdir va slot
unfolding pgdir_walk_through
Walks-same s t pgdir va slot same n w =
    let e0 : t.word pgdir (pd0x va) ≡ s.word pgdir (pd0x va) =
      same pgdir (pd0x va) (λ e. w.apart0 (sym e)) in
    let f1 = frame_of_entry (s.word pgdir (pd0x va)) in
    let e1 : t.word f1 (pd1x va) ≡ s.word f1 (pd1x va) =
      same f1 (pd1x va) (λ e. w.apart1 (sym e)) in
    let f2 = frame_of_entry (s.word f1 (pd1x va)) in
    let e2 : t.word f2 (pd2x va) ≡ s.word f2 (pd2x va) =
      same f2 (pd2x va) (λ e. w.apart2 (sym e)) in
    record {
      found = rw (e0, e1, e2, n) w.found;
      apart0 = w.apart0;
      apart1 = rw e0 w.apart1;
      apart2 = rw (e0, e1) w.apart2;
    }

pub pgdir_walk-Walks :
    (s : PageState) (pgdir va : ℕ) (slot : ℕ × ℕ) (create : Bool)
    → Walks s pgdir va slot
    → pgdir_walk s pgdir va create ≡ (slot_at slot, s)
unfolding pgdir_walk
pgdir_walk-Walks s pgdir va slot create w = rw (w.found, pgdir_walk)

page_lookup-entry :
    (s : PageState) (pgdir va pp perm : ℕ) (slot : ℕ × ℕ)
    → Walks s pgdir va slot
    → read_word s slot ≡ make_entry pp perm
    → pp < s.npages
    → s.npages ≤ 2 ^ 19
    → perm < 2 ^ 10
    → page_lookup s pgdir va ≡ some (mapped pp slot)
unfolding page_lookup page_of_frame
page_lookup-entry s pgdir va pp perm slot w e h n p =
    rw (pgdir_walk-Walks s pgdir va slot false w, page_lookup)
      (rw e (
        ground
          (arith, make_entry-ne_zero pp perm, frame_of_entry-make_entry pp perm (omega arith) p)))

-- `va` is mapped to `pp` in `t`, which differs from `s` in the slot, the counts and the list alone.
pub record Mapped (s : PageState) (pgdir va pp : ℕ) (slot : ℕ × ℕ) (t : PageState) : Type 0 where
  pub walks : Walks t pgdir va slot
  pub lookup : page_lookup t pgdir va ≡ some (mapped pp slot)
  pub word_same : (f i : ℕ) → (f ≢ slot.0) ⊎ (i ≢ slot.1) → t.word f i ≡ s.word f i
  pub npages_same : t.npages ≡ s.npages

drop_if_head_word : (s : PageState) (pp : ℕ) → (drop_if_head s pp).word ≡ s.word
drop_if_head_word s pp = ground arith

drop_if_head_ref : (s : PageState) (pp : ℕ) → (drop_if_head s pp).ref ≡ s.ref
drop_if_head_ref s pp = ground arith

drop_if_head_npages : (s : PageState) (pp : ℕ) → (drop_if_head s pp).npages ≡ s.npages
drop_if_head_npages s pp = ground arith

pub write_word_self :
    (s : PageState) (slot : ℕ × ℕ) (v : ℕ) → read_word (write_word s slot v) slot ≡ v
write_word_self s (f, i) v = ground arith

pub write_word_ne :
    (s : PageState) (slot : ℕ × ℕ) (v f i : ℕ)
    → (f ≢ slot.0) ⊎ (i ≢ slot.1)
    → (write_word s slot v).word f i ≡ s.word f i
write_word_ne s (g, j) v f i h = ground arith

-- A state whose slot holds the entry, and that is `s` elsewhere, maps the page.
page_insert-Mapped :
    (s t : PageState) (pgdir va pp perm : ℕ) (slot : ℕ × ℕ)
    → Walks s pgdir va slot
    → ((f i : ℕ) → (f ≢ slot.0) ⊎ (i ≢ slot.1) → t.word f i ≡ s.word f i)
    → read_word t slot ≡ make_entry pp perm
    → t.npages ≡ s.npages
    → pp < s.npages
    → s.npages ≤ 2 ^ 19
    → perm < 2 ^ 10
    → Mapped s pgdir va pp slot t
page_insert-Mapped s t pgdir va pp perm slot w same e n h small p =
    let w' = Walks-same s t pgdir va slot (λ f i ne. same f i (inl ne)) n w in
    record {
      walks = w';
      lookup = page_lookup-entry t pgdir va pp perm slot w' e (omega arith) (omega arith) p;
      word_same = same;
      npages_same = n;
    }

-- `t` with the entry for `pp` written, and its count raised.
abbrev with_entry : PageState → ℕ → ℕ → ℕ × ℕ → PageState
with_entry t pp perm slot = drop_if_head (write_word (add_ref t pp) slot (make_entry pp perm)) pp

with_entry-Mapped :
    (s : PageState) (pgdir va pp perm : ℕ) (slot : ℕ × ℕ)
    → Walks s pgdir va slot
    → pp < s.npages
    → s.npages ≤ 2 ^ 19
    → perm < 2 ^ 10
    → Mapped s pgdir va pp slot (with_entry s pp perm slot)
with_entry-Mapped s pgdir va pp perm slot w h small p =
    let t = write_word (add_ref s pp) slot (make_entry pp perm) in
    page_insert-Mapped s (with_entry s pp perm slot) pgdir va pp perm slot w
      (λ f i ne.
        ap (λ g. g f i) (drop_if_head_word t pp) ∙ write_word_ne (add_ref s pp) slot _ f i ne)
      (ap (λ g. g slot.0 slot.1) (drop_if_head_word t pp) ∙ write_word_self (add_ref s pp) slot _)
      (drop_if_head_npages t pp) h small p

pub page_insert-insert_at :
    (s : PageState) (pgdir va pp perm : ℕ) (slot : ℕ × ℕ)
    → Walks s pgdir va slot
    → page_insert s pgdir pp va perm ≡ insert_at s pgdir pp va perm slot
unfolding page_insert insert_walked
page_insert-insert_at s pgdir va pp perm slot w =
    ap (insert_walked pgdir pp va perm) (pgdir_walk-Walks s pgdir va slot true w)

insert_at-empty :
    (s : PageState) (pgdir va pp perm : ℕ) (slot : ℕ × ℕ)
    → read_word s slot ≡ 0
    → insert_at s pgdir pp va perm slot ≡ some (inserted, with_entry s pp perm slot)
unfolding insert_at
insert_at-empty s pgdir va pp perm slot e = rw e

with_entry_ref :
    (s : PageState) (pp perm q : ℕ) (slot : ℕ × ℕ)
    → (with_entry s pp perm slot).ref q ≡ (add_ref s pp).ref q
with_entry_ref s pp perm q slot =
    ap (λ g. g q) (drop_if_head_ref (write_word (add_ref s pp) slot (make_entry pp perm)) pp)

-- page_insert at an address whose tables exist and whose slot is empty succeeds: page_lookup then
-- finds the page in that slot, its count rises by one (a 16-bit counter), no other count and no
-- other word of the page tables changes.
pub page_insert-empty :
    (s : PageState) (pgdir va pp perm : ℕ) (slot : ℕ × ℕ)
    → Walks s pgdir va slot
    → read_word s slot ≡ 0
    → pp < s.npages
    → s.npages ≤ 2 ^ 19
    → perm < 2 ^ 10
    → (t : PageState) × (page_insert s pgdir pp va perm ≡ some (inserted, t))
      × Mapped s pgdir va pp slot t
      × (t.ref pp ≡ (s.ref pp + 1) % 2 ^ 16)
      × ((q : ℕ) → q ≢ pp → t.ref q ≡ s.ref q)
page_insert-empty s pgdir va pp perm slot w e h small p = (
  with_entry s pp perm slot,
  page_insert-insert_at s pgdir va pp perm slot w ∙ insert_at-empty s pgdir va pp perm slot e,
  with_entry-Mapped s pgdir va pp perm slot w h small p,
  with_entry_ref s pp perm pp slot ∙ ground arith,
  λ q ne. with_entry_ref s pp perm q slot ∙ ground arith,
)

insert_at_same :
    (s : PageState) (pgdir va pp perm old_perm : ℕ) (slot : ℕ × ℕ)
    → read_word s slot ≡ make_entry pp old_perm
    → pp < 2 ^ 19
    → old_perm < 2 ^ 10
    → insert_at s pgdir pp va perm slot
      ≡ some (inserted, drop_if_head (write_word s slot (make_entry pp perm)) pp)
unfolding insert_at
insert_at_same s pgdir va pp perm old_perm slot e small p =
    ground (arith, make_entry-ne_zero pp old_perm, entry_page_bits-make_entry pp old_perm small p)

-- page_insert of the page that is mapped there already, with other flags, changes the flags: the
-- page stays found in its slot and no reference count changes.
pub page_insert_same :
    (s : PageState) (pgdir va pp perm old_perm : ℕ) (slot : ℕ × ℕ)
    → Walks s pgdir va slot
    → read_word s slot ≡ make_entry pp old_perm
    → pp < s.npages
    → s.npages ≤ 2 ^ 19
    → perm < 2 ^ 10
    → old_perm < 2 ^ 10
    → (t : PageState) × (page_insert s pgdir pp va perm ≡ some (inserted, t))
      × Mapped s pgdir va pp slot t
      × (read_word t slot ≡ make_entry pp perm)
      × ((q : ℕ) → t.ref q ≡ s.ref q)
page_insert_same s pgdir va pp perm old_perm slot w e h small p p' =
    let u = write_word s slot (make_entry pp perm) in
    let t = drop_if_head u pp in
    let entry : read_word t slot ≡ make_entry pp perm =
      ap (λ g. g slot.0 slot.1) (drop_if_head_word u pp) ∙ write_word_self s slot _ in
    (
      t,
      page_insert-insert_at s pgdir va pp perm slot w
          ∙ insert_at_same s pgdir va pp perm old_perm slot e (omega arith) p',
      page_insert-Mapped s t pgdir va pp perm slot w
          (λ f i ne. ap (λ g. g f i) (drop_if_head_word u pp) ∙ write_word_ne s slot _ f i ne) entry
          (drop_if_head_npages u pp) h small p,
      entry,
      λ q. ap (λ g. g q) (drop_if_head_ref u pp),
    )

pub page_lookup-zero :
    (s : PageState) (pgdir va : ℕ) (slot : ℕ × ℕ)
    → Walks s pgdir va slot
    → read_word s slot ≡ 0
    → page_lookup s pgdir va ≡ some unmapped
unfolding page_lookup
page_lookup-zero s pgdir va slot w e =
    rw (pgdir_walk-Walks s pgdir va slot false w, page_lookup) (rw e)

pub page_decref_many :
    (s : PageState) (pp : ℕ)
    → 1 < s.ref pp
    → s.ref pp < 2 ^ 16
    → page_decref s pp ≡ some (record s { ref = update s.ref pp (s.ref pp - 1) })
unfolding page_decref
page_decref_many s pp h k = rw one (ground arith)
  where
    one : (s.ref pp + (2 ^ 16 - 1)) % 2 ^ 16 ≡ s.ref pp - 1
    one = omega arith
