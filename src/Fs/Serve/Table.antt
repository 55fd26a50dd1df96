-- ===== src/Fs/Serve/Table.antt =====
-- The table of open files of fs/serv.c: the ids that are handed out and what they find.
use zynex_os.Base.{
  ℕ, zero, suc, ◌+◌, ◌%◌, ◌^◌, ◌<◌, ◌≤◌, ◌≡◌, ◌≢◌, refl, sym, ap₂, subst, ◌⊎◌, inl, inr, none, some,
  arith, leb, ◌==◌, ◌!=◌, ◌||◌, if◌then◌else◌, Bool, true, false, Bool-cases,
}
use zynex_os.Fs.Serve.{
  maxopen, OpenFile, Server, serve_init, fresh_entry, EntryAlloc, entry_at, refuses, no_mem,
  max_open, openfile_alloc_from, openfile_alloc, openfile_lookup,
}

-- Every id leads to its own entry.
pub record IsTable (s : Server) : Type 0 where
  pub own : (i : ℕ) → i < maxopen → (s.opentab i).fileid % maxopen ≡ i
  pub small : (i : ℕ) → i < maxopen → (s.opentab i).fileid < 2 ^ 32

serve_init-IsTable : (s : Server) → IsTable (serve_init s)
unfolding serve_init
serve_init-IsTable s = record { own = λ i lt. omega arith; small = λ i lt. omega arith }

-- What openfile_alloc answers, by the Fd pages of the entries `i`, ..., `i + n - 1`.
pub data Answers (page : Bool) (s : Server) (i n : ℕ) : EntryAlloc × Server → Type 0 where
  -- The first entry whose page no client has.
  takes :
      (j : ℕ)
      → i ≤ j
      → j < i + n
      → s.refs j ≤ 1
      → ((k : ℕ) → i ≤ k → k < j → 1 < s.refs k)
      → Answers page s i n (entry_at j, fresh_entry s j)
  no_page :
      (j : ℕ)
      → i ≤ j
      → j < i + n
      → s.refs j ≡ 0
      → page ≡ false
      → Answers page s i n (refuses no_mem, s)
  full : ((k : ℕ) → i ≤ k → k < i + n → 1 < s.refs k) → Answers page s i n (refuses max_open, s)

openfile_alloc_from-Answers :
    (n : ℕ) (page : Bool) (s : Server) (i : ℕ) → Answers page s i n (openfile_alloc_from n page s i)
unfolding openfile_alloc_from
openfile_alloc_from-Answers zero page s i = full (λ k le lt. absurd (omega arith))
openfile_alloc_from-Answers (suc n) page s i =
    by_refs page refl (Bool-cases (s.refs i == 0)) (Bool-cases (s.refs i == 1))
      (openfile_alloc_from-Answers n page s (suc i))
  where
    same : (k : ℕ) → (k == i) ≡ true → k ≡ i
    same k e = ground (arith, e)

    from :
        1 < s.refs i
        → (j : ℕ) → ((k : ℕ) → suc i ≤ k → k < j → 1 < s.refs k)
        → (k : ℕ) → i ≤ k
        → k < j
        → 1 < s.refs k
    from many j h k le lt = elim (Bool-cases (k == i)) [
      | inl e ↦ subst (λ x. 1 < s.refs x) (sym (same k e)) many
      | inr e ↦ h k (ground (arith, e)) lt
    ]

    later :
        1 < s.refs i
        → (r : EntryAlloc × Server) → Answers page s (suc i) n r
        → Answers page s i (suc n) r
    later many r (takes j le lt few before) =
        takes j (omega arith) (omega arith) few (from many j before)
    later many r (no_page j le lt z p) = no_page j (omega arith) (omega arith) z p
    later many r (full h) = full (λ k le lt. from many (suc i + n) h k le (omega arith))

    by_refs :
        (p : Bool)
        → p ≡ page
        → ((s.refs i == 0) ≡ true) ⊎ ((s.refs i == 0) ≡ false)
        → ((s.refs i == 1) ≡ true) ⊎ ((s.refs i == 1) ≡ false)
        → Answers page s (suc i) n (openfile_alloc_from n page s (suc i))
        → Answers page s i (suc n) (
            if s.refs i == 0
            then (if p then (entry_at i, fresh_entry s i) else (refuses no_mem, s))
            else if s.refs i == 1
            then (entry_at i, fresh_entry s i)
            else openfile_alloc_from n page s (suc i))
    by_refs true e (inl z) o rest =
        rw z (
          takes i (omega arith) (omega arith) (ground (arith, z)) (λ k le lt. absurd (omega arith)))
    by_refs false e (inl z) o rest =
        rw z (no_page i (omega arith) (omega arith) (ground (arith, z)) (sym e))
    by_refs p e (inr z) (inl o) rest =
        rw (z, o)
          (takes i (omega arith) (omega arith) (ground (arith, o))
            (λ k le lt. absurd (omega arith)))
    by_refs p e (inr z) (inr o) rest =
        rw (z, o) (later (ground (arith, z, o)) (openfile_alloc_from n page s (suc i)) rest)

-- openfile_alloc takes the first entry whose Fd page no client has mapped, with a new id and an offset
-- of 0, and leaves the others; it reports E_NO_MEM only for a missing page, and E_MAX_OPEN exactly
-- when clients have the pages of all 1024 entries.
pub openfile_alloc-Answers :
    (page : Bool) (s : Server) → Answers page s 0 maxopen (openfile_alloc page s)
unfolding openfile_alloc
openfile_alloc-Answers page s = openfile_alloc_from-Answers maxopen page s 0

-- The client has mapped the Fd page of an entry, which the kernel counts.
abbrev pub shared : Server → ℕ → Server
shared s i = record s { refs = λ j. if j == i then 2 else s.refs j }

pub openfile_lookup-own :
    (s : Server) (i id : ℕ)
    → id % maxopen ≡ i
    → 1 < s.refs i
    → (s.opentab i).fileid ≡ id
    → openfile_lookup s id ≡ some i
unfolding openfile_lookup
openfile_lookup-own s i id e many same =
    subst (λ k. 1 < s.refs k → (s.opentab k).fileid ≡ id → openfile_lookup s id ≡ some k) e
      (λ many same. ground (arith, many, same)) many same

openfile_lookup-stale :
    (s : Server) (i id : ℕ)
    → id % maxopen ≡ i
    → (s.opentab i).fileid ≢ id
    → openfile_lookup s id ≡ none
unfolding openfile_lookup
openfile_lookup-stale s i id e ne =
    subst (λ k. (s.opentab k).fileid ≢ id → openfile_lookup s id ≡ none) e
      (λ ne. ground (arith, ne)) ne

-- The lookup reads one entry and its count.
openfile_lookup-same :
    (s t : Server) (id : ℕ)
    → t.refs (id % maxopen) ≡ s.refs (id % maxopen)
    → t.opentab (id % maxopen) ≡ s.opentab (id % maxopen)
    → openfile_lookup t id ≡ openfile_lookup s id
unfolding openfile_lookup
openfile_lookup-same s t id e e' =
    ap₂ (λ r o. if leb r 1 || o.fileid != id then none else some (id % maxopen)) e e'

fresh_entry_self :
    (s : Server) (i : ℕ)
    → ((shared (fresh_entry s i) i).opentab i).fileid ≡ ((s.opentab i).fileid + maxopen) % 2 ^ 32
fresh_entry_self s i = ground arith

fresh_entry-other :
    (s : Server) (i j : ℕ)
    → j ≢ i
    → let t = shared (fresh_entry s i) i in (t.refs j ≡ s.refs j) × (t.opentab j ≡ s.opentab j)
fresh_entry-other s i j ne = (ground (arith, ne), ground (arith, ne))

fresh_entry-IsTable :
    (s : Server) (i : ℕ) → IsTable s → i < maxopen → IsTable (shared (fresh_entry s i) i)
fresh_entry-IsTable s i table lt = record {
  own = λ j j_lt. by_entry (λ (o : OpenFile) k. o.fileid % maxopen ≡ k) j mine (table.own j j_lt);
  small = λ j j_lt.
      by_entry (λ (o : OpenFile) k. o.fileid < 2 ^ 32) j (omega (arith, fresh_entry_self s i))
        (table.small j j_lt);
}
  where
    mine : ((shared (fresh_entry s i) i).opentab i).fileid % maxopen ≡ i
    mine = omega (arith, fresh_entry_self s i, table.own i lt)

    by_entry :
        (P : OpenFile → ℕ → Type 0) (j : ℕ)
        → P ((shared (fresh_entry s i) i).opentab i) i
        → P (s.opentab j) j
        → P ((shared (fresh_entry s i) i).opentab j) j
    by_entry P j here there = elim (Bool-cases (j == i)) [
      | inl e ↦ subst (λ k. P ((shared (fresh_entry s i) i).opentab k) k) (sym (same e)) here
      | inr e ↦ subst (λ o. P o j) (sym (fresh_entry-other s i j (differ e)).1) there
    ]
      where
        same : (j == i) ≡ true → j ≡ i
        same e = ground (arith, e)

        differ : (j == i) ≡ false → j ≢ i
        differ e e' = ground (arith, e, e')

-- After an entry is taken and its page is given to a client: the new id finds the entry, the id
-- that the entry had before is refused, all ids of other entries find what they found, and every id
-- still leads to its own entry.
pub openfile_lookup-fresh_entry :
    (s : Server) (i id : ℕ)
    → IsTable s
    → i < maxopen
    → id % maxopen ≢ i
    → let t = shared (fresh_entry s i) i in
      (openfile_lookup t (t.opentab i).fileid ≡ some i)
      × (openfile_lookup t (s.opentab i).fileid ≡ none)
      × (openfile_lookup t id ≡ openfile_lookup s id)
      × IsTable t
unfolding openfile_lookup
openfile_lookup-fresh_entry s i id table lt ne =
    let t = shared (fresh_entry s i) i in
    let self = fresh_entry_self s i in
    let (refs_same, entry_same) = fresh_entry-other s i (id % maxopen) ne in
    (
      openfile_lookup-own t i (t.opentab i).fileid (omega (arith, self, table.own i lt)) two refl,
      openfile_lookup-stale t i (s.opentab i).fileid (table.own i lt)
          (λ e. omega (arith, self, e, table.small i lt)),
      openfile_lookup-same s t id refs_same entry_same,
      fresh_entry-IsTable s i table lt,
    )
  where
    two : 1 < (shared (fresh_entry s i) i).refs i
    two = ground arith
