-- ===== src/User/Fd/Dup.antt =====
-- dup of lib/riscv/fd.c: two descriptors on one page.
use zynex_os.Base.{
  ℕ, ◌<◌, ◌≡◌, ◌≢◌, refl, sym, ◌∙◌, ap, subst, Option, none, some, ◌==◌, if◌then◌else◌, true,
  is_some, arith,
}
use zynex_os.User.Fd.{
  Space, maxfd, fd_page, data_page, set_map, bad_fd, Result, ok, failed, fd_lookup, map_within,
  seek, fd_close, close, undo, map_fd, map_data, dup,
}

set_map_self : (s : Space) (va : ℕ) (p : Option ℕ) → (set_map s va p).maps va ≡ p
set_map_self s va p = ground arith

set_map_ne : (s : Space) (va v : ℕ) (p : Option ℕ) → v ≢ va → (set_map s va p).maps v ≡ s.maps v
set_map_ne s va v p ne = ground (arith, ne)

fd_lookup-maps : (s : Space) (i : ℕ) → i < maxfd → fd_lookup s i ≡ s.maps (fd_page i)
unfolding fd_lookup
fd_lookup-maps s i lt = ground arith

map_within-some :
    (s : Space) (from to p : ℕ)
    → s.maps from ≡ some p
    → map_within true s from to ≡ (ok 0, set_map s to (some p))
map_within-some s from to p e =
    ap
      (λ o. elim o as (λ _. Result × Space) [
        | none ↦ (failed bad_fd, s)
        | some p ↦ (ok 0, set_map s to (some p))
      ])
      e

-- The pages after the data page is mapped: no other page is touched.
record DataMapped (s : Space) (new : ℕ) (r : Result × Space) : Type 0 where
  pub done : r.0 ≡ ok 0
  pub kept : (v : ℕ) → v ≢ data_page new → r.1.maps v ≡ s.maps v
  pub same_fds : r.1.fds ≡ s.fds

map_data-DataMapped : (s : Space) (old new : ℕ) → DataMapped s new (map_data true old new s)
map_data-DataMapped s old new = by_page (s.maps (data_page old)) refl
  where
    mapped :
        (p : ℕ)
        → s.maps (data_page old) ≡ some p
        → DataMapped s new (map_within true s (data_page old) (data_page new))
    mapped p e =
        subst (DataMapped s new) (sym (map_within-some s (data_page old) (data_page new) p e))
          (record {
            done = refl;
            kept = λ v ne. set_map_ne s (data_page new) v (some p) ne;
            same_fds = refl;
          })

    by_page :
        (o : Option ℕ)
        → s.maps (data_page old) ≡ o
        → DataMapped s new
            (if is_some o then map_within true s (data_page old) (data_page new) else (ok 0, s))
    by_page none e = record { done = refl; kept = λ v ne. refl; same_fds = refl }
    by_page (some p) e = mapped p e

map_fd-done :
    (old new p : ℕ) (r : Result × Space)
    → r.0 ≡ ok 0
    → r.1.maps (fd_page old) ≡ some p
    → map_fd true old new r ≡ (ok new, set_map r.1 (fd_page new) (some p))
map_fd-done old new p (failed e, s) done open_old = absurd (cc done)
map_fd-done old new p (ok k, s) done open_old =
    ap
      (λ (r : Result × Space). elim r.0 as (λ _. Result × Space) [
        | failed e ↦ undo r.1 new e
        | ok _ ↦ (ok new, r.1)
      ])
      (map_within-some s (fd_page old) (fd_page new) p open_old)

-- The run of dup, where `new` is not open.
dup-done :
    (dev_close : ℕ → Space → ℕ → Result × Space) (s : Space) (old new p : ℕ)
    → old < maxfd
    → new < maxfd
    → s.maps (fd_page old) ≡ some p
    → s.maps (fd_page new) ≡ none
    → dup dev_close true true s old new
      ≡ (ok new, set_map (map_data true old new s).1 (fd_page new) (some p))
unfolding dup close
dup-done dev_close s old new p old_lt new_lt open_old closed_new =
    let d = map_data-DataMapped s old new in
    ap
      (λ o. elim o as (λ _. Result × Space) [
        | none ↦ (failed bad_fd, s)
        | some p ↦ map_fd true old new (map_data true old new (close dev_close s new).1)
      ])
      (fd_lookup-maps s old old_lt ∙ open_old)
    ∙ ap (λ (r : Result × Space). map_fd true old new (map_data true old new r.1)) closed
    ∙ map_fd-done old new p (map_data true old new s) d.done
        (d.kept (fd_page old) (λ e. omega (arith, e)) ∙ open_old)
  where
    closed : close dev_close s new ≡ (failed bad_fd, s)
    closed =
        ap
          (λ o. elim o as (λ _. Result × Space) [
            | none ↦ (failed bad_fd, s)
            | some p ↦ fd_close dev_close s new p
          ])
          (fd_lookup-maps s new new_lt ∙ closed_new)

seek-open :
    (s : Space) (i p offset : ℕ)
    → i < maxfd
    → s.maps (fd_page i) ≡ some p
    → seek s i offset ≡ (
      ok 0,
      record s { fds = λ q. if q == p then record (s.fds q) { offset = offset } else s.fds q },
    )
unfolding seek
seek-open s i p offset lt e =
    ap
      (λ o. elim o as (λ _. Result × Space) [
        | none ↦ (failed bad_fd, s)
        | some p ↦ (
          ok 0,
          record s { fds = λ q. if q == p then record (s.fds q) { offset = offset } else s.fds q },
        )
      ])
      (fd_lookup-maps s i lt ∙ e)

-- dup of an open descriptor to another number of the table that is not open, when no call lacks memory:
-- it answers the number; both descriptors are then on the same page, and every other descriptor is as
-- before; a seek through the new one moves the offset that the old one reads.
pub dup-seek :
    (dev_close : ℕ → Space → ℕ → Result × Space) (s : Space) (old new i p offset : ℕ)
    → old < maxfd
    → new < maxfd
    → i < maxfd
    → i ≢ new
    → s.maps (fd_page old) ≡ some p
    → s.maps (fd_page new) ≡ none
    → (t u : Space) × (dup dev_close true true s old new ≡ (ok new, t))
      × (fd_lookup t new ≡ some p)
      × (fd_lookup t old ≡ some p)
      × (fd_lookup t i ≡ fd_lookup s i)
      × (seek t new offset ≡ (ok 0, u))
      × ((u.fds p).offset ≡ offset)
      × (fd_lookup u old ≡ some p)
dup-seek dev_close s old new i p offset old_lt new_lt i_lt ne open_old closed_new =
    let d = map_data-DataMapped s old new in
    let t = set_map (map_data true old new s).1 (fd_page new) (some p) in
    let u : Space = record t {
      fds = λ q. if q == p then record (t.fds q) { offset = offset } else t.fds q;
    } in
    let kept = λ (k : ℕ) (lt : k < maxfd) (k_ne : k ≢ new).
      set_map_ne (map_data true old new s).1 (fd_page new) (fd_page k) (some p)
        (λ e. k_ne (omega (arith, e)))
      ∙ d.kept (fd_page k) (λ e. omega (arith, e)) in
    let new_open = set_map_self (map_data true old new s).1 (fd_page new) (some p) in
    let old_open = kept old old_lt apart ∙ open_old in
    (
      t,
      u,
      dup-done dev_close s old new p old_lt new_lt open_old closed_new,
      fd_lookup-maps t new new_lt ∙ new_open,
      fd_lookup-maps t old old_lt ∙ old_open,
      fd_lookup-maps t i i_lt ∙ kept i i_lt ne ∙ sym (fd_lookup-maps s i i_lt),
      seek-open t new p offset new_lt new_open,
      moved t,
      fd_lookup-maps u old old_lt ∙ old_open,
    )
  where
    apart : old ≢ new
    apart e = absurd (cc (sym open_old ∙ ap (λ k. s.maps (fd_page k)) e ∙ closed_new))

    moved :
        (t : Space)
        → (if p == p then record (t.fds p) { offset = offset } else t.fds p).offset ≡ offset
    moved t = ground arith
