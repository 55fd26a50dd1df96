-- ===== src/Printf/Buffer.antt =====
-- vsnprintf of lib/riscv/printfmt.c stays within its buffer.
use zynex_os.Base.{
  ℕ, zero, suc, ◌+◌, ◌-◌, ◌%◌, ◌^◌, ◌≤◌, ◌<◌, ◌≡◌, ◌≢◌, refl, sym, ap, subst, inl, inr, true, false,
  Option, none, some, List, [], ◌∷◌, arith, ltb, length, take,
}
use zynex_os.Base.Memory.{Mem, write, IsString, Outside}
use zynex_os.Printf.{SprintBuf, sprintputch, put_all, vsnprintf}

-- Every character is a byte that can stand in a string.
abbrev pub IsText : List ℕ → Type 0
IsText [] = Unit {0}
IsText (c ∷ s) = (c ≢ 0) × (c < 2 ^ 8) × IsText s

-- What the characters `out` leave, from a buffer with room for `left` more.
record Put (left : ℕ) (out : List ℕ) (b : SprintBuf) (m : Mem) (b' : SprintBuf) (m' : Mem)
    : Type 0 where
  pub count : b'.cnt ≡ b.cnt + length out
  pub place : b'.buf ≡ b.buf + length (take left out)
  pub text : IsString (write m' b'.buf 0) b.buf (take left out)
  pub same : (x : ℕ) → Outside b.buf (length (take left out)) x → m' x ≡ m x

put_all-room :
    (c : ℕ) (out : List ℕ) (b : SprintBuf) (m : Mem)
    → b.buf < b.ebuf
    → put_all (c ∷ out) b m
      ≡ put_all out (record b { cnt = b.cnt + 1; buf = suc b.buf }) (write m b.buf (c % 2 ^ 8))
unfolding put_all sprintputch
put_all-room c out b m lt = rw room
  where
    room : ltb b.buf b.ebuf ≡ true
    room = ground arith

put_all-full :
    (c : ℕ) (out : List ℕ) (b : SprintBuf) (m : Mem)
    → b.ebuf ≤ b.buf
    → put_all (c ∷ out) b m ≡ put_all out (record b { cnt = b.cnt + 1 }) m
unfolding put_all sprintputch
put_all-full c out b m le = rw full
  where
    full : ltb b.buf b.ebuf ≡ false
    full = ground arith

put_all-Put :
    (out : List ℕ) (left : ℕ) (b : SprintBuf) (m : Mem)
    → IsText out
    → b.ebuf ≡ b.buf + left
    → Put left out b m (put_all out b m).0 (put_all out b m).1
unfolding put_all
put_all-Put [] zero b m nn e = record {
  count = omega arith;
  place = omega arith;
  text = ground arith;
  same = λ x h. refl;
}
put_all-Put [] (suc left) b m nn e = record {
  count = omega arith;
  place = omega arith;
  text = ground arith;
  same = λ x h. refl;
}
put_all-Put (c ∷ out) zero b m nn e =
    let p = put_all-Put out zero (record b { cnt = b.cnt + 1 }) m nn.2 e in
    subst (λ r. Put zero (c ∷ out) b m r.0 r.1) (sym (put_all-full c out b m (omega arith)))
      (record { count = omega (arith, p.count); place = p.place; text = p.text; same = p.same })
put_all-Put (c ∷ out) (suc left) b m nn e =
    let p =
      put_all-Put out left (record b { cnt = b.cnt + 1; buf = suc b.buf })
        (write m b.buf (c % 2 ^ 8)) nn.2 (omega arith) in
    subst (λ r. Put (suc left) (c ∷ out) b m r.0 r.1) (sym (put_all-room c out b m (omega arith)))
      (record {
        count = omega (arith, p.count);
        place = omega (arith, p.place);
        text = (ground (arith, p.place, p.same b.buf (inl (omega arith)), nn.1), nn.0, p.text);
        same = λ x h. ground (arith, p.same x (outside x h), h);
      })
  where
    outside :
        (x : ℕ)
        → Outside b.buf (suc (length (take left out))) x
        → Outside (suc b.buf) (length (take left out)) x
    outside x (inl h) = inl (omega arith)
    outside x (inr h) = inr (omega arith)

length-take : (n : ℕ) (out : List ℕ) → length (take n out) ≤ n
length-take zero out = omega arith
length-take (suc n) [] = omega arith
length-take (suc n) (c ∷ out) = omega (arith, length-take n out)

-- vsnprintf into `suc left` bytes at a `buf` that is not NULL, of characters that are bytes other than NUL: the
-- result counts all of them, also those that do not fit; the first `left` stand in the buffer with a
-- terminator, and no byte outside the `suc left` of the buffer changes. With no room, or at NULL, it
-- reports E_INVAL and writes nothing.
pub vsnprintf_lem :
    (m : Mem) (buf left : ℕ) (out : List ℕ)
    → buf ≢ 0
    → IsText out
    → ((vsnprintf m buf (suc left) out).0 ≡ some (length out))
      × IsString (vsnprintf m buf (suc left) out).1 buf (take left out)
      × ((x : ℕ) → Outside buf (suc left) x → (vsnprintf m buf (suc left) out).1 x ≡ m x)
      × (vsnprintf m buf 0 out ≡ (none, m))
      × (vsnprintf m 0 (suc left) out ≡ (none, m))
unfolding vsnprintf
vsnprintf_lem m buf left out nz nn =
    let b : SprintBuf = record { buf = buf; ebuf = buf + suc left - 1; cnt = 0 } in
    let r = put_all out b m in
    let p = put_all-Put out left b m nn (omega arith) in
    let short = length-take left out in
    let runs : vsnprintf m buf (suc left) out ≡ (some r.0.cnt, write r.1 r.0.buf 0) =
      ground (arith, nz) in
    let same : (x : ℕ) → Outside buf (suc left) x → write r.1 r.0.buf 0 x ≡ m x =
      λ x h. ground (arith, p.same x (wider x short h), p.place, h) in
    let ends : (y : Option ℕ × Mem)
        → y ≡ (some r.0.cnt, write r.1 r.0.buf 0)
        → (y.0 ≡ some (length out))
          × IsString y.1 buf (take left out)
          × ((x : ℕ) → Outside buf (suc left) x → y.1 x ≡ m x) =
      λ y e.
        subst
          (λ z.
            (z.0 ≡ some (length out))
            × IsString z.1 buf (take left out)
            × ((x : ℕ) → Outside buf (suc left) x → z.1 x ≡ m x))
          (sym e) (ap some (omega (arith, p.count)), p.text, same) in
    let (value, text, kept) = ends (vsnprintf m buf (suc left) out) runs in
    (value, text, kept, ground arith, refl)
  where
    wider :
        (x : ℕ)
        → length (take left out) ≤ left
        → Outside buf (suc left) x
        → Outside buf (length (take left out)) x
    wider x short (inl h) = inl h
    wider x short (inr h) = inr (omega arith)
