-- ===== src/User/Ipc.antt =====
-- lib/riscv/ipc.c. The system calls, with all of the system's state `W`, are parameters: what sys_ipc_recv
-- and sys_ipc_try_send answer is a model of their own (kern/riscv/syscall.c). An address is a number, and
-- NULL is 0.
use zynex_os.Base.{
  ℕ, zero, suc, ◌+◌, ◌≡◌, ◌∙◌, ap, Bool, Option, none, some, List, [], ◌∷◌, arith, ◌==◌,
  if◌then◌else◌,
}

-- The address that the system calls take for "no page".
abbrev pub null_page : ℕ
null_page = 0xffffffffffffffff

abbrev pub page_arg : ℕ → ℕ
page_arg pg = if pg == 0 then null_page else pg

-- What a receiver is told: the fields of `thisenv`, or an error of the system call.
pub record Message : Type 0 where
  pub ipc_value : ℕ
  pub ipc_from : ℕ
  pub ipc_perm : ℕ

-- The answer with what is stored through the two pointers; `none` is a null pointer.
pub record Received : Type 0 where
  pub answer : Option ℕ
  pub from_env : Option ℕ
  pub perm : Option ℕ

abbrev pub stored_if : Bool → ℕ → Option ℕ
stored_if wanted v = if wanted then some v else none

pub data Sent (W : Type 0) : Type 0 where
  delivered : W → Sent W
  panics : W → Sent W
  trying : W → Sent W

-- The answers of sys_ipc_try_send: sent, E_IPC_NOT_RECV, or another error.
pub data Try : Type 0 where
  accepted : Try
  not_receiving : Try
  other_error : Try

module _ {W : Type 0} where
  pub ipc_recv :
      (sys_ipc_recv : W → ℕ → Option Message × W)
      → (want_from want_perm : Bool) → (pg : ℕ) → W
      → Received × W
  ipc_recv sys_ipc_recv want_from want_perm pg w =
      let (r, w') = sys_ipc_recv w (page_arg pg) in
      elim r [
        | none ↦ (
          record { answer = none; from_env = stored_if want_from 0; perm = stored_if want_perm 0 },
          w',
        )
        | some m ↦ (
          record {
            answer = some m.ipc_value;
            from_env = stored_if want_from m.ipc_from;
            perm = stored_if want_perm m.ipc_perm;
          },
          w',
        )
      ]

  -- The loop of ipc_send runs on fuel.
  pub ipc_send :
      ℕ
      → (sys_ipc_try_send : W → (to_env val srcva perm : ℕ) → Try × W) → (sys_yield : W → W)
      → (to_env val pg perm : ℕ) → W
      → Sent W
  ipc_send zero try yield to_env val pg perm w = trying w
  ipc_send (suc fuel) try yield to_env val pg perm w =
      let (r, w') = try w to_env val (page_arg pg) perm in
      let again = ipc_send fuel try yield to_env val pg perm (yield w') in
      elim r [ accepted ↦ delivered w' | other_error ↦ panics w' | not_receiving ↦ again ]

-- `envs` as the list of type and id.
abbrev pub ipc_find_env : List (ℕ × ℕ) → ℕ → ℕ
ipc_find_env [] type = 0
ipc_find_env ((t, id) ∷ envs) type = if t == type then id else ipc_find_env envs type

-- A run of `k` refusals, with a yield after each, from `w` to `w'`.
pub data Refusals {W : Type 0} (try : W → Try × W) (yield : W → W) : ℕ → W → W → Type 0 where
  none_yet : (w : W) → Refusals try yield 0 w w
  refused :
      (k : ℕ) (w w1 w' : W)
      → try w ≡ (not_receiving, w1)
      → Refusals try yield k (yield w1) w'
      → Refusals try yield (suc k) w w'

ipc_send-refused :
    {W : Type 0} (try : W → (to_env val srcva perm : ℕ) → Try × W) (yield : W → W)
    (to_env val pg perm fuel : ℕ) (w w1 : W)
    → try w to_env val (page_arg pg) perm ≡ (not_receiving, w1)
    → ipc_send (suc fuel) try yield to_env val pg perm w
      ≡ ipc_send fuel try yield to_env val pg perm (yield w1)
unfolding ipc_send
ipc_send-refused {W} try yield to_env val pg perm fuel w w1 e =
    ap
      (λ (r : Try × W). elim r.0 as (λ _. Sent W) [
        | accepted ↦ delivered r.1
        | other_error ↦ panics r.1
        | not_receiving ↦ ipc_send fuel try yield to_env val pg perm (yield r.1)
      ])
      e

-- ipc_send gets past any number of refusals, with a unit of fuel for each, and is then where a first
-- attempt would be.
pub ipc_send-Refusals :
    {W : Type 0} (try : W → (to_env val srcva perm : ℕ) → Try × W) (yield : W → W)
    (to_env val pg perm k fuel : ℕ) (w w' : W)
    → Refusals (λ x. try x to_env val (page_arg pg) perm) yield k w w'
    → ipc_send (fuel + k) try yield to_env val pg perm w
      ≡ ipc_send fuel try yield to_env val pg perm w'
ipc_send-Refusals try yield to_env val pg perm zero fuel w _ (none_yet _) =
    ap (λ n. ipc_send n try yield to_env val pg perm w) (omega arith)
ipc_send-Refusals try yield to_env val pg perm (suc k) fuel w w' (refused _ _ w1 _ e r) =
    ap (λ n. ipc_send n try yield to_env val pg perm w) (omega arith)
    ∙ ipc_send-refused try yield to_env val pg perm (fuel + k) w w1 e
    ∙ ipc_send-Refusals try yield to_env val pg perm k fuel (yield w1) w' r
