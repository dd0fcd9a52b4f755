-- ===== src/Hook/Rounds.antt =====
-- src/hook.cc: the rounds of do_socket_io, as a relation on what is behind the calls.
use tiger.Base.{ℕ, zero, suc, ◌+◌, ◌-◌, ◌<◌, Bool, true, false, Option, none, some}
use tiger.Base.{◌≡◌, ◌⊎◌, ◌↔◌, refl, ap, sym, ◌∙◌, arith, Bool-cases, Option-cases, inl, inr}
use mathlib.Core.Path.{subst}
use tiger.FdManager.Table.{FdEntity, FdManager, at}
use tiger.IoManager.Events.{Statuses}
use tiger.Hook.Calls.{
  Errno, eintr, eagain, ebadf, etimedout, einprogress, other_errno, Outcome, success, failure,
  Result, returned, endless, Env, is_retried, wait_round, io_loop, timeout_of, do_socket_io,
}

-- The two errors of a call that is made again, and the others.
Outcome-cases :
    (o : Outcome)
    → ((n : ℕ) × (o ≡ success n))
      ⊎ ((o ≡ failure eintr)
          ⊎ ((o ≡ failure eagain) ⊎ ((e : Errno) × (o ≡ failure e) × (is_retried e ≡ false))))
unfolding is_retried
Outcome-cases (success n) = inl (n, refl)
Outcome-cases (failure eintr) = inr (inl refl)
Outcome-cases (failure eagain) = inr (inr (inl refl))
Outcome-cases (failure ebadf) = inr (inr (inr (ebadf, refl, refl)))
Outcome-cases (failure etimedout) = inr (inr (inr (etimedout, refl, refl)))
Outcome-cases (failure einprogress) = inr (inr (inr (einprogress, refl, refl)))
Outcome-cases (failure (other_errno n)) = inr (inr (inr (other_errno n, refl, refl)))

module _ {ℓ} {S : Type ℓ} (env : Env S) (timer : Option ℕ) where
  -- The state behind a call; behind add_event after it; and behind the wait after that.
  abbrev pub called : S → S
  called s = (env.call s).1

  abbrev pub added : S → S
  added s = (env.add_event (called s)).1

  abbrev pub waited : S → S
  waited s = (env.wait timer (added s)).2

  abbrev pub refused : S → Option Errno
  refused s = (env.add_event (called s)).0

  abbrev pub canceled : S → Bool
  canceled s = (env.wait timer (added s)).0

  abbrev pub errno : S → Errno
  errno s = (env.wait timer (added s)).1

  -- The rounds that call again: one that a signal interrupts, and one that waits and is resumed in time.
  pub data Rounds : ℕ → S → S → Type ℓ where
    start : (s : S) → Rounds 0 s s
    interrupted :
        (n : ℕ) (s t : S)
        → (env.call s).0 ≡ failure eintr
        → Rounds n (called s) t
        → Rounds (suc n) s t
    resumed :
        (n : ℕ) (s t : S)
        → (env.call s).0 ≡ failure eagain
        → refused s ≡ none
        → canceled s ≡ false
        → is_retried (errno s) ≡ true
        → Rounds n (waited s) t
        → Rounds (suc n) s t

  -- The round that returns.
  pub data Ending : S → Outcome → S → Type ℓ where
    succeeded : (n : ℕ) (s : S) → (env.call s).0 ≡ success n → Ending s (success n) (called s)
    failed :
        (e : Errno) (s : S)
        → (env.call s).0 ≡ failure e
        → is_retried e ≡ false
        → Ending s (failure e) (called s)
    not_added :
        (e : Errno) (s : S)
        → (env.call s).0 ≡ failure eagain
        → refused s ≡ some e
        → Ending s (failure e) (added s)
    timed_out :
        (s : S)
        → (env.call s).0 ≡ failure eagain
        → refused s ≡ none
        → canceled s ≡ true
        → Ending s (failure etimedout) (waited s)
    errno_changed :
        (s : S)
        → (env.call s).0 ≡ failure eagain
        → refused s ≡ none
        → canceled s ≡ false
        → is_retried (errno s) ≡ false
        → Ending s (failure (errno s)) (waited s)

  io_loop-failed :
      (k : ℕ) (e : Errno) (s : S)
      → (env.call s).0 ≡ failure e
      → is_retried e ≡ false
      → io_loop env (suc k) timer s ≡ returned (failure e) (called s)
  unfolding io_loop is_retried
  io_loop-failed k eintr s a b = absurd (cc)
  io_loop-failed k eagain s a b = absurd (cc)
  io_loop-failed k ebadf s a b = rw (a, io_loop) refl
  io_loop-failed k etimedout s a b = rw (a, io_loop) refl
  io_loop-failed k einprogress s a b = rw (a, io_loop) refl
  io_loop-failed k (other_errno n) s a b = rw (a, io_loop) refl

  io_loop-Ending :
      (k : ℕ) (s t : S) (o : Outcome) → Ending s o t → io_loop env (suc k) timer s ≡ returned o t
  unfolding io_loop wait_round
  io_loop-Ending k _ _ _ (succeeded n s a) = rw (a, io_loop) refl
  io_loop-Ending k _ _ _ (failed e s a b) = io_loop-failed k e s a b
  io_loop-Ending k _ _ _ (not_added e s a b) = rw (a, io_loop, wait_round, b) refl
  io_loop-Ending k _ _ _ (timed_out s a b c) = rw (a, io_loop, wait_round, b, c) refl
  io_loop-Ending k _ _ _ (errno_changed s a b c d) = rw (a, io_loop, wait_round, b, c, d) refl

  io_loop-Rounds :
      (n k : ℕ) (s t : S) → Rounds n s t → io_loop env (n + k) timer s ≡ io_loop env k timer t
  unfolding io_loop wait_round
  io_loop-Rounds _ k _ _ (start s) =
      ap (λ m. io_loop env m timer s) {x = 0 + k} {y = k} (omega arith)
  io_loop-Rounds _ k _ _ (interrupted n s t a r) =
      ap (λ m. io_loop env m timer s) {x = suc n + k} {y = suc (n + k)} (omega arith)
      ∙ rw (a, io_loop) (io_loop-Rounds n k (called s) t r)
  io_loop-Rounds _ k _ _ (resumed n s t a b c d r) =
      ap (λ m. io_loop env m timer s) {x = suc n + k} {y = suc (n + k)} (omega arith)
      ∙ rw (a, io_loop, wait_round, b, c, d) (io_loop-Rounds n k (waited s) t r)

  -- A loop that returns has gone through some rounds and the one that returns.
  abbrev Ran : ℕ → S → Result S → Type ℓ
  Ran k s endless = (t : S) × Rounds k s t
  Ran k s (returned o t) = (n : ℕ) × (m : S) × (n < k) × Rounds n s m × Ending m o t

  Ran-later :
      (k : ℕ) (s t : S) (r : Result S)
      → ((n : ℕ) (m : S) → Rounds n t m → Rounds (suc n) s m)
      → Ran k t r
      → Ran (suc k) s r
  Ran-later k s t endless step (m, rounds) = (m, step k m rounds)
  Ran-later k s t (returned o u) step (n, m, h, rounds, last) =
      (suc n, m, omega (arith, h), step n m rounds, last)

  io_loop-Ran : (k : ℕ) (s : S) → Ran k s (io_loop env k timer s)
  unfolding io_loop wait_round
  io_loop-Ran zero s = (s, start s)
  io_loop-Ran (suc k) s = elim (Outcome-cases (env.call s).0) [
    | inl (n, a) ↦ ended k s (succeeded n s a)
    | inr (inl a) ↦
        rw (a, io_loop)
          (Ran-later k s (called s) _ (λ n m. interrupted n s m a) (io_loop-Ran k (called s)))
    | inr (inr (inr (e, a, b))) ↦ ended k s (failed e s a b)
    | inr (inr (inl a)) ↦ elim (Option-cases (refused s)) [
      | inr (e, b) ↦ ended k s (not_added e s a b)
      | inl b ↦ elim (Bool-cases (canceled s)) [
        | inl c ↦ ended k s (timed_out s a b c)
        | inr c ↦ elim (Bool-cases (is_retried (errno s))) [
          | inr d ↦ ended k s (errno_changed s a b c d)
          | inl d ↦
              rw (a, io_loop, wait_round, b, c, d)
                (Ran-later k s (waited s) _ (λ n m. resumed n s m a b c d)
                  (io_loop-Ran k (waited s)))
        ]
      ]
    ]
  ]
    where
      ended :
          (k : ℕ) (s : S) {o : Outcome} {t : S}
          → Ending s o t
          → Ran (suc k) s (io_loop env (suc k) timer s)
      ended k s {o} {t} last =
          subst (Ran (suc k) s) (sym (io_loop-Ending k s t o last))
            (0, s, omega arith, start s, last)

module _ {ℓ} {S : Type ℓ} (env : Env S) where
  -- With the hook, on a descriptor of the table that is a socket, not closed and not non-blocking for
  -- its user, do_socket_io returns a result exactly when it has gone through fewer rounds than the fuel
  -- in which a signal interrupts the call, or the call would block and the coroutine is resumed before
  -- its timer and errno is still EAGAIN or EINTR; and then through one that returns this result: the
  -- call has succeeded, or failed with another error, or add_event has failed, or the timer came first,
  -- which gives ETIMEDOUT, or errno has changed during the wait.
  pub do_socket_io_lem :
      (configured : ℕ × ℕ) (fds : FdManager) (fd fuel : ℕ) (status : Statuses) (e : FdEntity)
      (o : Outcome) (s t : S)
      → at fds fd ≡ some e
      → e.is_closed ≡ false
      → e.is_socket ≡ true
      → e.is_user_nonblock ≡ false
      → (do_socket_io env configured true fds fd status fuel s ≡ returned o t) ↔ (
          (n : ℕ) × (m : S) × (n < fuel)
          × Rounds env (timeout_of env configured status e) n s m
          × Ending env (timeout_of env configured status e) m o t)
  unfolding do_socket_io
  do_socket_io_lem configured fds fd fuel status e o s t at_fd open' socket' blocking =
      let timer = timeout_of env configured status e in
      let same : do_socket_io env configured true fds fd status fuel s ≡ io_loop env fuel timer s =
        rw (do_socket_io, at_fd, open', socket', blocking) refl in
      (
        λ h. subst (Ran env timer fuel s) (sym same ∙ h) (io_loop-Ran env timer fuel s),
        λ (n, m, l, rounds, last).
            same
            ∙ ap (λ k. io_loop env k timer s) {x = fuel} {y = n + suc (fuel - n - 1)}
                (omega (arith, l))
            ∙ io_loop-Rounds env timer n (suc (fuel - n - 1)) s m rounds
            ∙ io_loop-Ending env timer (fuel - n - 1) m t o last,
      )
