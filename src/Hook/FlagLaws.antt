-- ===== src/Hook/FlagLaws.antt =====
-- src/hook.cc: the flag O_NONBLOCK as the user of a socket sees it, and the timeouts of a socket.
use tiger.Base.{ℕ, ◌<◌, Bool, true, false, Option, some, ==_iff}
use tiger.Base.{if◌then◌else◌, length, set, ◌==◌, ◌≡◌, refl, ap, ◌∙◌}
use tiger.FdManager.Table.{FdEntity, FdManager, at}
use tiger.FdManager.TableLaws.{at-set}
use tiger.Hook.Flags.{
  FileFlags, Kernel, is_foreign, passed_flags, set_fl, get_fl, so_rcvtimeo, so_sndtimeo,
  milliseconds, setsockopt,
}

at-set_self :
    (datas : FdManager) (fd : ℕ) (e : Option FdEntity)
    → fd < length datas
    → at (set datas fd e) fd ≡ e
at-set_self datas fd e h = at-set datas fd fd e h ∙ rw ((==_iff fd fd).1 refl) refl

-- F_SETFL, when it succeeds: it sets O_NONBLOCK as it is told, and of the other flags only some; the
-- access mode and the creation flags stay as they are. `settable` is what the other flags become, from
-- those before and those that are given.
pub record SetsFlags {ℓ} {K : Type ℓ} (kernel : Kernel K) : Type ℓ where
  pub settable : ℕ → ℕ → ℕ
  pub get-set :
      (fd : ℕ) (flags : FileFlags) (k : K)
      → kernel.get_flags fd (kernel.set_flags fd flags k) ≡ record {
        nonblock = flags.nonblock;
        others = settable (kernel.get_flags fd k).others flags.others;
      }

-- ioctl with FIONBIO, when it succeeds, sets O_NONBLOCK as it is told.
pub record SetsNonblock {ℓ} {K : Type ℓ} (kernel : Kernel K) : Type ℓ where
  pub get-set_nonblock :
      (fd : ℕ) (b : Bool) (k : K) → (kernel.get_flags fd (kernel.set_nonblock fd b k)).nonblock ≡ b

module _ {ℓ} {K : Type ℓ} (kernel : Kernel K) where
  set_fl-own :
      (fd : ℕ) (arg : FileFlags) (fds : FdManager) (k : K) (e : FdEntity)
      → at fds fd ≡ some e
      → is_foreign e ≡ false
      → e.is_sys_nonblock ≡ true
      → set_fl kernel fd arg fds k ≡ (
        set fds fd (some (record e { is_user_nonblock = arg.nonblock })),
        kernel.set_flags fd (record arg { nonblock = true }) k,
      )
  unfolding set_fl passed_flags
  set_fl-own fd arg fds k e at_fd own sys = rw (set_fl, at_fd, own, passed_flags, sys) refl

  get_fl-own :
      (fd : ℕ) (fds : FdManager) (k : K) (e : FdEntity)
      → at fds fd ≡ some e
      → is_foreign e ≡ false
      → get_fl kernel fd fds k ≡ record (kernel.get_flags fd k) { nonblock = e.is_user_nonblock }
  unfolding get_fl
  get_fl-own fd fds k e at_fd own = rw (get_fl, at_fd, own) refl

  -- On a socket of the table that is not closed and was made non-blocking by the library, where F_SETFL
  -- of the kernel sets O_NONBLOCK as it is told and changes the other flags in its own way (it may keep
  -- some of them): after fcntl with F_SETFL, fcntl with F_GETFL gives O_NONBLOCK just as F_SETFL was
  -- told, while the descriptor itself has it set; and both give the other flags as the kernel's own
  -- F_SETFL leaves them.
  pub get_fl-set_fl :
      (sets : SetsFlags kernel) (fd : ℕ) (arg : FileFlags) (fds : FdManager) (k : K) (e : FdEntity)
      → fd < length fds
      → at fds fd ≡ some e
      → is_foreign e ≡ false
      → e.is_sys_nonblock ≡ true
      → (get_fl kernel fd (set_fl kernel fd arg fds k).0 (set_fl kernel fd arg fds k).1 ≡ record {
        nonblock = arg.nonblock;
        others = sets.settable (kernel.get_flags fd k).others arg.others;
      })
        × (kernel.get_flags fd (set_fl kernel fd arg fds k).1 ≡ record {
          nonblock = true;
          others = sets.settable (kernel.get_flags fd k).others arg.others;
        })
  unfolding is_foreign
  get_fl-set_fl sets fd arg fds k e h at_fd own sys =
      let e' : FdEntity = record e { is_user_nonblock = arg.nonblock } in
      let set' = set_fl-own fd arg fds k e at_fd own sys in
      let got = sets.get-set fd (record arg { nonblock = true }) k in
      (
        ap (λ r. get_fl kernel fd r.0 r.1) set'
            ∙ get_fl-own fd (set fds fd (some e'))
                (kernel.set_flags fd (record arg { nonblock = true }) k) e'
                (at-set_self fds fd (some e') h) own
            ∙ ap {A = FileFlags} (λ f. record f { nonblock = arg.nonblock }) got,
        ap (λ r. kernel.get_flags fd r.1) set' ∙ got,
      )

-- setsockopt with SO_RCVTIMEO or SO_SNDTIMEO and the hook leaves the table as it was. Without the hook,
-- on a descriptor of the table, it records the timeval in milliseconds as the timeout of that direction
-- and changes nothing else of any descriptor.
setsockopt_lem :
    (fd other : ℕ) (tv : ℕ × ℕ) (fds : FdManager) (e : FdEntity)
    → fd < length fds
    → at fds fd ≡ some e
    → (setsockopt true fd so_rcvtimeo tv fds ≡ fds)
      × (setsockopt true fd so_sndtimeo tv fds ≡ fds)
      × (at (setsockopt false fd so_rcvtimeo tv fds) other ≡ (
          if other == fd then some (record e { recv_timeout = milliseconds tv }) else at fds other))
      × (at (setsockopt false fd so_sndtimeo tv fds) other ≡ (
          if other == fd then some (record e { send_timeout = milliseconds tv }) else at fds other))
unfolding setsockopt
setsockopt_lem fd other tv fds e h at_fd = (
  refl,
  refl,
  rw (setsockopt, at_fd)
      (at-set fds fd other (some (record e { recv_timeout = milliseconds tv })) h),
  rw (setsockopt, at_fd)
      (at-set fds fd other (some (record e { send_timeout = milliseconds tv })) h),
)
