-- ===== src/Tests/Hook.antt =====
-- Concrete runs of src/hook.cc. A system is how many calls would block yet, and a kernel the flags of all
-- descriptors.
use tiger.Base.{
  ℕ, zero, suc, ◌+◌, ◌*◌, ◌/◌, ◌%◌, true, false, [], ◌∷◌, none, some, ◌<◌, ◌≡◌, ◌↔◌, refl, arith,
}
use tiger.FdManager.Table.{FdEntity, FdManager, at}
use tiger.IoManager.Events.{Statuses}
use tiger.Timer.Manager.{TimerManager}
use tiger.Hook.Calls.{Env, Outcome, success, failure, eagain, returned, timeout_of, do_socket_io}
use tiger.Hook.Rounds.{Rounds, Ending, do_socket_io_lem}
use tiger.Hook.Flags.{FileFlags, Kernel, is_foreign, set_fl, get_fl}
use tiger.Hook.FlagLaws.{SetsFlags, SetsNonblock, get_fl-set_fl}

abbrev blocks : ℕ → Outcome × ℕ
blocks zero = (success 7, 0)
blocks (suc n) = (failure eagain, n)

abbrev system : Env ℕ
system = record {
  call = blocks;
  add_event = λ s. (none, s);
  wait = λ timer s. (false, eagain, s);
  failed = λ s. (success 0, s);
}

abbrev entity : FdEntity
entity = record {
  is_init = true;
  is_sys_nonblock = true;
  is_user_nonblock = false;
  is_socket = true;
  is_closed = false;
  fd = 1;
  connect_timeout = 0;
  recv_timeout = 0;
  send_timeout = 0;
}

abbrev table : FdManager
table = none ∷ some entity ∷ []

abbrev reading : Statuses
reading = record { read = true; write = false }

do_socket_io_lem_example :
    (do_socket_io system (6000, 6000) true table 1 reading 5 2 ≡ returned (success 7) 0) ↔ (
      (n : ℕ) × (m : ℕ) × (n < 5)
      × Rounds system (timeout_of system (6000, 6000) reading entity) n 2 m
      × Ending system (timeout_of system (6000, 6000) reading entity) m (success 7) 0)
unfolding at
do_socket_io_lem_example =
    do_socket_io_lem system (6000, 6000) table 1 5 reading entity (success 7) 2 0 refl refl refl
      refl

-- A kernel whose F_SETFL keeps the access mode, which is the two lowest bits.
abbrev settable : ℕ → ℕ → ℕ
settable before given = before % 4 + given / 4 * 4

abbrev kernel : Kernel FileFlags
kernel = record {
  set_flags =
      λ fd flags k. record { nonblock = flags.nonblock; others = settable k.others flags.others };
  get_flags = λ fd k. k;
  set_nonblock = λ fd b k. record k { nonblock = b };
}

abbrev kernel-SetsFlags : SetsFlags kernel
kernel-SetsFlags = record { settable = settable; get-set = λ fd flags k. refl }

abbrev kernel-SetsNonblock : SetsNonblock kernel
kernel-SetsNonblock = record { get-set_nonblock = λ fd b k. refl }

-- O_RDWR and O_NONBLOCK.
abbrev flags : FileFlags
flags = record { nonblock = true; others = 2 }

abbrev append_only : FileFlags
append_only = record { nonblock = false; others = 1024 }

get_fl-set_fl_example :
    (get_fl kernel 1
        (set_fl kernel 1 append_only table flags).0
        (set_fl kernel 1 append_only table flags).1
      ≡ record { nonblock = false; others = 1026 })
    × (kernel.get_flags 1 (set_fl kernel 1 append_only table flags).1
        ≡ record { nonblock = true; others = 1026 })
unfolding at is_foreign
get_fl-set_fl_example =
    get_fl-set_fl kernel kernel-SetsFlags 1 append_only table flags entity (omega arith) refl refl
      refl

abbrev no_timers : TimerManager (ℕ × ℕ)
no_timers = record {
  timers = [];
  heap = λ p. record { id = 0; interval = 0; loop = false; next_time = 0; cb = none };
  timer_id = 0;
  refreshes = 0;
}
