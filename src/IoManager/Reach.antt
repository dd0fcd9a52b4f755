-- ===== src/IoManager/Reach.antt =====
-- src/iomanager.cc: the managers that the operations reach, and what all of them keep.
use mathlib.Core.Path.{subst}
use tiger.Base.{ℕ, ◌<◌, Bool, true, false, []}
use tiger.Base.{Option, length, ◌≡◌, ◌≢◌, refl}
use tiger.Base.Int.{ℤ, pos, negsuc}
use tiger.IoManager.Events.{
  EventStatus, IoManager, Outcome, result, fault, add_event, del_event, cancel_event,
  cancel_all_event, handle_event, new_manager, at_fd,
}
use tiger.IoManager.Counted.{IsCounted, fd_context_resize-IsCounted}
use tiger.IoManager.Good.{
  IsGood, Good, Returns, add_event-Returns, del_event-Good, fd_context_resize-IsReady,
}
use tiger.IoManager.Cancel.{cancel_event-Good, cancel_all_event-Good, handle_event-Good}

-- A descriptor is not negative, unless `lax`.
abbrev pub InRange : Bool → ℤ → Type 0
InRange lax (pos fd) = Unit {0}
InRange lax (negsuc n) = lax ≡ true

lax-InRange : (fd : ℤ) → InRange true fd
lax-InRange (pos n) = tt
lax-InRange (negsuc n) = refl

module _ {ℓ} {C : Type ℓ} where
  -- A whole call of an operation of the manager, which no other one overlaps. Where not `lax`, there is
  -- no del_event, add_event is called on a thread of a scheduler, and descriptors are not negative. The
  -- descriptor of an epoll event has a context.
  pub data Step (lax : Bool) (m : IoManager C) : Outcome C → Type ℓ where
    add :
        (fd : ℤ) (s : EventStatus) (cb : Option C) (co thread : ℕ) (sched failed : Bool)
        → InRange lax fd
        → (lax ≡ false → sched ≡ true)
        → Step lax m (at_fd fd (λ n. add_event n s cb co thread sched failed m))
    del :
        (fd : ℤ) (s : EventStatus) (failed : Bool)
        → lax ≡ true
        → Step lax m (at_fd fd (λ n. del_event n s failed m))
    cancel :
        (fd : ℤ) (s : EventStatus) (failed : Bool)
        → InRange lax fd
        → Step lax m (at_fd fd (λ n. cancel_event n s failed m))
    cancel_all :
        (fd : ℤ) (failed : Bool)
        → InRange lax fd
        → Step lax m (at_fd fd (λ n. cancel_all_event n failed m))
    handle :
        (fd : ℕ) (epoll_in epoll_out hang_up failed : Bool)
        → fd < length m.contexts
        → Step lax m (handle_event fd epoll_in epoll_out hang_up failed m)

  pub data Reach (lax : Bool) : IoManager C → Type ℓ where
    start : Reach lax new_manager
    next :
        {m m' : IoManager C} {o : Outcome C} (b : Bool)
        → Reach lax m
        → Step lax m o
        → o ≡ result b m'
        → Reach lax m'

  Returns-Good : (lax : Bool) (o : Outcome C) → Returns lax o → Good lax o
  Returns-Good lax (result b m) r = r
  Returns-Good lax fault r = absurd r

  at_fd-Good :
      (lax : Bool) (fd : ℤ) (operation : ℕ → Outcome C)
      → InRange lax fd
      → ((n : ℕ) → Good lax (operation n))
      → Good lax (at_fd fd operation)
  unfolding at_fd
  at_fd-Good lax (pos n) operation r h = h n
  at_fd-Good lax (negsuc n) operation r h = r

  del-Good :
      (lax : Bool) (fd : ℤ) (s : EventStatus) (failed : Bool) (m : IoManager C)
      → lax ≡ true
      → IsGood lax m
      → Good lax (at_fd fd (λ n. del_event n s failed m))
  del-Good true fd s failed m d g =
      at_fd-Good true fd (λ n. del_event n s failed m) (lax-InRange fd)
        (λ n. del_event-Good n s failed m g)
  del-Good false fd s failed m d g = absurd (cc)

  Step-Good :
      {lax : Bool} {m : IoManager C} {o : Outcome C} → IsGood lax m → Step lax m o → Good lax o
  Step-Good {lax} {m} g (add fd s cb co thread sched failed r ok) =
      at_fd-Good lax fd (λ n. add_event n s cb co thread sched failed m) r
        (λ n. Returns-Good lax _ (add_event-Returns lax n s cb co thread sched failed m ok g))
  Step-Good {lax} {m} g (del fd s failed d) = del-Good lax fd s failed m d g
  Step-Good {lax} {m} g (cancel fd s failed r) =
      at_fd-Good lax fd (λ n. cancel_event n s failed m) r
        (λ n. cancel_event-Good lax n s failed m g)
  Step-Good {lax} {m} g (cancel_all fd failed r) =
      at_fd-Good lax fd (λ n. cancel_all_event n failed m) r
        (λ n. cancel_all_event-Good lax n failed m g)
  Step-Good {lax} {m} g (handle fd epoll_in epoll_out hang_up failed room) =
      handle_event-Good lax fd epoll_in epoll_out hang_up failed m g room

  new_manager-IsGood : (lax : Bool) → IsGood lax (new_manager {C = C})
  unfolding new_manager
  new_manager-IsGood lax =
      let m : IoManager C = record { contexts = []; appending = 0; scheduled = [] } in
      let h = fd_context_resize-IsCounted 128 m refl in
      record {
        counts = record { counted = h.0; room = h.1 };
        ready = fd_context_resize-IsReady lax 128 m refl tt;
      }

  Reach-IsGood : {lax : Bool} {m : IoManager C} → Reach lax m → IsGood lax m
  Reach-IsGood {lax} start = new_manager-IsGood lax
  Reach-IsGood {lax} (next b r s e) = subst (Good lax) e (Step-Good (Reach-IsGood r) s)

  -- In every manager that is reached by calls of add_event, del_event, cancel_event, cancel_all_event and
  -- the handling of epoll events, successful or not, none of which overlaps another and each of which
  -- returns (no null pointer is called, the vector of contexts is not left), m_appending_event_cnt is the number of the READ and WRITE bits
  -- that are set in all the contexts, and there are contexts for at least 128 descriptors.
  pub Reach-IsCounted : {lax : Bool} (m : IoManager C) → Reach lax m → IsCounted m
  Reach-IsCounted m r = (Reach-IsGood r).counts

  -- When calls do not overlap, del_event is never called, add_event is called on threads of a scheduler
  -- only, no descriptor is negative, and epoll reports descriptors that have a context, no operation on a
  -- reached manager calls `schedule` through a null pointer or reads outside the vector of contexts.
  Step-safe : (m : IoManager C) (o : Outcome C) → Reach false m → Step false m o → o ≢ fault
  Step-safe m o r s e = absurd (cc (subst (Good false) e (Step-Good (Reach-IsGood r) s)))
