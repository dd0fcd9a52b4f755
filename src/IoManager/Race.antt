-- ===== src/IoManager/Race.antt =====
-- src/iomanager.cc: two threads that cancel the same event. cancel_event tests the statuses before it takes
-- the context's lock.
use mathlib.Core.List.{append-nil}
use tiger.Base.{ℕ, ◌+◌, ◌-◌, true, false, [], ◌∷◌, ◌++◌, some, get_elem?, set, arith, ◌≡◌, refl, ap}
use tiger.IoManager.Events.{
  EventStatus, read_event, write_event, has, without, Context, IoManager, result, empty_context,
  new_context, get_event_context, put_event_context, trigger_event, work_of, fire, cancel_event,
  is_waiting, cancel_tested,
}
use tiger.IoManager.Counted.{count, waiting, waiting-set, count-without}
use tiger.IoManager.Good.{get_elem?-set}

module _ {ℓ} {C : Type ℓ} where
  -- The context, and the manager, behind the first trigger.
  abbrev triggered : EventStatus → Context C → Context C
  triggered s c = put_event_context s empty_context (record c { statuses = without c.statuses s })

  abbrev once : ℕ → EventStatus → Context C → IoManager C → IoManager C
  once fd s c m = record m {
    contexts = set m.contexts fd (triggered s c);
    appending = m.appending - 1;
    scheduled = m.scheduled ++ (work_of (get_event_context s c) ∷ []);
  }

  -- Both bits are set, and that of `s` is cleared.
  count_both :
      (s : EventStatus) (c : Context C)
      → c.statuses.read ≡ true
      → c.statuses.write ≡ true
      → (has c.statuses s ≡ true) × (count c ≡ 2) × (has ((triggered s c).statuses) s ≡ false)
  count_both read_event c r w = (r, ground arith, refl)
  count_both write_event c r w = (w, ground arith, refl)

  once-runs :
      (fd : ℕ) (s : EventStatus) (m : IoManager C) (c : Context C)
      → get_elem? m.contexts fd ≡ some c
      → has c.statuses s ≡ true
      → (get_event_context s c).armed ≡ true
      → cancel_tested fd s false m ≡ result true (once fd s c m)
  unfolding cancel_tested fire trigger_event
  once-runs fd s m c e on ready = rw (e, on, ready, cancel_tested, fire, trigger_event) refl

  -- Behind the first one, the second one triggers nothing and counts all the same.
  again-runs :
      (fd : ℕ) (s : EventStatus) (m : IoManager C) (c : Context C)
      → get_elem? m.contexts fd ≡ some c
      → has c.statuses s ≡ false
      → (m' : IoManager C) × (cancel_tested fd s false m ≡ result true m')
        × (m'.contexts ≡ set m.contexts fd c)
        × (m'.appending ≡ m.appending - 1)
        × (m'.scheduled ≡ m.scheduled)
  unfolding cancel_tested fire trigger_event
  again-runs fd s m c e off = (
    record m {
      contexts = set m.contexts fd c;
      appending = m.appending - 1;
      scheduled = m.scheduled ++ [];
    },
    rw (e, off, cancel_tested, fire, trigger_event) refl,
    refl,
    refl,
    append-nil m.scheduled,
  )

  -- When both events of a descriptor are set, the counter is that of the bits, and two threads cancel the
  -- same event, whose waiter has a scheduler, while epoll_ctl succeeds: a second call that begins behind
  -- the first one is refused and changes nothing. But if both have made their test before either takes
  -- the context's lock, both succeed; the waiter is scheduled once, and m_appending_event_cnt is then one
  -- less than the number of the bits that are set.
  pub cancel_event_twice :
      (fd : ℕ) (s : EventStatus) (m : IoManager C) (c : Context C)
      → m.appending ≡ waiting m.contexts
      → get_elem? m.contexts fd ≡ some c
      → c.statuses.read ≡ true
      → c.statuses.write ≡ true
      → (get_event_context s c).armed ≡ true
      → (m' : IoManager C) × (m'' : IoManager C) × (is_waiting fd s m ≡ true)
        × (cancel_tested fd s false m ≡ result true m')
        × (cancel_event fd s false m' ≡ result false m')
        × (cancel_tested fd s false m' ≡ result true m'')
        × (m''.scheduled ≡ m.scheduled ++ (work_of (get_event_context s c) ∷ []))
        × (m''.appending + 1 ≡ waiting m''.contexts)
  unfolding cancel_event is_waiting
  cancel_event_twice fd s m c v e r w ready =
      let (on, two, off) = count_both s c r w in
      let m' = once fd s c m in
      let found = get_elem?-set m.contexts fd c (triggered s c) e in
      let (m'', runs, contexts, left, same) = again-runs fd s m' (triggered s c) found off in
      (
        m',
        m'',
        rw (e, is_waiting) on,
        once-runs fd s m c e on ready,
        rw (cancel_event, is_waiting, found, off) refl,
        runs,
        same,
        omega (
          arith,
          left,
          v,
          two,
          ap waiting contexts,
          count-without c s (empty_context {C = C}) on,
          waiting-set m.contexts fd c (triggered s c) e,
          waiting-set m.contexts fd c (new_context 0) e,
          waiting-set m'.contexts fd (triggered s c) (triggered s c) found,
        ),
      )
