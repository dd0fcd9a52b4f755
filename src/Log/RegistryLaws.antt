-- ===== src/Log/RegistryLaws.antt =====
-- src/log.cc: the loggers that LoggerMgr gives while ROOT is not deleted.
use tiger.Base.{ℕ, false, List, [], ◌∷◌, ◌++◌}
use tiger.Base.{
  none, some, ◌==◌, length, All, All-append, ◌≡◌, ◌⊎◌, refl, ap, sym, ◌∙◌, Bool-cases, Option-cases,
  inl, inr,
}
use tiger.Http.Bytes.{bytes, strcmp}
use tiger.Http.FieldsLaws.{strcmp-eq}
use tiger.Log.Logger.{Logger, add_appender}
use tiger.Log.Registry.{
  LoggerMap, find_logger, add_logger, erase_logger, del_logger, get_logger_by, new_logger_mgr,
  new_logger,
}

pub data Step : LoggerMap → LoggerMap → Type 0 where
  added : (l : Logger) (m : LoggerMap) → Step m (add_logger l m).1
  deleted :
      (name : List ℕ) (m : LoggerMap)
      → strcmp name (bytes "ROOT") ≡ false
      → Step m (del_logger name m).1

pub data Reach : LoggerMap → LoggerMap → Type 0 where
  here : (m : LoggerMap) → Reach m m
  next : (m m' m'' : LoggerMap) → Reach m m' → Step m' m'' → Reach m m''

abbrev IsNamed : List ℕ × Logger → Type 0
IsNamed e = e.0 ≡ e.1.name

-- ROOT is there, and every logger stands under its name.
pub record HasRoot (m : LoggerMap) : Type 0 where
  pub root : Logger
  pub has_root : find_logger m (bytes "ROOT") ≡ some root
  pub named : All IsNamed m

find_logger-append :
    (m : LoggerMap) (name : List ℕ) (l : Logger) (more : LoggerMap)
    → find_logger m name ≡ some l
    → find_logger (m ++ more) name ≡ some l
unfolding find_logger
find_logger-append [] name l more h = absurd (cc)
find_logger-append ((k, l') ∷ m) name l more h = elim (Bool-cases (strcmp k name)) [
  | inl e ↦ rw e (rw e at h)
  | inr e ↦ rw e (find_logger-append m name l more (rw e at h))
]

find_logger-erase_logger :
    (m : LoggerMap) (name other : List ℕ)
    → strcmp name other ≡ false
    → find_logger (erase_logger m name) other ≡ find_logger m other
unfolding find_logger erase_logger
find_logger-erase_logger [] name other d = refl
find_logger-erase_logger ((k, l) ∷ m) name other d = elim (Bool-cases (strcmp k name)) [
  | inl e ↦ rw e (rw (ap (λ x. strcmp x other) (strcmp-eq k name e) ∙ d) refl)
  | inr e ↦ rw e (elim (Bool-cases (strcmp k other)) [
    | inl f ↦ rw f refl
    | inr f ↦ rw f (find_logger-erase_logger m name other d)
  ])
]

All-erase_logger :
    (m : LoggerMap) (name : List ℕ) → All IsNamed m → All IsNamed (erase_logger m name)
unfolding erase_logger
All-erase_logger [] name h = h
All-erase_logger ((k, l) ∷ m) name h = elim (Bool-cases (strcmp k name)) [
  | inl e ↦ rw e h.1
  | inr e ↦ rw e (h.0, All-erase_logger m name h.1)
]

add_logger-HasRoot : (l : Logger) (m : LoggerMap) → HasRoot m → HasRoot (add_logger l m).1
unfolding add_logger
add_logger-HasRoot l m h = elim (Option-cases (find_logger m l.name)) [
  | inr (other, e) ↦ rw (add_logger, e) h
  | inl e ↦
      rw (add_logger, e)
        (record {
          root = h.root;
          has_root = find_logger-append m (bytes "ROOT") h.root ((l.name, l) ∷ []) h.has_root;
          named = All-append IsNamed m ((l.name, l) ∷ []) h.named (refl, tt);
        })
]

del_logger-HasRoot :
    (name : List ℕ) (m : LoggerMap)
    → strcmp name (bytes "ROOT") ≡ false
    → HasRoot m
    → HasRoot (del_logger name m).1
unfolding del_logger
del_logger-HasRoot name m d h = elim (Bool-cases (length name == 0)) [
  | inl z ↦ rw (del_logger, z) h
  | inr z ↦ elim (Option-cases (find_logger m name)) [
    | inl e ↦ rw (del_logger, z, e) h
    | inr (l, e) ↦
        rw (del_logger, z, e)
          (record {
            root = h.root;
            has_root = find_logger-erase_logger m name (bytes "ROOT") d ∙ h.has_root;
            named = All-erase_logger m name h.named;
          })
  ]
]

Step-HasRoot : (m m' : LoggerMap) → Step m m' → HasRoot m → HasRoot m'
Step-HasRoot _ _ (added l m) h = add_logger-HasRoot l m h
Step-HasRoot _ _ (deleted name m d) h = del_logger-HasRoot name m d h

one-HasRoot : (l : Logger) → bytes "ROOT" ≡ l.name → HasRoot ((bytes "ROOT", l) ∷ [])
unfolding find_logger
one-HasRoot l e = record { root = l; has_root = refl; named = (e, tt) }

Reach-HasRoot : (p : ℕ) (m : LoggerMap) → Reach (new_logger_mgr p) m → HasRoot m
unfolding new_logger_mgr new_logger add_appender
Reach-HasRoot p _ (here _) = one-HasRoot _ refl
Reach-HasRoot p m'' (next _ m' _ r s) = Step-HasRoot m' m'' s (Reach-HasRoot p m' r)

some-same : (a b : Logger) → some a ≡ some b → a ≡ b
some-same a b e = ap (λ o. elim o [ none ↦ a | some x ↦ x ]) e

find_logger-named :
    (m : LoggerMap) (name : List ℕ) (l : Logger)
    → All IsNamed m
    → find_logger m name ≡ some l
    → l.name ≡ name
unfolding find_logger
find_logger-named [] name l h e = absurd (cc)
find_logger-named ((k, l') ∷ m) name l h e = elim (Bool-cases (strcmp k name)) [
  | inl g ↦ ap (λ x. x.name) (sym (some-same l' l (rw g at e))) ∙ sym h.0 ∙ strcmp-eq k name g
  | inr g ↦ find_logger-named m name l h.1 (rw g at e)
]

-- After any sequence of adding loggers and of deleting some by their names, ROOT excepted, starting with a
-- new LoggerMgr, get_logger_by gives a logger for every name and does not throw: one that has this name
-- or else the name ROOT.
pub get_logger_by_lem :
    (p : ℕ) (m : LoggerMap) (name : List ℕ)
    → Reach (new_logger_mgr p) m
    → (l : Logger) × (get_logger_by name m ≡ some l) × ((l.name ≡ name) ⊎ (l.name ≡ bytes "ROOT"))
unfolding get_logger_by
get_logger_by_lem p m name r =
    let h = Reach-HasRoot p m r in
    elim (Option-cases (find_logger m name)) [
      | inr (l, e) ↦ (l, rw (get_logger_by, e) refl, inl (find_logger-named m name l h.named e))
      | inl e ↦ (
        h.root,
        rw (get_logger_by, e) h.has_root,
        inr (find_logger-named m (bytes "ROOT") h.root h.named h.has_root),
      )
    ]
