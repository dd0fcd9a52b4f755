-- ===== src/Log/LoggerLaws.antt =====
-- src/log.cc: which lines a call of Logger::log puts on the console, and when a log file is changed.
use tiger.Base.{ℕ, Bool, List, [], ◌∷◌, ◌++◌}
use tiger.Base.{
  ltb, leb, if◌then◌else◌, ◌≡◌, ◌⊎◌, refl, ap, sym, ◌∙◌, Bool-cases, inl, inr, Option-cases,
}
use mathlib.Core.List.{append-nil, append_assoc}
use tiger.Log.Level.{Level, level_number}
use tiger.Log.Pattern.{FormatItem}
use tiger.Log.Logger.{
  FileLogAppender, Sink, std_out, file, Appender, Logger, Output, rotate, log_file, append_log,
  log_loop, log,
}

-- The lines that a log call should put on the console.
unfoldable pub console_lines :
    (List FormatItem → List ℕ) → Level → List (ℕ × Appender) → List (List ℕ)
console_lines text_of level [] = []
console_lines text_of level ((p, a) ∷ appenders) =
    let rest = console_lines text_of level appenders in
    elim a.sink [
      | file f ↦ rest
      | std_out ↦
          if leb (level_number a.level) (level_number level)
          then text_of a.formatter ∷ rest
          else rest
    ]

Sink-cases : (s : Sink) → (s ≡ std_out) ⊎ ((f : FileLogAppender) × (s ≡ file f))
Sink-cases std_out = inl refl
Sink-cases (file f) = inr (f, refl)

console_lines-cons :
    (text_of : List FormatItem → List ℕ) (level : Level) (p : ℕ) (a : Appender)
    (appenders : List (ℕ × Appender))
    → console_lines text_of level ((p, a) ∷ appenders)
      ≡ console_lines text_of level ((p, a) ∷ []) ++ console_lines text_of level appenders
unfolding console_lines
console_lines-cons text_of level p a appenders = elim (Sink-cases a.sink) [
  | inl e ↦ elim (Bool-cases (leb (level_number a.level) (level_number level))) [
    | inl g ↦ rw (console_lines, e, g) refl
    | inr g ↦ rw (console_lines, e, g) refl
  ]
  | inr (f, e) ↦ rw (console_lines, e) refl
]

module _ (stamp : ℕ → List ℕ) (can_open : List ℕ → Bool) where
  log_file-console :
      (text : List ℕ) (now : ℕ) (f : FileLogAppender) (out : Output)
      → (log_file stamp can_open text now f out).1.console ≡ out.console
  unfolding log_file
  log_file-console text now f out = elim (Option-cases (rotate stamp can_open now f).stream) [
    | inl e ↦ rw (log_file, e) refl
    | inr (name, e) ↦ rw (log_file, e) refl
  ]

module _ (stamp : ℕ → List ℕ) (can_open : List ℕ → Bool) (text_of : List FormatItem → List ℕ) where
  append_log-console :
      (p : ℕ) (level : Level) (now : ℕ) (a : Appender) (out : Output)
      → (append_log stamp can_open text_of level now a out).1.console
        ≡ out.console ++ console_lines text_of level ((p, a) ∷ [])
  unfolding append_log console_lines
  append_log-console p level now a out = elim (Sink-cases a.sink) [
    | inl e ↦ elim (Bool-cases (leb (level_number a.level) (level_number level))) [
      | inl g ↦ rw (append_log, console_lines, e, g) refl
      | inr g ↦ rw (append_log, console_lines, e, g) (sym (append-nil out.console))
    ]
    | inr (f, e) ↦ elim (Bool-cases (leb (level_number a.level) (level_number level))) [
      | inl g ↦
          rw (append_log, console_lines, e, g)
            (log_file-console stamp can_open (text_of a.formatter) now f out
              ∙ sym (append-nil out.console))
      | inr g ↦ rw (append_log, console_lines, e, g) (sym (append-nil out.console))
    ]
  ]

  log_loop-console :
      (level : Level) (now : ℕ) (appenders : List (ℕ × Appender)) (out : Output)
      → (log_loop stamp can_open text_of level now appenders out).1.console
        ≡ out.console ++ console_lines text_of level appenders
  unfolding log_loop console_lines
  log_loop-console level now [] out = sym (append-nil out.console)
  log_loop-console level now ((p, a) ∷ appenders) out =
      log_loop-console level now appenders (append_log stamp can_open text_of level now a out).1
      ∙ ap (λ c. c ++ console_lines text_of level appenders) (append_log-console p level now a out)
      ∙ append_assoc out.console (console_lines text_of level ((p, a) ∷ []))
          (console_lines text_of level appenders)
      ∙ ap (◌++◌ out.console) (sym (console_lines-cons text_of level p a appenders))

  -- For every logger, event and output so far: a call of log below the logger's level leaves the
  -- console as it was; any other call adds to it, in the order of the appenders, one
  -- formatted line for each that writes there and whose level is not above the call's, and no other.
  log_lem :
      (level : Level) (now : ℕ) (l : Logger) (out : Output)
      → (log stamp can_open text_of level now l out).1.console ≡ (
          if ltb (level_number level) (level_number l.level)
          then out.console
          else out.console ++ console_lines text_of level l.appenders)
  unfolding log
  log_lem level now l out = elim (Bool-cases (ltb (level_number level) (level_number l.level))) [
    | inl e ↦ rw (log, e) refl
    | inr e ↦ rw (log, e) (log_loop-console level now l.appenders out)
  ]
