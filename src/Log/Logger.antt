-- ===== src/Log/Logger.antt =====
-- src/log.h and src/log.cc: the appenders and Logger. An appender belongs to one logger and has an
-- address. `stamp` is localtime_r with strftime, `can_open` whether a file can be opened, and `now` what
-- Second() gives. The locks make each operation one step.
use tiger.Base.{ℕ, ◌+◌, ◌*◌, ◌/◌, Bool, List, [], ◌∷◌, ◌++◌}
use tiger.Base.{Option, none, some, ltb, leb, ◌==◌, if◌then◌else◌}
use tiger.Http.Bytes.{bytes}
use tiger.Log.Level.{Level, level_number}
use tiger.Log.Pattern.{FormatItem}

-- `stream` is the file that is open.
pub record FileLogAppender : Type 0 where
  pub path : List ℕ
  pub interval : ℕ
  pub start_time : ℕ
  pub end_time : ℕ
  pub stream : Option (List ℕ)

pub data Sink : Type 0 where
  std_out : Sink
  file : FileLogAppender → Sink

pub record Appender : Type 0 where
  pub formatter : List FormatItem
  pub level : Level
  pub sink : Sink

pub record Logger : Type 0 where
  pub name : List ℕ
  pub level : Level
  pub appenders : List (ℕ × Appender)

-- The lines on the console, and those in files with the file's name.
pub record Output : Type 0 where
  pub console : List (List ℕ)
  pub files : List (List ℕ × List ℕ)

module _ (stamp : ℕ → List ℕ) (can_open : List ℕ → Bool) where
  -- The first close() and the result are of no effect.
  unfoldable pub open_file : ℕ → FileLogAppender → FileLogAppender
  open_file now f =
      let name = f.path ++ bytes ".log." ++ stamp now in
      record f {
        start_time = now;
        end_time = now + f.interval;
        stream = if can_open name then some name else none;
      }

  unfoldable pub whole_hours : ℕ → ℕ
  whole_hours interval = if ltb interval 3600 then 3600 else interval / 3600 * 3600

  -- FileLogAppender(formatter, level, path, interval), without the first two.
  unfoldable pub new_file_log_appender : List ℕ → ℕ → ℕ → FileLogAppender
  unfolding open_file whole_hours
  new_file_log_appender path interval now = open_file now (record {
    path = path;
    interval = whole_hours interval;
    start_time = now;
    end_time = 0;
    stream = none;
  })

  -- FileLogAppender::log up to the formatter.
  unfoldable pub rotate : ℕ → FileLogAppender → FileLogAppender
  unfolding open_file
  rotate now f = if ltb f.end_time now then open_file now f else f

  -- `text` is what the formatter gives. A stream that is not open takes nothing.
  unfoldable pub log_file : List ℕ → ℕ → FileLogAppender → Output → FileLogAppender × Output
  unfolding rotate
  log_file text now f out =
      let f' = rotate now f in
      (
        f',
        elim f'.stream [
          | none ↦ out
          | some name ↦ record out { files = out.files ++ (name, text) ∷ [] }
        ],
      )

-- `text_of` is the text that a formatter makes of the event for the logger.
module _ (stamp : ℕ → List ℕ) (can_open : List ℕ → Bool) (text_of : List FormatItem → List ℕ) where
  -- LogAppender::log, both of them.
  unfoldable pub append_log : Level → ℕ → Appender → Output → Appender × Output
  unfolding level_number log_file
  append_log level now a out =
      if leb (level_number a.level) (level_number level)
      then elim a.sink [
        | std_out ↦ (a, record out { console = out.console ++ text_of a.formatter ∷ [] })
        | file f ↦
            let (f', out') = log_file stamp can_open (text_of a.formatter) now f out in
            (record a { sink = file f' }, out')
      ]
      else (a, out)

  unfoldable pub log_loop : Level → ℕ → List (ℕ × Appender) → Output → List (ℕ × Appender) × Output
  unfolding append_log
  log_loop level now [] out = ([], out)
  log_loop level now ((p, a) ∷ appenders) out =
      let (a', out') = append_log level now a out in
      let (appenders', out'') = log_loop level now appenders out' in ((p, a') ∷ appenders', out'')

  -- Logger::log.
  unfoldable pub log : Level → ℕ → Logger → Output → Logger × Output
  unfolding level_number log_loop
  log level now l out =
      let (appenders', out') = log_loop level now l.appenders out in
      if ltb (level_number level) (level_number l.level)
      then (l, out)
      else (record l { appenders = appenders' }, out')

unfoldable pub add_appender : ℕ → Appender → Logger → Logger
add_appender p a l = record l { appenders = l.appenders ++ (p, a) ∷ [] }

unfoldable pub add_appenders : List (ℕ × Appender) → Logger → Logger
unfolding add_appender
add_appenders [] l = l
add_appenders ((p, a) ∷ more) l = add_appenders more (add_appender p a l)

unfoldable pub erase_appender : ℕ → List (ℕ × Appender) → List (ℕ × Appender)
erase_appender p [] = []
erase_appender p ((q, a) ∷ appenders) =
    let rest = erase_appender p appenders in if q == p then appenders else (q, a) ∷ rest

unfoldable pub del_appender : ℕ → Logger → Logger
unfolding erase_appender
del_appender p l = record l { appenders = erase_appender p l.appenders }
