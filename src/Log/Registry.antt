-- ===== src/Log/Registry.antt =====
-- src/log.h and src/log.cc: LoggerMgr. m_logger_map is a list of names and loggers without a name twice;
-- a logger is its record, so that what is logged later is not seen here. `none` of get_logger_by is the
-- exception of m_logger_map.at. The configuration file of add_loggers is a parameter.
use tiger.Base.{ℕ, suc, ◌+◌, Bool, true, false, ◌&&◌, List, [], ◌∷◌, ◌++◌}
use tiger.Base.{Option, none, some, ◌==◌, if◌then◌else◌, length}
use tiger.Http.Bytes.{bytes, strcmp}
use tiger.Log.Level.{Level, debug}
use tiger.Log.Pattern.{FormatItem, new_formatter}
use tiger.Log.Logger.{Appender, std_out, file, Logger, add_appender, new_file_log_appender}

abbrev pub LoggerMap : Type 0
LoggerMap = List (List ℕ × Logger)

pub record AppenderDefine : Type 0 where
  pub type : List ℕ
  pub level : Level
  pub file : List ℕ
  pub interval : ℕ

pub record LoggerDefine : Type 0 where
  pub name : List ℕ
  pub level : Level
  pub formater : List ℕ
  pub appenders : List AppenderDefine

unfoldable pub find_logger : LoggerMap → List ℕ → Option Logger
find_logger [] name = none
find_logger ((k, l) ∷ rest) name = if strcmp k name then some l else find_logger rest name

-- add_logger of a logger.
unfoldable pub add_logger : Logger → LoggerMap → Bool × LoggerMap
unfolding find_logger
add_logger l m = elim (find_logger m l.name) [
  | some other ↦ (false, m)
  | none ↦ (true, m ++ (l.name, l) ∷ [])
]

unfoldable pub erase_logger : LoggerMap → List ℕ → LoggerMap
erase_logger [] name = []
erase_logger ((k, l) ∷ rest) name =
    let later = erase_logger rest name in if strcmp k name then rest else (k, l) ∷ later

unfoldable pub del_logger : List ℕ → LoggerMap → Bool × LoggerMap
unfolding find_logger erase_logger
del_logger name m =
    if length name == 0
    then (false, m)
    else elim (find_logger m name) [ none ↦ (false, m) | some l ↦ (true, erase_logger m name) ]

unfoldable pub get_logger_by : List ℕ → LoggerMap → Option Logger
unfolding find_logger
get_logger_by name m = elim (find_logger m name) [
  | some l ↦ some l
  | none ↦ find_logger m (bytes "ROOT")
]

-- Logger(name, level).
unfoldable pub new_logger : List ℕ → Level → Logger
new_logger name level = record { name = name; level = level; appenders = [] }

-- LoggerMgr(); `p` is the address of the appender.
unfoldable pub new_logger_mgr : ℕ → LoggerMap
unfolding new_formatter new_logger add_appender add_logger find_logger
new_logger_mgr p =
    let a : Appender = record { formatter = new_formatter []; level = debug; sink = std_out } in
    (add_logger (add_appender p a (new_logger (bytes "ROOT") debug)) []).1

module _ (stamp : ℕ → List ℕ) (can_open : List ℕ → Bool) where
  -- An appender of add_logger of a LoggerDefine; its interval is the default of the constructor.
  unfoldable pub define_appender : List FormatItem → ℕ → AppenderDefine → Appender
  unfolding new_file_log_appender
  define_appender formatter now d = record {
    formatter = formatter;
    level = d.level;
    sink =
        if strcmp d.type (bytes "FileLogAppender")
        then file (new_file_log_appender stamp can_open d.file 7200 now)
        else std_out;
  }

  -- The loop of add_logger of a LoggerDefine; the appenders have the addresses from `p` on.
  unfoldable pub define_appenders : List FormatItem → ℕ → ℕ → List AppenderDefine → Logger → Logger
  unfolding define_appender add_appender
  define_appenders formatter now p [] l = l
  define_appenders formatter now p (d ∷ ds) l =
      define_appenders formatter now (suc p) ds (add_appender p (define_appender formatter now d) l)

  -- add_logger of a LoggerDefine.
  unfoldable pub add_defined_logger : ℕ → ℕ → LoggerDefine → LoggerMap → Bool × LoggerMap
  unfolding define_appenders new_logger new_formatter add_logger
  add_defined_logger now p d m =
      add_logger
        (define_appenders (new_formatter d.formater) now p d.appenders (new_logger d.name d.level))
        m

  -- The loop of add_loggers over the loggers of the configuration.
  unfoldable pub add_loggers : ℕ → ℕ → List LoggerDefine → LoggerMap → Bool × LoggerMap
  unfolding add_defined_logger
  add_loggers now p [] m = (true, m)
  add_loggers now p (d ∷ ds) m =
      let (added, m') = add_defined_logger now p d m in
      let (later, m'') = add_loggers now (p + length d.appenders) ds m' in (added && later, m'')
