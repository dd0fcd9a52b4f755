-- ===== src/Tests/Log.antt =====
-- Concrete runs of src/log.cc.
use tiger.Base.{ℕ, ◌+◌, ◌*◌, List, [], ◌∷◌, some, ◌≡◌, ◌⊎◌, refl, arith}
use tiger.Http.Bytes.{bytes}
use tiger.Log.Level.{debug, info, warn, error, level_to_string, level_from_string}
use tiger.Log.Pattern.{
  text, item, parse_loop, flush, isalpha, LogEvent, format, FormatItem, new_formatter,
}
use tiger.Log.PatternLaws.{
  Piece, plain, field, written, parts_of, parse_loop-written, format-milliseconds,
}
use tiger.Log.Logger.{Logger, std_out}
use tiger.Log.Registry.{new_logger_mgr, new_logger, add_logger, get_logger_by, LoggerMap}
use tiger.Log.RegistryLaws.{here, next, added, get_logger_by_lem}

abbrev pieces : List Piece
pieces =
    plain (bytes "a%")
    ∷ plain (bytes "b ")
    ∷ field (bytes "d") (bytes "%Y")
    ∷ field (bytes "m") []
    ∷ []

parse_loop-written_example :
    parse_loop 0 (bytes "a%%b %d{%Y}%m{}") []
    ≡ text (bytes "a%b ") ∷ item (bytes "d") (bytes "%Y") ∷ item (bytes "m") [] ∷ []
unfolding written parts_of flush isalpha
parse_loop-written_example =
    parse_loop-written pieces []
      (tt, (tt, (((refl, tt), (refl, (refl, tt))), (((refl, tt), tt), tt))))

abbrev event : LogEvent
event = record {
  level = warn;
  file = bytes "a.cc";
  line = 3;
  thread_id = 4;
  co_id = 5;
  time = 0;
  thread_name = bytes "t";
  ss = bytes "hi";
}

abbrev unary : ℕ → List ℕ
unary n = n ∷ []

format-milliseconds_example :
    format unary unary
      (λ fmt t. t ∷ [])
      (new_formatter [])
      (bytes "ROOT")
      warn
      (record event { time = 1000 * 7 + 5 })
    ≡ format unary unary
        (λ fmt t. t ∷ [])
        (new_formatter [])
        (bytes "ROOT")
        warn
        (record event { time = 1000 * 7 })
format-milliseconds_example =
    format-milliseconds unary unary (λ fmt t. t ∷ []) (new_formatter []) (bytes "ROOT") warn event 7
      5 (omega arith)

abbrev line_of : List FormatItem → List ℕ
line_of items = bytes "x"

abbrev two_levels : Logger
two_levels = record {
  name = bytes "L";
  level = info;
  appenders =
      (1, record { formatter = []; level = error; sink = std_out })
      ∷ (2, record { formatter = []; level = info; sink = std_out })
      ∷ [];
}

abbrev with_sys : LoggerMap
with_sys = (add_logger (new_logger (bytes "SYS") debug) (new_logger_mgr 1)).1

get_logger_by_lem_example :
    (l : Logger) × (get_logger_by (bytes "SYS") with_sys ≡ some l)
    × ((l.name ≡ bytes "SYS") ⊎ (l.name ≡ bytes "ROOT"))
get_logger_by_lem_example = get_logger_by_lem 1 with_sys (bytes "SYS") (
    next (new_logger_mgr 1) (new_logger_mgr 1) with_sys (here (new_logger_mgr 1))
      (added (new_logger (bytes "SYS") debug) (new_logger_mgr 1)))

-- Every level is read back from its string.
level_strings :
    (level_from_string (level_to_string debug) ≡ debug)
    × (level_from_string (level_to_string info) ≡ info)
    × (level_from_string (level_to_string warn) ≡ warn)
    × (level_from_string (level_to_string error) ≡ error)
unfolding level_to_string level_from_string
level_strings = (refl, refl, refl, refl)

-- A format that is not closed puts its error before the text in front of it.
unclosed_format :
    parse_loop 0 (bytes "ab%d{x") [] ≡ text (bytes "<<pattern_error>>") ∷ text (bytes "abd{x") ∷ []
unfolding parse_loop
unclosed_format = refl
