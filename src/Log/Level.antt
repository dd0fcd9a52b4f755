-- ===== src/Log/Level.antt =====
-- src/log.h and src/log.cc: LogLevel.
use tiger.Base.{ℕ, List, if◌then◌else◌}
use tiger.Http.Bytes.{bytes, strcmp}

pub data Level : Type 0 where
  unknow debug info warn error : Level

unfoldable pub level_number : Level → ℕ
level_number unknow = 0
level_number debug = 1
level_number info = 2
level_number warn = 3
level_number error = 4

-- ToString and FromString of LogLevel.
unfoldable pub level_to_string : Level → List ℕ
level_to_string debug = bytes "DEBUG"
level_to_string info = bytes "INFO"
level_to_string warn = bytes "WARN"
level_to_string error = bytes "ERROR"
level_to_string unknow = bytes "UNKNOW"

unfoldable pub level_from_string : List ℕ → Level
level_from_string level =
    if strcmp (bytes "DEBUG") level
    then debug
    else if strcmp (bytes "INFO") level
    then info
    else if strcmp (bytes "WARN") level
    then warn
    else if strcmp (bytes "ERROR") level
    then error
    else unknow
