-- ===== src/Log.antt =====
-- src/log.h and src/log.cc: levels, patterns, formatters, appenders and loggers.
pub mod Level
pub mod Pattern
pub mod PatternLaws
pub mod Logger
pub mod LoggerLaws
pub mod Registry
pub mod RegistryLaws
