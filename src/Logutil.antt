-- ===== src/Logutil.antt =====
-- logutil/loglevel.go: levels of a log by name.
mod Tests
use gframework.Base.{String, Bool, true, false, if◌then◌else◌, str_eq}

-- The levels of zerolog; tracelog has the first five.
pub data Level : Type 0 where
  trace debug info warn error fatal panic : Level

pub parse_postgres_log_level : String → Level
parse_postgres_log_level level =
    if str_eq level "trace"
    then trace
    else if str_eq level "debug"
    then debug
    else if str_eq level "info"
    then info
    else if str_eq level "warn"
    then warn
    else if str_eq level "error"
    then error
    else info

pub parse_zerolog_level : String → Level
parse_zerolog_level level =
    if str_eq level "trace"
    then trace
    else if str_eq level "debug"
    then debug
    else if str_eq level "info"
    then info
    else if str_eq level "warn"
    then warn
    else if str_eq level "error"
    then error
    else if str_eq level "fatal"
    then fatal
    else if str_eq level "panic"
    then panic
    else info
