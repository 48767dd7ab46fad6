-- ===== src/Log/Macros.antt =====
-- The macros of src/server/log.h: `_log` and `_log_safe` at a level, with the place in the source.
use sample_sds_storage.Base.{ℕ, Bool, Option, List, ℤ, pos, Run}
use sample_sds_storage.Slice.Strings.{CharPtr}
use sample_sds_storage.Log.Format.{Arg}
use sample_sds_storage.Log.Logger.{Log}
use sample_sds_storage.Log.Write.{Ending, log_line, log_safe}

-- `enum logger_level`
pub data LoggerLevel : Type 0 where
  log_fatal_level log_err_level log_warn_level log_info_level log_debug_level : LoggerLevel

abbrev pub level_value : LoggerLevel → ℤ
level_value log_fatal_level = pos 0
level_value log_err_level = pos 1
level_value log_warn_level = pos 2
level_value log_info_level = pos 3
level_value log_debug_level = pos 4

-- `here` and `line` are `__FILE__` and `__LINE__`; the other parameters are those of `log_safe`.
module _ (strftime : ℕ → List ℕ) (milliseconds : ℕ) (fails : Bool) (here : CharPtr) (line : ℕ)
    (fmt : CharPtr) (args : List Arg) where
  module _ (vsnprintf : CharPtr → List Arg → Option (List ℕ)) where
    abbrev at_level : LoggerLevel → Log → Run (Log × Ending)
    at_level level =
        log_line strftime milliseconds fails vsnprintf here line (level_value level) fmt args

    unfoldable pub log_info : Log → Run (Log × Ending)
    log_info = at_level log_info_level

    unfoldable pub log_fatal : Log → Run (Log × Ending)
    log_fatal = at_level log_fatal_level

    unfoldable pub log_err : Log → Run (Log × Ending)
    log_err = at_level log_err_level

    unfoldable pub log_warn : Log → Run (Log × Ending)
    log_warn = at_level log_warn_level

    unfoldable pub log_debug : Log → Run (Log × Ending)
    log_debug = at_level log_debug_level

  abbrev at_level_safe : LoggerLevel → Log → Run (Log × Ending)
  at_level_safe level = log_safe strftime milliseconds fails here line (level_value level) fmt args

  unfoldable pub log_info_safe : Log → Run (Log × Ending)
  log_info_safe = at_level_safe log_info_level

  unfoldable pub log_fatal_safe : Log → Run (Log × Ending)
  log_fatal_safe = at_level_safe log_fatal_level

  unfoldable pub log_err_safe : Log → Run (Log × Ending)
  log_err_safe = at_level_safe log_err_level

  unfoldable pub log_warn_safe : Log → Run (Log × Ending)
  log_warn_safe = at_level_safe log_warn_level

  unfoldable pub log_debug_safe : Log → Run (Log × Ending)
  log_debug_safe = at_level_safe log_debug_level
