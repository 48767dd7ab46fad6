-- ===== src/Log/Setup.antt =====
-- `log_init`, `log_deinit` and `log_reopen` of src/server/log.c.
use sample_sds_storage.Base.{
  ℕ, ◌%◌, ◌^◌, Bool, true, Option, List, [], ◌∷◌, ◌==◌, if◌then◌else◌, ℤ, pos, negsuc, success,
  failure, to_size, length, Run, ok, ◌>>=◌, ◌++◌,
}
use sample_sds_storage.Slice.Strings.{CharPtr, at, is_null, c_string}
use sample_sds_storage.Log.Format.{Arg, word, string}
use sample_sds_storage.Log.Logger.{
  Log, info_level, stdout_fileno, stderr_fileno, init_format, open_format, reopen_format, is_closed,
  is_stderr,
}
use sample_sds_storage.Log.Write.{log_safe, log_stderr, log_stderr_safe}

abbrev pub set_name : CharPtr → Log → Log
set_name name log = record {
  logger = record { name = name; fd = log.logger.fd; nerror = log.logger.nerror };
  written = log.written;
  closed = log.closed;
}

abbrev pub set_fd : ℤ → Log → Log
set_fd fd log = record {
  logger = record { name = log.logger.name; fd = fd; nerror = log.logger.nerror };
  written = log.written;
  closed = log.closed;
}

abbrev pub close_fd : Log → Log
close_fd log = record {
  logger = log.logger;
  written = log.written;
  closed = log.closed ++ log.logger.fd ∷ [];
}

-- `filename == NULL || !strlen(filename)`
abbrev pub no_name : CharPtr → Run Bool
no_name filename =
    if is_null filename then ok true else (do s ← c_string filename; ok (length s == 0))

-- What `log_init` finds in `enum logger_output_type`.
pub data Output : Type 0 where
  to_stdout : Output
  to_stderr : Output
  to_file : Output
  unknown : Output

unfoldable pub output_of : ℤ → Output
output_of (pos n) =
    if n == 0 then to_stdout else if n == 1 then to_stderr else if n == 2 then to_file else unknown
output_of (negsuc n) = unknown

-- The argument for `%d`.
abbrev pub int_arg : ℤ → Arg
int_arg z = word (to_size z % 2 ^ 32)

-- `open_file` is `open` in the mode to append, -1 where it fails, and `error` the text of
-- `strerror(errno)`; `here` and `line` are `__FILE__` and `__LINE__`. The other parameters are
-- those of `log_safe` and `log_stderr`.
module _ (open_file : CharPtr → ℤ) (error : CharPtr) (fails : Bool) where
  module _ (strftime : ℕ → List ℕ) (milliseconds : ℕ)
      (vsnprintf : CharPtr → List Arg → Option (List ℕ)) (here : CharPtr) (line : ℕ) where
    -- The end of `log_init`.
    unfoldable pub started : Log → Run (ℤ × Log)
    started log = do
      (logged, _) ←
          log_safe strftime milliseconds fails here line info_level (at init_format)
            (int_arg log.logger.fd ∷ []) log
      ok (success, logged)

    -- `log_init` once the name is set.
    abbrev pub start_at : Output → (filename : CharPtr) → Log → Run (ℤ × Log)
    start_at unknown filename log = ok (failure, log)
    start_at to_stdout filename log = started (set_fd stdout_fileno log)
    start_at to_stderr filename log = started (set_fd stderr_fileno log)
    start_at to_file filename log = do
      unnamed ← no_name filename
      let fd = open_file filename
      if unnamed
          then started (set_fd stdout_fileno log)
          else if is_closed fd
          then (do
            told ←
                log_stderr vsnprintf fails (at open_format) (string filename ∷ string error ∷ [])
                  (set_fd fd log)
            ok (failure, told))
          else started (set_fd fd log)

    unfoldable pub log_init : (output_type : ℤ) (filename : CharPtr) → Log → Run (ℤ × Log)
    log_init output_type filename log =
        start_at (output_of output_type) filename (set_name filename log)

  unfoldable pub log_reopen : Log → Run Log
  log_reopen log =
      let fd = open_file log.logger.name in
      let reopened = set_fd fd (close_fd log) in
      if is_stderr log.logger.fd
      then ok log
      else if is_closed fd
      then log_stderr_safe fails (at reopen_format) (string log.logger.name ∷ string error ∷ [])
          reopened
      else ok reopened

unfoldable pub log_deinit : Log → Log
log_deinit log =
    if is_closed log.logger.fd then log else if is_stderr log.logger.fd then log else close_fd log
