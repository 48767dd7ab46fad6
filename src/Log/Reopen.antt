-- ===== src/Log/Reopen.antt =====
-- `log_reopen` and `log_deinit` of src/server/log.c, and the line that is written behind them.
use sample_sds_storage.Base.{
  ℕ, ◌≤◌, ◌≡◌, refl, ap, Bool, false, true, Option, List, [], ◌∷◌, ◌++◌, ℤ, pos, length, Run, ok,
  ◌>>=◌,
}
use sample_sds_storage.Slice.Strings.{CharPtr}
use sample_sds_storage.Log.Format.{Arg}
use sample_sds_storage.Log.Logger.{Log, valid_level, is_stderr, write_line}
use sample_sds_storage.Log.Write.{Ending, ending, log_line}
use sample_sds_storage.Log.Setup.{log_reopen, log_deinit}
use sample_sds_storage.Log.Buffer.{IsStamp}
use sample_sds_storage.Log.Line.{log_line-writes}

-- A run that has added a line to the descriptor `fd`, behind what was written.
pub record HasLine (fd : ℤ) (level : ℤ) (before : List (ℤ × List ℕ)) (closed : List ℤ)
    (result : Run (Log × Ending)) : Type 0 where
  pub bytes : List ℕ
  pub out : Log
  pub short : length bytes ≤ 4095
  pub run : result ≡ ok (out, ending level)
  pub written : out.written ≡ before ++ (fd, bytes ++ 10 ∷ []) ∷ []
  pub all_closed : out.closed ≡ closed
  pub same_fd : out.logger.fd ≡ fd

module _ (strftime : ℕ → List ℕ) (milliseconds : ℕ) (fails : Bool) (stamp : IsStamp strftime)
    (vsnprintf : CharPtr → List Arg → Option (List ℕ)) where
  pub log_line-HasLine :
      (file fmt : CharPtr) (args : List Arg) (line n fd : ℕ) (log : Log)
      → valid_level (pos n) ≡ true
      → log.logger.fd ≡ pos fd
      → HasLine
          (pos fd)
          (pos n)
          log.written
          log.closed
          (log_line strftime milliseconds fails vsnprintf file line (pos n) fmt args log)
  unfolding write_line
  log_line-HasLine file fmt args line n fd log valid at =
      let (bytes, short, run) =
        log_line-writes strftime milliseconds fails stamp vsnprintf file fmt args line n log valid
          (rw at refl) in
      record {
        bytes = bytes;
        out = write_line fails log.logger.fd (bytes ++ 10 ∷ []) log;
        short = short;
        run = run;
        written = ap (λ d. log.written ++ (d, bytes ++ 10 ∷ []) ∷ []) at;
        all_closed = refl;
        same_fd = at;
      }

  -- Of a logger on a descriptor that is open and not that of standard error, at a level of the
  -- logger's and a `strftime` that keeps below its size: `log_reopen` closes the descriptor and
  -- opens the file of the logger's name, and where that gives a descriptor the next line of `_log`
  -- goes there; `log_deinit` closes it too, but the next line of `_log` still goes to the
  -- descriptor that it has closed.
  pub log_reopen-log_line :
      (open_file : CharPtr → ℤ) (error file fmt : CharPtr) (args : List Arg) (line n old new : ℕ)
      (log : Log)
      → valid_level (pos n) ≡ true
      → log.logger.fd ≡ pos old
      → is_stderr (pos old) ≡ false
      → open_file log.logger.name ≡ pos new
      → HasLine (pos new) (pos n) log.written (log.closed ++ pos old ∷ []) (do
        reopened ← log_reopen open_file error fails log
        log_line strftime milliseconds fails vsnprintf file line (pos n) fmt args reopened)
        × HasLine (pos old) (pos n) log.written (log.closed ++ pos old ∷ []) (
            log_line strftime milliseconds fails vsnprintf file line
              (pos n)
              fmt
              args
              (log_deinit log))
  unfolding log_reopen log_deinit
  log_reopen-log_line open_file error file fmt args line n old new log valid at other opens = (
    rw (at, other, opens) (log_line-HasLine file fmt args line n new _ valid refl),
    rw (at, other) (log_line-HasLine file fmt args line n old _ valid refl),
  )
