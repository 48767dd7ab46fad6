-- ===== src/Log/Levels.antt =====
-- How a message of each level of src/server/log.h ends.
use sample_sds_storage.Base.{
  ℕ, ◌≤◌, ◌≡◌, refl, Bool, true, Option, List, [], ◌∷◌, ◌++◌, pos, length, Run, ok,
}
use sample_sds_storage.Slice.Strings.{CharPtr}
use sample_sds_storage.Log.Format.{Arg}
use sample_sds_storage.Log.Logger.{Log, valid_level}
use sample_sds_storage.Log.Write.{Ending, returned, aborted, ending, log_line}
use sample_sds_storage.Log.Buffer.{IsStamp}
use sample_sds_storage.Log.Reopen.{log_line-HasLine}
use sample_sds_storage.Log.Macros.{log_info, log_fatal, log_err, log_warn, log_debug}

-- A run that has written one line to `fd`, and ends like this.
abbrev pub Writes : (fd : ℕ) → Log → Ending → Run (Log × Ending) → Type 0
Writes fd log end result =
    (bytes : List ℕ) × (out : Log) × (result ≡ ok (out, end))
    × (length bytes ≤ 4095)
    × (out.written ≡ log.written ++ (pos fd, bytes ++ 10 ∷ []) ∷ [])

module _ (strftime : ℕ → List ℕ) (milliseconds : ℕ) (fails : Bool) (stamp : IsStamp strftime)
    (here : CharPtr) (line : ℕ) (fmt : CharPtr) (args : List Arg)
    (vsnprintf : CharPtr → List Arg → Option (List ℕ)) where
  at_level-Writes :
      (n fd : ℕ) (log : Log)
      → valid_level (pos n) ≡ true
      → log.logger.fd ≡ pos fd
      → Writes fd log
          (ending (pos n))
          (log_line strftime milliseconds fails vsnprintf here line (pos n) fmt args log)
  at_level-Writes n fd log valid at =
      let has =
        log_line-HasLine strftime milliseconds fails stamp vsnprintf here fmt args line n fd log
          valid at in
      (has.bytes, has.out, has.run, has.short, has.written)

  -- On an open descriptor, with a `strftime` that keeps below its size, each of the five macros
  -- writes one line of at most 4096 bytes there; behind it `log_fatal` aborts, and the other four
  -- return.
  pub log_fatal-Writes :
      (fd : ℕ) (log : Log)
      → log.logger.fd ≡ pos fd
      → Writes fd log aborted
          (log_fatal strftime milliseconds fails here line fmt args vsnprintf log)
        × Writes fd log returned
            (log_err strftime milliseconds fails here line fmt args vsnprintf log)
        × Writes fd log returned
            (log_warn strftime milliseconds fails here line fmt args vsnprintf log)
        × Writes fd log returned
            (log_info strftime milliseconds fails here line fmt args vsnprintf log)
        × Writes fd log returned
            (log_debug strftime milliseconds fails here line fmt args vsnprintf log)
  unfolding log_fatal log_err log_warn log_info log_debug valid_level
  log_fatal-Writes fd log at = (
    at_level-Writes 0 fd log refl at,
    at_level-Writes 1 fd log refl at,
    at_level-Writes 2 fd log refl at,
    at_level-Writes 3 fd log refl at,
    at_level-Writes 4 fd log refl at,
  )
