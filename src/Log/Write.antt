-- ===== src/Log/Write.antt =====
-- The functions of src/server/log.c that write a line.
use sample_sds_storage.Base.{
  ℕ, zero, suc, ◌+◌, ◌-◌, ◌*◌, Bool, false, Option, none, some, List, [], ◌∷◌, ◌++◌, ltb, ◌==◌,
  if◌then◌else◌, ℤ, pos, negsuc, length, take, Run, ok, fault, ◌>>=◌, load,
}
use sample_sds_storage.Slice.Strings.{CharPtr, at}
use sample_sds_storage.Log.Format.{Arg, word, long_word, string, safe_vsnprintf, safe_snprintf}
use sample_sds_storage.Log.Logger.{
  Log, max_len, stderr_fileno, level_names, level_colors, milliseconds_format, place_format,
  dots_format, valid_level, is_closed, write_line,
}

-- `buf[len++] = '\n'`, where `buf` has `size` bytes, of which `line` are written.
unfoldable pub end_line : (size : ℕ) → List ℕ → Run (List ℕ)
end_line size line = if ltb (length line) size then ok (line ++ 10 ∷ []) else fault

-- `_vscnprintf`, and `_scnprintf`: what they return, from what `vsnprintf` makes of the format,
-- with none where it fails. It stores what fits of the text in front of a NUL.
unfoldable pub vscnprintf : (size : ℕ) → Option (List ℕ) → ℤ
vscnprintf size none = pos 0
vscnprintf size (some []) = pos 0
vscnprintf zero (some (c ∷ out)) = negsuc 0
vscnprintf (suc size) (some (c ∷ out)) =
    if ltb (suc (length out)) (suc size) then pos (suc (length out)) else pos size

abbrev pub text_of : Option (List ℕ) → List ℕ
text_of none = []
text_of (some out) = out

-- `len += n`: what is written up to `len`.
abbrev pub moved : (line text : List ℕ) → ℤ → List ℕ
moved line text (pos n) = line ++ take n text
moved line text (negsuc n) = take (length line - (n + 1)) line

-- `len += _vscnprintf(buf + len, size - len, ...)`
unfoldable pub extend : (size : ℕ) → List ℕ → Option (List ℕ) → List ℕ
extend size line text = moved line (text_of text) (vscnprintf (size - length line) text)

-- `len += _log_safe_snprintf(buf + len, size - len, ...)`
unfoldable pub extend_safe : (size : ℕ) → List ℕ → List ℕ → List Arg → Run (List ℕ)
extend_safe size line format args = do
  out ← safe_snprintf (size - length line) (at format) args
  ok (line ++ out)

unfoldable pub log_stderr_safe : (fails : Bool) (fmt : CharPtr) → List Arg → Log → Run Log
log_stderr_safe fails fmt args log = do
  dots ← extend_safe max_len [] dots_format []
  out ← safe_vsnprintf (max_len - length dots) fmt args
  line ← end_line max_len (dots ++ out)
  ok (write_line fails stderr_fileno line log)

-- How a call ends: `abort` comes after the line is written.
pub data Ending : Type 0 where
  returned : Ending
  aborted : Ending

abbrev pub is_fatal : ℤ → Bool
is_fatal (pos level) = level == 0
is_fatal (negsuc n) = false

abbrev pub ending : ℤ → Ending
ending level = if is_fatal level then aborted else returned

-- `table[level]`
unfoldable pub of_level : List (List ℕ) → ℤ → Run CharPtr
of_level table (pos level) = do text ← load table level; ok (at text)
of_level table (negsuc n) = fault

-- The line up to the time.
abbrev pub dated : (strftime : ℕ → List ℕ) → List ℕ
dated strftime = let opened = b'[' ∷ [] in opened ++ strftime (max_len - length opened)

-- `strftime` is given the size left and returns what it writes, `vsnprintf` what it makes of a
-- format; `milliseconds` is `tv.tv_usec / 1000`, and `fails` says that `write` fails.
module _ (strftime : ℕ → List ℕ) (milliseconds : ℕ) (fails : Bool) where
  unfoldable pub log_safe :
      (file : CharPtr) (line : ℕ) (level : ℤ) (fmt : CharPtr) → List Arg → Log → Run (Log × Ending)
  log_safe file line level fmt args log =
      if valid_level level
      then (if is_closed log.logger.fd then ok (log, returned) else (do
        timed ←
            extend_safe max_len (dated strftime) milliseconds_format (long_word milliseconds ∷ [])
        color ← of_level level_colors level
        name ← of_level level_names level
        placed ←
            extend_safe max_len timed place_format
              (string color ∷ string name ∷ string file ∷ word line ∷ [])
        out ← safe_vsnprintf (max_len - length placed) fmt args
        bytes ← end_line max_len (placed ++ out)
        ok (write_line fails log.logger.fd bytes log, ending level)))
      else ok (log, returned)

  module _ (vsnprintf : CharPtr → List Arg → Option (List ℕ)) where
    unfoldable pub log_line :
        (file : CharPtr) (line : ℕ) (level : ℤ) (fmt : CharPtr)
        → List Arg
        → Log
        → Run (Log × Ending)
    log_line file line level fmt args log =
        if valid_level level
        then (if is_closed log.logger.fd then ok (log, returned) else (do
          let timed =
              extend max_len (dated strftime)
                (vsnprintf (at milliseconds_format) (long_word milliseconds ∷ []))
          color ← of_level level_colors level
          name ← of_level level_names level
          let place = string color ∷ string name ∷ string file ∷ word line ∷ []
          let placed = extend max_len timed (vsnprintf (at place_format) place)
          bytes ← end_line max_len (extend max_len placed (vsnprintf fmt args))
          ok (write_line fails log.logger.fd bytes log, ending level)))
        else ok (log, returned)

module _ (vsnprintf : CharPtr → List Arg → Option (List ℕ)) (fails : Bool) where
  unfoldable pub log_stderr : (fmt : CharPtr) → List Arg → Log → Run Log
  log_stderr fmt args log = do
    line ← end_line (4 * max_len) (extend (4 * max_len) [] (vsnprintf fmt args))
    ok (write_line fails stderr_fileno line log)
