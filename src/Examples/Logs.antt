-- ===== src/Examples/Logs.antt =====
-- The log of src/server/log.c at concrete inputs.
use sample_sds_storage.Base.{
  sizes, ℕ, suc, ◌-◌, ◌≤◌, ◌<◌, ◌≡◌, refl, true, false, Option, some, List, [], ◌∷◌, ◌++◌, arith, ℤ,
  pos, length, take, ok, ◌>>=◌,
}
use sample_sds_storage.Slice.Strings.{CharPtr, null, at, IsText}
use sample_sds_storage.Log.Format.{Arg, format_loop, safe_vsnprintf}
use sample_sds_storage.Log.Items.{
  Item, literal, number, plain_width, long_width, d, x, text, null_string, encode, arguments,
  AllFit, Renders,
}
use sample_sds_storage.Log.Render.{safe_vsnprintf-Renders}
use sample_sds_storage.Log.Bounds.{safe_vsnprintf-lt}
use sample_sds_storage.Log.Logger.{Log, valid_level, write_line}
use sample_sds_storage.Log.Write.{log_safe, log_line, dated, aborted, returned}
use sample_sds_storage.Log.Buffer.{IsStamp}
use sample_sds_storage.Log.Macros.{log_fatal, log_err, log_warn, log_info, log_debug}
use sample_sds_storage.Log.Levels.{Writes, log_fatal-Writes}
use sample_sds_storage.Log.Reopen.{HasLine, log_reopen-log_line}
use sample_sds_storage.Log.Line.{log_safe-writes, log_line-writes}
use sample_sds_storage.Log.Setup.{log_reopen, log_deinit, set_name}
use sample_sds_storage.Log.Start.{init, StartsAt, file, log_init-StartsAt}

abbrev word_text : List ℕ
word_text = b'h' ∷ b'i' ∷ []

-- The format `%d %lx%s%s` at -1, 2 ^ 64 - 1, "hi" and NULL.
abbrev items : List Item
items =
    number plain_width d 4294967295
    ∷ literal b' '
    ∷ number long_width x 18446744073709551615
    ∷ text word_text []
    ∷ null_string
    ∷ []

items-AllFit : AllFit items
items-AllFit = (
  (omega arith, omega arith),
  ((omega arith, omega arith), ((omega arith, omega arith), (omega arith, (tt, tt)))),
)

safe_vsnprintf-Renders_example :
    (out : List ℕ) × Renders items out
    × ((size : ℕ)
        → safe_vsnprintf (suc size) (at (encode items [])) (arguments items) ≡ ok (take size out))
safe_vsnprintf-Renders_example = safe_vsnprintf-Renders items [] items-AllFit

cut : safe_vsnprintf 2 (at (b'h' ∷ b'i' ∷ 0 ∷ [])) [] ≡ ok (b'h' ∷ [])
unfolding safe_vsnprintf format_loop
cut = refl

safe_vsnprintf-lt_example : (1 < 2) × IsText (b'h' ∷ [])
safe_vsnprintf-lt_example = safe_vsnprintf-lt 2 (at (b'h' ∷ b'i' ∷ 0 ∷ [])) [] (b'h' ∷ []) cut

abbrev clock : ℕ → List ℕ
clock n = take (n - 1) (b'1' ∷ b'2' ∷ b':' ∷ [])

clock-IsStamp : IsStamp clock
clock-IsStamp n h = grind sizes

abbrev to_stderr : Log
to_stderr = record {
  logger = record { name = null; fd = pos 2; nerror = 0 };
  written = [];
  closed = [];
}

fatal_is_valid : valid_level (pos 0) ≡ true
unfolding valid_level
fatal_is_valid = refl

log_safe-writes_example :
    (prefix : List ℕ) × (rest : List ℕ) × (out : List ℕ) × (prefix ≡ dated clock ++ rest)
    × (length prefix ≤ 4095)
    × Renders items out
    × (log_safe clock 7 false
          (at (word_text ++ 0 ∷ []))
          147
          (pos 0)
          (at (encode items []))
          (arguments items)
          to_stderr
        ≡ ok (
          write_line false (pos 2) (prefix ++ take (4095 - length prefix) out ++ 10 ∷ []) to_stderr,
          aborted,
        ))
log_safe-writes_example =
    log_safe-writes clock 7 false clock-IsStamp word_text [] 147 0 items [] to_stderr (omega arith)
      (omega arith) fatal_is_valid refl items-AllFit

abbrev printed : CharPtr → List Arg → Option (List ℕ)
printed fmt args = some word_text

log_line-writes_example :
    (bytes : List ℕ) × (length bytes ≤ 4095)
    × (log_line clock 7 false printed null 147 (pos 0) null [] to_stderr
        ≡ ok (write_line false (pos 2) (bytes ++ 10 ∷ []) to_stderr, aborted))
log_line-writes_example =
    log_line-writes clock 7 false clock-IsStamp printed null null [] 147 0 to_stderr fatal_is_valid
      refl

abbrev opens : CharPtr → ℤ
opens p = pos 5

abbrev path : List ℕ
path = b'h' ∷ b'i' ∷ 0 ∷ []

log_init-StartsAt_example :
    StartsAt opens null false clock 7 printed word_text [] 99 clock-IsStamp
      (omega arith)
      (omega arith)
      (pos 5)
      (set_name (at path) to_stderr)
      (init opens null false clock 7 printed word_text [] 99 clock-IsStamp
        (omega arith)
        (omega arith)
        (pos 2)
        (at path)
        to_stderr)
log_init-StartsAt_example =
    log_init-StartsAt opens null false clock 7 printed word_text [] 99 clock-IsStamp (omega arith)
      (omega arith) (pos 2) (at path) (pos 5) to_stderr
      (file b'h' (b'i' ∷ []) [] 5 (omega arith) refl)

abbrev to_stdout_log : Log
to_stdout_log = record {
  logger = record { name = at path; fd = pos 1; nerror = 0 };
  written = [];
  closed = [];
}

log_reopen-log_line_example :
    HasLine (pos 5) (pos 0) [] (pos 1 ∷ []) (do
      reopened ← log_reopen opens null false to_stdout_log
      log_line clock 7 false printed null 147 (pos 0) null [] reopened)
    × HasLine
        (pos 1)
        (pos 0)
        []
        (pos 1 ∷ [])
        (log_line clock 7 false printed null 147 (pos 0) null [] (log_deinit to_stdout_log))
log_reopen-log_line_example =
    log_reopen-log_line clock 7 false clock-IsStamp printed opens null null null [] 147 0 1 5
      to_stdout_log fatal_is_valid refl refl refl

log_fatal-Writes_example :
    Writes 1 to_stdout_log aborted (log_fatal clock 7 false null 147 null [] printed to_stdout_log)
    × Writes 1 to_stdout_log returned (log_err clock 7 false null 147 null [] printed to_stdout_log)
    × Writes 1 to_stdout_log returned
        (log_warn clock 7 false null 147 null [] printed to_stdout_log)
    × Writes 1 to_stdout_log returned
        (log_info clock 7 false null 147 null [] printed to_stdout_log)
    × Writes 1 to_stdout_log returned
        (log_debug clock 7 false null 147 null [] printed to_stdout_log)
log_fatal-Writes_example =
    log_fatal-Writes clock 7 false clock-IsStamp null 147 null [] printed 1 to_stdout_log refl
