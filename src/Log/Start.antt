-- ===== src/Log/Start.antt =====
-- What `log_init` of src/server/log.c sets up.
use native.Mathlib.Nat.{mod-lt}
use sample_sds_storage.Base.{
  ℕ, suc, ◌-◌, ◌%◌, ◌^◌, ◌<◌, ◌≡◌, refl, ap, ◌⊎◌, inl, inr, Bool, true, false, Option, List, [],
  ◌∷◌, ◌++◌, arith, ◌==◌, ==_ne, ℤ, pos, negsuc, success, failure, to_size, length, take, Run, ok,
}
use sample_sds_storage.Slice.Strings.{CharPtr, null, at, IsText, c_string, until_nul-append}
use sample_sds_storage.Log.Format.{Arg, string}
use sample_sds_storage.Log.Items.{Item, literal, number, plain_width, d, AllFit}
use sample_sds_storage.Log.Logger.{
  Log, stdout_fileno, stderr_fileno, open_format, is_closed, write_line, valid_level,
}
use sample_sds_storage.Log.Write.{log_stderr, extend}
use sample_sds_storage.Log.Buffer.{IsStamp, end_line-ok, extend_lt}
use sample_sds_storage.Log.Line.{log_safe-writes}
use sample_sds_storage.Log.Setup.{set_name, set_fd, unknown, output_of, started, start_at, log_init}

abbrev init_items : ℕ → List Item
init_items w =
    literal b'i'
    ∷ literal b'n'
    ∷ literal b'i'
    ∷ literal b't'
    ∷ literal b' '
    ∷ literal b'l'
    ∷ literal b'o'
    ∷ literal b'g'
    ∷ literal b' '
    ∷ literal b's'
    ∷ literal b'u'
    ∷ literal b'c'
    ∷ literal b'c'
    ∷ literal b'e'
    ∷ literal b's'
    ∷ literal b's'
    ∷ literal b','
    ∷ literal b'o'
    ∷ literal b'u'
    ∷ literal b't'
    ∷ literal b'p'
    ∷ literal b'u'
    ∷ literal b't'
    ∷ literal b' '
    ∷ literal b't'
    ∷ literal b'o'
    ∷ literal b' '
    ∷ number plain_width d w
    ∷ []

init_items-AllFit : (w : ℕ) → w < 2 ^ 32 → AllFit (init_items w)
init_items-AllFit w small = omega arith

c_string_text : (s behind : List ℕ) → IsText s → c_string (at (s ++ 0 ∷ behind)) ≡ ok s
unfolding c_string
c_string_text s behind h = until_nul-append s behind h

far_output : (n : ℕ) → 2 < n → output_of (pos n) ≡ unknown
unfolding output_of
far_output n large =
    rw (==_ne n 0 (omega arith), ==_ne n 1 (omega arith), ==_ne n 2 (omega arith)) refl

log_stderr_run :
    (vsnprintf : CharPtr → List Arg → Option (List ℕ)) (fails : Bool) (fmt : CharPtr)
    (args : List Arg) (log : Log)
    → (bytes : List ℕ) × (log_stderr vsnprintf fails fmt args log
        ≡ ok (write_line fails stderr_fileno (bytes ++ 10 ∷ []) log))
unfolding log_stderr
log_stderr_run vsnprintf fails fmt args log =
    let bytes = extend 16384 [] (vsnprintf fmt args) in
    (
      bytes,
      rw (end_line-ok 16384 bytes (extend_lt 16384 [] (vsnprintf fmt args) (omega arith))) refl,
    )

-- The parameters of `log_init`, where `strftime` keeps its promise and the name of the file is a
-- text.
module _ (open_file : CharPtr → ℤ) (error : CharPtr) (fails : Bool) (strftime : ℕ → List ℕ)
    (milliseconds : ℕ) (vsnprintf : CharPtr → List Arg → Option (List ℕ)) (here after : List ℕ)
    (line : ℕ) (stamp : IsStamp strftime) (text_here : IsText here) (line_lt : line < 2 ^ 32) where
  abbrev pub init : ℤ → CharPtr → Log → Run (ℤ × Log)
  init =
      log_init open_file error fails strftime milliseconds vsnprintf (at (here ++ 0 ∷ after)) line

  -- A successful start: the descriptor is `fd`, and one line has been written to it.
  abbrev pub StartsAt : ℤ → Log → Run (ℤ × Log) → Type 0
  StartsAt fd log result =
      (bytes : List ℕ) × (result
        ≡ ok (success, write_line fails fd (bytes ++ 10 ∷ []) (set_fd fd log)))

  started-StartsAt :
      (m : ℕ) (log : Log)
      → StartsAt (pos m) log (
          started open_file error fails strftime milliseconds vsnprintf
            (at (here ++ 0 ∷ after))
            line
            (set_fd (pos m) log))
  unfolding started valid_level
  started-StartsAt m log =
      let w = to_size (pos m) % 2 ^ 32 in
      let small : w < 2 ^ 32 = mod-lt (to_size (pos m)) (omega arith) in
      let (prefix, _, out, _, _, _, run) =
        log_safe-writes strftime milliseconds fails stamp here after line 3 (init_items w) []
          (set_fd (pos m) log) text_here line_lt refl refl (init_items-AllFit w small) in
      (prefix ++ take (4095 - length prefix) out, rw run refl)

  -- What an output type and a file name choose: standard output where there is no name.
  pub data Chooses : ℤ → CharPtr → ℤ → Type 0 where
    stdout : (filename : CharPtr) → Chooses (pos 0) filename stdout_fileno
    stderr : (filename : CharPtr) → Chooses (pos 1) filename stderr_fileno
    no_file : Chooses (pos 2) null stdout_fileno
    empty_file : (behind : List ℕ) → Chooses (pos 2) (at (0 ∷ behind)) stdout_fileno
    file :
        (c : ℕ) (name behind : List ℕ) (m : ℕ)
        → IsText (c ∷ name)
        → open_file (at ((c ∷ name) ++ 0 ∷ behind)) ≡ pos m
        → Chooses (pos 2) (at ((c ∷ name) ++ 0 ∷ behind)) (pos m)

  -- Where the output can be had, that is the standard output, the standard error, or a file whose
  -- name is NULL or empty (the standard output again) or can be opened, and with a `strftime` that
  -- keeps below its size, `log_init` succeeds, sets the descriptor that it chooses, and writes one
  -- line to it.
  pub log_init-StartsAt :
      (output_type : ℤ) (filename : CharPtr) (fd : ℤ) (log : Log)
      → Chooses output_type filename fd
      → StartsAt fd (set_name filename log) (init output_type filename log)
  unfolding log_init output_of
  log_init-StartsAt output_type filename fd log (stdout _) =
      started-StartsAt 1 (set_name filename log)
  log_init-StartsAt output_type filename fd log (stderr _) =
      started-StartsAt 2 (set_name filename log)
  log_init-StartsAt output_type filename fd log no_file = started-StartsAt 1 (set_name null log)
  log_init-StartsAt output_type filename fd log (empty_file behind) =
      let nothing : c_string (at (0 ∷ behind)) ≡ ok [] = c_string_text [] behind tt in
      rw nothing (started-StartsAt 1 (set_name (at (0 ∷ behind)) log))
  log_init-StartsAt output_type filename fd log (file c name behind m h opened) =
      let path = at ((c ∷ name) ++ 0 ∷ behind) in
      let named : (suc (length name) == 0) ≡ false = ==_ne (suc (length name)) 0 (omega arith) in
      rw (c_string_text (c ∷ name) behind h, named, opened) (started-StartsAt m (set_name path log))

  -- An output that is unknown, or a file that cannot be opened.
  pub data Refuses : ℤ → CharPtr → Type 0 where
    negative : (n : ℕ) (filename : CharPtr) → Refuses (negsuc n) filename
    too_large : (n : ℕ) (filename : CharPtr) → 2 < n → Refuses (pos n) filename
    unopened :
        (c : ℕ) (name behind : List ℕ) (k : ℕ)
        → IsText (c ∷ name)
        → open_file (at ((c ∷ name) ++ 0 ∷ behind)) ≡ negsuc k
        → Refuses (pos 2) (at ((c ∷ name) ++ 0 ∷ behind))

  -- The logger has the name and no new descriptor but a closed one, and nothing is written but one
  -- line on the standard error.
  abbrev pub Refused : CharPtr → Log → Log → Type 0
  Refused filename log out =
      (out.logger.name ≡ filename)
      × ((out.logger.fd ≡ log.logger.fd) × (out.written ≡ log.written)
          ⊎ (is_closed out.logger.fd ≡ true)
            × (bytes : List ℕ) × (out.written
                ≡ log.written ++ (stderr_fileno, bytes ++ 10 ∷ []) ∷ []))

  -- `log_init` fails at an unknown output, and where the file cannot be opened: the logger keeps
  -- its descriptor, or has a closed one and the failure is reported on the standard error.
  pub log_init-Refused :
      (output_type : ℤ) (filename : CharPtr) (log : Log)
      → Refuses output_type filename
      → (out : Log) × (init output_type filename log ≡ ok (failure, out)) × Refused filename log out
  unfolding log_init output_of write_line
  log_init-Refused output_type filename log (negative n _) =
      (set_name filename log, refl, (refl, inl (refl, refl)))
  log_init-Refused output_type filename log (too_large n _ large) = (
    set_name filename log,
    ap
        (λ o.
          start_at open_file error fails strftime milliseconds vsnprintf (at (here ++ 0 ∷ after))
            line o filename (set_name filename log))
        (far_output n large),
    (refl, inl (refl, refl)),
  )
  log_init-Refused output_type filename log (unopened c name behind k h closed) =
      let path = at ((c ∷ name) ++ 0 ∷ behind) in
      let named : (suc (length name) == 0) ≡ false = ==_ne (suc (length name)) 0 (omega arith) in
      let left = set_fd (negsuc k) (set_name path log) in
      let (bytes, told) =
        log_stderr_run vsnprintf fails (at open_format) (string path ∷ string error ∷ []) left in
      (
        write_line fails stderr_fileno (bytes ++ 10 ∷ []) left,
        rw (c_string_text (c ∷ name) behind h, named, closed, told) refl,
        (refl, inr (refl, bytes, refl)),
      )
