-- ===== src/Log/Line.antt =====
-- The lines that `_log_safe` and `_log` of src/server/log.c write.
use mathlib.Core.List.{append_assoc}
use sample_sds_storage.Base.{
  ℕ, ◌-◌, ◌^◌, ◌≤◌, ◌<◌, ◌≡◌, refl, ◌∙◌, ap, ◌⊎◌, inl, inr, Bool, true, false, Bool-cases, Option,
  List, [], ◌∷◌, ◌++◌, arith, ℤ, pos, length, take, ok, ◌>>=◌,
}
use sample_sds_storage.Slice.Strings.{CharPtr, at, IsText}
use sample_sds_storage.Log.Format.{Arg, word, long_word, string}
use sample_sds_storage.Log.Items.{Item, encode, arguments, AllFit, Renders}
use sample_sds_storage.Log.Logger.{
  Log, max_len, level_names, level_colors, milliseconds_format, place_format, valid_level,
  is_closed, write_line,
}
use sample_sds_storage.Log.Write.{extend, returned, ending, of_level, dated, log_safe, log_line}
use sample_sds_storage.Log.Buffer.{
  end_line-ok, safe_vsnprintf-Cut, cut_lt, extend_safe-Grows, milliseconds_lem, IsStamp, dated_lt,
  extend_lt,
}
use sample_sds_storage.Log.Prefix.{
  bare_names, bare_colors, level_names-bare, level_colors-bare, place_items, place_items-AllFit,
  load-terminated, valid_lt, bare_names-AllTexts, bare_colors-AllTexts,
}

module _ (strftime : ℕ → List ℕ) (milliseconds : ℕ) (fails : Bool) (stamp : IsStamp strftime) where
  -- With a level of the logger's, an open descriptor and a `strftime` that keeps below its size, at
  -- a file name that is a text, a line below 2 ^ 32 and a format of literal characters and of known
  -- conversions with arguments that fit, `_log_safe` writes one line to that descriptor: a prefix
  -- that begins with the date, as much of the text of the format as 4095 bytes have room for behind
  -- it, and a newline. It aborts behind it where the level is fatal.
  pub log_safe-writes :
      (f after : List ℕ) (line n : ℕ) (items : List Item) (behind : List ℕ) (log : Log)
      → IsText f
      → line < 2 ^ 32
      → valid_level (pos n) ≡ true
      → is_closed log.logger.fd ≡ false
      → AllFit items
      → (prefix : List ℕ) × (rest : List ℕ) × (out : List ℕ) × (prefix ≡ dated strftime ++ rest)
        × (length prefix ≤ 4095)
        × Renders items out
        × (log_safe strftime milliseconds fails
              (at (f ++ 0 ∷ after))
              line
              (pos n)
              (at (encode items behind))
              (arguments items)
              log
            ≡ ok (
              write_line fails log.logger.fd
                  (prefix ++ take (4095 - length prefix) out ++ 10 ∷ [])
                  log,
              ending (pos n),
            ))
  unfolding log_safe
  log_safe-writes f after line n items behind log text_f line_lt valid open_fd fits =
      let (color, color_run, color_h) =
        load-terminated bare_colors n bare_colors-AllTexts (valid_lt n valid) in
      let (name, name_run, name_h) =
        load-terminated bare_names n bare_names-AllTexts (valid_lt n valid) in
      let (ms, ms_run, ms_lt) =
        milliseconds_lem (long_word milliseconds ∷ []) max_len (dated strftime)
          (dated_lt strftime stamp) in
      let timed = dated strftime ++ ms in
      let (place, place_run, place_lt) =
        extend_safe-Grows (place_items color name f after line) [] max_len timed
          (place_items-AllFit color name f after line color_h name_h text_f line_lt) ms_lt in
      let placed = timed ++ place in
      let (out, renders, run) =
        safe_vsnprintf-Cut items behind (max_len - length placed) fits (omega arith) in
      let shown = take (max_len - length placed - 1) out in
      let colored : of_level level_colors (pos n) ≡ ok (at (color ++ 0 ∷ [])) =
        ap (λ t. of_level t (pos n)) level_colors-bare ∙ color_run in
      let named : of_level level_names (pos n) ≡ ok (at (name ++ 0 ∷ [])) =
        ap (λ t. of_level t (pos n)) level_names-bare ∙ name_run in
      let same : max_len - length placed - 1 ≡ 4095 - length placed = omega arith in
      let ended = end_line-ok max_len (placed ++ shown) (cut_lt max_len placed out place_lt) in
      (
        placed,
        ms ++ place,
        out,
        append_assoc (dated strftime) ms place,
        omega arith,
        renders,
        rw (valid, open_fd, ms_run)
            (rw (◌>>=◌, colored)
              (rw (◌>>=◌, named)
                (rw (◌>>=◌, place_run)
                  (rw (◌>>=◌, run)
                    (rw (◌>>=◌, ended)
                      (ap
                        (λ k. ok (
                          write_line fails log.logger.fd (placed ++ take k out ++ 10 ∷ []) log,
                          ending (pos n),
                        ))
                        same)))))),
      )

  -- With a level of the logger's, an open descriptor and a `strftime` that keeps below its size,
  -- `_log` writes one line of at most 4096 bytes to that descriptor, which ends in a newline,
  -- whatever `vsnprintf` makes of the formats. It aborts behind it where the level is fatal.
  pub log_line-writes :
      (vsnprintf : CharPtr → List Arg → Option (List ℕ)) (file fmt : CharPtr) (args : List Arg)
      (line n : ℕ) (log : Log)
      → valid_level (pos n) ≡ true
      → is_closed log.logger.fd ≡ false
      → (bytes : List ℕ) × (length bytes ≤ 4095)
        × (log_line strftime milliseconds fails vsnprintf file line (pos n) fmt args log
            ≡ ok (write_line fails log.logger.fd (bytes ++ 10 ∷ []) log, ending (pos n)))
  unfolding log_line
  log_line-writes vsnprintf file fmt args line n log valid open_fd =
      let (color, color_run, color_h) =
        load-terminated bare_colors n bare_colors-AllTexts (valid_lt n valid) in
      let (name, name_run, name_h) =
        load-terminated bare_names n bare_names-AllTexts (valid_lt n valid) in
      let colored : of_level level_colors (pos n) ≡ ok (at (color ++ 0 ∷ [])) =
        ap (λ t. of_level t (pos n)) level_colors-bare ∙ color_run in
      let named : of_level level_names (pos n) ≡ ok (at (name ++ 0 ∷ [])) =
        ap (λ t. of_level t (pos n)) level_names-bare ∙ name_run in
      let place =
        string (at (color ++ 0 ∷ []))
        ∷ string (at (name ++ 0 ∷ []))
        ∷ string file
        ∷ word line
        ∷ [] in
      let timed =
        extend max_len (dated strftime)
          (vsnprintf (at milliseconds_format) (long_word milliseconds ∷ [])) in
      let placed = extend max_len timed (vsnprintf (at place_format) place) in
      let bytes = extend max_len placed (vsnprintf fmt args) in
      let timed_lt : length timed < max_len =
        extend_lt max_len (dated strftime) _ (dated_lt strftime stamp) in
      let bytes_lt : length bytes < max_len =
        extend_lt max_len placed _ (extend_lt max_len timed _ timed_lt) in
      (
        bytes,
        omega arith,
        rw (valid, open_fd, colored)
            (rw (◌>>=◌, named) (rw (◌>>=◌, end_line-ok max_len bytes bytes_lt) refl)),
      )

module _ (strftime : ℕ → List ℕ) (milliseconds : ℕ) (fails : Bool) where
  -- At another level, or with a closed descriptor, neither `_log_safe` nor `_log` does anything.
  pub log_safe-silent :
      (vsnprintf : CharPtr → List Arg → Option (List ℕ)) (file fmt : CharPtr) (args : List Arg)
      (line : ℕ) (level : ℤ) (log : Log)
      → (valid_level level ≡ false) ⊎ (is_closed log.logger.fd ≡ true)
      → (log_safe strftime milliseconds fails file line level fmt args log ≡ ok (log, returned))
        × (log_line strftime milliseconds fails vsnprintf file line level fmt args log
            ≡ ok (log, returned))
  unfolding log_safe log_line
  log_safe-silent vsnprintf file fmt args line level log (inl unknown) =
      (rw unknown refl, rw unknown refl)
  log_safe-silent vsnprintf file fmt args line level log (inr shut) =
      elim (Bool-cases (valid_level level)) [
        | inl valid ↦ (rw (valid, shut) refl, rw (valid, shut) refl)
        | inr unknown ↦ (rw unknown refl, rw unknown refl)
      ]
