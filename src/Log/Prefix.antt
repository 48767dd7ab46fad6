-- ===== src/Log/Prefix.antt =====
-- The prefix of a line of src/server/log.c, as the items of its format.
use sample_sds_storage.Base.{
  ℕ, zero, suc, ◌^◌, ◌<◌, ◌≡◌, refl, true, List, [], ◌∷◌, ◌++◌, map, arith, pos, length, ok, load,
}
use sample_sds_storage.Slice.Strings.{at, IsText}
use sample_sds_storage.Log.Items.{Item, literal, number, plain_width, d, text, encode, AllFit}
use sample_sds_storage.Log.Logger.{level_names, level_colors, place_format, valid_level}
use sample_sds_storage.Log.Write.{of_level}

pub terminated : List ℕ → List ℕ
terminated s = s ++ 0 ∷ []

abbrev pub AllTexts : List (List ℕ) → Type 0
AllTexts [] = Unit
AllTexts (s ∷ texts) = IsText s × AllTexts texts

abbrev pub bare_names : List (List ℕ)
bare_names =
    (b'F' ∷ b'A' ∷ b'T' ∷ b'A' ∷ b'L' ∷ [])
    ∷ (b'E' ∷ b'R' ∷ b'R' ∷ [])
    ∷ (b'W' ∷ b'A' ∷ b'R' ∷ b'N' ∷ [])
    ∷ (b'I' ∷ b'N' ∷ b'F' ∷ b'O' ∷ [])
    ∷ (b'D' ∷ b'E' ∷ b'B' ∷ b'U' ∷ b'G' ∷ [])
    ∷ []

abbrev pub bare_colors : List (List ℕ)
bare_colors =
    (27 ∷ b'[' ∷ b'3' ∷ b'5' ∷ b'm' ∷ [])
    ∷ (27 ∷ b'[' ∷ b'3' ∷ b'6' ∷ b'm' ∷ [])
    ∷ (27 ∷ b'[' ∷ b'3' ∷ b'2' ∷ b'm' ∷ [])
    ∷ (27 ∷ b'[' ∷ b'3' ∷ b'3' ∷ b'm' ∷ [])
    ∷ (27 ∷ b'[' ∷ b'3' ∷ b'1' ∷ b'm' ∷ [])
    ∷ []

pub level_names-bare : level_names ≡ map terminated bare_names
unfolding terminated
level_names-bare = refl

pub level_colors-bare : level_colors ≡ map terminated bare_colors
unfolding terminated
level_colors-bare = refl

abbrev pub place_items : (color name file after : List ℕ) (line : ℕ) → List Item
place_items color name file after line =
    literal b']'
    ∷ literal b' '
    ∷ literal b'['
    ∷ text color []
    ∷ text name []
    ∷ literal 27
    ∷ literal b'['
    ∷ literal b'0'
    ∷ literal b'm'
    ∷ literal b' '
    ∷ literal 27
    ∷ literal b'['
    ∷ literal b'9'
    ∷ literal b'0'
    ∷ literal b'm'
    ∷ literal b']'
    ∷ literal b' '
    ∷ text file after
    ∷ literal b':'
    ∷ number plain_width d line
    ∷ literal b' '
    ∷ []

pub place_items-AllFit :
    (color name file after : List ℕ) (line : ℕ)
    → IsText color
    → IsText name
    → IsText file
    → line < 2 ^ 32
    → AllFit (place_items color name file after line)
place_items-AllFit color name file after line color_h name_h file_h line_lt = (
  (omega arith, omega arith),
  (
    (omega arith, omega arith),
    (
      (omega arith, omega arith),
      (
        color_h,
        (
          name_h,
          (
            (omega arith, omega arith),
            (
              (omega arith, omega arith),
              (
                (omega arith, omega arith),
                (
                  (omega arith, omega arith),
                  (
                    (omega arith, omega arith),
                    (
                      (omega arith, omega arith),
                      (
                        (omega arith, omega arith),
                        (
                          (omega arith, omega arith),
                          (
                            (omega arith, omega arith),
                            (
                              (omega arith, omega arith),
                              (
                                (omega arith, omega arith),
                                (
                                  (omega arith, omega arith),
                                  (
                                    file_h,
                                    (
                                      (omega arith, omega arith),
                                      ((line_lt, omega arith), ((omega arith, omega arith), tt)),
                                    ),
                                  ),
                                ),
                              ),
                            ),
                          ),
                        ),
                      ),
                    ),
                  ),
                ),
              ),
            ),
          ),
        ),
      ),
    ),
  ),
)

pub place_format-encode :
    (color name file after : List ℕ) (line : ℕ)
    → encode (place_items color name file after line) [] ≡ place_format
place_format-encode color name file after line = refl

-- A level of the table has a text.
pub load-terminated :
    (texts : List (List ℕ)) (n : ℕ)
    → AllTexts texts
    → n < length texts
    → (s : List ℕ) × (of_level (map terminated texts) (pos n) ≡ ok (at (s ++ 0 ∷ []))) × IsText s
unfolding terminated load of_level
load-terminated [] n h below = absurd (omega arith)
load-terminated (s ∷ texts) zero (h, rest) below = (s, refl, h)
load-terminated (s ∷ texts) (suc n) (h, rest) below = load-terminated texts n rest (omega arith)

pub valid_lt : (n : ℕ) → valid_level (pos n) ≡ true → n < 5
unfolding valid_level
valid_lt n h = ground arith

pub bare_names-AllTexts : AllTexts bare_names
bare_names-AllTexts = omega arith

pub bare_colors-AllTexts : AllTexts bare_colors
bare_colors-AllTexts = omega arith
