-- ===== src/Log/Logger.antt =====
-- The logger of src/server/log.h and src/server/log.c, its levels, and the texts of its lines.
use sample_sds_storage.Base.{
  ℕ, ◌+◌, Bool, true, false, List, [], ◌∷◌, ◌++◌, ◌==◌, leb, if◌then◌else◌, ℤ, pos, negsuc,
}
use sample_sds_storage.Slice.Strings.{CharPtr}

-- `struct logger`.
pub record Logger : Type 0 where
  pub name : CharPtr
  pub fd : ℤ
  pub nerror : ℕ

-- The static `logger`, what has been written to which descriptor, and the descriptors closed.
pub record Log : Type 0 where
  pub logger : Logger
  pub written : List (ℤ × List ℕ)
  pub closed : List ℤ

-- `LOG_INFO`
abbrev pub info_level : ℤ
info_level = pos 3

-- `STDOUT_FILENO` and `STDERR_FILENO`
abbrev pub stdout_fileno : ℤ
stdout_fileno = pos 1

abbrev pub stderr_fileno : ℤ
stderr_fileno = pos 2

-- `LOG_MAX_LEN`
abbrev pub max_len : ℕ
max_len = 4096

abbrev fatal : List ℕ
fatal = b'F' ∷ b'A' ∷ b'T' ∷ b'A' ∷ b'L' ∷ 0 ∷ []

abbrev err : List ℕ
err = b'E' ∷ b'R' ∷ b'R' ∷ 0 ∷ []

abbrev warn : List ℕ
warn = b'W' ∷ b'A' ∷ b'R' ∷ b'N' ∷ 0 ∷ []

abbrev info : List ℕ
info = b'I' ∷ b'N' ∷ b'F' ∷ b'O' ∷ 0 ∷ []

abbrev debug : List ℕ
debug = b'D' ∷ b'E' ∷ b'B' ∷ b'U' ∷ b'G' ∷ 0 ∷ []

-- `"\x1b[3<n>m"`
abbrev color : ℕ → List ℕ
color n = 27 ∷ b'[' ∷ b'3' ∷ n ∷ b'm' ∷ 0 ∷ []

abbrev pub level_names : List (List ℕ)
level_names = fatal ∷ err ∷ warn ∷ info ∷ debug ∷ []

abbrev pub level_colors : List (List ℕ)
level_colors = color b'5' ∷ color b'6' ∷ color b'2' ∷ color b'3' ∷ color b'1' ∷ []

abbrev pub milliseconds_format : List ℕ
milliseconds_format = b'%' ∷ b'0' ∷ b'3' ∷ b'l' ∷ b'd' ∷ 0 ∷ []

abbrev pub place_format : List ℕ
place_format =
    b']' ∷ b' ' ∷ b'[' ∷ b'%' ∷ b's' ∷ b'%' ∷ b's' ∷ 27 ∷ b'[' ∷ b'0' ∷ b'm' ∷ b' ' ∷ 27 ∷ b'['
    ∷ b'9' ∷ b'0' ∷ b'm' ∷ b']' ∷ b' ' ∷ b'%' ∷ b's' ∷ b':' ∷ b'%' ∷ b'd' ∷ b' ' ∷ 0 ∷ []

abbrev pub dots_format : List ℕ
dots_format =
    b'[' ∷ b'.' ∷ b'.' ∷ b'.' ∷ b'.' ∷ b'.' ∷ b'.' ∷ b'.' ∷ b'.' ∷ b'.' ∷ b'.' ∷ b'.' ∷ b'.' ∷ b'.'
    ∷ b'.' ∷ b'.' ∷ b'.' ∷ b'.' ∷ b'.' ∷ b'.' ∷ b'.' ∷ b'.' ∷ b'.' ∷ b'.' ∷ b']' ∷ b' ' ∷ 0 ∷ []

abbrev pub init_format : List ℕ
init_format =
    b'i' ∷ b'n' ∷ b'i' ∷ b't' ∷ b' ' ∷ b'l' ∷ b'o' ∷ b'g' ∷ b' ' ∷ b's' ∷ b'u' ∷ b'c' ∷ b'c' ∷ b'e'
    ∷ b's' ∷ b's' ∷ b',' ∷ b'o' ∷ b'u' ∷ b't' ∷ b'p' ∷ b'u' ∷ b't' ∷ b' ' ∷ b't' ∷ b'o' ∷ b' '
    ∷ b'%' ∷ b'd' ∷ 0 ∷ []

abbrev pub open_format : List ℕ
open_format =
    b'o' ∷ b'p' ∷ b'e' ∷ b'n' ∷ b'i' ∷ b'n' ∷ b'g' ∷ b' ' ∷ b'l' ∷ b'o' ∷ b'g' ∷ b' ' ∷ b'f' ∷ b'i'
    ∷ b'l' ∷ b'e' ∷ b' ' ∷ 39 ∷ b'%' ∷ b's' ∷ 39 ∷ b' ' ∷ b'f' ∷ b'a' ∷ b'i' ∷ b'l' ∷ b'e' ∷ b'd'
    ∷ b':' ∷ b' ' ∷ b'%' ∷ b's' ∷ 0 ∷ []

abbrev pub reopen_format : List ℕ
reopen_format =
    b'r' ∷ b'e' ∷ b'o' ∷ b'p' ∷ b'e' ∷ b'n' ∷ b'i' ∷ b'n' ∷ b'g' ∷ b' ' ∷ b'l' ∷ b'o' ∷ b'g' ∷ b' '
    ∷ b'f' ∷ b'i' ∷ b'l' ∷ b'e' ∷ b' ' ∷ 39 ∷ b'%' ∷ b's' ∷ 39 ∷ b' ' ∷ b'f' ∷ b'a' ∷ b'i' ∷ b'l'
    ∷ b'e' ∷ b'd' ∷ b',' ∷ b' ' ∷ b'i' ∷ b'g' ∷ b'n' ∷ b'o' ∷ b'r' ∷ b'e' ∷ b'd' ∷ b':' ∷ b' '
    ∷ b'%' ∷ b's' ∷ 0 ∷ []

-- `_log_valid_level`
unfoldable pub valid_level : ℤ → Bool
valid_level (pos level) = leb level 4
valid_level (negsuc n) = false

abbrev pub is_closed : ℤ → Bool
is_closed (pos n) = false
is_closed (negsuc n) = true

abbrev pub is_stderr : ℤ → Bool
is_stderr (pos n) = n == 2
is_stderr (negsuc n) = false

-- `n = _log_write(fd, buf, len); if (n < 0) l->nerror++;`, where `fails` says that `write` fails.
unfoldable pub write_line : (fails : Bool) → ℤ → List ℕ → Log → Log
write_line fails fd line log = record {
  logger = record {
    name = log.logger.name;
    fd = log.logger.fd;
    nerror = if fails then log.logger.nerror + 1 else log.logger.nerror;
  };
  written = log.written ++ (fd, line) ∷ [];
  closed = log.closed;
}
