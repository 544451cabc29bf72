-- ===== src/Client/Log.antt =====
-- log.go: which of the five loggers there are, by the level.
pub mod Levels
use libmqtt.Prelude.{ℕ, Bool, true, false, leb, if◌then◌else◌, Option, none, some}

-- `Silent` is 0, `Verbose` 1, up to `Error`, which is 5.
abbrev pub level_verbose : ℕ
level_verbose = 1

abbrev pub level_debug : ℕ
level_debug = 2

abbrev pub level_info : ℕ
level_info = 3

abbrev pub level_warning : ℕ
level_warning = 4

abbrev pub level_error : ℕ
level_error = 5

pub record Logger : Type 0 where
  pub verbose : Bool
  pub debug : Bool
  pub info : Bool
  pub warning : Bool
  pub error : Bool

-- The level is a byte. `none` is the nil logger.
unfoldable pub new_logger : ℕ → Option Logger
new_logger l =
    if leb l 0
    then none
    else some (record {
      verbose = leb l level_verbose;
      debug = leb l level_debug;
      info = leb l level_info;
      warning = leb l level_warning;
      error = leb l level_error;
    })

-- Whether the methods print.
abbrev pub prints : (Logger → Bool) → Option Logger → Bool
prints which none = false
prints which (some l) = which l

unfoldable pub v : Option Logger → Bool
v = prints (λ l. l.verbose)

unfoldable pub d : Option Logger → Bool
d = prints (λ l. l.debug)

unfoldable pub i : Option Logger → Bool
i = prints (λ l. l.info)

unfoldable pub w : Option Logger → Bool
w = prints (λ l. l.warning)

unfoldable pub e : Option Logger → Bool
e = prints (λ l. l.error)
