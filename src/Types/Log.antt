-- ===== src/Types/Log.antt =====
-- `rust/src/core/common/log/mod.rs` (the levels), `log/tee_file.rs` and
-- `host/configuration/plugin/log.rs` (the configurations).
use dqcsim_rs.Common.{ℕ, Bool, ltb, String, List, Option, none, some}

pub data LoglevelFilter : Type 0 where
  off fatal error warn note info debug trace : LoglevelFilter

pub data Loglevel : Type 0 where
  fatal error warn note info debug trace : Loglevel

-- The discriminants, by which the derived order compares.
unfoldable pub filter_rank : LoglevelFilter → ℕ
filter_rank LoglevelFilter.off = 0
filter_rank LoglevelFilter.fatal = 1
filter_rank LoglevelFilter.error = 2
filter_rank LoglevelFilter.warn = 3
filter_rank LoglevelFilter.note = 4
filter_rank LoglevelFilter.info = 5
filter_rank LoglevelFilter.debug = 6
filter_rank LoglevelFilter.trace = 7

-- `impl From<Loglevel> for LoglevelFilter`.
unfoldable pub from_level : Loglevel → LoglevelFilter
from_level Loglevel.fatal = LoglevelFilter.fatal
from_level Loglevel.error = LoglevelFilter.error
from_level Loglevel.warn = LoglevelFilter.warn
from_level Loglevel.note = LoglevelFilter.note
from_level Loglevel.info = LoglevelFilter.info
from_level Loglevel.debug = LoglevelFilter.debug
from_level Loglevel.trace = LoglevelFilter.trace

-- `Loglevel::try_from`.
unfoldable pub try_from : LoglevelFilter → Option Loglevel
try_from LoglevelFilter.off = none
try_from LoglevelFilter.fatal = some Loglevel.fatal
try_from LoglevelFilter.error = some Loglevel.error
try_from LoglevelFilter.warn = some Loglevel.warn
try_from LoglevelFilter.note = some Loglevel.note
try_from LoglevelFilter.info = some Loglevel.info
try_from LoglevelFilter.debug = some Loglevel.debug
try_from LoglevelFilter.trace = some Loglevel.trace

-- `a > b` on filters.
unfoldable pub more_verbose : LoglevelFilter → LoglevelFilter → Bool
unfolding filter_rank
more_verbose a b = ltb (filter_rank b) (filter_rank a)

pub record TeeFileConfiguration : Type 0 where
  pub filter : LoglevelFilter
  pub file : String

pub record PluginLogConfiguration : Type 0 where
  pub name : String
  pub verbosity : LoglevelFilter
  pub tee_files : List TeeFileConfiguration
