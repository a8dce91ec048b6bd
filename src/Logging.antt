-- ===== src/Logging.antt =====
-- pkg/limlog/logger.go: the four loggers, the level, and where a message goes. zap and lumberjack are
-- arguments; the fields and the encoding of a message, and its time, are left out. A text is its code
-- points.
pub mod Files
mod Examples
use limnet.Base.{ℕ, Bool, true, false, List, [], ◌∷◌, ◌++◌, if◌then◌else◌}

pub data Level : Type 0 where
  debug_level : Level
  info_level : Level
  warn_level : Level
  error_level : Level

-- os.Stdout, info.log, error.log and warn.log
pub data Sink : Type 0 where
  stdout : Sink
  info_log : Sink
  error_log : Sink
  warn_log : Sink

-- The least level of a core: that of `atom`, or one that does not change.
pub data Enabler : Type 0 where
  atom_level : Enabler
  fixed : Level → Enabler

-- what zapcore.NewCore is given, but for the encoder
pub record Core : Type 0 where
  pub sinks : List Sink
  pub enabler : Enabler

-- The variables of the package.
pub record Loggers : Type 0 where
  pub test_mode : Bool
  pub atom : Level
  pub logger : Core
  pub error_logger : Core
  pub warn_logger : Core
  pub test_logger : Core

-- `init`, and the variables' values before it; `new_level` is the level of zap.NewAtomicLevel.
unfoldable pub init : Level → Loggers
init new_level = record {
  test_mode = false;
  atom = new_level;
  test_logger = record { sinks = stdout ∷ []; enabler = atom_level };
  logger = record { sinks = stdout ∷ info_log ∷ []; enabler = atom_level };
  error_logger = record { sinks = stdout ∷ error_log ∷ []; enabler = fixed error_level };
  warn_logger = record { sinks = stdout ∷ warn_log ∷ []; enabler = fixed warn_level };
}

unfoldable pub set_level : Level → Loggers → Loggers
set_level l g = record g { atom = l }

abbrev pub least : Loggers → Enabler → Level
least g atom_level = g.atom
least g (fixed l) = l

-- A message of a level, given to the logger of a core whose least level is the first one.
pub record Zap : Type 1 where
  pub World : Type 0
  pub log : List Sink → Level → Level → List ℕ → World → World

module _ (zap : Zap) where
  open zap use {World, log}

  abbrev pub log_to : Loggers → Core → Level → List ℕ → World → World
  log_to g core l msg w = log core.sinks (least g core.enabler) l msg w

  -- `Info`, `Debug`, `Error` and `Warn` of the package
  unfoldable pub info : Loggers → List ℕ → World → World
  info g msg w =
      if g.test_mode
      then log_to g g.test_logger info_level msg w
      else log_to g g.logger info_level msg w

  unfoldable pub debug : Loggers → List ℕ → World → World
  debug g msg w =
      if g.test_mode
      then log_to g g.test_logger debug_level msg w
      else log_to g g.logger debug_level msg w

  unfoldable pub error : Loggers → List ℕ → World → World
  error g msg w =
      if g.test_mode
      then log_to g g.test_logger error_level msg w
      else log_to g g.error_logger error_level msg w

  unfoldable pub warn : Loggers → List ℕ → World → World
  warn g msg w =
      if g.test_mode
      then log_to g g.test_logger warn_level msg w
      else log_to g g.warn_logger warn_level msg w

  -- 【prefix】msg
  abbrev pub prefixed : List ℕ → List ℕ → List ℕ
  prefixed prefix msg = 12304 ∷ (prefix ++ (12305 ∷ msg))

  -- the methods of `LIMLog`
  unfoldable pub lim_info : List ℕ → Loggers → List ℕ → World → World
  lim_info prefix g msg w = info g (prefixed prefix msg) w

  unfoldable pub lim_debug : List ℕ → Loggers → List ℕ → World → World
  lim_debug prefix g msg w = debug g (prefixed prefix msg) w

  unfoldable pub lim_error : List ℕ → Loggers → List ℕ → World → World
  lim_error prefix g msg w = error g (prefixed prefix msg) w

  unfoldable pub lim_warn : List ℕ → Loggers → List ℕ → World → World
  lim_warn prefix g msg w = warn g (prefixed prefix msg) w
