-- ===== src/Logging.antt =====
-- crafty_server_watcher/logger.py, and what `main` of __main__.py sets up before it: which messages go where.
use crafty_server_watcher.Common.{
  ℕ, ◌≡◌, refl, String, Bool, true, Option, none, some, List, [], ◌∷◌, ◌++◌, if◌then◌else◌, leb, ℤ,
  str_eq, arith,
}
use crafty_server_watcher.Config.{LoggingConfig}

-- Where a handler writes: to standard error, or to a file that is rotated at a size, with so many old files.
pub data Sink : Type 0 where
  stderr : Sink
  rotating_file : String → ℤ → ℤ → Sink

pub record Handler : Type 0 where
  pub sink : Sink
  pub level : ℕ
  pub format : String
  pub date_format : Option String

-- The root logger. The program's loggers have no level and no handler of their own.
pub record Root : Type 0 where
  pub level : ℕ
  pub handlers : List Handler

-- As the process begins: `WARNING`, and no handler.
abbrev pub new_root : Root
new_root = record { level = 30; handlers = [] }

-- `getattr(logging, name, logging.INFO)` for a name in capitals: the module has the levels, and two names that
-- `setLevel` refuses.
unfoldable pub attribute : String → Option ℕ
attribute name =
    if str_eq name "CRITICAL"
    then some 50
    else if str_eq name "FATAL"
    then some 50
    else if str_eq name "ERROR"
    then some 40
    else if str_eq name "WARNING"
    then some 30
    else if str_eq name "WARN"
    then some 30
    else if str_eq name "DEBUG"
    then some 10
    else if str_eq name "NOTSET"
    then some 0
    else if str_eq name "BASIC_FORMAT"
    then none
    else if str_eq name "_STYLES"
    then none
    else some 20

abbrev pub log_format : String
log_format = "%(asctime)s %(levelname)-5s [%(name)s] %(message)s"

abbrev pub log_date_format : String
log_date_format = "%Y-%m-%d %H:%M:%S"

add_handlers : LoggingConfig → ℕ → Root → Root
add_handlers cfg level root = record {
  level = level;
  handlers =
      root.handlers
      ++ record {
        sink = rotating_file cfg.file cfg.max_bytes cfg.backup_count;
        level = level;
        format = log_format;
        date_format = some log_date_format;
      }
        ∷ record {
          sink = stderr;
          level = level;
          format = log_format;
          date_format = some log_date_format;
        }
        ∷ [];
}

at_level : Bool → LoggingConfig → Option ℕ → Root → Option Root
unfolding add_handlers
at_level opened cfg none root = none
at_level opened cfg (some level) root = if opened then some (add_handlers cfg level root) else none

-- `setup_logging`, by whether the directory and the file could be made; nothing when it raises. `upper` is
-- `str.upper`.
unfoldable pub setup_logging : (String → String) → Bool → LoggingConfig → Root → Option Root
unfolding at_level
setup_logging upper opened cfg root = at_level opened cfg (attribute (upper cfg.level)) root

-- `logging.basicConfig` of `main`: it does nothing to a root logger that has a handler.
unfoldable pub basic_config : Root → Root
basic_config root = elim root.handlers [
  | [] ↦ record {
    level = 20;
    handlers =
        record {
          sink = stderr;
          level = 0;
          format = "%(asctime)s %(levelname)-5s %(message)s";
          date_format = none;
        }
        ∷ [];
  }
  | _ ∷ _ ↦ root
]

passed : ℕ → List Handler → List Sink
passed n [] = []
passed n (h ∷ rest) =
    let others = passed n rest in if leb h.level n then h.sink ∷ others else others

-- Where a message of some level goes, in the order of the handlers.
unfoldable pub emitted : ℕ → Root → List Sink
unfolding passed
emitted n root = if leb root.level n then passed n root.handlers else []

-- After `main` has set up the logging for its start, and `setup_logging` has returned, a message of the configured
-- level or above goes to the file once and to standard error twice; one below it goes nowhere.
pub every_message_twice :
    (upper : String → String) (cfg : LoggingConfig) (level n : ℕ)
    → attribute (upper cfg.level) ≡ some level
    → (root : Root) × (setup_logging upper true cfg (basic_config new_root) ≡ some root)
      × (emitted n root ≡ (
          if leb level n
          then stderr ∷ rotating_file cfg.file cfg.max_bytes cfg.backup_count ∷ stderr ∷ []
          else []))
unfolding setup_logging at_level add_handlers basic_config emitted passed
every_message_twice upper cfg level n e =
    (add_handlers cfg level (basic_config new_root), rw e refl, ground arith)
