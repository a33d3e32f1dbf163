-- ===== src/Logging.antt =====
-- bootstrap/logging.py: the sanitising of logged data, the formatter's payload, the levels, and the set-up of the logger.
pub mod Secrets
use Prim.Native.String.{◌++◌ as append}
use bitheim.Prelude.{
  ℕ, String, Bool, true, false, Option, none, some, List, [], ◌∷◌, not, ◌&&◌, ◌||◌, ◌==◌, string_eq,
  if◌then◌else◌,
}
use bitheim.Prelude.Int.{ℤ, pos}
use bitheim.Prelude.Text.{strip, is_empty, is_prefix, has_text}
use bitheim.Prelude.Lines.{lower, upper}
use bitheim.Value.{
  Value, null, bool, int, float, decimal, str, arr, obj, Items, nil, cons, Fields, end, field,
}

-- `SENSITIVE_KEY_SUBSTRINGS`
abbrev pub sensitive_key_substrings : List String
sensitive_key_substrings =
    "token" ∷ "password" ∷ "secret" ∷ "key" ∷ "cookie" ∷ "seed" ∷ "auth" ∷ "credential" ∷ "privkey"
    ∷ "private_key" ∷ []

abbrev any_in : List String → String → Bool
any_in [] s = false
any_in (t ∷ ts) s = has_text t s || any_in ts s

-- `any(substring in key_lower for substring in SENSITIVE_KEY_SUBSTRINGS)`
unfoldable pub is_sensitive : String → Bool
is_sensitive key_str = any_in sensitive_key_substrings (lower key_str)

-- `_sanitize_data`, for data whose keys are texts; `show` is Python's `str`
module _ (show : Value → String) where
  unfoldable mutual
    pub sanitize_data : Value → Value
    sanitize_data (obj m) = obj (sanitize_fields m)
    sanitize_data (arr vs) = arr (sanitize_items vs)
    sanitize_data (decimal x) = str (show (decimal x))
    sanitize_data v = v

    pub sanitize_items : Items → Items
    sanitize_items nil = nil
    sanitize_items (cons v vs) = cons (sanitize_data v) (sanitize_items vs)

    pub sanitize_fields : Fields → Fields
    sanitize_fields end = end
    sanitize_fields (field k v m) =
        let plain = sanitize_data v in
        field k (if is_sensitive k then str "[REDACTED]" else plain) (sanitize_fields m)

-- a `LogRecord`: its time as the formatter writes it, its level and logger, the attributes that may be missing, null
-- then, and the class of its exception
pub record LogRecord : Type 0 where
  pub timestamp : String
  pub levelname : String
  pub name : String
  pub event : Value
  pub correlation_id : Value
  pub node_id : Value
  pub experiment_id : Value
  pub context : Value
  pub exc_type : Option String

-- `isinstance(v, str) and v.strip()`, stripped
abbrev filled : Value → Option String
filled (str s) = if is_empty (strip s) then none else some (strip s)
filled _ = none

abbrev event_text : Option String → String
event_text none = "unspecified_event"
event_text (some s) = s

-- one optional member in front of the others
abbrev with_text : String → Option String → Fields → Fields
with_text k none m = m
with_text k (some s) m = field k (str s) m

abbrev with_exception : Option String → Fields
with_exception none = end
with_exception (some name) = field "exception" (obj (field "type" (str name) end)) end

abbrev with_data : (Value → String) → Value → Fields → Fields
with_data show (obj (field k v n)) m = field "data" (obj (sanitize_fields show (field k v n))) m
with_data show _ m = m

-- the payload of `StructuredFormatter.format`
unfoldable pub payload : (Value → String) → LogRecord → Fields
payload show r = field "timestamp" (str r.timestamp) (
    field "level" (str r.levelname) (
      field "module" (str r.name) (
        field "event" (str (event_text (filled r.event))) (
          with_text "correlation_id" (filled r.correlation_id) (
            with_text "node_id" (filled r.node_id) (
              with_text "experiment_id" (filled r.experiment_id)
                (with_data show r.context (with_exception r.exc_type))))))))

-- `logging.getLevelName` of the accepted names
unfoldable pub level_number : String → Option ℕ
level_number name =
    if name == "DEBUG"
    then some 10
    else if name == "INFO"
    then some 20
    else if name == "WARNING" || name == "WARN"
    then some 30
    else if name == "ERROR"
    then some 40
    else if name == "CRITICAL"
    then some 50
    else none

abbrev or_default : Option ℕ → ℤ → ℤ
or_default none d = d
or_default (some n) d = pos n

-- `parse_log_level`: a bool is an int
unfoldable pub parse_log_level : Value → ℤ → ℤ
parse_log_level (int n) default = n
parse_log_level (bool b) default = pos (if b then 1 else 0)
parse_log_level (str s) default = or_default (level_number (upper (strip s))) default
parse_log_level _ default = default

pub record Handler : Type 0 where
  pub is_stream : Bool
  pub is_structured : Bool
  pub level : ℤ

pub record Logger : Type 0 where
  pub level : ℤ
  pub propagate : Bool
  pub handlers : List Handler

-- the first handler of the set-up, with its level set; none if there is no such handler
unfoldable pub reuse : ℤ → List Handler → Option (List Handler)
reuse level [] = none
reuse level (h ∷ hs) =
    let rest = reuse level hs in
    if h.is_stream && h.is_structured
    then some (record h { level = level } ∷ hs)
    else elim rest [ none ↦ none | some ks ↦ some (h ∷ ks) ]

-- the handlers without the stream handlers, and then the new one
unfoldable pub replace : ℤ → List Handler → List Handler
replace level [] = record { is_stream = true; is_structured = true; level = level } ∷ []
replace level (h ∷ hs) = let rest = replace level hs in if h.is_stream then rest else h ∷ rest

abbrev reused_or : Bool → ℤ → List Handler → Option (List Handler) → List Handler
reused_or fresh level hs none = replace level hs
reused_or fresh level hs (some ks) = if fresh then replace level hs else ks

abbrev level_source : Value → Value → Value
level_source null env_level = env_level
level_source level env_level = level

-- `setup_logging`: `fresh` says that a stream is given or that the set-up is forced
unfoldable pub setup_logging : Value → Value → Bool → Logger → Logger
setup_logging level env_level fresh logger =
    let resolved_level = parse_log_level (level_source level env_level) (pos 30) in
    record {
      level = resolved_level;
      propagate = false;
      handlers =
          reused_or fresh resolved_level logger.handlers (reuse resolved_level logger.handlers);
    }

-- `get_logger`, by the name of the logger
unfoldable pub get_logger : String → String
get_logger name =
    if name == "bitheim" || is_prefix "bitheim." name then name else append "bitheim." name
