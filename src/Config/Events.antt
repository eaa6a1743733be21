-- ===== src/Config/Events.antt =====
-- The processors of src/pet/config/logging.py, as functions of the event's fields. A value is a dict, a
-- list, a tuple, a text, or a value that the code does not look into.
use Prim.Native.Char.{Char, code}
use fukawa.Prelude.{
  String, Bool, true, false, ◌&&◌, ◌||◌, List, [], ◌∷◌, ◌++◌, Option, none, some, is_some, any,
  contains, leb, ◌==◌, if◌then◌else◌, is_empty,
}
use fukawa.Prelude.Text.{is_blank}
use fukawa.Prelude.Dict.{Dict}
use fukawa.Prelude.Result.{Result, ok, err}

-- A key of a dict: a text, or another object.
pub data Key : Type 0 where
  text_key : String → Key
  other_key : String → Key

mutual
  pub data Value : Type 0 where
    dict : Entries → Value
    list : Values → Value
    tuple : Values → Value
    text : String → Value
    opaque : String → Value

  pub data Entries : Type 0 where
    end : Entries
    entry : Key → Value → Entries → Entries

  pub data Values : Type 0 where
    nil : Values
    cons : Value → Values → Values

abbrev same_char : Char → Char → Bool
same_char c d = leb (code c) (code d) && leb (code d) (code c)

-- s.startswith(fragment)
unfoldable pub starts_with : (fragment s : String) → Bool
starts_with String.[] s = true
starts_with (String.◌∷◌ c f) String.[] = false
starts_with (String.◌∷◌ c f) (String.◌∷◌ d s) = same_char c d && starts_with f s

-- fragment in s
unfoldable pub is_part : (fragment s : String) → Bool
unfolding starts_with
is_part fragment String.[] = is_blank fragment
is_part fragment (String.◌∷◌ c s) = starts_with fragment (String.◌∷◌ c s) || is_part fragment s

-- _DEFAULT_SENSITIVE_KEY_FRAGMENTS
abbrev pub default_sensitive_key_fragments : List String
default_sensitive_key_fragments =
    "password" ∷ "passwd" ∷ "secret" ∷ "token" ∷ "api_key" ∷ "apikey" ∷ "authorization" ∷ "cookie"
    ∷ "private_key" ∷ "client_secret" ∷ []

-- _REDACTED
abbrev pub redacted : Value
redacted = text "***"

-- The case mappings of the runtime: `str.lower` and `str.upper`.
pub record CaseMaps : Type 0 where
  pub lower : String → String
  pub upper : String → String

abbrev all_lowered : CaseMaps → List String → List String
all_lowered m [] = []
all_lowered m (f ∷ fs) = m.lower f ∷ all_lowered m fs

-- the fragments that configure_logging puts together
abbrev pub fragments_with : CaseMaps → List String → List String
fragments_with m extra = default_sensitive_key_fragments ++ all_lowered m extra

-- _is_sensitive
unfoldable pub is_sensitive : CaseMaps → List String → Key → Bool
unfolding is_part
is_sensitive m fragments (text_key k) = any (λ fragment. is_part fragment (m.lower k)) fragments
is_sensitive m fragments (other_key _) = false

module _ (m : CaseMaps) (fragments : List String) where
  -- `_redact_nested`, with the comprehension over a dict, which is also the loop of `_redact`
  unfoldable mutual
    pub redact_nested : Value → Value
    redact_nested (dict es) = dict (redact_entries es)
    redact_nested (list vs) = list (redact_values vs)
    redact_nested (tuple vs) = tuple (redact_values vs)
    redact_nested (text s) = text s
    redact_nested (opaque s) = opaque s

    pub redact_entries : Entries → Entries
    redact_entries end = end
    redact_entries (entry k v es) =
        let v' = redact_nested v in
        entry k (if is_sensitive m fragments k then redacted else v') (redact_entries es)

    pub redact_values : Values → Values
    redact_values nil = nil
    redact_values (cons v vs) = cons (redact_nested v) (redact_values vs)

  -- _redact
  unfoldable pub redact : Entries → Entries
  redact event_dict = redact_entries event_dict

-- event_dict.get(name)
abbrev key_is : Key → String → Bool
key_is (text_key k) name = k == name
key_is (other_key _) name = false

abbrev pub field_of : String → Entries → Option Value
field_of name end = none
field_of name (entry k v es) = let rest = field_of name es in if key_is k name then some v else rest

abbrev pub add_last : Key → Value → Entries → Entries
add_last k v end = entry k v end
add_last k v (entry j u es) = entry j u (add_last k v es)

-- event_dict.setdefault(name, value)
unfoldable pub set_default : String → Value → Entries → Entries
set_default name value es =
    if is_some (field_of name es) then es else add_last (text_key name) value es

-- _add_static_fields
unfoldable pub add_static_fields : Dict Value → Entries → Entries
unfolding set_default
add_static_fields [] event_dict = event_dict
add_static_fields ((key, value) ∷ fields) event_dict =
    add_static_fields fields (set_default key value event_dict)

abbrev pub Processor : Type 0
Processor = Entries → Entries

-- The processors of structlog, of one logger and one call.
pub record Structlog : Type 0 where
  pub merge_contextvars : Processor
  pub add_logger_name : Processor
  pub add_log_level : Processor
  pub positional_arguments_formatter : Processor
  pub time_stamper : Processor
  pub stack_info_renderer : Processor

-- processors.insert(-1, p)
abbrev pub insert_before_last : Processor → List Processor → List Processor
insert_before_last p [] = p ∷ []
insert_before_last p (q ∷ []) = p ∷ q ∷ []
insert_before_last p (q ∷ r ∷ ps) = q ∷ insert_before_last p (r ∷ ps)

-- `shared_processors`
unfoldable pub shared_processors : Structlog → CaseMaps → List String → Dict Value → List Processor
unfolding redact add_static_fields
shared_processors lib m extra static_fields =
    let processors =
      lib.merge_contextvars
      ∷ lib.add_logger_name
      ∷ lib.add_log_level
      ∷ lib.positional_arguments_formatter
      ∷ lib.time_stamper
      ∷ lib.stack_info_renderer
      ∷ redact m (fragments_with m extra)
      ∷ [] in
    if is_empty static_fields
    then processors
    else insert_before_last (add_static_fields static_fields) processors

-- each processor hands its event to the next
abbrev pub through : List Processor → Entries → Entries
through [] event_dict = event_dict
through (p ∷ ps) event_dict = through ps (p event_dict)

-- an event behind `shared_processors`
unfoldable pub processed : Structlog → CaseMaps → List String → Dict Value → Entries → Entries
unfolding shared_processors
processed lib m extra static_fields event_dict =
    through (shared_processors lib m extra static_fields) event_dict

-- _VALID_LOG_LEVELS
abbrev pub valid_log_levels : List String
valid_log_levels = "CRITICAL" ∷ "ERROR" ∷ "WARNING" ∷ "INFO" ∷ "DEBUG" ∷ "NOTSET" ∷ []

-- _normalize_log_level; the error is the ValueError, by the level that it names
unfoldable pub normalize_log_level : CaseMaps → String → Result String String
normalize_log_level m level =
    if contains valid_log_levels (m.upper level) then ok (m.upper level) else err level
