-- ===== src/Tests/Events.antt =====
-- The processors of src/pet/config/logging.py on an event with a nested secret.
use fukawa.Prelude.{◌≡◌, refl, [], ◌∷◌}
use fukawa.Prelude.Dict.{Dict}
use fukawa.Config.{
  text_key, Value, dict, list, text, Entries, end, entry, nil, cons, CaseMaps, Structlog, Processor,
  redact, processed, fragments_with, is_sensitive, redact_entries,
}
use fukawa.Config.Hidden.{HasHidden, processed-HasHidden}

abbrev plain : CaseMaps
plain = record { lower = λ s. s; upper = λ s. s }

-- what an earlier processor adds
abbrev with_token : Processor
with_token es = entry (text_key "token") (text "abc") es

abbrev ready : Structlog
ready = record {
  merge_contextvars = with_token;
  add_logger_name = λ es. es;
  add_log_level = λ es. es;
  positional_arguments_formatter = λ es. es;
  time_stamper = λ es. es;
  stack_info_renderer = λ es. es;
}

abbrev login : Entries
login = entry (text_key "event") (text "login") (
    entry (text_key "users")
      (list (cons (dict (entry (text_key "password_hash") (text "abc") end)) nil)) end)

abbrev static_fields : Dict Value
static_fields = ("app_name", text "pet") ∷ ("event", text "none") ∷ []

login_redacted :
    processed ready plain [] static_fields login
    ≡ entry (text_key "token") (text "***") (
        entry (text_key "event") (text "login") (
          entry
            (text_key "users")
            (list (cons (dict (entry (text_key "password_hash") (text "***") end)) nil))
            (entry (text_key "app_name") (text "pet") end)))
unfolding processed redact is_sensitive redact_entries
login_redacted = refl

processed-HasHidden_example :
    HasHidden plain
      (fragments_with plain ("pin" ∷ []))
      (processed ready plain ("pin" ∷ []) static_fields login)
processed-HasHidden_example = processed-HasHidden ready plain ("pin" ∷ []) static_fields login
