-- ===== src/Api/Handlers/Database.antt =====
-- What a client sees of an error of the database.
use fukawa.Prelude.{
  ℕ, Bool, true, false, ◌≡◌, refl, sym, ap, ◌∙◌, ◌≢◌, ◌↔◌, ◌||◌, Option, none, some, arith, ◌==◌,
  eq_iff, inl, inr, Bool-cases, if◌then◌else◌,
}
use fukawa.Prelude.Dict.{lookup}
use fukawa.App.Errors.{Extra, flag}
use fukawa.Infra.Persistence.{
  DriverError, ErrorClass, integrity_error, interface_error, timeout_error, disconnection_error,
  invalidate_pool_error, dbapi_error, sqlalchemy_error, Attr, str, opaque, PersistenceError,
  PersistenceErrorKind, determine_exc, translate_db_error, pg_sqlstate, integrity_kind,
}
use fukawa.Api.Handlers.Problem.{get_http_status_for_error}

-- the status that a client gets for an error of the driver
abbrev pub status_of : DriverError → ℕ
status_of e = get_http_status_for_error (translate_db_error (determine_exc e)).code

-- Whether the error says that the database could not be reached.
abbrev pub is_outage : ErrorClass → Bool → Bool
is_outage integrity_error invalidated = false
is_outage dbapi_error invalidated = invalidated
is_outage sqlalchemy_error invalidated = false
is_outage _ invalidated = true

-- The status of an integrity error by its SQLSTATE.
abbrev pub integrity_status : Option Attr → ℕ
integrity_status (some (str s)) =
    if s == "23505"
    then 409
    else if s == "23503" || (s == "23502" || s == "23514")
    then 422
    else 500
integrity_status _ = 500

abbrev is_integrity : ErrorClass → Bool
is_integrity integrity_error = true
is_integrity _ = false

abbrev pub expected_status : DriverError → ℕ
expected_status e =
    if is_integrity e.error_class
    then integrity_status (pg_sqlstate e)
    else if is_outage e.error_class e.connection_invalidated
    then 503
    else 500

abbrev kind_status : PersistenceErrorKind → ℕ
kind_status PersistenceErrorKind.unique = 409
kind_status PersistenceErrorKind.fk = 422
kind_status PersistenceErrorKind.not_null = 422
kind_status PersistenceErrorKind.check = 422
kind_status PersistenceErrorKind.operational = 503
kind_status PersistenceErrorKind.transient = 503
kind_status PersistenceErrorKind.unknown = 500
kind_status PersistenceErrorKind.other_integrity = 500

translate-kind :
    (k : PersistenceErrorKind) (p : PersistenceError)
    → p.kind ≡ k
    → get_http_status_for_error (translate_db_error p).code ≡ kind_status k
unfolding translate_db_error get_http_status_for_error
translate-kind PersistenceErrorKind.unique p h = ground arith
translate-kind _ p h = rw h

integrity_kind-status : (a : Option Attr) → kind_status (integrity_kind a) ≡ integrity_status a
unfolding integrity_kind
integrity_kind-status none = refl
integrity_kind-status (some (opaque t)) = refl
integrity_kind-status (some (str s)) = ground (
  arith,
  eq_iff "23505" s,
  eq_iff s "23505",
  eq_iff "23503" s,
  eq_iff s "23503",
  eq_iff "23502" s,
  eq_iff s "23502",
  eq_iff "23514" s,
  eq_iff s "23514",
)

abbrev determined_kind : ErrorClass → DriverError → PersistenceErrorKind
determined_kind integrity_error e = integrity_kind (pg_sqlstate e)
determined_kind interface_error e = PersistenceErrorKind.transient
determined_kind timeout_error e = PersistenceErrorKind.transient
determined_kind disconnection_error e = PersistenceErrorKind.transient
determined_kind invalidate_pool_error e = PersistenceErrorKind.transient
determined_kind dbapi_error e =
    if e.connection_invalidated
    then PersistenceErrorKind.transient
    else PersistenceErrorKind.unknown
determined_kind sqlalchemy_error e = PersistenceErrorKind.unknown
determined_kind _ e = PersistenceErrorKind.operational

determine-kind :
    (c : ErrorClass) (e : DriverError)
    → e.error_class ≡ c
    → (determine_exc e).kind ≡ determined_kind c e
unfolding determine_exc
determine-kind dbapi_error e h = ground arith
determine-kind _ e h = rw h

status_of_class :
    (c : ErrorClass) (e : DriverError) → e.error_class ≡ c → status_of e ≡ expected_status e
unfolding pg_sqlstate
status_of_class integrity_error e h =
    translate-kind (integrity_kind (pg_sqlstate e)) (determine_exc e)
      (determine-kind integrity_error e h)
    ∙ rw h (integrity_kind-status (pg_sqlstate e))
status_of_class dbapi_error e h = elim (Bool-cases e.connection_invalidated) [
  | inl lost ↦
      translate-kind PersistenceErrorKind.transient (determine_exc e)
        (determine-kind dbapi_error e h ∙ rw lost)
      ∙ rw (h, lost)
  | inr live ↦
      translate-kind PersistenceErrorKind.unknown (determine_exc e)
        (determine-kind dbapi_error e h ∙ rw live)
      ∙ rw (h, live)
]
status_of_class c e h =
    translate-kind (determined_kind c e) (determine_exc e) (determine-kind c e h) ∙ rw h

pub status_of-eq-expected : (e : DriverError) → status_of e ≡ expected_status e
status_of-eq-expected e = status_of_class e.error_class e refl

retryable-outage :
    (c : ErrorClass) (e : DriverError)
    → e.error_class ≡ c
    → (determine_exc e).retryable ≡ is_outage c e.connection_invalidated
unfolding determine_exc
retryable-outage dbapi_error e h = ground arith
retryable-outage _ e h = rw h

extra-retryable :
    (k : PersistenceErrorKind) (p : PersistenceError)
    → p.kind ≡ k
    → lookup "retryable" (translate_db_error p).extra ≡ some (flag p.retryable)
unfolding translate_db_error
extra-retryable PersistenceErrorKind.unique p h = ground arith
extra-retryable _ p h = rw h

integrity_status-ne : (a : Option Attr) → integrity_status a ≢ 503
integrity_status-ne none = ground arith
integrity_status-ne (some (opaque t)) = ground arith
integrity_status-ne (some (str s)) = ground arith

outage_iff :
    (c : ErrorClass) (e : DriverError)
    → e.error_class ≡ c
    → (is_outage c e.connection_invalidated ≡ true) ↔ (expected_status e ≡ 503)
outage_iff integrity_error e h = ground (arith, integrity_status-ne (pg_sqlstate e))
outage_iff _ e h = ground arith

flag-injective : {a b : Bool} → ◌≡◌ {A = Option Extra} (some (flag a)) (some (flag b)) → a ≡ b
flag-injective h = cc

-- The application error for an error of the driver tells the client to retry exactly if the status
-- of the response is 503.
retryable_iff_unavailable :
    (e : DriverError)
    → (lookup "retryable" (translate_db_error (determine_exc e)).extra ≡ some (flag true))
      ↔ (status_of e ≡ 503)
retryable_iff_unavailable e =
    let told = extra-retryable (determine_exc e).kind (determine_exc e) refl in
    let outage = retryable-outage e.error_class e refl in
    let same = outage_iff e.error_class e refl in
    let status = status_of-eq-expected e in
    (
      λ h. status ∙ same.0 (sym outage ∙ flag-injective (sym told ∙ h)),
      λ h. told ∙ ap (λ (b : Bool). some (flag b)) (outage ∙ same.1 (sym status ∙ h)),
    )
