-- ===== src/Lib.antt =====
-- Models of the backend `pet` (src/pet) and the theorems about them.
--
-- The program. Requests reach FastAPI routers, which authenticate a bearer token and run a use case
-- in one database transaction; every exception becomes a problem response (RFC 9457).
--   * src/pet/infra/auth/jwks.py keeps the identity provider's signing keys in a cache. Module
--     Infra/Jwks: `Provider` is the state of `JWKSProvider`, `create` its constructor, and `start`,
--     `get_signing_key`, `refresh`, `parse_jwks`, `is_stale` and the others are the methods. Readings
--     of time.monotonic() and answers of the HTTP client come from a `World`, numbered in the order in
--     which the provider asks for them. `get_signing_key` is cut where its task can be suspended: the
--     test before the lock (`get_unlocked`), a wait during which other tasks change the provider, and
--     the section under the lock (`get_locked`). `Reach` is any sequence of such steps. Times are
--     whole ticks; PyJWKSet.from_dict is a parameter.
--   * src/pet/infra/auth/keycloak_verifier.py turns a raw token into a `Principal`. Module
--     Infra/Verifier: `create_verifier`, `verify`, the claim readers and `validate_audience`; PyJWT is
--     the parameter `Jwt`.
--   * src/pet/infra/sqla/db/exc.py and src/pet/app/errors.py map errors of the driver to errors of the
--     application: Infra/Persistence and App/Errors.
--   * src/pet/infra/sqla/uow.py, repos.py and src/pet/app/transaction_executor.py: the unit of work
--     (Infra/Uow), the repositories (Infra/Repos) and the executor (App/Executor), over a session that
--     is the parameter `SessionApi` of Infra/Session. An action passes a state along, that of the unit
--     of work and of the session with the database behind it; an exception is a value of `Exc`.
--     `within` is the `async with` block: the start, the body, the way out.
--   * src/pet/app/usecases: App/Usecases, whose UUIDs come from a numbered source.
--   * src/pet/domain: Domain/Name, Domain/Models and Domain/Principal. The Unicode tables are the
--     parameter `Unicode`. Infra/Schema has the constraints of src/pet/infra/sqla/db/models.py on the
--     name of an organization.
--   * src/pet/infra/sqla/db/models.py, base.py and alembic/versions/03f03ad6f039_init.py: Infra/Tables.
--     Models has the mapped classes and what the metadata makes of them, Migration the calls of `op` in
--     `upgrade` and `downgrade`. Catalog says what PostgreSQL documents of these statements: the database
--     itself is the parameter `Database`. Replay, Frame and ByName carry the proofs, Upgrade has the
--     results.
--   * src/pet/api/exception_handlers.py: Api/Handlers.
--   * src/pet/api/auth.py: Api/Access, the authentication of a request and the checks of roles.
--   * src/pet/api/routers and health.py: Api/Routers, the endpoints over the authentication, the executor
--     and the use cases; Api/Failures has what FastAPI does with what they raise.
--   * src/pet/api/middleware/http_logging.py: Api/HttpLogging, with the context variables, the log events
--     and the number of drawn UUIDs as its state.
--   * src/pet/main.py and src/pet/di/auth.py: Startup, the lifespan with the engine and the HTTP client
--     that it opens and closes.
--   * src/pet/config/settings.py: Startup/Settings, the settings of the database and of Keycloak.
--   * alembic/env.py: Alembic, the URL of the database and the online run of the migrations.
--   * src/pet/config/logging.py: Config, the processors of log events.
-- Prelude has what these share: Boolean tests, lists, text, dicts and results; Json the values that a
-- decoded token holds. Tests applies the theorems to concrete inputs.
--
-- No definition uses fuel: every loop of the program goes over a list, an object or a text, and the
-- model recurses on it. Natural numbers are unbounded, as Python's integers are; a difference of two
-- times is cut off at 0, which a clock that does not go back never reaches from below.
--
-- What is documented of foreign code stands in hypotheses: that the clock does not go back
-- (`IsMonotonic`), that closing a session ends it and does not raise (`ClosesCleanly`), that only a
-- commit that goes through changes what is stored and that `close` does not raise
-- (`Transactional`), that NFC is idempotent and adds no white space (`NfcLaws`), that the database
-- follows the same Unicode tables as the runtime (`SameTables`), what the upsert stores and returns
-- (`IsUpserting`), what a session has written and stores when it commits (`IsStoring`), how a
-- database executes the statements of a migration (`IsDocumented`), which migrations Alembic runs,
-- that it creates its own table first, and when their transaction keeps them (`IsAlembic`).
--
-- Not modelled: logging calls outside the middleware, durations, routing and the encoding of bodies, the
-- configuration of the framework and of structlog, the offline run of the migrations, and
-- cancellation of a task in the middle of a call.
pub mod Prelude
pub mod Json
pub mod Domain
pub mod App
pub mod Infra
pub mod Alembic
pub mod Api
pub mod Config
pub mod Startup
pub mod Tests
