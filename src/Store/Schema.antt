-- ===== src/Store/Schema.antt =====
-- `Ping` and `SchemaReady` of internal/store/postgres.go: what the readiness check asks of the
-- database. `to_regclass` and the rows of goose are the database's.
use watchkeeper.Prelude.{ℕ, String, Option, none, some, ◌||◌, not, str_eq, ◌==◌, if◌then◌else◌}
use watchkeeper.Domain.Types.{Error, library_error}
use watchkeeper.Store.Tx.{World}

-- The names that `to_regclass` gives, empty for a table that is not there, and the last version that
-- was applied, if goose has a row of one.
pub record Schema : Type 0 where
  pub operations : String
  pub events : String
  pub migrations : String
  pub version : Option ℕ

-- `none` is Go's nil error. The pool's ping is the call 0 of the world.
unfoldable pub ping : World → Option Error
ping w = if w.fails 0 then some (library_error "ping") else none

abbrev expected_schema : Option ℕ → Option Error
expected_schema none = some (library_error "read schema version")
expected_schema (some version) =
    if not (version == 3) then some (library_error "schema version is incompatible") else none

unfoldable pub schema_ready : Schema → World → Option Error
schema_ready s w =
    if w.fails 1
    then some (library_error "read schema")
    else if str_eq s.operations "" || str_eq s.events "" || str_eq s.migrations ""
    then some (library_error "required schema is not migrated")
    else if w.fails 2
    then some (library_error "read schema version")
    else expected_schema s.version
