-- ===== src/Migrations/Chain.antt =====
-- The versions one after the other, as Alembic runs them.
pub mod Stages
pub mod Tests
use mathlib.Core.Option
use constructor.Prelude.{
  String, Bool, true, false, Option, none, some, List, [], ◌∷◌, ◌==◌, if◌then◌else◌,
}
use constructor.Migrations.{Schema, Revision, empty, run}
use constructor.Migrations.Access.{initial_schema, rls_policies, audit_log}
use constructor.Migrations.Workflows.{workflows, executions, triggers}

abbrev pub versions : List Revision
versions = initial_schema ∷ rls_policies ∷ audit_log ∷ workflows ∷ executions ∷ triggers ∷ []

-- The schema, and what Alembic has noted as its version.
pub record Database : Type 0 where
  pub version : Option String
  pub schema : Schema

abbrev pub new_database : Database
new_database = record { version = none; schema = empty }

pub data Move : Type 0 where
  up down : Move

abbrev pub same_version : Option String → Option String → Bool
same_version none none = true
same_version (some a) (some b) = a == b
same_version none (some b) = false
same_version (some a) none = false

-- The version that builds on one, and the version of a name.
unfoldable pub next_of : Option String → List Revision → Option Revision
next_of version [] = none
next_of version (r ∷ rs) =
    if same_version r.down_revision version then some r else next_of version rs

unfoldable pub named : Option String → List Revision → Option Revision
named version [] = none
named version (r ∷ rs) = if same_version (some r.revision) version then some r else named version rs

-- `alembic upgrade +1` and `alembic downgrade -1`, with nothing to do at the ends.
unfoldable pub migrate : Move → Database → Option Database
unfolding next_of named run
migrate up db = elim (next_of db.version versions) [
  | none ↦ some db
  | some r ↦
      Option.map (λ s. record { version = some r.revision; schema = s }) (run r.upgrade db.schema)
]
migrate down db = elim (named db.version versions) [
  | none ↦ some db
  | some r ↦
      Option.map (λ s. record { version = r.down_revision; schema = s }) (run r.downgrade db.schema)
]

unfoldable pub migrate_all : List Move → Database → Option Database
unfolding migrate
migrate_all [] db = some db
migrate_all (m ∷ ms) db = elim (migrate m db) [ none ↦ none | some db' ↦ migrate_all ms db' ]
