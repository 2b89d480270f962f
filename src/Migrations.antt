-- ===== src/Migrations.antt =====
-- services/platform-api/migrations: the schema of the database, as the operations of the versions
-- build it and take it down. What PostgreSQL refuses is `none`.
pub mod Access
pub mod Workflows
pub mod Chain
use mathlib.Core.Option
use constructor.Prelude.{
  ℕ, String, Bool, true, false, not, ◌&&◌, ◌||◌, Option, none, some, List, [], ◌∷◌, ◌++◌, Dict,
  lookup, insert, erase, elem, is_some, ◌==◌, if◌then◌else◌,
}

pub data ColumnType : Type 0 where
  uuid text json boolean integer : ColumnType
  string : ℕ → ColumnType
  -- with a time zone or without
  date_time : Bool → ColumnType

pub record Column : Type 0 where
  pub name : String
  pub type : ColumnType
  pub nullable : Bool
  pub server_default : Option String

abbrev pub column : String → ColumnType → Column
column name type = record { name = name; type = type; nullable = false; server_default = none }

abbrev pub optional : String → ColumnType → Column
optional name type = record { name = name; type = type; nullable = true; server_default = none }

-- A column with `server_default`, which is nullable unless it says otherwise.
abbrev pub with_default : Bool → String → ColumnType → String → Column
with_default nullable name type default = record {
  name = name;
  type = type;
  nullable = nullable;
  server_default = some default;
}

-- A foreign key is a column and the table that it refers to.
pub record Table : Type 0 where
  pub columns : List Column
  pub foreign_keys : List (String × String)
  pub primary_key : String
  pub unique : List (List String)
  pub indexes : List String
  pub row_security : Bool
  pub forced : Bool
  pub policies : List String

-- The tables, and the names of the roles that are rows of "roles".
pub record Schema : Type 0 where
  pub tables : Dict Table
  pub roles : List String

abbrev pub empty : Schema
empty = record { tables = []; roles = [] }

pub data Operation : Type 0 where
  -- its name, columns, foreign keys and unique constraints; the primary key is "id"
  create_table : String → List Column → List (String × String) → List (List String) → Operation
  drop_table : String → Operation
  add_column : String → Column → Operation
  drop_column : String → String → Operation
  create_index drop_index : String → String → Operation
  enable_row_security force_row_security disable_row_security : String → Operation
  create_policy drop_policy : String → String → Operation
  insert_roles delete_roles : List String → Operation

abbrev has_column : String → List Column → Bool
has_column name [] = false
has_column name (c ∷ cs) = c.name == name || has_column name cs

abbrev without_column : String → List Column → List Column
without_column name [] = []
without_column name (c ∷ cs) =
    let rest = without_column name cs in if c.name == name then rest else c ∷ rest

abbrev without : List String → List String → List String
without gone [] = []
without gone (x ∷ xs) = let rest = without gone xs in if elem x gone then rest else x ∷ rest

-- `ON CONFLICT (name) DO NOTHING`
abbrev with_new : List String → List String → List String
with_new [] xs = xs
with_new (r ∷ rs) xs = with_new rs (if elem r xs then xs else xs ++ r ∷ [])

abbrev targets_exist : String → List (String × String) → Dict Table → Bool
targets_exist name [] tables = true
targets_exist name ((c, target) ∷ keys) tables =
    (target == name || is_some (lookup target tables)) && targets_exist name keys tables

abbrev refers_to : String → List (String × String) → Bool
refers_to name [] = false
refers_to name ((c, target) ∷ keys) = target == name || refers_to name keys

-- Another table has a foreign key to it.
abbrev is_target : String → Dict Table → Bool
is_target name [] = false
is_target name ((other, t) ∷ tables) =
    (not (other == name) && refers_to name t.foreign_keys) || is_target name tables

unfoldable pub change : String → (Table → Option Table) → Schema → Option Schema
unfolding lookup insert
change name f s = elim (lookup name s.tables) [
  | none ↦ none
  | some t ↦ Option.map (λ t'. record s { tables = insert name t' s.tables }) (f t)
]

unfoldable pub create : String → Table → Schema → Option Schema
unfolding lookup insert
create name t s =
    if is_some (lookup name s.tables)
    then none
    else if targets_exist name t.foreign_keys s.tables
    then some (record s { tables = insert name t s.tables })
    else none

unfoldable pub drop : String → Schema → Option Schema
unfolding lookup erase
drop name s =
    if is_some (lookup name s.tables) && not (is_target name s.tables)
    then some (record s { tables = erase name s.tables })
    else none

unfoldable pub apply : Operation → Schema → Option Schema
unfolding change create drop elem
apply (create_table name columns keys unique) s =
    create name
      (record {
        columns = columns;
        foreign_keys = keys;
        primary_key = "id";
        unique = unique;
        indexes = [];
        row_security = false;
        forced = false;
        policies = [];
      })
      s
apply (drop_table name) s = drop name s
apply (add_column table c) s =
    change table
      (λ t.
        if has_column c.name t.columns
        then none
        else some (record t { columns = t.columns ++ c ∷ [] }))
      s
apply (drop_column table name) s =
    change table
      (λ t.
        if has_column name t.columns
        then some (record t { columns = without_column name t.columns })
        else none)
      s
apply (create_index name table) s =
    change table
      (λ t.
        if elem name t.indexes then none else some (record t { indexes = t.indexes ++ name ∷ [] }))
      s
apply (drop_index name table) s =
    change table
      (λ t.
        if elem name t.indexes
        then some (record t { indexes = without (name ∷ []) t.indexes })
        else none)
      s
apply (enable_row_security table) s = change table (λ t. some (record t { row_security = true })) s
apply (force_row_security table) s = change table (λ t. some (record t { forced = true })) s
apply (disable_row_security table) s =
    change table (λ t. some (record t { row_security = false })) s
apply (create_policy name table) s =
    change table
      (λ t.
        if elem name t.policies
        then none
        else some (record t { policies = t.policies ++ name ∷ [] }))
      s
apply (drop_policy name table) s =
    change table (λ t. some (record t { policies = without (name ∷ []) t.policies })) s
apply (insert_roles names) s = some (record s { roles = with_new names s.roles })
apply (delete_roles names) s = some (record s { roles = without names s.roles })

unfoldable pub run : List Operation → Schema → Option Schema
unfolding apply
run [] s = some s
run (o ∷ os) s = elim (apply o s) [ none ↦ none | some s' ↦ run os s' ]

-- The statements that every version uses to protect a table.
abbrev pub protect : String → List Operation
protect table =
    enable_row_security table
    ∷ force_row_security table
    ∷ create_policy "tenant_isolation" table
    ∷ []

pub record Revision : Type 0 where
  pub revision : String
  pub down_revision : Option String
  pub upgrade : List Operation
  pub downgrade : List Operation
