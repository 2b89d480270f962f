-- ===== src/Migrations/Chain/Tests.antt =====
-- A deployment that goes up to the head, back two versions and up again.
use constructor.Prelude.{◌≡◌, refl, Bool, true, false, Option, none, some, List, [], ◌∷◌, lookup}
use constructor.Migrations.{Table}
use constructor.Migrations.Chain.{up, down, new_database, migrate_all, Move}
use constructor.Migrations.Chain.Stages.{
  base, with_executions, stage_after, at_stage, Guards, migrate_all-stages,
}

abbrev moves : List Move
moves = up ∷ up ∷ up ∷ up ∷ up ∷ up ∷ down ∷ down ∷ up ∷ []

-- The flag is still there after a downgrade to the first version.
abbrev is_forced : Option Table → Bool
is_forced none = false
is_forced (some t) = t.forced

stays_forced :
    is_forced (lookup "users" (at_stage (stage_after (up ∷ up ∷ down ∷ []) base)).schema.tables)
    ≡ true
unfolding at_stage lookup
stays_forced = refl

migrate_all-stages_example :
    (migrate_all moves new_database ≡ some (at_stage with_executions)) × Guards with_executions
migrate_all-stages_example = migrate_all-stages moves
