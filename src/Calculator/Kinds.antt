-- ===== src/Calculator/Kinds.antt =====
-- The kind of top-level entry that a step of
-- migration-engine/connectors/migration-connector/src/steps.rs is about.
use prisma_engines.Steps.{
  MigrationStep, create_model, update_model, delete_model, create_directive, delete_directive,
  create_argument, update_argument, delete_argument, create_field, delete_field, update_field,
  create_enum, update_enum, delete_enum, create_type_alias, update_type_alias, delete_type_alias,
  create_source, delete_source,
}
use prisma_engines.Steps.Location.{DirectivePath, ArgumentLocation}

-- The kinds of entries that steps are about.
pub data EntryKind : Type 0 where
  enums models sources types : EntryKind

abbrev pub path_kind : DirectivePath → EntryKind
path_kind (DirectivePath.field _ _) = models
path_kind (DirectivePath.model _ _) = models
path_kind (DirectivePath.enum _) = enums
path_kind (DirectivePath.enum_value _ _) = enums
path_kind (DirectivePath.type_alias _) = types

abbrev pub location_kind : ArgumentLocation → EntryKind
location_kind (ArgumentLocation.source _) = sources
location_kind (ArgumentLocation.directive location) = path_kind location.path

abbrev pub step_kind : MigrationStep → EntryKind
step_kind (create_model _) = models
step_kind (update_model _) = models
step_kind (delete_model _) = models
step_kind (create_field _) = models
step_kind (update_field _) = models
step_kind (delete_field _) = models
step_kind (create_enum _) = enums
step_kind (update_enum _) = enums
step_kind (delete_enum _) = enums
step_kind (create_type_alias _) = types
step_kind (update_type_alias _) = types
step_kind (delete_type_alias _) = types
step_kind (create_source _) = sources
step_kind (delete_source _) = sources
step_kind (create_directive step) = path_kind step.location.path
step_kind (delete_directive step) = path_kind step.location.path
step_kind (create_argument step) = location_kind step.location
step_kind (update_argument step) = location_kind step.location
step_kind (delete_argument step) = location_kind step.location
