-- ===== src/Lib.antt =====
-- Schemas and migrations of prisma-engines: the AST of Prisma schemas, the differ that infers the
-- steps between two schemas, the calculator that applies steps to a schema, the differ of SQL schemas
-- with the steps of a database migration, and the applier that runs these and stores the progress.
--
-- The program. A schema is a list of top-level entries: models, enums, type aliases, sources and
-- generators. The migration engine compares the previous schema with the next one and infers a list
-- of steps, which it stores and sends as JSON; from stored steps it calculates a schema again. The
-- differ prints the values of arguments into the steps, the calculator parses them again. For the
-- database, the SQL connector describes the current SQL schema, compares it with the one that the next
-- schema asks for, and corrects the steps where a database cannot run them. The applier runs the
-- corrected steps one by one and stores the status and the progress of the migration in its row.
--
-- The files, and the code that each is about:
--   Ast/Span, Ast/Node, Ast/Expression: libs/datamodel/core/src/ast/{span,identifier,comment,
--     argument,directive,field,enum,model,source_config,generator_config,top,expression}.rs
--   Ast/Schema: libs/datamodel/core/src/ast/mod.rs, `SchemaAst` and its find functions. Ast/Kind
--     holds what the four find_map closures there have in common, Ast/Schema/Located says where a
--     found entry stands, Ast/Schema/Lens and Apart how references and the searches by value agree.
--   Ast/Render: libs/datamodel/core/src/ast/renderer/{mod,string_builder}.rs, the part that
--     `render_value_to_string` runs.
--   Steps, Steps/Location: migration-engine/connectors/migration-connector/src/steps.rs
--   Calculator/Tops, Fields, Directives, Apply, Errors:
--     migration-engine/core/src/migration/datamodel_calculator.rs, a definition for each function,
--     with its name, and `ArgumentContainer` of libs/datamodel/core/src/ast/traits.rs.
--   Differ/Push, PushTypes, PushModels, Diff: migration-engine/core/src/migration/
--     datamodel_differ.rs and datamodel_migration_steps_inferrer.rs; a loop `push_...s` has its body
--     as `push_...`.
--   Differ/Directives, EnumValues, Enums, Fields, Models, Source, Top: the files of
--     migration-engine/core/src/migration/datamodel_differ/. Differ/Pairs has what they share.
--   Engine/MigrationStatus, Migration, Persistence: migration-engine/connectors/migration-connector/src/
--     migration_persistence.rs; a trait is a record of its operations, and a default method has what
--     it searches for as a definition of its own (`newest`, `newest_applied`, `is_applied`).
--   Engine/Steps: the step appliers, database_migration_step_applier.rs there and
--     sql_database_step_applier.rs of sql-migration-connector/src. Engine/Applier: migration_applier.rs.
--   Engine/Checks, Connector: destructive_changes_checker.rs and lib.rs there. Engine/Commands:
--     migration-engine/core/src/commands, the commands with their names (Stored: list_migrations,
--     migration_progress, reset; Calculate: both of the calculations).
--   Sql/Schema: libs/sql-schema-describer/src/lib.rs. Sql/Steps, Sql/Expand: sql_migration.rs and
--     sql_migration/expanded_alter_column.rs of migration-engine/connectors/
--     sql-migration-connector/src.
--   Sql/Differ/Column, Table, Changes, Diff: sql_schema_differ.rs there and its directory;
--     Sql/Infer and Sql/Sqlite: sql_database_migration_inferrer.rs and its directory.
--   Sql/Catalog: the names of tables and enums as an abstract view of a database. Sql/InPlace: what a
--     database makes of a column by the changes of it.
--     Engine/{Diagram,Logged}: the diagram of the statuses, and an observer of the updates.
--   WellNamed: the schemas without duplicate names. Differ/Alike: the schemas that steps describe
--     alike. Roundtrip/Rebuilt: what steps say of a schema.
--   Calculator/{Kinds,Unchanged,FramedRefs,Frame,Others,OtherModels,Undo,UndoField},
--     Differ/{AlikePairs,AlikeParts,AlikeEntries,Idle,RenameParts,Renames,Repeated} and the rest of
--     Roundtrip/ hold proofs, and so do Engine/{Congruence, InOrder, SqlInOrder, Statuses,
--     SqlSilent, Ended, ApplyEnds, ApplySettles, Progress, StatusCodes} and Sql/{Reflexive,
--     SelfPairs, IdleTable, Idle, Inferred, TableNames, EnumNames, Refines, Phases, Settled,
--     Expansions, Twins, Answers, Fixable, Total}. Ast/Lifted, Engine/Newest and
--     Engine/Commands/{Held, Refused, Suffix, Validated} hold proofs on the commands. Examples/
--     has the tests.
--
-- How the code is read:
--   - `&mut T` inside an `S` is a `Ref S T`: the value, and the `S` with another value written back.
--     An operation on `&mut SchemaAst` returns the schema that it leaves there.
--   - An operation returns an `Outcome`: ok, an error, or the panic of an `unwrap`. An error has a
--     constructor for each message of the code. After an error the caller drops the schema, so the
--     model keeps none.
--   - A function that pushes onto `steps` returns the steps that it pushes, in their order.
--   - The parser of expressions, generated from a pest grammar, is the parameter `parse`. Where a
--     theorem needs it to succeed, it says so of the values in the schema (`SchemaReadable`).
--   - `usize` is an unbounded number: in spans an offset into a text in memory, in a migration and its
--     updates the revision and the counts of steps, which stay below the number of the steps.
--   - Printing a value of the kind `Any` panics in Ast/Render. The repository copies such values, but
--     never makes one, so steps read the empty text there.
--   - The loops of the applier, which ask the connector for more, have fuel: the number of the steps
--     and one more is enough. All other loops run over the lists of a schema or of the steps.
--   - An asynchronous function is one of the world outside (`Effect`), which is a parameter, as are the
--     persistence, the connector of a command, the datamodel library, the connection, the rendered
--     SQL, the clock and the text of an error. Between two
--     calls nobody else changes a migration's row. A failed call also leaves a world.
--   - The equality of steps, which a derive generates, is a parameter of the calculation of database
--     steps, and so is the connector's error of an applied migration for inference. Where an error
--     has a message that names a migration, the model keeps the name.
--   - A regular expression that tells ignored tables is a test of the name; the values of SQL defaults
--     are a parameter with their equality test. The rendering of a default for SQLite is a parameter.
--
-- Not modelled: the JSON form of steps, which derives generate; the parser, the validator and the
-- renderer of whole schemas; the rendering of SQL, the calculation of SQL schemas from models, the
-- describers and the checks for destructive changes, which ask databases; the JSON-RPC
-- interface of the engine; the query engine and the introspection engine.
pub mod Prelude
pub mod Ast
pub mod Steps
pub mod Calculator
pub mod Engine
pub mod Sql
pub mod Differ
pub mod WellNamed
pub mod Roundtrip
mod Examples
