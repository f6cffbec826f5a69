-- ===== src/Lib.antt =====
-- A verification library for replicare, trigger-based database replication in Go (internal/).
--
-- The program captures row changes of a source in delta tables, re-reads the changed rows and applies
-- them to each target. It guarantees that a target converges, whatever transactions run on the source
-- and whatever call fails.
--
-- Base      shared names, Boolean tests, lists, equality, Go strings as lists of bytes.
-- Engine    internal/engine/types.go, engine.go: the value types of the engine interfaces, and
--           `keySignature` of internal/apply/apply.go.
-- Postgres  internal/engine/postgres: a captured table with its delta and track tables (Capture),
--           where the trigger notes every row that a statement changes (Capture.Writes), and the world of one source and one target with the calls of `Source`, `Sink` and `ApplyTx`
--           (World). Spec says what a program keeps under every script of transactions and faults;
--           Synced is the invariant of replication; Calls proves it of every call.
-- Apply     internal/apply: `coalesce` (Coalesce), the acyclic component drain (Pass), the drain of one
--           table (Table), the retry loop (Retry); their safety (Safety) and progress (Progress). The
--           drain of a cyclic component, cyclic columns NULL first (NullFill): every other table
--           stands apart (Standing, Outside, Phases, Apart), the transactions of one table of it (Own,
--           Staged, Finish, Steps), the phases around it (Around, Turns, Whole), its claim (Batch, Gather).
--           The choice of the drain, and the one transaction for deferrable keys (Component).
-- Postgres.Purge  purge.go: retention caps, the batched purge, and what it keeps.
-- Migrate   internal/migrate/migrate.go: the migration runner over a database whose transactions may fail.
-- Redis     internal/engine/redis: clock and order of the mesh (Clock), record framing (Framing), the
--           order of the apply script on doubles (Script), the version-guarded apply (Register) and its
--           convergence (Converge).
-- Graph     internal/fkgraph: foreign-key edges, Kahn's order, cyclic members (Order), dangling edges, the
--           union-find partition into components (Partition).
-- Copy      internal/copy: chunks, checkpoints and the watermark (Watermark), the tries of a chunk
--           (Attempts).
-- Preflight internal/engine/preflight.go, preflight_mesh.go and internal/engine/postgres/typecompat.go,
--           cyclicfk.go, preflight.go: the classification of column types (TypeNames, Compat), foreign
--           keys on cycles (Cyclic), one table against its target (Tables), the assembled report
--           (Findings, Report), keys that mesh members would allocate twice (MeshIds).
-- Samples   a small database, test runs, and the theorems applied to it.
--
-- State is passed explicitly: `Exec A` takes a world and gives a result and the next world. The
-- world's script lists, for each call, the transactions that run before it and whether it fails,
-- before or after the server acted. An error keeps only what the code asks of it. Texts of messages,
-- metrics and logs are left out. One row is its key and its other columns as one text.
--
-- Fuel: `drain_all` takes a bound on its rounds, and Apply.Progress proves that one round more than
-- there are unconsumed deltas is enough; the retry loop is bounded by the policy itself. `find` of the
-- union-find structure takes one round more than there are foreign keys, which bound every rank;
-- `search_from` takes two rounds more than there are arrows. Both bounds are proved enough.
--
-- Not modelled: the SQL text, network and TLS, the daemon's goroutines, configuration files,
-- observability, the MySQL engine and the parallel drains.
pub mod Base
pub mod Engine
pub mod Postgres
pub mod Apply
pub mod Migrate
pub mod Redis
pub mod Graph
pub mod Copy
pub mod Preflight
pub mod Samples
