-- ===== src/Apply.antt =====
-- internal/apply: the streaming drain. One daemon goroutine at a time, a pool of one connection.
-- A pass reads the dirty keys, coalesces them, re-reads the source, applies to the target and only
-- then records the deltas as consumed.
-- `io.Pipe` joins the re-read to the apply; the model ends the re-read before the apply starts to
-- write. Metrics (`recordApplied`) and the texts of errors are left out.
pub mod Coalesce
pub mod Pass
pub mod Table
pub mod Safety
pub mod Progress
pub mod NullFill
pub mod Component
pub mod Retry
