-- ===== src/Execution/Aggregation/Extremum/Update.antt =====
-- A batch taken by a minimum or maximum accumulator, with one group as with several.
use tiny_olap.Execution.Aggregation.Extremum.{Slots}
