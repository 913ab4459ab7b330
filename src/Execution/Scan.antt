-- ===== src/Execution/Scan.antt =====
-- tinyolap/src/execution/full_scan.rs and zone_map_scan.rs: one batch per granule, part by part.
pub mod Skipping
use tiny_olap.Base.{
  ℕ, ◌+◌, List, [], ◌∷◌, Bool, true, false, leb, is_empty, Option, none, some, if◌then◌else◌, ok,
  err, panic, stuck, ◌>>=◌,
}
use tiny_olap.Catalog.{Name, DataType, ColumnSchema}
use tiny_olap.Physical.Plan.{PhysicalExpr}
use tiny_olap.Execution.Batch.{Cells, Batch, Outcome}
use tiny_olap.Execution.ZoneMap.{ZoneMap, zone_map_can_skip}

-- What the scans need of the storage: the readers of a column and the zone map of a part. `none`
-- is a zone map that cannot be read. A read of a granule changes the reader, whose cache it fills.
pub record Storage (Part Reader : Type 0) : Type 0 where
  pub open_column : Part → ColumnSchema → Outcome Reader
  pub granule_count : Reader → ℕ
  pub read_granule : Reader → DataType → ℕ → Outcome Cells × Reader
  pub read_zone_map : Part → Option ZoneMap
  pub try_new : Batch → Outcome Batch

-- `work` is what the work source still gives to this worker. An empty `readers` means that no part
-- is open.
pub record Scan (Part Reader : Type 0) : Type 0 where
  pub work : List Part
  pub granule_idx : ℕ
  pub granule_count : ℕ
  pub readers : List Reader

unfoldable pub new : {Part Reader : Type 0} → List Part → Scan Part Reader
new work = record { work = work; granule_idx = 0; granule_count = 0; readers = [] }

module _ {Part Reader : Type 0} (storage : Storage Part Reader) (columns : List ColumnSchema) where
  -- The readers of the columns, up to the first error.
  unfoldable pub open_readers : Part → List ColumnSchema → Outcome (List Reader)
  open_readers part [] = ok []
  open_readers part (col ∷ cols) = do
    r ← storage.open_column part col
    rs ← open_readers part cols
    ok (r ∷ rs)

  -- One granule of every column, and the readers after it; behind an error the rest is not read.
  unfoldable pub read_arrays : ℕ → List ColumnSchema → List Reader → Outcome Batch × List Reader
  read_arrays idx [] rs = (ok [], rs)
  read_arrays idx (col ∷ cols) [] = (ok [], [])
  read_arrays idx (col ∷ cols) (r ∷ rs) =
      let first = storage.read_granule r col.data_type idx in
      let rest = read_arrays idx cols rs in
      elim first.0 [
        | ok cells ↦ (rest.0 >>= λ batch. ok ((col.name, cells) ∷ batch), first.1 ∷ rest.1)
        | err e ↦ (err e, first.1 ∷ rs)
        | panic ↦ (panic, first.1 ∷ rs)
        | stuck ↦ (stuck, first.1 ∷ rs)
      ]

  -- After an error the granule is not left behind; the last granule closes the part.
  unfoldable pub finish_batch :
      Outcome Batch → List Reader → Scan Part Reader → Outcome Batch × Scan Part Reader
  finish_batch (ok batch) rs s =
      let next_idx = s.granule_idx + 1 in
      (
        storage.try_new batch,
        record {
          work = s.work;
          granule_idx = next_idx;
          granule_count = s.granule_count;
          readers = if leb s.granule_count next_idx then [] else rs;
        },
      )
  finish_batch (err e) rs s = (
    err e,
    record {
      work = s.work;
      granule_idx = s.granule_idx;
      granule_count = s.granule_count;
      readers = rs;
    },
  )
  finish_batch panic rs s = (
    panic,
    record {
      work = s.work;
      granule_idx = s.granule_idx;
      granule_count = s.granule_count;
      readers = rs;
    },
  )
  finish_batch stuck rs s = (
    stuck,
    record {
      work = s.work;
      granule_idx = s.granule_idx;
      granule_count = s.granule_count;
      readers = rs;
    },
  )

  unfoldable pub read_batch : Scan Part Reader → Outcome Batch × Scan Part Reader
  read_batch s =
      let read = read_arrays s.granule_idx columns s.readers in finish_batch read.0 read.1 s

  -- `readers[0]` panics when the scan has no columns.
  unfoldable pub start_part :
      Outcome (List Reader) → Scan Part Reader → Outcome Batch × Scan Part Reader
  start_part (ok []) s = (panic, s)
  start_part (ok (r ∷ rs)) s = read_batch (record {
    work = s.work;
    granule_idx = 0;
    granule_count = storage.granule_count r;
    readers = r ∷ rs;
  })
  start_part (err e) s = (err e, s)
  start_part panic s = (panic, s)
  start_part stuck s = (stuck, s)

  abbrev pub answer : Outcome Batch × Scan Part Reader → Option (Outcome Batch) × Scan Part Reader
  answer r = (some r.0, r.1)

  -- `s` with `work` left in the work source.
  abbrev pub with_work : Scan Part Reader → List Part → Scan Part Reader
  with_work s work = record {
    work = work;
    granule_idx = s.granule_idx;
    granule_count = s.granule_count;
    readers = s.readers;
  }

  unfoldable pub take_part :
      Scan Part Reader → List Part → Option (Outcome Batch) × Scan Part Reader
  take_part s [] = (none, with_work s [])
  take_part s (part ∷ work) = answer (start_part (open_readers part columns) (with_work s work))

  -- `FullScanExec::next_batch`.
  unfoldable pub full_next_batch : Scan Part Reader → Option (Outcome Batch) × Scan Part Reader
  full_next_batch s = if is_empty s.readers then take_part s s.work else answer (read_batch s)

  module _ (skip_predicate : PhysicalExpr) where
    -- A zone map that cannot be read counts as an empty one.
    unfoldable pub can_skip : Part → Bool
    can_skip part = elim (storage.read_zone_map part) [
      | none ↦ zone_map_can_skip skip_predicate []
      | some zone_map ↦ zone_map_can_skip skip_predicate zone_map
    ]

    -- The loop `while self.readers.is_empty()`: parts that can be skipped are passed over.
    unfoldable pub skip_parts :
        Scan Part Reader → List Part → Option (Outcome Batch) × Scan Part Reader
    skip_parts s [] = (none, with_work s [])
    skip_parts s (part ∷ work) =
        let later = skip_parts s work in if can_skip part then later else take_part s (part ∷ work)

    -- `ZoneMapScanExec::next_batch`.
    unfoldable pub zone_map_next_batch :
        Scan Part Reader → Option (Outcome Batch) × Scan Part Reader
    zone_map_next_batch s =
        if is_empty s.readers then skip_parts s s.work else answer (read_batch s)
