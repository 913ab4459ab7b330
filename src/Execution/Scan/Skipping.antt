-- ===== src/Execution/Scan/Skipping.antt =====
-- The zone map scan is the full scan over the parts that cannot be skipped.
use tiny_olap.Base.{
  List, [], ◌∷◌, ◌≡◌, refl, sym, ap, is_empty, Option, some, if◌then◌else◌, Bool-cases, inl, inr,
  ok, err, panic, stuck,
}
use tiny_olap.Catalog.{ColumnSchema}
use tiny_olap.Physical.Plan.{PhysicalExpr}
use tiny_olap.Execution.Batch.{Batch, Outcome}
use tiny_olap.Execution.Scan.{
  Storage, Scan, read_arrays, finish_batch, read_batch, open_readers, start_part, with_work,
  take_part, full_next_batch, can_skip, skip_parts, zone_map_next_batch,
}

module _ {Part Reader : Type 0} (storage : Storage Part Reader) (columns : List ColumnSchema)
    (p : PhysicalExpr) where
  -- The parts that cannot be skipped.
  unfoldable pub remaining : List Part → List Part
  remaining [] = []
  remaining (part ∷ work) =
      let rest = remaining work in if can_skip storage columns p part then rest else part ∷ rest

  abbrev pub only_remaining : Scan Part Reader → Scan Part Reader
  only_remaining s = with_work storage columns s (remaining s.work)

  finish :
      (o : Outcome Batch) (rs : List Reader) (s : Scan Part Reader)
      → finish_batch storage columns o rs (only_remaining s) ≡ (
        (finish_batch storage columns o rs s).0,
        only_remaining (finish_batch storage columns o rs s).1,
      )
  unfolding finish_batch
  finish (ok b) rs s = refl
  finish (err e) rs s = refl
  finish panic rs s = refl
  finish stuck rs s = refl

  read :
      (s : Scan Part Reader)
      → read_batch storage columns (only_remaining s)
        ≡ ((read_batch storage columns s).0, only_remaining (read_batch storage columns s).1)
  unfolding read_batch
  read s =
      finish (read_arrays storage columns s.granule_idx columns s.readers).0
        (read_arrays storage columns s.granule_idx columns s.readers).1 s

  start :
      (o : Outcome (List Reader)) (s : Scan Part Reader)
      → start_part storage columns o (only_remaining s)
        ≡ ((start_part storage columns o s).0, only_remaining (start_part storage columns o s).1)
  unfolding start_part
  start (ok []) s = refl
  start (ok (r ∷ rs)) s = read (record {
    work = s.work;
    granule_idx = 0;
    granule_count = storage.granule_count r;
    readers = r ∷ rs;
  })
  start (err e) s = refl
  start panic s = refl
  start stuck s = refl

  -- What a call gives, with the parts that can be skipped taken out of what is left.
  abbrev pub trimmed :
      Option (Outcome Batch) × Scan Part Reader → Option (Outcome Batch) × Scan Part Reader
  trimmed r = (r.0, only_remaining r.1)

  trimmed-skip_parts :
      (s : Scan Part Reader) (work : List Part)
      → trimmed (skip_parts storage columns p s work) ≡ take_part storage columns s (remaining work)
  unfolding skip_parts take_part remaining
  trimmed-skip_parts s [] = refl
  trimmed-skip_parts s (part ∷ work) = elim (Bool-cases (can_skip storage columns p part)) [
    | inl e ↦ rw e (trimmed-skip_parts s work)
    | inr e ↦ rw e (
        ap (λ r. (some r.0, r.1))
          (sym
            (start (open_readers storage columns part columns) (with_work storage columns s work))))
  ]

  -- The call looks at the work that it is given, not at that of the state.
  take_part_work :
      (s : Scan Part Reader) (work : List Part)
      → take_part storage columns (only_remaining s) work ≡ take_part storage columns s work
  unfolding take_part
  take_part_work s [] = refl
  take_part_work s (part ∷ work) = refl

  -- A call of the zone map scan gives what a call of the full scan gives when the parts that can be
  -- skipped are taken out of the work first, and it leaves the same state but for such parts.
  pub trimmed-zone_map_next_batch :
      (s : Scan Part Reader)
      → trimmed (zone_map_next_batch storage columns p s)
        ≡ full_next_batch storage columns (only_remaining s)
  unfolding zone_map_next_batch full_next_batch
  trimmed-zone_map_next_batch s = elim (Bool-cases (is_empty s.readers)) [
    | inl e ↦ rw (e, take_part_work s (remaining s.work)) (trimmed-skip_parts s s.work)
    | inr e ↦ rw e (ap (λ r. (some r.0, r.1)) (sym (read s)))
  ]
