-- ===== src/Execution/WorkSource.antt =====
-- tinyolap/src/execution/work_source.rs: the parts that the workers take from one counter.
pub mod Once
use tiny_olap.Base.{ℕ, ◌+◌, ◌%◌, List, [], ◌∷◌, get_elem?, Option}
use tiny_olap.Base.Words.{word_mod}

pub record PartWorkSource (Part : Type 0) : Type 0 where
  pub parts : List Part
  pub next : ℕ

unfoldable pub new : {Part : Type 0} → List Part → PartWorkSource Part
new parts = record { parts = parts; next = 0 }

-- `fetch_add` on a usize of 64 bits wraps around.
unfoldable pub next_work : {Part : Type 0} → PartWorkSource Part → Option Part × PartWorkSource Part
next_work s =
    (get_elem? s.parts s.next, record { parts = s.parts; next = (s.next + 1) % word_mod 8 })
