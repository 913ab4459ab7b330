-- ===== src/Execution/Aggregation/Groups.antt =====
-- tinyolap/src/execution/aggregation/hash_aggregate.rs and merge_aggregate.rs: the index of the group
-- of each row. The hash map is the list of its entries, and
-- the order in which its iterator gives them is a parameter.
pub mod Dense
pub mod Order
pub mod Tally
use tiny_olap.Base.{
  ℕ, zero, suc, ◌%◌, List, [], ◌∷◌, ◌++◌, bytes_eq, if◌then◌else◌, length, Option, none, some,
  replicate, ◌>>=◌, ok, panic,
}
use tiny_olap.Base.Words.{word_mod}
use tiny_olap.Execution.Batch.{Outcome}
use tiny_olap.Execution.Aggregation.{expect}
use tiny_olap.Execution.Aggregation.Slots.{modify}

-- The bytes of an `OwnedRow`.
abbrev pub Row : Type 0
Row = List ℕ

abbrev pub GroupMap : Type 0
GroupMap = List (Row × ℕ)

-- `raw_entry_mut().from_hash(…)`: the index of the entry with these bytes.
unfoldable pub find : Row → GroupMap → Option ℕ
find row [] = none
find row ((key, idx) ∷ m) = if bytes_eq key row then some idx else find row m

-- An occupied entry gives its index, a vacant one gets the next index.
unfoldable pub assign_entry : Option ℕ → Row → GroupMap → ℕ × GroupMap
assign_entry (some idx) row m = (idx, m)
assign_entry none row m =
    let next_idx = length m % word_mod 4 in (next_idx, m ++ ((row, next_idx) ∷ []))

unfoldable pub assign_row : Row → GroupMap → ℕ × GroupMap
assign_row row m = assign_entry (find row m) row m

-- The second pass over the rows of a batch: `group_indices`.
unfoldable pub assign_rows : List Row → GroupMap → List ℕ × GroupMap
assign_rows [] m = ([], m)
assign_rows (row ∷ rows) m =
    let first = assign_row row m in
    let rest = assign_rows rows first.1 in (first.0 ∷ rest.0, rest.1)

-- `for (k, &v) in … { ordered[v] = Some(k) }`.
unfoldable pub place_rows : GroupMap → List (Option Row) → Outcome (List (Option Row))
place_rows [] slots = ok slots
place_rows ((key, idx) ∷ m) slots =
    modify (λ _. some key) idx slots >>= λ slots'. place_rows m slots'

-- `opt.expect("group index gap — bug")`.
unfoldable pub expect_all : List (Option Row) → Outcome (List Row)
expect_all [] = ok []
expect_all (slot ∷ slots) = do row ← expect slot; rows ← expect_all slots; ok (row ∷ rows)

-- The keys in the order of their indices. `iterate` gives the entries in the order in which hashbrown's
-- iterator comes upon them, which is any order.
unfoldable pub ordered_rows : (GroupMap → GroupMap) → GroupMap → Outcome (List Row)
ordered_rows iterate m =
    place_rows (iterate m) (replicate (length m) none) >>= λ slots. expect_all slots
