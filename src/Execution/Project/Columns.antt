-- ===== src/Execution/Project/Columns.antt =====
-- A projection of column names gives the columns of these names, in the order of the names.
use tiny_olap.Base.{
  ℕ, List, [], ◌∷◌, map, ◌≡◌, refl, ◌⊎◌, inl, inr, Bool-cases, bytes_eq, some, get_elem?, ok, err,
  ◌>>=◌,
}
use tiny_olap.Catalog.{Name}
use tiny_olap.Physical.Plan.{column_ref}
use tiny_olap.Execution.Batch.{Cells, Batch, ExecutionError, Outcome, arrow_error, column_named}
use tiny_olap.Execution.Project.{projection_index, projection_indices, pull, next_batch}

-- The columns of the names, up to the first name that is missing.
unfoldable pub columns_named : List Name → Batch → Outcome Batch
columns_named [] batch = ok []
columns_named (name ∷ names) batch = do
  cells ← column_named name batch
  rest ← columns_named names batch
  ok ((name, cells) ∷ rest)

-- The columns at the indices.
unfoldable pub Picked : Batch → List ℕ → Batch → Type 0
Picked batch [] [] = Unit
Picked batch [] (col ∷ cols) = ⊥
Picked batch (i ∷ is) [] = ⊥
Picked batch (i ∷ is) (col ∷ cols) = (get_elem? batch i ≡ some col) × Picked batch is cols

-- What arrow documents: `index_of` finds the first column of the name, or is an error, and `project`
-- takes the columns at the indices.
pub record IsProject (index_of : Batch → Name → Outcome ℕ)
    (project : Batch → List ℕ → Outcome Batch) : Type 0 where
  pub found :
      (b : Batch) (name : Name) (cells : Cells)
      → column_named name b ≡ ok cells
      → (i : ℕ) × (index_of b name ≡ ok i) × (get_elem? b i ≡ some (name, cells))
  pub missing :
      (b : Batch) (name : Name) (e : ExecutionError)
      → column_named name b ≡ err e
      → index_of b name ≡ err e
  pub picked : (b : Batch) (is : List ℕ) (cols : Batch) → Picked b is cols → project b is ≡ ok cols

column_named_cases :
    (name : Name) (b : Batch)
    → ((cells : Cells) × (column_named name b ≡ ok cells)) ⊎ (column_named name b ≡ err arrow_error)
unfolding column_named
column_named_cases name [] = inr refl
column_named_cases name ((n, cells) ∷ rest) = elim (Bool-cases (bytes_eq n name)) [
  | inl same ↦ inl (cells, rw same refl)
  | inr other ↦ rw other (column_named_cases name rest)
]

module _ (index_of : Batch → Name → Outcome ℕ) (project : Batch → List ℕ → Outcome Batch)
    (laws : IsProject index_of project) where
  indices_cases :
      (b : Batch) (names : List Name)
      → ((is : List ℕ) × (cols : Batch) × (projection_indices index_of project b
              (map (λ n. column_ref n) names)
            ≡ ok is)
          × (columns_named names b ≡ ok cols)
          × Picked b is cols)
        ⊎ ((projection_indices index_of project b (map (λ n. column_ref n) names) ≡ err arrow_error)
            × (columns_named names b ≡ err arrow_error))
  unfolding projection_indices projection_index columns_named Picked
  indices_cases b [] = inl ([], [], refl, refl, tt)
  indices_cases b (name ∷ names) = elim (column_named_cases name b) [
    | inr absent ↦ inr (rw (laws.missing b name arrow_error absent) refl, rw absent refl)
    | inl (cells, present) ↦
        let (i, e, col) = laws.found b name cells present in
        elim (indices_cases b names) [
          | inl (is, cols, es, named, all) ↦
              inl (
                i ∷ is,
                (name, cells) ∷ cols,
                rw (e, es) refl,
                rw (present, named) refl,
                (col, all),
              )
          | inr (es, named) ↦ inr (rw (e, es) refl, rw (present, named) refl)
        ]
  ]

  -- A projection of column names answers every batch with the columns of these names, in the order
  -- of the names, or with arrow's error when one is missing; the rest of the child is untouched.
  pub next_batch-columns_named :
      (names : List Name) (b : Batch) (rest : List (Outcome Batch))
      → next_batch index_of project
          (record { projections = map (λ n. column_ref n) names; child = ok b ∷ rest })
        ≡ (
          some (columns_named names b),
          record { projections = map (λ n. column_ref n) names; child = rest },
        )
  unfolding next_batch pull
  next_batch-columns_named names b rest = elim (indices_cases b names) [
    | inl (is, cols, es, named, all) ↦ rw (es, named, laws.picked b is cols all) refl
    | inr (es, named) ↦ rw (es, named) refl
  ]
