-- ===== src/Storage/ColumnReader/Rows.antt =====
-- The column writer from the first row to the last block.
use tiny_olap.Base.{
  ℕ, List, [], ◌∷◌, ◌++◌, ◌≡◌, refl, ap, sym, ◌∙◌, inl, inr, Bool, true, length, length-append,
  is_empty, flatten, append_assoc, append-nil, Bool-cases, ok, first_step, arith,
}
use tiny_olap.Encoding.Primitive.{Primitive}
use tiny_olap.Encoding.Codec.{Codec}
use tiny_olap.Storage.ColumnWriter.{
  granule_size, Writer, start, flush_block, push_row, end_of_row, write_rows, write_column,
}
use tiny_olap.Storage.ColumnReader.Granules.{open_granule, granules_of, cut-flatten}
use tiny_olap.Storage.ColumnReader.Layout.{Block, all_granules, layout_bin, marks_in, layout_marks}
use tiny_olap.Storage.ColumnReader.Written.{
  Stored, stored_block, push_row-Buffered, push_row-Stored,
}
use tiny_olap.Storage.ColumnReader.RowEnds.{
  no_granules, flush_block-Flushed, all_granules-stored_block, Progress, same_writer, ended,
}

module _ {T : Type 0} (prim : Primitive T) (lt : T → T → Bool) (compress : List ℕ → List ℕ)
    (codec : Codec) where
  pushed :
      (seen : List T) (v : T) (s s' : Writer T)
      → Progress prim lt compress codec seen s
      → end_of_row prim lt compress codec (push_row prim lt compress v s) ≡ ok s'
      → Progress prim lt compress codec (seen ++ (v ∷ [])) s'
  pushed seen v s s' at e =
      let rows : flatten (all_granules at.bs ++ at.gs) ++ (at.p ++ (v ∷ [])) ≡ seen ++ (v ∷ []) =
        sym (append_assoc (flatten (all_granules at.bs ++ at.gs)) at.p (v ∷ []))
        ∙ ap (λ t. t ++ (v ∷ [])) at.rows in
      rw (← rows) (
        ended prim lt compress codec at.bs at.gs (at.p ++ (v ∷ [])) (push_row prim lt compress v s)
          s' (push_row-Stored prim lt compress codec at.bs v s at.stored)
          (push_row-Buffered prim lt compress codec at.gs at.p v s at.buffered) at.full
          (omega (arith, length-append at.p (v ∷ [])))
          (omega (arith, length-append at.p (v ∷ []), at.short)) e)

  write_rows-Progress :
      (values seen : List T) (s s' : Writer T)
      → Progress prim lt compress codec seen s
      → write_rows prim lt compress codec values s ≡ ok s'
      → Progress prim lt compress codec (seen ++ values) s'
  unfolding write_rows
  write_rows-Progress [] seen s s' at e =
      let same : s ≡ s' = same_writer prim lt compress codec s s' refl e in
      rw (← same, append-nil seen) at
  write_rows-Progress (v ∷ values) seen s s' at e =
      let (s1, first, rest) =
        first_step (end_of_row prim lt compress codec (push_row prim lt compress v s))
          (λ s1. write_rows prim lt compress codec values s1) s' e in
      rw (← append_assoc seen (v ∷ []) values)
        (write_rows-Progress values (seen ++ (v ∷ [])) s1 s' (pushed seen v s s1 at first) rest)

  -- The blocks of a written column: its granules, none more and none less.
  pub record Column (values : List T) (s : Writer T) : Type 0 where
    pub bs : List (Block T)
    pub stored : Stored prim lt compress codec bs s
    pub granules : all_granules bs ≡ granules_of values

  start-Progress : Progress prim lt compress codec [] start
  unfolding start layout_bin layout_marks marks_in
  start-Progress = record {
    bs = [];
    gs = [];
    p = [];
    stored = record { blocks = tt; bin = refl; marks = refl; bin_bytes = refl };
    buffered = record { values = refl; marks = refl; rows = refl; block_rows = refl };
    full = tt;
    short = omega arith;
    rows = refl;
  }

  granules-Progress :
      (values : List T) (s : Writer T) (at : Progress prim lt compress codec values s)
      → all_granules at.bs ++ (at.gs ++ open_granule at.p) ≡ granules_of values
  unfolding granules_of
  granules-Progress values s at =
      let hs = all_granules at.bs ++ at.gs in
      sym (append_assoc (all_granules at.bs) at.gs (open_granule at.p))
      ∙ sym (
          cut-flatten granule_size (length (flatten hs ++ at.p)) hs at.p (omega arith) at.full
            at.short (omega arith))
      ∙ ap (λ vs. granules_of vs) at.rows

  unflushed :
      (s s' : Writer T)
      → is_empty s.block_values ≡ true
      → flush_block prim lt compress codec s ≡ ok s'
      → s ≡ s'
  unfolding flush_block
  unflushed s s' nothing e = same_writer prim lt compress codec s s' refl (rw nothing at e)

  pub write_column-Column :
      (values : List T) (s : Writer T)
      → write_column prim lt compress codec values ≡ ok s
      → Column values s
  unfolding write_column
  write_column-Column values s e =
      let (s1, written, flushed) =
        first_step (write_rows prim lt compress codec values start)
          (λ s1. flush_block prim lt compress codec s1) s e in
      let at = write_rows-Progress values [] start s1 start-Progress written in
      elim (Bool-cases (is_empty s1.block_values)) [
        | inl nothing ↦
            let same : s1 ≡ s = unflushed s1 s nothing flushed in
            let none_left =
              no_granules (all_granules at.bs) at.gs at.p at.full
                (rw (← at.buffered.values) nothing) in
            record {
              bs = at.bs;
              stored = rw (← same) at.stored;
              granules =
                  sym
                    (ap (λ t. all_granules at.bs ++ t) none_left ∙ append-nil (all_granules at.bs))
                  ∙ granules-Progress values s1 at;
            }
        | inr rows ↦
            let (encoded, is, done) =
              flush_block-Flushed prim lt compress codec at.bs at.gs at.p s1 s at.stored at.buffered
                rows flushed in
            record {
              bs =
                  at.bs
                  ++ (stored_block prim lt compress codec (at.gs ++ open_granule at.p) encoded
                      ∷ []);
              stored = done;
              granules =
                  all_granules-stored_block prim lt compress codec at.bs
                    (at.gs ++ open_granule at.p) encoded
                  ∙ granules-Progress values s1 at;
            }
      ]
