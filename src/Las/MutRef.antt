-- ===== src/Las/MutRef.antt =====
-- src/las.rs: `LogicalMutRef`, a part of a page that is still to be handed out. Its bytes are named
-- by where they stand: `region` is the memory behind `data`, as the slice that translates to it.
pub mod Pieces
use librarius.Prelude.{ℕ, Option, none, some, ltb, min, if◌then◌else◌}
use librarius.Usize.{wrapping_add, wrapping_sub}
use librarius.Error.{Result, ok, panic}
use librarius.Las.Slice.{LogicalSlice, new_slice, split_at}

pub record LogicalMutRef : Type 0 where
  pub region : LogicalSlice
  pub slice : LogicalSlice

-- `try_consume_bytes`: the bytes that are handed out, with their slice and their memory, and what
-- is left. `split_at_mut` panics past the end of the memory.
unfoldable pub try_consume_bytes :
    LogicalMutRef → ℕ → ℕ → Result (Option (LogicalSlice × LogicalSlice) × LogicalMutRef)
unfolding split_at
try_consume_bytes mref size least =
    let len = min mref.slice.len size in
    if ltb len least
    then ok (none, mref)
    else if ltb mref.region.len len
    then panic
    else ok (
      some (new_slice mref.slice.offset len, (split_at mref.region len).0),
      record {
        region = (split_at mref.region len).1;
        slice = new_slice (wrapping_add mref.slice.offset len) (wrapping_sub mref.slice.len len);
      },
    )
