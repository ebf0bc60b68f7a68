-- ===== src/Tests/Arithmetic.antt =====
-- The theorems on words, headers and rounding at concrete values.
use librarius.Prelude.{◌+◌, ◌%◌, ◌^◌, ◌≤◌, ◌<◌, ◌≡◌, true, [], ◌∷◌, ◌++◌, arith}
use librarius.Utils.{align_up}
use librarius.Utils.Align.{align_up_bounds}
use librarius.Source.Header.{header_bytes, header_from_slice, new_header, is_valid}
use librarius.Source.Header.RoundTrip.{new_header-is_valid}
use librarius.Las.Slice.{new_slice, block, raw}
use librarius.Vos.Pointer.{into_stored_slice, new_from_stored}
use librarius.Vos.Pointer.Words.{into_stored_slice-new_from_stored}

align_up_bounds_example :
    (align_up 130 (2 ^ 7) % 2 ^ 7 ≡ 0)
    × (130 ≤ align_up 130 (2 ^ 7))
    × (align_up 130 (2 ^ 7) < 130 + 2 ^ 7)
align_up_bounds_example = align_up_bounds 7 130 (omega arith) (omega arith)

new_header-is_valid_example :
    let h = header_from_slice (header_bytes (new_header (λ _. 7) 128) ++ (0 ∷ [])) in
    (is_valid (λ _. 7) h ≡ true) × (h.header.pagesize ≡ 128)
new_header-is_valid_example =
    new_header-is_valid (λ _. 7) 128 (0 ∷ []) (λ bytes. omega arith) (omega arith)

into_stored_slice-new_from_stored_example :
    into_stored_slice (new_from_stored (block (new_slice 4224 64))) 64 ≡ block (new_slice 4224 64)
unfolding raw
into_stored_slice-new_from_stored_example =
    into_stored_slice-new_from_stored (block (new_slice 4224 64)) (omega arith)
