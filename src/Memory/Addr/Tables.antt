-- ===== src/Memory/Addr/Tables.antt =====
-- An address and its indexes in the page tables.
use nikka.Common.{
  ℕ, ◌+◌, ◌-◌, ◌*◌, ◌%◌, ◌^◌, ◌<◌, ◌≡◌, sym, ◌∙◌, [], ◌∷◌, arith, ltb, if◌then◌else◌, ok,
}
use Prim.Native.Nat.{bit_or}
use native.Mathlib.Nat.{mod-eq_of_lt}
use nikka.Common.Bits.{bit_or-shl, bit_or_comm, zero-bit_or}
use nikka.Memory.Addr.{
  virt, half_size, negative_sign_extend, canonize, page_table_index, all_indexes, join_indexes,
  from_page_table_indexes, page_table_entry_count,
}
use nikka.Memory.Addr.Ranges.{IsAddr}

-- `canonize` copies bit 47 into the bits above it.
pub canonize_lem :
    (a : ℕ) → a < 2 ^ 48 → canonize a ≡ (if ltb a half_size then a else a + negative_sign_extend)
unfolding canonize
canonize_lem a h = ground (arith, bit_or_comm a negative_sign_extend, bit_or-shl 48 (2 ^ 16 - 1) a)

shift_in :
    (a k i : ℕ) → a * 2 ^ k < 2 ^ 64 → i < 2 ^ k → bit_or (a * 2 ^ k % 2 ^ 64) i ≡ a * 2 ^ k + i
shift_in a k i h p = rw (mod-eq_of_lt h) (bit_or-shl k a i p)

-- The number that the indexes and the offset spell.
abbrev pub spelled : ℕ → ℕ → ℕ → ℕ → ℕ → ℕ
spelled i0 i1 i2 i3 offset = (((i3 * 2 ^ 9 + i2) * 2 ^ 9 + i1) * 2 ^ 9 + i0) * 2 ^ 12 + offset

module _ (i0 i1 i2 i3 offset : ℕ) (p0 : i0 < page_table_entry_count)
    (p1 : i1 < page_table_entry_count) (p2 : i2 < page_table_entry_count)
    (p3 : i3 < page_table_entry_count) (p : offset < 2 ^ 12) where
  from-spelled :
      from_page_table_indexes (i0 ∷ i1 ∷ i2 ∷ i3 ∷ []) offset
      ≡ ok (canonize (spelled i0 i1 i2 i3 offset))
  unfolding from_page_table_indexes all_indexes join_indexes
  from-spelled = ground (
    arith,
    zero-bit_or i3,
    shift_in i3 9 i2 (omega arith) p2,
    shift_in (i3 * 2 ^ 9 + i2) 9 i1 (omega arith) p1,
    shift_in ((i3 * 2 ^ 9 + i2) * 2 ^ 9 + i1) 9 i0 (omega arith) p0,
    shift_in (((i3 * 2 ^ 9 + i2) * 2 ^ 9 + i1) * 2 ^ 9 + i0) 12 offset (omega arith) p,
  )

  -- An address that is put together from indexes and an offset within their bounds is a virtual
  -- address, and gives back at each level its index, and the offset.
  pub page_table_index-from_page_table_indexes :
      (a : ℕ)
      → from_page_table_indexes (i0 ∷ i1 ∷ i2 ∷ i3 ∷ []) offset ≡ ok a
      → IsAddr virt a
        × (page_table_index a 0 ≡ ok i0)
        × (page_table_index a 1 ≡ ok i1)
        × (page_table_index a 2 ≡ ok i2)
        × (page_table_index a 3 ≡ ok i3)
        × (a % 2 ^ 12 ≡ offset)
  unfolding page_table_index
  page_table_index-from_page_table_indexes a e =
      let s : ok a ≡ ok (canonize (spelled i0 i1 i2 i3 offset)) = sym e ∙ from-spelled in
      ground (arith, s, canonize_lem (spelled i0 i1 i2 i3 offset) (omega arith))

-- An address is put together again from its own indexes and offset.
pub from_page_table_indexes-page_table_index :
    (a i0 i1 i2 i3 : ℕ)
    → IsAddr virt a
    → page_table_index a 0 ≡ ok i0
    → page_table_index a 1 ≡ ok i1
    → page_table_index a 2 ≡ ok i2
    → page_table_index a 3 ≡ ok i3
    → from_page_table_indexes (i0 ∷ i1 ∷ i2 ∷ i3 ∷ []) (a % 2 ^ 12) ≡ ok a
unfolding page_table_index
from_page_table_indexes-page_table_index a i0 i1 i2 i3 v e0 e1 e2 e3 = ground (
  arith,
  from-spelled i0 i1 i2 i3 (a % 2 ^ 12) (ground arith) (ground arith) (ground arith) (ground arith)
      (omega arith),
  canonize_lem (spelled i0 i1 i2 i3 (a % 2 ^ 12)) (ground arith),
)
