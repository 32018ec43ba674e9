-- ===== src/Memory/Tests.antt =====
-- The theorems about addresses, frages and blocks at concrete arguments.
use nikka.Common.{
  ℕ, ◌-◌, ◌%◌, ◌^◌, ◌≡◌, ◌↔◌, inl, inr, refl, true, false, ◌&&◌, some, [], ◌∷◌, arith, ok, panic,
}
use nikka.Memory.Addr.{virt, half_size, page_table_index, from_page_table_indexes}
use nikka.Memory.Addr.Ranges.{IsAddr}
use nikka.Memory.Addr.Tables.{
  page_table_index-from_page_table_indexes, from_page_table_indexes-page_table_index,
}
use nikka.Memory.Frage.{l0, l1, forward_checked, backward_checked}
use nikka.Memory.Frage.Steps.{backward_checked-forward_checked}
use nikka.Memory.Block.{
  addr, frage, Block, block, contains_address, intersection, contains_index, enclosing,
}
use nikka.Memory.Block.Valid.{IsValid}
use nikka.Memory.Block.Contains.{spans, contains_address-other_half}
use nikka.Memory.Block.Parts.{intersection_lem}
use nikka.Memory.Block.Pages.{enclosing-panic}

-- The last byte of the lower half, and the first of the higher.
abbrev low_last : ℕ
low_last = half_size - 1

abbrev high_first : ℕ
high_first = 2 ^ 64 - half_size

made_address : from_page_table_indexes (1 ∷ 1 ∷ 0 ∷ 256 ∷ []) 3 ≡ ok 0xffff800000201003
unfolding page_table_index
made_address =
    from_page_table_indexes-page_table_index 0xffff800000201003 1 1 0 256
      (inr (omega arith, omega arith)) refl refl refl refl

page_table_index-from_page_table_indexes_example :
    IsAddr virt 0xffff800000201003
    × (page_table_index 0xffff800000201003 0 ≡ ok 1)
    × (page_table_index 0xffff800000201003 1 ≡ ok 1)
    × (page_table_index 0xffff800000201003 2 ≡ ok 0)
    × (page_table_index 0xffff800000201003 3 ≡ ok 256)
    × (0xffff800000201003 % 2 ^ 12 ≡ 3)
page_table_index-from_page_table_indexes_example =
    page_table_index-from_page_table_indexes 1 1 0 256 3 (omega arith) (omega arith) (omega arith)
      (omega arith) (omega arith) 0xffff800000201003 made_address

backward_checked-forward_checked_example :
    (backward_checked l1 0xffff800000000000 1 ≡ ok (some 0x7fffffe00000))
    ↔ (forward_checked l1 0x7fffffe00000 1 ≡ ok (some 0xffff800000000000))
backward_checked-forward_checked_example =
    backward_checked-forward_checked l1 0x7fffffe00000 0xffff800000000000 1
      (inl (omega arith), refl) (inr (omega arith, omega arith), refl)

pages-IsValid : IsValid (frage virt l0) (block 3 9)
pages-IsValid = grind arith

more_pages-IsValid : IsValid (frage virt l0) (block 7 20)
more_pages-IsValid = grind arith

next_pages-IsValid : IsValid (frage virt l0) (block 9 20)
next_pages-IsValid = grind arith

bytes-IsValid : IsValid (addr virt) (block 5 9000)
bytes-IsValid = grind arith

lower_half-IsValid : IsValid (addr virt) (block 0 half_size)
lower_half-IsValid = grind arith

contains_address-other_half_example :
    (contains_address (addr virt) (block 0 half_size) high_first ≡ true)
    × (spans (addr virt) (block 0 half_size) high_first ≡ false)
contains_address-other_half_example =
    contains_address-other_half (addr virt) (block 0 half_size) high_first lower_half-IsValid
      (inr (omega arith, omega arith)) refl (omega arith)

intersection_lem_example :
    (d : Block) × (intersection (frage virt l0) (block 3 9) (block 7 20) ≡ ok d)
    × IsValid (frage virt l0) d
    × ((i : ℕ)
        → contains_index d i ≡ (contains_index (block 3 9) i && contains_index (block 7 20) i))
intersection_lem_example =
    intersection_lem (frage virt l0) (block 3 9) (block 7 20) pages-IsValid more_pages-IsValid

enclosing-panic_example : enclosing virt (block 0 half_size) ≡ panic
enclosing-panic_example =
    enclosing-panic virt (block 0 half_size) lower_half-IsValid (omega arith) refl
