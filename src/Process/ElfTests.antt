-- ===== src/Process/ElfTests.antt =====
-- The theorems about the segments at a concrete program: two segments that share a page.
use nikka.Common.{ℕ, ◌+◌, ◌^◌, ◌<◌, ◌≤◌, ◌≡◌, refl, some, none, List, [], ◌∷◌, ok, true, arith}
use nikka.Memory.Addr.{virt}
use nikka.Memory.Block.{block, addr}
use nikka.Memory.Block.Valid.{IsValid, IsValid-from_index}
use nikka.Memory.Addr.Ranges.{new_lem}
use nikka.Memory.Addr.Arith.{add_lem}
use nikka.Process.Elf.{MemoryRange, range_of, Combined, combine}
use nikka.Process.Elf.Combine.{IsSegment, after_combine, combine_lem}
use nikka.Process.Elf.Flags.{Agrees, join, flags_at, put_if, combine-Agrees}
use nikka.Process.Elf.Header.{ProgramHeader, try_from, try_from_lem, flags_of_digits}
use nikka.Process.Elf.Loader.{FileRange, Loader}
use nikka.Process.Spaces.{Spaces}

abbrev code : MemoryRange
code = range_of 1 (block 65536 65546)

abbrev data_range : MemoryRange
data_range = range_of 3 (block 65546 75000)

code-IsSegment : IsSegment code
code-IsSegment = record { nonempty = omega arith; lower = omega arith }

data_range-IsSegment : IsSegment data_range
data_range-IsSegment = record { nonempty = omega arith; lower = omega arith }

code-Agrees : Agrees 4 none (some 1) none code 16
code-Agrees = record { inside = λ h. refl; outside = ground arith; beyond = ground arith }

combine-Agrees_example :
    (c : Combined) × (combine code data_range ≡ ok c)
    × Agrees 4 none
        (join (some 1) (flags_at data_range 16))
        (put_if 4 c.boundary (put_if 4 c.curr_minus_next none 16) 16)
        c.updated_next
        16
combine-Agrees_example =
    combine-Agrees 4 none (some 1) none code data_range 16 code-IsSegment data_range-IsSegment
      (omega arith) code-Agrees

combine_lem_example : combine code data_range ≡ ok (after_combine code data_range)
combine_lem_example = combine_lem code data_range code-IsSegment data_range-IsSegment (omega arith)

abbrev two_ranges : List FileRange
two_ranges =
    record { file_start = 0; file_end = 2; virt_range = code }
    ∷ record { file_start = 2; file_end = 3; virt_range = data_range }
    ∷ []

abbrev header : ProgramHeader
header = record {
  is_load = ok true;
  flags = 5;
  virtual_addr = 65536;
  mem_size = 10;
  file_size = 2;
  offset = 100;
}

abbrev header_range : FileRange
header_range = record {
  file_start = 100;
  file_end = 102;
  virt_range = range_of (1 + 2 ^ 63) (block 65536 65546);
}

header-try_from : try_from header ≡ ok header_range
unfolding try_from
header-try_from =
    rw
      (
        new_lem virt 65536 (omega arith),
        add_lem virt 65536 10 (ground arith),
        IsValid-from_index (addr virt) 65536 65546 (ground arith),
      )
      refl

try_from_lem_example :
    (flags_of_digits 0 1 ≡ ok (1 + 2 ^ 63))
    × IsValid (addr virt) (block 65536 65546)
    × (block 65536 65546 ≡ block 65536 65546)
    × (◌≡◌ {A = ℕ} 100 100)
    × (◌≡◌ {A = ℕ} 102 102)
    × (102 < 2 ^ 64)
    × (2 ≤ 10)
try_from_lem_example = try_from_lem header header_range (omega arith) header-try_from
