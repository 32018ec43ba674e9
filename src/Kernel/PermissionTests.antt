-- ===== src/Kernel/PermissionTests.antt =====
-- The check of a block at concrete tables: every entry of every table leads to the same frame.
use nikka.Common.{ℕ, ◌+◌, ◌/◌, ◌^◌, ◌≤◌, ◌<◌, ◌≡◌, refl, true, arith, ok}
use nikka.Common.Bits.{leading_zeros, bit_length}
use nikka.Memory.Addr
use nikka.Memory.Addr.{virt, is_same_half, sub}
use nikka.Memory.Frage
use nikka.Memory.Block
use nikka.Memory.Block.{Block, block, addr, enclosing}
use nikka.Memory.Block.Pages.{covering}
use nikka.Memory.Mmu.{flags, is_present, is_huge, entry_phys, frame}
use nikka.Kernel.Range.{user_pages, is_user_block}
use nikka.Kernel.Mapping.{
  Tables, child_of, walk, all_present, validate_deepest, validate, path, get, get_deepest,
  translate,
}
use nikka.Kernel.AddressSpace.{check_permission_common, check_pages, check_page}
use nikka.Kernel.AddressSpace.Permission.{IsOpen, check_permission_lem}

-- The frame 4096, present, writable and for the user, and not executable.
abbrev one_frame : Tables
one_frame f i = 2 ^ 63 + 4096 + 7

abbrev ten_bytes : Block
ten_bytes = block (2 ^ 44 + 4090) (2 ^ 44 + 4100)

ten_bytes-check : check_permission_common one_frame 4096 ten_bytes 2 ≡ ok tt
unfolding check_permission_common check_pages check_page translate get get_deepest path validate
    validate_deepest all_present walk child_of flags is_present is_huge entry_phys frame user_pages
    is_user_block enclosing Block.from_index Block.address_by_index Frage.from_index
    Frage.address_by_index Frage.new Addr.new is_same_half sub leading_zeros bit_length
    Addr.page_table_index
ten_bytes-check = refl

check_permission_lem_example :
    (is_user_block (covering ten_bytes) ≡ ok true)
    × ((a : ℕ) → 2 ^ 44 + 4090 ≤ a → a < 2 ^ 44 + 4100 → IsOpen one_frame 4096 2 (a / 2 ^ 12))
check_permission_lem_example =
    check_permission_lem one_frame 4096 2 ten_bytes (ground arith) (ground arith) ten_bytes-check
