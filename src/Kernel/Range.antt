-- ===== src/Kernel/Range.antt =====
-- kernel/src/memory/range.rs: which pages belong to the user and which to the kernel. The scan of the
-- boot loader's memory map and its log are left out.
pub mod Checks
use nikka.Common.{
  ℕ, ◌+◌, ◌*◌, ◌/◌, ◌%◌, ◌^◌, Bool, true, false, not, ◌&&◌, ◌==◌, if◌then◌else◌, bool_eq, Outcome,
  ok, err, permission_denied, ◌>>=◌, ◌>>◌, unwrap,
}
use nikka.Memory.Addr.{virt, page_table_entry_count}
use nikka.Memory.Frage.{l0}
use nikka.Memory.Block
use nikka.Memory.Block.{Memory, frage, Block, contains_block}

-- The type of a page, as a parameter of `Block`.
abbrev pub page : Memory
page = frage virt l0

abbrev pub kernel_root_level_entry_count : ℕ
kernel_root_level_entry_count = 32

abbrev pub lower_half_root_level_entry_count : ℕ
lower_half_root_level_entry_count = page_table_entry_count / 2

-- `PAGE_TABLE_ENTRY_COUNT.pow(PAGE_TABLE_ROOT_LEVEL)`
abbrev pub pages_per_root_level_entry : ℕ
pages_per_root_level_entry = page_table_entry_count ^ 3

-- The bounds of the range of entries of the root table.
abbrev pub user_root_level_entries : ℕ × ℕ
user_root_level_entries = (kernel_root_level_entry_count, lower_half_root_level_entry_count)

unfoldable pub user_pages : Outcome Block
user_pages = unwrap (
    Block.from_index page (user_root_level_entries.0 * pages_per_root_level_entry)
      (user_root_level_entries.1 * pages_per_root_level_entry))

unfoldable pub is_user_block : Block → Outcome Bool
is_user_block pages = do user ← user_pages; ok (contains_block user pages)

pub is_kernel_block : Block → Outcome Bool
unfolding is_user_block
is_kernel_block pages = do
  is_user ← is_user_block pages
  user ← user_pages
  ok (not is_user && Block.is_disjoint page user pages)

-- A page is the address of its first byte.
pub is_user_page : ℕ → Outcome Bool
is_user_page address = do user ← user_pages; ok (Block.contains page user address)

pub validate_block : Block → Outcome (Unit {0})
unfolding is_kernel_block is_user_block
validate_block pages = do
  in_kernel ← is_kernel_block pages
  in_user ← is_user_block pages
  if not (bool_eq in_kernel in_user) then ok tt else err permission_denied

-- `PageTableFlags::USER` is bit 2.
abbrev pub is_user : ℕ → Bool
is_user flags = flags / 2 ^ 2 % 2 == 1

pub validate_block_flags : Block → ℕ → Outcome (Unit {0})
unfolding validate_block
validate_block_flags pages flags = do
  validate_block pages
  in_user ← is_user_block pages
  if bool_eq in_user (is_user flags) then ok tt else err permission_denied

pub validate_page_flags : ℕ → ℕ → Outcome (Unit {0})
unfolding is_user_page
validate_page_flags address flags = do
  in_user ← is_user_page address
  if bool_eq in_user (is_user flags) then ok tt else err permission_denied
