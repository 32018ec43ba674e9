-- ===== src/Kernel/Range/Checks.antt =====
-- What the checks of blocks and pages accept, in each half of the address space.
use nikka.Common.{
  ℕ, ◌/◌, ◌^◌, ◌≤◌, ◌<◌, ◌≡◌, ◌∙◌, inl, false, not, ◌&&◌, ◌||◌, leb, if◌then◌else◌, bool_eq, arith,
  ok, err, permission_denied,
}
use nikka.Memory.Addr.{virt, half_size}
use nikka.Memory.Addr.Ranges.{IsAddr}
use nikka.Memory.Frage.{l0, bytes}
use nikka.Memory.Block.{Block, block, contains}
use nikka.Memory.Block.Valid.{IsValid, IsValid-from_index}
use nikka.Memory.Block.Contains.{
  is_disjoint_lem, contains_address_lem, reaches, spans, Apart, contains-contains_address,
}
use nikka.Kernel.Range.{
  page, user_pages, is_user_block, is_kernel_block, validate_block, validate_page_flags,
  validate_block_flags, is_user,
}

-- The first and the last page of the user are those of the second to the last entry of the lower
-- half.
abbrev pub user_start : ℕ
user_start = 2 ^ 32

abbrev pub user_end : ℕ
user_end = 2 ^ 35

abbrev pub user_block : Block
user_block = block user_start user_end

pub user_block-IsValid : IsValid page user_block
user_block-IsValid = omega arith

user_pages_lem : user_pages ≡ ok user_block
unfolding user_pages
user_pages_lem = ground (arith, IsValid-from_index page user_start user_end user_block-IsValid)

contains-user_block :
    (a : ℕ) → IsAddr virt a → contains page user_block a ≡ reaches page user_block a
contains-user_block a v =
    contains-contains_address page user_block a
    ∙ contains_address_lem page user_block a user_block-IsValid v

-- Of a valid block with a page, all in the lower half, `validate_block_flags` accepts those within the pages of the user
-- for flags with `USER`, and those before them for flags without it. It denies all others.
pub validate_block_flags-lower :
    (b : Block) (flags : ℕ)
    → IsValid page b
    → b.start < b.end
    → b.end ≤ user_end
    → validate_block_flags b flags ≡ (
        if (leb user_start b.start && is_user flags)
          || (leb b.end user_start && not (is_user flags))
        then ok tt
        else err permission_denied)
unfolding validate_block_flags is_kernel_block is_user_block
validate_block_flags-lower b flags v h p =
    ground (arith, user_pages_lem, is_disjoint_lem page user_block b user_block-IsValid v)

-- Every valid block with a page, and all of it in the higher half, is denied, as if it lay in both areas or in none,
-- although it shares no page with the user.
pub validate_block-higher :
    (b : Block)
    → IsValid page b
    → b.start < b.end
    → user_end ≤ b.start
    → (validate_block b ≡ err permission_denied) × Apart user_block b
unfolding validate_block is_kernel_block is_user_block
validate_block-higher b v h p =
    ground (arith, user_pages_lem, is_disjoint_lem page user_block b user_block-IsValid v)

-- Of a page in the lower half, `validate_page_flags` accepts the flags whose `USER` says whether the
-- page belongs to the user.
pub validate_page_flags-lower :
    (a flags : ℕ)
    → a < half_size
    → validate_page_flags a flags ≡ (
        if bool_eq (leb user_start (a / bytes l0)) (is_user flags)
        then ok tt
        else err permission_denied)
unfolding validate_page_flags
validate_page_flags-lower a flags h = ground (arith, user_pages_lem, contains-user_block a (inl h))

-- Of a page in the higher half, which is none of the user's, `validate_page_flags` accepts exactly
-- the flags with `USER`.
pub validate_page_flags-higher :
    (a flags : ℕ)
    → IsAddr virt a
    → half_size ≤ a
    → (validate_page_flags a flags ≡ (if is_user flags then ok tt else err permission_denied))
      × (spans page user_block a ≡ false)
unfolding validate_page_flags
validate_page_flags-higher a flags v h = ground (arith, user_pages_lem, contains-user_block a v)
