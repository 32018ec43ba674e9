-- ===== src/Memory/Block/Contains.antt =====
-- Membership of addresses, and disjointness, against the bounds of the blocks.
use nikka.Common.{
  ℕ, ◌*◌, ◌≤◌, ◌<◌, ◌≡◌, ◌↔◌, ◌⊎◌, Bool, true, false, not, ◌&&◌, ◌||◌, arith, ltb, leb, refl, ◌==◌,
}
use nikka.Memory.Addr.{phys, virt, half_size}
use nikka.Memory.Addr.Ranges.{IsAddr}
use nikka.Memory.Frage.{l0, bytes}
use nikka.Memory.Block.{
  Memory, addr, frage, tag_of, size_of, Block, contains, contains_address, is_disjoint, is_empty,
}
use nikka.Memory.Block.Valid.{IsValid, address_by_index_lem}

-- The block ends where the lower half of the virtual space does: at a number that is no address.
abbrev pub ends_at_gap : Memory → Block → Bool
ends_at_gap (addr phys) b = false
ends_at_gap (frage phys size) b = false
ends_at_gap memory b = b.end * size_of memory == half_size

-- The addresses from the start of the block to its end, its bytes.
abbrev pub spans : Memory → Block → ℕ → Bool
spans memory b a = leb (b.start * size_of memory) a && ltb a (b.end * size_of memory)

-- `contains_address` of a valid block: the address is one of its bytes, or the block ends at the gap
-- between the halves and the address lies anywhere above the start of the block.
pub contains_address_lem :
    (memory : Memory) (b : Block) (a : ℕ)
    → IsValid memory b
    → IsAddr (tag_of memory) a
    → contains_address memory b a
      ≡ (spans memory b a || (leb (b.start * size_of memory) a && ends_at_gap memory b))
unfolding contains_address
contains_address_lem (addr phys) b a v w =
    ground (arith, address_by_index_lem (addr phys) b.end (omega arith))
contains_address_lem (frage phys l0) b a v w =
    ground (arith, address_by_index_lem (frage phys l0) b.end (omega arith))
contains_address_lem (frage virt l0) b a v w =
    ground (arith, address_by_index_lem (frage virt l0) b.end (omega arith))
contains_address_lem memory b a v w =
    ground (arith, address_by_index_lem memory b.end (omega arith))

-- Of a valid block that does not end at the gap, `contains_address` accepts exactly the bytes.
pub contains_address_iff :
    (memory : Memory) (b : Block) (a : ℕ)
    → IsValid memory b
    → IsAddr (tag_of memory) a
    → ends_at_gap memory b ≡ false
    → (contains_address memory b a ≡ true)
      ↔ ((b.start * size_of memory ≤ a) × (a < b.end * size_of memory))
contains_address_iff memory b a v w g = (
  λ e. ground (arith, contains_address_lem memory b a v w),
  λ e. ground (arith, contains_address_lem memory b a v w),
)

-- A valid block that ends at the gap contains, by `contains_address`, every address of the other
-- half, although none of these is one of its bytes.
pub contains_address-other_half :
    (memory : Memory) (b : Block) (a : ℕ)
    → IsValid memory b
    → IsAddr (tag_of memory) a
    → ends_at_gap memory b ≡ true
    → half_size ≤ a
    → (contains_address memory b a ≡ true) × (spans memory b a ≡ false)
contains_address-other_half (addr phys) b a v w g h = cc
contains_address-other_half (addr virt) b a v w g h =
    ground (arith, contains_address_lem (addr virt) b a v w)
contains_address-other_half (frage phys size) b a v w g h = cc
contains_address-other_half (frage virt size) b a v w g h =
    ground (arith, contains_address_lem (frage virt size) b a v w)

pub contains-contains_address :
    (memory : Memory) (b : Block) (a : ℕ) → contains memory b a ≡ contains_address memory b a
unfolding contains
contains-contains_address memory b a = refl

-- What `contains_address` computes of a valid block.
abbrev pub reaches : Memory → Block → ℕ → Bool
reaches memory b a = spans memory b a || (leb (b.start * size_of memory) a && ends_at_gap memory b)

pub is_disjoint_lem :
    (memory : Memory) (b c : Block)
    → IsValid memory b
    → IsValid memory c
    → is_disjoint memory b c ≡ (
        is_empty b
        || is_empty c
        || (not (reaches memory b (c.start * size_of memory))
            && not (reaches memory c (b.start * size_of memory))))
unfolding is_disjoint
is_disjoint_lem memory b c v w =
    rw (contains_address_lem memory b (c.start * size_of memory) v w.starts)
      (rw (contains_address_lem memory c (b.start * size_of memory) w v.starts) refl)

-- Two blocks share no element.
abbrev pub Apart : Block → Block → Type 0
Apart b c = (b.end ≤ b.start) ⊎ (c.end ≤ c.start) ⊎ (b.end ≤ c.start) ⊎ (c.end ≤ b.start)

is_disjoint→Apart :
    (memory : Memory) (b c : Block)
    → IsValid memory b
    → IsValid memory c
    → is_disjoint memory b c ≡ true
    → Apart b c
unfolding is_disjoint
is_disjoint→Apart (addr phys) b c v w e = ground (
  arith,
  contains_address_lem (addr phys) b (c.start * 1) v w.starts,
  contains_address_lem (addr phys) c (b.start * 1) w v.starts,
)
is_disjoint→Apart (frage phys l0) b c v w e = ground (
  arith,
  contains_address_lem (frage phys l0) b (c.start * bytes l0) v w.starts,
  contains_address_lem (frage phys l0) c (b.start * bytes l0) w v.starts,
)
is_disjoint→Apart (frage virt l0) b c v w e = ground (
  arith,
  contains_address_lem (frage virt l0) b (c.start * bytes l0) v w.starts,
  contains_address_lem (frage virt l0) c (b.start * bytes l0) w v.starts,
)
is_disjoint→Apart memory b c v w e = ground (
  arith,
  contains_address_lem memory b (c.start * size_of memory) v w.starts,
  contains_address_lem memory c (b.start * size_of memory) w v.starts,
)

Apart→is_disjoint :
    (memory : Memory) (b c : Block)
    → IsValid memory b
    → IsValid memory c
    → ends_at_gap memory b ≡ false
    → ends_at_gap memory c ≡ false
    → Apart b c
    → is_disjoint memory b c ≡ true
unfolding is_disjoint
Apart→is_disjoint (addr phys) b c v w g h e = ground (
  arith,
  contains_address_lem (addr phys) b (c.start * 1) v w.starts,
  contains_address_lem (addr phys) c (b.start * 1) w v.starts,
)
Apart→is_disjoint (frage phys l0) b c v w g h e = ground (
  arith,
  contains_address_lem (frage phys l0) b (c.start * bytes l0) v w.starts,
  contains_address_lem (frage phys l0) c (b.start * bytes l0) w v.starts,
)
Apart→is_disjoint (frage virt l0) b c v w g h e = ground (
  arith,
  contains_address_lem (frage virt l0) b (c.start * bytes l0) v w.starts,
  contains_address_lem (frage virt l0) c (b.start * bytes l0) w v.starts,
)
Apart→is_disjoint memory b c v w g h e = ground (
  arith,
  contains_address_lem memory b (c.start * size_of memory) v w.starts,
  contains_address_lem memory c (b.start * size_of memory) w v.starts,
)

-- Of valid blocks, `is_disjoint` accepts only pairs with no element in common. It accepts every such
-- pair if neither of the blocks ends at the gap.
pub is_disjoint-Apart :
    (memory : Memory) (b c : Block)
    → IsValid memory b
    → IsValid memory c
    → (is_disjoint memory b c ≡ true → Apart b c)
      × (ends_at_gap memory b ≡ false
          → ends_at_gap memory c ≡ false
          → Apart b c
          → is_disjoint memory b c ≡ true)
is_disjoint-Apart memory b c v w =
    (is_disjoint→Apart memory b c v w, Apart→is_disjoint memory b c v w)
