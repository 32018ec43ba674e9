-- ===== src/Memory/Block/Valid.antt =====
-- Which pairs of numbers are blocks.
use nikka.Common.{ℕ, ◌-◌, ◌*◌, ◌^◌, ◌≤◌, ◌<◌, ◌≡◌, ◌↔◌, ◌≢◌, sym, subst, arith, ok, panic}
use nikka.Memory.Addr.{phys, virt}
use nikka.Memory.Addr.Ranges.{IsAddr, new_lem, is_same_half_lem}
use nikka.Memory.Addr.Arith.{half_end}
use nikka.Memory.Frage.{l0, bytes}
use nikka.Memory.Frage.Index.{by_index}
use nikka.Memory.Frage.Index
use nikka.Memory.Block.{
  Memory, addr, frage, tag_of, size_of, Block, block, address_by_index, from_index,
}

-- A block starts at an address, and ends in the half of that address, at its end at the latest.
pub record IsValid (memory : Memory) (b : Block) : Type 0 where
  pub ordered : b.start ≤ b.end
  pub starts : IsAddr (tag_of memory) (b.start * size_of memory)
  pub ends : b.end * size_of memory ≤ half_end (tag_of memory) (b.start * size_of memory)
  pub fits : b.end < 2 ^ 64

pub address_by_index_lem :
    (memory : Memory) (i : ℕ)
    → i < 2 ^ 64
    → address_by_index memory i ≡ by_index (tag_of memory) (size_of memory) i
unfolding address_by_index
address_by_index_lem (addr phys) i h = ground (arith, new_lem phys i)
address_by_index_lem (addr virt) i h = ground (arith, new_lem virt i)
address_by_index_lem (frage tag size) i h = Index.address_by_index_lem tag size i

from_index-IsValid :
    (memory : Memory) (start end : ℕ) (b : Block)
    → start < 2 ^ 64
    → end < 2 ^ 64
    → from_index memory start end ≡ ok b
    → (b ≡ block start end) × IsValid memory b
unfolding from_index
from_index-IsValid (addr phys) start end b p q e = ground (
  arith,
  address_by_index_lem (addr phys) start p,
  address_by_index_lem (addr phys) (end - 1),
  address_by_index_lem (addr phys) end q,
  is_same_half_lem phys (start * 1) ((end - 1) * 1),
  is_same_half_lem phys (start * 1) (end * 1),
)
from_index-IsValid (frage phys l0) start end b p q e = ground (
  arith,
  address_by_index_lem (frage phys l0) start p,
  address_by_index_lem (frage phys l0) (end - 1),
  address_by_index_lem (frage phys l0) end q,
  is_same_half_lem phys (start * bytes l0) ((end - 1) * bytes l0),
  is_same_half_lem phys (start * bytes l0) (end * bytes l0),
)
from_index-IsValid (frage virt l0) start end b p q e = ground (
  arith,
  address_by_index_lem (frage virt l0) start p,
  address_by_index_lem (frage virt l0) (end - 1),
  address_by_index_lem (frage virt l0) end q,
  is_same_half_lem virt (start * bytes l0) ((end - 1) * bytes l0),
  is_same_half_lem virt (start * bytes l0) (end * bytes l0),
)
from_index-IsValid memory start end b p q e = ground (
  arith,
  address_by_index_lem memory start p,
  address_by_index_lem memory (end - 1),
  address_by_index_lem memory end q,
  is_same_half_lem (tag_of memory) (start * size_of memory) ((end - 1) * size_of memory),
  is_same_half_lem (tag_of memory) (start * size_of memory) (end * size_of memory),
)

pub IsValid-from_index :
    (memory : Memory) (start end : ℕ)
    → IsValid memory (block start end)
    → from_index memory start end ≡ ok (block start end)
unfolding from_index
IsValid-from_index (addr phys) start end v =
    let p : start < 2 ^ 64 = omega arith in
    let q : end < 2 ^ 64 = omega arith in
    ground (
      arith,
      address_by_index_lem (addr phys) start p,
      address_by_index_lem (addr phys) (end - 1),
      address_by_index_lem (addr phys) end q,
      is_same_half_lem phys (start * 1) ((end - 1) * 1),
      is_same_half_lem phys (start * 1) (end * 1),
    )
IsValid-from_index (frage phys l0) start end v =
    let p : start < 2 ^ 64 = omega arith in
    let q : end < 2 ^ 64 = omega arith in
    ground (
      arith,
      address_by_index_lem (frage phys l0) start p,
      address_by_index_lem (frage phys l0) (end - 1),
      address_by_index_lem (frage phys l0) end q,
      is_same_half_lem phys (start * bytes l0) ((end - 1) * bytes l0),
      is_same_half_lem phys (start * bytes l0) (end * bytes l0),
    )
IsValid-from_index (frage virt l0) start end v =
    let p : start < 2 ^ 64 = omega arith in
    let q : end < 2 ^ 64 = omega arith in
    ground (
      arith,
      address_by_index_lem (frage virt l0) start p,
      address_by_index_lem (frage virt l0) (end - 1),
      address_by_index_lem (frage virt l0) end q,
      is_same_half_lem virt (start * bytes l0) ((end - 1) * bytes l0),
      is_same_half_lem virt (start * bytes l0) (end * bytes l0),
    )
IsValid-from_index memory start end v =
    let p : start < 2 ^ 64 = omega arith in
    let q : end < 2 ^ 64 = omega arith in
    ground (
      arith,
      address_by_index_lem memory start p,
      address_by_index_lem memory (end - 1),
      address_by_index_lem memory end q,
      is_same_half_lem (tag_of memory) (start * size_of memory) ((end - 1) * size_of memory),
      is_same_half_lem (tag_of memory) (start * size_of memory) (end * size_of memory),
    )

from_index-ne-panic :
    (memory : Memory) (start end : ℕ)
    → start < 2 ^ 64
    → end < 2 ^ 64
    → from_index memory start end ≢ panic
unfolding from_index
from_index-ne-panic (addr phys) start end p q = ground (
  arith,
  address_by_index_lem (addr phys) start p,
  address_by_index_lem (addr phys) (end - 1),
  address_by_index_lem (addr phys) end q,
  is_same_half_lem phys (start * 1) ((end - 1) * 1),
  is_same_half_lem phys (start * 1) (end * 1),
)
from_index-ne-panic (frage phys l0) start end p q = ground (
  arith,
  address_by_index_lem (frage phys l0) start p,
  address_by_index_lem (frage phys l0) (end - 1),
  address_by_index_lem (frage phys l0) end q,
  is_same_half_lem phys (start * bytes l0) ((end - 1) * bytes l0),
  is_same_half_lem phys (start * bytes l0) (end * bytes l0),
)
from_index-ne-panic (frage virt l0) start end p q = ground (
  arith,
  address_by_index_lem (frage virt l0) start p,
  address_by_index_lem (frage virt l0) (end - 1),
  address_by_index_lem (frage virt l0) end q,
  is_same_half_lem virt (start * bytes l0) ((end - 1) * bytes l0),
  is_same_half_lem virt (start * bytes l0) (end * bytes l0),
)
from_index-ne-panic memory start end p q = ground (
  arith,
  address_by_index_lem memory start p,
  address_by_index_lem memory (end - 1),
  address_by_index_lem memory end q,
  is_same_half_lem (tag_of memory) (start * size_of memory) ((end - 1) * size_of memory),
  is_same_half_lem (tag_of memory) (start * size_of memory) (end * size_of memory),
)

-- For two `usize` numbers, `from_index` makes a block exactly if they are the bounds of a valid one,
-- and then it is that block. It never panics.
pub from_index_iff :
    (memory : Memory) (start end : ℕ) (b : Block)
    → start < 2 ^ 64
    → end < 2 ^ 64
    → ((from_index memory start end ≡ ok b) ↔ ((b ≡ block start end) × IsValid memory b))
      × (from_index memory start end ≢ panic)
from_index_iff memory start end b p q = (
  (
    from_index-IsValid memory start end b p q,
    λ h.
        subst (λ c. IsValid memory c → from_index memory start end ≡ ok c) (sym h.0)
          (IsValid-from_index memory start end) h.1,
  ),
  from_index-ne-panic memory start end p q,
)
