-- ===== src/Memory/Block/Pages.antt =====
-- From blocks of addresses to blocks of pages and back.
use nikka.Common.{◌+◌, ◌-◌, ◌*◌, ◌/◌, ◌<◌, ◌≡◌, false, arith, ◌==◌, if◌then◌else◌, ok, panic}
use nikka.Memory.Addr.{Tag, phys, virt}
use nikka.Memory.Addr.Ranges.{IsAddr, is_addr, is_addr_iff}
use nikka.Memory.Addr.Arith.{sub_lem}
use nikka.Memory.Frage.{l0, bytes, PageSize}
use nikka.Memory.Block.{addr, frage, Block, block, enclosing, into_addresses}
use nikka.Memory.Block.Valid.{IsValid, address_by_index_lem, IsValid-from_index}

-- The pages from the one with the first byte to the one with the last.
abbrev pub covering : Block → Block
covering b =
    block (b.start / bytes l0)
      (if b.start == b.end then b.start / bytes l0 else (b.end - 1) / bytes l0 + 1)

covering-IsValid :
    (tag : Tag) (b : Block) → IsValid (addr tag) b → IsValid (frage tag l0) (covering b)
covering-IsValid phys b v = ground arith
covering-IsValid virt b v = ground arith

-- `enclosing` of a valid block whose end is an address: the valid block of the pages from the one
-- with the first byte to the one with the last, or the empty block at the page of its start.
pub enclosing-covering :
    (tag : Tag) (b : Block)
    → IsValid (addr tag) b
    → IsAddr tag b.end
    → (enclosing tag b ≡ ok (covering b)) × IsValid (frage tag l0) (covering b)
unfolding enclosing
enclosing-covering phys b v e =
    let valid = covering-IsValid phys b v in
    (
      ground (
        arith,
        address_by_index_lem (addr phys) b.end v.fits,
        sub_lem phys b.end 1 e,
        IsValid-from_index (frage phys l0) (covering b).start (covering b).end valid,
      ),
      valid,
    )
enclosing-covering virt b v e =
    let valid = covering-IsValid virt b v in
    (
      ground (
        arith,
        address_by_index_lem (addr virt) b.end v.fits,
        sub_lem virt b.end 1 e,
        IsValid-from_index (frage virt l0) (covering b).start (covering b).end valid,
      ),
      valid,
    )

-- `enclosing` panics for every valid block with an element whose end is no address, as it is for the
-- block of a whole half of the virtual space.
pub enclosing-panic :
    (tag : Tag) (b : Block)
    → IsValid (addr tag) b
    → b.start < b.end
    → is_addr tag b.end ≡ false
    → enclosing tag b ≡ panic
unfolding enclosing
enclosing-panic phys b v h e = ground (arith, address_by_index_lem (addr phys) b.end v.fits)
enclosing-panic virt b v h e = ground (arith, address_by_index_lem (addr virt) b.end v.fits)

bytes-IsValid :
    (tag : Tag) (size : PageSize) (b : Block)
    → IsValid (frage tag size) b
    → IsAddr tag (b.end * bytes size)
    → IsValid (addr tag) (block (b.start * bytes size) (b.end * bytes size))
bytes-IsValid phys l0 b v e = ground arith
bytes-IsValid virt l0 b v e = ground arith
bytes-IsValid tag size b v e = ground arith

-- The addresses of a valid block of frages are the block of its bytes, which is valid, if the end of
-- that is an address. If it is none, the conversion panics.
pub into_addresses_lem :
    (tag : Tag) (size : PageSize) (b : Block)
    → IsValid (frage tag size) b
    → (IsAddr tag (b.end * bytes size)
        → (into_addresses tag size b ≡ ok (block (b.start * bytes size) (b.end * bytes size)))
          × IsValid (addr tag) (block (b.start * bytes size) (b.end * bytes size)))
      × (is_addr tag (b.end * bytes size) ≡ false → into_addresses tag size b ≡ panic)
unfolding into_addresses
into_addresses_lem tag size b v = (
  λ e.
      let valid = bytes-IsValid tag size b v e in
      (
        ground (
          arith,
          is_addr_iff tag (b.end * bytes size),
          address_by_index_lem (frage tag size) b.end v.fits,
          IsValid-from_index (addr tag) (b.start * bytes size) (b.end * bytes size) valid,
        ),
        valid,
      ),
  λ e. ground (arith, address_by_index_lem (frage tag size) b.end v.fits),
)
