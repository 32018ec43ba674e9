-- ===== src/Memory/Frage/Index.antt =====
-- Pages and frames against their numbers.
use nikka.Common.{
  ℕ, ◌+◌, ◌*◌, ◌/◌, ◌%◌, ◌^◌, ◌≤◌, ◌<◌, ◌≡◌, sym, ◌∙◌, ◌↔◌, arith, Outcome, ok, err, overflow,
  invalid_argument, if◌then◌else◌, ltb,
}
use nikka.Memory.Addr.{Tag, phys, virt}
use nikka.Memory.Addr.Ranges.{IsAddr, is_addr, new_lem}
use nikka.Memory.Addr.Arith.{add_lem, half_end}
use nikka.Memory.Frage.{
  PageSize, l0, bytes, address_by_index, containing, from_index, index, offset, add,
}

-- A frage is an address of its kind that is a multiple of its size.
abbrev pub IsFrage : Tag → PageSize → ℕ → Type 0
IsFrage tag size a = IsAddr tag a × (a % bytes size ≡ 0)

-- What the number `i` stands for: the address `i * size`, if that is one.
abbrev pub by_index : Tag → ℕ → ℕ → Outcome ℕ
by_index tag size i =
    if ltb (i * size) (2 ^ 64)
    then (if is_addr tag (i * size) then ok (i * size) else err invalid_argument)
    else err overflow

pub address_by_index_lem :
    (tag : Tag) (size : PageSize) (i : ℕ)
    → address_by_index tag size i ≡ by_index tag (bytes size) i
unfolding address_by_index
address_by_index_lem phys l0 i = ground (arith, new_lem phys (i * bytes l0))
address_by_index_lem tag size i = ground (arith, new_lem tag (i * bytes size))

-- `from_index` on every branch: the frage stands at `index * size`, if that is an address. It fails
-- with `Overflow` if the product is no `usize`, and else with `InvalidArgument`.
pub from_index_lem :
    (tag : Tag) (size : PageSize) (i : ℕ) → from_index tag size i ≡ by_index tag (bytes size) i
unfolding from_index
from_index_lem phys l0 i = ground (arith, address_by_index_lem phys l0 i)
from_index_lem tag size i = ground (arith, address_by_index_lem tag size i)

from_index-IsFrage :
    (tag : Tag) (size : PageSize) (i a : ℕ)
    → from_index tag size i ≡ ok a
    → IsFrage tag size a × (index size a ≡ i)
unfolding index
from_index-IsFrage phys l0 i a e = ground (arith, from_index_lem phys l0 i)
from_index-IsFrage tag size i a e = ground (arith, from_index_lem tag size i)

IsFrage-from_index :
    (tag : Tag) (size : PageSize) (i a : ℕ)
    → IsFrage tag size a × (index size a ≡ i)
    → from_index tag size i ≡ ok a
unfolding index
IsFrage-from_index phys l0 i a e = ground (arith, from_index_lem phys l0 i)
IsFrage-from_index tag size i a e = ground (arith, from_index_lem tag size i)

-- `from_index i` gives `a` exactly if `a` is a frage and its `index` is `i`.
pub from_index-index :
    (tag : Tag) (size : PageSize) (i a : ℕ)
    → (from_index tag size i ≡ ok a) ↔ (IsFrage tag size a × (index size a ≡ i))
from_index-index tag size i a = (from_index-IsFrage tag size i a, IsFrage-from_index tag size i a)

abbrev rounded : PageSize → ℕ → ℕ
rounded size a = a / bytes size * bytes size

rounded_lem :
    (tag : Tag) (size : PageSize) (a : ℕ)
    → IsAddr tag a
    → (containing tag size a ≡ ok (rounded size a))
      × IsAddr tag (rounded size a)
      × (rounded size a % bytes size ≡ 0)
      × (rounded size a ≤ a)
      × (a < rounded size a + bytes size)
unfolding containing
rounded_lem phys l0 a v = ground (arith, new_lem phys (rounded l0 a))
rounded_lem virt l0 a v = ground (arith, new_lem virt (rounded l0 a))
rounded_lem tag size a v = ground (arith, new_lem tag (rounded size a))

-- Of an address, `containing` gives the frage that it lies in, and never panics.
pub containing_lem :
    (tag : Tag) (size : PageSize) (a : ℕ)
    → IsAddr tag a
    → (page : ℕ) × (containing tag size a ≡ ok page)
      × IsFrage tag size page
      × (page ≤ a)
      × (a < page + bytes size)
containing_lem tag size a v =
    let (e, p, q, r, s) = rounded_lem tag size a v in (rounded size a, e, (p, q), r, s)

module _ (tag : Tag) (size : PageSize) (a n : ℕ) where
  abbrev Within : Type 0
  Within = IsFrage tag size a × (a + n * bytes size < half_end tag a)

add-address :
    (tag : Tag) (size : PageSize) (a n : ℕ)
    → Within tag size a n
    → add tag size a n ≡ ok (a + n * bytes size)
unfolding add
add-address phys l0 a n h = ground (arith, add_lem phys a (n * bytes l0))
add-address virt l0 a n h = ground (arith, add_lem virt a (n * bytes l0))
add-address tag size a n h = ground (arith, add_lem tag a (n * bytes size))

add-IsFrage :
    (tag : Tag) (size : PageSize) (a n : ℕ)
    → Within tag size a n
    → IsFrage tag size (a + n * bytes size) × (index size (a + n * bytes size) ≡ index size a + n)
unfolding index
add-IsFrage phys l0 a n h = ground arith
add-IsFrage virt l0 a n h = ground arith
add-IsFrage tag size a n h = ground arith

-- A frage plus `n` is the frage with the number `index + n`, if that lies in the same half.
pub add-index :
    (tag : Tag) (size : PageSize) (a n : ℕ)
    → IsFrage tag size a
    → a + n * bytes size < half_end tag a
    → add tag size a n ≡ from_index tag size (index size a + n)
add-index tag size a n v h =
    add-address tag size a n (v, h)
    ∙ sym (IsFrage-from_index tag size _ _ (add-IsFrage tag size a n (v, h)))

-- The offset of an address in its page, carried over to the frage `a`, stays within that frage.
pub offset_lem :
    (tag : Tag) (size : PageSize) (a address : ℕ)
    → IsFrage tag size a
    → offset tag size a address ≡ ok (a + address % bytes size)
unfolding offset
offset_lem virt l0 a address v = ground (arith, add_lem virt a (address % bytes l0))
offset_lem phys l0 a address v = ground (arith, add_lem phys a (address % bytes l0))
offset_lem tag size a address v = ground (arith, add_lem tag a (address % bytes size))
