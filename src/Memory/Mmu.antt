-- ===== src/Memory/Mmu.antt =====
-- ku/src/memory/mmu.rs: entries of page tables. An entry is its `usize`, flags are their bits; of
-- `EXECUTABLE` an entry stores the opposite.
pub mod Words
pub mod Entry
pub mod Access
use Prim.Native.Nat.{bit_and, bit_or, bit_xor}
use nikka.Common.{
  ℕ, ◌+◌, ◌-◌, ◌*◌, ◌/◌, ◌%◌, ◌^◌, Bool, true, false, not, Option, some, none, ◌==◌, if◌then◌else◌,
  Outcome, ok, err, panic, no_page, ◌>>=◌, ◌>>◌, assert, or_panic, unwrap,
}
use nikka.Memory.Addr
use nikka.Memory.Addr.{phys}
use nikka.Memory.Frage
use nikka.Memory.Frage.{l0}

abbrev pub present : ℕ
present = 2 ^ 0

abbrev pub huge : ℕ
huge = 2 ^ 7

abbrev pub executable : ℕ
executable = 2 ^ 63

-- `FULL_ACCESS`: executable, present, for the user and writable.
abbrev pub full_access : ℕ
full_access = 2 ^ 63 + 7

-- All flags that `PageTableFlags` names: the lower twelve bits and the highest one.
abbrev pub all_flags : ℕ
all_flags = 2 ^ 63 + (2 ^ 12 - 1)

-- `((1 << Phys::BITS) - 1) & !((1 << PAGE_OFFSET_BITS) - 1)`
abbrev pub address_mask : ℕ
address_mask = 2 ^ 52 - 2 ^ 12

-- `PageTableFlags::from_bits`
abbrev pub from_bits : ℕ → Option ℕ
from_bits bits = if bit_and bits all_flags == bits then some bits else none

-- `flags.contains(flag)`
abbrev pub contains : ℕ → ℕ → Bool
contains flags flag = bit_and flags flag == flag

unfoldable pub flags : ℕ → Outcome ℕ
flags self = do
  bits ← or_panic (from_bits (bit_and self (2 ^ 64 - 1 - address_mask)))
  ok (bit_xor bits executable)

unfoldable pub is_present : ℕ → Outcome Bool
unfolding flags
is_present self = do bits ← flags self; ok (contains bits present)

unfoldable pub is_huge : ℕ → Outcome Bool
unfolding flags
is_huge self = do bits ← flags self; ok (contains bits huge)

-- `PageTableEntry::phys`
unfoldable pub entry_phys : ℕ → Outcome ℕ
entry_phys self = unwrap (Addr.new phys (bit_and self address_mask))

-- The new value of the entry.
pub set_phys : ℕ → ℕ → ℕ
set_phys frame_address bits = bit_or frame_address (bit_xor bits executable)

pub set_flags : ℕ → ℕ → Outcome ℕ
unfolding entry_phys set_phys
set_flags self bits = do address ← entry_phys self; ok (set_phys address bits)

unfoldable pub frame : ℕ → Outcome ℕ
unfolding is_present is_huge entry_phys
frame self = do
  large ← is_huge self
  assert (not large)
  there ← is_present self
  if there then (do address ← entry_phys self; unwrap (Frage.new l0 address)) else err no_page

pub set_frame : ℕ → ℕ → Outcome ℕ
unfolding set_phys
set_frame frame_address bits = do
  assert (not (contains bits huge))
  ok (set_phys frame_address (bit_or bits present))

abbrev pub clear : ℕ
clear = 0

-- The frame, and the entry that is left.
pub take : ℕ → Outcome (ℕ × ℕ)
unfolding is_present is_huge entry_phys
take self = do
  large ← is_huge self
  assert (not large)
  there ← is_present self
  if there
      then (do address ← entry_phys self; taken ← unwrap (Frage.new l0 address); ok (taken, clear))
      else err no_page
