-- ===== src/Memory/Addr/Ranges.antt =====
-- Which numbers are addresses, and which addresses share a half.
use nikka.Common.{
  ℕ, ◌-◌, ◌/◌, ◌^◌, ◌≤◌, ◌<◌, ◌≡◌, refl, ◌⊎◌, Bool, true, ◌&&◌, ◌||◌, arith, ltb, leb, ◌==◌,
  if◌then◌else◌, ok, err, invalid_argument, ◌↔◌,
}
use nikka.Common.Bits.{leading_zeros_of_lt, lt_of_leading_zeros, bit_xor-shr, bit_xor-zero_iff}
use nikka.Memory.Addr.{Tag, phys, virt, new, is_same_half, half_size}

-- The addresses of each kind: 52 bits, or the two halves of a sign-extended space of 48 bits.
abbrev pub is_addr : Tag → ℕ → Bool
is_addr phys a = ltb a (2 ^ 52)
is_addr virt a = ltb a half_size || (leb (2 ^ 64 - half_size) a && ltb a (2 ^ 64))

abbrev pub IsAddr : Tag → ℕ → Type 0
IsAddr phys a = a < 2 ^ 52
IsAddr virt a = (a < half_size) ⊎ ((2 ^ 64 - half_size ≤ a) × (a < 2 ^ 64))

pub is_addr_iff : (tag : Tag) (a : ℕ) → (is_addr tag a ≡ true) ↔ IsAddr tag a
is_addr_iff phys a = ground arith
is_addr_iff virt a = (λ h. ground arith, λ h. ground arith)

-- `new` accepts exactly the addresses of its kind, as they are, and rejects all else.
pub new_lem :
    (tag : Tag) (a : ℕ)
    → a < 2 ^ 64
    → new tag a ≡ (if is_addr tag a then ok a else err invalid_argument)
unfolding new
new_lem phys a h = ground (arith, leading_zeros_of_lt 52 a, lt_of_leading_zeros 52 a (omega arith))
new_lem virt a h = ground (
  arith,
  leading_zeros_of_lt 47 a,
  lt_of_leading_zeros 47 a (omega arith),
  leading_zeros_of_lt 47 (2 ^ 64 - 1 - a),
  lt_of_leading_zeros 47 (2 ^ 64 - 1 - a) (omega arith),
)

abbrev pub same_half : Tag → ℕ → ℕ → Bool
same_half phys x y = true
same_half virt x y = x / half_size == y / half_size

-- Two virtual addresses share a half exactly if their bits from 47 up agree; all physical addresses
-- do.
pub is_same_half_lem : (tag : Tag) (x y : ℕ) → is_same_half tag x y ≡ same_half tag x y
unfolding is_same_half
is_same_half_lem phys x y = refl
is_same_half_lem virt x y =
    ground (arith, bit_xor-shr 47 x y, bit_xor-zero_iff (x / half_size) (y / half_size))
