-- ===== src/Memory/Mmu/Words.antt =====
-- The parts of an entry.
use Prim.Native.Nat.{bit_and, bit_or, bit_xor}
use nikka.Common.{
  ℕ, ◌+◌, ◌-◌, ◌*◌, ◌/◌, ◌%◌, ◌^◌, ◌<◌, ◌≡◌, refl, ap, ◌∙◌, true, arith, ◌==◌, ◌⊎◌, inl, inr, ok,
}
use nikka.Common.Words.{
  bit_and-split, bit_or-split, bit_xor-split, bit_and-ones, bit_and-zero, bit_and_left_zero,
  bit_xor-zero, bit_and-one, bit_and-digit, bit_or-nothing,
}
use nikka.Common.Bits.{zero-bit_or}
use nikka.Memory.Addr.{phys}
use nikka.Memory.Addr.Ranges.{new_lem}
use nikka.Memory.Mmu.{
  flags, is_present, is_huge, entry_phys, set_phys, executable, address_mask, all_flags, present,
  huge, contains,
}

-- A word made of the highest bit, a field of 51 and one of 12 bits.
abbrev pub word : ℕ → ℕ → ℕ → ℕ
word b m lo = b * 2 ^ 63 + (m * 2 ^ 12 + lo)

pub and_word :
    (b m lo c n k : ℕ)
    → m < 2 ^ 51
    → lo < 2 ^ 12
    → n < 2 ^ 51
    → k < 2 ^ 12
    → bit_and (word b m lo) (word c n k) ≡ word (bit_and b c) (bit_and m n) (bit_and lo k)
and_word b m lo c n k p q r s =
    bit_and-split 63 b (m * 2 ^ 12 + lo) c (n * 2 ^ 12 + k) (omega arith) (omega arith)
    ∙ ap (λ d. bit_and b c * 2 ^ 63 + d) (bit_and-split 12 m lo n k q s)

pub or_word :
    (b m lo c n k : ℕ)
    → m < 2 ^ 51
    → lo < 2 ^ 12
    → n < 2 ^ 51
    → k < 2 ^ 12
    → bit_or (word b m lo) (word c n k) ≡ word (bit_or b c) (bit_or m n) (bit_or lo k)
or_word b m lo c n k p q r s =
    bit_or-split 63 b (m * 2 ^ 12 + lo) c (n * 2 ^ 12 + k) (omega arith) (omega arith)
    ∙ ap (λ d. bit_or b c * 2 ^ 63 + d) (bit_or-split 12 m lo n k q s)

xor_word :
    (b m lo c n k : ℕ)
    → m < 2 ^ 51
    → lo < 2 ^ 12
    → n < 2 ^ 51
    → k < 2 ^ 12
    → bit_xor (word b m lo) (word c n k) ≡ word (bit_xor b c) (bit_xor m n) (bit_xor lo k)
xor_word b m lo c n k p q r s =
    bit_xor-split 63 b (m * 2 ^ 12 + lo) c (n * 2 ^ 12 + k) (omega arith) (omega arith)
    ∙ ap (λ d. bit_xor b c * 2 ^ 63 + d) (bit_xor-split 12 m lo n k q s)

-- An entry, or a set of flags, whose bits all have a meaning.
pub record IsEntry (w : ℕ) : Type 0 where
  pub fits : w < 2 ^ 64
  pub known : w / 2 ^ 52 % 2 ^ 11 ≡ 0

pub record IsFlags (f : ℕ) : Type 0 where
  pub fits : f < 2 ^ 64
  pub known : f / 2 ^ 12 % 2 ^ 51 ≡ 0

-- The flags of an entry, and its address.
abbrev pub flags_part : ℕ → ℕ
flags_part w = (1 - w / 2 ^ 63) * 2 ^ 63 + w % 2 ^ 12

abbrev pub address_part : ℕ → ℕ
address_part w = w / 2 ^ 12 % 2 ^ 40 * 2 ^ 12

middle : (m : ℕ) → m < 2 ^ 40 → bit_and m (2 ^ 51 - 2 ^ 40) ≡ 0
middle m h =
    let e : m ≡ 0 * 2 ^ 40 + m = omega arith in
    ap (λ n. bit_and n (2 ^ 51 - 2 ^ 40)) e
    ∙ bit_and-split 40 0 m (2 ^ 11 - 1) 0 h (omega arith)
    ∙ rw (bit_and_left_zero (2 ^ 11 - 1), bit_and-zero m) refl

Bit-cases : (b : ℕ) → b < 2 → (b ≡ 0) ⊎ (b ≡ 1)
Bit-cases b h = omega arith

flip : (b : ℕ) → b < 2 → bit_xor b 1 ≡ 1 - b
flip b h = elim (Bit-cases b h) [ inl e ↦ rw e refl | inr e ↦ rw e refl ]

flags_word :
    (b m lo : ℕ) → b < 2 → m < 2 ^ 40 → lo < 2 ^ 12 → flags (word b m lo) ≡ ok (word (1 - b) 0 lo)
unfolding flags
flags_word b m lo p q r =
    let e : bit_and (word b m lo) (2 ^ 64 - 1 - address_mask) ≡ word b 0 lo =
      and_word b m lo 1 (2 ^ 51 - 2 ^ 40) (2 ^ 12 - 1) (omega arith) r (omega arith) (omega arith)
      ∙ rw (bit_and-ones 1 b p, middle m q, bit_and-ones 12 lo r) refl in
    let f : bit_and (word b 0 lo) all_flags ≡ word b 0 lo =
      and_word b 0 lo 1 0 (2 ^ 12 - 1) (omega arith) r (omega arith) (omega arith)
      ∙ rw (bit_and-ones 1 b p, bit_and_left_zero 0, bit_and-ones 12 lo r) refl in
    let g : bit_xor (word b 0 lo) executable ≡ word (1 - b) 0 lo =
      xor_word b 0 lo 1 0 0 (omega arith) r (omega arith) (omega arith)
      ∙ rw (flip b p, bit_xor-zero 0, bit_xor-zero lo) refl in
    let same : (word b 0 lo == word b 0 lo) ≡ true = ground arith in rw (e, f, same, g) refl

-- An entry is made of its parts.
parts : (w : ℕ) → IsEntry w → w ≡ word (w / 2 ^ 63) (w / 2 ^ 12 % 2 ^ 40) (w % 2 ^ 12)
parts w v = omega (arith, v.fits, v.known)

pub flags_lem : (w : ℕ) → IsEntry w → flags w ≡ ok (flags_part w)
flags_lem w v =
    ap flags (parts w v)
    ∙ flags_word (w / 2 ^ 63) (w / 2 ^ 12 % 2 ^ 40) (w % 2 ^ 12) (omega (arith, v.fits))
        (omega arith) (omega arith)
    ∙ ap ok (omega arith)

-- A single flag among the lower ones.
contains_word : (b lo k : ℕ) → lo < 2 ^ 12 → k < 2 ^ 12 → bit_and (word b 0 lo) k ≡ bit_and lo k
contains_word b lo k p q =
    let e : k ≡ word 0 0 k = omega arith in
    ap (bit_and (word b 0 lo)) e
    ∙ and_word b 0 lo 0 0 k (omega arith) p (omega arith) q
    ∙ rw (bit_and-zero b, bit_and_left_zero 0) (omega arith)

present_part : (w : ℕ) → contains (flags_part w) present ≡ (w % 2 == 1)
present_part w =
    let e : flags_part w ≡ word (1 - w / 2 ^ 63) 0 (w % 2 ^ 12) = omega arith in
    let f : w % 2 ^ 12 % 2 ≡ w % 2 = omega arith in
    rw
      (
        e,
        contains_word (1 - w / 2 ^ 63) (w % 2 ^ 12) 1 (omega arith) (omega arith),
        bit_and-one (w % 2 ^ 12),
        f,
      )
      refl

pub huge_part : (f : ℕ) → IsFlags f → contains f huge ≡ (f / 2 ^ 7 % 2 == 1)
huge_part f v =
    let e : f ≡ word (f / 2 ^ 63) 0 (f % 2 ^ 12) = omega (arith, v.fits, v.known) in
    let g : f % 2 ^ 12 / 2 ^ 7 % 2 ≡ f / 2 ^ 7 % 2 = omega arith in
    let h : bit_and f huge ≡ f / 2 ^ 7 % 2 * 2 ^ 7 =
      ap (λ x. bit_and x huge) e
      ∙ contains_word (f / 2 ^ 63) (f % 2 ^ 12) (2 ^ 7) (omega arith) (omega arith)
      ∙ bit_and-digit (f % 2 ^ 12)
      ∙ rw g refl in
    rw h (ground arith)

pub flags_part-IsFlags : (w : ℕ) → w < 2 ^ 64 → IsFlags (flags_part w)
flags_part-IsFlags w h = record { fits = omega arith; known = omega arith }

pub is_present_lem : (w : ℕ) → IsEntry w → is_present w ≡ ok (w % 2 == 1)
unfolding is_present
is_present_lem w v = rw (flags_lem w v, present_part w) refl

pub is_huge_lem : (w : ℕ) → IsEntry w → is_huge w ≡ ok (w / 2 ^ 7 % 2 == 1)
unfolding is_huge
is_huge_lem w v =
    let e : flags_part w / 2 ^ 7 % 2 ≡ w / 2 ^ 7 % 2 = omega arith in
    rw (flags_lem w v, huge_part (flags_part w) (flags_part-IsFlags w v.fits), e) refl

pub entry_phys_lem : (w : ℕ) → IsEntry w → entry_phys w ≡ ok (address_part w)
unfolding entry_phys
entry_phys_lem w v =
    let e : bit_and w address_mask ≡ address_part w =
      ap (λ x. bit_and x address_mask) (parts w v)
      ∙ and_word (w / 2 ^ 63) (w / 2 ^ 12 % 2 ^ 40) (w % 2 ^ 12) 0 (2 ^ 40 - 1) 0 (omega arith)
          (omega arith) (omega arith) (omega arith)
      ∙ rw
          (
            bit_and-zero (w / 2 ^ 63),
            bit_and-ones 40 (w / 2 ^ 12 % 2 ^ 40) (omega arith),
            bit_and-zero (w % 2 ^ 12),
          )
          (omega arith) in
    rw e (ground (arith, new_lem phys (address_part w)))

-- What `set_phys` stores.
abbrev pub stored : ℕ → ℕ → ℕ
stored address f = (1 - f / 2 ^ 63) * 2 ^ 63 + address + f % 2 ^ 12

abbrev pub IsAligned : ℕ → Type 0
IsAligned a = (a % 2 ^ 12 ≡ 0) × (a < 2 ^ 52)

pub set_phys_lem : (a f : ℕ) → IsAligned a → IsFlags f → set_phys a f ≡ stored a f
unfolding set_phys
set_phys_lem a f h v =
    let b = f / 2 ^ 63 in
    let e : f ≡ word b 0 (f % 2 ^ 12) = omega (arith, v.fits, v.known) in
    let g : bit_xor f executable ≡ word (1 - b) 0 (f % 2 ^ 12) =
      ap (λ x. bit_xor x executable) e
      ∙ xor_word b 0 (f % 2 ^ 12) 1 0 0 (omega arith) (omega arith) (omega arith) (omega arith)
      ∙ rw (flip b (omega (arith, v.fits)), bit_xor-zero 0, bit_xor-zero (f % 2 ^ 12)) refl in
    let k : a ≡ word 0 (a / 2 ^ 12) 0 = omega arith in
    let o : bit_or a (word (1 - b) 0 (f % 2 ^ 12)) ≡ word (1 - b) (a / 2 ^ 12) (f % 2 ^ 12) =
      ap (λ x. bit_or x (word (1 - b) 0 (f % 2 ^ 12))) k
      ∙ or_word 0 (a / 2 ^ 12) 0 (1 - b) 0 (f % 2 ^ 12) (omega arith) (omega arith) (omega arith)
          (omega arith)
      ∙ rw (zero-bit_or (1 - b), bit_or-nothing (a / 2 ^ 12), zero-bit_or (f % 2 ^ 12)) refl in
    rw g (o ∙ omega arith)
