-- ===== src/Memory/Mmu/Access.antt =====
-- The flags of the entries on the way to a page.
use Prim.Native.Nat.{bit_and, bit_or}
use nikka.Common.{ℕ, ◌+◌, ◌*◌, ◌/◌, ◌%◌, ◌^◌, ◌<◌, ◌≡◌, refl, ap, ◌∙◌, arith}
use nikka.Common.Words.{
  bit_or-one, bit_or-lt, bit_or-split, bit_or-even, bit_or-odd, bit_and-ones, bit_and-seven,
  bit_or-nothing, bit_and_left_zero,
}
use nikka.Memory.Mmu.{full_access, present}
use nikka.Memory.Mmu.Words.{IsFlags, word, or_word, and_word}

-- Flags of an entry on the way: of no large page, and present.
pub record IsOnWay (f : ℕ) : Type 0 where
  pub flags : IsFlags f
  pub small : f / 2 ^ 7 % 2 ≡ 0
  pub there : f % 2 ≡ 1

pub intermediate-IsOnWay : (f : ℕ) → IsFlags f → IsOnWay (bit_or (bit_and f full_access) present)
intermediate-IsOnWay f v =
    let e : f ≡ word (f / 2 ^ 63) 0 (f % 2 ^ 12) = omega (arith, v.fits, v.known) in
    let g : bit_and f full_access ≡ word (f / 2 ^ 63) 0 (f % 2 ^ 12 % 8) =
      ap (λ x. bit_and x full_access) e
      ∙ and_word (f / 2 ^ 63) 0 (f % 2 ^ 12) 1 0 7 (omega arith) (omega arith) (omega arith)
          (omega arith)
      ∙ rw
          (
            bit_and-ones 1 (f / 2 ^ 63) (omega (arith, v.fits)),
            bit_and_left_zero 0,
            bit_and-seven (f % 2 ^ 12),
          )
          refl in
    let h = bit_or-one (bit_and f full_access) in
    let small : f / 2 ^ 63 < 2 = omega (arith, v.fits) in
    record {
      flags = record { fits = omega arith; known = omega arith };
      small = omega arith;
      there = omega arith;
    }

pub join-IsOnWay : (f g : ℕ) → IsOnWay f → IsOnWay g → IsOnWay (bit_or f g)
join-IsOnWay f g v w =
    let lo = f % 2 ^ 12 in
    let k = g % 2 ^ 12 in
    let b = f / 2 ^ 63 in
    let c = g / 2 ^ 63 in
    let e : f ≡ word b 0 lo = omega (arith, v.flags.fits, v.flags.known) in
    let d : g ≡ word c 0 k = omega (arith, w.flags.fits, w.flags.known) in
    let o : bit_or f g ≡ word (bit_or b c) 0 (bit_or lo k) =
      ap (λ x. bit_or x g) e
      ∙ ap (bit_or (word b 0 lo)) d
      ∙ or_word b 0 lo c 0 k (omega arith) (omega arith) (omega arith) (omega arith)
      ∙ rw (bit_or-nothing 0) refl in
    let high = bit_or-lt 1 b c (omega (arith, v.flags.fits)) (omega (arith, w.flags.fits)) in
    let low = bit_or-lt 12 lo k (omega arith) (omega arith) in
    let odd = bit_or-odd f g w.there in
    let el : lo ≡ lo / 2 ^ 7 * 2 ^ 7 + lo % 2 ^ 7 = omega arith in
    let ek : k ≡ k / 2 ^ 7 * 2 ^ 7 + k % 2 ^ 7 = omega arith in
    let s =
      bit_or-split 7 (lo / 2 ^ 7) (lo % 2 ^ 7) (k / 2 ^ 7) (k % 2 ^ 7) (omega arith)
        (omega arith) in
    let t : bit_or lo k
        ≡ bit_or (lo / 2 ^ 7) (k / 2 ^ 7) * 2 ^ 7 + bit_or (lo % 2 ^ 7) (k % 2 ^ 7) =
      ap (λ x. bit_or x k) el ∙ ap (bit_or (lo / 2 ^ 7 * 2 ^ 7 + lo % 2 ^ 7)) ek ∙ s in
    let u = bit_or-lt 7 (lo % 2 ^ 7) (k % 2 ^ 7) (omega arith) (omega arith) in
    let even =
      bit_or-even (lo / 2 ^ 7) (k / 2 ^ 7) (omega (arith, v.small)) (omega (arith, w.small)) in
    record {
      flags = record { fits = omega arith; known = omega arith };
      small = omega (arith, o, t, u, even);
      there = odd;
    }
