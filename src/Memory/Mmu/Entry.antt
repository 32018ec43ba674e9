-- ===== src/Memory/Mmu/Entry.antt =====
-- What is stored in an entry is read from it.
use Prim.Native.Nat.{bit_or}
use nikka.Common.{
  ℕ, ◌+◌, ◌*◌, ◌/◌, ◌%◌, ◌^◌, ◌≡◌, refl, ◌∙◌, arith, ◌==◌, if◌then◌else◌, ok, err, no_page,
}
use nikka.Common.Words.{bit_or-one}
use nikka.Memory.Frage.{l0}
use nikka.Memory.Frage
use nikka.Memory.Mmu.{flags, set_flags, frame, set_frame, take, present, clear}
use nikka.Memory.Mmu.Words.{
  IsEntry, IsFlags, IsAligned, flags_part, address_part, stored, flags_lem, is_present_lem,
  is_huge_lem, entry_phys_lem, set_phys_lem, huge_part,
}

pub stored-IsEntry : (a f : ℕ) → IsAligned a → IsFlags f → IsEntry (stored a f)
stored-IsEntry a f h v = record { fits = omega (arith, v.fits); known = omega (arith, v.fits) }

pub stored-flags : (a f : ℕ) → IsAligned a → IsFlags f → flags_part (stored a f) ≡ f
stored-flags a f h v = omega (arith, v.fits, v.known)

pub stored-address : (a f : ℕ) → IsAligned a → IsFlags f → address_part (stored a f) ≡ a
stored-address a f h v = omega (arith, v.fits, v.known)

-- The flags with the one for a present page.
abbrev pub with_present : ℕ → ℕ
with_present f = f / 2 * 2 + 1

with_present_lem : (f : ℕ) → bit_or f present ≡ with_present f
with_present_lem f = bit_or-one f

pub with_present-IsFlags : (f : ℕ) → IsFlags f → IsFlags (with_present f)
with_present-IsFlags f v = record { fits = omega (arith, v.fits); known = omega (arith, v.known) }

pub set_frame-stored :
    (a f : ℕ)
    → IsAligned a
    → IsFlags f
    → f / 2 ^ 7 % 2 ≡ 0
    → set_frame a f ≡ ok (stored a (with_present f))
unfolding set_frame
set_frame-stored a f h v p =
    rw
      (
        huge_part f v,
        p,
        with_present_lem f,
        set_phys_lem a (with_present f) h (with_present-IsFlags f v),
      )
      refl

pub address_part-IsAligned : (w : ℕ) → IsAligned (address_part w)
address_part-IsAligned w = (omega arith, omega arith)

new-aligned : (a : ℕ) → IsAligned a → Frage.new l0 a ≡ ok a
unfolding Frage.new
new-aligned a h = ground arith

-- `frame` of an entry of a page of the usual size.
pub frame_lem :
    (w : ℕ)
    → IsEntry w
    → w / 2 ^ 7 % 2 ≡ 0
    → frame w ≡ (if w % 2 == 1 then ok (address_part w) else err no_page)
unfolding frame
frame_lem w v p =
    rw
      (
        is_huge_lem w v,
        p,
        is_present_lem w v,
        entry_phys_lem w v,
        new-aligned (address_part w) (address_part-IsAligned w),
      )
      refl

pub take_lem :
    (w : ℕ)
    → IsEntry w
    → w / 2 ^ 7 % 2 ≡ 0
    → take w ≡ (if w % 2 == 1 then ok (address_part w, clear) else err no_page)
unfolding take
take_lem w v p =
    rw
      (
        is_huge_lem w v,
        p,
        is_present_lem w v,
        entry_phys_lem w v,
        new-aligned (address_part w) (address_part-IsAligned w),
      )
      refl

pub set_flags_lem :
    (w f : ℕ) → IsEntry w → IsFlags f → set_flags w f ≡ ok (stored (address_part w) f)
unfolding set_flags
set_flags_lem w f v k =
    rw (entry_phys_lem w v, set_phys_lem (address_part w) f (address_part-IsAligned w) k) refl

-- For a frame and flags without `HUGE`, `set_frame` stores an entry from which `frame` reads the frame
-- back, `flags` the same flags and `PRESENT`, and `take` the frame, with an empty entry left.
pub set_frame-frame :
    (a f : ℕ)
    → IsAligned a
    → IsFlags f
    → f / 2 ^ 7 % 2 ≡ 0
    → (w : ℕ) × (set_frame a f ≡ ok w)
      × (frame w ≡ ok a)
      × (flags w ≡ ok (bit_or f present))
      × (take w ≡ ok (a, clear))
set_frame-frame a f h v p =
    let g = with_present f in
    let k = with_present-IsFlags f v in
    let e = stored-IsEntry a g h k in
    let w = stored a g in
    let same = stored-address a g h k in
    let small : w / 2 ^ 7 % 2 ≡ 0 = omega (arith, v.fits) in
    let one : w % 2 ≡ 1 = omega (arith, v.fits) in
    (
      w,
      set_frame-stored a f h v p,
      frame_lem w e small ∙ rw (one, same) refl,
      flags_lem w e ∙ rw (stored-flags a g h k, with_present_lem f) refl,
      take_lem w e small ∙ rw (one, same) refl,
    )
