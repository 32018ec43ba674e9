-- ===== src/Kernel/Mapping/Entries.antt =====
-- The entries that `map` writes on the way to a page.
use Prim.Native.Nat.{bit_and, bit_or}
use nikka.Common.{
  ℕ, ◌/◌, ◌%◌, ◌^◌, ◌≡◌, refl, ap, ◌∙◌, true, false, ◌==◌, ok, arith, Bool-cases, inl, inr,
}
use nikka.Memory.Mmu.{set_frame}
use nikka.Memory.Mmu.Words.{
  IsEntry, IsFlags, IsAligned, flags_part, address_part, stored, flags_lem, flags_part-IsFlags,
}
use nikka.Memory.Mmu.Entry.{
  stored-IsEntry, stored-address, set_frame-stored, set_flags_lem, with_present,
  address_part-IsAligned,
}
use nikka.Memory.Mmu.Access.{IsOnWay, intermediate-IsOnWay, join-IsOnWay}
use nikka.Kernel.Mapping.{widen, intermediate_flags}
use nikka.Kernel.Mapping.Tree.{has_page, is_large}

-- An entry on the way to a table.
pub record LeadsTo (w n : ℕ) : Type 0 where
  pub entry : IsEntry w
  pub there : has_page w ≡ true
  pub small : is_large w ≡ false
  pub leads : address_part w ≡ n

stored-LeadsTo : (a f : ℕ) → IsAligned a → IsOnWay f → LeadsTo (stored a f) a
stored-LeadsTo a f h v =
    let small : stored a f / 2 ^ 7 % 2 ≡ 0 = omega (arith, v.small) in
    let there : stored a f % 2 ≡ 1 = omega (arith, v.there) in
    record {
      entry = stored-IsEntry a f h v.flags;
      there = ground arith;
      small = ground arith;
      leads = stored-address a f h v.flags;
    }

pub set_frame-LeadsTo :
    (n bits : ℕ)
    → IsAligned n
    → IsFlags bits
    → (w : ℕ) × (set_frame n (intermediate_flags bits) ≡ ok w) × LeadsTo w n
set_frame-LeadsTo n bits h v =
    let f = intermediate_flags bits in
    let way = intermediate-IsOnWay bits v in
    let same : with_present f ≡ f = omega (arith, way.there) in
    (
      stored n f,
      set_frame-stored n f h way.flags way.small ∙ ap (λ g. ok (stored n g)) same,
      stored-LeadsTo n f h way,
    )

flags_part-IsOnWay : (w n : ℕ) → LeadsTo w n → IsOnWay (flags_part w)
flags_part-IsOnWay w n l =
    let small : w / 2 ^ 7 % 2 ≡ 0 = ground (arith, l.small) in
    let there : w % 2 ≡ 1 = ground (arith, l.there) in
    record { flags = flags_part-IsFlags w l.entry.fits; small = omega arith; there = omega arith }

pub widen-LeadsTo :
    (w n bits : ℕ)
    → LeadsTo w n
    → IsFlags bits
    → (x : ℕ) × (widen w (intermediate_flags bits) ≡ ok x) × LeadsTo x n
unfolding widen
widen-LeadsTo w n bits l v =
    let f = flags_part w in
    let g = intermediate_flags bits in
    let joined = join-IsOnWay f g (flags_part-IsOnWay w n l) (intermediate-IsOnWay bits v) in
    let made = stored-LeadsTo (address_part w) (bit_or f g) (address_part-IsAligned w) joined in
    elim (Bool-cases (bit_and f g == g)) [
      | inl e ↦ (w, rw (flags_lem w l.entry, e) refl, l)
      | inr e ↦ (
        stored (address_part w) (bit_or f g),
        rw (flags_lem w l.entry, e) (set_flags_lem w (bit_or f g) l.entry joined.flags),
        record {
          entry = made.entry;
          there = made.there;
          small = made.small;
          leads = made.leads ∙ l.leads;
        },
      )
    ]
