-- ===== src/Heap/Quarry/Address.antt =====
-- The address of an allocation leads back to its index.
use native.Mathlib.Nat.{mul-le-mul_right, mul-div_cancel, div-add-mod', mod-lt, div-mul-le_self}
use mathlib.Core.Option.{some-injective}
use nikka.Common.{
  ℕ, zero, suc, ◌+◌, ◌-◌, ◌*◌, ◌/◌, ◌%◌, ◌^◌, ◌<◌, ◌≤◌, ◌≡◌, ◌≢◌, ◌⊎◌, inl, inr, refl, sym, ◌∙◌, ap,
  arith, true, false, ltb, ltb_iff, leb, leb_iff, ◌==◌, Bool-cases, get_elem?, get_elem?_of_lt,
  length, List, Option, some, Outcome, ok,
}
use nikka.Memory.Addr.{virt}
use nikka.Memory.Addr.Ranges.{IsAddr}
use nikka.Memory.Block.{block, contains_address}
use nikka.Memory.Block.Valid.{IsValid}
use nikka.Memory.Block.Contains.{contains_address_iff, ends_at_gap}
use nikka.Kernel.Range.{page}
use nikka.Heap.Quarry.{
  Quarry, capacity, slab, slab_at, slab_index_of, offset_in_slab, allocation, allocation_index,
  index_from, index_in, slab_size, page_size, slab_page_count, slab_count,
}

-- A slab that is reserved: whole, and not at the end of the lower half.
pub record IsSlab (start : ℕ) : Type 0 where
  pub there : start ≢ 0
  pub whole : IsValid page (block start (start + slab_page_count))
  pub no_gap : ends_at_gap page (block start (start + slab_page_count)) ≡ false

pub record IsQuarry (q : Quarry) : Type 0 where
  pub some_size : 0 < q.size
  pub per_slab : q.slab_allocation_count ≡ slab_size / q.size
  pub some_per_slab : 0 < q.slab_allocation_count
  pub slab_places : length q.slabs ≡ slab_count
  pub slabs_IsSlab : (j start : ℕ) → get_elem? q.slabs j ≡ some start → start ≢ 0 → IsSlab start

-- No page stands in two slabs.
unfoldable pub AreApart : List ℕ → Type 0
AreApart slabs =
    (i j s t : ℕ)
    → get_elem? slabs i ≡ some s
    → get_elem? slabs j ≡ some t
    → i ≢ j
    → s ≢ 0
    → t ≢ 0
    → (s + slab_page_count ≤ t) ⊎ (t + slab_page_count ≤ s)

pub fits_slab :
    (q : Quarry) (r : ℕ)
    → IsQuarry q
    → r < q.slab_allocation_count
    → r * q.size + q.size ≤ slab_size
fits_slab q r v h =
    let grown = mul-le-mul_right {m = suc r} {n = q.slab_allocation_count} q.size (omega arith) in
    let whole = div-mul-le_self slab_size q.size in
    let next : suc r * q.size ≡ r * q.size + q.size = grind arith in
    let same : q.slab_allocation_count * q.size ≡ slab_size / q.size * q.size =
      ap (λ c. c * q.size) v.per_slab in
    omega arith

in_slab :
    (s a : ℕ) → IsSlab s → s * page_size ≤ a → a < (s + slab_page_count) * page_size → IsAddr virt a
in_slab s a v p q = ground arith

pub slab-default : (s : ℕ) → s ≢ 0 → slab_at s ≡ block s (s + slab_page_count)
slab-default s h = ground arith

-- What a slab that is not that of the address leaves to the loop.
passed_over :
    (q : Quarry) (j s a : ℕ) (rest : Outcome (Option ℕ))
    → IsAddr virt a
    → (s ≢ 0 → IsSlab s)
    → (s ≢ 0 → (a < s * page_size) ⊎ ((s + slab_page_count) * page_size ≤ a))
    → index_in q j a rest (slab_at s) ≡ rest
unfolding index_in
passed_over q j s a rest addr good out = elim (Bool-cases (s == 0)) [
  | inl none_there ↦ rw none_there refl
  | inr some_there ↦
      let nz : s ≢ 0 = ground arith in
      let v = good nz in
      let apart = out nz in
      let iff = contains_address_iff page (block s (s + slab_page_count)) a v.whole addr v.no_gap in
      let not_in : contains_address page (block s (s + slab_page_count)) a ≡ false =
        elim (Bool-cases (contains_address page (block s (s + slab_page_count)) a)) [
          | inl inside ↦ let both = iff.0 inside in absurd (omega arith)
          | inr outside ↦ outside
        ] in
      rw some_there (rw not_in (ground arith))
]

found_in :
    (q : Quarry) (j s a o : ℕ) (rest : Outcome (Option ℕ))
    → IsSlab s
    → IsAddr virt a
    → a ≡ s * page_size + o
    → a < (s + slab_page_count) * page_size
    → index_in q j a rest (slab_at s) ≡ ok (some (j * q.slab_allocation_count + o / q.size))
unfolding index_in
found_in q j s a o rest v addr place below =
    let iff = contains_address_iff page (block s (s + slab_page_count)) a v.whole addr v.no_gap in
    let inside : contains_address page (block s (s + slab_page_count)) a ≡ true =
      iff.1 (omega arith, below) in
    let there : (s == 0) ≡ false = ground (arith, v.there) in
    let le : leb (s * page_size) a ≡ true = (leb_iff (s * page_size) a).1 (omega arith) in
    let rest_of : a - s * page_size ≡ o = omega arith in
    rw (there, inside, le, rest_of) (rw there refl)

-- The loop finds the slab of the address, which lies ahead.
module _ (q : Quarry) (i s a o : ℕ) (v : IsQuarry q) (apart : AreApart q.slabs)
    (own : get_elem? q.slabs i ≡ some s) (slab_s : IsSlab s) (addr : IsAddr virt a)
    (place : a ≡ s * page_size + o) (below : a < (s + slab_page_count) * page_size) where
  index_from_lem :
      (j left : ℕ)
      → j + left ≡ slab_count
      → j ≤ i
      → i < slab_count
      → index_from q a j left ≡ ok (some (i * q.slab_allocation_count + o / q.size))
  unfolding index_from slab AreApart
  index_from_lem j zero total le lt = absurd (omega arith)
  index_from_lem j (suc left) total le lt =
      let (t, at_j) = get_elem?_of_lt q.slabs j (omega (arith, v.slab_places)) in
      elim (Bool-cases (j == i)) [
        | inl here ↦
            let e : j ≡ i = ground arith in
            let es : t ≡ s = some-injective t s (sym at_j ∙ rw e own) in
            rw (at_j, es, e)
              (found_in q i s a o (index_from q a (suc i) left) slab_s addr place below)
        | inr other ↦
            let ne : j ≢ i = ground arith in
            rw at_j (
              passed_over q j t a (index_from q a (suc j) left) addr
                (λ nz. v.slabs_IsSlab j t at_j nz)
                (λ nz. outside t nz (apart j i t s at_j own ne nz slab_s.there))
              ∙ index_from_lem (suc j) left (omega arith) (ground arith) lt)
      ]
    where
      outside :
          (t : ℕ)
          → t ≢ 0
          → (t + slab_page_count ≤ s) ⊎ (s + slab_page_count ≤ t)
          → (a < t * page_size) ⊎ ((t + slab_page_count) * page_size ≤ a)
      outside t nz (inl h) = inr (omega arith)
      outside t nz (inr h) = inl (omega arith)

pub slab_of-lt :
    (q : Quarry) (i : ℕ)
    → 0 < q.slab_allocation_count
    → i < capacity q
    → slab_index_of q i < slab_count
unfolding capacity
slab_of-lt q i p h =
    let split = div-add-mod' i q.slab_allocation_count in
    elim (Bool-cases (ltb (slab_index_of q i) slab_count)) [
      | inl below ↦ (ltb_iff _ slab_count).0 below
      | inr above ↦
          let le : slab_count ≤ slab_index_of q i = ground arith in
          let more =
            mul-le-mul_right {m = slab_count} {n = slab_index_of q i} q.slab_allocation_count le in
          absurd (omega arith)
    ]

-- For a quarry whose slabs are apart and an index of a slab that is reserved: `allocation` gives an
-- address with room for one allocation in that slab, and `allocation_index` of the address gives the
-- index back.
pub allocation_index-allocation :
    (q : Quarry) (i s : ℕ)
    → IsQuarry q
    → AreApart q.slabs
    → i < capacity q
    → get_elem? q.slabs (slab_index_of q i) ≡ some s
    → s ≢ 0
    → (a : ℕ) × (allocation q i ≡ ok a)
      × (s * page_size ≤ a)
      × (a + q.size ≤ (s + slab_page_count) * page_size)
      × (allocation_index q a ≡ ok (some i))
unfolding allocation allocation_index slab
allocation_index-allocation q i s v apart h own nz =
    let good = v.slabs_IsSlab (slab_index_of q i) s own nz in
    let o : ℕ = offset_in_slab q i * q.size in
    let inner = fits_slab q (offset_in_slab q i) v (mod-lt i v.some_per_slab) in
    let a : ℕ = s * page_size + o in
    let below : a < (s + slab_page_count) * page_size = omega (arith, v.some_size) in
    let addr = in_slab s a good (omega arith) below in
    let lt : ltb i (capacity q) ≡ true = (ltb_iff i (capacity q)).1 h in
    let word : a % 2 ^ 64 ≡ a = omega arith in
    let there : (s == 0) ≡ false = ground arith in
    let back : slab_index_of q i * q.slab_allocation_count + o / q.size ≡ i =
      rw (mul-div_cancel (offset_in_slab q i) v.some_size)
        (div-add-mod' i q.slab_allocation_count) in
    (
      a,
      rw (lt, own, there) (rw there (ap (λ x. ok x) word)),
      omega arith,
      omega arith,
      index_from_lem q (slab_index_of q i) s a o v apart own good addr refl below 0 slab_count refl
            (omega arith) (slab_of-lt q i v.some_per_slab h)
          ∙ ap (λ x. ok (some x)) back,
    )
