-- ===== src/Heap/Quarry/Needed.antt =====
-- The pages that a number of allocations needs, slab by slab.
use native.Mathlib.Nat.{
  mul-le-mul_right, mul-div_cancel_left, div-mul-le_self, div-add-mod', mod-lt, le-div_iff_mul-le,
}
use nikka.Common.{
  true, ℕ, suc, ◌+◌, ◌*◌, ◌/◌, ◌%◌, ◌<◌, ◌≤◌, ◌≡◌, ◌≢◌, ◌⊎◌, inl, inr, refl, sym, ap, arith, ltb,
  ltb_iff, ◌==◌, if◌then◌else◌, Bool-cases, min,
}
use nikka.Collections.Bitmap.{div_ceil}
use nikka.Heap.Quarry.{
  Quarry, capacity, slab_index_of, offset_in_slab, pages_for, slabs_for, page_size, slab_page_count,
  slab_count,
}
use nikka.Heap.Quarry.Pages.{actual_allocations}
use nikka.Heap.Quarry.Address.{IsQuarry, fits_slab}

-- So many pages of the slab `j` are mapped for the first `n` allocations.
abbrev pub needed : Quarry → ℕ → ℕ → ℕ
needed q n j =
    if ltb j (slab_index_of q n)
    then slab_page_count
    else if j == slab_index_of q n
    then pages_for q (offset_in_slab q n)
    else 0

pub div_ceil-covers : (n : ℕ) → n ≤ div_ceil n 4096 * 4096
div_ceil-covers n = ground arith

div_ceil-le : (n m : ℕ) → n ≤ m * 4096 → div_ceil n 4096 ≤ m
div_ceil-le n m h = ground arith

pub pages_for-le :
    (q : Quarry) (r : ℕ)
    → IsQuarry q
    → r < q.slab_allocation_count
    → pages_for q r ≤ slab_page_count
pages_for-le q r v h = div_ceil-le (r * q.size) slab_page_count (omega (arith, fits_slab q r v h))

pub pages_for-pos : (q : Quarry) (r : ℕ) → IsQuarry q → 0 < r → 0 < pages_for q r
pages_for-pos q r v h =
    let more = mul-le-mul_right {m = 1} {n = r} q.size (omega arith) in
    positive (r * q.size) (omega (arith, v.some_size))
  where
    positive : (n : ℕ) → 0 < n → 0 < div_ceil n 4096
    positive n p = ground arith

within_last :
    (q : Quarry) (n r : ℕ)
    → r < pages_for q n * page_size / q.size
    → 0 < q.size
    → r * q.size + q.size ≤ pages_for q n * page_size
within_last q n r h p =
    let grown =
      mul-le-mul_right {m = suc r} {n = pages_for q n * page_size / q.size} q.size (omega arith) in
    let whole = div-mul-le_self (pages_for q n * page_size) q.size in
    let next : suc r * q.size ≡ r * q.size + q.size = grind arith in omega arith

-- A number below `k * c + m` has a smaller quotient by `c`, or the quotient `k` and a remainder below `m`.
quotient : (i k c m : ℕ) → 0 < c → m ≤ c → i < k * c + m → (i / c < k) ⊎ ((i / c ≡ k) × (i % c < m))
quotient i k c m p le h = elim (Bool-cases (ltb (i / c) k)) [
  | inl less ↦ inl ((ltb_iff _ k).0 less)
  | inr more ↦
      let split = div-add-mod' i c in
      let ge : k ≤ i / c = ground arith in
      elim (Bool-cases (k == i / c)) [
        | inl same ↦
            let e : k ≡ i / c = ground arith in
            let ec = ap (λ x. x * c) e in inr (sym e, omega arith)
        | inr other ↦
            let gt : suc k ≤ i / c = ground arith in
            let far = mul-le-mul_right {m = suc k} {n = i / c} c gt in
            let next : suc k * c ≡ k * c + c = grind arith in absurd (omega arith)
      ]
]

-- For a quarry and a number of allocations within its capacity: the number that `map` reports is at
-- least that and at most the capacity, and each allocation below it lies within the pages that the
-- requested ones need.
pub actual_allocations_lem :
    (q : Quarry) (n : ℕ)
    → IsQuarry q
    → n ≤ capacity q
    → (n ≤ actual_allocations q n)
      × (actual_allocations q n ≤ capacity q)
      × ((i : ℕ)
          → i < actual_allocations q n
          → offset_in_slab q i * q.size + q.size ≤ needed q n (slab_index_of q i) * page_size)
unfolding capacity
actual_allocations_lem q n v h = (
  least,
  omega arith,
  λ i lt.
      elim (quotient i (slab_index_of q n) q.slab_allocation_count
        (min (pages_for q (offset_in_slab q n) * page_size / q.size) q.slab_allocation_count)
        v.some_per_slab (omega arith) (omega arith)) [
          | inl below ↦
              let fits = fits_slab q (offset_in_slab q i) v (mod-lt i v.some_per_slab) in
              ground arith
          | inr (same, low) ↦
              let fits =
                within_last q (offset_in_slab q n) (offset_in_slab q i) (omega arith) v.some_size in
              ground arith
        ],
)
  where
    least : n ≤ actual_allocations q n
    least =
        let split = div-add-mod' n q.slab_allocation_count in
        let rem = mod-lt n v.some_per_slab in
        let covers = div_ceil-covers (offset_in_slab q n * q.size) in
        let last = (le-div_iff_mul-le v.some_size).1 covers in omega arith

pub needed-le : (q : Quarry) (n j : ℕ) → IsQuarry q → needed q n j ≤ slab_page_count
needed-le q n j v =
    let le = pages_for-le q (offset_in_slab q n) v (mod-lt n v.some_per_slab) in ground arith

pub needed-before : (q : Quarry) (n j : ℕ) → j < slab_index_of q n → needed q n j ≡ slab_page_count
needed-before q n j h = ground arith

pub needed-last :
    (q : Quarry) (n : ℕ) → needed q n (slab_index_of q n) ≡ pages_for q (offset_in_slab q n)
needed-last q n = ground arith

pub needed-behind : (q : Quarry) (n j : ℕ) → slab_index_of q n < j → needed q n j ≡ 0
needed-behind q n j h = ground arith

pub index_mono :
    (q : Quarry) (old new : ℕ) → IsQuarry q → old ≤ new → slab_index_of q old ≤ slab_index_of q new
index_mono q old new v h =
    let split = div-add-mod' old q.slab_allocation_count in
    (le-div_iff_mul-le {x = slab_index_of q old} {y = new} v.some_per_slab).1 (omega arith)

-- In one slab the larger number has the larger remainder.
pub same_index :
    (q : Quarry) (old new : ℕ)
    → slab_index_of q old ≡ slab_index_of q new
    → old < new
    → offset_in_slab q old < offset_in_slab q new
same_index q old new h lt =
    let a = div-add-mod' old q.slab_allocation_count in
    let b = div-add-mod' new q.slab_allocation_count in
    let same = ap (λ x. x * q.slab_allocation_count) h in omega arith

-- All slabs are full at the capacity.
pub index_at_capacity :
    (q : Quarry)
    → IsQuarry q
    → (slab_index_of q (capacity q) ≡ slab_count) × (offset_in_slab q (capacity q) ≡ 0)
unfolding capacity
index_at_capacity q v =
    let i = mul-div_cancel_left slab_count v.some_per_slab in
    let split = div-add-mod' (q.slab_allocation_count * slab_count) q.slab_allocation_count in
    let whole = ap (λ x. x * q.slab_allocation_count) i in (i, omega arith)

pub actual_at_capacity : (q : Quarry) → IsQuarry q → actual_allocations q (capacity q) ≡ capacity q
actual_at_capacity q v =
    let (least, most, rest) = actual_allocations_lem q (capacity q) v (omega arith) in omega arith

-- Two numbers that end in one slab need as many pages of each other slab.
pub needed-elsewhere :
    (q : Quarry) (old new j : ℕ)
    → slab_index_of q old ≡ slab_index_of q new
    → j ≢ slab_index_of q old
    → needed q new j ≤ needed q old j
needed-elsewhere q old new j same other = elim (Bool-cases (ltb j (slab_index_of q old))) [
  | inl before ↦
      let p : j < slab_index_of q old = ground arith in
      omega (arith, needed-before q old j p, needed-before q new j (omega arith))
  | inr behind ↦
      let p : slab_index_of q old < j = ground arith in
      omega (arith, needed-behind q old j p, needed-behind q new j (omega arith))
]

pub index-lt-slabs_for :
    (q : Quarry) (n : ℕ) → 0 < offset_in_slab q n → slab_index_of q n < slabs_for q n
index-lt-slabs_for q n h = ground arith

pub slabs_for-ge :
    (q : Quarry) (n : ℕ)
    → (slab_index_of q n ≤ slabs_for q n) × (slabs_for q n ≤ slab_index_of q n + 1)
slabs_for-ge q n = (ground arith, ground arith)

-- Behind the slabs of the first allocations nothing is needed.
pub needed-unreserved : (q : Quarry) (n j : ℕ) → slabs_for q n ≤ j → needed q n j ≡ 0
needed-unreserved q n j h = elim (Bool-cases (ltb 0 (offset_in_slab q n))) [
  | inl inside ↦
      needed-behind q n j
        (let k : slabs_for q n ≡ slab_index_of q n + 1 = rw inside refl in omega arith)
  | inr start ↦
      let z : offset_in_slab q n ≡ 0 = ground arith in
      let k : slabs_for q n ≡ slab_index_of q n = rw start refl in no_pages z (omega arith)
]
  where
    no_pages : offset_in_slab q n ≡ 0 → slab_index_of q n ≤ j → needed q n j ≡ 0
    no_pages z le = ground arith

-- Of each slab of the first allocations some page is needed.
pub needed-reserved : (q : Quarry) (n j : ℕ) → IsQuarry q → j < slabs_for q n → 0 < needed q n j
needed-reserved q n j v h = elim (Bool-cases (ltb j (slab_index_of q n))) [
  | inl before ↦ rw before (omega arith)
  | inr last ↦
      let inside : 0 < offset_in_slab q n = ground (arith, slabs_for-ge q n) in
      let e : j ≡ slab_index_of q n = ground (arith, slabs_for-ge q n) in
      let here : (j == slab_index_of q n) ≡ true = ground arith in
      rw (last, here) (pages_for-pos q (offset_in_slab q n) v inside)
]
