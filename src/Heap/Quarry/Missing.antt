-- ===== src/Heap/Quarry/Missing.antt =====
-- The pages that the allocations of a quarry miss, slab by slab.
use nikka.Common.{
  ℕ, zero, suc, ◌+◌, ◌-◌, ◌<◌, ◌≤◌, ◌≡◌, ◌≢◌, refl, sym, ◌∙◌, arith, false, ltb, if◌then◌else◌,
  get_elem?, Option, some, none, ok,
}
use nikka.Common.Effects.{M, ◌>>=◌, return}
use nikka.Memory.Block.{block}
use nikka.Heap.Big.{BigAllocator}
use nikka.Heap.Quarry.{Quarry}
use nikka.Heap.Quarry.Pages.{map_block}
use nikka.Heap.Quarry.Address.{IsSlab}
use nikka.Heap.Quarry.Needed.{needed}
use nikka.Heap.Quarry.Counts.{plus, plus-ext, zero-plus, skip-plus, plus-zero, plus_assoc}

abbrev pub start_of : Option ℕ → ℕ
start_of none = 0
start_of (some start) = start

-- The slab `j` is reserved.
abbrev pub IsReserved : Quarry → ℕ → Type 0
IsReserved q j = (start : ℕ) × (get_elem? q.slabs j ≡ some start) × IsSlab start

module _ {A : Type 0} (fallback : BigAllocator A) (q : Quarry) (old new : ℕ) where
  -- The pages of the slab `j` that the new allocations need and the old ones did not.
  unfoldable pub map_missing : ℕ → M A ℕ
  map_missing j =
      let start = start_of (get_elem? q.slabs j) in
      if ltb (needed q old j) (needed q new j)
      then (map_block fallback q (block (start + needed q old j) (start + needed q new j)) >>= λ _.
          return (needed q new j - needed q old j))
      else return 0

  pub none_missing : (j : ℕ) (a : A) → needed q new j ≤ needed q old j → map_missing j a ≡ (a, ok 0)
  unfolding map_missing
  none_missing j a h =
      let none_here : ltb (needed q old j) (needed q new j) ≡ false = ground arith in
      rw none_here refl

  -- The same of so many slabs from `j` on, and the count of all these pages.
  unfoldable pub map_all_missing : ℕ → ℕ → M A ℕ
  unfolding map_missing
  map_all_missing j zero = return 0
  map_all_missing j (suc left) = plus (map_missing j) (map_all_missing (suc j) left)

  -- Slabs that miss no page are left alone.
  pub nothing_missing :
      (j left : ℕ) (a : A)
      → ((i : ℕ) → j ≤ i → i < j + left → needed q new i ≤ needed q old i)
      → map_all_missing j left a ≡ (a, ok 0)
  unfolding map_all_missing
  nothing_missing j zero a h = refl
  nothing_missing j (suc left) a h =
      let none_here : ltb (needed q old j) (needed q new j) ≡ false =
        ground (arith, h j (omega arith) (omega arith)) in
      let rest = nothing_missing (suc j) left a (λ i p r. h i (omega arith) (omega arith)) in
      rw (none_here, rest) refl

  pub split_missing :
      (j x y : ℕ) (a : A)
      → map_all_missing j (x + y) a ≡ plus (map_all_missing j x) (map_all_missing (j + x) y) a
  unfolding map_all_missing
  split_missing j zero y a =
      let e : 0 + y ≡ y = omega arith in
      let f : j + 0 ≡ j = omega arith in rw (e, f) (sym (zero-plus (map_all_missing j y) a))
  split_missing j (suc x) y a =
      let e : suc x + y ≡ suc (x + y) = omega arith in
      let f : j + suc x ≡ suc j + x = omega arith in
      rw (e, f)
        (plus-ext (map_missing j) (map_all_missing (suc j) (x + y)) _ a (split_missing (suc j) x y)
          ∙ sym (
              plus_assoc (map_missing j) (map_all_missing (suc j) x) (map_all_missing (suc j + x) y)
                a))

  -- Pages are missing of the first slab only.
  pub one_missing :
      (j left : ℕ) (a : A)
      → ((i : ℕ) → j < i → i < j + suc left → needed q new i ≤ needed q old i)
      → map_all_missing j (suc left) a ≡ map_missing j a
  unfolding map_all_missing
  one_missing j left a h =
      plus-ext (map_missing j) (map_all_missing (suc j) left) (return 0) a
        (λ s. nothing_missing (suc j) left s (λ i p r. h i (omega arith) (omega arith)))
      ∙ plus-zero (map_missing j) a

  -- Pages are missing of the slab `k` only.
  pub alone :
      (k left : ℕ) (a : A)
      → ((i : ℕ) → i ≢ k → i < k + suc left → needed q new i ≤ needed q old i)
      → map_all_missing 0 (k + suc left) a ≡ map_missing k a
  alone k left a h =
      let e : 0 + k ≡ k = omega arith in
      split_missing 0 k (suc left) a
      ∙ skip-plus (map_all_missing 0 k) (map_all_missing (0 + k) (suc left)) a
          (nothing_missing 0 k a (λ i p r. h i (λ z. absurd (omega arith)) (omega arith)))
      ∙ rw e (one_missing k left a (λ i p r. h i (λ z. absurd (omega arith)) r))
