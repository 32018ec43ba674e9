-- ===== src/Heap/Quarry/Reserve.antt =====
-- `reserve` keeps the quarry in order, and with it `map` is the loop over the slabs.
use mathlib.Core.Option.{some-injective}
use nikka.Common.{
  false, max, ◌==◌, ℕ, zero, suc, ◌+◌, ◌-◌, ◌*◌, ◌/◌, ◌%◌, ◌<◌, ◌≤◌, ◌≡◌, ◌≢◌, ◌⊎◌, inl, inr, refl,
  sym, ◌∙◌, ap, subst, arith, true, ltb, leb, if◌then◌else◌, Bool-cases, get_elem?,
  get_elem?-set_self, get_elem?-set_ne, length, length-set, some, Outcome, ok,
}
use nikka.Common.Effects.{continue, return, continue-ext_ok, ok_of_continue}
use nikka.Memory.Block.{Block}
use nikka.Heap.Big.{BigAllocator}
use nikka.Heap.Quarry.{
  Quarry, capacity, offset_in_slab, slabs_for, slab_size, page_size, slab_count,
}
use nikka.Heap.Quarry.Pages.{
  Store, in_allocator, set_slab, reserve_slab, reserve_slabs, reserve, map, map_reserved,
  actual_allocations,
}
use nikka.Heap.Quarry.Address.{IsSlab, IsQuarry}
use nikka.Heap.Quarry.Missing.{IsReserved, map_all_missing}
use nikka.Heap.Quarry.Address.{slab_of-lt}
use nikka.Heap.Quarry.Needed.{index_at_capacity, slabs_for-ge}
use nikka.Heap.Quarry.Slabs.{reserve_all_missing, all_lem}
use nikka.Heap.Quarry.Mapped.{map_reserved_lem, MapsMissing}

-- What the allocator promises of a slab that it reserves.
abbrev pub ReservesSlabs : {A : Type 0} → BigAllocator A → Type 0
ReservesSlabs {A} fallback =
    (a a' : A) (b : Block) → fallback.reserve slab_size page_size a ≡ (a', ok b) → IsSlab b.start

-- The slabs from `first` to `end` are reserved now, and the others are as they were.
pub record Reserves (q r : Quarry) (first end : ℕ) : Type 0 where
  pub size : r.size ≡ q.size
  pub per_slab : r.slab_allocation_count ≡ q.slab_allocation_count
  pub slab_places : length r.slabs ≡ length q.slabs
  pub inside : (j : ℕ) → first ≤ j → j < end → IsReserved r j
  pub outside : (j : ℕ) → (j < first) ⊎ (end ≤ j) → get_elem? r.slabs j ≡ get_elem? q.slabs j

module _ {A : Type 0} (fallback : BigAllocator A) (promise : ReservesSlabs fallback) where
  set_slab_lem :
      (j start : ℕ) (s t : Store A)
      → set_slab fallback j start s ≡ (t, ok tt)
      → IsSlab start
      → Reserves s.quarry t.quarry j (suc j)
  set_slab_lem j start s t h g = elim (Bool-cases (ltb j (length s.quarry.slabs))) [
    | inl within ↦
        subst (λ u. Reserves s.quarry u.quarry j (suc j)) (ap (λ x. x.0) (rw within at h))
          (record {
            size = refl;
            per_slab = refl;
            slab_places = length-set s.quarry.slabs j start;
            inside = λ i p r.
                let e : i ≡ j = omega arith in
                let lt : j < length s.quarry.slabs = ground arith in
                (start, rw e (get_elem?-set_self s.quarry.slabs j start lt), g);
            outside = λ i o. get_elem?-set_ne s.quarry.slabs j i start (apart i o);
          })
    | inr beyond ↦ let k = rw beyond at h in ground arith
  ]
    where
      apart : (i : ℕ) → (i < j) ⊎ (suc j ≤ i) → j ≢ i
      apart i o = ground arith

  in_allocator-ok :
      {X : Type 0} (q : Quarry) (p : A × Outcome X) (m : Store A) (x : X)
      → in_allocator fallback q p ≡ (m, ok x)
      → (q ≡ m.quarry) × (p ≡ (m.allocator, ok x))
  in_allocator-ok q (a, r) m x h = (ap (λ y. y.0.quarry) h, ap (λ y. (y.0.allocator, y.1)) h)

  reserve_slab_lem :
      (j : ℕ) (s t : Store A)
      → reserve_slab fallback j s ≡ (t, ok tt)
      → Reserves s.quarry t.quarry j (suc j)
  unfolding reserve_slab
  reserve_slab_lem j s t h =
      let (b, m, called, wrote) =
        ok_of_continue
          (in_allocator fallback s.quarry (fallback.reserve slab_size page_size s.allocator))
          (λ b. set_slab fallback j b.start) t tt h in
      let (same, result) =
        in_allocator-ok s.quarry (fallback.reserve slab_size page_size s.allocator) m b called in
      let good = promise s.allocator m.allocator b result in
      rw same (set_slab_lem j b.start m t wrote good)

  joined :
      (q r t : Quarry) (j k : ℕ)
      → suc j ≤ k
      → Reserves q r j (suc j)
      → Reserves r t (suc j) k
      → Reserves q t j k
  joined q r t j k le f g = record {
    size = g.size ∙ f.size;
    per_slab = g.per_slab ∙ f.per_slab;
    slab_places = g.slab_places ∙ f.slab_places;
    inside = λ i p o. elim (first_or_later i p) [
      | inl e ↦
          let (start, there, good) = f.inside i (omega arith) (omega arith) in
          (start, g.outside i (inl (omega arith)) ∙ there, good)
      | inr later ↦ g.inside i later o
    ];
    outside = λ i o. elim o [
      | inl before ↦ g.outside i (inl (omega arith)) ∙ f.outside i (inl before)
      | inr behind ↦ g.outside i (inr behind) ∙ f.outside i (inr (omega arith))
    ];
  }
    where
      first_or_later : (i : ℕ) → j ≤ i → (i ≡ j) ⊎ (suc j ≤ i)
      first_or_later i p = ground arith

  reserve_slabs_lem :
      (j left : ℕ) (s t : Store A)
      → reserve_slabs fallback j left s ≡ (t, ok tt)
      → Reserves s.quarry t.quarry j (j + left)
  unfolding reserve_slabs
  reserve_slabs_lem j zero s t h =
      subst (λ u. Reserves s.quarry u.quarry j (j + 0)) (ap (λ x. x.0) h)
        (record {
          size = refl;
          per_slab = refl;
          slab_places = refl;
          inside = λ i p o. absurd (omega arith);
          outside = λ i o. refl;
        })
  reserve_slabs_lem j (suc left) s t h =
      let (u, m, one, others) =
        ok_of_continue (reserve_slab fallback j s) (λ _. reserve_slabs fallback (suc j) left) t tt
          h in
      let e : j + suc left ≡ suc j + left = omega arith in
      rw e (
        joined s.quarry m.quarry t.quarry j (suc j + left) (omega arith)
          (reserve_slab_lem j s m one) (reserve_slabs_lem (suc j) left m t others))

  slabs_for-same :
      (q r : Quarry) (n : ℕ)
      → r.slab_allocation_count ≡ q.slab_allocation_count
      → slabs_for r n ≡ slabs_for q n
  slabs_for-same q r n h = ap (λ c. if ltb 0 (n % c) then n / c + 1 else n / c) h

  -- The slabs of the first `n` allocations are reserved.
  abbrev pub HasSlabs : Quarry → ℕ → Type 0
  HasSlabs q n = (j : ℕ) → j < slabs_for q n → IsReserved q j

  capacity-same :
      (q r : Quarry) → r.slab_allocation_count ≡ q.slab_allocation_count → capacity r ≡ capacity q
  unfolding capacity
  capacity-same q r h = ap (λ c. c * slab_count) h

  module _ (old new : ℕ) (s t : Store A) (v : IsQuarry s.quarry) (had : HasSlabs s.quarry old)
      (done : Reserves s.quarry t.quarry
        (slabs_for s.quarry old)
        (slabs_for s.quarry old + (slabs_for s.quarry new - slabs_for s.quarry old))) where
    old_or_new : (j : ℕ) → (j < slabs_for s.quarry old) ⊎ (slabs_for s.quarry old ≤ j)
    old_or_new j = omega arith

    has_slabs : HasSlabs t.quarry new
    has_slabs j lt = elim (old_or_new j) [
      | inl before ↦
          let (start, there, good) = had j before in
          (start, done.outside j (inl before) ∙ there, good)
      | inr later ↦
          done.inside j later (omega (arith, slabs_for-same s.quarry t.quarry new done.per_slab))
    ]

    -- A slab is reserved now, or as it was.
    now_or_before :
        (j : ℕ) → IsReserved t.quarry j ⊎ (get_elem? t.quarry.slabs j ≡ get_elem? s.quarry.slabs j)
    now_or_before j = elim (cases j) [
      | inl (later, before) ↦ inl (done.inside j later before)
      | inr other ↦ inr (done.outside j other)
    ]
      where
        end : ℕ
        end = slabs_for s.quarry old + (slabs_for s.quarry new - slabs_for s.quarry old)

        cases :
            (j : ℕ)
            → ((slabs_for s.quarry old ≤ j) × (j < end))
              ⊎ ((j < slabs_for s.quarry old) ⊎ (end ≤ j))
        cases j = omega arith

    slabs_good : (j start : ℕ) → get_elem? t.quarry.slabs j ≡ some start → start ≢ 0 → IsSlab start
    slabs_good j start there nz = elim (now_or_before j) [
      | inl (known, at_j, good) ↦ rw (some-injective known start (sym at_j ∙ there)) at good
      | inr same ↦ v.slabs_IsSlab j start (sym same ∙ there) nz
    ]

    still_IsQuarry : IsQuarry t.quarry
    still_IsQuarry = record {
      some_size = rw done.size v.some_size;
      per_slab = rw (done.per_slab, done.size) v.per_slab;
      some_per_slab = rw done.per_slab v.some_per_slab;
      slab_places = done.slab_places ∙ v.slab_places;
      slabs_IsSlab = slabs_good;
    }

  reserve_first :
      (old new : ℕ) (s : Store A)
      → old < new
      → reserve fallback old new s
        ≡ reserve_slabs fallback
            (slabs_for s.quarry old)
            (slabs_for s.quarry new - slabs_for s.quarry old)
            s
  unfolding reserve
  reserve_first old new s less = let l : ltb old new ≡ true = ground arith in rw l refl

  map_then :
      (old new : ℕ) (s : Store A)
      → old < new
      → new ≤ capacity s.quarry
      → map fallback old new s
        ≡ continue (reserve fallback old new s) (λ _ t.
          in_allocator fallback t.quarry (map_reserved fallback t.quarry old new t.allocator))
  unfolding map
  map_then old new s less fits =
      let l : ltb old new ≡ true = ground arith in
      let f : leb new (capacity s.quarry) ≡ true = ground arith in rw (l, f) refl

  slabs_for-le : (q : Quarry) (n : ℕ) → IsQuarry q → n ≤ capacity q → slabs_for q n ≤ 16
  slabs_for-le q n v fits = elim (Bool-cases (n == capacity q)) [
    | inl all ↦
        let e : n ≡ capacity q = ground arith in
        let (index, offset) = index_at_capacity q v in
        let start : ltb 0 (offset_in_slab q (capacity q)) ≡ false = rw offset refl in
        rw (e, start, index) (omega arith)
    | inr fewer ↦
        let lt : n < capacity q = ground arith in
        omega (arith, slab_of-lt q n v.some_per_slab lt, slabs_for-ge q n)
  ]

  -- `reserve` is the loop over all slabs that reserves the missing ones.
  reserve_lem :
      (old new : ℕ) (s : Store A)
      → IsQuarry s.quarry
      → old < new
      → new ≤ capacity s.quarry
      → reserve fallback old new s ≡ reserve_all_missing fallback s.quarry old new 0 slab_count s
  reserve_lem old new s v less fits =
      let first = slabs_for s.quarry old in
      let last = slabs_for s.quarry new in
      let m : max 0 first ≡ first = omega arith in
      reserve_first old new s less
      ∙ (let all =
            all_lem fallback s.quarry old new v first last refl refl
              (slabs_for-le s.quarry new v fits) 16 0 s refl v.slab_places in
          rw m at all)

  -- For an allocator that reserves whole slabs, and a quarry whose first `old` allocations have their
  -- slabs: `map` to more allocations, as many as the capacity included, makes the same calls and ends in
  -- the same way, whatever the allocator answers, as two loops over all slabs. The first reserves each
  -- slab that the new allocations need and the old ones did not, also if it is reserved already. The
  -- second maps of each slab the pages that the new allocations need and the old ones did not. The result
  -- is the count of these pages, with the number of allocations that the pages have room for.
  pub map_lem :
      (old new : ℕ) (s : Store A)
      → IsQuarry s.quarry
      → HasSlabs s.quarry old
      → old < new
      → new ≤ capacity s.quarry
      → map fallback old new s
        ≡ continue (reserve_all_missing fallback s.quarry old new 0 slab_count s) (λ _ t.
          in_allocator fallback t.quarry (
            continue
              (map_all_missing fallback t.quarry old new 0 slab_count t.allocator)
              (λ n. return (n, actual_allocations t.quarry new))))
  unfolding MapsMissing
  map_lem old new s v had less fits =
      called
      ∙ continue-ext_ok (reserve fallback old new s) _ _ (λ u t run.
        let done = reserve_slabs_lem first more s t (sym reserved ∙ run) in
        let v' = still_IsQuarry old new s t v had done in
        let fits' : new ≤ capacity t.quarry =
          rw (capacity-same s.quarry t.quarry done.per_slab) fits in
        ap (in_allocator fallback t.quarry) (
          map_reserved_lem fallback t.quarry old new v' less fits'
            (has_slabs old new s t v had done) t.allocator))
      ∙ ap (λ r. continue r finish) (reserve_lem old new s v less fits)
    where
      first : ℕ
      first = slabs_for s.quarry old

      more : ℕ
      more = slabs_for s.quarry new - slabs_for s.quarry old

      reserved : reserve fallback old new s ≡ reserve_slabs fallback first more s
      reserved = reserve_first old new s less

      called :
          map fallback old new s
          ≡ continue (reserve fallback old new s) (λ _ t.
            in_allocator fallback t.quarry (map_reserved fallback t.quarry old new t.allocator))
      called = map_then old new s less fits

      finish : Unit {0} → Store A → Store A × Outcome (ℕ × ℕ)
      finish u t = in_allocator fallback t.quarry (
          continue (map_all_missing fallback t.quarry old new 0 slab_count t.allocator)
            (λ n. return (n, actual_allocations t.quarry new)))
