-- ===== src/Heap/Quarry/Slabs.antt =====
-- `reserve` reserves, slab by slab, those that the new allocations need and the old ones did not.
use nikka.Common.{
  ℕ, zero, suc, ◌+◌, ◌-◌, ◌^◌, ◌<◌, ◌≤◌, ◌≡◌, ◌⊎◌, inl, inr, refl, sym, ◌∙◌, ap, arith, true, false,
  ltb, ◌==◌, ◌&&◌, if◌then◌else◌, Bool-cases, set, length, length-set, max, ok,
}
use nikka.Common.Effects.{M, continue, ◌>>=◌, return, continue-ext_ok, ok_of_continue}
use nikka.Memory.Block.{Block}
use nikka.Heap.Big.{BigAllocator}
use nikka.Heap.Quarry.{Quarry, slabs_for}
use nikka.Heap.Quarry.Pages.{Store, in_allocator, reserve_slab, reserve_slabs}
use nikka.Heap.Quarry.Address.{IsQuarry}
use nikka.Heap.Quarry.Needed.{needed, needed-unreserved, needed-reserved}

module _ {A : Type 0} (fallback : BigAllocator A) (q : Quarry) (old new : ℕ) where
  -- The start of a slab is noted.
  abbrev place : ℕ → Block → M (Store A) (Unit {0})
  place j b s =
      (record s { quarry = record (s.quarry) { slabs = set s.quarry.slabs j b.start } }, ok tt)

  -- The slab `j`, of 1 MiB, if the new allocations need pages of it and the old ones did not.
  unfoldable pub reserve_missing : ℕ → M (Store A) (Unit {0})
  reserve_missing j s =
      if needed q old j == 0 && ltb 0 (needed q new j)
      then continue (in_allocator fallback s.quarry (fallback.reserve (2 ^ 20) 4096 s.allocator))
          (place j)
      else (s, ok tt)

  -- The same of so many slabs from `j` on.
  unfoldable pub reserve_all_missing : ℕ → ℕ → M (Store A) (Unit {0})
  unfolding reserve_missing
  reserve_all_missing j zero = return tt
  reserve_all_missing j (suc left) = reserve_missing j >>= λ _. reserve_all_missing (suc j) left

  module _ (v : IsQuarry q) (first last : ℕ) (is_first : first ≡ slabs_for q old)
      (is_last : last ≡ slabs_for q new) (below : last ≤ 16) where
    -- Which slabs are missing.
    not_before : (j : ℕ) → j < first → (needed q old j == 0) ≡ false
    not_before j lt = let pos = needed-reserved q old j v (omega arith) in ground arith

    missing :
        (j : ℕ) → first ≤ j → j < last → (needed q old j == 0 && ltb 0 (needed q new j)) ≡ true
    missing j le lt =
        let none_old = needed-unreserved q old j (omega arith) in
        let pos = needed-reserved q new j v (omega arith) in ground arith

    not_behind : (j : ℕ) → last ≤ j → ltb 0 (needed q new j) ≡ false
    not_behind j le = let z = needed-unreserved q new j (omega arith) in ground arith

    skip_before : (j : ℕ) (s : Store A) → j < first → reserve_missing j s ≡ (s, ok tt)
    unfolding reserve_missing
    skip_before j s lt = rw (not_before j lt) refl

    skip_behind : (j : ℕ) (s : Store A) → last ≤ j → reserve_missing j s ≡ (s, ok tt)
    unfolding reserve_missing
    skip_behind j s le = elim (Bool-cases (needed q old j == 0)) [
      | inl a ↦ rw (a, not_behind j le) refl
      | inr b ↦ rw b refl
    ]

    reserve_here :
        (j : ℕ) (s : Store A)
        → first ≤ j
        → j < last
        → length s.quarry.slabs ≡ 16
        → reserve_slab fallback j s ≡ reserve_missing j s
    unfolding reserve_slab reserve_missing
    reserve_here j s le lt long = rw (missing j le lt) (
        continue-ext_ok
          (in_allocator fallback s.quarry (fallback.reserve (2 ^ 20) 4096 s.allocator)) _ _
          (λ b t run.
            let same : s.quarry ≡ t.quarry = ap (λ y. y.0.quarry) run in
            let long' : length t.quarry.slabs ≡ 16 =
              ap (λ (r : Quarry). length r.slabs) (sym same) ∙ long in
            let inside : ltb j (length t.quarry.slabs) ≡ true = ground arith in rw inside refl))

    keeps_length :
        (j : ℕ) (s t : Store A)
        → reserve_missing j s ≡ (t, ok tt)
        → length t.quarry.slabs ≡ length s.quarry.slabs
    unfolding reserve_missing
    keeps_length j s t h = elim (Bool-cases (needed q old j == 0 && ltb 0 (needed q new j))) [
      | inl asked ↦
          let (b, m, run, placed) =
            ok_of_continue
              (in_allocator fallback s.quarry (fallback.reserve (2 ^ 20) 4096 s.allocator))
              (place j) t tt (rw asked at h) in
          ap (λ y. length y.0.quarry.slabs) (sym placed)
          ∙ length-set m.quarry.slabs j b.start
          ∙ ap (λ y. length y.0.quarry.slabs) (sym run)
      | inr left_alone ↦ ap (λ y. length y.0.quarry.slabs) (sym (rw left_alone at h))
    ]

    place_of : (j : ℕ) → (j < first) ⊎ ((first ≤ j) × (j < last)) ⊎ ((first ≤ j) × (last ≤ j))
    place_of j = omega arith

    pub all_lem :
        (left j : ℕ) (s : Store A)
        → j + left ≡ 16
        → length s.quarry.slabs ≡ 16
        → reserve_slabs fallback (max j first) (last - max j first) s ≡ reserve_all_missing j left s
    unfolding reserve_slabs reserve_all_missing
    all_lem zero j s e long = let z : last - max j first ≡ 0 = omega arith in rw z refl
    all_lem (suc left) j s e long = elim (place_of j) [
      | inl before ↦
          let m : max j first ≡ max (suc j) first = omega arith in
          rw (m, skip_before j s before) (all_lem left (suc j) s (omega arith) long)
      | inr (inl (le, lt)) ↦
          let m : max j first ≡ j = omega arith in
          let m' : max (suc j) first ≡ suc j = omega arith in
          let n : last - j ≡ suc (last - suc j) = omega arith in
          rw (m, n)
            (ap (λ r. continue r (λ _. reserve_slabs fallback (suc j) (last - suc j)))
                (reserve_here j s le lt long)
              ∙ continue-ext_ok (reserve_missing j s) _ _ (λ u t run.
                let rest = all_lem left (suc j) t (omega arith) (keeps_length j s t run ∙ long) in
                rw m' at rest))
      | inr (inr (le, behind)) ↦
          let z : last - max j first ≡ 0 = omega arith in
          let z' : last - max (suc j) first ≡ 0 = omega arith in
          let rest = rw z' at (all_lem left (suc j) s (omega arith) long) in
          rw (z, skip_behind j s behind) rest
    ]
