-- ===== src/Heap/Quarry/Mapped.antt =====
-- `map` maps, slab by slab, the pages that the new allocations need and the old ones did not.
use nikka.Common.{
  ℕ, zero, suc, ◌+◌, ◌-◌, ◌<◌, ◌≤◌, ◌≡◌, ◌≢◌, inl, inr, refl, sym, ◌∙◌, ap, arith, true, ltb,
  ltb_iff, ◌==◌, if◌then◌else◌, Bool-cases, Outcome,
}
use nikka.Common.Effects.{M, continue, ◌>>=◌, return}
use nikka.Memory.Block.{block}
use nikka.Memory.Block.Parts.{slice_lem}
use nikka.Kernel.Range.{page}
use nikka.Heap.Big.{BigAllocator}
use nikka.Heap.Quarry.{
  Quarry, capacity, slab, slab_index_of, offset_in_slab, pages_for, slabs_for, slab_page_count,
  slab_count,
}
use nikka.Heap.Quarry.Pages.{
  map_slice, map_slab, map_slabs, complete_slab, map_to_capacity, map_in_slab, map_over_slabs,
  map_reserved, actual_allocations,
}
use nikka.Heap.Quarry.Address.{IsQuarry, slab-default, slab_of-lt}
use nikka.Heap.Quarry.Needed.{
  needed, pages_for-pos, needed-le, needed-before, needed-last, needed-behind, index_mono,
  index_at_capacity, actual_at_capacity, same_index, needed-elsewhere, index-lt-slabs_for,
  slabs_for-ge, needed-unreserved,
}
use nikka.Heap.Quarry.Counts.{plus, plus-ext, plus_then}
use nikka.Heap.Quarry.Missing.{
  IsReserved, map_missing, map_all_missing, none_missing, nothing_missing, split_missing,
  one_missing, alone,
}

module _ {A : Type 0} (fallback : BigAllocator A) (q : Quarry) (old new : ℕ) where
  module _ (v : IsQuarry q) where
    map_slice_lem :
        (j : ℕ) (a : A)
        → IsReserved q j
        → needed q new j ≤ slab_page_count
        → needed q old j < needed q new j
        → map_slice fallback q j (needed q old j) (needed q new j) a
          ≡ map_missing fallback q old new j a
    unfolding map_slice slab map_missing
    map_slice_lem j a (start, there, s) small less =
        let e = slab-default start s.there in
        let part =
          (slice_lem page (block start (start + slab_page_count)) (needed q old j) (needed q new j)
              s.whole).0
            (omega arith) (omega arith) (omega arith) in
        let t : ltb (needed q old j) (needed q new j) ≡ true = ground arith in
        rw (there, t, e, part.0) refl

    -- The pages of one slab are mapped if there are any.
    slice_if_any :
        (j start end : ℕ) (a : A)
        → needed q old j ≡ start
        → needed q new j ≡ end
        → (start < end → IsReserved q j)
        → (if ltb start end then map_slice fallback q j start end else return 0) a
          ≡ map_missing fallback q old new j a
    slice_if_any j start end a p r there = elim (Bool-cases (ltb start end)) [
      | inl some_missing ↦
          let lt : start < end = ground arith in
          let small = needed-le q new j v in
          rw some_missing (rw (← p, ← r) (map_slice_lem j a (there lt) small (omega arith)))
      | inr full ↦
          let ge : end ≤ start = ground arith in
          rw full (sym (none_missing fallback q old new j a (omega arith)))
    ]

    map_slab_lem :
        (j : ℕ) (a : A)
        → IsReserved q j
        → needed q old j ≡ 0
        → needed q new j ≡ slab_page_count
        → map_slab fallback q j a ≡ map_missing fallback q old new j a
    unfolding map_slab slab map_missing
    map_slab_lem j a (start, there, s) before after =
        let e = slab-default start s.there in
        let z : start + 0 ≡ start = omega arith in rw (there, e, before, after, z) refl

    map_slabs_lem :
        (j left : ℕ) (a : A)
        → ((i : ℕ)
            → j ≤ i
            → i < j + left
            → IsReserved q i × (needed q old i ≡ 0) × (needed q new i ≡ slab_page_count))
        → map_slabs fallback q j left a ≡ map_all_missing fallback q old new j left a
    unfolding map_slabs map_all_missing
    map_slabs_lem j zero a h = refl
    map_slabs_lem j (suc left) a h =
        let (there, before, after) = h j (omega arith) (omega arith) in
        plus-ext (map_slab fallback q j) (map_slabs fallback q (suc j) left)
          (map_all_missing fallback q old new (suc j) left) a
          (λ s. map_slabs_lem (suc j) left s (λ i p r. h i (omega arith) (omega arith)))
        ∙ ap
            (λ o.
              continue o
                (λ n. map_all_missing fallback q old new (suc j) left >>= λ m. return (n + m)))
            (map_slab_lem j a there before after)

    full_before : (i : ℕ) → i < slab_index_of q old → needed q new i ≤ needed q old i
    full_before i h = omega (arith, needed-before q old i h, needed-le q new i v)

    -- The first slab of which pages may be missing, in which the old allocations end.
    complete_lem :
        (a : A)
        → slab_index_of q old < slab_index_of q new
        → (0 < offset_in_slab q old → IsReserved q (slab_index_of q old))
        → complete_slab fallback q old a ≡ map_all_missing fallback q old new 0 (slabs_for q old) a
    unfolding complete_slab
    complete_lem a lt there = elim (Bool-cases (ltb 0 (offset_in_slab q old))) [
      | inl inside ↦
          let io : ℕ = slab_index_of q old in
          let e : io + 1 ≡ io + suc 0 = omega arith in
          rw (inside, e)
            (slice_if_any io (pages_for q (offset_in_slab q old)) slab_page_count a
                (needed-last q old) (needed-before q new io lt) (λ x. there (ground arith))
              ∙ sym (alone fallback q old new io 0 a (λ i p r. full_before i (below i p r))))
      | inr start ↦ rw start (
          sym (
            nothing_missing fallback q old new 0 (slab_index_of q old) a
              (λ i p r. full_before i (omega arith))))
    ]
      where
        below :
            (i : ℕ)
            → i ≢ slab_index_of q old
            → i < slab_index_of q old + 1
            → i < slab_index_of q old
        below i p r = ground arith

    unfoldable pub MapsMissing : A × Outcome (ℕ × ℕ) → A → Type 0
    MapsMissing result a =
        result
        ≡ continue (map_all_missing fallback q old new 0 slab_count a)
            (λ n. return (n, actual_allocations q new))

    module _ (less : old < new) (fits : new ≤ capacity q)
        (there : (j : ℕ) → j < slabs_for q new → IsReserved q j) where
      in_slab_lem :
          (a : A)
          → slab_index_of q old ≡ slab_index_of q new
          → slab_index_of q new < slab_count
          → MapsMissing (map_in_slab fallback q old new a) a
      unfolding map_in_slab MapsMissing
      in_slab_lem a same lt =
          let i : ℕ = slab_index_of q old in
          let all : slab_count ≡ i + suc (15 - i) = omega arith in
          let one =
            alone fallback q old new i (15 - i) a (λ j p r. needed-elsewhere q old new j same p) in
          let this =
            slice_if_any i (pages_for q (offset_in_slab q old)) (pages_for q (offset_in_slab q new))
              a (needed-last q old) (ap (needed q new) same ∙ needed-last q new)
              (λ x. there i (
                omega (
                  arith,
                  index-lt-slabs_for q new (omega (arith, same_index q old new same less)),
                ))) in
          ap (λ o. continue o (λ n. return (n, actual_allocations q new)))
            (this ∙ sym one ∙ ap (λ k. map_all_missing fallback q old new 0 k a) (sym all))

      -- The loop over whole slabs, from the first one that is not begun.
      loop_lem :
          (a : A)
          → slab_index_of q old < slab_index_of q new
          → map_slabs fallback q (slabs_for q old) (slab_index_of q new - slabs_for q old) a
            ≡ map_all_missing fallback q old new
                (slabs_for q old)
                (slab_index_of q new - slabs_for q old)
                a
      loop_lem a lt =
          let bounds = slabs_for-ge q old in
          let more = slabs_for-ge q new in
          map_slabs_lem (slabs_for q old) (slab_index_of q new - slabs_for q old) a (λ i p r. (
            there i (omega arith),
            needed-unreserved q old i p,
            needed-before q new i (omega arith),
          ))

      old_there : slab_index_of q old < slab_index_of q new → IsReserved q (slab_index_of q old)
      old_there lt = let more = slabs_for-ge q new in there (slab_index_of q old) (omega arith)

      -- The slabs before that in which the new allocations end.
      first_slabs :
          (a : A)
          → slab_index_of q old < slab_index_of q new
          → plus
              (complete_slab fallback q old)
              (map_slabs fallback q (slabs_for q old) (slab_index_of q new - slabs_for q old))
              a
            ≡ map_all_missing fallback q old new 0 (slab_index_of q new) a
      first_slabs a lt =
          let bounds = slabs_for-ge q old in
          let all : slabs_for q old + (slab_index_of q new - slabs_for q old)
              ≡ slab_index_of q new =
            omega arith in
          let here : 0 + slabs_for q old ≡ slabs_for q old = omega arith in
          plus-ext (complete_slab fallback q old)
            (map_slabs fallback q (slabs_for q old) (slab_index_of q new - slabs_for q old))
            (map_all_missing fallback q old new (slabs_for q old)
              (slab_index_of q new - slabs_for q old))
            a (λ s. loop_lem s lt)
          ∙ ap
              (λ o. continue o (λ n.
                map_all_missing fallback q old new (slabs_for q old)
                  (slab_index_of q new - slabs_for q old)
                >>= λ m. return (n + m)))
              (complete_lem a lt (λ x. old_there lt))
          ∙ sym (
              rw (all, here) at
                (split_missing fallback q old new 0 (slabs_for q old)
                  (slab_index_of q new - slabs_for q old) a))

      -- The slab in which the new allocations end.
      last_slab :
          (a : A)
          → slab_index_of q old < slab_index_of q new
          → slab_index_of q new < slab_count
          → (if ltb 0 (offset_in_slab q new)
                then map_slice fallback q
                    (slab_index_of q new)
                    0
                    (pages_for q (offset_in_slab q new))
                else return 0)
              a
            ≡ map_all_missing fallback q old new
                (slab_index_of q new)
                (slab_count - slab_index_of q new)
                a
      last_slab a lt small =
          let left : slab_count - slab_index_of q new ≡ suc (15 - slab_index_of q new) =
            omega arith in
          let rest =
            one_missing fallback q old new (slab_index_of q new) (15 - slab_index_of q new) a
              (λ i p r. omega (arith, needed-behind q new i p)) in
          let before = needed-behind q old (slab_index_of q new) lt in
          elim (Bool-cases (ltb 0 (offset_in_slab q new))) [
            | inl inside ↦
                let some_pages = pages_for-pos q (offset_in_slab q new) v (ground arith) in
                let pos : ltb 0 (pages_for q (offset_in_slab q new)) ≡ true =
                  (ltb_iff 0 _).1 some_pages in
                let this =
                  slice_if_any (slab_index_of q new) 0 (pages_for q (offset_in_slab q new)) a before
                    (needed-last q new)
                    (λ x. there (slab_index_of q new) (index-lt-slabs_for q new (ground arith))) in
                rw (inside, left) (rw pos at this ∙ sym rest)
            | inr start ↦
                let nothing =
                  needed-unreserved q new (slab_index_of q new) (
                    let e : slabs_for q new ≡ slab_index_of q new = rw start refl in omega arith) in
                rw (start, left)
                  (sym
                    (rest ∙ none_missing fallback q old new (slab_index_of q new) a (omega arith)))
          ]

      over_slabs_lem :
          (a : A)
          → slab_index_of q old < slab_index_of q new
          → slab_index_of q new < slab_count
          → MapsMissing (map_over_slabs fallback q old new a) a
      unfolding map_over_slabs MapsMissing
      over_slabs_lem a lt small =
          let all : slab_index_of q new + (slab_count - slab_index_of q new) ≡ slab_count =
            omega arith in
          let this =
            plus-ext (plus front middle) back
              (map_all_missing fallback q old new (slab_index_of q new)
                (slab_count - slab_index_of q new))
              a (λ s. last_slab s lt small)
            ∙ ap
                (λ o. continue o (λ n.
                  map_all_missing fallback q old new (slab_index_of q new)
                    (slab_count - slab_index_of q new)
                  >>= λ m. return (n + m)))
                (first_slabs a lt)
            ∙ sym (
                rw (all, here) at
                  (split_missing fallback q old new 0 (slab_index_of q new)
                    (slab_count - slab_index_of q new) a)) in
          sym (plus_then front middle (λ n. back >>= λ k. counted (n + k)) a)
          ∙ sym (plus_then (plus front middle) back counted a)
          ∙ ap (λ o. continue o counted) this
        where
          front : M A ℕ
          front = complete_slab fallback q old

          middle : M A ℕ
          middle = map_slabs fallback q (slabs_for q old) (slab_index_of q new - slabs_for q old)

          back : M A ℕ
          back =
              if ltb 0 (offset_in_slab q new)
              then map_slice fallback q (slab_index_of q new) 0 (pages_for q (offset_in_slab q new))
              else return 0

          counted : ℕ → M A (ℕ × ℕ)
          counted n = return (n, actual_allocations q new)

          here : 0 + slab_index_of q new ≡ slab_index_of q new
          here = omega arith

      to_capacity_lem :
          (a : A)
          → slab_index_of q new ≡ slab_count
          → actual_allocations q new ≡ new
          → MapsMissing (map_to_capacity fallback q old new a) a
      unfolding map_to_capacity MapsMissing
      to_capacity_lem a whole actual =
          let lt : slab_index_of q old < slab_index_of q new =
            omega (arith, slab_of-lt q old v.some_per_slab (omega arith)) in
          let first = rw whole at (first_slabs a lt) in
          sym (
            plus_then (complete_slab fallback q old)
              (map_slabs fallback q (slabs_for q old) (slab_count - slabs_for q old))
              (λ n. return (n, new)) a)
          ∙ ap (λ o. continue o (λ n. return (n, new))) first
          ∙ ap
              (λ z.
                continue (map_all_missing fallback q old new 0 slab_count a) (λ n. return (n, z)))
              (sym actual)

      -- For a quarry, fewer old than new allocations, these within the capacity and their slabs reserved:
      -- whatever the allocator does, `map` makes the same calls as a loop over all slabs that maps of
      -- each the pages that the new allocations need and the old ones did not, and ends as it does. The
      -- result is the count of these pages, and the number of allocations that the pages have room for.
      pub map_reserved_lem : (a : A) → MapsMissing (map_reserved fallback q old new a) a
      unfolding map_reserved
      map_reserved_lem a = elim (Bool-cases (new == capacity q)) [
        | inl full ↦
            let e : new ≡ capacity q = ground arith in
            let at_capacity = index_at_capacity q v in
            rw full (to_capacity_lem a (rw e at_capacity.0) (rw e (actual_at_capacity q v)))
        | inr part ↦
            let small = slab_of-lt q new v.some_per_slab (ground arith) in
            let le = index_mono q old new v (omega arith) in
            elim (Bool-cases (slab_index_of q old == slab_index_of q new)) [
              | inl same ↦ rw (part, same) (in_slab_lem a (ground arith) small)
              | inr other ↦ rw (part, other) (over_slabs_lem a (ground arith) small)
            ]
      ]
