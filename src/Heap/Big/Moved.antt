-- ===== src/Heap/Big/Moved.antt =====
-- The part of `grow` of ku/src/allocator/big.rs that moves a block.
use nikka.Common.{
  ℕ, ◌+◌, ◌-◌, ◌<◌, ◌≤◌, ◌≡◌, ◌≢◌, ◌⊎◌, inl, inr, sym, ◌∙◌, arith, ap, subst, min, ltb, Bool-cases,
  Option, none, ok,
}
use nikka.Common.Effects.{◌>>◌, lift, return, ok_of_continue}
use nikka.Memory.Block.{Block, block, from_index, count}
use nikka.Memory.Block.Valid.{IsValid, from_index_iff}
use nikka.Heap.Big.{BigAllocator, page, map_rest, give_back, move_to}
use nikka.Heap.Big.Promises.{Inside, Outside, in_or_out, Promises, Grown}

module _ {A : Type 0} (self : BigAllocator A) (frame : A → ℕ → Option ℕ)
    (promise : Promises self frame) where
  give_back_lem :
      (old allocated new : Block) (a c : A)
      → give_back self old allocated a ≡ (c, ok new)
      → (new ≡ allocated)
        × ((p : ℕ) → (Inside old p → frame c p ≡ none) × (Outside old p → frame c p ≡ frame a p))
  unfolding give_back
  give_back_lem old allocated new a c h =
      let (u, b, unmapped, rest) =
        ok_of_continue (self.unmap old a) (λ _. self.unreserve old >> return allocated) c new h in
      let (v, d, unreserved, last) =
        ok_of_continue (self.unreserve old b) (λ _. return allocated) c new rest in
      (
        ground arith,
        λ p.
            let gone = promise.unmap_lem old a b unmapped p in
            let e : frame c p ≡ frame b p =
              ground (arith, promise.unreserve_lem old b d unreserved p) in
            (λ i. e ∙ gone.0 i, λ o. e ∙ gone.1 o),
      )

  -- The pages behind the first `count old` ones.
  map_rest_lem :
      (old allocated : Block) (flags : ℕ) (a c : A)
      → IsValid page allocated
      → count old ≤ count allocated
      → map_rest self old allocated flags a ≡ (c, ok tt)
      → (p : ℕ)
      → (allocated.start + count old ≤ p → p < allocated.end → frame c p ≢ none)
        × ((p < allocated.start + count old) ⊎ (allocated.end ≤ p) → frame c p ≡ frame a p)
  unfolding map_rest
  map_rest_lem old allocated flags a c v le h p =
      elim (Bool-cases (ltb (count old) (count allocated))) [
        | inl more ↦
            let k = rw more at h in
            let start = allocated.start + count old in
            let fits = v.fits in
            let (b, d, made, wrote) =
              ok_of_continue (lift (from_index page start allocated.end) a) (λ b. self.map b flags)
                c tt k in
            let made_ok : from_index page start allocated.end ≡ ok b = ground arith in
            let same_a : d ≡ a = ground arith in
            let e =
              (from_index_iff page start allocated.end b (omega arith) (omega arith)).0.0 made_ok in
            let wrote_block = subst (λ z. self.map z flags d ≡ (c, ok tt)) e.0 wrote in
            let m = promise.map_lem (block start allocated.end) flags d c wrote_block p in
            (λ i lt. m.0 (i, lt), λ o. m.1 o ∙ ap (λ z. frame z p) same_a)
        | inr equal ↦
            let k = rw equal at h in
            let same : a ≡ c = ground arith in
            (λ i lt. absurd (ground arith), λ o. sym (ap (λ z. frame z p) same))
      ]

  pub move_to_lem :
      (old allocated new : Block) (flags : ℕ) (a c : A)
      → IsValid page allocated
      → old.start ≤ old.end
      → count old ≤ count allocated
      → ((p : ℕ) → Inside old p → frame a p ≢ none)
      → ((p : ℕ) → Inside allocated p → frame a p ≡ none)
      → move_to self old flags allocated a ≡ (c, ok new)
      → (new ≡ allocated) × Grown frame old allocated a c
  unfolding move_to
  move_to_lem old allocated new flags a c v ordered le used unused h =
      let fits = v.fits in
      let ordered' = v.ordered in
      let copy_count = min (count old) (count allocated) in
      let all : copy_count ≡ count old = ground arith in
      let end = allocated.start + copy_count in
      let (b, d, made, rest) =
        ok_of_continue (lift (from_index page (allocated.start) end) a)
          (λ b.
            self.copy_mapping old b none
            >> (map_rest self old allocated flags >> give_back self old allocated))
          c new h in
      let made_ok : from_index page (allocated.start) end ≡ ok b = ground arith in
      let same_a : d ≡ a = ground arith in
      let e =
        (from_index_iff page (allocated.start) end b (omega arith) (omega arith)).0.0 made_ok in
      let (u, copied_to, copied, rest2) =
        ok_of_continue (self.copy_mapping old b none d)
          (λ _. map_rest self old allocated flags >> give_back self old allocated) c new rest in
      let (w, full, mapped, rest3) =
        ok_of_continue (map_rest self old allocated flags copied_to)
          (λ _. give_back self old allocated) c new rest2 in
      let (is, gone) = give_back_lem old allocated new full c rest3 in
      let copy =
        promise.copy_mapping_lem old (block (allocated.start) end) a copied_to (omega arith) (
          subst (λ z. self.copy_mapping old z none a ≡ (copied_to, ok tt)) e.0
            (subst (λ z. self.copy_mapping old b none z ≡ (copied_to, ok tt)) same_a copied)) in
      let more = map_rest_lem old allocated flags copied_to full v le mapped in
      let apart : (p : ℕ) → Inside allocated p → Outside old p =
        λ p i. elim (in_or_out old p) [ inl j ↦ absurd (used p j (unused p i)) | inr o ↦ o ] in
      let kept : (i : ℕ) → i < count old → frame c (allocated.start + i) ≡ frame a (old.start + i) =
        λ i lt.
          (gone (allocated.start + i)).1 (apart (allocated.start + i) (omega arith, omega arith))
          ∙ (more (allocated.start + i)).1 (inl (omega arith))
          ∙ copy.0 i (omega arith) in
      (
        is,
        record {
          kept = kept;
          mapped = λ p i.
              elim (in_or_out (block (allocated.start) (allocated.start + count old)) p) [
                | inl j ↦
                    let k = p - allocated.start in
                    let at : allocated.start + k ≡ p = omega arith in
                    λ e.
                      used (old.start + k) (omega arith, omega arith)
                        (sym (kept k (omega arith)) ∙ ap (λ z. frame c z) at ∙ e)
                | inr o ↦ λ e. (more p).0 (omega arith) i.1 (sym ((gone p).1 (apart p i)) ∙ e)
              ];
          freed = λ p i o. (gone p).0 i;
          others = λ p o n. (gone p).1 o ∙ (more p).1 (ground arith) ∙ copy.1 p (ground arith);
        },
      )
