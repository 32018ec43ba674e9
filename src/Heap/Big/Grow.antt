-- ===== src/Heap/Big/Grow.antt =====
-- What `grow` of ku/src/allocator/big.rs does to the mappings of pages.
use nikka.Common.{
  ℕ, ◌+◌, ◌-◌, ◌*◌, ◌/◌, ◌<◌, ◌≤◌, ◌≡◌, ◌≢◌, inl, inr, refl, sym, ◌∙◌, arith, ap, subst, leb, ◌==◌,
  if◌then◌else◌, Bool-cases, Option, none, Outcome, ok, err, panic, ◌^◌,
}
use nikka.Common.Errors.{assert}
use nikka.Common.Effects.{◌>>=◌, continue, lift, return, ok_of_continue}
use nikka.Memory.Block.{Block, block, from_index, count, size, is_empty}
use nikka.Memory.Block.Valid.{IsValid, from_index_iff}
use nikka.Heap.Big.{BigAllocator, page, move_to, extend_or_move, grow_to, grow_block, grow}
use nikka.Heap.Big.Promises.{Inside, in_or_out, start_low, Promises, Grown}
use nikka.Heap.Big.Moved.{move_to_lem}

module _ {A : Type 0} (self : BigAllocator A) (frame : A → ℕ → Option ℕ)
    (promise : Promises self frame) where
  -- Extension in place keeps the old block.
  in_place_lem :
      (old : Block) (n flags : ℕ) (a b c : A)
      → old.start ≤ old.end
      → old.end < n
      → ((p : ℕ) → Inside old p → frame a p ≢ none)
      → ((p : ℕ) → frame b p ≡ frame a p)
      → self.map (block (old.end) n) flags b ≡ (c, ok tt)
      → Grown frame old (block (old.start) n) a c
  in_place_lem old n flags a b c ordered more used same h =
      let m = promise.map_lem (block (old.end) n) flags b c h in
      record {
        kept = λ i lt. (m (old.start + i)).1 (inl (omega arith)) ∙ same (old.start + i);
        mapped = λ p i. elim (in_or_out old p) [
          | inl j ↦ λ e. used p j (sym (same p) ∙ sym ((m p).1 (inl (j.1))) ∙ e)
          | inr o ↦ (m p).0 (omega arith)
        ];
        freed = λ p i o. absurd (omega arith);
        others = λ p o n. (m p).1 (omega arith) ∙ same p;
      }

  -- A new block for an empty one.
  first_lem :
      (old given : Block) (flags : ℕ) (a b c : A)
      → old.start ≡ old.end
      → ((p : ℕ) → frame b p ≡ frame a p)
      → self.map given flags b ≡ (c, ok tt)
      → Grown frame old given a c
  first_lem old given flags a b c empty same h =
      let m = promise.map_lem given flags b c h in
      record {
        kept = λ i lt. absurd (omega arith);
        mapped = λ p i. (m p).0 i;
        freed = λ p i o. absurd (omega arith);
        others = λ p o n. (m p).1 n ∙ same p;
      }

  Grown-same :
      (old new : Block) (a b c : A)
      → ((p : ℕ) → frame b p ≡ frame a p)
      → Grown frame old new b c
      → Grown frame old new a c
  Grown-same old new a b c same g = record {
    kept = λ i lt. g.kept i lt ∙ same (old.start + i);
    mapped = g.mapped;
    freed = g.freed;
    others = λ p o n. g.others p o n ∙ same p;
  }

  moved_lem :
      (old new : Block) (n align flags : ℕ) (a b c : A)
      → old.start ≤ old.end
      → count old * 4096 ≤ n
      → ((p : ℕ) → Inside old p → frame a p ≢ none)
      → ((p : ℕ) → frame b p ≡ frame a p)
      → continue (self.reserve n align b) (move_to self old flags) ≡ (c, ok new)
      → (n ≤ count new * 4096) × Grown frame old new a c
  moved_lem old new n align flags a b c ordered le used same h =
      let (given, d, reserved, moved) =
        ok_of_continue (self.reserve n align b) (move_to self old flags) c new h in
      let (v, room, same', unused) = promise.reserve_lem n align b d given reserved in
      let before : (p : ℕ) → frame d p ≡ frame a p = λ p. same' p ∙ same p in
      let (is, g) =
        move_to_lem self frame promise old given new flags d c v ordered (omega arith)
          (λ p i e. used p i (sym (before p) ∙ e)) (λ p i. same' p ∙ unused p i) moved in
      let at_given = Grown-same old given a d c before g in
      subst (λ z. (n ≤ count z * 4096) × Grown frame old z a c) (sym is) (room, at_given)

  extend_or_move_lem :
      (old new : Block) (n size align flags : ℕ) (a : A) (r : A × Outcome (Unit {0})) (c : A)
      → old.start ≤ old.end
      → old.end < n
      → size ≤ (n - old.start) * 4096
      → count old * 4096 ≤ size
      → ((p : ℕ) → Inside old p → frame a p ≢ none)
      → ((p : ℕ) → frame (r.0) p ≡ frame a p)
      → extend_or_move self old (block (old.start) n) (block (old.end) n) size align flags r
        ≡ (c, ok new)
      → (size ≤ count new * 4096) × Grown frame old new a c
  unfolding extend_or_move
  extend_or_move_lem old new n size align flags a (b, ok u) c ordered more room le used same h =
      let (w, d, wrote, last) =
        ok_of_continue (self.map (block (old.end) n) flags b) (λ _. return (block (old.start) n)) c
          new h in
      let is : new ≡ block (old.start) n = ground arith in
      let at : d ≡ c = ground arith in
      let g =
        in_place_lem old n flags a b c ordered more used same
          (subst (λ z. self.map (block (old.end) n) flags b ≡ (z, ok tt)) at wrote) in
      subst (λ z. (size ≤ count z * 4096) × Grown frame old z a c) (sym is) (room, g)
  extend_or_move_lem old new n size align flags a (b, err e) c ordered more room le used same h =
      moved_lem old new size align flags a b c ordered le used same h
  extend_or_move_lem old new n size align flags a (b, panic) c ordered more room le used same h =
      absurd (ground arith)

  -- The part of `grow` for a block with pages, when the new block has the end `m`.
  grow_to_lem :
      (old new : Block) (n m align flags : ℕ) (a c : A)
      → old.start ≤ old.end
      → m < 2 ^ 64
      → old.end < 2 ^ 64
      → old.end ≤ m
      → n ≤ (m - old.start) * 4096
      → count old * 4096 ≤ n
      → ((p : ℕ) → Inside old p → frame a p ≢ none)
      → grow_to self old n align flags (block (old.start) m) a ≡ (c, ok new)
      → (n ≤ count new * 4096) × Grown frame old new a c
  unfolding grow_to
  grow_to_lem old new n m align flags a c ordered fits fits' end room le used h =
      elim (Bool-cases (count old == count (block (old.start) m))) [
        | inl equal ↦
            let k = rw equal at h in
            let is : old ≡ new = ground arith in
            let at : a ≡ c = ground arith in
            let here : Grown frame old old a a = record {
              kept = λ i lt. refl;
              mapped = used;
              freed = λ p i o. absurd (omega arith);
              others = λ p o n. refl;
            } in
            let fine : n ≤ count old * 4096 = ground arith in
            subst (λ z. (n ≤ count z * 4096) × Grown frame old z a c) is
              (fine, subst (λ z. Grown frame old old a z) at here)
        | inr more ↦
            let k = rw more at h in
            let (b, d, made, rest) =
              ok_of_continue (lift (from_index page (old.end) m) a)
                (λ additional d.
                  extend_or_move self old (block (old.start) m) additional n align flags
                    (self.reserve_fixed additional d))
                c new k in
            let made_ok : from_index page (old.end) m ≡ ok b = ground arith in
            let same_a : d ≡ a = ground arith in
            let e = (from_index_iff page (old.end) m b fits' fits).0.0 made_ok in
            let rest' =
              subst
                (λ z.
                  extend_or_move self old (block (old.start) m) z n align flags
                    (self.reserve_fixed z d)
                  ≡ (c, ok new))
                e.0 rest in
            extend_or_move_lem old new m n align flags a (self.reserve_fixed (block (old.end) m) d)
              c ordered (ground arith) room le used
              (λ p. promise.reserve_fixed_lem (block (old.end) m) d p ∙ ap (λ z. frame z p) same_a)
              rest'
      ]

  grow_block_lem :
      (old new : Block) (n align flags : ℕ) (a c : A)
      → IsValid page old
      → n < 2 ^ 63
      → count old * 4096 ≤ n
      → ((p : ℕ) → Inside old p → frame a p ≢ none)
      → grow_block self old n align flags a ≡ (c, ok new)
      → (n ≤ count new * 4096) × Grown frame old new a c
  unfolding grow_block
  grow_block_lem old new n align flags a c v small le used h =
      let ordered = v.ordered in
      let end_fits = v.fits in
      let low : old.start * 4096 < 2 ^ 64 = start_low old v in
      let m = old.start + (n + 4096 - 1) / 4096 in
      let (b, d, made, rest) =
        ok_of_continue (lift (from_index page (old.start) m) a) (grow_to self old n align flags) c
          new h in
      let made_ok : from_index page (old.start) m ≡ ok b = ground arith in
      let same_a : d ≡ a = ground arith in
      let e = (from_index_iff page (old.start) m b (omega arith) (omega arith)).0.0 made_ok in
      grow_to_lem old new n m align flags a c ordered (omega arith) end_fits (omega arith)
        (omega arith) le used
        (subst (λ z. grow_to self old n align flags z a ≡ (c, ok new)) e.0
          (subst (λ z. grow_to self old n align flags b z ≡ (c, ok new)) same_a rest))

  -- With an allocator that keeps the promises of the trait, let `grow` return a block for a valid
  -- block of mapped pages and a size that is below 2 ^ 63. Then the returned block has room for the
  -- size, its first pages have the frames of the old block, all of its pages are mapped, pages
  -- of the old block that are not in it are not mapped any more, and all other pages are as before.
  pub grow_lem :
      (old new : Block) (n align flags : ℕ) (a c : A)
      → IsValid page old
      → n < 2 ^ 63
      → ((p : ℕ) → Inside old p → frame a p ≢ none)
      → grow self old n align flags a ≡ (c, ok new)
      → (n ≤ count new * 4096) × Grown frame old new a c
  unfolding grow
  grow_lem old new n align flags a c v small used h =
      let (u, b, fine, rest) =
        ok_of_continue (lift (assert (leb (size page old) n)) a)
          (λ _ b.
            (if is_empty old
              then continue (self.reserve n align b)
                  (λ new_block. self.map new_block flags >>= λ _. return new_block)
              else grow_block self old n align flags b))
          c new h in
      let le : count old * 4096 ≤ n = ground arith in
      let same : b ≡ a = ground arith in
      let rest' =
        subst
          (λ z.
            (if is_empty old
              then continue (self.reserve n align z)
                  (λ new_block. self.map new_block flags >>= λ _. return new_block)
              else grow_block self old n align flags z)
            ≡ (c, ok new))
          same rest in
      elim (Bool-cases (is_empty old)) [
        | inl empty ↦
            let k = rw empty at rest' in
            let (given, d, reserved, last) =
              ok_of_continue (self.reserve n align a)
                (λ new_block. self.map new_block flags >>= λ _. return new_block) c new k in
            let (w, f, wrote, last2) =
              ok_of_continue (self.map given flags d) (λ _. return given) c new last in
            let (valid, room, same', unused) = promise.reserve_lem n align a d given reserved in
            let is : given ≡ new = ground arith in
            let at : f ≡ c = ground arith in
            let g = first_lem old given flags a d f (ground arith) same' wrote in
            subst (λ z. (n ≤ count z * 4096) × Grown frame old z a c) is
              (room, subst (λ z. Grown frame old given a z) at g)
        | inr full ↦ grow_block_lem old new n align flags a c v small le used (rw full at rest')
      ]
