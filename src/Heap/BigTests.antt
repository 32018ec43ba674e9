-- ===== src/Heap/BigTests.antt =====
-- The theorems about the allocator of pages at concrete arguments.
use nikka.Common.{
  ℕ, ◌+◌, ◌-◌, ◌*◌, ◌/◌, ◌<◌, ◌≤◌, ◌≡◌, ◌≢◌, ◌⊎◌, inl, inr, refl, subst, sym, ◌∙◌, arith, ap, true,
  false, Bool, ◌&&◌, leb, ltb, max, ◌^◌, if◌then◌else◌, Bool-cases, Option, some, none, Outcome, ok,
  err, no_page,
}
use nikka.Memory.Block.{Block, block, from_index, count}
use nikka.Memory.Block.Valid.{IsValid}
use nikka.Heap.Big.{
  BigAllocator, page, grow, grow_block, grow_to, extend_or_move, move_to, map_rest, give_back,
}
use nikka.Heap.Big.Promises.{Inside, Outside, Promises, Grown}
use nikka.Heap.Big.Grow.{grow_lem}

-- The pages from `next` on are free, and those before it are mapped as `at` says.
record Pages : Type 0 where
  next : ℕ
  at : ℕ → Option ℕ

abbrev frame : Pages → ℕ → Option ℕ
frame a p = if ltb p a.next then a.at p else none

abbrev inside : Block → ℕ → Bool
inside b p = leb b.start p && ltb p b.end

abbrev put : Block → (ℕ → Option ℕ) → Pages → Pages
put b f a = record { next = max a.next b.end; at = λ p. if inside b p then f p else frame a p }

frame-put_at :
    (b : Block) (f : ℕ → Option ℕ) (a : Pages) (p : ℕ) → Inside b p → frame (put b f a) p ≡ f p
frame-put_at b f a p i = ground arith

frame-put_elsewhere :
    (b : Block) (f : ℕ → Option ℕ) (a : Pages) (p : ℕ)
    → Outside b p
    → frame (put b f a) p ≡ frame a p
frame-put_elsewhere b f a p o = ground arith

abbrev nowhere : ℕ → Option ℕ
nowhere p = none

-- Pages that are free stay so when they are put nowhere.
frame-put_next :
    (b : Block) (a : Pages) (p : ℕ) → a.next ≤ b.start → frame (put b nowhere a) p ≡ frame a p
frame-put_next b a p h = ground arith

abbrev next_block : ℕ → Pages → Block
next_block n a = block (a.next) (a.next + (n + 4095) / 4096)

-- An allocator that gives pages in a row, of the lower half.
abbrev row_of_pages : BigAllocator Pages
row_of_pages = record {
  flags = λ a. 7;
  reserve = λ n align a.
      if leb 1 a.next && leb (next_block n a).end (2 ^ 20)
      then (put (next_block n a) nowhere a, ok (next_block n a))
      else (a, err no_page);
  reserve_fixed = λ b a. if leb a.next b.start then (put b nowhere a, ok tt) else (a, err no_page);
  unreserve = λ b a. (a, ok tt);
  map = λ b flags a. (put b (λ p. some p) a, ok tt);
  unmap = λ b a. (put b nowhere a, ok tt);
  copy_mapping = λ old new flags a. (put new (λ p. frame a (old.start + (p - new.start))) a, ok tt);
}

next_block-IsValid :
    (n : ℕ) (a : Pages) → 1 ≤ a.next → (next_block n a).end ≤ 2 ^ 20 → IsValid page (next_block n a)
next_block-IsValid n a h k = record {
  ordered = omega arith;
  starts = inl (omega arith);
  ends = ground arith;
  fits = omega arith;
}

put_lem :
    (b : Block) (f : ℕ → Option ℕ) (a c : Pages)
    → put b f a ≡ c
    → (p : ℕ) → (Inside b p → frame c p ≡ f p) × (Outside b p → frame c p ≡ frame a p)
put_lem b f a c h p = (
  λ i. sym (ap (λ z. frame z p) h) ∙ frame-put_at b f a p i,
  λ o. sym (ap (λ z. frame z p) h) ∙ frame-put_elsewhere b f a p o,
)

reserves :
    (n align : ℕ) (a b : Pages) (given : Block)
    → row_of_pages.reserve n align a ≡ (b, ok given)
    → (1 ≤ a.next)
      × ((next_block n a).end ≤ 2 ^ 20)
      × (next_block n a ≡ given)
      × (put (next_block n a) nowhere a ≡ b)
reserves n align a b given h =
    elim (Bool-cases (leb 1 a.next && leb (next_block n a).end (2 ^ 20))) [
      | inl room ↦
          let k = rw room at h in
          (ground arith, ground arith, ap (λ z. block_of z.1) k, ap (λ z. z.0) k)
      | inr full ↦ absurd (no_block (ap (λ z. z.1) (rw full at h)))
    ]
  where
    block_of : Outcome Block → Block
    block_of (ok c) = c
    block_of other = given

    no_block : err no_page ≢ ok given
    no_block e = ground arith

row_of_pages-Promises : Promises row_of_pages frame
row_of_pages-Promises = record {
  reserve_lem = λ n align a b given h.
      let (low, high, is, made) = reserves n align a b given h in
      subst
        (λ z.
          IsValid page z
          × (n ≤ count z * 4096)
          × ((p : ℕ) → frame b p ≡ frame a p)
          × ((p : ℕ) → Inside z p → frame a p ≡ none))
        is
        (
          next_block-IsValid n a low high,
          omega arith,
          λ p. sym (ap (λ z. frame z p) made) ∙ frame-put_next (next_block n a) a p (omega arith),
          λ p i. ground arith,
        );
  reserve_fixed_lem = λ given a p. elim (Bool-cases (leb a.next given.start)) [
    | inl free ↦ rw free (frame-put_next given a p (ground arith))
    | inr taken ↦ rw taken refl
  ];
  map_lem = λ b flags a c h p.
      let m = put_lem b (λ p. some p) a c (ap (λ z. z.0) h) p in
      (λ i e. not_none p (sym (m.0 i) ∙ e), m.1);
  copy_mapping_lem = λ old new a c e h.
      let m = put_lem new (λ p. frame a (old.start + (p - new.start))) a c (ap (λ z. z.0) h) in
      (
        λ i lt.
            (m (new.start + i)).0 (omega arith, omega arith)
            ∙ ap (λ z. frame a (old.start + z)) (omega arith),
        λ p o. (m p).1 o,
      );
  unmap_lem = λ b a c h p. put_lem b nowhere a c (ap (λ z. z.0) h) p;
  unreserve_lem = λ b a c h p. sym (ap (λ z. frame z.0 p) h);
}
  where
    not_none : (p : ℕ) → some p ≢ none
    not_none p e = ground arith

-- Two mapped pages, with a reserved page behind them.
abbrev two_pages : Pages
two_pages = record { next = 259; at = λ p. if inside (block 256 258) p then some p else none }

two_pages-mapped : (p : ℕ) → Inside (block 256 258) p → frame two_pages p ≢ none
two_pages-mapped p i e = ground arith

two_pages-IsValid : IsValid page (block 256 258)
two_pages-IsValid = record {
  ordered = omega arith;
  starts = inl (omega arith);
  ends = omega arith;
  fits = omega arith;
}

abbrev grown : Pages × Outcome Block
grown = grow row_of_pages (block 256 258) 10000 4096 7 two_pages

-- The block is moved, since the page behind it is taken.
moved_run : grown.1 ≡ ok (block 259 262)
unfolding grow grow_block grow_to extend_or_move move_to map_rest give_back from_index
    nikka.Memory.Frage.address_by_index nikka.Memory.Addr.new nikka.Common.Bits.leading_zeros
    nikka.Memory.Addr.is_same_half
moved_run = refl

grow_lem_example :
    (10000 ≤ count (block 259 262) * 4096)
    × Grown frame (block 256 258) (block 259 262) two_pages (grown.0)
grow_lem_example =
    grow_lem row_of_pages frame row_of_pages-Promises (block 256 258) (block 259 262) 10000 4096 7
      two_pages (grown.0) two_pages-IsValid (omega arith) two_pages-mapped
      (ap (λ z. (grown.0, z)) moved_run)

-- A single page has room behind it here.
in_place_run :
    (grow row_of_pages (block 256 257) 8192 4096 7 (record { next = 257; at = λ p. some p })).1
    ≡ ok (block 256 258)
unfolding grow grow_block grow_to extend_or_move from_index nikka.Memory.Frage.address_by_index
    nikka.Memory.Addr.new nikka.Common.Bits.leading_zeros nikka.Memory.Addr.is_same_half
in_place_run = refl
