-- ===== src/Process/Elf/Loader/Loading.antt =====
-- One segment more: the loader moves the pages that no later segment touches.
use nikka.Common.{
  Bool, true, false, ℕ, ◌+◌, ◌-◌, ◌*◌, ◌^◌, ◌≤◌, ◌≡◌, ◌⊎◌, inl, inr, refl, ◌∙◌, arith, Option, some,
  none, ok, if◌then◌else◌,
}
use nikka.Memory.Block.{Block, count}
use nikka.Process.Elf.{MemoryRange}
use nikka.Process.Elf.Combine.{IsSegment, first_page, end_page, combine_lem, after_combine}
use nikka.Process.Elf.Flags.{put_if, touches, Agrees}
use nikka.Process.Elf.Loader.{
  BigAllocatorPair, FileRange, Loader, dst_new_pages, finalize_some, advance, load_program_header,
  first_start_addr,
}
use nikka.Process.Elf.Loader.Views.{
  inside, image_of, View, IsSame, SameTaken, HasRoom, IsSame-trans, Holds,
}
use nikka.Process.Elf.Loader.Steps.{IsLoadable, extend_lem, extended}
use nikka.Process.Elf.Loader.Moves.{copy_lem, finalize_lem}
use nikka.Process.Elf.Loader.NewPages.{pages_of}
use nikka.Process.Elf.Loader.Pieces.{Fits, in_piece, Fits-minus_next, Fits-boundary}

-- The pages that are done once a piece is moved.
abbrev pub AndPiece : Option MemoryRange → (ℕ → Type 0) → ℕ → Type 0
AndPiece r done p = (in_piece r p ≡ true) ⊎ done p

-- The pages that some segment touches and that are not still to be moved.
abbrev pub Moved : (ℕ → Option ℕ) → MemoryRange → ℕ → Type 0
Moved w curr p = (f : ℕ) × (w p ≡ some f) × (touches curr p ≡ false)

module _ {A : Type 0} (pair : BigAllocatorPair A) (v : View A) where
  pub Holds-fewer :
      (a : A) (d : Block) (s : ℕ) (image : ℕ → ℕ) (done fewer : ℕ → Type 0) (limit : ℕ)
      → Holds pair v a d s image done limit
      → ((p : ℕ) → fewer p → done p)
      → Holds pair v a d s image fewer limit
  Holds-fewer a d s image done fewer limit h k = record {
    lower = h.lower;
    own = h.own;
    bytes = h.bytes;
    shown = λ p q. h.shown p (k p q);
    enough = h.enough;
  }

  -- What the loader keeps true: `w` is what the segments up to now ask for, `image` their bytes,
  -- `before` how the target was mapped and `taken` what was reserved in it, `d` its flags, and `s` the
  -- page that the block in the current address space starts at.
  pub record Invariant (d s limit : ℕ) (before : ℕ → Option ℕ) (taken : ℕ → Bool) (w : ℕ → Option ℕ)
      (image : ℕ → ℕ) (self : Loader A) (curr : MemoryRange) : Type 0 where
    pub current : self.curr ≡ some curr
    pub start : self.src_block_start_addr ≡ some (s * 2 ^ 12)
    pub held : Holds pair v self.allocator self.src_block s image (Moved w curr) limit
    pub segment : IsSegment curr
    pub low : s ≤ first_page curr
    pub long : end_page curr - s ≤ count self.src_block
    pub flags : pair.dst_flags self.allocator ≡ d
    pub agrees : (p : ℕ) → Agrees d (before p) (w p) (v.mapped self.allocator p) curr p
    pub reserved : (p : ℕ) → inside (pages_of curr) p ≡ true → v.taken self.allocator p ≡ true
    pub free : (p : ℕ) → end_page curr ≤ p → v.taken self.allocator p ≡ taken p
    pub blank : (x : ℕ) → curr.memory.end ≤ x → image x ≡ 0

-- The pieces that `combine` gives are moved, and the state is kept.
module _ {A : Type 0} (pair : BigAllocatorPair A) (v : View A) (room : HasRoom pair v) where
  -- The loader after the pieces of `curr` have been moved.
  abbrev pub after_advance : Loader A → MemoryRange → A → Loader A
  after_advance self updated a = record self { allocator = a; curr = some updated }

  module _ (s : ℕ) (image : ℕ → ℕ) (limit : ℕ) (curr : MemoryRange) (next : FileRange) where
    finalize_some_lem :
        (self : Loader A) (done : ℕ → Type 0)
        → Holds pair v self.allocator self.src_block s image done limit
        → self.src_block_start_addr ≡ some (s * 2 ^ 12)
        → s ≤ first_page curr
        → end_page next.virt_range - s ≤ count self.src_block
        → IsSegment curr
        → IsSegment next.virt_range
        → curr.memory.end ≤ next.virt_range.memory.start
        → ((p : ℕ) → inside (pages_of curr) p ≡ true → v.taken self.allocator p ≡ true)
        → (r : Option MemoryRange) → Fits curr r
        → (a : A) × (finalize_some pair self r ≡ ok (record self { allocator = a }))
          × ((p : ℕ)
              → v.mapped a p
                ≡ put_if (pair.dst_flags self.allocator) r (v.mapped self.allocator p) p)
          × (pair.dst_flags a ≡ pair.dst_flags self.allocator)
          × SameTaken pair v self.allocator a
          × Holds pair v a self.src_block s image (AndPiece r done) limit
    unfolding finalize_some
    finalize_some_lem self done held start low long c n o reserved none f = (
      self.allocator,
      refl,
      λ p. refl,
      refl,
      λ p. refl,
      Holds-fewer pair v self.allocator self.src_block s image done (AndPiece none done) limit held
          (λ p q. elim q [ inl i ↦ absurd (ground (arith, i)) | inr k ↦ k ]),
    )
    finalize_some_lem self done held start low long c n o reserved (some r) f =
        finalize_lem pair v room self next s start (omega (arith, c.nonempty)) long image done limit
          held r (f.0) (omega (arith, f.1)) (omega (arith, f.2, n.nonempty, c.nonempty)) n
          (λ p i. reserved p (ground (arith, i, f)))

    pub advance_lem :
        (self : Loader A) (done : ℕ → Type 0)
        → Holds pair v self.allocator self.src_block s image done limit
        → self.src_block_start_addr ≡ some (s * 2 ^ 12)
        → s ≤ first_page curr
        → end_page next.virt_range - s ≤ count self.src_block
        → IsSegment curr
        → IsSegment next.virt_range
        → curr.memory.end ≤ next.virt_range.memory.start
        → ((p : ℕ) → inside (pages_of curr) p ≡ true → v.taken self.allocator p ≡ true)
        → (a : A) × (advance pair self (some curr) next.virt_range
            ≡ ok (after_advance self (after_combine curr next.virt_range).updated_next a))
          × ((p : ℕ)
              → v.mapped a p
                ≡ put_if
                    (pair.dst_flags self.allocator)
                    (after_combine curr next.virt_range).boundary
                    (put_if
                      (pair.dst_flags self.allocator)
                      (after_combine curr next.virt_range).curr_minus_next
                      (v.mapped self.allocator p)
                      p)
                    p)
          × (pair.dst_flags a ≡ pair.dst_flags self.allocator)
          × SameTaken pair v self.allocator a
          × Holds pair v a self.src_block s image
              (AndPiece
                (after_combine curr next.virt_range).boundary
                (AndPiece (after_combine curr next.virt_range).curr_minus_next done))
              limit
    unfolding advance
    advance_lem self done held start low long c n o reserved =
        let minus = (after_combine curr next.virt_range).curr_minus_next in
        let (a, e, m, f, t, held_a) =
          finalize_some_lem self done held start low long c n o reserved minus
            (Fits-minus_next curr next.virt_range c n o) in
        let (b, g, k, h, u, held_b) =
          finalize_some_lem (record self { allocator = a }) (AndPiece minus done) held_a start low
            long c n o (λ p i. t p ∙ reserved p i) (after_combine curr next.virt_range).boundary
            (Fits-boundary curr next.virt_range c n o) in
        (
          b,
          rw (combine_lem curr next.virt_range c n o, e, g) refl,
          λ p. k p ∙ rw (f, m p) refl,
          h ∙ f,
          λ p. u p ∙ t p,
          held_b,
        )

  -- A segment is copied to the block in the current address space.
  abbrev pub copied : Loader A → ℕ → Block → A → Loader A
  copied self s src a = record (extended self s a src) { allocator = a }

  pub prepare_lem :
      (self : Loader A) (next : FileRange) (s : ℕ) (image : ℕ → ℕ) (done : ℕ → Type 0) (limit : ℕ)
      → Holds pair v self.allocator self.src_block s image done limit
      → (new : Block) → IsLoadable self.file next
      → dst_new_pages self.curr (pages_of next.virt_range) ≡ ok new
      → first_start_addr self.curr self.src_block_start_addr (pages_of next.virt_range)
        ≡ some (s * 2 ^ 12)
      → s ≤ first_page next.virt_range
      → end_page next.virt_range ≤ s + limit
      → ((p : ℕ) → inside new p ≡ true → v.taken self.allocator p ≡ false)
      → ((x : ℕ) → (s + count self.src_block) * 2 ^ 12 ≤ x → image x ≡ 0)
      → (a : A) × (src : Block) × (load_program_header pair self next
          ≡ advance pair (copied self s src a) self.curr next.virt_range)
        × (end_page next.virt_range - s ≤ count src)
        × IsSame pair v self.allocator a
        × ((p : ℕ) → v.taken a p ≡ (if inside new p then true else v.taken self.allocator p))
        × Holds pair v a src s (image_of self.file next image) done limit
  unfolding load_program_header
  prepare_lem self next s image done limit held new l e f h within free blank =
      let (c, src, g, long, same, taken, held_c) =
        extend_lem pair v room s image done limit self next held new l.segment e f h within free
          blank in
      let (a, k, same_a, t, held_a) =
        copy_lem pair v room (extended self s c src) next s refl h long image done limit held_c l in
      (
        a,
        src,
        rw (g, k) refl,
        long,
        IsSame-trans pair v self.allocator c a same same_a,
        λ p. t p ∙ taken p,
        held_a,
      )
