-- ===== src/Process/Elf/Loader/Loaded.antt =====
-- `load_program_header` keeps the invariant of the loader.
use nikka.Common.{
  Bool, true, false, ℕ, ◌+◌, ◌≤◌, ◌≡◌, ◌⊎◌, inl, inr, refl, ap, sym, ◌∙◌, arith, Option, some, none,
  ok, Bool-cases,
}
use nikka.Process.Elf.{MemoryRange}
use nikka.Process.Elf.Combine.{IsSegment, first_page, end_page, after_combine}
use nikka.Process.Elf.Flags.{join, flags_at, touches, Agrees-after_combine}
use nikka.Process.Elf.Loader.{BigAllocatorPair, FileRange, Loader, advance, load_program_header}
use nikka.Process.Elf.Loader.Views.{inside, image_of, View, HasRoom}
use nikka.Process.Elf.Loader.Steps.{IsLoadable}
use nikka.Process.Elf.Loader.NewPages.{pages_of, dst_new_pages_lem}
use nikka.Process.Elf.Loader.Pieces.{updated-IsSegment, updated_end, updated_low, moved_lem}
use nikka.Process.Elf.Loader.Loading.{
  Moved, AndPiece, Holds-fewer, Invariant, after_advance, advance_lem, copied, prepare_lem,
}

join-none : (x : Option ℕ) → join x none ≡ x
join-none none = refl
join-none (some x) = refl

module _ (curr next : MemoryRange) (c : IsSegment curr) (n : IsSegment next)
    (o : curr.memory.end ≤ next.memory.start) (w : ℕ → Option ℕ)
    (inside_w : (p : ℕ) → touches curr p ≡ true → w p ≡ some curr.flags) where
  -- The pages to show with the frames of the block are among the pieces, or were moved before.
  Moved-AndPiece :
      (p : ℕ)
      → Moved (λ p. join (w p) (flags_at next p)) (after_combine curr next).updated_next p
      → AndPiece
          (after_combine curr next).boundary
          (AndPiece (after_combine curr next).curr_minus_next (Moved w curr))
          p
  Moved-AndPiece p (f, e, out) =
      let go : ((touches curr p ≡ true) ⊎ (touches next p ≡ true))
          → AndPiece (after_combine curr next).boundary
              (AndPiece (after_combine curr next).curr_minus_next (Moved w curr)) p =
        λ t. elim (moved_lem curr next c n o p out t) [ inl b ↦ inl b | inr m ↦ inr (inl m) ] in
      elim (Bool-cases (touches curr p)) [
        | inl t ↦ go (inl t)
        | inr t ↦ elim (Bool-cases (touches next p)) [
          | inl q ↦ go (inr q)
          | inr q ↦
              let none_next : flags_at next p ≡ none = rw q refl in
              inr (inr (f, sym (join-none (w p)) ∙ ap (join (w p)) (sym none_next) ∙ e, t))
        ]
      ]

module _ {A : Type 0} (pair : BigAllocatorPair A) (v : View A) (room : HasRoom pair v)
    (d s limit : ℕ) (before : ℕ → Option ℕ) (taken : ℕ → Bool) (w : ℕ → Option ℕ) (image : ℕ → ℕ)
    (self : Loader A) (curr : MemoryRange) (next : FileRange) where
  pub load_program_header_lem :
      Invariant pair v d s limit before taken w image self curr
      → IsLoadable self.file next
      → curr.memory.end ≤ next.virt_range.memory.start
      → end_page next.virt_range ≤ s + limit
      → ((p : ℕ) → inside (pages_of next.virt_range) p ≡ true → taken p ≡ false)
      → (loaded : Loader A) × (load_program_header pair self next ≡ ok loaded)
        × Invariant pair v d s limit before taken
            (λ p. join (w p) (flags_at next.virt_range p))
            (image_of self.file next image)
            loaded
            (after_combine curr next.virt_range).updated_next
        × (loaded.file ≡ self.file)
  load_program_header_lem inv l o within fresh =
      let c = inv.segment in
      let n = l.segment in
      let next_range = next.virt_range in
      let low : s ≤ first_page next_range = omega (arith, inv.low, c.nonempty) in
      let (b, new_pages, which) = dst_new_pages_lem curr next_range c n o in
      let (a, src, e, long, same, taken_a, held_a) =
        prepare_lem pair v room self next s image (Moved w curr) limit inv.held b l
          (rw inv.current new_pages) (rw inv.current inv.start) low within
          (λ p i. ground (arith, i, which p, inv.free p, fresh p, o, c.nonempty, n.nonempty))
          (λ x h. inv.blank x (omega (arith, inv.long, inv.low, c.nonempty))) in
      let reserved_a : (p : ℕ) → inside (pages_of curr) p ≡ true → v.taken a p ≡ true =
        λ p i. ground (arith, i, taken_a p, inv.reserved p i) in
      let (a2, f, m, g, taken_a2, held_a2) =
        advance_lem pair v room s (image_of self.file next image) limit curr next
          (copied pair v room self s src a) (Moved w curr) held_a refl inv.low long c n o
          reserved_a in
      let updated = (after_combine curr next_range).updated_next in
      let end_eq = updated_end curr next_range c n o in
      (
        after_advance pair v room (copied pair v room self s src a) updated a2,
        e
            ∙ ap (λ held. advance pair (copied pair v room self s src a) held next_range)
                inv.current
            ∙ f,
        record {
          current = refl;
          start = refl;
          held =
              Holds-fewer pair v a2 src s (image_of self.file next image) _
                (Moved (λ p. join (w p) (flags_at next_range p)) updated) limit held_a2
                (Moved-AndPiece curr next_range c n o w (λ p. (inv.agrees p).inside));
          segment = updated-IsSegment curr next_range c n o;
          low = omega (arith, low, updated_low curr next_range c n o);
          long = rw end_eq long;
          flags = g ∙ same.flags ∙ inv.flags;
          agrees = λ p.
              rw (m p, same.pages p, same.flags, inv.flags)
                (Agrees-after_combine d (before p) (w p) (v.mapped self.allocator p) curr next_range
                  p c n o (inv.agrees p));
          reserved = λ p i.
              taken_a2 p
              ∙ (let low_u = updated_low curr next_range c n o in
                  ground (arith, i, which p, taken_a p, inv.reserved p, low_u, end_eq));
          free = λ p h.
              taken_a2 p
              ∙ ground
                  (arith, h, which p, taken_a p, inv.free p, end_eq, o, c.nonempty, n.nonempty);
          blank = λ x h.
              let out : inside next_range.memory x ≡ false = ground (arith, h, end_eq) in
              rw out (inv.blank x (omega (arith, h, end_eq, o, n.nonempty)));
        },
        refl,
      )
