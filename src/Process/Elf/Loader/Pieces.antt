-- ===== src/Process/Elf/Loader/Pieces.antt =====
-- The pieces that `combine` gives: they lie among the pages of the first segment, and hold every page
-- that no later segment touches.
use nikka.Common.{
  Bool, ℕ, ◌+◌, ◌≤◌, ◌≡◌, arith, Option, some, none, true, false, ltb, leb, ◌⊎◌, Bool-cases, inl,
  inr, if◌then◌else◌,
}
use nikka.Memory.Block.{block}
use nikka.Process.Elf.{MemoryRange, range_of}
use nikka.Process.Elf.Combine.{IsSegment, first_page, end_page, after_combine}
use nikka.Process.Elf.Flags.{touches}
use nikka.Process.Elf.Loader.Views.{inside}

abbrev pub Fits : MemoryRange → Option MemoryRange → Type 0
Fits curr none = Unit {0}
Fits curr (some r) =
    (r.memory.start ≤ r.memory.end)
    × (first_page curr ≤ r.memory.start)
    × (r.memory.end ≤ end_page curr)

-- The page is in the piece.
abbrev pub in_piece : Option MemoryRange → ℕ → Bool
in_piece none p = false
in_piece (some r) p = inside r.memory p

module _ (curr next : MemoryRange) (c : IsSegment curr) (n : IsSegment next)
    (o : curr.memory.end ≤ next.memory.start) where
  Fits-before :
      Fits curr (
        if ltb (first_page curr) (first_page next)
        then some (range_of curr.flags (block (first_page curr) (first_page next)))
        else none)
      ⊎ (end_page curr ≤ first_page next)
  Fits-before = elim (Bool-cases (leb (end_page curr) (first_page next))) [
    | inl a ↦ inr (ground (arith, a))
    | inr a ↦ inl (elim (Bool-cases (ltb (first_page curr) (first_page next))) [
      | inl h ↦ rw h (ground (arith, c.nonempty))
      | inr h ↦ rw h tt
    ])
  ]

  pub Fits-minus_next : Fits curr (after_combine curr next).curr_minus_next
  unfolding after_combine
  Fits-minus_next = elim (Bool-cases (leb (end_page curr) (first_page next))) [
    | inl h ↦ rw h (ground (arith, c.nonempty))
    | inr h ↦ elim Fits-before [
      | inr a ↦ absurd (ground arith)
      | inl f ↦ elim (Bool-cases (ltb (first_page next + 1) (end_page next))) [
        | inl b ↦ rw (h, b) f
        | inr b ↦ rw (h, b) f
      ]
    ]
  ]

  pub Fits-boundary : Fits curr (after_combine curr next).boundary
  unfolding after_combine
  Fits-boundary = elim (Bool-cases (leb (end_page curr) (first_page next))) [
    | inl h ↦ rw h tt
    | inr h ↦ elim (Bool-cases (ltb (first_page next + 1) (end_page next))) [
      | inl b ↦ rw (h, b) (ground arith)
      | inr b ↦ rw (h, b) tt
    ]
  ]

  pub updated-IsSegment : IsSegment (after_combine curr next).updated_next
  unfolding after_combine
  updated-IsSegment = ground arith

  pub updated_end : (after_combine curr next).updated_next.memory.end ≡ next.memory.end
  unfolding after_combine
  updated_end = ground arith

  pub updated_low : first_page next ≤ first_page (after_combine curr next).updated_next
  unfolding after_combine
  updated_low = ground arith

  -- The pages that the segments touch and that are not still to be moved.
  pub moved_lem :
      (p : ℕ)
      → touches (after_combine curr next).updated_next p ≡ false
      → ((touches curr p ≡ true) ⊎ (touches next p ≡ true))
      → (in_piece (after_combine curr next).boundary p ≡ true)
        ⊎ (in_piece (after_combine curr next).curr_minus_next p ≡ true)
  unfolding after_combine
  moved_lem p h t = elim (Bool-cases (leb (end_page curr) (first_page next))) [
    | inl a ↦ rw a (ground arith)
    | inr a ↦ elim (Bool-cases (ltb (first_page next + 1) (end_page next))) [
      | inl b ↦ elim (Bool-cases (ltb (first_page curr) (first_page next))) [
        | inl d ↦ rw (a, b, d) (ground (arith, h, t, a, b, d))
        | inr d ↦ rw (a, b, d) (ground (arith, h, t, a, b, d))
      ]
      | inr b ↦ elim (Bool-cases (ltb (first_page curr) (first_page next))) [
        | inl d ↦ rw (a, b, d) (ground (arith, h, t, a, b, d))
        | inr d ↦ rw (a, b, d) (ground (arith, h, t, a, b, d))
      ]
    ]
  ]
