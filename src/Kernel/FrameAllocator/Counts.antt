-- ===== src/Kernel/FrameAllocator/Counts.antt =====
-- References to frames: `reference`, `deallocate` and the queries.
use nikka.Common.{
  ℕ, zero, suc, ◌+◌, ◌-◌, ◌*◌, ◌^◌, ◌≤◌, ◌<◌, ◌≡◌, refl, sym, ap, Bool, true, false, Option, some,
  none, ◌∷◌, arith, ◌==◌, ==_iff, Outcome, ok, err, panic, no_frame, length, get_elem?, set,
  add_usize, length-set, get_elem?-set_self, get_elem?-set_ne, ◌≢◌, get_elem?_of_ge, set-set,
  set-get_elem?, lt_of_get_elem?, not,
}
use nikka.Common.FreeList.{IsFreeList-push, IsFreeList-agree}
use nikka.Kernel.FrameAllocator.{
  FrameInfo, absent, free, used, FrameAllocator, put, allocate, release, deallocate_at, deallocate,
  reference_at, reference, frame_info, reference_count, is_used, or_absent, count_of, is_free,
}
use nikka.Kernel.FrameAllocator.FreeFrames.{
  IsValid, next_of, next_of-set_ne, next_of-set_self, set-referenced, link, taken, index-frame,
  allocate-IsValid,
}
use nikka.Memory.Frage.{l0, bytes, index}

pub release-IsValid :
    (self : FrameAllocator) (i : ℕ)
    → IsValid self
    → i < length self.frame_info
    → next_of self.frame_info i ≡ none
    → IsValid (release self i)
release-IsValid self i v below gone = record {
  slots = i ∷ v.slots;
  is_list =
      IsFreeList-push ◌==◌ ==_iff (next_of self.frame_info)
        (next_of (set self.frame_info i (free self.free_frame))) self.free_frame i v.slots v.is_list
        gone (next_of-set_self self.frame_info i (free self.free_frame) below)
        (next_of-set_ne self.frame_info i (free self.free_frame));
  counted = omega (arith, v.counted);
  referenced =
      set-referenced self.frame_info i (free self.free_frame) (λ p. ground arith) v.referenced;
  addressable = omega (arith, v.addressable, length-set self.frame_info i (free self.free_frame));
}

pub put-IsValid :
    (self : FrameAllocator) (i n : ℕ)
    → IsValid self
    → i < length self.frame_info
    → next_of self.frame_info i ≡ none
    → IsValid (put self i (used (suc n)))
put-IsValid self i n v below gone = record {
  slots = v.slots;
  is_list =
      IsFreeList-agree ◌==◌ ==_iff (next_of self.frame_info)
        (next_of (set self.frame_info i (used (suc n)))) self.free_frame i v.slots v.is_list gone
        (next_of-set_self self.frame_info i (used (suc n)) below)
        (next_of-set_ne self.frame_info i (used (suc n)));
  counted = v.counted;
  referenced = set-referenced self.frame_info i (used (suc n)) (λ p. ground arith) v.referenced;
  addressable = omega (arith, v.addressable, length-set self.frame_info i (used (suc n)));
}

-- All entries but the one of the frame are as they were.
abbrev pub KeepsOthers : FrameAllocator → FrameAllocator → ℕ → Type 0
KeepsOthers self after i =
    (j : ℕ) → i ≢ j → get_elem? after.frame_info j ≡ get_elem? self.frame_info j

-- The frame is free, the first of the list, and counted.
pub record Freed (self after : FrameAllocator) (i : ℕ) : Type 0 where
  pub next : Option ℕ
  pub is_free : get_elem? after.frame_info i ≡ some (free next)
  pub at_head : after.free_frame ≡ some i
  pub counted : after.free_count ≡ suc self.free_count
  pub others : KeepsOthers self after i
  pub is_valid : IsValid after

-- The frame has so many references left, and the list of free frames is as it was.
pub record Lowered (self after : FrameAllocator) (i n : ℕ) : Type 0 where
  pub left : get_elem? after.frame_info i ≡ some (used n)
  pub head : after.free_frame ≡ self.free_frame
  pub count : after.free_count ≡ self.free_count
  pub others : KeepsOthers self after i
  pub is_valid : IsValid after

-- How `deallocate` may leave the allocator, by the entry of the frame.
abbrev pub Deallocates :
    FrameAllocator → ℕ → Option FrameInfo → FrameAllocator × Outcome (Unit {0}) → Type 0
Deallocates self i (some (used zero)) r = ⊥
Deallocates self i (some (used (suc zero))) r =
    (after : FrameAllocator) × (r ≡ (after, ok tt)) × Freed self after i
Deallocates self i (some (used (suc (suc n)))) r =
    (after : FrameAllocator) × (r ≡ (after, ok tt)) × Lowered self after i (suc n)
Deallocates self i (some (free next)) r = r ≡ (self, panic)
Deallocates self i _ r = r ≡ (self, ok tt)

release-Freed :
    (self : FrameAllocator) (i : ℕ)
    → IsValid self
    → i < length self.frame_info
    → next_of self.frame_info i ≡ none
    → Freed self (release self i) i
release-Freed self i v below gone = record {
  next = self.free_frame;
  is_free = get_elem?-set_self self.frame_info i (free self.free_frame) below;
  at_head = refl;
  counted = omega arith;
  others = λ j ne. get_elem?-set_ne self.frame_info i j (free self.free_frame) ne;
  is_valid = release-IsValid self i v below gone;
}

put-Lowered :
    (self : FrameAllocator) (i n : ℕ)
    → IsValid self
    → i < length self.frame_info
    → next_of self.frame_info i ≡ none
    → Lowered self (put self i (used (suc n))) i (suc n)
put-Lowered self i n v below gone = record {
  left = get_elem?-set_self self.frame_info i (used (suc n)) below;
  head = refl;
  count = refl;
  others = λ j ne. get_elem?-set_ne self.frame_info i j (used (suc n)) ne;
  is_valid = put-IsValid self i n v below gone;
}

deallocate_at_lem :
    (self : FrameAllocator) (i : ℕ) (o : Option FrameInfo)
    → IsValid self
    → get_elem? self.frame_info i ≡ o
    → Deallocates self i o (deallocate_at self i o)
unfolding deallocate_at
deallocate_at_lem self i (some (used zero)) v e = v.referenced i e
deallocate_at_lem self i (some (used (suc zero))) v e =
    (release self i, refl, release-Freed self i v (lt_of_get_elem? self.frame_info i e) (ap link e))
deallocate_at_lem self i (some (used (suc (suc n)))) v e = (
  put self i (used (suc n)),
  refl,
  put-Lowered self i n v (lt_of_get_elem? self.frame_info i e) (ap link e),
)
deallocate_at_lem self i (some (free next)) v e = refl
deallocate_at_lem self i (some absent) v e = refl
deallocate_at_lem self i none v e = refl

-- `deallocate` of a valid allocator takes one reference off a frame in use with several and leaves the
-- list of free frames as it is. With the last reference the frame becomes free, heads the list, and is
-- counted. Either way the other entries are kept and the allocator stays valid. It panics exactly for a
-- free frame. A frame that is absent or beyond the entries changes nothing.
pub deallocate-IsValid :
    (self : FrameAllocator) (frame : ℕ)
    → IsValid self
    → Deallocates self
        (index l0 frame)
        (get_elem? self.frame_info (index l0 frame))
        (deallocate self frame)
unfolding deallocate
deallocate-IsValid self frame v =
    deallocate_at_lem self (index l0 frame) (get_elem? self.frame_info (index l0 frame)) v refl

release-taken :
    (self : FrameAllocator) (i : ℕ) (n : Option ℕ)
    → get_elem? self.frame_info i ≡ some (free n)
    → 0 < self.free_count
    → self.free_frame ≡ some i
    → release (taken self i n) i ≡ self
release-taken self i n at h head =
    let same : self.free_count - 1 + 1 ≡ self.free_count = omega arith in
    rw
      (
        set-set self.frame_info i (used 1) (free n),
        set-get_elem? self.frame_info i (free n) at,
        same,
      )
      (ap (λ f. record self { free_frame = f }) (sym head))

-- To deallocate the frame that a valid allocator has just given out restores its state.
pub deallocate-allocate :
    (self : FrameAllocator)
    → IsValid self
    → 0 < self.free_count
    → (frame : ℕ) × ((allocate self).1 ≡ ok frame)
      × (deallocate (allocate self).0 frame ≡ (self, ok tt))
unfolding deallocate deallocate_at
deallocate-allocate self v h =
    let g = (allocate-IsValid self v).1 h in
    let below = lt_of_get_elem? self.frame_info g.slot g.was_free in
    let at = get_elem?-set_self self.frame_info g.slot (used 1) below in
    (
      g.slot * bytes l0,
      ap (λ r. r.1) g.given,
      rw (g.given, index-frame g.slot (omega (arith, v.addressable)), at)
          (ap (λ s. (s, ok tt)) (release-taken self g.slot g.next g.was_free h g.at_head)),
    )

-- A further reference to a frame in use raises its `reference_count` by one and keeps a valid
-- allocator valid. To deallocate the frame then restores the state.
pub deallocate-reference :
    (self : FrameAllocator) (frame n : ℕ)
    → IsValid self
    → get_elem? self.frame_info (index l0 frame) ≡ some (used n)
    → n + 1 < 2 ^ 64
    → (reference self frame ≡ (put self (index l0 frame) (used (n + 1)), ok frame))
      × IsValid (put self (index l0 frame) (used (n + 1)))
      × (reference_count (reference self frame).0 frame ≡ ok (n + 1))
      × (deallocate (reference self frame).0 frame ≡ (self, ok tt))
unfolding reference reference_at deallocate deallocate_at reference_count frame_info
deallocate-reference self frame zero v at fits = absurd (v.referenced (index l0 frame) at)
deallocate-reference self frame (suc m) v at fits =
    let i = index l0 frame in
    let below = lt_of_get_elem? self.frame_info i at in
    let e : suc m + 1 ≡ suc (suc m) = omega arith in
    let sum : add_usize (suc m) 1 ≡ ok (suc (suc m)) = ground arith in
    let written = get_elem?-set_self self.frame_info i (used (suc (suc m))) below in
    let made : reference self frame ≡ (put self i (used (suc (suc m))), ok frame) =
      rw (at, reference_at, sum) refl in
    rw (e, made, written)
      (
        refl,
        put-IsValid self i (suc m) v below (ap link at),
        refl,
        rw
            (
              set-set self.frame_info i (used (suc (suc m))) (used (suc m)),
              set-get_elem? self.frame_info i (used (suc m)) at,
            )
            refl,
      )

-- `reference` panics for a free frame, and leaves the allocator as it is for one that is absent or
-- beyond the entries. That the frame was beyond them is not noted.
pub reference-refused :
    (self : FrameAllocator) (frame : ℕ)
    → ((next : Option ℕ)
        → get_elem? self.frame_info (index l0 frame) ≡ some (free next)
        → reference self frame ≡ (self, panic))
      × (get_elem? self.frame_info (index l0 frame) ≡ some absent
          → reference self frame ≡ (self, ok frame))
      × (length self.frame_info ≤ index l0 frame → reference self frame ≡ (self, ok frame))
unfolding reference reference_at
reference-refused self frame = (
  λ next h. rw h refl,
  λ h. rw h refl,
  λ h. rw (get_elem?_of_ge self.frame_info (index l0 frame) h) refl,
)

-- `reference_count` and `is_used` by the entry of a frame. A frame that is absent or beyond the
-- entries has no count, and is said to be used.
abbrev pub Answers : Option FrameInfo → Outcome ℕ → Bool → Type 0
Answers (some (used n)) count u = (count ≡ ok n) × (u ≡ true)
Answers (some (free next)) count u = (count ≡ ok 0) × (u ≡ false)
Answers _ count u = (count ≡ err no_frame) × (u ≡ true)

answers : (o : Option FrameInfo) → Answers o (count_of (or_absent o)) (not (is_free (or_absent o)))
answers none = (refl, refl)
answers (some absent) = (refl, refl)
answers (some (free next)) = (refl, refl)
answers (some (used n)) = (refl, refl)

-- `reference_count` is the count of a frame in use, zero for a free frame, and an error for one that
-- is absent or beyond the entries. `is_used` is false for free frames only.
pub reference_count-is_used :
    (self : FrameAllocator) (frame : ℕ)
    → Answers
        (get_elem? self.frame_info (index l0 frame))
        (reference_count self frame)
        (is_used self frame)
unfolding reference_count is_used frame_info
reference_count-is_used self frame = answers (get_elem? self.frame_info (index l0 frame))
