-- ===== src/Kernel/FrameAllocator/FreeFrames.antt =====
-- The list of free frames: what `allocate`, `deallocate` and `reference` do to it.
use nikka.Common.{
  ℕ, zero, suc, ◌-◌, ◌*◌, ◌^◌, ◌≤◌, ◌<◌, ◌≡◌, ◌≢◌, refl, sym, ◌∙◌, ap, false, Option, some, none,
  List, [], ◌∷◌, arith, ◌==◌, ok, err, no_frame, length, get_elem?, set, length-set,
  get_elem?-set_self, get_elem?-set_ne, lt_of_get_elem?, ==_iff,
}
use mathlib.Core.Option.{some-injective}
use nikka.Common.FreeList.{IsFreeList, IsFreeList-pop}
use nikka.Kernel.FrameAllocator.{
  FrameInfo, absent, free, used, FrameAllocator, allocate_at, allocate,
}
use nikka.Memory.Addr.{phys}
use nikka.Memory.Frage.{l0, bytes, from_index, index}
use nikka.Memory.Frage.Index.{from_index_lem, from_index-index}

abbrev pub link : Option FrameInfo → Option (Option ℕ)
link (some (free next)) = some next
link _ = none

-- The frame that a free frame links to.
abbrev pub next_of : List FrameInfo → ℕ → Option (Option ℕ)
next_of infos i = link (get_elem? infos i)

-- The free list holds all free frames, as many as are counted; frames in use have references, and
-- all frames have addresses.
pub record IsValid (self : FrameAllocator) : Type 0 where
  pub slots : List ℕ
  pub is_list : IsFreeList ◌==◌ ==_iff (next_of self.frame_info) self.free_frame slots
  pub counted : length slots ≡ self.free_count
  pub referenced : (i : ℕ) → get_elem? self.frame_info i ≢ some (used 0)
  pub addressable : length self.frame_info ≤ 2 ^ 40

pub next_of-set_ne :
    (infos : List FrameInfo) (i : ℕ) (info : FrameInfo) (j : ℕ)
    → (j == i) ≡ false
    → next_of infos j ≡ next_of (set infos i info) j
next_of-set_ne infos i info j h =
    let ne : i ≢ j = λ e. ground (arith, e) in ap link (sym (get_elem?-set_ne infos i j info ne))

pub next_of-set_self :
    (infos : List FrameInfo) (i : ℕ) (info : FrameInfo)
    → i < length infos
    → next_of (set infos i info) i ≡ link (some info)
next_of-set_self infos i info h = ap link (get_elem?-set_self infos i info h)

pub set-referenced :
    (infos : List FrameInfo) (i : ℕ) (info : FrameInfo)
    → info ≢ used 0
    → ((j : ℕ) → get_elem? infos j ≢ some (used 0))
    → (j : ℕ) → get_elem? (set infos i info) j ≢ some (used 0)
set-referenced [] i info n h j = h j
set-referenced (x ∷ xs) zero info n h zero = λ e. n (some-injective info (used 0) e)
set-referenced (x ∷ xs) zero info n h (suc j) = h (suc j)
set-referenced (x ∷ xs) (suc i) info n h zero = h zero
set-referenced (x ∷ xs) (suc i) info n h (suc j) = set-referenced xs i info n (λ k. h (suc k)) j

abbrev pub taken : FrameAllocator → ℕ → Option ℕ → FrameAllocator
taken self i next = record self {
  frame_info = set self.frame_info i (used 1);
  free_count = self.free_count - 1;
  free_frame = next;
}

-- What `allocate` gives of the allocator `self`.
pub record Gives (self : FrameAllocator) : Type 0 where
  pub slot : ℕ
  pub next : Option ℕ
  pub at_head : self.free_frame ≡ some slot
  pub was_free : get_elem? self.frame_info slot ≡ some (free next)
  pub given : allocate self ≡ (taken self slot next, ok (slot * bytes l0))
  pub is_valid : IsValid (taken self slot next)

taken-IsValid :
    (self : FrameAllocator) (v : IsValid self) (i : ℕ) (is : List ℕ) (next : Option ℕ)
    → v.slots ≡ i ∷ is
    → self.free_frame ≡ some i
    → get_elem? self.frame_info i ≡ some (free next)
    → IsValid (taken self i next)
taken-IsValid self v i is next e head at =
    let f = next_of self.frame_info in
    let below = lt_of_get_elem? self.frame_info i at in
    record {
      slots = is;
      is_list =
          IsFreeList-pop ◌==◌ ==_iff f (next_of (set self.frame_info i (used 1))) i next is
            (rw head at (rw e at v.is_list)) (ap link at)
            (next_of-set_self self.frame_info i (used 1) below)
            (next_of-set_ne self.frame_info i (used 1));
      counted = omega (arith, sym (ap length e) ∙ v.counted);
      referenced = set-referenced self.frame_info i (used 1) (λ p. ground arith) v.referenced;
      addressable = omega (arith, v.addressable, length-set self.frame_info i (used 1));
    }

link_free : (o : Option FrameInfo) (n : Option ℕ) → link o ≡ some n → o ≡ some (free n)
link_free none n h = ground arith
link_free (some absent) n h = ground arith
link_free (some (used m)) n h = ground arith
link_free (some (free m)) n h = ap (λ k. some (free k)) (some-injective m n h)

first_free :
    (next : ℕ → Option (Option ℕ)) (head : Option ℕ) (slots : List ℕ)
    → IsFreeList ◌==◌ ==_iff next head slots
    → 0 < length slots
    → (i : ℕ) × (is : List ℕ) × (n : Option ℕ) × (slots ≡ i ∷ is)
      × (head ≡ some i)
      × (next i ≡ some n)
first_free next head [] v h = elim h [ ]
first_free next head (i ∷ is) v h = (i, is, v.chain.1, refl, v.chain.0, v.chain.2)

frame_by_index : (i : ℕ) → i < 2 ^ 40 → from_index phys l0 i ≡ ok (i * bytes l0)
frame_by_index i h = ground (arith, from_index_lem phys l0 i)

pub index-frame : (i : ℕ) → i < 2 ^ 40 → index l0 (i * bytes l0) ≡ i
index-frame i h = ((from_index-index phys l0 i (i * bytes l0)).0 (frame_by_index i h)).1

allocate_some : (self : FrameAllocator) → IsValid self → 0 < self.free_count → Gives self
unfolding allocate allocate_at
allocate_some self v h =
    let (i, is, n, e, head, linked) =
      first_free (next_of self.frame_info) self.free_frame v.slots v.is_list
        (omega (arith, v.counted)) in
    let at = link_free (get_elem? self.frame_info i) n linked in
    let below = lt_of_get_elem? self.frame_info i at in
    record {
      slot = i;
      next = n;
      at_head = head;
      was_free = at;
      given =
          let c : (self.free_count == 0) ≡ false = ground arith in
          rw (c, head, at, frame_by_index i (omega (arith, v.addressable))) refl;
      is_valid = taken-IsValid self v i is n e head at;
    }

-- `allocate` of a valid allocator fails with `NoFrame` exactly if it counts no free frame, and then
-- changes nothing. Else it gives out the free frame at the head of the list, with one reference, and
-- stays valid. It never panics.
pub allocate-IsValid :
    (self : FrameAllocator)
    → IsValid self
    → (self.free_count ≡ 0 → allocate self ≡ (self, err no_frame))
      × (0 < self.free_count → Gives self)
unfolding allocate allocate_at
allocate-IsValid self v = (λ h. ground arith, allocate_some self v)
