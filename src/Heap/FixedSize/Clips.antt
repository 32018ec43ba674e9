-- ===== src/Heap/FixedSize/Clips.antt =====
-- The exchange of addresses between an allocator of one size and a clip.
use nikka.Common.{
  ◌+◌, ℕ, suc, ◌-◌, ◌<◌, ◌≤◌, ◌≡◌, ◌≢◌, inl, inr, refl, ◌∙◌, sym, ap, subst, arith, true, false,
  ltb, ◌==◌, Bool, Bool-cases, some, List, [], ◌∷◌, ◌++◌, length, min, if◌then◌else◌, ok,
}
use nikka.Collections.Bitmap.{Bitmap, is_free, set_free}
use nikka.Collections.Bitmap.Zeros.{used_at}
use nikka.Collections.Bitmap.Bulk.{member, IsDistinct, TakesAll, bulk_allocate_lem}
use nikka.Collections.Bitmap.GiveAll.{rev_onto, length-rev_onto, TakesAll-rev_onto, TakesAll-uncons}
use nikka.Collections.DynamicBitmap.{DynamicBitmap}
use nikka.Heap.Info.{Info}
use nikka.Heap.Quarry.{Quarry, allocation_index}
use nikka.Heap.FixedSize.{
  FixedSizeAllocator, Clip, deallocate_impl, push_all, fill_clip, pop_all, unfill_clip,
}
use nikka.Heap.FixedSize.Returned.{IsStocked, Addressed, addressed, used-is_free}

-- The addresses of the elements, one by one.
AreAddresses : Quarry → List ℕ → List ℕ → Type 0
AreAddresses q [] [] = Unit {0}
AreAddresses q [] (a ∷ addresses) = ⊥
AreAddresses q (n ∷ ns) [] = ⊥
AreAddresses q (n ∷ ns) (a ∷ addresses) =
    (allocation_index q a ≡ ok (some n)) × (a ≢ 0) × AreAddresses q ns addresses

AreAddresses-length :
    (q : Quarry) (ns addresses : List ℕ)
    → AreAddresses q ns addresses
    → length addresses ≡ length ns
unfolding AreAddresses
AreAddresses-length q [] [] h = refl
AreAddresses-length q [] (a ∷ addresses) h = absurd h
AreAddresses-length q (n ∷ ns) [] h = absurd h
AreAddresses-length q (n ∷ ns) (a ∷ addresses) h = ap suc (AreAddresses-length q ns addresses h.2)

member-AreAddresses :
    (q : Quarry) (ns addresses : List ℕ) (a n : ℕ)
    → AreAddresses q ns addresses
    → allocation_index q a ≡ ok (some n)
    → member addresses a ≡ true
    → member ns n ≡ true
unfolding AreAddresses
member-AreAddresses q [] [] a n h e m = absurd (ground arith)
member-AreAddresses q [] (x ∷ addresses) a n h e m = absurd h
member-AreAddresses q (k ∷ ns) [] a n h e m = absurd h
member-AreAddresses q (k ∷ ns) (x ∷ addresses) a n h e m = elim (Bool-cases (a == x)) [
  | inl same ↦
      let i : a ≡ x = ground arith in
      let found : allocation_index q a ≡ ok (some k) = rw i (h.0) in
      let number : n ≡ k = ground (arith, sym e ∙ found) in rw number (ground arith)
  | inr other ↦
      let rest = member-AreAddresses q ns addresses a n h.2 e (rw other at m) in ground arith
]

AreAddresses-IsDistinct :
    (q : Quarry) (ns addresses : List ℕ)
    → AreAddresses q ns addresses
    → IsDistinct ns
    → IsDistinct addresses
unfolding AreAddresses
AreAddresses-IsDistinct q [] [] h d = tt
AreAddresses-IsDistinct q [] (a ∷ addresses) h d = absurd h
AreAddresses-IsDistinct q (n ∷ ns) [] h d = absurd h
AreAddresses-IsDistinct q (n ∷ ns) (a ∷ addresses) h d = (
  elim (Bool-cases (member addresses a)) [
    | inl again ↦
        let m = member-AreAddresses q ns addresses a n h.2 h.0 again in absurd (ground (arith, d.0))
    | inr new ↦ new
  ],
  AreAddresses-IsDistinct q ns addresses h.2 d.1,
)

abbrev clip_of : List ℕ → Bool → Clip
clip_of addresses bound = record { allocations = addresses; is_bound = bound }

-- An allocator with a quarry.
abbrev with_quarry : DynamicBitmap → Info → Quarry → FixedSizeAllocator
with_quarry bits info q = record { bitmap = bits; info = info; quarry = some q }

-- What `push_all` leaves in a clip.
Pushes : ℕ → Quarry → List ℕ → List ℕ → List ℕ → List ℕ → FixedSizeAllocator → Bool → Type 0
Pushes clip_size q ns ms addresses old self bound =
    (more : List ℕ) × (push_all clip_size ns self (clip_of (addresses ++ old) bound)
      ≡ ok (self, clip_of (more ++ old) bound))
    × AreAddresses q (rev_onto ns ms) more

push_all_lem :
    (clip_size : ℕ) (q : Quarry) (ns ms addresses old : List ℕ) (bits : DynamicBitmap) (info : Info)
    (bound : Bool)
    → length (addresses ++ old) + length ns ≤ clip_size
    → ((n : ℕ) → member ns n ≡ true → Addressed q n)
    → AreAddresses q ms addresses
    → Pushes clip_size q ns ms addresses old (with_quarry bits info q) bound
unfolding push_all AreAddresses Addressed Pushes
push_all_lem clip_size q [] ms addresses old bits info bound room given h = (addresses, refl, h)
push_all_lem clip_size q (n ∷ ns) ms addresses old bits info bound room given h =
    let (a, run, nz, found) = given n (ground arith) in
    let z : (a == 0) ≡ false = ground arith in
    let free_place : ltb (length (addresses ++ old)) clip_size ≡ true = ground arith in
    let (more, rest, good) =
      push_all_lem clip_size q ns (n ∷ ms) (a ∷ addresses) old bits info bound (omega arith)
        (λ k m. given k (ground arith)) (found, nz, h) in
    (more, rw (run, z, free_place) rest, good)

deallocate_impl_run :
    (bits : DynamicBitmap) (info : Info) (q : Quarry) (a n : ℕ) (d : Bitmap)
    → a ≢ 0
    → allocation_index q a ≡ ok (some n)
    → is_free bits.bitmap n ≡ ok false
    → set_free bits.bitmap n ≡ ok d
    → deallocate_impl (with_quarry bits info q) a
      ≡ ok (with_quarry (record bits { bitmap = d }) info q)
unfolding deallocate_impl
deallocate_impl_run bits info q a n d nz found used freed =
    let z : (a == 0) ≡ false = ground arith in rw (z, found, used, freed) refl

no_pop : (old : List ℕ) (self : FixedSizeAllocator) → pop_all old (length old) self ≡ ok (self, old)
unfolding pop_all
no_pop [] self = refl
no_pop (a ∷ old) self =
    let e : ltb (suc (length old)) (suc (length old)) ≡ false = ground arith in rw e refl

-- What `pop_all` gives back to a bitmap.
Pops : Quarry → List ℕ → List ℕ → Bitmap → DynamicBitmap → Info → Type 0
Pops q addresses old b bits info =
    (d : Bitmap) × (pop_all (addresses ++ old) (length old) (with_quarry bits info q)
      ≡ ok (with_quarry (record bits { bitmap = d }) info q, old))
    × TakesAll b d []

longer : (addresses old : List ℕ) → ltb (length old) (suc (length (addresses ++ old))) ≡ true
longer [] old = ground arith
longer (a ∷ addresses) old = ground (arith, longer addresses old)

pop_all_lem :
    (q : Quarry) (ms addresses old : List ℕ) (b : Bitmap) (bits : DynamicBitmap) (info : Info)
    → AreAddresses q ms addresses
    → TakesAll b bits.bitmap ms
    → Pops q addresses old b bits info
unfolding pop_all AreAddresses Pops
pop_all_lem q [] [] old b bits info h t = (bits.bitmap, no_pop old (with_quarry bits info q), t)
pop_all_lem q [] (a ∷ addresses) old b bits info h t = absurd h
pop_all_lem q (n ∷ ms) [] old b bits info h t = absurd h
pop_all_lem q (n ∷ ms) (a ∷ addresses) old b bits info h t =
    let (within, used, d, freed, t') = TakesAll-uncons b bits.bitmap n ms t in
    let run =
      deallocate_impl_run bits info q a n d h.1 h.0 (used-is_free bits.bitmap n t.valid within used)
        freed in
    let (e, rest, back) =
      pop_all_lem q ms addresses old b (record bits { bitmap = d }) info h.2 t' in
    (e, rw (longer addresses old, run) rest, back)

-- A clip that is filled, and then unfilled to what it held.
unfoldable pub Exchanges : ℕ → FixedSizeAllocator → Quarry → Clip → ℕ → Type 0
Exchanges clip_size self q clip len =
    (filled : FixedSizeAllocator) × (given : Clip) × (new : List ℕ) × (fill_clip clip_size self clip
        len
      ≡ ok (filled, given))
    × (given.allocations ≡ new ++ clip.allocations)
    × (length new ≡ min (len - length clip.allocations) self.bitmap.bitmap.free)
    × IsDistinct new
    × (back : FixedSizeAllocator) × (unfill_clip filled given (length clip.allocations)
        ≡ ok (back, record given { allocations = clip.allocations }))
    × IsStocked back q
    × ((m : ℕ) → used_at back.bitmap.bitmap.bitmap m ≡ used_at self.bitmap.bitmap.bitmap m)
    × (back.bitmap.bitmap.free ≡ self.bitmap.bitmap.free)

unfill_run :
    (q : Quarry) (more old : List ℕ) (b : Bitmap) (bits : DynamicBitmap) (info : Info)
    (bound : Bool) (d : Bitmap)
    → pop_all (more ++ old) (length old) (with_quarry bits info q)
      ≡ ok (with_quarry (record bits { bitmap = d }) info q, old)
    → unfill_clip (with_quarry bits info q) (clip_of (more ++ old) bound) (length old)
      ≡ ok (with_quarry (record bits { bitmap = d }) info q, clip_of old bound)
unfolding unfill_clip
unfill_run q more old b bits info bound d h = rw h refl

-- The bitmap that is left serves as well as the one before.
restocked :
    (bits : DynamicBitmap) (info : Info) (q : Quarry) (d : Bitmap)
    → IsStocked (with_quarry bits info q) q
    → TakesAll bits.bitmap d []
    → IsStocked (with_quarry (record bits { bitmap = d }) info q) q
restocked bits info q d v t = record {
  has_quarry = refl;
  quarry_IsQuarry = v.quarry_IsQuarry;
  apart = v.apart;
  bits = t.valid;
  within = omega (arith, v.within, t.len);
  slabs = λ j p. v.slabs j (rw (t.len) at p);
}

-- Nothing is exchanged.
kept_lem :
    (clip_size : ℕ) (bits : DynamicBitmap) (info : Info) (q : Quarry) (clip : Clip) (len : ℕ)
    → IsStocked (with_quarry bits info q) q
    → len ≤ length clip.allocations
    → Exchanges clip_size (with_quarry bits info q) q clip len
unfolding Exchanges fill_clip unfill_clip
kept_lem clip_size bits info q clip len v le =
    let self = with_quarry bits info q in
    let none_asked : (len - length clip.allocations == 0) ≡ true = ground arith in
    (
      self,
      clip,
      [],
      rw none_asked refl,
      refl,
      omega arith,
      tt,
      self,
      rw (no_pop clip.allocations self) refl,
      v,
      λ m. refl,
      refl,
    )

exchange_lem :
    (clip_size : ℕ) (bits : DynamicBitmap) (info : Info) (q : Quarry) (clip : Clip) (len : ℕ)
    → IsStocked (with_quarry bits info q) q
    → length clip.allocations < len
    → len ≤ clip_size
    → Exchanges clip_size (with_quarry bits info q) q clip len
unfolding Exchanges fill_clip Pushes Pops AreAddresses
exchange_lem clip_size bits info q clip len v more room =
    elim (bulk_allocate_lem clip_size (len - length clip.allocations) bits.bitmap v.bits) [
      | inl (large, run) ↦ absurd (omega arith)
      | inr (b', ns, run, long, t) ↦
          let some_asked : (len - length clip.allocations == 0) ≡ false = ground arith in
          let bound = if ltb 0 clip_size then true else clip.is_bound in
          let (new, pushed, good) =
            push_all_lem clip_size q ns [] [] clip.allocations (record bits { bitmap = b' }) info
              bound (omega (arith, long))
              (λ n m. addressed (with_quarry bits info q) q n v (t.were_free n m).0) tt in
          let t' = TakesAll-rev_onto bits.bitmap b' ns t in
          let (d, popped, back) =
            pop_all_lem q (rev_onto ns []) new clip.allocations bits.bitmap
              (record bits { bitmap = b' }) info good t' in
          (
            with_quarry (record bits { bitmap = b' }) info q,
            clip_of (new ++ clip.allocations) bound,
            new,
            rw (some_asked, run) pushed,
            refl,
            AreAddresses-length q (rev_onto ns []) new good ∙ length-rev_onto ns [] ∙ omega arith,
            AreAddresses-IsDistinct q (rev_onto ns []) new good t'.distinct,
            with_quarry (record bits { bitmap = d }) info q,
            unfill_run q new clip.allocations bits.bitmap (record bits { bitmap = b' }) info bound d
                popped,
            restocked bits info q d v back,
            back.bits,
            omega (arith, back.counts),
          )
    ]

-- For a stocked allocator and a length that is within the capacity of the clips: `fill_clip` puts as many
-- addresses on top of the clip as are missing to the length, or as elements are free if those are
-- fewer. They are all different. `unfill_clip` to the old length then succeeds: it leaves the clip with
-- the old addresses and a stocked allocator with the same elements used and as many free.
pub unfill_clip-fill_clip :
    (clip_size : ℕ) (self : FixedSizeAllocator) (q : Quarry) (clip : Clip) (len : ℕ)
    → IsStocked self q
    → len ≤ clip_size
    → (filled : FixedSizeAllocator) × (given : Clip) × (new : List ℕ) × (fill_clip clip_size self
          clip len
        ≡ ok (filled, given))
      × (given.allocations ≡ new ++ clip.allocations)
      × (length new ≡ min (len - length clip.allocations) self.bitmap.bitmap.free)
      × IsDistinct new
      × (back : FixedSizeAllocator) × (unfill_clip filled given (length clip.allocations)
          ≡ ok (back, record given { allocations = clip.allocations }))
      × IsStocked back q
      × ((m : ℕ) → used_at back.bitmap.bitmap.bitmap m ≡ used_at self.bitmap.bitmap.bitmap m)
      × (back.bitmap.bitmap.free ≡ self.bitmap.bitmap.free)
unfolding Exchanges
unfill_clip-fill_clip clip_size self q clip len v room =
    let e : with_quarry self.bitmap self.info q ≡ self =
      ap (λ z. record self { quarry = z }) (sym v.has_quarry) in
    let v' = subst (λ z. IsStocked z q) (sym e) v in
    subst (λ z. Exchanges clip_size z q clip len) e
      (elim (Bool-cases (ltb (length clip.allocations) len)) [
        | inl more ↦ exchange_lem clip_size self.bitmap self.info q clip len v' (ground arith) room
        | inr enough ↦ kept_lem clip_size self.bitmap self.info q clip len v' (ground arith)
      ])
