-- ===== src/Process/Spaces.antt =====
-- A pair of address spaces for the tests of the loader: the current one has its block at the page 1.
use nikka.Common.{
  Bool, true, ℕ, ◌+◌, ◌-◌, ◌*◌, ◌^◌, ◌≤◌, ◌≡◌, ◌⊎◌, inl, inr, refl, subst, arith, Option, some,
  none, ltb, leb, ◌&&◌, if◌then◌else◌, ok, length,
}
use nikka.Memory.Block.{block, count}
use nikka.Process.Elf.Loader.{BigAllocatorPair}
use nikka.Process.Elf.Loader.Views.{inside, byte_at, View, HasRoom}

pub record Spaces : Type 0 where
  pub reserved : ℕ → Bool
  pub mapped : ℕ → Option ℕ
  -- The page of the current address space that has the frame of a page of the target.
  pub twin : ℕ → Option ℕ
  pub bytes : ℕ → ℕ
  pub used : ℕ

abbrev pub spaces : BigAllocatorPair Spaces
spaces = record {
  dst_flags = λ a. 4;
  src_flags = λ a. 1;
  reserve_fixed =
      λ a b. ok (record a { reserved = λ p. if inside b p then true else a.reserved p });
  grow = λ a b n f. ok (record a { used = a.used + (n - count b) }, block 1 (1 + n));
  copy_mapping = λ a src dst f. ok (record a {
    mapped = λ p. if inside dst p then some f else a.mapped p;
    twin = λ p. if inside dst p then some (src.start + (p - dst.start)) else a.twin p;
  });
  try_into_mut_slice = λ a b. ok tt;
  copy_from_slice = λ a d from slice. record a {
    bytes = λ x.
        if leb (d.start * 2 ^ 12 + from) x && ltb x (d.start * 2 ^ 12 + (from + length slice))
        then byte_at slice (x - (d.start * 2 ^ 12 + from))
        else a.bytes x;
  };
  fill = λ a d from to byte. record a {
    bytes = λ x.
        if leb (d.start * 2 ^ 12 + from) x && ltb x (d.start * 2 ^ 12 + to)
        then byte
        else a.bytes x;
  };
}

abbrev pub places : View Spaces
places = record {
  mapped = λ a. a.mapped;
  taken = λ a. a.reserved;
  room = λ a. 2 ^ 20 - a.used;
  own = λ a b. (count b ≤ a.used) × ((count b ≡ 0) ⊎ (b.start ≡ 1));
  byte = λ a. a.bytes;
  shares = λ a p i. a.twin p ≡ some i;
}

abbrev pub nothing_loaded : Spaces
nothing_loaded = record {
  reserved = λ p. ltb p 8;
  mapped = λ p. none;
  twin = λ p. none;
  bytes = λ x. 255;
  used = 0;
}

pub spaces-HasRoom : HasRoom spaces places
spaces-HasRoom = record {
  starts_own = λ a. (omega arith, inl (omega arith));
  reserves = λ a b free. (
    record a { reserved = λ p. if inside b p then true else a.reserved p },
    refl,
    record { pages = λ p. refl; flags = refl },
    λ p. refl,
    refl,
    λ d g. (g, λ j lt. refl, λ p i lt sh. sh),
  );
  grows = λ a b n f g more small left. (
    record a { used = a.used + (n - count b) },
    block 1 (1 + n),
    refl,
    record { ordered = omega arith; lower = omega (arith, g.0); placed = λ z. omega arith },
    omega arith,
    record { pages = λ p. refl; flags = refl },
    λ p. refl,
    omega arith,
    (omega (arith, g.0), inr refl),
    λ j lt. elim (g.1) [ inl z ↦ absurd (omega (arith, z)) | inr e ↦ rw e refl ],
    λ p i lt sh. elim (g.1) [
      | inl z ↦ absurd (omega (arith, z))
      | inr e ↦ subst (λ x. a.twin p ≡ some (x + i)) e sh
    ],
  );
  slices = λ a b h z. refl;
  copies = λ a d from slice g fits. record {
    same = record { pages = λ p. refl; flags = refl };
    taken = λ p. refl;
    room = refl;
    own = g;
    bytes = λ j lt.
        let e1 : leb (d.start * 2 ^ 12 + from) (d.start * 2 ^ 12 + j) ≡ leb from j = ground arith in
        let e2 : ltb (d.start * 2 ^ 12 + j) (d.start * 2 ^ 12 + (from + length slice))
            ≡ ltb j (from + length slice) =
          ground arith in
        let e3 : d.start * 2 ^ 12 + j - (d.start * 2 ^ 12 + from) ≡ j - from = omega arith in
        rw (e1, e2, e3) refl;
    follow = λ p i lt sh. sh;
  };
  fills = λ a d k from to byte g low fits. record {
    same = record { pages = λ p. refl; flags = refl };
    taken = λ p. refl;
    room = refl;
    own = g;
    bytes = λ j lt.
        let e1 : leb ((d.start + k) * 2 ^ 12 + from) (d.start * 2 ^ 12 + j)
            ≡ leb (k * 2 ^ 12 + from) j =
          ground arith in
        let e2 : ltb (d.start * 2 ^ 12 + j) ((d.start + k) * 2 ^ 12 + to)
            ≡ ltb j (k * 2 ^ 12 + to) =
          ground arith in
        rw (e1, e2) refl;
    follow = λ p i lt sh. sh;
  };
  maps = λ a d k n dst f g low len reserved. (
    record a {
      mapped = λ p. if inside dst p then some f else a.mapped p;
      twin = λ p. if inside dst p then some (d.start + k + (p - dst.start)) else a.twin p;
    },
    refl,
    λ p. refl,
    refl,
    λ p. refl,
    refl,
    g,
    λ j lt. refl,
    λ i lt.
        let within : inside dst (dst.start + i) ≡ true = ground (arith, len, lt) in
        let back : dst.start + i - dst.start ≡ i = omega arith in rw (within, back) refl,
    λ p i out sh. rw out sh,
  );
}
