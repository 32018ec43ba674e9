-- ===== src/Kernel/PageAllocator/Scans.antt =====
-- `find_unused_block` finds a longest run of entries that are not present.
use nikka.Common.{
  ℕ, zero, suc, ◌+◌, ◌-◌, ◌*◌, ◌≤◌, ◌<◌, ◌≡◌, ◌⊎◌, inl, inr, refl, Bool, true, false, Option, some,
  none, arith, ltb, ◌==◌, if◌then◌else◌, Bool-cases, Outcome, ok,
}
use native.Mathlib.Decide.{dec_lt}
use native.Mathlib.Nat.{zero-add, le_refl}
use nikka.Kernel.PageAllocator.{
  Scan, start_scan, extend_current, scan_entry, scan_entries, find_unused_block, found_block,
}
use nikka.Kernel.Range.{page, pages_per_root_level_entry}
use nikka.Memory.Block.{Block, block}
use nikka.Memory.Block.Valid.{IsValid, IsValid-from_index}

module _ (is_present : ℕ → Bool) where
  -- The `n` entries from `start` on are not present.
  abbrev pub Absent : ℕ → ℕ → Type 0
  Absent start n = (j : ℕ) → start ≤ j → j < start + n → is_present j ≡ false

  -- A run of absent entries between `lo` and `hi`.
  abbrev pub Run : ℕ → ℕ → ℕ → ℕ → Type 0
  Run lo hi start n = (lo ≤ start) × (start + n ≤ hi) × Absent start n

  abbrev IsFound : ℕ → ℕ → Option ℕ → ℕ → Type 0
  IsFound lo i none n = n ≡ 0
  IsFound lo i (some start) n = Run lo i start n × (0 < n)

  -- The loop at the entry `i`: the current run ends there and reaches back as far as any, and no run
  -- before `i` is longer than the longest.
  record Inv (lo i : ℕ) (s : Scan) : Type 0 where
    current_start :
        s.current_start ≡ (if s.current_length == 0 then none else some (i - s.current_length))
    current_run : Run lo i (i - s.current_length) s.current_length
    current_maximal : (start n : ℕ) → Run lo i start n → start + n ≡ i → n ≤ s.current_length
    longest_run : IsFound lo i s.longest_start s.longest_length
    longest_maximal : (start n : ℕ) → Run lo i start n → n ≤ s.longest_length

  IsFound-mono : (lo i : ℕ) (o : Option ℕ) (n : ℕ) → IsFound lo i o n → IsFound lo (i + 1) o n
  IsFound-mono lo i none n f = f
  IsFound-mono lo i (some start) n f = ((f.0.0, omega arith, f.0.2), f.1)

  Run-cases : (lo i start n : ℕ) → Run lo (i + 1) start n → Run lo i start n ⊎ (start + n ≡ i + 1)
  Run-cases lo i start n r = elim (dec_lt i (start + n)) [
    | yes p ↦ inr (omega arith)
    | no p ↦ inl (r.0, omega arith, r.2)
  ]

  Run-init :
      (lo i start n : ℕ) → Run lo (i + 1) start (suc n) → start + suc n ≡ i + 1 → Run lo i start n
  Run-init lo i start n r e = (r.0, omega arith, λ j p q. r.2 j p (omega arith))

  Run-extend :
      (lo i start n : ℕ)
      → Run lo i start n
      → start + n ≡ i
      → is_present i ≡ false
      → Run lo (i + 1) start (suc n)
  Run-extend lo i start n r e h = (
    r.0,
    omega arith,
    λ j p q. elim (dec_lt j i) [
      | yes b ↦ r.2 j p (omega arith)
      | no b ↦ let at : j ≡ i = omega arith in rw at h
    ],
  )

  ends_at_present :
      (lo i start n : ℕ) → is_present i ≡ true → Run lo (i + 1) start n → start + n ≡ i + 1 → n ≤ 0
  ends_at_present lo i start zero h r e = omega arith
  ends_at_present lo i start (suc n) h r e = let absent = r.2 i (omega arith) (omega arith) in cc

  start_scan-Inv : (lo : ℕ) → Inv lo lo start_scan
  start_scan-Inv lo = record {
    current_start = refl;
    current_run = (omega arith, omega arith, λ j p q. absurd (omega arith));
    current_maximal = λ start n r e. omega (arith, r.0, r.1);
    longest_run = refl;
    longest_maximal = λ start n r. omega (arith, r.0, r.1);
  }

  scan_present :
      (lo i : ℕ) (s : Scan)
      → Inv lo i s
      → lo ≤ i
      → is_present i ≡ true
      → Inv lo (i + 1) (scan_entry is_present i s)
  unfolding scan_entry
  scan_present lo i s v le h = rw h (record {
    current_start = refl;
    current_run = (omega arith, omega arith, λ j p q. absurd (omega arith));
    current_maximal = λ start n r e. ends_at_present lo i start n h r e;
    longest_run = IsFound-mono lo i s.longest_start s.longest_length v.longest_run;
    longest_maximal = λ start n r. elim (Run-cases lo i start n r) [
      | inl earlier ↦ v.longest_maximal start n earlier
      | inr e ↦ omega (arith, ends_at_present lo i start n h r e)
    ];
  })

  -- The scan whose current run is one entry longer.
  abbrev longer : ℕ → Scan → Scan
  longer i s = record s {
    current_start = some (i - s.current_length);
    current_length = s.current_length + 1;
  }

  extend_current-longer : (lo i : ℕ) (s : Scan) → Inv lo i s → extend_current i s ≡ longer i s
  extend_current-longer lo i s v = ground (arith, v.current_start)

  longer_maximal :
      (lo i : ℕ) (s : Scan)
      → Inv lo i s
      → (start n : ℕ) → Run lo (i + 1) start n
      → start + n ≡ i + 1
      → n ≤ s.current_length + 1
  longer_maximal lo i s v start zero r e = omega arith
  longer_maximal lo i s v start (suc n) r e =
      omega (arith, v.current_maximal start n (Run-init lo i start n r e) (omega arith))

  longer-Run :
      (lo i : ℕ) (s : Scan)
      → Inv lo i s
      → is_present i ≡ false
      → Run lo (i + 1) (i - s.current_length) (s.current_length + 1)
  longer-Run lo i s v h =
      let e : s.current_length + 1 ≡ suc s.current_length = omega arith in
      rw e (
        Run-extend lo i (i - s.current_length) s.current_length v.current_run
          (omega (arith, v.current_run.0, v.current_run.1)) h)

  scan_absent :
      (lo i : ℕ) (s : Scan)
      → Inv lo i s
      → lo ≤ i
      → is_present i ≡ false
      → Inv lo (i + 1) (scan_entry is_present i s)
  unfolding scan_entry
  scan_absent lo i s v le h =
      let c = s.current_length in
      let at : i + 1 - (c + 1) ≡ i - c = omega arith in
      let run : Run lo (i + 1) (i + 1 - (c + 1)) (c + 1) = rw at (longer-Run lo i s v h) in
      elim (Bool-cases (ltb s.longest_length (c + 1))) [
        | inl t ↦
            rw (h, extend_current-longer lo i s v, t)
              (record {
                current_start = ground arith;
                current_run = run;
                current_maximal = longer_maximal lo i s v;
                longest_run = (longer-Run lo i s v h, omega arith);
                longest_maximal = λ start n r. elim (Run-cases lo i start n r) [
                  | inl earlier ↦ ground (arith, v.longest_maximal start n earlier)
                  | inr e ↦ longer_maximal lo i s v start n r e
                ];
              })
        | inr f ↦
            rw (h, extend_current-longer lo i s v, f)
              (record {
                current_start = ground arith;
                current_run = run;
                current_maximal = longer_maximal lo i s v;
                longest_run = IsFound-mono lo i s.longest_start s.longest_length v.longest_run;
                longest_maximal = λ start n r. elim (Run-cases lo i start n r) [
                  | inl earlier ↦ v.longest_maximal start n earlier
                  | inr e ↦ ground (arith, longer_maximal lo i s v start n r e)
                ];
              })
      ]

  scan_entry-Inv :
      (lo i : ℕ) (s : Scan) → Inv lo i s → lo ≤ i → Inv lo (i + 1) (scan_entry is_present i s)
  scan_entry-Inv lo i s v le = elim (Bool-cases (is_present i)) [
    | inl h ↦ scan_present lo i s v le h
    | inr h ↦ scan_absent lo i s v le h
  ]

  scan_entries-Inv :
      (lo rounds i : ℕ) (s : Scan)
      → Inv lo i s
      → lo ≤ i
      → Inv lo (rounds + i) (scan_entries is_present rounds i s)
  unfolding scan_entries
  scan_entries-Inv lo zero i s v le = rw zero-add v
  scan_entries-Inv lo (suc rounds) i s v le =
      let at : suc rounds + i ≡ rounds + (i + 1) = omega arith in
      rw at (
        scan_entries-Inv lo rounds (i + 1) (scan_entry is_present i s) (scan_entry-Inv lo i s v le)
          (omega arith))

  -- The block of a longest run of absent entries between `start` and `end`.
  pub record IsLongest (start end : ℕ) (b : Block) : Type 0 where
    pub entry : ℕ
    pub entries : ℕ
    pub some_entries : 0 < entries
    pub is_block :
        b
        ≡ block
            (entry * pages_per_root_level_entry)
            ((entry + entries) * pages_per_root_level_entry)
    pub is_valid : IsValid page b
    pub is_run : Run start end entry entries
    pub is_longest : (entry' entries' : ℕ) → Run start end entry' entries' → entries' ≤ entries

  abbrev pub Finds : ℕ → ℕ → Outcome (Option Block) → Type 0
  Finds start end (ok (some b)) = IsLongest start end b
  Finds start end (ok none) = (i : ℕ) → start ≤ i → i < end → is_present i ≡ true
  Finds start end _ = ⊥

  found_block-Finds :
      (start end : ℕ) (o : Option ℕ) (n : ℕ)
      → end ≤ 256
      → IsFound start end o n
      → ((st m : ℕ) → Run start end st m → m ≤ n)
      → Finds start end (found_block o n)
  found_block-Finds start end none n q f most = λ i p below. elim (Bool-cases (is_present i)) [
    | inl h ↦ h
    | inr h ↦
        let one = most i 1 (p, omega arith, λ j a b. let e : j ≡ i = omega arith in rw e h) in
        absurd (omega arith)
  ]
  found_block-Finds start end (some entry) n q f most =
      let last = (entry + n) * pages_per_root_level_entry in
      let e : entry * pages_per_root_level_entry + n * pages_per_root_level_entry ≡ last =
        omega arith in
      let valid : IsValid page (block (entry * pages_per_root_level_entry) last) =
        grind (arith, f.0.1) in
      rw (e, IsValid-from_index page (entry * pages_per_root_level_entry) last valid)
        (record {
          entry = entry;
          entries = n;
          some_entries = f.1;
          is_block = refl;
          is_valid = valid;
          is_run = f.0;
          is_longest = most;
        })

  -- Among root entries of the lower half, `find_unused_block` returns the valid block of pages of a
  -- longest run of entries that are not present. It returns none only if all are present.
  pub find_unused_block-Finds :
      (start end : ℕ)
      → start ≤ end
      → end ≤ 256
      → Finds start end (find_unused_block is_present start end)
  unfolding find_unused_block
  find_unused_block-Finds start end p q =
      let s = scan_entries is_present (end - start) start start_scan in
      let e : end - start + start ≡ end = omega arith in
      let v : Inv start end s = rw e at (
        scan_entries-Inv start (end - start) start start_scan (start_scan-Inv start)
          (le_refl start)) in
      found_block-Finds start end s.longest_start s.longest_length q v.longest_run v.longest_maximal
