-- ===== src/Process/Elf/Header.antt =====
-- The segments as the file describes them, and `load`. The parser of the file is the parameter
-- `parse`: it gives the program headers and the entry point.
use Prim.Native.Nat.{bit_and, bit_xor}
use nikka.Common.{
  ℕ, ◌+◌, ◌*◌, ◌/◌, ◌%◌, ◌^◌, ◌≤◌, ◌<◌, ◌≡◌, refl, subst, ok-injective, sym, ap, ok_of_bind, ◌∙◌,
  zero, suc, ◌&&◌, Bool, true, false, not, List, [], ◌∷◌, ltb, ◌==◌, if◌then◌else◌, Outcome, ok,
  err, permission_denied, overflow, ◌>>=◌, ok_or, checked_add, arith,
}
use nikka.Common.Words.{bit_and-split, bit_and-zero}
use nikka.Memory.Addr
use nikka.Memory.Addr.{virt}
use nikka.Memory.Addr.Arith.{add_lem}
use nikka.Memory.Addr.Ranges.{IsAddr, new_lem}
use nikka.Memory.Block
use nikka.Memory.Block.{Block, block, addr, count}
use nikka.Memory.Block.Valid.{IsValid, from_index_iff}
use nikka.Process.Elf.{range_of}
use nikka.Process.Elf.Loader.{BigAllocatorPair, FileRange, Loader, load_program_header, finish, new}

-- `FLAG_X`, `FLAG_W` and `FLAG_R` of the format.
abbrev pub flag_x : ℕ
flag_x = 1

abbrev pub flag_w : ℕ
flag_w = 2

abbrev pub flag_r : ℕ
flag_r = 4

-- `PageTableFlags::PRESENT`, `WRITABLE`, `EXECUTABLE` and `default()`
abbrev pub present : ℕ
present = 2 ^ 0

abbrev pub writable : ℕ
writable = 2 ^ 1

abbrev pub executable : ℕ
executable = 2 ^ 63

abbrev pub no_flags : ℕ
no_flags = 0

-- A turn of the loop over the pairs of flags.
pub toggle : ℕ → ℕ → ℕ → ℕ → ℕ
toggle ph_flags ph_flag flag flags =
    if not (bit_and ph_flags ph_flag == 0) then bit_xor flags flag else flags

-- `PageTableFlags::try_from`
pub page_table_flags : ℕ → Outcome ℕ
unfolding toggle
page_table_flags ph_flags =
    if bit_and ph_flags 3 == 3
    then err permission_denied
    else ok (
        toggle ph_flags flag_x executable
          (toggle ph_flags flag_w writable (toggle ph_flags flag_r no_flags present)))

-- What the parser tells of a program header. `is_load` is `get_type() == Load`, or its error.
pub record ProgramHeader : Type 0 where
  pub is_load : Outcome Bool
  pub flags : ℕ
  pub virtual_addr : ℕ
  pub mem_size : ℕ
  pub file_size : ℕ
  pub offset : ℕ

-- The ranges of a program header, for the flags of its pages.
pub ranges_of : ProgramHeader → ℕ → Outcome FileRange
ranges_of program_header flags = do
  start_virt ← Addr.new virt program_header.virtual_addr
  end_virt ← Addr.add virt start_virt program_header.mem_size
  memory ← Block.from_index (addr virt) start_virt end_virt
  file_end ← ok_or (checked_add program_header.offset program_header.file_size) overflow
  ok (record {
    file_start = program_header.offset;
    file_end = file_end;
    virt_range = range_of flags memory;
  })

-- `FileRange::try_from`
unfoldable pub try_from : ProgramHeader → Outcome FileRange
unfolding page_table_flags ranges_of
try_from program_header = do
  flags ← page_table_flags program_header.flags
  if ltb program_header.mem_size program_header.file_size
      then err overflow
      else ranges_of program_header flags

module _ {A : Type 0} (pair : BigAllocatorPair A) where
  pub load_header : Loader A → ProgramHeader → Bool → Outcome (Loader A)
  unfolding try_from
  load_header self program_header true = do
    file_range ← try_from program_header
    load_program_header pair self file_range
  load_header self program_header false = ok self

  pub load_headers : Loader A → List ProgramHeader → Outcome (Loader A)
  unfolding load_header
  load_headers self [] = ok self
  load_headers self (program_header ∷ headers) = do
    is_load ← program_header.is_load
    loaded ← load_header self program_header is_load
    load_headers loaded headers

  pub load : (List ℕ → Outcome (List ProgramHeader × ℕ)) → A → List ℕ → Outcome (A × ℕ)
  unfolding load_headers
  load parse allocator file = do
    elf_file ← parse file
    loaded ← load_headers (new pair allocator file) elf_file.0
    finished ← finish pair loaded
    entry_point ← Addr.new virt elf_file.1
    ok (finished.allocator, entry_point)

bit_and_low : (f m : ℕ) → m < 8 → bit_and f m ≡ bit_and (f % 8) m
bit_and_low f m h =
    let e : f ≡ f / 8 * 2 ^ 3 + f % 8 = omega arith in
    let split = bit_and-split 3 (f / 8) (f % 8) 0 m (omega arith) h in
    let z : 0 * 2 ^ 3 + m ≡ m = omega arith in
    ap (λ g. bit_and g m) e
    ∙ ap (bit_and (f / 8 * 2 ^ 3 + f % 8)) (sym z)
    ∙ split
    ∙ rw (bit_and-zero (f / 8)) (omega arith)

-- The flags by the two digits that matter.
abbrev pub flags_of_digits : ℕ → ℕ → Outcome ℕ
flags_of_digits w x =
    if w == 1 && x == 1 then err permission_denied else ok (1 + w * 2 ^ 1 + x * 2 ^ 63)

page_table_flags_low : (n : ℕ) → n < 8 → page_table_flags n ≡ flags_of_digits (n / 2 % 2) (n % 2)
unfolding page_table_flags
page_table_flags_low zero h = refl
page_table_flags_low (suc zero) h = refl
page_table_flags_low (suc (suc zero)) h = refl
page_table_flags_low (suc (suc (suc zero))) h = refl
page_table_flags_low (suc (suc (suc (suc zero)))) h = refl
page_table_flags_low (suc (suc (suc (suc (suc zero))))) h = refl
page_table_flags_low (suc (suc (suc (suc (suc (suc zero)))))) h = refl
page_table_flags_low (suc (suc (suc (suc (suc (suc (suc zero))))))) h = refl
page_table_flags_low (suc (suc (suc (suc (suc (suc (suc (suc n)))))))) h = absurd (omega arith)

page_table_flags-mod : (f : ℕ) → page_table_flags f ≡ page_table_flags (f % 8)
unfolding page_table_flags
page_table_flags-mod f =
    rw
      (
        bit_and_low f 3 (omega arith),
        bit_and_low f 1 (omega arith),
        bit_and_low f 2 (omega arith),
        bit_and_low f 4 (omega arith),
      )
      refl

-- Of the flags of a program header, the writable and the executable one are refused together, with
-- `PermissionDenied`. In every other case the page is present, and writable or executable exactly
-- if the header says so; no other flag is set.
pub page_table_flags_lem : (f : ℕ) → page_table_flags f ≡ flags_of_digits (f / 2 % 2) (f % 2)
page_table_flags_lem f =
    let w : f % 8 / 2 % 2 ≡ f / 2 % 2 = omega arith in
    let x : f % 8 % 2 ≡ f % 2 = omega arith in
    page_table_flags-mod f ∙ page_table_flags_low (f % 8) (omega arith) ∙ rw (w, x) refl

IsRange : ProgramHeader → ℕ → FileRange → Type 0
IsRange h flags r =
    (r.virt_range.flags ≡ flags)
    × IsValid (addr virt) r.virt_range.memory
    × (r.virt_range.memory ≡ block h.virtual_addr (h.virtual_addr + h.mem_size))
    × (r.file_start ≡ h.offset)
    × (r.file_end ≡ h.offset + h.file_size)
    × (h.offset + h.file_size < 2 ^ 64)

made : ProgramHeader → ℕ → Block → ℕ → FileRange
made h flags memory file_end = record {
  file_start = h.offset;
  file_end = file_end;
  virt_range = range_of flags memory;
}

made-IsRange :
    (h : ProgramHeader) (flags start end : ℕ) (memory : Block) (file_end : ℕ)
    → h.virtual_addr < 2 ^ 64
    → Addr.new virt h.virtual_addr ≡ ok start
    → Addr.add virt start h.mem_size ≡ ok end
    → Block.from_index (addr virt) start end ≡ ok memory
    → ok_or (checked_add h.offset h.file_size) overflow ≡ ok file_end
    → IsRange h flags (made h flags memory file_end)
unfolding made IsRange
made-IsRange h flags start end memory file_end b e1 e2 e3 e4 =
    let same : start ≡ h.virtual_addr = ground (arith, new_lem virt h.virtual_addr) in
    let valid : IsAddr virt start = ground (arith, new_lem virt h.virtual_addr) in
    let stop : end ≡ h.virtual_addr + h.mem_size =
      ground (arith, add_lem virt start h.mem_size valid) in
    let low : start < 2 ^ 64 = omega (arith, same) in
    let small : end < 2 ^ 64 = ground (arith, add_lem virt start h.mem_size valid) in
    let (is_block, is_valid) = (from_index_iff (addr virt) start end memory low small).0.0 e3 in
    (refl, is_valid, rw (is_block, same, stop) refl, refl, ground arith, ground arith)

ranges_of_lem :
    (h : ProgramHeader) (flags : ℕ) (r : FileRange)
    → h.virtual_addr < 2 ^ 64
    → ranges_of h flags ≡ ok r
    → IsRange h flags r
unfolding ranges_of made
ranges_of_lem h flags r b e =
    let (start, e1, f1) = ok_of_bind (Addr.new virt h.virtual_addr) _ r e in
    let (end, e2, f2) = ok_of_bind (Addr.add virt start h.mem_size) _ r f1 in
    let (memory, e3, f3) = ok_of_bind (Block.from_index (addr virt) start end) _ r f2 in
    let (file_end, e4, f4) =
      ok_of_bind (ok_or (checked_add h.offset h.file_size) overflow) _ r f3 in
    subst (IsRange h flags) (ok-injective _ r f4)
      (made-IsRange h flags start end memory file_end b e1 e2 e3 e4)

-- If a program header of `u64` numbers becomes a `FileRange`, then its flags do not ask for both
-- writing and executing, its block of addresses is valid and holds `mem_size` bytes from
-- `virtual_addr` on, and the bytes of the file are the `file_size` from `offset` on, no more than
-- the block and without overflow.
pub try_from_lem :
    (h : ProgramHeader) (r : FileRange)
    → h.virtual_addr < 2 ^ 64
    → try_from h ≡ ok r
    → (flags_of_digits (h.flags / 2 % 2) (h.flags % 2) ≡ ok r.virt_range.flags)
      × IsValid (addr virt) r.virt_range.memory
      × (r.virt_range.memory ≡ block h.virtual_addr (h.virtual_addr + h.mem_size))
      × (r.file_start ≡ h.offset)
      × (r.file_end ≡ h.offset + h.file_size)
      × (h.offset + h.file_size < 2 ^ 64)
      × (h.file_size ≤ h.mem_size)
unfolding try_from IsRange
try_from_lem h r b e =
    let (flags, f, e1) = ok_of_bind (page_table_flags h.flags) _ r e in
    let k : ranges_of h flags ≡ ok r = ground arith in
    let (p, q, s, t, u, v) = ranges_of_lem h flags r b k in
    (rw p (sym (page_table_flags_lem h.flags) ∙ f), q, s, t, u, v, ground arith)
