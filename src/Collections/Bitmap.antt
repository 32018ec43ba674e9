-- ===== src/Collections/Bitmap.antt =====
-- ku/src/collections/bitmap.rs: a bitmap of free and used elements. The slice of words that it borrows
-- is a list, which the operations return changed.
pub mod Digits
pub mod Zeros
pub mod Valid
pub mod Free
pub mod Search
pub mod SetFree
pub mod Bulk
pub mod GiveAll
pub mod Made
use Prim.Native.Nat.{bit_and, bit_or}
use nikka.Common.{
  ℕ, zero, suc, ◌+◌, ◌-◌, ◌*◌, ◌/◌, ◌%◌, ◌^◌, Bool, true, false, not, Option, some, none, List, [],
  ◌∷◌, ◌++◌, get_elem?, length, set, ltb, leb, ◌==◌, if◌then◌else◌, min, Outcome, ok, err, panic,
  invalid_argument, ◌>>=◌, ◌>>◌, assert, or_panic, add_usize, sub_usize,
}

pub record Bitmap : Type 0 where
  pub bitmap : List ℕ
  pub cursor : ℕ
  pub free : ℕ
  pub len : ℕ

abbrev pub bits_per_entry : ℕ
bits_per_entry = 64

-- `usize::div_ceil`
abbrev pub div_ceil : ℕ → ℕ → ℕ
div_ceil a b = if a % b == 0 then a / b else a / b + 1

-- `slice[.. n]` of a slice that is long enough.
abbrev pub take {ℓ} : {A : Type ℓ} → ℕ → List A → List A
take zero xs = []
take (suc n) [] = []
take (suc n) (x ∷ xs) = x ∷ take n xs

-- `u64::count_zeros`, of a word of so many digits.
unfoldable pub count_zeros : ℕ → ℕ → ℕ
count_zeros zero word = 0
count_zeros (suc width) word = (1 - word % 2) + count_zeros width (word / 2)

-- `u64::trailing_ones`
unfoldable pub trailing_ones : ℕ → ℕ → ℕ
trailing_ones zero word = 0
trailing_ones (suc width) word =
    let rest = trailing_ones width (word / 2) in if word % 2 == 0 then 0 else suc rest

unfoldable pub bit : List ℕ → ℕ → Outcome Bool
bit bitmap number = do
  entry ← or_panic (get_elem? bitmap (number / bits_per_entry))
  ok (not (bit_and entry (2 ^ (number % bits_per_entry)) == 0))

unfoldable pub sum_zeros : List ℕ → ℕ
unfolding count_zeros
sum_zeros [] = 0
sum_zeros (entry ∷ entries) = count_zeros bits_per_entry entry + sum_zeros entries

-- The free ones of the numbers from `first` on, as many as are left.
unfoldable pub count_free_bits : List ℕ → ℕ → ℕ → Outcome ℕ
unfolding bit
count_free_bits bitmap first zero = ok 0
count_free_bits bitmap first (suc left) = do
  used ← bit bitmap first
  rest ← count_free_bits bitmap (first + 1) left
  ok ((if used then 0 else 1) + rest)

unfoldable pub count_free : List ℕ → ℕ → Outcome ℕ
unfolding sum_zeros
count_free bitmap len = do
  assert (leb (div_ceil len bits_per_entry) (length bitmap))
  let full_elements_count = len / bits_per_entry
  let full_elements_free_count = sum_zeros (take full_elements_count bitmap)
  last_element_free_count ←
      count_free_bits bitmap (full_elements_count * bits_per_entry) (len % bits_per_entry)
  ok (full_elements_free_count + last_element_free_count)

-- `free.unwrap_or_else`
abbrev given_or_counted : List ℕ → ℕ → Option ℕ → Outcome ℕ
given_or_counted bitmap len (some free) = ok free
given_or_counted bitmap len none = count_free bitmap len

unfoldable pub new : List ℕ → ℕ → Option ℕ → Outcome Bitmap
new bitmap len given = do
  free ← given_or_counted bitmap len given
  used ← sub_usize len free
  let entry_count = div_ceil len bits_per_entry
  let cursor = used / bits_per_entry
  assert (leb entry_count (length bitmap))
  assert (leb free len)
  ok (record {
    bitmap = take entry_count bitmap;
    cursor = if leb entry_count cursor then 0 else cursor;
    free = free;
    len = len;
  })

-- `Bitmap::zero`
abbrev pub empty_bitmap : Bitmap
empty_bitmap = record { bitmap = []; cursor = 0; free = 0; len = 0 }

unfoldable pub is_free : Bitmap → ℕ → Outcome Bool
unfolding bit
is_free self number = do assert (ltb number self.len); used ← bit self.bitmap number; ok (not used)

unfoldable pub set_free : Bitmap → ℕ → Outcome Bitmap
unfolding is_free
set_free self number = do
  assert (ltb number self.len)
  free ← is_free self number
  assert (not free)
  entry ← or_panic (get_elem? self.bitmap (number / bits_per_entry))
  count ← add_usize self.free 1
  ok (record self {
    bitmap =
        set self.bitmap (number / bits_per_entry)
          (bit_and entry (2 ^ 64 - 1 - 2 ^ (number % bits_per_entry)));
    free = count;
  })

-- The element of a word that has a free one is marked as used.
unfoldable pub mark_used : Bitmap → ℕ → ℕ → ℕ → Outcome (Bitmap × Option ℕ)
mark_used self index entry bit_position = do
  free ← sub_usize self.free 1
  ok (
    record self {
      bitmap = set self.bitmap index (bit_or entry (2 ^ bit_position));
      cursor = index;
      free = free;
    },
    some (index * bits_per_entry + bit_position),
  )

-- The body of the loop, with the turns that are left.
unfoldable pub try_entry :
    Bitmap → ℕ → ℕ → Outcome (Bitmap × Option ℕ) → Outcome (Bitmap × Option ℕ)
unfolding trailing_ones mark_used
try_entry self index entry rest =
    let bit_position = trailing_ones 64 entry in
    if entry == 2 ^ 64 - 1
    then rest
    else if ltb (index * bits_per_entry + bit_position) self.len
    then mark_used self index entry bit_position
    else rest

-- The loop over the words, from the one at the cursor on. `unreachable_unchecked`, after it, is
-- written as a panic.
unfoldable pub scan : Bitmap → ℕ → ℕ → Outcome (Bitmap × Option ℕ)
unfolding try_entry
scan self offset zero = panic
scan self offset (suc left) =
    let rest = scan self (offset + 1) left in
    let index = (self.cursor + offset) % length self.bitmap in
    do entry ← or_panic (get_elem? self.bitmap index); try_entry self index entry rest

unfoldable pub allocate : Bitmap → Outcome (Bitmap × Option ℕ)
unfolding scan
allocate self = if self.free == 0 then ok (self, none) else scan self 0 (length self.bitmap)

-- The body of the loop of `bulk_allocate`, which pushes to `result`, and the turns after it.
unfoldable pub push_then :
    (List ℕ → Bitmap → Outcome (Bitmap × List ℕ))
    → List ℕ
    → Bitmap × Option ℕ
    → Outcome (Bitmap × List ℕ)
push_then rest result (self, none) = ok (self, result)
push_then rest result (self, some element) = rest (result ++ element ∷ []) self

unfoldable pub allocate_times : ℕ → List ℕ → Bitmap → Outcome (Bitmap × List ℕ)
unfolding push_then
allocate_times zero result self = ok (self, result)
allocate_times (suc left) result self =
    allocate self >>= push_then (λ pushed after. allocate_times left pushed after) result

-- The constant `SIZE` is the capacity of the vector.
unfoldable pub bulk_allocate : ℕ → Bitmap → ℕ → Outcome (Bitmap × List ℕ)
bulk_allocate capacity self count = do
  assert (leb count capacity)
  allocate_times (min count self.free) [] self

pub validate : Bitmap → Outcome (Unit {0})
validate self = do
  counted ← count_free self.bitmap self.len
  if self.free == counted then ok tt else err invalid_argument
