-- ===== src/Kernel/AddressSpace/Permission.antt =====
-- A block that has passed the check is the user's, page by page.
use Prim.Native.Nat.{bit_and, bit_or}
use nikka.Common.Words.{contains-bit_or, bit_and-one, bit_and-four}
use nikka.Common.{
  ==_iff, ◌%◌, ℕ, zero, suc, ◌+◌, ◌*◌, ◌/◌, ◌^◌, ◌≤◌, ◌<◌, ◌≡◌, refl, sym, ap, subst, ◌∙◌, Bool,
  true, false, arith, Outcome, ok, some, Option, ok_of_bind, ok-injective, Bool-cases, inl, inr,
  ◌==◌,
}
use nikka.Memory.Addr.{virt, half_size}
use nikka.Memory.Frage.{l0}
use nikka.Memory.Frage.Index.{from_index_lem}
use nikka.Memory.Block.{Block, addr, enclosing, count}
use nikka.Memory.Block.Valid.{IsValid}
use nikka.Memory.Block.Pages.{covering, enclosing-covering}
use nikka.Memory.Mmu.{flags, contains}
use nikka.Kernel.Range.{is_user_block}
use nikka.Kernel.Mapping.{Tables, Node, entry_at, translate}
use nikka.Kernel.AddressSpace.{
  check_page, check_pages, check_permission_common, required_flags, page_at, with_page, permitted,
}

-- The page with this number has a leaf entry that is present, for the user (bit 0 and bit 2 of the
-- entry's flags), and has all the flags that are asked for.
pub record IsOpen (tables : Tables) (root asked index : ℕ) : Type 0 where
  pub leaf : Node
  pub bits : ℕ
  pub mapped : translate tables root (index * 2 ^ 12) ≡ ok leaf
  pub read : flags (entry_at tables leaf) ≡ ok bits
  pub is_present : bits % 2 ≡ 1
  pub for_user : bits / 4 % 2 ≡ 1
  pub allowed : bit_and bits asked ≡ asked

-- The page with this number has a leaf entry with all the flags.
record Permits (tables : Tables) (root required index : ℕ) : Type 0 where
  page : ℕ
  leaf : Node
  bits : ℕ
  is_page : page ≡ index * 2 ^ 12
  mapped : translate tables root page ≡ ok leaf
  read : flags (entry_at tables leaf) ≡ ok bits
  allowed : contains bits required ≡ true

low :
    (pages block : Block)
    → pages ≡ covering block
    → IsValid (addr virt) block
    → block.end < half_size
    → (pages.start + count pages) * 2 ^ 12 ≤ half_size
low pages block e v h = rw e (ground arith)

permitted_ok :
    (b : Bool) (rest : Outcome (Unit {0})) → permitted b rest ≡ ok tt → (b ≡ true) × (rest ≡ ok tt)
permitted_ok true rest e = (refl, e)
permitted_ok false rest e = ground arith

starts :
    (pages block : Block) (a : ℕ)
    → pages ≡ covering block
    → block.start ≤ a
    → pages.start ≤ a / 2 ^ 12
starts pages block a e h = rw e (omega arith)

ends :
    (pages block : Block) (a : ℕ)
    → pages ≡ covering block
    → block.start ≤ a
    → a < block.end
    → a / 2 ^ 12 < pages.start + count pages
ends pages block a e h k = rw e (ground arith)

next_page : (k : ℕ) → k * 2 ^ 12 < half_size → page_at k ≡ ok (some (k * 2 ^ 12))
next_page k h = ground (arith, from_index_lem virt l0 k)

check_pages_lem :
    (tables : Tables) (root required index n : ℕ)
    → (index + n) * 2 ^ 12 ≤ half_size
    → check_pages tables root required index n ≡ ok tt
    → (k : ℕ) → index ≤ k
    → k < index + n
    → Permits tables root required k
unfolding check_pages check_page
check_pages_lem tables root required index zero b e k p q = absurd (omega arith)
check_pages_lem tables root required index (suc n) b e k p q =
    let page = index * 2 ^ 12 in
    let rest_of : Option ℕ → Type 0 = λ o.
      with_page o
        (λ x. check_page tables root required x (check_pages tables root required (index + 1) n))
      ≡ ok tt in
    let (next, e1, f0) = ok_of_bind (page_at index) _ tt e in
    let f1 : check_page tables root required page (check_pages tables root required (index + 1) n)
        ≡ ok tt =
      subst rest_of (ok-injective next (some page) (sym e1 ∙ next_page index (omega arith))) f0 in
    let (leaf, e2, f2) = ok_of_bind (translate tables root page) _ tt f1 in
    let (bits, e3, f3) = ok_of_bind (flags (entry_at tables leaf)) _ tt f2 in
    let (allowed, rest) = permitted_ok (contains bits required) _ f3 in
    elim (Bool-cases (index == k)) [
      | inl here ↦
          let same : index ≡ k = ground arith in
          subst (Permits tables root required) same (record {
            page = page;
            leaf = leaf;
            bits = bits;
            is_page = refl;
            mapped = e2;
            read = e3;
            allowed = allowed;
          })
      | inr there ↦
          check_pages_lem tables root required (index + 1) n (omega arith) rest k (ground arith)
            (omega arith)
    ]

opened :
    (tables : Tables) (root asked index : ℕ)
    → Permits tables root (required_flags asked) index
    → IsOpen tables root asked index
opened tables root asked index p =
    let all : bit_and p.bits (required_flags asked) ≡ required_flags asked =
      (==_iff _ _).0 p.allowed in
    let (both, own) = contains-bit_or p.bits (bit_or 1 4) asked all in
    let (one, four) = contains-bit_or p.bits 1 4 both in
    record {
      leaf = p.leaf;
      bits = p.bits;
      mapped = subst (λ x. translate tables root x ≡ ok p.leaf) p.is_page p.mapped;
      read = p.read;
      is_present = omega (arith, bit_and-one p.bits);
      for_user = omega (arith, bit_and-four p.bits);
      allowed = own;
    }

-- If the check of a valid block of addresses that ends within the lower half passes, then its pages lie among those of the user, and
-- the page of each of its addresses is mapped by an entry that is present, for the user, and has all the flags that were asked for.
pub check_permission_lem :
    (tables : Tables) (root bits : ℕ) (block : Block)
    → IsValid (addr virt) block
    → block.end < half_size
    → check_permission_common tables root block bits ≡ ok tt
    → (is_user_block (covering block) ≡ ok true)
      × ((a : ℕ) → block.start ≤ a → a < block.end → IsOpen tables root bits (a / 2 ^ 12))
unfolding check_permission_common
check_permission_lem tables root bits block v w e =
    let (enclosed, _) = enclosing-covering virt block v (ground arith) in
    let (pages, e1, f1) = ok_of_bind (enclosing virt block) _ tt e in
    let same : pages ≡ covering block = ok-injective pages (covering block) (sym e1 ∙ enclosed) in
    let (in_user, e2, f2) = ok_of_bind (is_user_block pages) _ tt f1 in
    let (yes_user, rest) = permitted_ok in_user _ f2 in
    (
      subst (λ p. is_user_block p ≡ ok true) same (e2 ∙ ap ok yes_user),
      λ a p q. opened tables root bits (a / 2 ^ 12) (
          check_pages_lem tables root (required_flags bits) pages.start (count pages)
            (low pages block same v w) rest (a / 2 ^ 12) (starts pages block a same p)
            (ends pages block a same p q)),
    )
