-- ===== src/Memory/Addr/Arith.antt =====
-- Address arithmetic never leaves the half of its address.
use nikka.Common.{
  ℕ, ◌+◌, ◌-◌, ◌^◌, ◌≡◌, ◌↔◌, not, ◌&&◌, arith, ltb, leb, if◌then◌else◌, Outcome, ok, err,
  invalid_argument, overflow,
}
use nikka.Memory.Addr.{Tag, phys, virt, is_same_half, add, sub, distance, half_size}
use nikka.Memory.Addr.Ranges.{is_addr, IsAddr, new_lem, is_same_half_lem}

-- The half of an address: the range of addresses of its kind that it can be moved in.
abbrev pub half_start : Tag → ℕ → ℕ
half_start phys a = 0
half_start virt a = if ltb a half_size then 0 else 2 ^ 64 - half_size

abbrev pub half_end : Tag → ℕ → ℕ
half_end phys a = 2 ^ 52
half_end virt a = if ltb a half_size then half_size else 2 ^ 64

-- How a move to the number `target` fails.
abbrev pub move_error : Tag → ℕ → Outcome ℕ
move_error tag target =
    if ltb target (2 ^ 64) && not (is_addr tag target) then err invalid_argument else err overflow

-- `Addr + n` is the sum if that stays in the half of the address. If it does not, the call fails:
-- with `InvalidArgument` if the sum is a `usize` that is no address, and else with `Overflow`.
pub add_lem :
    (tag : Tag) (a n : ℕ)
    → IsAddr tag a
    → add tag a n ≡ (if ltb (a + n) (half_end tag a) then ok (a + n) else move_error tag (a + n))
unfolding add is_same_half
add_lem phys a n v = ground (arith, new_lem phys (a + n))
add_lem virt a n v = ground (arith, new_lem virt (a + n), is_same_half_lem virt a (a + n))

-- `Addr - n` is the difference if that stays in the half of the address. If it does not, the call
-- fails: with `InvalidArgument` if the difference is no address, and else with `Overflow`.
pub sub_lem :
    (tag : Tag) (a n : ℕ)
    → IsAddr tag a
    → sub tag a n ≡ (
        if leb (half_start tag a + n) a
        then ok (a - n)
        else if leb n a
        then move_error tag (a - n)
        else err overflow)
unfolding sub is_same_half
sub_lem phys a n v = ground (arith, new_lem phys (a - n))
sub_lem virt a n v = ground (arith, new_lem virt (a - n), is_same_half_lem virt a (a - n))

-- For addresses `a` and `b`, `b - a` is `n` exactly if `a + n` is `b`: the distance of two
-- addresses is defined in one half only, upwards only, and undoes the sum.
pub distance-add :
    (tag : Tag) (a b n : ℕ)
    → IsAddr tag a
    → IsAddr tag b
    → (distance tag b a ≡ ok n) ↔ (add tag a n ≡ ok b)
unfolding distance is_same_half
distance-add phys a b n va vb =
    (λ e. ground (arith, add_lem phys a n va), λ e. ground (arith, add_lem phys a n va))
distance-add virt a b n va vb = (
  λ e. ground (arith, add_lem virt a n va, is_same_half_lem virt b a),
  λ e. ground (arith, add_lem virt a n va, is_same_half_lem virt b a),
)

-- For addresses `a` and `b`, `b - n` is `a` exactly if `a + n` is `b`.
pub sub-add :
    (tag : Tag) (a b n : ℕ)
    → IsAddr tag a
    → IsAddr tag b
    → (sub tag b n ≡ ok a) ↔ (add tag a n ≡ ok b)
sub-add phys a b n va vb = (
  λ e. ground (arith, add_lem phys a n va, sub_lem phys b n vb),
  λ e. ground (arith, add_lem phys a n va, sub_lem phys b n vb),
)
sub-add virt a b n va vb = (
  λ e. ground (arith, add_lem virt a n va, sub_lem virt b n vb),
  λ e. ground (arith, add_lem virt a n va, sub_lem virt b n vb),
)
