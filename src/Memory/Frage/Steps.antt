-- ===== src/Memory/Frage/Steps.antt =====
-- The laws of `Step` for pages: counting goes over the gap between the halves.
use nikka.Common.{
  ℕ, ◌+◌, ◌-◌, ◌/◌, ◌≡◌, ◌↔◌, arith, some, none, ok, panic, ◌≢◌, if◌then◌else◌, ltb, leb,
}
use nikka.Memory.Addr.{virt}
use nikka.Memory.Frage.{
  PageSize, l0, bytes, steps_between, forward_checked, backward_checked, lower_half_end_index,
  non_canonical_count,
}
use nikka.Memory.Frage.Index.{IsFrage, from_index_lem}

abbrev pub IsPage : PageSize → ℕ → Type 0
IsPage = IsFrage virt

-- The place of a page among all pages of its size, the gap left out.
abbrev pub rank : PageSize → ℕ → ℕ
rank size page =
    if ltb (page / bytes size) (lower_half_end_index size)
    then page / bytes size
    else page / bytes size - non_canonical_count size

-- For pages, `steps_between` is the difference of their places, or 0 with no upper bound.
pub steps_between-rank :
    (size : PageSize) (a b : ℕ)
    → IsPage size a
    → IsPage size b
    → steps_between size a b ≡ (
        if leb a b
        then ok (rank size b - rank size a, some (rank size b - rank size a))
        else ok (0, none))
unfolding steps_between
steps_between-rank l0 a b va vb = ground arith
steps_between-rank size a b va vb = ground arith

forward_checked→rank :
    (size : PageSize) (a b n : ℕ)
    → IsPage size a
    → IsPage size b
    → forward_checked size a n ≡ ok (some b)
    → rank size a + n ≡ rank size b
unfolding forward_checked
forward_checked→rank l0 a b n va vb e = ground (
  arith,
  from_index_lem virt l0 (a / bytes l0 + n),
  from_index_lem virt l0 (a / bytes l0 + n + non_canonical_count l0),
)
forward_checked→rank size a b n va vb e = ground (
  arith,
  from_index_lem virt size (a / bytes size + n),
  from_index_lem virt size (a / bytes size + n + non_canonical_count size),
)

rank→forward_checked :
    (size : PageSize) (a b n : ℕ)
    → IsPage size a
    → IsPage size b
    → rank size a + n ≡ rank size b
    → forward_checked size a n ≡ ok (some b)
unfolding forward_checked
rank→forward_checked l0 a b n va vb e = ground (
  arith,
  from_index_lem virt l0 (a / bytes l0 + n),
  from_index_lem virt l0 (a / bytes l0 + n + non_canonical_count l0),
)
rank→forward_checked size a b n va vb e = ground (
  arith,
  from_index_lem virt size (a / bytes size + n),
  from_index_lem virt size (a / bytes size + n + non_canonical_count size),
)

-- `backward_checked` gives a result for every page and every count: its `expect` never panics.
pub backward_checked-ne-panic :
    (size : PageSize) (b n : ℕ) → IsPage size b → backward_checked size b n ≢ panic
unfolding backward_checked
backward_checked-ne-panic l0 b n v = ground (
  arith,
  from_index_lem virt l0 (b / bytes l0 - n),
  from_index_lem virt l0 (b / bytes l0 - n - non_canonical_count l0),
)
backward_checked-ne-panic size b n v = ground (
  arith,
  from_index_lem virt size (b / bytes size - n),
  from_index_lem virt size (b / bytes size - n - non_canonical_count size),
)

backward_checked→rank :
    (size : PageSize) (a b n : ℕ)
    → IsPage size a
    → IsPage size b
    → backward_checked size b n ≡ ok (some a)
    → rank size a + n ≡ rank size b
unfolding backward_checked
backward_checked→rank l0 a b n va vb e = ground (
  arith,
  from_index_lem virt l0 (b / bytes l0 - n),
  from_index_lem virt l0 (b / bytes l0 - n - non_canonical_count l0),
)
backward_checked→rank size a b n va vb e = ground (
  arith,
  from_index_lem virt size (b / bytes size - n),
  from_index_lem virt size (b / bytes size - n - non_canonical_count size),
)

rank→backward_checked :
    (size : PageSize) (a b n : ℕ)
    → IsPage size a
    → IsPage size b
    → rank size a + n ≡ rank size b
    → backward_checked size b n ≡ ok (some a)
unfolding backward_checked
rank→backward_checked l0 a b n va vb e = ground (
  arith,
  from_index_lem virt l0 (b / bytes l0 - n),
  from_index_lem virt l0 (b / bytes l0 - n - non_canonical_count l0),
)
rank→backward_checked size a b n va vb e = ground (
  arith,
  from_index_lem virt size (b / bytes size - n),
  from_index_lem virt size (b / bytes size - n - non_canonical_count size),
)

steps→rank :
    (size : PageSize) (a b n : ℕ)
    → IsPage size a
    → IsPage size b
    → steps_between size a b ≡ ok (n, some n)
    → rank size a + n ≡ rank size b
steps→rank l0 a b n va vb e = ground (arith, steps_between-rank l0 a b va vb)
steps→rank size a b n va vb e = ground (arith, steps_between-rank size a b va vb)

rank→steps :
    (size : PageSize) (a b n : ℕ)
    → IsPage size a
    → IsPage size b
    → rank size a + n ≡ rank size b
    → steps_between size a b ≡ ok (n, some n)
rank→steps l0 a b n va vb e = ground (arith, steps_between-rank l0 a b va vb)
rank→steps size a b n va vb e = ground (arith, steps_between-rank size a b va vb)

-- The law of `Step::steps_between`: there are exactly `n` steps from the page `a` to the page `b` if
-- and only if `n` steps forward from `a` lead to `b`.
pub steps_between-forward_checked :
    (size : PageSize) (a b n : ℕ)
    → IsPage size a
    → IsPage size b
    → (steps_between size a b ≡ ok (n, some n)) ↔ (forward_checked size a n ≡ ok (some b))
steps_between-forward_checked size a b n va vb = (
  λ e. rank→forward_checked size a b n va vb (steps→rank size a b n va vb e),
  λ e. rank→steps size a b n va vb (forward_checked→rank size a b n va vb e),
)

-- `n` steps back from the page `b` lead to the page `a` if and only if `n` steps forward from `a`
-- lead to `b`.
pub backward_checked-forward_checked :
    (size : PageSize) (a b n : ℕ)
    → IsPage size a
    → IsPage size b
    → (backward_checked size b n ≡ ok (some a)) ↔ (forward_checked size a n ≡ ok (some b))
backward_checked-forward_checked size a b n va vb = (
  λ e. rank→forward_checked size a b n va vb (backward_checked→rank size a b n va vb e),
  λ e. rank→backward_checked size a b n va vb (forward_checked→rank size a b n va vb e),
)
