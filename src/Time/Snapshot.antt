-- ===== src/Time/Snapshot.antt =====
-- A reader beside a writer sees a reading that the writer has left whole.
use nikka.Common.{
  ℕ, zero, suc, ◌+◌, ◌-◌, ◌/◌, ◌%◌, ◌^◌, ◌≤◌, ◌<◌, ◌≡◌, ◌≢◌, refl, sym, ◌∙◌, ap, arith, Option,
  some, none, List, [], ◌∷◌, ◌⊎◌, inl, inr, ◌==◌, not, if◌then◌else◌,
}
use nikka.Time.{
  CorrelationPoint, AtomicCorrelationPoint, new, Write, add_sequence, add_count, store_count,
  store_tsc, perform, Update, increment, replace, writes, state_at, try_load,
}

abbrev pub view : AtomicCorrelationPoint → CorrelationPoint
view self = record { count = self.count; tsc = self.tsc }

-- What one call of the writer makes of a reading, all at once.
abbrev pub update : Update → CorrelationPoint → CorrelationPoint
update (increment tsc) point = record { count = (point.count + 1) % 2 ^ 64; tsc = tsc }
update (replace new_point) point = new_point

-- The reading after the first `calls` calls.
abbrev pub updated : ℕ → List Update → CorrelationPoint → CorrelationPoint
updated zero updates point = point
updated (suc calls) [] point = point
updated (suc calls) (u ∷ updates) point = updated calls updates (update u point)

abbrev later : ℕ → ℕ → ℕ
later zero m = m
later (suc n) m = suc (later n m)

later_lem : (n m : ℕ) → later n m ≡ n + m
later_lem zero m = omega arith
later_lem (suc n) m = let h = later_lem n m in omega arith

-- At the time `n` the writer is between two calls.
record Between (us : List Update) (s : AtomicCorrelationPoint) (n : ℕ) : Type 0 where
  rest : List Update
  here : AtomicCorrelationPoint
  bound : here.sequence < 2 ^ 64
  even : here.sequence % 2 ≡ 0
  seen : view here ≡ updated (n / 4) us (view s)
  after : (m : ℕ) → state_at (later n m) (writes us) s ≡ state_at m (writes rest) here

state_at-nil : (m : ℕ) (s : AtomicCorrelationPoint) → state_at m [] s ≡ s
state_at-nil zero s = refl
state_at-nil (suc m) s = refl

quarter : (n : ℕ) → suc (n / 4) ≡ suc (suc (suc (suc n))) / 4
quarter n = omega arith

updated-nil : (calls : ℕ) (point : CorrelationPoint) → point ≡ updated calls [] point
updated-nil zero point = refl
updated-nil (suc calls) point = refl

-- After a whole call, the other calls go on from the reading that it has left.
next :
    (u : Update) (us : List Update) (s : AtomicCorrelationPoint) (n : ℕ)
    (t : AtomicCorrelationPoint)
    → view t ≡ update u (view s)
    → ((m : ℕ)
        → state_at (later (suc (suc (suc (suc n)))) m) (writes (u ∷ us)) s
          ≡ state_at (later n m) (writes us) t)
    → Between us t n
    → Between (u ∷ us) s (suc (suc (suc (suc n))))
next u us s n t v go b = record {
  rest = b.rest;
  here = b.here;
  bound = b.bound;
  even = b.even;
  seen =
      b.seen
      ∙ ap (updated (n / 4) us) v
      ∙ ap (λ calls. updated calls (u ∷ us) (view s)) (quarter n);
  after = λ m. go m ∙ b.after m;
}

Locked : List Update → AtomicCorrelationPoint → ℕ → Type 0
Locked us s n = ((state_at n (writes us) s).sequence % 2 ≡ 1) × (n % 4 ≢ 0)

between :
    (us : List Update) (s : AtomicCorrelationPoint) (n : ℕ)
    → s.sequence % 2 ≡ 0
    → s.sequence < 2 ^ 64
    → Between us s n ⊎ Locked us s n
unfolding Locked
between us s zero e b =
    inl (record { rest = us; here = s; bound = b; even = e; seen = refl; after = λ m. refl })
between [] s (suc n) e b = inl (record {
  rest = [];
  here = s;
  bound = b;
  even = e;
  seen = updated-nil (suc n / 4) (view s);
  after = λ m. sym (state_at-nil m s);
})
between (increment tsc ∷ us) s (suc zero) e b = inr (omega arith, omega arith)
between (increment tsc ∷ us) s (suc (suc zero)) e b = inr (omega arith, omega arith)
between (increment tsc ∷ us) s (suc (suc (suc zero))) e b = inr (omega arith, omega arith)
between (increment tsc ∷ us) s (suc (suc (suc (suc n)))) e b =
    let t : AtomicCorrelationPoint = record {
      count = (s.count + 1) % 2 ^ 64;
      sequence = ((s.sequence + 1) % 2 ^ 64 + 1) % 2 ^ 64;
      tsc = tsc;
    } in
    elim (between us t n (omega arith) (omega arith)) [
      | inl h ↦ inl (next (increment tsc) us s n t refl (λ m. refl) h)
      | inr h ↦ inr (h.0, (let k = h.1 in omega arith))
    ]
between (replace p ∷ us) s (suc zero) e b = inr (omega arith, omega arith)
between (replace p ∷ us) s (suc (suc zero)) e b = inr (omega arith, omega arith)
between (replace p ∷ us) s (suc (suc (suc zero))) e b = inr (omega arith, omega arith)
between (replace p ∷ us) s (suc (suc (suc (suc n)))) e b =
    let t : AtomicCorrelationPoint = record {
      count = p.count;
      sequence = ((s.sequence + 1) % 2 ^ 64 + 1) % 2 ^ 64;
      tsc = p.tsc;
    } in
    elim (between us t n (omega arith) (omega arith)) [
      | inl h ↦ inl (next (replace p) us s n t refl (λ m. refl) h)
      | inr h ↦ inr (h.0, (let k = h.1 in omega arith))
    ]

-- How often the sequence is increased in the first `n` accesses.
adds : ℕ → List Write → ℕ
adds zero ws = 0
adds (suc n) [] = 0
adds (suc n) (add_sequence ∷ ws) = suc (adds n ws)
adds (suc n) (add_count ∷ ws) = adds n ws
adds (suc n) (store_count _ ∷ ws) = adds n ws
adds (suc n) (store_tsc _ ∷ ws) = adds n ws

adds-bound : (n : ℕ) (ws : List Write) → adds n ws ≤ n
unfolding adds
adds-bound zero ws = omega arith
adds-bound (suc n) [] = omega arith
adds-bound (suc n) (add_sequence ∷ ws) = let h = adds-bound n ws in omega arith
adds-bound (suc n) (add_count ∷ ws) = let h = adds-bound n ws in omega arith
adds-bound (suc n) (store_count _ ∷ ws) = let h = adds-bound n ws in omega arith
adds-bound (suc n) (store_tsc _ ∷ ws) = let h = adds-bound n ws in omega arith

state_at-sequence :
    (n : ℕ) (ws : List Write) (s : AtomicCorrelationPoint)
    → s.sequence < 2 ^ 64
    → (state_at n ws s).sequence ≡ (s.sequence + adds n ws) % 2 ^ 64
unfolding adds
state_at-sequence zero ws s b = omega arith
state_at-sequence (suc n) [] s b = omega arith
state_at-sequence (suc n) (add_sequence ∷ ws) s b =
    let h = state_at-sequence n ws (perform add_sequence s) (omega arith) in omega arith
state_at-sequence (suc n) (add_count ∷ ws) s b = state_at-sequence n ws (perform add_count s) b
state_at-sequence (suc n) (store_count c ∷ ws) s b =
    state_at-sequence n ws (perform (store_count c) s) b
state_at-sequence (suc n) (store_tsc c ∷ ws) s b =
    state_at-sequence n ws (perform (store_tsc c) s) b

-- From between two calls on, the sequence is the same only if nothing has been written.
moved :
    (us : List Update) (s : AtomicCorrelationPoint) (m : ℕ)
    → s.sequence < 2 ^ 64
    → m < 2 ^ 64
    → (state_at m (writes us) s).sequence ≡ s.sequence
    → m ≡ 0 ⊎ us ≡ []
unfolding adds
moved us s zero b r h = inl refl
moved [] s (suc m) b r h = inr refl
moved (increment tsc ∷ us) s (suc m) b r h =
    let g = state_at-sequence (suc m) (writes (increment tsc ∷ us)) s b in
    let k = adds-bound m (add_count ∷ store_tsc tsc ∷ add_sequence ∷ writes us) in omega arith
moved (replace p ∷ us) s (suc m) b r h =
    let g = state_at-sequence (suc m) (writes (replace p ∷ us)) s b in
    let k = adds-bound m (store_count p.count ∷ store_tsc p.tsc ∷ add_sequence ∷ writes us) in
    omega arith

-- What the four loads come to.
abbrev pick : (q1 q2 : ℕ) → CorrelationPoint → Option CorrelationPoint
pick q1 q2 p = if not (q1 % 2 == 0) then none else if q1 == q2 then some p else none

pick-odd : (q1 q2 : ℕ) (p : CorrelationPoint) → q1 % 2 ≡ 1 → pick q1 q2 p ≡ none
pick-odd q1 q2 p h = ground arith

pick-same : (q1 q2 : ℕ) (p : CorrelationPoint) → q1 % 2 ≡ 0 → q2 ≡ q1 → pick q1 q2 p ≡ some p
pick-same q1 q2 p h k = ground arith

pick-differ : (q1 q2 : ℕ) (p : CorrelationPoint) → q2 ≢ q1 → pick q1 q2 p ≡ none
pick-differ q1 q2 p k = ground arith

-- While the sequence stays the same, so does all else.
still :
    (rest : List Update) (here : AtomicCorrelationPoint) (m : ℕ)
    → m ≡ 0 ⊎ rest ≡ []
    → state_at m (writes rest) here ≡ here
still rest here m (inl h) = rw h refl
still rest here m (inr h) = rw h (state_at-nil m here)

-- The read fails only when the first load meets an update halfway, or an access of the writer falls
-- between the first load and the last.
pub Result : (us : List Update) (t1 t2 t3 t4 : ℕ) → Type 0
Result us t1 t2 t3 t4 =
    let read = try_load (λ t. state_at t (writes us) new) t1 t2 t3 t4 in
    (read ≡ none × (t1 % 4 ≢ 0 ⊎ t1 < t4)) ⊎ (read ≡ some (updated (t1 / 4) us (view new)))

same_or_not : (a b : ℕ) → a ≡ b ⊎ a ≢ b
same_or_not a b = ground arith

pick-still :
    (here s1 s2 s3 s4 : AtomicCorrelationPoint)
    → here.sequence % 2 ≡ 0
    → s1 ≡ here
    → s2 ≡ here
    → s3 ≡ here
    → s4 ≡ here
    → pick s1.sequence s4.sequence (record { count = s2.count; tsc = s3.tsc }) ≡ some (view here)
pick-still here s1 s2 s3 s4 even h1 h2 h3 h4 =
    rw (h1, h2, h3, h4) (pick-same here.sequence here.sequence (view here) even refl)

-- From a quiet time on no earlier access has written either.
quiet_before : (rest : List Update) (m n : ℕ) → m ≤ n → n ≡ 0 ⊎ rest ≡ [] → m ≡ 0 ⊎ rest ≡ []
quiet_before rest m n le (inl h) = inl (omega arith)
quiet_before rest m n le (inr h) = inr h

-- The result from a time between two calls on, by what the states are.
from_between :
    (us : List Update) (t1 m2 m3 m4 : ℕ)
    → m2 ≤ m3
    → m3 ≤ m4
    → m4 < 2 ^ 64
    → Between us new t1
    → Result us t1 (later t1 m2) (later t1 m3) (later t1 m4)
unfolding Result
from_between us t1 m2 m3 m4 le2 le3 le4 b =
    let start : state_at t1 (writes us) new ≡ b.here =
      ap (λ t. state_at t (writes us) new) (omega (arith, later_lem t1 0)) ∙ b.after 0 in
    let first = ap (AtomicCorrelationPoint.sequence) start in
    let last = ap (AtomicCorrelationPoint.sequence) (b.after m4) in
    elim (same_or_not (state_at m4 (writes b.rest) b.here).sequence b.here.sequence) [
      | inl same ↦
          let quiet = moved b.rest b.here m4 b.bound le4 same in
          let held : (m : ℕ) → m ≤ m4 → state_at (later t1 m) (writes us) new ≡ b.here =
            λ m le. b.after m ∙ still b.rest b.here m (quiet_before b.rest m m4 le quiet) in
          inr (
            pick-still b.here (state_at t1 (writes us) new) (state_at (later t1 m2) (writes us) new)
              (state_at (later t1 m3) (writes us) new) (state_at (later t1 m4) (writes us) new)
              b.even start (held m2 (omega arith)) (held m3 le3) (held m4 (omega arith))
            ∙ ap (λ p. some p) b.seen)
      | inr other ↦
          let written : m4 ≢ 0 = λ z. other (rw z refl) in
          inl (
            pick-differ _ _ _ (λ e. other (sym last ∙ e ∙ first)),
            inr (let h = later_lem t1 m4 in omega arith),
          )
    ]

-- While one writer makes any calls of `inc` and `store`, beginning from `new`, and makes fewer than
-- 2 ^ 64 accesses from the first load of `try_load` to the last, whatever accesses fall between the
-- loads: either `try_load` returns the reading that the first `t1 / 4` calls leave, where `t1` is
-- the number of accesses before the first load, as if each call had been done at once; or it returns
-- `None`, and then a call is halfway at the first load or an access falls between the loads.
pub try_load_lem :
    (us : List Update) (t1 t2 t3 t4 : ℕ)
    → t1 ≤ t2
    → t2 ≤ t3
    → t3 ≤ t4
    → t4 < t1 + 2 ^ 64
    → Result us t1 t2 t3 t4
unfolding Result Locked
try_load_lem us t1 t2 t3 t4 le2 le3 le4 fits =
    let e2 : later t1 (t2 - t1) ≡ t2 = omega (arith, later_lem t1 (t2 - t1)) in
    let e3 : later t1 (t3 - t1) ≡ t3 = omega (arith, later_lem t1 (t3 - t1)) in
    let e4 : later t1 (t4 - t1) ≡ t4 = omega (arith, later_lem t1 (t4 - t1)) in
    elim (between us new t1 refl (omega arith)) [
      | inl b ↦
          rw (e2, e3, e4) at
            (from_between us t1 (t2 - t1) (t3 - t1) (t4 - t1) (omega arith) (omega arith)
              (omega arith) b)
      | inr h ↦ inl (pick-odd _ _ _ h.0, inl h.1)
    ]
