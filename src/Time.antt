-- ===== src/Time.antt =====
-- ku/src/time/correlation_point.rs: a reading of a clock, which an interrupt handler writes while others
-- read it. The loads and the stores take effect in the order of the source, one at a time; an i64 is
-- its word of 64 bits.
pub mod Snapshot
pub mod Tests
use nikka.Common.{
  ℕ, zero, suc, ◌+◌, ◌%◌, ◌^◌, Bool, true, false, not, Option, some, none, List, [], ◌∷◌, ◌==◌,
  if◌then◌else◌,
}

pub record CorrelationPoint : Type 0 where
  pub count : ℕ
  pub tsc : ℕ

pub record AtomicCorrelationPoint : Type 0 where
  pub count : ℕ
  pub sequence : ℕ
  pub tsc : ℕ

-- `AtomicCorrelationPoint::new`
abbrev pub new : AtomicCorrelationPoint
new = record { count = 0; sequence = 0; tsc = 0 }

abbrev pub is_locked : ℕ → Bool
is_locked sequence = not (sequence % 2 == 0)

-- The atomic accesses that change the structure.
pub data Write : Type 0 where
  add_sequence : Write
  add_count : Write
  store_count : ℕ → Write
  store_tsc : ℕ → Write

abbrev pub perform : Write → AtomicCorrelationPoint → AtomicCorrelationPoint
perform add_sequence self = record self { sequence = (self.sequence + 1) % 2 ^ 64 }
perform add_count self = record self { count = (self.count + 1) % 2 ^ 64 }
perform (store_count count) self = record self { count = count }
perform (store_tsc tsc) self = record self { tsc = tsc }

-- The calls of a writer, each with what follows it.
abbrev pub inc : ℕ → List Write → List Write
inc tsc rest = add_sequence ∷ add_count ∷ store_tsc tsc ∷ add_sequence ∷ rest

abbrev pub store : CorrelationPoint → List Write → List Write
store point rest =
    add_sequence ∷ store_count point.count ∷ store_tsc point.tsc ∷ add_sequence ∷ rest

-- What a writer calls.
pub data Update : Type 0 where
  increment : ℕ → Update
  replace : CorrelationPoint → Update

-- The accesses of a writer that makes the calls one after another.
abbrev pub writes : List Update → List Write
writes [] = []
writes (increment tsc ∷ updates) = inc tsc (writes updates)
writes (replace point ∷ updates) = store point (writes updates)

-- The structure after the first `time` accesses of the writer.
abbrev pub state_at : ℕ → List Write → AtomicCorrelationPoint → AtomicCorrelationPoint
state_at zero ws self = self
state_at (suc time) [] self = self
state_at (suc time) (w ∷ ws) self = state_at time ws (perform w self)

-- `try_load`, whose four loads happen at the times `t1` to `t4` of the writer.
abbrev pub try_load : (ℕ → AtomicCorrelationPoint) → ℕ → ℕ → ℕ → ℕ → Option CorrelationPoint
try_load self t1 t2 t3 t4 =
    let seq1 = (self t1).sequence in
    if is_locked seq1
    then none
    else let count = (self t2).count in
      let tsc = (self t3).tsc in
      let seq2 = (self t4).sequence in
      if seq1 == seq2 then some (record { count = count; tsc = tsc }) else none
