-- ===== src/Time/Tests.antt =====
-- Runs of a reader beside a writer.
use nikka.Common.{◌≡◌, refl, arith, none, some, List, [], ◌∷◌}
use nikka.Time.{new, Update, increment, replace, writes, state_at, try_load}
use nikka.Time.Snapshot.{Result, try_load_lem}

abbrev calls : List Update
calls = replace (record { count = 5; tsc = 70 }) ∷ increment 90 ∷ []

read_before :
    try_load (λ t. state_at t (writes calls) new) 4 4 4 4 ≡ some (record { count = 5; tsc = 70 })
read_before = refl

read_after :
    try_load (λ t. state_at t (writes calls) new) 8 9 9 12 ≡ some (record { count = 6; tsc = 90 })
read_after = refl

-- The update happens between the loads of the two fields.
read_torn : try_load (λ t. state_at t (writes calls) new) 4 5 7 8 ≡ none
read_torn = refl

try_load_lem_example : Result calls 4 5 7 8
try_load_lem_example =
    try_load_lem calls 4 5 7 8 (omega arith) (omega arith) (omega arith) (omega arith)
