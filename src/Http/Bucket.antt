-- ===== src/Http/Bucket.antt =====
-- A limiter of one bucket of src/common/throttle.middleware.ts: its counter and window, and nothing else.
use avasettile.Common.{
  ℕ, zero, suc, ◌+◌, ◌-◌, Option, none, some, List, [], ◌∷◌, leb, if◌then◌else◌,
}
use avasettile.Http.Throttle.{WindowEntry, Verdict, admitted, too_many, new_window}

abbrev pub count_in : ℕ → ℕ → Option WindowEntry → Verdict × Option WindowEntry
count_in limit now none = (admitted, some (new_window now))
count_in limit now (some entry) =
    if leb entry.reset_at now
    then (admitted, some (new_window now))
    else if leb limit entry.count
    then (too_many (entry.reset_at - now), some entry)
    else (admitted, some (record entry { count = entry.count + 1 }))

abbrev pub answer : ℕ → ℕ → Option WindowEntry → Verdict × Option WindowEntry
answer zero now o = (admitted, o)
answer (suc limit) now o = count_in (suc limit) now o

abbrev pub run : ℕ → List ℕ → Option WindowEntry → List Verdict
run limit [] o = []
run limit (now ∷ times) o = let (v, o') = answer limit now o in v ∷ run limit times o'
