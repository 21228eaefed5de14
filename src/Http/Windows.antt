-- ===== src/Http/Windows.antt =====
-- The rate limit, bucket by bucket (src/common/throttle.middleware.ts).
use text.Mathlib.TextEquality.{eq_iff}
use avasettile.Common.{
  ℕ, zero, suc, ◌≤◌, ◌<◌, ◌≡◌, refl, ap, subst, ◌∙◌, ◌⊎◌, inl, inr, true, false, String, Option,
  none, some, List, [], ◌∷◌, leb, str_eq, if◌then◌else◌, arith, Bool-cases,
}
use avasettile.Http.Bucket
use avasettile.Http.Throttle.{
  WindowEntry, Windows, Verdict, admitted, new_window, bucket_key, with_entry, throttle, if_live,
  prune, Event, request, cleanup, run_throttle,
}

abbrev pub time_of : Event → ℕ
time_of (request now req) = now
time_of (cleanup now) = now

-- The clock's readings do not go back.
abbrev pub IsChronological : ℕ → List Event → Type 0
IsChronological t [] = Unit
IsChronological t (e ∷ es) = (t ≤ time_of e) × IsChronological (time_of e) es

-- All readings are before `u`.
abbrev pub Before : ℕ → List Event → Type 0
Before u [] = Unit
Before u (e ∷ es) = (time_of e < u) × Before u es

-- The answers to the requests of one bucket.
abbrev pub answers_of : String → List (String × Verdict) → List Verdict
answers_of key [] = []
answers_of key ((k, v) ∷ rest) =
    if str_eq k key then v ∷ answers_of key rest else answers_of key rest

module _ (sha256 : String → String) where
  -- When the bucket's requests come.
  abbrev pub times_of : String → List Event → List ℕ
  times_of key [] = []
  times_of key (request now req ∷ es) =
      if str_eq (bucket_key sha256 req) key then now ∷ times_of key es else times_of key es
  times_of key (cleanup now ∷ es) = times_of key es

-- A request leaves the other buckets alone, and answers as the bucket's own limiter.
with_entry-other :
    (limit now : ℕ) (k key : String) (m : Windows) (o : Option WindowEntry)
    → str_eq k key ≡ false
    → (with_entry limit now k m o).1 key ≡ m key
with_entry-other limit now k key m none other = rw other refl
with_entry-other limit now k key m (some e) other = ground (arith, other)

with_entry-own :
    (limit now : ℕ) (k key : String) (m : Windows) (o : Option WindowEntry)
    → str_eq k key ≡ true
    → m key ≡ o
    → ((with_entry limit now k m o).0 ≡ (Bucket.count_in limit now o).0)
      × ((with_entry limit now k m o).1 key ≡ (Bucket.count_in limit now o).1)
with_entry-own limit now k key m none same e = (refl, rw same refl)
with_entry-own limit now k key m (some q) same e = ground (arith, same, e)

pub throttle-other :
    (limit now : ℕ) (k key : String) (m : Windows)
    → str_eq k key ≡ false
    → (throttle limit now k m).1 key ≡ m key
unfolding throttle
throttle-other zero now k key m other = refl
throttle-other (suc limit) now k key m other = with_entry-other (suc limit) now k key m (m k) other

pub throttle-own :
    (limit now : ℕ) (k key : String) (m : Windows)
    → str_eq k key ≡ true
    → ((throttle limit now k m).0 ≡ (Bucket.answer limit now (m key)).0)
      × ((throttle limit now k m).1 key ≡ (Bucket.answer limit now (m key)).1)
unfolding throttle
throttle-own zero now k key m same = (refl, refl)
throttle-own (suc limit) now k key m same =
    let at_key : m k ≡ m key = ap m ((eq_iff k key).0 same) in
    rw at_key (with_entry-own (suc limit) now k key m (m key) same refl)

-- The map's entry is the limiter's, or it was pruned as one whose window is over.
abbrev Agree : ℕ → Option WindowEntry → Option WindowEntry → Type 0
Agree t a b = (a ≡ b) ⊎ ((a ≡ none) × (if_live t b ≡ none))

if_live-later : (t u : ℕ) (o : Option WindowEntry) → t ≤ u → if_live t o ≡ none → if_live u o ≡ none
if_live-later t u none le h = h
if_live-later t u (some e) le h = ground arith

Agree-later : (t u : ℕ) (a b : Option WindowEntry) → t ≤ u → Agree t a b → Agree u a b
Agree-later t u a b le (inl same) = inl same
Agree-later t u a b le (inr (gone, over)) = inr (gone, if_live-later t u b le over)

Agree-prune : (now : ℕ) (a b : Option WindowEntry) → Agree now a b → Agree now (if_live now a) b
Agree-prune now none b h = h
Agree-prune now (some e) b (inr (gone, over)) = cc
Agree-prune now (some e) b (inl same) = elim (Bool-cases (leb e.reset_at now)) [
  | inl over ↦ inr (
    rw over refl,
    subst (λ b. if_live now b ≡ none) same
        (let p : if_live now (some e) ≡ none = rw over refl in p),
  )
  | inr live ↦ inl (rw live same)
]

answer-over :
    (limit now : ℕ) (b : Option WindowEntry)
    → if_live now b ≡ none
    → Bucket.answer (suc limit) now b ≡ (admitted, some (new_window now))
answer-over limit now none h = refl
answer-over limit now (some e) h = ground arith

Agree-answer :
    (limit now : ℕ) (a b : Option WindowEntry)
    → Agree now a b
    → ((Bucket.answer limit now a).0 ≡ (Bucket.answer limit now b).0)
      × Agree now (Bucket.answer limit now a).1 (Bucket.answer limit now b).1
Agree-answer zero now a b h = (refl, h)
Agree-answer (suc limit) now a b (inl same) = (
  ap (λ o. (Bucket.answer (suc limit) now o).0) same,
  inl (ap (λ o. (Bucket.answer (suc limit) now o).1) same),
)
Agree-answer (suc limit) now a b (inr (gone, over)) =
    rw (gone, answer-over limit now b over) (refl, inl refl)

ap2_cons : {A : Type 0} {x y : A} {xs ys : List A} → x ≡ y → xs ≡ ys → x ∷ xs ≡ y ∷ ys
ap2_cons e es = cc

module _ (sha256 : String → String) (limit : ℕ) (key : String) where
  answers-refine :
      (es : List Event) (t : ℕ) (m : Windows) (o : Option WindowEntry)
      → IsChronological t es
      → Agree t (m key) o
      → answers_of key (run_throttle sha256 limit es m).0
        ≡ Bucket.run limit (times_of sha256 key es) o
  unfolding run_throttle prune
  answers-refine [] t m o chron agree = refl
  answers-refine (cleanup now ∷ es) t m o (le, chron) agree =
      answers-refine es now (prune now m) o chron
        (Agree-prune now (m key) o (Agree-later t now (m key) o le agree))
  answers-refine (request now req ∷ es) t m o (le, chron) agree =
      elim (Bool-cases (str_eq (bucket_key sha256 req) key)) [
        | inr other ↦
            let step = throttle-other limit now (bucket_key sha256 req) key m other in
            rw other
              (answers-refine es now _ o chron (rw step (Agree-later t now (m key) o le agree)))
        | inl same ↦
            let own = throttle-own limit now (bucket_key sha256 req) key m same in
            let agreed = Agree-answer limit now (m key) o (Agree-later t now (m key) o le agree) in
            rw same (
              ap2_cons (own.0 ∙ agreed.0)
                (answers-refine es now _ (Bucket.answer limit now o).1 chron (rw own.1 agreed.1)))
      ]

  -- Take any requests and clean-ups at readings of the clock that do not go back. The answers to the
  -- requests of one bucket are those of a limiter that starts with the bucket's entry, keeps nothing else and sees
  -- nothing but the bucket's requests: neither the requests of other buckets nor the clean-ups change an answer.
  pub run_throttle-refines :
      (es : List Event) (t : ℕ) (m : Windows)
      → IsChronological t es
      → answers_of key (run_throttle sha256 limit es m).0
        ≡ Bucket.run limit (times_of sha256 key es) (m key)
  run_throttle-refines es t m chron = answers-refine es t m (m key) chron (inl refl)
