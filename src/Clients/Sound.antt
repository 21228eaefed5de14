-- ===== src/Clients/Sound.antt =====
-- The calls of src/clients/clients.service.ts keep the cache of API keys sound.
use text.Mathlib.TextEquality.{eq_iff}
use avasettile.Common.{
  ℕ, ◌≡◌, refl, sym, subst, both, inl, inr, true, String, Option, none, some, List, [], ◌∷◌, str_eq,
  ltb, ◌&&◌, Bool-cases,
}
use avasettile.Effect.{Error, pure, call, or_throw, ◌>>=◌}
use avasettile.Effect.Yields.{
  On, Anything, Yields, Yields->>=, Yields-call, Yields-pure, Yields-throw,
}
use avasettile.World.{DatabaseAnswer, answered, refused, reply_lost}
use avasettile.Clients.Directory.{
  ClientRow, CacheEntry, Directory, Answer, Handler, query, replied, find_active,
  find_active_by_api_key_hash, find_by_id,
}
use avasettile.Clients.Service.{
  set_entry, local, clear_cache, require_client, live_entry, remembered, look_up, cached_or,
}

-- The row was active and its key had that hash.
abbrev pub IsOwn : String → ClientRow → Type 0
IsOwn hash c = (c.api_key_hash ≡ hash) × (c.active ≡ true)

abbrev pub Own : String → Option ClientRow → Type 0
Own hash none = Unit
Own hash (some c) = IsOwn hash c

abbrev pub OwnEntry : String → Option CacheEntry → Type 0
OwnEntry hash none = Unit
OwnEntry hash (some e) = IsOwn hash e.client

abbrev pub IsSound : Directory → Type 0
IsSound w = (hash : String) → OwnEntry hash (w.api_key_cache hash)

find_active-Own : (hash : String) (cs : List ClientRow) → Own hash (find_active hash cs)
find_active-Own hash [] = tt
find_active-Own hash (c ∷ cs) = elim (Bool-cases (str_eq c.api_key_hash hash && c.active)) [
  | inr other ↦ rw other (find_active-Own hash cs)
  | inl found ↦
      let (same, on) = both _ _ found in rw found ((eq_iff c.api_key_hash hash).0 same, on)
]

pub live_entry-Own :
    (hash : String) (now : ℕ) (o : Option CacheEntry)
    → OwnEntry hash o
    → Own hash (live_entry now o)
live_entry-Own hash now none h = tt
live_entry-Own hash now (some e) h = elim (Bool-cases (ltb now e.expires_at)) [
  | inl live ↦ rw live h
  | inr over ↦ rw over tt
]

remembered-Own :
    (hash : String) (now : ℕ) (o : Option ClientRow) → Own hash o → OwnEntry hash (remembered now o)
remembered-Own hash now none h = tt
remembered-Own hash now (some c) h = h

set_entry-IsSound :
    (hash : String) (o : Option CacheEntry) (w : Directory)
    → OwnEntry hash o
    → IsSound w
    → IsSound (set_entry hash o w)
set_entry-IsSound hash o w own sound other = elim (Bool-cases (str_eq hash other)) [
  | inl same ↦ rw same (subst (λ h. OwnEntry h o) ((eq_iff hash other).0 same) own)
  | inr differs ↦ rw differs (sound other)
]

abbrev pub Keeps : {A : Type 0} → Handler A → Type 0
Keeps p = Yields IsSound p Anything

-- A statement leaves the cache alone.
Yields-query :
    {A : Type 0} (f : Answer → Directory → A × Directory) (P : A → Type 0)
    → ((env : Answer) (w : Directory)
        → ((f env w).1.api_key_cache ≡ w.api_key_cache) × P (f env w).0)
    → Yields IsSound (call (query f)) P
Yields-query {A} f P h =
    Yields-call IsSound (query f) P
      λ env w sound. at env.database (f env w) w (h env w).0 (h env w).1 sound
  where
    at :
        (d : DatabaseAnswer) (s : A × Directory) (w : Directory)
        → s.1.api_key_cache ≡ w.api_key_cache
        → P s.0
        → IsSound w
        → IsSound (replied d s w).1 × On P (replied d s w).0 0
    at answered s w same got sound =
        (λ hash. subst (λ m. OwnEntry hash (m hash)) (sym same) (sound hash), got)
    at refused s w same got sound = (sound, tt)
    at reply_lost s w same got sound =
        (λ hash. subst (λ m. OwnEntry hash (m hash)) (sym same) (sound hash), tt)

pub Yields-own_memory :
    {A : Type 0} (f : Answer → Directory → A × Directory) (P : A → Type 0)
    → ((env : Answer) (w : Directory) → IsSound w → IsSound (f env w).1 × P (f env w).0)
    → Yields IsSound (call (local f)) P
Yields-own_memory f P h = Yields-call IsSound (local f) P h

module _ {A B : Type 0} where
  pub then_any :
      (p : Handler A) (f : A → Handler B) → Keeps p → ((a : A) → Keeps (f a)) → Keeps (p >>= f)
  then_any p f hp hf = Yields->>= IsSound p f Anything Anything hp (λ a _. hf a)

pub done : {A : Type 0} (a : A) → Keeps (let p : Handler A = pure a in p)
done a = Yields-pure Answer IsSound a Anything tt

pub Keeps-or_throw :
    {A : Type 0} (o : Option A) (e : Error) → Keeps (let p : Handler A = or_throw o e in p)
Keeps-or_throw none e = Yields-throw Answer IsSound e Anything
Keeps-or_throw (some a) e = done a

pub drawn : {A : Type 0} (f : Answer → A) → Keeps (call (local (λ env w. (f env, w))))
drawn f = Yields-own_memory _ Anything (λ env w sound. (sound, tt))

pub stated :
    {A : Type 0} (f : Answer → Directory → A × Directory)
    → ((env : Answer) (w : Directory) → (f env w).1.api_key_cache ≡ w.api_key_cache)
    → Keeps (call (query f))
stated f same = Yields-query f Anything (λ env w. (same env w, tt))

pub Keeps-require_client : (id : ℕ) → Keeps (require_client id)
unfolding require_client find_by_id
Keeps-require_client id = then_any _ _ (stated _ (λ env w. refl)) (λ o. Keeps-or_throw o _)

pub Keeps-clear_cache : Keeps clear_cache
unfolding clear_cache
Keeps-clear_cache = Yields-own_memory _ Anything (λ env w sound. ((λ hash. tt), tt))

Own-look_up : (hash : String) → Yields IsSound (look_up hash) (Own hash)
unfolding look_up find_active_by_api_key_hash
Own-look_up hash =
    Yields->>= IsSound _ _ (Own hash) (Own hash)
      (Yields-query _ (Own hash) (λ env w. (refl, find_active-Own hash w.clients)))
      λ o own.
        Yields->>= IsSound _ _ Anything (Own hash)
          (Yields-own_memory _ Anything (λ env w sound.
            (set_entry-IsSound hash _ w (remembered-Own hash env.now o own) sound, tt)))
          (λ _ _. Yields-pure Answer IsSound o (Own hash) own)

pub Own-cached_or :
    (hash : String) (o : Option ClientRow)
    → Own hash o
    → Yields IsSound (cached_or hash o) (Own hash)
Own-cached_or hash none own = Own-look_up hash
Own-cached_or hash (some c) own = Yields-pure Answer IsSound (some c) (Own hash) own
