-- ===== src/Rpc/LruSet/Once.antt =====
-- UniqueTaskManager (system/include/CRPC.hpp): how long a task id is remembered.
use celte_system.Prelude.{
  ℕ, zero, suc, ◌+◌, ◌≤◌, ◌<◌, ◌≡◌, refl, ap, subst, sym, ◌∙◌, true, false, String, List, [], ◌∷◌,
  none, some, Option, arith, length, take, Bool-cases, inl, inr, eq_iff, contains, contains-take,
  remove_absent, IsDistinct,
}
use celte_system.Prelude.HashMap.{HashMap}
use celte_system.Rpc.LruSet.Defs.{LruSet, run}
use celte_system.Rpc.LruSet.Refine.{IsValid, key_list, has-key_list, add-key_list}

-- The ids of `log` are all among the first `n` of `keys`.
abbrev pub IsRecent : ℕ → List String → List String → Type 0
IsRecent n keys [] = Unit
IsRecent n keys (id ∷ log) = (contains id (take n keys) ≡ true) × IsRecent n keys log

take-take {ℓ} : {A : Type ℓ} (m n : ℕ) (xs : List A) → m ≤ n → take m (take n xs) ≡ take m xs
take-take zero n xs h = refl
take-take (suc m) zero xs h = absurd (omega arith)
take-take (suc m) (suc n) [] h = refl
take-take (suc m) (suc n) (x ∷ xs) h = ap (◌∷◌ x) (take-take m n xs (omega arith))

contains-take-suc :
    (k : String) (n : ℕ) (xs : List String)
    → contains k (take n xs) ≡ true
    → contains k (take (suc n) xs) ≡ true
unfolding contains
contains-take-suc k zero xs h = cc
contains-take-suc k (suc n) [] h = cc
contains-take-suc k (suc n) (x ∷ xs) h = ground (arith, contains-take-suc k n xs)

pub contains_of_take :
    (k : String) (n : ℕ) (xs : List String) → contains k (take n xs) ≡ true → contains k xs ≡ true
unfolding contains
contains_of_take k zero xs h = cc
contains_of_take k (suc n) [] h = cc
contains_of_take k (suc n) (x ∷ xs) h = ground (arith, contains_of_take k n xs)

-- Nothing recent is on the log if it is not among the keys.
fresh_of_recent :
    (k : String) (n : ℕ) (keys log : List String)
    → IsRecent n keys log
    → contains k keys ≡ false
    → contains k log ≡ false
unfolding contains
fresh_of_recent k n keys [] r h = refl
fresh_of_recent k n keys (id ∷ log) r h =
    ground (arith, eq_iff id k, contains_of_take id n keys r.0, fresh_of_recent k n keys log r.1 h)

pub IsRecent-suc :
    (n : ℕ) (keys log : List String) → IsRecent n keys log → IsRecent (suc n) keys log
IsRecent-suc n keys [] r = tt
IsRecent-suc n keys (id ∷ log) r = (contains-take-suc id n keys r.0, IsRecent-suc n keys log r.1)

-- A key that is added pushes the recent ones back by one place.
pub IsRecent-add :
    (n cap : ℕ) (k : String) (keys log : List String)
    → n < cap
    → IsRecent n keys log
    → IsRecent (suc n) (take cap (k ∷ keys)) log
unfolding contains
IsRecent-add n cap k keys [] h r = tt
IsRecent-add n cap k keys (id ∷ log) h r = (
  rw (take-take (suc n) cap (k ∷ keys) h) (ground (arith, r.0)),
  IsRecent-add n cap k keys log h r.1,
)

pub IsRecent-run :
    (n cap : ℕ) (k : String) (keys log : List String)
    → n < cap
    → IsRecent n keys log
    → IsRecent (suc n) (take cap (k ∷ keys)) (k ∷ log)
unfolding contains
IsRecent-run n cap k keys log h r = (
  rw (take-take (suc n) cap (k ∷ keys) h) (ground (arith, eq_iff k k)),
  IsRecent-add n cap k keys log h r,
)

-- What one request does: a remembered id is passed over, any other is run and remembered.
pub data Ran {ℓ} ⦃h : HashMap⦄ {S : Type ℓ} (s : LruSet) (id : String) (task : S → S) (st : S)
    : Type ℓ where
  skipped :
      contains id (key_list s) ≡ true → run s id task st ≡ some (s, st, false) → Ran s id task st
  executed :
      (t : LruSet)
      → contains id (key_list s) ≡ false
      → run s id task st ≡ some (t, task st, true)
      → IsValid t
      → t.capacity ≡ s.capacity
      → key_list t ≡ take s.capacity (id ∷ key_list s)
      → Ran s id task st

module _ ⦃h : HashMap⦄ where
  pub run-Ran {ℓ} :
      {S : Type ℓ} (s : LruSet) (id : String) (task : S → S) (st : S)
      → IsValid s
      → 0 < s.capacity
      → Ran s id task st
  unfolding run
  run-Ran s id task st v pos = elim (Bool-cases (contains id (key_list s))) [
    | inl old ↦ skipped old (rw (has-key_list s id v ∙ old, run))
    | inr new ↦
        let (t, added, w, same, keys) = add-key_list s id v pos in
        executed t new (rw (has-key_list s id v ∙ new, run, added)) w same
          (keys ∙ ap (λ l. take s.capacity (id ∷ l)) (remove_absent id (key_list s) new))
  ]

module _ ⦃h : HashMap⦄ where
  -- Requests in the order in which they come in; the task of an id puts the id on the log.
  unfoldable pub run_all : LruSet → List String → List String → Option (LruSet × List String)
  run_all s [] log = some (s, log)
  run_all s (id ∷ ids) log = elim (run s id (◌∷◌ id) log) [
    | none ↦ none
    | some (t, log', _) ↦ run_all t ids log'
  ]

  -- Ids that were run stay run, in the order of the log.
  record Ends (s : LruSet) (ids log : List String) : Type 0 where
    last : LruSet
    log' : List String
    total : run_all s ids log ≡ some (last, log')
    once : IsDistinct log'
    grows : (j : String) → contains j log ≡ true → contains j log' ≡ true
    complete :
        (j : String)
        → contains j ids ≡ true
        → contains j (key_list s) ≡ false
        → contains j log' ≡ true

  run_all-Ends :
      (s : LruSet) (ids log : List String) (n : ℕ)
      → IsValid s
      → 0 < s.capacity
      → n + length ids ≤ s.capacity
      → IsRecent n (key_list s) log
      → IsDistinct log
      → Ends s ids log
  unfolding run_all contains
  run_all-Ends s [] log n v pos fits r d = record {
    last = s;
    log' = log;
    total = refl;
    once = d;
    grows = λ j e. e;
    complete = λ j e m. cc;
  }
  run_all-Ends s (id ∷ ids) log n v pos fits r d = elim (run-Ran s id (◌∷◌ id) log v pos) [
    | skipped old same ↦
        let rest =
          run_all-Ends s ids log (suc n) v pos (omega arith) (IsRecent-suc n (key_list s) log r)
            d in
        record {
          last = rest.last;
          log' = rest.log';
          total = rw (same, run_all) rest.total;
          once = rest.once;
          grows = rest.grows;
          complete = λ j e m. ground (arith, rest.complete j, eq_iff id j, old);
        }
    | executed t new ran w same keys ↦
        let fresh = fresh_of_recent id n (key_list s) log r new in
        let recent : IsRecent (suc n) (key_list t) (id ∷ log) =
          subst (λ ks. IsRecent (suc n) ks (id ∷ log)) (sym keys)
            (IsRecent-run n s.capacity id (key_list s) log (omega arith) r) in
        let rest =
          run_all-Ends t ids (id ∷ log) (suc n) w (omega arith) (omega arith) recent (fresh, d) in
        record {
          last = rest.last;
          log' = rest.log';
          total = rw (ran, run_all) rest.total;
          once = rest.once;
          grows = λ j e. rest.grows j (ground arith);
          complete = λ j e m. ground (
            arith,
            eq_iff id j,
            rest.grows j,
            rest.complete j,
            ap (contains j) keys,
            contains-take j s.capacity (id ∷ key_list s),
          );
        }
  ]

  -- Take any run of requests no longer than the capacity, from any well-formed set. The run is
  -- defined, no id is executed twice, and every id that was not remembered before is executed.
  pub run_all-IsDistinct :
      (s : LruSet) (ids : List String)
      → IsValid s
      → 0 < s.capacity
      → length ids ≤ s.capacity
      → (t : LruSet) × (log : List String) × (run_all s ids [] ≡ some (t, log))
        × IsDistinct log
        × ((j : String)
            → contains j ids ≡ true
            → contains j (key_list s) ≡ false
            → contains j log ≡ true)
  run_all-IsDistinct s ids v pos fits =
      let e = run_all-Ends s ids [] 0 v pos (omega arith) tt tt in
      (e.last, e.log', e.total, e.once, e.complete)
