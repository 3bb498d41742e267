-- ===== src/Ghost/Poll.antt =====
-- What the engine sees of a property (system/common_src/GhostSystem.cpp).
use celte_system.Prelude.{
  ℕ, zero, suc, ◌+◌, ◌-◌, ◌≤◌, ◌<◌, ◌≡◌, ℕ_discrete, Bool, true, not, String, Option, none, some,
  if◌then◌else◌, ◌==◌, ◌&&◌, eq_iff, arith, Option-cases, Bool-cases, inl, inr,
}
use celte_system.Prelude.Assoc
use celte_system.Prelude.Assoc.{Assoc, find-put}
use celte_system.Ghost.Defs.{PropertyInfo, Properties, set, get, acknowledge_sync}

-- Whether Set changes the value.
abbrev pub differs : Option PropertyInfo → String → Bool
differs none v = true
differs (some info) v = not (info.value == v)

module _ (readings : ℕ → ℕ) where
  -- The times of an entry were read before the n-th call of the clock.
  abbrev pub IsPast : Properties → ℕ → Type 0
  IsPast props n =
      (key : String) (info : PropertyInfo)
      → Assoc.find props key ≡ some info
      → (info.last_sync < readings n) × (info.last_update < readings n)

module _ (readings : ℕ → ℕ) (strict : (n : ℕ) → readings n < readings (suc n)) where
  readings_lt : (n k : ℕ) → readings n < readings (n + suc k)
  readings_lt n zero = let e : n + 1 ≡ suc n = omega arith in rw e (strict n)
  readings_lt n (suc k) =
      let e : n + suc (suc k) ≡ suc (n + suc k) = omega arith in
      rw e (omega (arith, readings_lt n k, strict (n + suc k)))

  -- Where the clock moves, a poll sees a property from the moment at which it changes, and no
  -- other property is touched.
  pub get-set :
      (props : Properties) (n : ℕ) (key j value : String)
      → IsPast readings props n
      → get (set readings props n key value).0 j
        ≡ (if key == j && differs (Assoc.find props key) value then some value else get props j)
  unfolding get set
  get-set props n key j value past = elim (Option-cases (Assoc.find props key)) [
    | inl e ↦ ground (
      arith,
      eq_iff key j,
      strict (n + 1),
      find-put props key j
          (record { value = value; last_update = readings (n + 2); last_sync = readings (n + 1) }),
    )
    | inr (info, e) ↦ ground (
      arith,
      eq_iff key j,
      past key info e,
      find-put props key j (record info { value = value; last_update = readings n }),
    )
  ]

  pub get-acknowledge_sync :
      (props : Properties) (n : ℕ) (key j : String)
      → IsPast readings props n
      → get (acknowledge_sync readings props n key).0 j ≡ (if key == j then none else get props j)
  unfolding get acknowledge_sync
  get-acknowledge_sync props n key j past = elim (Option-cases (Assoc.find props key)) [
    | inl e ↦ ground (arith, eq_iff key j)
    | inr (info, e) ↦ ground (
      arith,
      eq_iff key j,
      past key info e,
      find-put props key j (record info { last_sync = readings n }),
    )
  ]

  readings_mono : (m n : ℕ) → m < n → readings m < readings n
  readings_mono m n h =
      let e : n ≡ m + suc (n - m - 1) = omega arith in rw e (readings_lt m (n - m - 1))

  readings_le : (m n : ℕ) → m ≤ n → readings m ≤ readings n
  readings_le m n h = elim (ℕ_discrete m n) [
    | yes p ↦ rw p (omega arith)
    | no p ↦ omega (arith, readings_mono m n (omega arith))
  ]

  pub IsPast-mono :
      (props : Properties) (m n : ℕ) → m ≤ n → IsPast readings props m → IsPast readings props n
  IsPast-mono props m n h past key info e =
      let (a, b) = past key info e in
      (omega (arith, readings_le m n h), omega (arith, readings_le m n h))

  IsPast-put :
      (props : Properties) (n : ℕ) (key : String) (new : PropertyInfo)
      → IsPast readings props n
      → new.last_sync < readings n
      → new.last_update < readings n
      → IsPast readings (Assoc.put props key new) n
  IsPast-put props n key new past sync upd j info e = elim (Bool-cases (key == j)) [
    | inl hit ↦ ground (arith, find-put props key j new)
    | inr miss ↦ past j info (ground (arith, find-put props key j new))
  ]

  pub set-IsPast :
      (props : Properties) (n : ℕ) (key value : String)
      → IsPast readings props n
      → IsPast readings (set readings props n key value).0 (set readings props n key value).1
  unfolding set
  set-IsPast props n key value past = elim (Option-cases (Assoc.find props key)) [
    | inl e ↦
        rw (e, set)
          (IsPast-put props (n + 3) key
            (record { value = value; last_update = readings (n + 2); last_sync = readings (n + 1) })
            (IsPast-mono props n (n + 3) (omega arith) past)
            (readings_mono (n + 1) (n + 3) (omega arith))
            (readings_mono (n + 2) (n + 3) (omega arith)))
    | inr (info, e) ↦ elim (Bool-cases (info.value == value)) [
      | inl same ↦ rw (e, same, set) past
      | inr new ↦
          rw (e, new, set)
            (IsPast-put props (n + 1) key (record info { value = value; last_update = readings n })
              (IsPast-mono props n (n + 1) (omega arith) past)
              (omega (arith, past key info e, readings_mono n (n + 1) (omega arith)))
              (readings_mono n (n + 1) (omega arith)))
    ]
  ]

  pub acknowledge_sync-IsPast :
      (props : Properties) (n : ℕ) (key : String)
      → IsPast readings props n
      → IsPast readings
          (acknowledge_sync readings props n key).0
          (acknowledge_sync readings props n key).1
  unfolding acknowledge_sync
  acknowledge_sync-IsPast props n key past = elim (Option-cases (Assoc.find props key)) [
    | inl e ↦ rw (e, acknowledge_sync) past
    | inr (info, e) ↦
        rw (e, acknowledge_sync)
          (IsPast-put props (n + 1) key (record info { last_sync = readings n })
            (IsPast-mono props n (n + 1) (omega arith) past) (readings_mono n (n + 1) (omega arith))
            (omega (arith, past key info e, readings_mono n (n + 1) (omega arith))))
  ]

  pub le-set :
      (props : Properties) (n : ℕ) (key value : String) → n ≤ (set readings props n key value).1
  unfolding set
  le-set props n key value = elim (Option-cases (Assoc.find props key)) [
    | inl e ↦ ground arith
    | inr (info, e) ↦ ground (arith, eq_iff info.value value)
  ]

  pub le-acknowledge_sync :
      (props : Properties) (n : ℕ) (key : String) → n ≤ (acknowledge_sync readings props n key).1
  unfolding acknowledge_sync
  le-acknowledge_sync props n key = elim (Option-cases (Assoc.find props key)) [
    | inl e ↦ ground arith
    | inr (info, e) ↦ ground arith
  ]
