-- ===== src/ThreatIntel/Cache/Laws.antt =====
-- What MemoryTICache of server/oseye/threat_intel/cache.py keeps, bounds and returns.
use oseye_plateforme.Prelude.{
  ℕ, ◌+◌, ◌≤◌, ◌<◌, ◌≡◌, refl, ◌∙◌, ◌≢◌, ◌⊎◌, inl, inr, true, Option, none, some, [], ◌∷◌, ◌++◌,
  String, arith, ltb, leb, if◌then◌else◌, Bool-cases, Option-cases, str_dec, length, length-append,
  Dict, lookup, contains, erase, IsDict, lookup-insert_ne, lookup-erase_ne, lookup-erase_self,
  erase-IsDict, length-erase, length-erase-le, insert_new, pop_first, put_last, put_last-IsDict,
  length-put_last, pop_first-IsDict, lookup-pop_first_absent, append-IsDict, lookup-append_self,
}
use oseye_plateforme.ThreatIntel.Cache.{Cache, get_at, set_at, init}

-- Never more entries than the cap, and one entry for each key.
pub record IsValid {R : Type 0} (c : Cache R) : Type 0 where
  pub positive : 0 < c.max_size
  pub bounded : length c.store ≤ c.max_size
  pub distinct : IsDict str_dec c.store

pub init-IsValid : (R : Type 0) → IsValid (init {R = R})
unfolding init
init-IsValid R = record { positive = omega arith; bounded = omega arith; distinct = tt }

module _ {R : Type 0} where
  -- The store that `set` appends to.
  room : String → Cache R → Dict String (ℕ × R)
  room k c =
      if contains str_dec k c.store
      then erase str_dec k c.store
      else if leb c.max_size (length c.store)
      then pop_first c.store
      else c.store

  length-pop_first : (d : Dict String (ℕ × R)) → 0 < length d → length (pop_first d) + 1 ≡ length d
  length-pop_first [] h = absurd (omega arith)
  length-pop_first (e ∷ d) h = omega arith

  lookup-room : (k : String) (c : Cache R) → IsValid c → lookup str_dec k (room k c) ≡ none
  unfolding room
  lookup-room k c v = elim (Option-cases (lookup str_dec k c.store)) [
    | inl new ↦ rw new (ground (arith, lookup-pop_first_absent str_dec k c.store new))
    | inr (e, old) ↦ rw old (lookup-erase_self str_dec k c.store v.distinct)
  ]

  room-IsDict : (k : String) (c : Cache R) → IsValid c → IsDict str_dec (room k c)
  unfolding room
  room-IsDict k c v = elim (Option-cases (lookup str_dec k c.store)) [
    | inl new ↦ rw new (elim (Bool-cases (leb c.max_size (length c.store))) [
      | inl full ↦ rw full (pop_first-IsDict str_dec c.store v.distinct)
      | inr space ↦ rw space v.distinct
    ])
    | inr (e, old) ↦ rw old (erase-IsDict str_dec k c.store v.distinct)
  ]

  length-room : (k : String) (c : Cache R) → IsValid c → length (room k c) + 1 ≤ c.max_size
  unfolding room
  length-room k c v = elim (Option-cases (lookup str_dec k c.store)) [
    | inl new ↦ rw new (ground (arith, v.bounded, v.positive, length-pop_first c.store))
    | inr (e, old) ↦ rw old (ground (arith, v.bounded, length-erase str_dec k e c.store old))
  ]

  set_at-room :
      (now : ℕ) (k : String) (r : R) (ttl : ℕ) (c : Cache R)
      → IsValid c
      → (set_at now k r ttl c).store ≡ room k c ++ (k, (now + ttl, r)) ∷ []
  unfolding set_at room
  set_at-room now k r ttl c v = insert_new str_dec k (now + ttl, r) (room k c) (lookup-room k c v)

  -- `set` keeps the number of entries within the cap and the keys distinct.
  pub set_at-IsValid :
      (now : ℕ) (k : String) (r : R) (ttl : ℕ) (c : Cache R)
      → IsValid c
      → IsValid (set_at now k r ttl c)
  unfolding set_at
  set_at-IsValid now k r ttl c v = record {
    positive = v.positive;
    bounded =
        rw (set_at-room now k r ttl c v) (
          omega
            (arith, length-append {0} (room k c) ((k, (now + ttl, r)) ∷ []), length-room k c v));
    distinct =
        rw (set_at-room now k r ttl c v) (
          append-IsDict str_dec k (now + ttl, r) (room k c) (room-IsDict k c v)
            (lookup-room k c v));
  }

  stale_drop-IsValid :
      (k : String) (c : Cache R)
      → IsValid c
      → IsValid (record c { store = erase str_dec k c.store })
  stale_drop-IsValid k c v = record {
    positive = v.positive;
    bounded = omega (arith, v.bounded, length-erase-le str_dec k c.store);
    distinct = erase-IsDict str_dec k c.store v.distinct;
  }

  refresh-IsValid :
      (k : String) (e : ℕ × R) (c : Cache R)
      → IsValid c
      → lookup str_dec k c.store ≡ some e
      → IsValid (record c { store = put_last str_dec k e c.store })
  refresh-IsValid k e c v hit = record {
    positive = v.positive;
    bounded = omega (arith, v.bounded, length-put_last str_dec k e e c.store hit);
    distinct = put_last-IsDict str_dec k e c.store v.distinct;
  }

  -- `get` keeps the cap and the keys distinct.
  pub get_at-IsValid : (now : ℕ) (k : String) (c : Cache R) → IsValid c → IsValid (get_at now k c).0
  unfolding get_at
  get_at-IsValid now k c v = elim (Option-cases (lookup str_dec k c.store)) [
    | inl miss ↦ rw (miss, get_at) v
    | inr ((t, r), hit) ↦
        rw (hit, get_at)
          (elim (Bool-cases (ltb t now)) [
            | inl stale ↦ rw stale (stale_drop-IsValid k c v)
            | inr live ↦ rw live (refresh-IsValid k (t, r) c v hit)
          ])
  ]

  -- What `get` returns of a stored entry.
  live : ℕ → Option (ℕ × R) → Option R
  live now none = none
  live now (some (t, r)) = if ltb t now then none else some r

  get_at-live :
      (now : ℕ) (k : String) (c : Cache R)
      → (get_at now k c).1 ≡ live now (lookup str_dec k c.store)
  unfolding get_at live
  get_at-live now k c = elim (Option-cases (lookup str_dec k c.store)) [
    | inl miss ↦ rw (miss, get_at)
    | inr ((t, r), hit) ↦
        rw (hit, get_at)
          (elim (Bool-cases (ltb t now)) [ inl stale ↦ rw stale | inr fresh ↦ rw fresh ])
  ]

  -- After `set` on a valid cache at time `t0`, `get` of the same key at time `t1` returns the
  -- report exactly up to the end of its time to live, and nothing after.
  pub get_at-set_at_self :
      (t0 t1 : ℕ) (k : String) (r : R) (ttl : ℕ) (c : Cache R)
      → IsValid c
      → (get_at t1 k (set_at t0 k r ttl c)).1 ≡ (if ltb (t0 + ttl) t1 then none else some r)
  unfolding live
  get_at-set_at_self t0 t1 k r ttl c v =
      rw
        (
          get_at-live,
          set_at-room t0 k r ttl c v,
          lookup-append_self str_dec k (t0 + ttl, r) (room k c) (lookup-room k c v),
        )
        refl

  lookup-room_ne :
      (j k : String) (c : Cache R)
      → j ≢ k
      → (contains str_dec k c.store ≡ true) ⊎ (length c.store < c.max_size)
      → lookup str_dec j (room k c) ≡ lookup str_dec j c.store
  unfolding room
  lookup-room_ne j k c ne h = ground (arith, lookup-erase_ne str_dec j k c.store ne)

  lookup-set_at_ne :
      (t0 : ℕ) (j k : String) (r : R) (ttl : ℕ) (c : Cache R)
      → j ≢ k
      → (contains str_dec k c.store ≡ true) ⊎ (length c.store < c.max_size)
      → lookup str_dec j (set_at t0 k r ttl c).store ≡ lookup str_dec j c.store
  unfolding set_at room
  lookup-set_at_ne t0 j k r ttl c ne h =
      lookup-insert_ne str_dec j k (t0 + ttl, r) (room k c) ne ∙ lookup-room_ne j k c ne h

  -- `set` of one key on a valid cache leaves what `get` returns for another one, if the key was
  -- there or the store was not full.
  pub get_at-set_at_ne :
      (t0 t1 : ℕ) (j k : String) (r : R) (ttl : ℕ) (c : Cache R)
      → IsValid c
      → j ≢ k
      → (contains str_dec k c.store ≡ true) ⊎ (length c.store < c.max_size)
      → (get_at t1 j (set_at t0 k r ttl c)).1 ≡ (get_at t1 j c).1
  get_at-set_at_ne t0 t1 j k r ttl c v ne h =
      rw (get_at-live, get_at-live, lookup-set_at_ne t0 j k r ttl c ne h)
