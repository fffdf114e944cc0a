-- ===== src/ThreatIntel/Cache.antt =====
-- MemoryTICache of server/oseye/threat_intel/cache.py: reports by indicator, with a time to live
-- and a cap on their number. Every method runs under the lock and awaits nothing inside it, so it
-- is one step. Times are whole ticks of the monotonic clock, and a report is any type.
use oseye_plateforme.Prelude.{
  ℕ, ◌+◌, Option, none, some, [], ◌++◌, String, ltb, leb, if◌then◌else◌, str_dec, length, Dict,
  lookup, contains, insert, erase, pop_first, put_last,
}
pub mod Laws
use Prim.Native.String.{◌++◌ as append_text}

-- `_store`, oldest use first: each report with the time at which it expires.
pub record Cache (R : Type 0) : Type 0 where
  pub max_size : ℕ
  pub store : Dict String (ℕ × R)

-- `_MAX_SIZE`
abbrev pub max_size : ℕ
max_size = 10_000

-- `_key`
unfoldable pub key : String → String → String
key indicator_type indicator = append_text indicator_type (append_text ":" indicator)

module _ {R : Type 0} where
  -- `__init__`
  pub init : Cache R
  init = record { max_size = max_size; store = [] }

  -- `get`, at the key: an expired entry is dropped, a live one becomes the newest.
  unfoldable pub get_at : ℕ → String → Cache R → Cache R × Option R
  get_at now k c = elim (lookup str_dec k c.store) [
    | none ↦ (c, none)
    | some (expires_at, report) ↦
        if ltb expires_at now
        then (record c { store = erase str_dec k c.store }, none)
        else (record c { store = put_last str_dec k (expires_at, report) c.store }, some report)
  ]

  unfoldable pub get : ℕ → String → String → Cache R → Cache R × Option R
  unfolding get_at key
  get now indicator_type indicator c = get_at now (key indicator_type indicator) c

  -- `set`, at the key: the old entry goes, or the oldest one when the store is full.
  unfoldable pub set_at : ℕ → String → R → ℕ → Cache R → Cache R
  set_at now k report ttl c =
      let room =
        if contains str_dec k c.store
        then erase str_dec k c.store
        else if leb c.max_size (length c.store)
        then pop_first c.store
        else c.store in
      record c { store = insert str_dec k (now + ttl, report) room }

  unfoldable pub set : ℕ → String → String → R → ℕ → Cache R → Cache R
  unfolding set_at key
  set now indicator_type indicator report ttl c =
      set_at now (key indicator_type indicator) report ttl c

  -- `close`
  pub close : Cache R → Cache R
  close c = record c { store = [] }
