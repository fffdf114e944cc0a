-- ===== src/Decision/Journal.antt =====
-- DecisionJournal of server/oseye/decision/journal.py: a running hash chain over decisions.
-- BLAKE3 and the JSON encoding are a parameter, the digest of a previous hash and the fields.
pub mod Chain
pub mod Undo
use oseye_plateforme.Prelude.{
  ℕ, ◌+◌, ite, Bool, not, ◌&&◌, ◌||◌, Option, none, some, List, [], ◌∷◌, ◌++◌, String, leb, ◌==◌,
  if◌then◌else◌, str_dec, length, all, elem, push, codes,
}
use oseye_plateforme.Prelude.Floats.{Floats}
use oseye_plateforme.Decision.Types.{Fields, Decision}

pub record Journal : Type 0 where
  pub last_hash : String
  pub commit_history : List String

-- `_GENESIS_HASH`
abbrev pub genesis_hash : String
genesis_hash = "0000000000000000000000000000000000000000000000000000000000000000"

abbrev pub max_history : ℕ
max_history = 200

-- `__init__`
abbrev pub init : String → Journal
init last_hash = record { last_hash = last_hash; commit_history = [] }

unfoldable pub is_hex_digit : ℕ → Bool
is_hex_digit c = (leb b'0' c && leb c b'9') || (leb b'a' c && leb c b'f')

-- `_HASH_RE.fullmatch`: 64 digits of lower-case hexadecimal.
unfoldable pub is_hash : String → Bool
unfolding is_hex_digit
is_hash s = (length (codes s) == 64) && all is_hex_digit (codes s)

-- The two `ValueError`s of `rollback`.
pub data RollbackError : Type 0 where
  invalid_format not_in_history : RollbackError

pub data Rollback : Type 0 where
  reverted : Journal → Rollback
  refused : RollbackError → Rollback

unfoldable pub rollback : String → Journal → Rollback
rollback prev_hash j =
    if not (is_hash prev_hash)
    then refused invalid_format
    else if not (elem str_dec prev_hash j.commit_history)
        && not (elem str_dec prev_hash (genesis_hash ∷ []))
    then refused not_in_history
    else reverted (record j { last_hash = prev_hash })

module _ (f : Floats) (digest : String → Fields f → String) where
  -- `commit`: the previous hash and the new one, with the new state.
  unfoldable pub commit : Fields f → Journal → Journal × String × String
  commit fields j =
      let new_hash = digest j.last_hash fields in
      (
        record {
          last_hash = new_hash;
          commit_history = push max_history j.last_hash j.commit_history;
        },
        j.last_hash,
        new_hash,
      )

  -- The loop of `verify_chain` from index `i`. An index is noted once for a wrong previous hash
  -- and once for a wrong hash; the source sorts a list that is in order.
  unfoldable pub verify_from : ℕ → String → List (Decision f) → List ℕ
  verify_from i prev [] = []
  verify_from i prev (d ∷ ds) =
      (ite (str_dec d.prev_journal_hash prev) [] (i ∷ []))
      ++ ((ite (str_dec d.journal_hash (digest prev d.fields)) [] (i ∷ []))
          ++ verify_from (i + 1) d.journal_hash ds)

  -- `verify_chain`
  unfoldable pub verify_chain : List (Decision f) → Option String → List ℕ
  unfolding verify_from
  verify_chain decisions none = verify_from 0 genesis_hash decisions
  verify_chain decisions (some start_hash) = verify_from 0 start_hash decisions
