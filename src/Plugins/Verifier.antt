-- ===== src/Plugins/Verifier.antt =====
-- PluginVerifier of server/oseye/plugin/verifier.py. The check of an Ed25519 signature is a
-- parameter.
use oseye_plateforme.Prelude.{
  ℕ, Bool, true, false, Option, none, some, List, [], ◌∷◌, ltb, if◌then◌else◌,
}

-- A signature file: its size, and its bytes, where they can be read.
pub record SigFile (Sig : Type 0) : Type 0 where
  pub size : Option ℕ
  pub bytes : Option Sig

-- What `PluginVerifier.verify` does: it answers, or raises for an oversized signature.
pub data Verdict : Type 0 where
  answers : Bool → Verdict
  oversized : Verdict

abbrev pub max_signature_size : ℕ
max_signature_size = 256

module _ {Content Sig Key : Type 0} (check : Key → Sig → Content → Bool) where
  unfoldable pub any_key : List Key → Sig → Content → Bool
  any_key [] sig plugin = false
  any_key (k ∷ ks) sig plugin = if check k sig plugin then true else any_key ks sig plugin

  unfoldable pub verify_bytes : List Key → Option Content → Option Sig → Bool
  unfolding any_key
  verify_bytes keys (some plugin) (some sig) = any_key keys sig plugin
  verify_bytes keys (some plugin) none = false
  verify_bytes keys none sig = false

  -- `PluginVerifier.verify`
  unfoldable pub verify : List Key → Option Content → SigFile Sig → Verdict
  unfolding verify_bytes
  verify [] plugin sig = answers false
  verify (k ∷ ks) plugin sig = elim sig.size [
    | none ↦ answers false
    | some n ↦
        if ltb max_signature_size n
        then oversized
        else answers (verify_bytes (k ∷ ks) plugin sig.bytes)
  ]
