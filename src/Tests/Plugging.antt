-- ===== src/Tests/Plugging.antt =====
-- Plugins through server/oseye/plugin/manager.py.
use oseye_plateforme.Prelude.{
  ℕ, ◌*◌, refl, Bool, true, false, some, [], ◌∷◌, String, arith, ◌==◌, All,
}
use oseye_plateforme.Plugins.{
  complete, Upload, Manager, Config, starts, discover, serve_plugins, installs, enables, deletes,
}
use oseye_plateforme.Plugins.Signed.{AllSigned, serve_plugins-AllSigned}
use oseye_plateforme.Plugins.Found.{Startable, discover-Startable}

-- The key 3 has signed the content n by 3 * n.
abbrev check : ℕ → ℕ → ℕ → Bool
check k sig n = sig == k * n

abbrev is_identifier : String → Bool
is_identifier s = true

abbrev is_keyword : String → Bool
is_keyword s = false

abbrev config : Config ℕ
config = record { require_signature = true; verifier = some (2 ∷ 3 ∷ []) }

abbrev upload : ℕ → ℕ → ℕ → Upload ℕ ℕ
upload content sig size = record {
  exists = true;
  file_name = "geo.py";
  stem = "geo";
  size = 900;
  copied = complete content;
  unlinks = true;
  signature = some (record { size = some size; bytes = some sig });
}

abbrev empty : Manager ℕ
empty = record { files = []; plugins = []; sandboxes = []; processes = [] }

serve_plugins-AllSigned_example : AllSigned check is_identifier is_keyword config (2 ∷ 3 ∷ []) (
    serve_plugins check is_identifier is_keyword config
      (installs true (upload 5 15 64)
        ∷ installs true (upload 6 15 64)
        ∷ enables "geo" (starts 41)
        ∷ deletes "geo" true
        ∷ [])
      empty)
serve_plugins-AllSigned_example =
    serve_plugins-AllSigned check is_identifier is_keyword config (2 ∷ 3 ∷ [])
      (installs true (upload 5 15 64)
        ∷ installs true (upload 6 15 64)
        ∷ enables "geo" (starts 41)
        ∷ deletes "geo" true
        ∷ [])
      empty refl refl
      ((refl, omega arith, tt, refl), ((refl, omega arith, tt, refl), (tt, (tt, tt)))) tt

-- A plugin with a wrong signature, found at the start of the server.
discover-Startable_example :
    All
      (Startable check is_identifier is_keyword config
        (discover check is_identifier is_keyword config (upload 6 0 64 ∷ []) []))
      (upload 6 0 64 ∷ [])
discover-Startable_example =
    discover-Startable check is_identifier is_keyword config (upload 6 0 64 ∷ [])
