-- ===== src/Plugins.antt =====
-- PluginManager of server/oseye/plugin/manager.py. The files of the plugins' directory are a dictionary
-- by name, and a process is its number. Python's tests of identifiers are parameters.
pub mod Verifier
pub mod Signed
pub mod Found
use oseye_plateforme.Prelude.{
  ℕ, ◌*◌, Bool, true, false, not, ◌&&◌, Option, none, some, List, [], ◌∷◌, String, ltb, ◌==◌,
  if◌then◌else◌, str_dec, elem, Dict, lookup, insert, erase, codes,
}
use oseye_plateforme.Plugins.Verifier.{SigFile, Verdict, verify, answers, oversized}

pub data PluginStatus : Type 0 where
  loaded running stopped failed : PluginStatus

-- `PluginInfo`, under its name; `path` is the name of a file of the directory.
pub record PluginInfo : Type 0 where
  pub path : String
  pub status : PluginStatus
  pub pid : Option ℕ
  pub error : Option String

-- What `copy2` does: it writes the file, or it raises and leaves a part of it behind, or nothing new.
pub data Copied (Content : Type 0) : Type 0 where
  complete partial : Content → Copied Content
  untouched : Copied Content

-- The bytes of a file that can be read in full.
abbrev pub content_of : {Content : Type 0} → Copied Content → Option Content
content_of (complete content) = some content
content_of _ = none

-- The file that is handed to `install`, or found by `_discover`: `copied` is what `copy2` makes of it
-- or what `read_bytes` gives, and `unlinks` whether the copy can be removed again.
pub record Upload (Content Sig : Type 0) : Type 0 where
  pub exists : Bool
  pub file_name : String
  pub stem : String
  pub size : ℕ
  pub copied : Copied Content
  pub unlinks : Bool
  pub signature : Option (SigFile Sig)

-- The exceptions of the operations.
pub data Failure : Type 0 where
  file_not_found invalid_name reserved_name no_trusted_keys signature_not_found too_big : Failure
  copy_failed unlink_failed verification_failed oversized_signature : Failure
  plugin_not_found already_running start_failed : Failure

pub record Manager (Content : Type 0) : Type 0 where
  pub files : Dict String Content
  pub plugins : Dict String PluginInfo
  pub sandboxes : Dict String ℕ
  pub processes : List ℕ

-- What `PluginSandbox.start` gives: a process, or the text of its exception.
pub data Start : Type 0 where
  starts : ℕ → Start
  raises : String → Start

-- The parameters of a manager; `none` without a verifier.
pub record Config (Key : Type 0) : Type 0 where
  pub require_signature : Bool
  pub verifier : Option (List Key)

abbrev pub max_plugin_size : ℕ
max_plugin_size = 10 * 1024 * 1024

abbrev pub reserved_names : List String
reserved_names = "os" ∷ "sys" ∷ "builtins" ∷ "importlib" ∷ "subprocess" ∷ "socket" ∷ "pathlib" ∷ []

unfoldable pub is_reserved : String → Bool
is_reserved name = elem str_dec name reserved_names

unfoldable pub is_running : PluginStatus → Bool
is_running running = true
is_running _ = false

-- The list without the first occurrence of a process.
unfoldable pub kill : ℕ → List ℕ → List ℕ
kill pid [] = []
kill pid (x ∷ xs) = if x == pid then xs else x ∷ kill pid xs

unfoldable pub starts_underscore : List ℕ → Bool
starts_underscore [] = false
starts_underscore (c ∷ cs) = c == b'_'

module _ {Content : Type 0} where
  unfoldable pub put_info : String → PluginInfo → Manager Content → Manager Content
  put_info name info m = record m { plugins = insert str_dec name info m.plugins }

  -- `enable`, where the plugin was found: `started` is what the sandbox gives.
  unfoldable pub start_plugin :
      String → Start → PluginInfo → Manager Content → Manager Content × Option Failure
  unfolding put_info is_running
  start_plugin name started info m =
      if is_running info.status then (m, some already_running) else elim started [
        | raises text ↦ (
          put_info name (record info { status = failed; error = some text }) m,
          some start_failed,
        )
        | starts pid ↦ (
          record (put_info name (record info { status = running; pid = some pid; error = none })
              m) { sandboxes = insert str_dec name pid m.sandboxes; processes = pid ∷ m.processes },
          none,
        )
      ]

  unfoldable pub enable : String → Start → Manager Content → Manager Content × Option Failure
  unfolding start_plugin
  enable name started m = elim (lookup str_dec name m.plugins) [
    | none ↦ (m, some plugin_not_found)
    | some info ↦ start_plugin name started info m
  ]

  -- `self._sandboxes.pop(name, None)` and the stop of what was there.
  unfoldable pub stop_sandbox : String → Manager Content → Manager Content
  unfolding kill
  stop_sandbox name m = elim (lookup str_dec name m.sandboxes) [
    | none ↦ m
    | some pid ↦ record m {
      sandboxes = erase str_dec name m.sandboxes;
      processes = kill pid m.processes;
    }
  ]

  unfoldable pub disable : String → Manager Content → Manager Content × Option Failure
  unfolding stop_sandbox put_info
  disable name m = elim (lookup str_dec name m.plugins) [
    | none ↦ (m, some plugin_not_found)
    | some info ↦
        (put_info name (record info { status = stopped; pid = none }) (stop_sandbox name m), none)
  ]

  unfoldable pub delete : String → Bool → Manager Content → Manager Content × Option Failure
  unfolding stop_sandbox
  delete name unlinks m = elim (lookup str_dec name m.plugins) [
    | none ↦ (m, some plugin_not_found)
    | some info ↦
        let m' = stop_sandbox name m in
        (
          record m' {
            files = if unlinks then erase str_dec info.path m'.files else m'.files;
            plugins = erase str_dec name m'.plugins;
          },
          none,
        )
  ]

module _ {Content Sig Key : Type 0} (check : Key → Sig → Content → Bool) where
  -- Whether `install` has to verify the copy, and with which keys and signature.
  pub data Demand : Type 0 where
    refuses : Failure → Demand
    skips : Demand
    verifies : List Key → SigFile Sig → Demand

  unfoldable pub demand : Config Key → Bool → Option (SigFile Sig) → Demand
  demand c flag signature =
      if flag && c.require_signature
      then elim c.verifier [
        | none ↦ refuses no_trusted_keys
        | some keys ↦ elim signature [
          | none ↦ refuses signature_not_found
          | some sig ↦ verifies keys sig
        ]
      ]
      else if flag
      then elim c.verifier [
        | none ↦ skips
        | some keys ↦ elim signature [ none ↦ skips | some sig ↦ verifies keys sig ]
      ]
      else skips

  -- The end of `install`: the plugin is registered under its name.
  unfoldable pub register : Upload Content Sig → Manager Content → Manager Content × Option Failure
  register u m = (
    record m {
      plugins =
          insert str_dec u.stem
            (record { path = u.file_name; status = loaded; pid = none; error = none }) m.plugins;
    },
    none,
  )

  -- What follows the verdict on the copy: a copy that is not signed is removed, if it can be.
  unfoldable pub after_verdict :
      Verdict → Upload Content Sig → Manager Content → Manager Content × Option Failure
  unfolding register
  after_verdict oversized u m = (m, some oversized_signature)
  after_verdict (answers true) u m = register u m
  after_verdict (answers false) u m =
      if u.unlinks
      then (record m { files = erase str_dec u.file_name m.files }, some verification_failed)
      else (m, some unlink_failed)

  -- What follows the copy, with the content that is there now.
  unfoldable pub after_copy :
      Demand → Upload Content Sig → Content → Manager Content → Manager Content × Option Failure
  unfolding verify register after_verdict
  after_copy (refuses e) u content m = (m, some e)
  after_copy skips u content m = register u m
  after_copy (verifies keys sig) u content m =
      after_verdict (verify check keys (some content) sig) u m

  unfoldable pub copy_plugin :
      Demand
      → Upload Content Sig
      → Copied Content
      → Manager Content
      → Manager Content × Option Failure
  unfolding after_copy
  copy_plugin d u untouched m = (m, some copy_failed)
  copy_plugin d u (partial content) m =
      (record m { files = insert str_dec u.file_name content m.files }, some copy_failed)
  copy_plugin d u (complete content) m =
      after_copy d u content (record m { files = insert str_dec u.file_name content m.files })

  -- The size, the copy, and what follows it.
  unfoldable pub store_plugin :
      Demand → Upload Content Sig → Manager Content → Manager Content × Option Failure
  unfolding copy_plugin
  store_plugin d u m =
      if ltb max_plugin_size u.size then (m, some too_big) else copy_plugin d u u.copied m

  unfoldable pub checked_store :
      Demand → Upload Content Sig → Manager Content → Manager Content × Option Failure
  unfolding store_plugin
  checked_store (refuses e) u m = (m, some e)
  checked_store skips u m = store_plugin skips u m
  checked_store (verifies keys sig) u m = store_plugin (verifies keys sig) u m

  module _ (is_identifier is_keyword : String → Bool) (c : Config Key) where
    -- The names that `_discover` takes, and those that `install` takes.
    unfoldable pub is_module_name : String → Bool
    is_module_name name = is_identifier name && not (is_keyword name)

    unfoldable pub is_plugin_name : String → Bool
    unfolding is_module_name
    is_plugin_name name = is_module_name name && not (starts_underscore (codes name))

    -- `install`
    unfoldable pub install :
        Bool → Upload Content Sig → Manager Content → Manager Content × Option Failure
    unfolding demand checked_store is_plugin_name is_reserved
    install flag u m =
        if not u.exists
        then (m, some file_not_found)
        else if not (is_plugin_name u.stem)
        then (m, some invalid_name)
        else if is_reserved u.stem
        then (m, some reserved_name)
        else checked_store (demand c flag u.signature) u m

    -- One file of the scan of `_discover`, with the signature file beside it.
    -- The text of the exception stands for itself.
    unfoldable pub discovered : Upload Content Sig → PluginStatus × Option String
    unfolding verify
    discovered u = if not c.require_signature then (loaded, none) else elim u.signature [
      | none ↦ (failed, some "signature file missing — plugin not loaded (require_signature=True)")
      | some sig ↦ elim c.verifier [
        | none ↦ (loaded, none)
        | some keys ↦ elim (verify check keys (content_of u.copied) sig) [
          | oversized ↦ (failed, some "signature invalid: Oversized signature file")
          | answers b ↦ (loaded, none)
        ]
      ]
    ]

    unfoldable pub discover_one :
        Upload Content Sig → Dict String PluginInfo → Dict String PluginInfo
    unfolding discovered is_module_name
    discover_one u plugins =
        if is_module_name u.stem
        then insert str_dec u.stem
            (record {
              path = u.file_name;
              status = (discovered u).0;
              pid = none;
              error = (discovered u).1;
            })
            plugins
        else plugins

    -- `_discover`, over the Python files of the directory in their order.
    unfoldable pub discover :
        List (Upload Content Sig) → Dict String PluginInfo → Dict String PluginInfo
    unfolding discover_one
    discover [] plugins = plugins
    discover (u ∷ us) plugins = discover us (discover_one u plugins)

    -- What an administrator asks for: an installation with or without verification, a start with
    -- what the sandbox gives, a stop, or a removal that unlinks or not.
    pub data Request : Type 0 where
      installs : Bool → Upload Content Sig → Request
      enables : String → Start → Request
      disables : String → Request
      deletes : String → Bool → Request

    unfoldable pub serve : Request → Manager Content → Manager Content × Option Failure
    unfolding install enable disable delete
    serve (installs flag u) m = install flag u m
    serve (enables name started) m = enable name started m
    serve (disables name) m = disable name m
    serve (deletes name unlinks) m = delete name unlinks m

    unfoldable pub serve_plugins : List Request → Manager Content → Manager Content
    unfolding serve
    serve_plugins [] m = m
    serve_plugins (r ∷ rs) m = serve_plugins rs (serve r m).0
