-- ===== src/Plugins/Signed.antt =====
-- What lies in the directory of server/oseye/plugin/manager.py.
use oseye_plateforme.Prelude.{
  ◌≤◌, ◌≡◌, refl, sym, ◌≢◌, inl, inr, Bool, true, false, not, Option, none, some, List, [], ◌∷◌,
  String, arith, ltb, if◌then◌else◌, Option-cases, All-insert, All-erase, All-erase-insert,
  if-either, str_dec, All, lookup, insert, erase,
}
use mathlib.Core.Path.{subst}
use oseye_plateforme.Plugins.Verifier.{
  SigFile, Verdict, answers, oversized, max_signature_size, any_key, verify_bytes, verify,
}
use oseye_plateforme.Plugins.{
  Copied, complete, partial, untouched, Upload, Failure, Manager, Config, Start, PluginInfo,
  max_plugin_size, is_reserved, verifies, demand, register, after_copy, after_verdict, copy_plugin,
  store_plugin, checked_store, starts, raises, start_plugin, enable, stop_sandbox, disable, delete,
  is_plugin_name, install, Request, installs, enables, disables, deletes, serve, serve_plugins,
}

-- A plugin that one of the keys has signed.
abbrev pub IsSigned :
    {Content Sig Key : Type 0} (check : Key → Sig → Content → Bool)
    → List Key
    → String × Content
    → Type 0
IsSigned {Sig} check keys file = (sig : Sig) × (any_key check keys sig file.1 ≡ true)

-- The signature file is not oversized.
abbrev pub FitsSize : {Sig : Type 0} → Option (SigFile Sig) → Type 0
FitsSize none = Unit
FitsSize (some sig) = elim sig.size [ none ↦ Unit | some n ↦ n ≤ max_signature_size ]

-- The copy leaves no part of a file behind.
abbrev pub IsWhole : {Content : Type 0} → Copied Content → Type 0
IsWhole (partial content) = ⊥
IsWhole _ = Unit

module _ {Content Sig Key : Type 0} (check : Key → Sig → Content → Bool)
    (is_identifier is_keyword : String → Bool) (c : Config Key) (keys : List Key) where
  -- An installation is verified, its signature file is not oversized, its copy leaves no part behind,
  -- and can be removed again.
  abbrev pub IsCareful : Request check is_identifier is_keyword c → Type 0
  IsCareful (installs flag u) =
      (flag ≡ true) × FitsSize u.signature × IsWhole u.copied × (u.unlinks ≡ true)
  IsCareful _ = Unit

  abbrev pub AllSigned : Manager Content → Type 0
  AllSigned m = All (IsSigned check keys) m.files

  bytes-any_key :
      (ks : List Key) (plugin : Content) (sig : Option Sig)
      → verify_bytes check ks (some plugin) sig ≡ true
      → (s : Sig) × (any_key check ks s plugin ≡ true)
  unfolding verify_bytes
  bytes-any_key ks plugin none h = cc
  bytes-any_key ks plugin (some s) h = (s, h)

  verify-answers :
      (k : Key) (ks : List Key) (plugin : Content) (sig : SigFile Sig)
      → verify check (k ∷ ks) (some plugin) sig ≡ answers true
      → verify_bytes check (k ∷ ks) (some plugin) sig.bytes ≡ true
  unfolding verify
  verify-answers k ks plugin sig h = ground arith

  verify-any_key :
      (ks : List Key) (plugin : Content) (sig : SigFile Sig)
      → verify check ks (some plugin) sig ≡ answers true
      → (s : Sig) × (any_key check ks s plugin ≡ true)
  unfolding verify
  verify-any_key [] plugin sig h = cc
  verify-any_key (k ∷ ks) plugin sig h =
      bytes-any_key (k ∷ ks) plugin sig.bytes (verify-answers k ks plugin sig h)

  -- A signature file of a proper size is never refused as oversized.
  verify-fits :
      (ks : List Key) (plugin : Content) (sig : SigFile Sig)
      → FitsSize (some sig)
      → verify check ks (some plugin) sig ≢ oversized
  unfolding verify
  verify-fits [] plugin sig fits h = cc
  verify-fits (k ∷ ks) plugin sig fits h = ground arith

  after_verdict-AllSigned :
      (sig : SigFile Sig) (u : Upload Content Sig) (content : Content) (m : Manager Content)
      → FitsSize (some sig)
      → u.unlinks ≡ true
      → AllSigned m
      → (verdict : Verdict) → verify check keys (some content) sig ≡ verdict
      → AllSigned
          (after_verdict check verdict u
            (record m { files = insert str_dec u.file_name content m.files })).0
  unfolding after_verdict register
  after_verdict-AllSigned sig u content m fits gone h oversized e =
      absurd (verify-fits keys content sig fits e)
  after_verdict-AllSigned sig u content m fits gone h (answers true) e =
      All-insert str_dec (IsSigned check keys) u.file_name content m.files
        (verify-any_key keys content sig e) h
  after_verdict-AllSigned sig u content m fits gone h (answers false) e =
      rw gone (All-erase-insert str_dec (IsSigned check keys) u.file_name content m.files h)

  copy_plugin-AllSigned :
      (sig : SigFile Sig) (u : Upload Content Sig) (o : Copied Content) (m : Manager Content)
      → FitsSize (some sig)
      → IsWhole o
      → u.unlinks ≡ true
      → AllSigned m
      → AllSigned (copy_plugin check (verifies keys sig) u o m).0
  unfolding copy_plugin after_copy
  copy_plugin-AllSigned sig u untouched m fits whole gone h = h
  copy_plugin-AllSigned sig u (partial content) m fits whole gone h = absurd whole
  copy_plugin-AllSigned sig u (complete content) m fits whole gone h =
      after_verdict-AllSigned sig u content m fits gone h (verify check keys (some content) sig)
        refl

  store_plugin-AllSigned :
      (sig : SigFile Sig) (u : Upload Content Sig) (m : Manager Content)
      → FitsSize (some sig)
      → IsWhole u.copied
      → u.unlinks ≡ true
      → AllSigned m
      → AllSigned (store_plugin check (verifies keys sig) u m).0
  unfolding store_plugin
  store_plugin-AllSigned sig u m fits whole gone h =
      if-either (λ (r : Manager Content × Option Failure). AllSigned r.0)
        (ltb max_plugin_size u.size) _ (copy_plugin check (verifies keys sig) u u.copied m) h
        (copy_plugin-AllSigned sig u u.copied m fits whole gone h)

  demanded-AllSigned :
      (o : Option (SigFile Sig)) (u : Upload Content Sig) (m : Manager Content)
      → c.require_signature ≡ true
      → c.verifier ≡ some keys
      → FitsSize o
      → IsWhole u.copied
      → u.unlinks ≡ true
      → AllSigned m
      → AllSigned (checked_store check (demand check c true o) u m).0
  unfolding demand checked_store
  demanded-AllSigned none u m r v fits whole gone h = rw (r, v) h
  demanded-AllSigned (some sig) u m r v fits whole gone h =
      rw (r, v) (store_plugin-AllSigned sig u m fits whole gone h)

  install-AllSigned :
      (u : Upload Content Sig) (m : Manager Content)
      → c.require_signature ≡ true
      → c.verifier ≡ some keys
      → FitsSize u.signature
      → IsWhole u.copied
      → u.unlinks ≡ true
      → AllSigned m
      → AllSigned (install check is_identifier is_keyword c true u m).0
  unfolding install
  install-AllSigned u m r v fits whole gone h =
      let P = λ (r : Manager Content × Option Failure). AllSigned r.0 in
      if-either P (not u.exists) _ _ h (
        if-either P (not (is_plugin_name check is_identifier is_keyword c u.stem)) _ _ h (
          if-either P (is_reserved u.stem) _ _ h
            (demanded-AllSigned u.signature u m r v fits whole gone h)))

  -- The other operations write no file.
  stop_sandbox-files : (name : String) (m : Manager Content) → (stop_sandbox name m).files ≡ m.files
  unfolding stop_sandbox
  stop_sandbox-files name m = ground arith

  enable-files :
      (name : String) (started : Start) (m : Manager Content)
      → (enable name started m).0.files ≡ m.files
  unfolding enable start_plugin
  enable-files name (starts pid) m = ground arith
  enable-files name (raises text) m = ground arith

  disable-files : (name : String) (m : Manager Content) → (disable name m).0.files ≡ m.files
  unfolding disable
  disable-files name m = ground (arith, stop_sandbox-files name m)

  delete_found :
      (name : String) (info : PluginInfo) (unlinks : Bool) (m : Manager Content)
      → AllSigned m
      → All (IsSigned check keys) (
          if unlinks
          then erase str_dec info.path (stop_sandbox name m).files
          else (stop_sandbox name m).files)
  delete_found name info unlinks m h = rw (stop_sandbox-files name m) (
      if-either (All (IsSigned check keys)) unlinks _ m.files
        (All-erase str_dec (IsSigned check keys) info.path m.files h) h)

  delete-AllSigned :
      (name : String) (unlinks : Bool) (m : Manager Content)
      → AllSigned m
      → AllSigned (delete name unlinks m).0
  unfolding delete
  delete-AllSigned name unlinks m h = elim (Option-cases (lookup str_dec name m.plugins)) [
    | inl e ↦ rw (e, delete) h
    | inr (info, e) ↦ rw (e, delete) (delete_found name info unlinks m h)
  ]

  serve-AllSigned :
      (r : Request check is_identifier is_keyword c) (m : Manager Content)
      → c.require_signature ≡ true
      → c.verifier ≡ some keys
      → IsCareful r
      → AllSigned m
      → AllSigned (serve check is_identifier is_keyword c r m).0
  unfolding serve
  serve-AllSigned (installs true u) m r v k h = install-AllSigned u m r v k.1 k.2 k.3 h
  serve-AllSigned (installs false u) m r v k h = cc
  serve-AllSigned (enables name started) m r v k h =
      subst (All (IsSigned check keys)) (sym (enable-files name started m)) h
  serve-AllSigned (disables name) m r v k h =
      subst (All (IsSigned check keys)) (sym (disable-files name m)) h
  serve-AllSigned (deletes name unlinks) m r v k h = delete-AllSigned name unlinks m h

  -- With signatures required and a list of trusted keys, and every installation verified, with
  -- no oversized signature file, a copy that is written in full or not at all, and can be
  -- removed again: if all files of the plugins' directory are signed with one of the keys, they
  -- are after any installations, starts, stops and removals.
  pub serve_plugins-AllSigned :
      (rs : List (Request check is_identifier is_keyword c)) (m : Manager Content)
      → c.require_signature ≡ true
      → c.verifier ≡ some keys
      → All IsCareful rs
      → AllSigned m
      → AllSigned (serve_plugins check is_identifier is_keyword c rs m)
  unfolding serve_plugins
  serve_plugins-AllSigned [] m r v k h = h
  serve_plugins-AllSigned (x ∷ xs) m r v k h =
      serve_plugins-AllSigned xs (serve check is_identifier is_keyword c x m).0 r v k.1
        (serve-AllSigned x m r v k.0 h)
