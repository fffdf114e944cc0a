-- ===== src/Plugins/Found.antt =====
-- What the checks of server/oseye/plugin/manager.py let through.
use oseye_plateforme.Prelude.{
  ℕ, ◌≤◌, ◌<◌, ◌≡◌, refl, ◌∙◌, inl, inr, Bool, true, false, none, some, List, [], ◌∷◌, String,
  arith, Option-cases, if-either, All-insert, contains-insert, str_dec, All, Dict, lookup, contains,
  insert, lookup-insert_self,
}
use oseye_plateforme.Plugins.Verifier.{SigFile, oversized, max_signature_size, verify}
use oseye_plateforme.Plugins.{
  complete, Upload, oversized_signature, Manager, Config, PluginInfo, starts, is_running,
  max_plugin_size, is_reserved, verifies, demand, after_copy, after_verdict, copy_plugin,
  store_plugin, checked_store, start_plugin, enable, is_plugin_name, is_module_name, install,
  discovered, discover_one, discover,
}

module _ {Content Sig Key : Type 0} (check : Key → Sig → Content → Bool)
    (is_identifier is_keyword : String → Bool) (c : Config Key) where
  install_named :
      (u : Upload Content Sig) (m : Manager Content)
      → u.exists ≡ true
      → is_plugin_name check is_identifier is_keyword c u.stem ≡ true
      → is_reserved u.stem ≡ false
      → install check is_identifier is_keyword c true u m
        ≡ checked_store check (demand check c true u.signature) u m
  unfolding install
  install_named u m there named free = rw (there, named, free)

  verify_over :
      (k : Key) (ks : List Key) (sig : SigFile Sig) (size : ℕ) (content : Content)
      → sig.size ≡ some size
      → max_signature_size < size
      → verify check (k ∷ ks) (some content) sig ≡ oversized
  unfolding verify
  verify_over k ks sig size content long over = ground arith

  demand_signed :
      (keys : List Key) (sig : SigFile Sig)
      → c.require_signature ≡ true
      → c.verifier ≡ some keys
      → demand check c true (some sig) ≡ verifies keys sig
  unfolding demand
  demand_signed keys sig r v = rw (r, v)

  -- With signatures required and a trusted key, a verified installation of a file with an
  -- accepted name and size, which can be copied, and with an oversized signature file, raises,
  -- and leaves the copy in the plugins' directory; nothing is registered.
  pub install_oversized :
      (k : Key) (ks : List Key) (sig : SigFile Sig) (size : ℕ) (content : Content)
      (u : Upload Content Sig) (m : Manager Content)
      → c.require_signature ≡ true
      → c.verifier ≡ some (k ∷ ks)
      → u.exists ≡ true
      → is_plugin_name check is_identifier is_keyword c u.stem ≡ true
      → is_reserved u.stem ≡ false
      → u.size ≤ max_plugin_size
      → u.copied ≡ complete content
      → u.signature ≡ some sig
      → sig.size ≡ some size
      → max_signature_size < size
      → install check is_identifier is_keyword c true u m ≡ (
        record m { files = insert str_dec u.file_name content m.files },
        some oversized_signature,
      )
  unfolding checked_store store_plugin copy_plugin after_copy after_verdict
  install_oversized k ks sig size content u m r v there named free small copy signed long over =
      install_named u m there named free
      ∙ rw
          (
            signed,
            demand_signed (k ∷ ks) sig r v,
            copy,
            verify_over k ks sig size content long over,
          )
          (ground arith)

  abbrev AllIdle : Dict String PluginInfo → Type 0
  AllIdle ps = All (λ (e : String × PluginInfo). is_running e.1.status ≡ false) ps

  discovered-idle :
      (u : Upload Content Sig)
      → is_running (discovered check is_identifier is_keyword c u).0 ≡ false
  unfolding discovered is_running
  discovered-idle u = ground arith

  discover_one-AllIdle :
      (u : Upload Content Sig) (ps : Dict String PluginInfo)
      → AllIdle ps
      → AllIdle (discover_one check is_identifier is_keyword c u ps)
  unfolding discover_one
  discover_one-AllIdle u ps h =
      if-either AllIdle (is_module_name check is_identifier is_keyword c u.stem) _ ps
        (All-insert str_dec (λ (e : String × PluginInfo). is_running e.1.status ≡ false) u.stem _ ps
          (discovered-idle u) h)
        h

  discover-AllIdle :
      (us : List (Upload Content Sig)) (ps : Dict String PluginInfo)
      → AllIdle ps
      → AllIdle (discover check is_identifier is_keyword c us ps)
  unfolding discover
  discover-AllIdle [] ps h = h
  discover-AllIdle (u ∷ us) ps h = discover-AllIdle us _ (discover_one-AllIdle u ps h)

  lookup-AllIdle :
      (name : String) (info : PluginInfo) (ps : Dict String PluginInfo)
      → AllIdle ps
      → lookup str_dec name ps ≡ some info
      → is_running info.status ≡ false
  lookup-AllIdle name info [] h e = cc
  lookup-AllIdle name info ((k, i) ∷ ps) h e = ground (arith, lookup-AllIdle name info ps h.1)

  contains-discover :
      (name : String) (us : List (Upload Content Sig)) (ps : Dict String PluginInfo)
      → contains str_dec name ps ≡ true
      → contains str_dec name (discover check is_identifier is_keyword c us ps) ≡ true
  unfolding discover discover_one
  contains-discover name [] ps h = h
  contains-discover name (u ∷ us) ps h = contains-discover name us _ (
      if-either (λ (d : Dict String PluginInfo). contains str_dec name d ≡ true)
        (is_module_name check is_identifier is_keyword c u.stem) _ ps
        (contains-insert str_dec name u.stem _ ps h) h)

  -- Whether a start of a plugin, whatever process the sandbox gives, is let through.
  abbrev pub Startable : Dict String PluginInfo → Upload Content Sig → Type 0
  Startable ps u =
      is_module_name check is_identifier is_keyword c u.stem ≡ true
      → (pid : ℕ) (m : Manager Content) → m.plugins ≡ ps
      → ((enable u.stem (starts pid) m).1 ≡ none)
        × ((enable u.stem (starts pid) m).0.processes ≡ pid ∷ m.processes)

  found-Startable :
      (name : String) (ps : Dict String PluginInfo) (pid : ℕ) (m : Manager Content)
      → AllIdle ps
      → contains str_dec name ps ≡ true
      → m.plugins ≡ ps
      → ((enable name (starts pid) m).1 ≡ none)
        × ((enable name (starts pid) m).0.processes ≡ pid ∷ m.processes)
  unfolding enable start_plugin
  found-Startable name ps pid m idle there e = elim (Option-cases (lookup str_dec name ps)) [
    | inl missing ↦ cc
    | inr (info, found) ↦ ground (arith, lookup-AllIdle name info ps idle found)
  ]

  contains_discovered :
      (u : Upload Content Sig) (ps : Dict String PluginInfo)
      → is_module_name check is_identifier is_keyword c u.stem ≡ true
      → contains str_dec u.stem (discover_one check is_identifier is_keyword c u ps) ≡ true
  unfolding discover_one
  contains_discovered u ps h = rw (h, lookup-insert_self str_dec u.stem _ ps) refl

  discover_from-Startable :
      (us : List (Upload Content Sig)) (ps : Dict String PluginInfo)
      → AllIdle ps
      → All (Startable (discover check is_identifier is_keyword c us ps)) us
  unfolding discover
  discover_from-Startable [] ps h = tt
  discover_from-Startable (u ∷ us) ps h =
      let ps' = discover_one check is_identifier is_keyword c u ps in
      let idle = discover_one-AllIdle u ps h in
      (
        λ named pid m e.
            found-Startable u.stem _ pid m (discover-AllIdle us ps' idle)
              (contains-discover u.stem us ps' (contains_discovered u ps named)) e,
        discover_from-Startable us ps' idle,
      )

  -- Every file that discovery takes, also one that it registers as failed for its signature,
  -- can be started on the registry that discovery leaves: enable runs the process that the
  -- sandbox gives.
  pub discover-Startable :
      (us : List (Upload Content Sig))
      → All (Startable (discover check is_identifier is_keyword c us [])) us
  discover-Startable us = discover_from-Startable us [] tt
