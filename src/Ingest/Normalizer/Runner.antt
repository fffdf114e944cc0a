-- ===== src/Ingest/Normalizer/Runner.antt =====
-- What the development runner, server/oseye/workers/runner.py, makes of the normalizer.
use oseye_plateforme.Prelude.{
  ◌≡◌, refl, sym, ap, ◌∙◌, ◌≢◌, ite, Bool, true, false, Option, none, List, [], ◌∷◌, map, String,
  arith, text_pair_dec, str_dec, all, All, lookup, lookup-insert_ne,
}
use oseye_plateforme.Ingest.Normalizer.{
  Key, Adapter, Engine, Call, default_names, register_adapter, register_all, new_engine, adapt,
  route, process, runner_call, run_normalizer,
}

-- No adapter is registered for a source.
abbrev names_other : String → List Key → Bool
names_other source names = all (λ (k : Key). ite (str_dec k.1 source) false true) names

head_other : (s source : String) → ite (str_dec s source) false true ≡ true → s ≢ source
head_other s source h = ground arith

-- Names in small letters stand for themselves.
abbrev pub IsPlain : (String → String) → List Key → Type 0
IsPlain lower names = All (λ (k : Key). lower k.1 ≡ k.1) names

grpc_other : names_other "grpc" default_names ≡ true
unfolding str_dec
grpc_other = refl

module _ {Payload Rest : Type 0} (lower : String → String)
    (parse_uuid : String → Option String) where
  lookup-register_all :
      (adapter_of : Key → Adapter Payload Rest) (names : List Key) (os source : String)
      (e : Engine Payload Rest)
      → IsPlain lower names
      → names_other source names ≡ true
      → lookup text_pair_dec
          (os, source)
          (register_all Payload Rest lower parse_uuid adapter_of names e).adapters
        ≡ lookup text_pair_dec (os, source) e.adapters
  unfolding register_all register_adapter
  lookup-register_all adapter_of [] os source e plain other = refl
  lookup-register_all adapter_of ((o, s) ∷ names) os source e plain other =
      let differs : s ≢ source = head_other s source (ground arith) in
      lookup-register_all adapter_of names os source _ plain.1 (ground arith)
      ∙ lookup-insert_ne text_pair_dec (os, source) (lower o, lower s) (adapter_of (o, s))
          e.adapters (λ same. differs (sym (plain.0) ∙ sym (ap (λ (k : Key). k.1) same)))

  nothing_adapted :
      (adapter_of : Key → Adapter Payload Rest) (hostname : String) (os : String)
      → IsPlain lower default_names
      → lookup text_pair_dec
          (os, "grpc")
          (new_engine Payload Rest lower parse_uuid adapter_of hostname).adapters
        ≡ none
  unfolding new_engine
  nothing_adapted adapter_of hostname os plain =
      lookup-register_all adapter_of default_names os "grpc"
        (record { hostname = hostname; adapters = [] }) plain grpc_other

  process_missing :
      (engine : Engine Payload Rest) (c : Call Payload Rest)
      → lookup text_pair_dec (lower c.os_name, lower c.source) engine.adapters ≡ none
      → (process Payload Rest lower parse_uuid engine c).1 ≡ []
  unfolding process route adapt
  process_missing engine c h = rw (h, adapt) refl

  -- A message as the loop of the runner takes it.
  abbrev pub taken : Payload × String × Bool × Bool → Call Payload Rest
  taken m = runner_call Payload Rest lower parse_uuid m.0 m.1 m.2 m.3

  runner_discards_one :
      (adapter_of : Key → Adapter Payload Rest) (hostname : String)
      (m : Payload × String × Bool × Bool)
      → IsPlain lower default_names
      → lower "grpc" ≡ "grpc"
      → (process Payload Rest lower parse_uuid
          (new_engine Payload Rest lower parse_uuid adapter_of hostname)
          (taken m)).1
        ≡ []
  unfolding runner_call
  runner_discards_one adapter_of hostname m plain small =
      let engine = new_engine Payload Rest lower parse_uuid adapter_of hostname in
      process_missing engine (taken m) (
        ap (λ s. lookup text_pair_dec (lower "linux", s) engine.adapters) small
        ∙ nothing_adapted adapter_of hostname (lower "linux") plain)

  pub run_normalizer_discards :
      (adapter_of : Key → Adapter Payload Rest) (hostname : String)
      (ms : List (Payload × String × Bool × Bool))
      → IsPlain lower default_names
      → lower "grpc" ≡ "grpc"
      → run_normalizer Payload Rest lower parse_uuid
          (new_engine Payload Rest lower parse_uuid adapter_of hostname)
          (map taken ms)
        ≡ []
  unfolding run_normalizer
  run_normalizer_discards adapter_of hostname [] plain small = refl
  run_normalizer_discards adapter_of hostname (m ∷ ms) plain small =
      rw (runner_discards_one adapter_of hostname m plain small)
        (run_normalizer_discards adapter_of hostname ms plain small)
