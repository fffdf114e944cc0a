-- ===== src/Ingest/Normalizer.antt =====
-- NormalizerEngine of server/oseye/normalizer/engine.py. The adapters are functions that may
-- raise; `str.lower`, the parser of UUIDs and the bus are parameters.
pub mod Routes
pub mod Runner
use oseye_plateforme.Prelude.{
  ℕ, ◌+◌, Bool, true, false, not, Option, none, some, List, [], ◌∷◌, ◌++◌, String, ltb,
  if◌then◌else◌, text_pair_dec, Dict, lookup, insert,
}
use oseye_plateforme.Prelude.Int.{ℤ, pos, negsuc, is_positive}

-- The fields of a UniversalEvent that the engine checks, and the rest.
pub record Event (Rest : Type 0) : Type 0 where
  pub timestamp_ns : ℤ
  pub bytes_sent : Option ℤ
  pub bytes_recv : Option ℤ
  pub dst_port : Option ℤ
  pub src_port : Option ℤ
  pub rest : Rest

abbrev pub max_port : ℕ
max_port = 65535

-- `z < 0`, of an optional number
unfoldable pub is_negative : Option ℤ → Bool
is_negative none = false
is_negative (some (pos n)) = false
is_negative (some (negsuc n)) = true

-- `not (0 <= z <= _MAX_PORT)`, of an optional number
unfoldable pub is_no_port : Option ℤ → Bool
is_no_port none = false
is_no_port (some (pos n)) = ltb max_port n
is_no_port (some (negsuc n)) = true

-- The field that an error message names.
pub data Fault : Type 0 where
  invalid_timestamp negative_sent negative_recv no_dst_port no_src_port : Fault
  bus_publish_failed : Fault

pub record DeadLetter (Payload : Type 0) : Type 0 where
  pub reason : Fault
  pub source : String
  pub os_name : String
  pub agent_id : String
  pub payload : Payload

-- `_validate_event`
unfoldable pub validate_event : {Rest : Type 0} → Event Rest → Option Fault
unfolding is_negative is_no_port
validate_event e =
    if not (is_positive e.timestamp_ns)
    then some invalid_timestamp
    else if is_negative e.bytes_sent
    then some negative_sent
    else if is_negative e.bytes_recv
    then some negative_recv
    else if is_no_port e.dst_port
    then some no_dst_port
    else if is_no_port e.src_port
    then some no_src_port
    else none

abbrev pub Key : Type 0
Key = String × String

-- The systems and sources that `__init__` registers an adapter for.
abbrev pub default_names : List Key
default_names =
    ("linux", "procfs")
    ∷ ("linux", "auditd")
    ∷ ("linux", "ebpf")
    ∷ ("linux", "fanotify")
    ∷ ("linux", "inotify")
    ∷ ("linux", "netlink")
    ∷ ("linux", "journald")
    ∷ ("linux", "syslog")
    ∷ ("linux", "udev")
    ∷ ("windows", "toolhelp32")
    ∷ ("windows", "etw")
    ∷ ("windows", "registry")
    ∷ ("windows", "eventlog")
    ∷ ("windows", "fswatch")
    ∷ ("windows", "winnetstat")
    ∷ ("darwin", "ps")
    ∷ ("darwin", "kqueue")
    ∷ ("darwin", "unifiedlog")
    ∷ ("darwin", "darwinnet")
    ∷ ("darwin", "es")
    ∷ []

module _ (Payload Rest : Type 0) where
  -- A message on `events:normalized` or on `events:dead_letter`.
  pub data Message : Type 0 where
    normalized : Event Rest → Message
    dead_letter : DeadLetter Payload → Message

  -- `adapter(raw_payload, self._hostname, parsed_agent_id)`, with `none` for an exception
  abbrev pub Adapter : Type 0
  Adapter = Payload → String → String → Option (Event Rest)

  -- The engine: the name of the host and the adapters.
  pub record Engine : Type 0 where
    pub hostname : String
    pub adapters : Dict Key Adapter

  -- The arguments of `process`, and whether the bus takes the two messages.
  pub record Call : Type 0 where
    pub raw_payload : Payload
    pub source : String
    pub os_name : String
    pub agent_id : String
    pub published : Bool
    pub dead_published : Bool

  module _ (lower : String → String) (parse_uuid : String → Option String) where
    -- `register_adapter`
    unfoldable pub register_adapter : String → String → Adapter → Engine → Engine
    register_adapter os_name source adapter e = record e {
      adapters = insert text_pair_dec (lower os_name, lower source) adapter e.adapters;
    }

    unfoldable pub register_all : (Key → Adapter) → List Key → Engine → Engine
    unfolding register_adapter
    register_all adapter_of [] e = e
    register_all adapter_of ((os_name, source) ∷ names) e =
        register_all adapter_of names
          (register_adapter os_name source (adapter_of (os_name, source)) e)

    -- `__init__`, with the adapter classes as a function of their names
    unfoldable pub new_engine : (Key → Adapter) → String → Engine
    unfolding register_all
    new_engine adapter_of hostname =
        register_all adapter_of default_names (record { hostname = hostname; adapters = [] })

    -- `register_package`: the sources of the classes of a package, each with its instance where
    -- the constructor does not raise; the number of those registered.
    unfoldable pub register_package : String → List (String × Option Adapter) → Engine → Engine × ℕ
    unfolding register_adapter
    register_package os_name [] e = (e, 0)
    register_package os_name ((source, none) ∷ rest) e = register_package os_name rest e
    register_package os_name ((source, some adapter) ∷ rest) e =
        let (e', count) =
          register_package os_name rest (register_adapter os_name source adapter e) in
        (e', count + 1)

    -- What the adapter of a call gives; `none` where it is missing, where the identifier is no
    -- UUID, and where it raises.
    unfoldable pub adapt : Option Adapter → String → Call → Option (Event Rest)
    adapt none hostname c = none
    adapt (some adapter) hostname c = elim (parse_uuid c.agent_id) [
      | none ↦ none
      | some agent_id ↦ adapter c.raw_payload hostname agent_id
    ]

    -- `_send_dead_letter`: an exception of the bus is swallowed.
    unfoldable pub send_dead_letter : Fault → Call → List Message
    send_dead_letter reason c =
        if c.dead_published
        then dead_letter (record {
          reason = reason;
          source = c.source;
          os_name = c.os_name;
          agent_id = c.agent_id;
          payload = c.raw_payload;
        })
          ∷ []
        else []

    unfoldable pub publish_event :
        Option Fault → Event Rest → Call → Option (Event Rest) × List Message
    unfolding send_dead_letter
    publish_event (some fault) e c = (none, send_dead_letter fault c)
    publish_event none e c =
        (some e, if c.published then normalized e ∷ [] else send_dead_letter bus_publish_failed c)

    unfoldable pub route : Option (Event Rest) → Call → Option (Event Rest) × List Message
    unfolding publish_event validate_event
    route none c = (none, [])
    route (some e) c = publish_event (validate_event e) e c

    -- `process`: the event that it returns, and what it sends.
    unfoldable pub process : Engine → Call → Option (Event Rest) × List Message
    unfolding adapt route
    process engine c =
        route
          (adapt (lookup text_pair_dec (lower c.os_name, lower c.source) engine.adapters)
            engine.hostname c)
          c

    -- The call of `_normalizer_loop` of server/oseye/workers/runner.py, with the part of the topic
    -- that names the agent.
    unfoldable pub runner_call : Payload → String → Bool → Bool → Call
    runner_call payload agent published dead_published = record {
      raw_payload = payload;
      source = "grpc";
      os_name = "linux";
      agent_id = agent;
      published = published;
      dead_published = dead_published;
    }

    -- The loop over the messages: what it sends.
    unfoldable pub run_normalizer : Engine → List Call → List Message
    unfolding process
    run_normalizer engine [] = []
    run_normalizer engine (c ∷ cs) = (process engine c).1 ++ run_normalizer engine cs
