-- ===== src/Tests/Normalizing.antt =====
-- A payload through server/oseye/normalizer/engine.py.
use oseye_plateforme.Prelude.{ℕ, refl, true, Option, none, some, String, text_pair_dec, lookup}
use oseye_plateforme.Prelude.Int.{pos}
use oseye_plateforme.Ingest.Normalizer.{Event, Engine, Call, new_engine, process}
use oseye_plateforme.Ingest.Normalizer.Routes.{Sent, process-Routed}

-- An adapter that takes the payload for the time, and leaves a port out of range.
abbrev adapter : ℕ → String → String → Option (Event String)
adapter payload hostname agent_id = some (record {
  timestamp_ns = pos payload;
  bytes_sent = none;
  bytes_recv = some (pos 12);
  dst_port = some (pos 70000);
  src_port = none;
  rest = agent_id;
})

abbrev same : String → String
same s = s

abbrev parse_uuid : String → Option String
parse_uuid s = some s

abbrev engine : Engine ℕ String
engine = new_engine ℕ String same parse_uuid (λ k. adapter) "server"

abbrev call : Call ℕ String
call = record {
  raw_payload = 4;
  source = "syslog";
  os_name = "linux";
  agent_id = "a-1";
  published = true;
  dead_published = true;
}

process-Routed_example :
    Sent same parse_uuid
      (lookup text_pair_dec ("linux", "syslog") engine.adapters)
      (parse_uuid "a-1")
      engine.hostname
      call
      (process ℕ String same parse_uuid engine call).1
process-Routed_example = process-Routed same parse_uuid engine call refl
