-- ===== src/Decision/Executor.antt =====
-- ActionExecutor of server/oseye/decision/action_executor.py. What it sends is a list of effects.
-- The event bus, the parser of IP addresses and the fresh command identifier are parameters.
pub mod Safety
use oseye_plateforme.Prelude.{
  ℕ, ite, Bool, true, false, not, ◌&&◌, ◌||◌, Option, none, some, List, [], ◌∷◌, ◌++◌, String, leb,
  ◌==◌, if◌then◌else◌, str_dec, length, all, codes,
}
use Prim.Native.String.{◌++◌ as append_text}
use oseye_plateforme.Prelude.Floats.{Floats}
use oseye_plateforme.Decision.Types.{
  DecisionType, Outcome, approved, tag, includes, ignore, escalate, request_human, isolate,
  investigate, collect_more, notify, Decision,
}

-- The properties of an address of Python's `ipaddress`.
pub record Address : Type 0 where
  pub is_loopback : Bool
  pub is_link_local : Bool
  pub is_unspecified : Bool
  pub is_private : Bool
  pub is_multicast : Bool
  pub is_reserved : Bool

-- The context that an alert lends to a command.
pub record Alert : Type 0 where
  pub dst_ip : Option String
  pub pid : Option ℕ
  pub process_name : String

pub data Command : Type 0 where
  block_ip : String → Command
  kill_process : ℕ → String → Command
  unblock_ip restore_file : Command

-- What goes over the bus: a decision, a command with its identifier, a request for a forensic
-- snapshot or for more collection, a notification.
pub data Message : Type 0 where
  decision_event : ℕ → Message
  agent_command : ℕ → Command → Message
  snapshot_request collect_request notification : Message

pub data Effect : Type 0 where
  published : String → Message → Effect

-- What the executor uses: which topics the bus takes, whether it has a repository of response
-- actions, and how a text reads as an address.
pub record Services : Type 0 where
  pub bus_takes : String → Bool
  pub has_repository : Bool
  pub parse_ip : String → Option Address

-- The effects of a part of a method, and whether it raised: a `ValueError`, or the `ImportError`
-- of `run_isolate`.
abbrev pub Run : Type 0
Run = List Effect × Bool

infixr 20 ◌then_run◌
abbrev pub ◌then_run◌ : Run → Run → Run
(es, true) then_run r = (es, true)
(es, false) then_run (fs, raised) = (es ++ fs, raised)

abbrev pub skip : Run
skip = ([], false)

abbrev pub when : Bool → Run → Run
when b r = if b then r else skip

is_safe_char : ℕ → Bool
is_safe_char c =
    (leb b'a' c && leb c b'z')
    || ((leb b'A' c && leb c b'Z')
        || ((leb b'0' c && leb c b'9') || ((c == b'.') || ((c == b'_') || (c == b'-')))))

is_safe_text : List ℕ → Bool
is_safe_text cs = leb 1 (length cs) && (leb (length cs) 253 && all is_safe_char cs)

-- A text without the line feed that may end it.
drop_newline : List ℕ → List ℕ
drop_newline [] = []
drop_newline (c ∷ []) = if c == 10 then [] else c ∷ []
drop_newline (c ∷ d ∷ cs) = c ∷ drop_newline (d ∷ cs)

-- `_SAFE_ID_RE.match`: its `$` also matches before a line feed at the end.
unfoldable pub is_safe_id : String → Bool
unfolding is_safe_char is_safe_text drop_newline
is_safe_id s = is_safe_text (codes s) || is_safe_text (drop_newline (codes s))

-- A text that Python takes for false.
is_empty : String → Bool
is_empty String.[] = true
is_empty (String.◌∷◌ c s) = false

module _ (services : Services) where
  open services use {bus_takes, has_repository, parse_ip}

  -- A publication whose failure is caught and logged.
  unfoldable pub publish : String → Message → Run
  publish topic message = if bus_takes topic then (published topic message ∷ [], false) else skip

  -- `_send_command`, with the fresh identifier. Before it, `_validate_entity_id` raises on a bad
  -- name. The second part is the identifier, if the command was published.
  unfoldable pub send_command : String → Command → ℕ → Run × Option ℕ
  send_command cn command command_id =
      let topic = append_text "commands:" cn in
      if not (is_safe_id cn)
      then (([], true), none)
      else if bus_takes topic
      then ((published topic (agent_command command_id command) ∷ [], false), some command_id)
      else (skip, none)

  -- The addresses that are never blocked.
  unfoldable pub is_protected : Address → Bool
  is_protected a =
      a.is_loopback
      || (a.is_link_local
          || (a.is_unspecified || (a.is_private || (a.is_multicast || a.is_reserved))))

  -- `_extract_dst_ip`
  unfoldable pub extract_dst_ip : Option Alert → Option String
  extract_dst_ip none = none
  extract_dst_ip (some a) = a.dst_ip

  -- `_extract_process`
  unfoldable pub extract_process : Option Alert → Option ℕ × String
  extract_process none = (none, "")
  extract_process (some a) = (a.pid, a.process_name)

  -- `_emit_block_ip_command` from the address on; the empty text counts as none.
  unfoldable pub block_address : String → Option String → ℕ → Run × Option ℕ
  unfolding send_command is_protected is_empty
  block_address cn none command_id = (skip, none)
  block_address cn (some ip) command_id = if is_empty ip then (skip, none) else elim (parse_ip ip) [
    | none ↦ (skip, none)
    | some a ↦ if is_protected a then (skip, none) else send_command cn (block_ip ip) command_id
  ]

  -- The `ISOLATE` branch of `execute`: the command, and then, with a repository, the import of
  -- `ResponseAction`, a name that storage/models.py does not have. It raises, outside the `try`.
  unfoldable pub run_isolate : String → Option Alert → ℕ → Run
  unfolding block_address extract_dst_ip
  run_isolate cn alert command_id =
      let (r, sent) = block_address cn (extract_dst_ip alert) command_id in
      r then_run elim sent [ none ↦ skip | some id ↦ if has_repository then ([], true) else skip ]

  -- `_request_additional_collection`
  unfoldable pub request_collection : String → Run
  unfolding publish
  request_collection cn =
      if is_safe_id cn then publish (append_text "policy:push:" cn) collect_request else ([], true)

  -- `_emit_kill_process_command`
  unfoldable pub emit_kill_process : String → Option ℕ × String → ℕ → Run
  unfolding send_command
  emit_kill_process cn (none, name) command_id = skip
  emit_kill_process cn (some pid, name) command_id =
      (send_command cn (kill_process pid name) command_id).0

  module _ {f : Floats} where
    -- `decision_types if decision_types else [decision_type]`
    abbrev pub effective_types : Decision f → List DecisionType
    effective_types d = elim d.decision_types [ [] ↦ d.fields.decision_type ∷ [] | t ∷ ts ↦ t ∷ ts ]

    -- The publication of the decision itself.
    unfoldable pub publish_decision : Decision f → Run
    unfolding publish
    publish_decision d =
        let type = d.fields.decision_type in
        publish
          (if (tag type == tag request_human) || (tag type == tag escalate)
            then "decisions:pending"
            else "decisions:completed")
          (decision_event d.fields.decision_id)

    -- `execute`
    unfoldable pub execute : Decision f → Option Alert → ℕ → Run
    unfolding publish_decision run_isolate request_collection
    execute d alert command_id =
        let types = effective_types d in
        if tag d.fields.decision_type == tag ignore
        then skip
        else publish_decision d
          then_run when (includes isolate types) (run_isolate d.fields.entity_id alert command_id)
          then_run when (includes investigate types)
              (publish "forensics:snapshot:request" snapshot_request)
          then_run when (includes collect_more types) (request_collection d.fields.entity_id)
          then_run when (includes notify types) (publish "notifications:pending" notification)

    -- `execute_after_approval`
    unfoldable pub execute_after_approval : Decision f → Option Alert → ℕ → Run
    unfolding emit_kill_process extract_process
    execute_after_approval d alert command_id =
        let is_approved : Bool = elim d.human_decision [ some approved ↦ true | _ ↦ false ] in
        if d.requires_human && not is_approved
        then skip
        else if not d.requires_human
        then skip
        else emit_kill_process d.fields.entity_id (extract_process alert) command_id

  -- `emit_rollback`: the command that undoes one of the given type, if there is one.
  unfoldable pub emit_rollback : String → String → ℕ → Run
  unfolding send_command
  emit_rollback cn command_type command_id =
      ite (str_dec command_type "BLOCK_IP") ((send_command cn unblock_ip command_id).0) (
        ite (str_dec command_type "QUARANTINE_FILE") ((send_command cn restore_file command_id).0)
          skip)
