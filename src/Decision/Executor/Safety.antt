-- ===== src/Decision/Executor/Safety.antt =====
-- Which commands the executor of server/oseye/decision/action_executor.py can send.
use oseye_plateforme.Prelude.{
  All-append, ℕ, ◌≡◌, refl, ◌≢◌, inl, inr, Bool, true, false, Option, none, some, [], String, arith,
  ◌==◌, Bool-cases, Option-cases, All, if-either, if◌then◌else◌,
}
use Prim.Native.String.{◌++◌ as append_text}
use oseye_plateforme.Prelude.Floats.{Floats}
use oseye_plateforme.Decision.Types.{
  approved, tag, includes, ignore, isolate, investigate, collect_more, notify, Decision,
}
use oseye_plateforme.Decision.Executor.{
  Address, Alert, Command, block_ip, Message, decision_event, agent_command, snapshot_request,
  collect_request, notification, Effect, published, Services, Run, ◌then_run◌, skip, when,
  is_safe_id, is_empty, publish, send_command, is_protected, extract_dst_ip, extract_process,
  block_address, run_isolate, request_collection, effective_types, publish_decision, execute,
  execute_after_approval,
}

module _ (services : Services) where
  open services use {bus_takes, has_repository, parse_ip}

  -- An address outside the ranges that are never blocked.
  abbrev pub IsPublic : Address → Type 0
  IsPublic a =
      (a.is_loopback ≡ false)
      × (a.is_link_local ≡ false)
      × (a.is_unspecified ≡ false)
      × (a.is_private ≡ false)
      × (a.is_multicast ≡ false)
      × (a.is_reserved ≡ false)

  is_protected-IsPublic : (a : Address) → is_protected services a ≡ false → IsPublic a
  unfolding is_protected
  is_protected-IsPublic a h = ground arith

  -- A command that `execute` may send for an agent: a block of an address that parses and is not
  -- protected, on the topic of the agent, whose name is safe.
  abbrev pub IsBlock : String → String → Command → Type 0
  IsBlock cn topic (block_ip ip) =
      (topic ≡ append_text "commands:" cn)
      × (is_safe_id cn ≡ true)
      × ((a : Address) × (parse_ip ip ≡ some a) × IsPublic a)
  IsBlock cn topic _ = ⊥

  abbrev pub IsAllowed : String → Effect → Type 0
  IsAllowed cn (published topic (agent_command id command)) = IsBlock cn topic command
  IsAllowed cn (published topic _) = Unit

  All-then : (P : Effect → Type 0) (r s : Run) → All P r.0 → All P s.0 → All P (r then_run s).0
  All-then P (es, true) s h k = h
  All-then P (es, false) (fs, b) h k = All-append P es fs h k

  All-when : (P : Effect → Type 0) (b : Bool) (r : Run) → All P r.0 → All P (when b r).0
  All-when P true r h = h
  All-when P false r h = tt

  -- What follows a command that was sent or not.
  record_action : String → Option ℕ → Run
  record_action cn none = skip
  record_action cn (some id) = if has_repository then ([], true) else skip

  record_action-IsAllowed :
      (cn : String) (sent : Option ℕ) → All (IsAllowed cn) (record_action cn sent).0
  unfolding record_action
  record_action-IsAllowed cn none = tt
  record_action-IsAllowed cn (some id) =
      if-either (λ (r : Run). All (IsAllowed cn) r.0) has_repository ([], true) skip tt tt

  send_block-IsAllowed :
      (cn ip : String) (a : Address) (id : ℕ)
      → parse_ip ip ≡ some a
      → is_protected services a ≡ false
      → All (IsAllowed cn) (send_command services cn (block_ip ip) id).0.0
  unfolding send_command
  send_block-IsAllowed cn ip a id parsed free = elim (Bool-cases (is_safe_id cn)) [
    | inr bad ↦ rw bad tt
    | inl safe ↦ rw safe (elim (Bool-cases (bus_takes (append_text "commands:" cn))) [
      | inl up ↦ rw up ((refl, safe, (a, parsed, is_protected-IsPublic a free)), tt)
      | inr down ↦ rw down tt
    ])
  ]

  block_address-IsAllowed :
      (cn : String) (ip : Option String) (id : ℕ)
      → All (IsAllowed cn) (block_address services cn ip id).0.0
  unfolding block_address
  block_address-IsAllowed cn none id = tt
  block_address-IsAllowed cn (some ip) id = elim (Bool-cases (is_empty ip)) [
    | inl empty ↦ rw empty tt
    | inr given ↦ rw given (elim (Option-cases (parse_ip ip)) [
      | inl bad ↦ rw (bad, block_address) tt
      | inr (a, parsed) ↦
          rw (parsed, block_address)
            (elim (Bool-cases (is_protected services a)) [
              | inl kept ↦ rw kept tt
              | inr free ↦ rw free (send_block-IsAllowed cn ip a id parsed free)
            ])
    ])
  ]

  run_isolate-IsAllowed :
      (cn : String) (alert : Option Alert) (id : ℕ)
      → All (IsAllowed cn) (run_isolate services cn alert id).0
  unfolding run_isolate record_action
  run_isolate-IsAllowed cn alert id =
      let (r, sent) = block_address services cn (extract_dst_ip services alert) id in
      All-then (IsAllowed cn) r (record_action cn sent)
        (block_address-IsAllowed cn (extract_dst_ip services alert) id)
        (record_action-IsAllowed cn sent)

  abbrev is_command : Message → Bool
  is_command (agent_command id c) = true
  is_command _ = false

  -- Other messages than commands may always go out.
  other-IsAllowed :
      (cn topic : String) (m : Message) → is_command m ≡ false → IsAllowed cn (published topic m)
  other-IsAllowed cn topic (decision_event id) h = tt
  other-IsAllowed cn topic (agent_command id c) h = absurd (ground arith)
  other-IsAllowed cn topic snapshot_request h = tt
  other-IsAllowed cn topic collect_request h = tt
  other-IsAllowed cn topic notification h = tt

  module _ (P : Effect → Type 0)
      (others : (topic : String) (m : Message) → is_command m ≡ false → P (published topic m)) where
    All-publish :
        (topic : String) (m : Message) → is_command m ≡ false → All P (publish services topic m).0
    unfolding publish
    All-publish topic m h = elim (Bool-cases (bus_takes topic)) [
      | inl up ↦ rw up (others topic m h, tt)
      | inr down ↦ rw down tt
    ]

    All-request_collection : (cn : String) → All P (request_collection services cn).0
    unfolding request_collection
    All-request_collection cn = elim (Bool-cases (is_safe_id cn)) [
      | inl safe ↦ rw safe (All-publish _ collect_request refl)
      | inr bad ↦ rw bad tt
    ]

    -- What holds of every message but the commands, and of what an isolation does, holds of all
    -- that `execute` does.
    All-execute :
        {f : Floats} (d : Decision f) (alert : Option Alert) (id : ℕ)
        → All P (run_isolate services d.fields.entity_id alert id).0
        → All P (execute services d alert id).0
    unfolding execute publish_decision
    All-execute d alert id h =
        let types = effective_types services d in
        elim (Bool-cases (tag d.fields.decision_type == tag ignore)) [
          | inl off ↦ rw off tt
          | inr on ↦ rw on (
              All-then P _ _ (All-publish _ (decision_event d.fields.decision_id) refl) (
                All-then P _ _ (All-when P (includes isolate types) _ h) (
                  All-then P _ _
                    (All-when P (includes investigate types) _
                      (All-publish _ snapshot_request refl))
                    (All-then P _ _
                      (All-when P (includes collect_more types) _ (All-request_collection _))
                      (All-when P (includes notify types) _ (All-publish _ notification refl))))))
        ]

  -- A command.
  abbrev pub is_response : Effect → Bool
  is_response (published topic (agent_command id c)) = true
  is_response (published topic _) = false

  other_no_response :
      (topic : String) (m : Message)
      → is_command m ≡ false
      → is_response (published topic m) ≡ false
  other_no_response topic (decision_event id) h = refl
  other_no_response topic (agent_command id c) h = h
  other_no_response topic snapshot_request h = refl
  other_no_response topic collect_request h = refl
  other_no_response topic notification h = refl

  isolate_without_alert : (cn : String) (id : ℕ) → run_isolate services cn none id ≡ skip
  unfolding run_isolate block_address extract_dst_ip
  isolate_without_alert cn id = refl

  module _ {f : Floats} (d : Decision f) where
    -- Whatever the decision, the alert and the state of the services, every command that `execute`
    -- sends is a block of an address that parses and is neither loopback, link-local, unspecified,
    -- private, multicast nor reserved, on the topic of the decision's entity, whose name is a safe
    -- one. No process is killed and nothing rolled back.
    pub execute-IsAllowed :
        (alert : Option Alert) (id : ℕ)
        → All (IsAllowed d.fields.entity_id) (execute services d alert id).0
    execute-IsAllowed alert id =
        let cn = d.fields.entity_id in
        All-execute (IsAllowed cn) (other-IsAllowed cn) d alert id
          (run_isolate-IsAllowed cn alert id)

    -- Without an alert `execute` sends no command, whatever the decision says.
    pub execute_without_alert :
        (id : ℕ) → All (λ e. is_response e ≡ false) (execute services d none id).0
    execute_without_alert id =
        All-execute (λ e. is_response e ≡ false) other_no_response d none id
          (rw (isolate_without_alert d.fields.entity_id id) tt)

    -- Nothing is sent after an approval unless the decision asks for a human and was approved, and
    -- the alert names a process.
    pub execute_after_approval_needs :
        (alert : Option Alert) (id : ℕ)
        → (execute_after_approval services d alert id).0 ≢ []
        → (d.requires_human ≡ true)
          × (d.human_decision ≡ some approved)
          × ((pid : ℕ) × ((extract_process services alert).0 ≡ some pid))
    unfolding execute_after_approval
    execute_after_approval_needs alert id h = ground arith
