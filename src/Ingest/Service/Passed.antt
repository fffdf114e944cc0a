-- ===== src/Ingest/Service/Passed.antt =====
-- What the event stream of server/oseye/ingest/grpc_service.py publishes of one batch.
use oseye_plateforme.Prelude.{
  ℕ, ◌+◌, ◌≡◌, refl, Bool, true, false, Option, none, some, List, [], ◌∷◌, String, arith,
  if◌then◌else◌, All, elem, Dict, ℕ_discrete,
}
use mathlib.Core.List.{Memᴰ}
use oseye_plateforme.Ingest.Validator.{Event, range_from, missing}
use oseye_plateforme.Ingest.Validator.Flags.{flags}
use oseye_plateforme.Ingest.Service.{
  Bridge, UniversalEvent, agent_id_of, pb_to_event, is_health, store_health, collect,
}

module _ (b : Bridge) where
  open b use {Uuid, Body, Health, parse_uuid, uuid5, fields_of, read_health}

  -- The event stands for one of the messages, which has the required fields, and bears the
  -- identifier of the certificate's name.
  abbrev pub IsSound : String → List Event → UniversalEvent b → Type 0
  IsSound cn evs e =
      (e.agent_id ≡ agent_id_of b cn)
      × ((ev : Event) × ((Memᴰ ev evs) × ((missing ev ≡ []) × (fields_of ev ≡ some e.body))))

  pb_to_event-IsSound :
      (cn : String) (ev : Event) (evs : List Event) (e : UniversalEvent b)
      → pb_to_event b cn ev ≡ some e
      → missing ev ≡ []
      → IsSound cn (ev ∷ evs) e
  unfolding pb_to_event
  pb_to_event-IsSound cn ev evs e made full =
      (ground arith, (ev, (Memᴰ.head refl, (full, ground arith))))

  tail-IsSound :
      (cn : String) (ev : Event) (evs : List Event) (es : List (UniversalEvent b))
      → All (IsSound cn evs) es
      → All (IsSound cn (ev ∷ evs)) es
  tail-IsSound cn ev evs [] h = tt
  tail-IsSound cn ev evs (e ∷ es) ((own, (of, (m, rest))), h) =
      ((own, (of, (Memᴰ.tail m, rest))), tail-IsSound cn ev evs es h)

  -- Where every index is rejected, nothing is left.
  pub collect_none :
      (cn : String) (rejected : List ℕ) (i : ℕ) (evs : List Event) (healths : Dict String Health)
      → ((n : ℕ) → elem ℕ_discrete n (range_from i evs) ≡ true → elem ℕ_discrete n rejected ≡ true)
      → (collect b cn rejected i evs healths).1 ≡ some []
  unfolding collect
  collect_none cn rejected i [] healths h = refl
  collect_none cn rejected i (ev ∷ evs) healths h =
      ground (arith, h i, collect_none cn rejected (i + 1) evs healths (λ n e. h n (ground arith)))

  -- What a loop over a batch publishes is sound.
  abbrev pub AreSound : String → List Event → Option (List (UniversalEvent b)) → Type 0
  AreSound cn evs none = Unit
  AreSound cn evs (some es) = All (IsSound cn evs) es

  tail-AreSound :
      (cn : String) (ev : Event) (evs : List Event) (o : Option (List (UniversalEvent b)))
      → AreSound cn evs o
      → AreSound cn (ev ∷ evs) o
  tail-AreSound cn ev evs none h = tt
  tail-AreSound cn ev evs (some es) h = tail-IsSound cn ev evs es h

  round-AreSound :
      (cn : String) (evs : List Event) (skips is_snapshot : Bool) (healths : Dict String Health)
      (skipped stored : Dict String Health × Option (List (UniversalEvent b)))
      (o : Option (UniversalEvent b))
      → AreSound cn evs skipped.1
      → AreSound cn evs stored.1
      → ((e : UniversalEvent b) → o ≡ some e → skips ≡ false → IsSound cn evs e)
      → AreSound cn evs (
          (if◌then◌else◌ {A = Dict String Health × Option (List (UniversalEvent b))} skips skipped (
            if is_snapshot then stored else elim o [
              | none ↦ (healths, none)
              | some event ↦ elim skipped.1 [
                | none ↦ skipped
                | some events ↦ (skipped.0, some (event ∷ events))
              ]
            ])).1)
  round-AreSound cn evs true is_snapshot healths skipped stored o h k new = h
  round-AreSound cn evs false true healths skipped stored o h k new = k
  round-AreSound cn evs false false healths skipped stored none h k new = tt
  round-AreSound cn evs false false healths (rest, none) stored (some e) h k new = tt
  round-AreSound cn evs false false healths (rest, some es) stored (some e) h k new =
      (new e refl refl, h)

  -- Where the events that lack a field are rejected, the others are sound.
  pub collect-AreSound :
      (cn : String) (rejected : List ℕ) (i : ℕ) (evs : List Event) (healths : Dict String Health)
      → ((n : ℕ) → elem ℕ_discrete n (flags i evs) ≡ true → elem ℕ_discrete n rejected ≡ true)
      → AreSound cn evs (collect b cn rejected i evs healths).1
  unfolding collect
  collect-AreSound cn rejected i [] healths h = tt
  collect-AreSound cn rejected i (ev ∷ evs) healths h =
      round-AreSound cn (ev ∷ evs) (elem ℕ_discrete i rejected) (is_health b ev) healths
        (collect b cn rejected (i + 1) evs healths)
        (collect b cn rejected (i + 1) evs (store_health b cn ev healths)) (pb_to_event b cn ev)
        (tail-AreSound cn ev evs _ (collect-AreSound cn rejected (i + 1) evs healths later))
        (tail-AreSound cn ev evs _
          (collect-AreSound cn rejected (i + 1) evs (store_health b cn ev healths) later))
        (λ e made kept. pb_to_event-IsSound cn ev evs e made (ground (arith, h i)))
    where
      later :
          (n : ℕ) → elem ℕ_discrete n (flags (i + 1) evs) ≡ true → elem ℕ_discrete n rejected ≡ true
      later n e = h n (ground arith)
