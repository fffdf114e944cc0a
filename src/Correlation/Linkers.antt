-- ===== src/Correlation/Linkers.antt =====
-- The linkers of server/oseye/correlation/linkers: same_host.py, temporal.py, pid_lineage.py and
-- user_activity.py. The file name of a path (`Path(p).name`) is a parameter.
pub mod Hosts
use oseye_plateforme.Prelude.{
  ℕ, ◌+◌, ◌*◌, ite, Bool, true, false, not, ◌&&◌, ◌||◌, List, [], ◌∷◌, ◌++◌, String, ltb, leb, ◌==◌,
  if◌then◌else◌, str_dec, length, keep, any, elem, codes,
}
use oseye_plateforme.Prelude.Floats.{Floats, min}
use oseye_plateforme.Correlation.{
  Severity, medium, severity_order, Alert, Incident, IncidentEvent, Linker,
}

-- `set(xs)`, as the list of its first occurrences
unfoldable pub distinct : List String → List String
distinct [] = []
distinct (x ∷ xs) = if elem str_dec x xs then distinct xs else x ∷ distinct xs

-- `a & b` of two sets
abbrev pub common : List String → List String → List String
common a b = keep (λ x. elem str_dec x b) a

-- Whether the code points start with others, and whether they hold them.
unfoldable pub starts_with : List ℕ → List ℕ → Bool
starts_with [] text = true
starts_with (c ∷ cs) [] = false
starts_with (c ∷ cs) (d ∷ text) = (c == d) && starts_with cs text

unfoldable pub holds : List ℕ → List ℕ → Bool
unfolding starts_with
holds part [] = starts_with part []
holds part (c ∷ text) = starts_with part (c ∷ text) || holds part text

-- `f" {word} " in f" {title} "`
abbrev pub holds_word : List ℕ → List ℕ → Bool
holds_word word title = holds (32 ∷ (word ++ 32 ∷ [])) (32 ∷ (title ++ 32 ∷ []))

-- `_KILL_CHAIN_SEQUENCES`
abbrev pub kill_chain_sequences : List (List String)
kill_chain_sequences =
    ("T1003" ∷ "T1041" ∷ "T1048" ∷ [])
    ∷ ("T1059" ∷ "T1053" ∷ "T1548" ∷ [])
    ∷ ("T1046" ∷ "T1021" ∷ "T1570" ∷ [])
    ∷ ("T1070" ∷ "T1071" ∷ "T1105" ∷ [])
    ∷ []

-- `_PRIVESC_NAMES`
abbrev pub privesc_names : List String
privesc_names = "sudo" ∷ "su" ∷ "pkexec" ∷ "doas" ∷ "newgrp" ∷ "runuser" ∷ []

-- `alert_techniques & seq` and `len(seq & combined) >= 2`
abbrev pub completes : List String → List String → List String → Bool
completes techniques tactics seq =
    leb 2 (length (common seq (techniques ++ tactics))) && leb 1 (length (common techniques seq))

-- Whether the time lies before the cutoff, `timeframe` before now.
abbrev pub is_before : ℕ → ℕ → ℕ → Bool
is_before now timeframe at = ltb (at + timeframe) now

module _ (f : Floats) where
  open f use {Float, lit, decimal, add, mul, div}

  -- `len(alert_techniques & incident_tactics) / len(alert_techniques)`
  unfoldable pub overlap : List String → List String → Float
  overlap techniques tactics =
      div (lit (length (common techniques tactics))) (lit (length techniques))

  -- SameHostLinker.score
  unfoldable pub same_host_bonus : List String → List String → Float
  unfolding overlap
  same_host_bonus [] tactics = decimal 5 1
  same_host_bonus (t ∷ ts) tactics =
      add (decimal 5 1) (mul (decimal 5 1) (overlap (t ∷ ts) tactics))

  unfoldable pub same_host_score : ℕ → ℕ → Alert → Incident → Float
  unfolding same_host_bonus distinct
  same_host_score now timeframe alert incident =
      if ltb (severity_order alert.severity) (severity_order medium)
      then lit 0
      else ite (str_dec alert.hostname incident.hostname)
          (if is_before now timeframe incident.updated_at
            then lit 0
            else same_host_bonus (distinct alert.mitre_techniques) incident.mitre_tactics)
          (lit 0)

  -- TemporalLinker.score
  unfoldable pub temporal_base : List String → List String → Float
  unfolding overlap min
  temporal_base [] tactics = decimal 55 2
  temporal_base (t ∷ ts) tactics =
      min f (add (decimal 55 2) (mul (decimal 30 2) (overlap (t ∷ ts) tactics)))
        (add (decimal 55 2) (decimal 30 2))

  unfoldable pub temporal_bonus : List String → List String → Float
  unfolding temporal_base min
  temporal_bonus techniques tactics =
      if any (completes techniques tactics) kill_chain_sequences
      then min f (lit 1) (add (temporal_base techniques tactics) (decimal 15 2))
      else temporal_base techniques tactics

  unfoldable pub temporal_score : ℕ → ℕ → Alert → Incident → Float
  unfolding temporal_bonus distinct
  temporal_score now timeframe alert incident =
      if ltb (severity_order alert.severity) (severity_order medium)
      then lit 0
      else ite (str_dec alert.hostname incident.hostname)
          (if is_before now timeframe incident.created_at
            then lit 0
            else temporal_bonus (distinct alert.mitre_techniques) incident.mitre_tactics)
          (lit 0)

  -- The bonus that pid_lineage.py and user_activity.py end with.
  unfoldable pub capped_bonus : Float → Float → List String → List String → Float
  unfolding overlap min
  capped_bonus base bonus [] tactics = base
  capped_bonus base bonus (t ∷ ts) tactics =
      min f (lit 1) (add base (mul bonus (overlap (t ∷ ts) tactics)))

  -- Whether an entry names the entity.
  unfoldable pub names_entity : List ℕ → IncidentEvent → Bool
  unfolding holds
  names_entity entity e =
      holds_word entity (codes e.title)
      || (starts_with entity (codes e.title) && starts_with (codes e.title) entity)

  -- PidLineageLinker.score; its branch for the process number does nothing.
  unfoldable pub pid_lineage_score : ℕ → ℕ → Alert → Incident → Float
  unfolding capped_bonus names_entity distinct
  pid_lineage_score now timeframe alert incident =
      ite (str_dec alert.hostname incident.hostname)
        (if is_before now timeframe incident.created_at
          then lit 0
          else if leb 1 (length (codes alert.entity_id))
              && any (names_entity (codes alert.entity_id)) incident.timeline
          then capped_bonus (decimal 6 1) (decimal 3 1) (distinct alert.mitre_techniques)
              incident.mitre_tactics
          else lit 0)
        (lit 0)

  module _ (base_name : String → String) where
    -- Whether an entry names the process.
    unfoldable pub names_process : List ℕ → IncidentEvent → Bool
    unfolding holds
    names_process proc e =
        holds_word proc (codes e.title)
        || ((starts_with proc (codes e.title) && starts_with (codes e.title) proc)
            || starts_with (proc ++ 32 ∷ []) (codes e.title))

    unfoldable pub matches_process : Alert → Incident → Bool
    unfolding names_process
    matches_process alert incident =
        let proc = codes (base_name alert.process_name) in
        leb 1 (length (codes alert.process_name))
        && (leb 2 (length proc)
            && (not (any (λ c. c == 32) proc) && any (names_process proc) incident.timeline))

    abbrev pub user_base : Alert → Float
    user_base alert =
        if elem str_dec alert.process_name privesc_names
        then add (decimal 5 1) (decimal 15 2)
        else decimal 5 1

    -- UserActivityLinker.score
    unfoldable pub user_activity_score : ℕ → ℕ → Alert → Incident → Float
    unfolding capped_bonus matches_process distinct
    user_activity_score now timeframe alert incident =
        ite (str_dec alert.hostname incident.hostname)
          (if is_before now timeframe incident.created_at
            then lit 0
            else if matches_process alert incident
            then capped_bonus (user_base alert) (decimal 35 2) (distinct alert.mitre_techniques)
                incident.mitre_tactics
            else lit 0)
          (lit 0)

    -- The linkers of main.py, with the correlation window: only the first has `max_severity`.
    unfoldable pub installed : ℕ → ℕ → List (Linker f)
    installed now window =
        record { score = same_host_score now window; has_max_severity = true }
        ∷ record { score = temporal_score now 60; has_max_severity = false }
        ∷ record { score = pid_lineage_score now window; has_max_severity = false }
        ∷ record { score = user_activity_score now (window * 2); has_max_severity = false }
        ∷ []
