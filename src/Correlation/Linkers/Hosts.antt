-- ===== src/Correlation/Linkers/Hosts.antt =====
-- The linkers of server/oseye/correlation/linkers bring an alert together with an incident of its
-- own host alone.
use oseye_plateforme.Prelude.{
  ℕ, ◌+◌, ◌*◌, ◌≤◌, ◌≡◌, refl, sym, ◌⊎◌, inl, inr, true, false, Option, none, some, List, [], ◌∷◌,
  String, arith, Bool-cases, take, All,
}
use mathlib.Core.Path.{subst}
use oseye_plateforme.Prelude.Floats.{Floats}
use oseye_plateforme.Correlation.{
  Severity, medium, severity_order, Alert, Incident, max_candidates, link_alert, linked, Linker,
  Best, nothing_found, consider, try_linkers, try_incidents, choose, process_alert,
}
use oseye_plateforme.Correlation.Choice.{settle-linked, choose-positive, processed}
use oseye_plateforme.Correlation.Linkers.{
  is_before, same_host_score, temporal_score, pid_lineage_score, user_activity_score, installed,
}

module _ (f : Floats) where
  open f use {Float, leb, lit, leb_lit}

  -- A property of the incident and the linker of the best match, whose score is the best one.
  abbrev pub Matched :
      (Incident → Linker f → Type 0) → Alert → Float → Option (Incident × Linker f) → Type 0
  Matched P a score none = Unit
  Matched P a score (some (i, l)) = (score ≡ l.score a i) × P i l

  module _ (P : Incident → Linker f → Type 0) (a : Alert) where
    consider-Matched :
        (i : Incident) (l : Linker f) (b : Best f)
        → P i l
        → Matched P a b.best_score b.best_match
        → Matched P a (consider f a i l b).best_score (consider f a i l b).best_match
    unfolding consider
    consider-Matched i l b p h = elim (Bool-cases (leb (l.score a i) b.best_score)) [
      | inl worse ↦ rw worse h
      | inr better ↦ rw better (refl, p)
    ]

    try_linkers-Matched :
        (i : Incident) (ls : List (Linker f)) (b : Best f)
        → All (P i) ls
        → Matched P a b.best_score b.best_match
        → Matched P a (try_linkers f a i ls b).best_score (try_linkers f a i ls b).best_match
    unfolding try_linkers
    try_linkers-Matched i [] b p h = h
    try_linkers-Matched i (l ∷ ls) b p h =
        try_linkers-Matched i ls (consider f a i l b) p.1 (consider-Matched i l b p.0 h)

    try_incidents-Matched :
        (is : List Incident) (ls : List (Linker f)) (b : Best f)
        → ((i : Incident) → All (P i) ls)
        → Matched P a b.best_score b.best_match
        → Matched P a (try_incidents f a is ls b).best_score (try_incidents f a is ls b).best_match
    unfolding try_incidents
    try_incidents-Matched [] ls b p h = h
    try_incidents-Matched (i ∷ is) ls b p h =
        try_incidents-Matched is ls (try_linkers f a i ls b) p (try_linkers-Matched i ls b (p i) h)

  module _ (base_name : String → String) (now window : ℕ) (a : Alert) where
    zero_score : leb (lit 0) (lit 0) ≡ true
    zero_score = leb_lit 0 0

    -- A positive score means the same host; that of the only linker with `max_severity` also means
    -- a recent update and an alert of medium severity at least.
    abbrev Meets : Incident → Linker f → Type 0
    Meets i l =
        leb (l.score a i) (lit 0) ≡ false
        → (a.hostname ≡ i.hostname)
          × ((l.has_max_severity ≡ false)
              ⊎ ((is_before now window i.updated_at ≡ false)
                  × (severity_order medium ≤ severity_order a.severity)))

    same_host-Meets :
        (i : Incident)
        → Meets i (record { score = same_host_score f now window; has_max_severity = true })
    unfolding same_host_score
    same_host-Meets i h = ground (arith, zero_score)

    temporal-Meets :
        (i : Incident)
        → Meets i (record { score = temporal_score f now 60; has_max_severity = false })
    unfolding temporal_score
    temporal-Meets i h = ground (arith, zero_score)

    pid_lineage-Meets :
        (i : Incident)
        → Meets i (record { score = pid_lineage_score f now window; has_max_severity = false })
    unfolding pid_lineage_score
    pid_lineage-Meets i h = ground (arith, zero_score)

    user_activity-Meets :
        (i : Incident)
        → Meets i (record {
          score = user_activity_score f base_name now (window * 2);
          has_max_severity = false;
        })
    unfolding user_activity_score
    user_activity-Meets i h = ground (arith, zero_score)

    installed-Meets : (i : Incident) → All (Meets i) (installed f base_name now window)
    unfolding installed
    installed-Meets i =
        (same_host-Meets i, (temporal-Meets i, (pid_lineage-Meets i, (user_activity-Meets i, tt))))

    -- With the four installed linkers, an alert that is linked joins an incident of its own host that
    -- was updated within the correlation window, and is of medium severity at least.
    pub process_alert_same_host :
        (min_severity : Severity) (uuid max_timeframe : ℕ) (is : List Incident) (out : Incident)
        → process_alert f min_severity
            (installed f base_name now window)
            now
            uuid
            max_timeframe
            is
            a
          ≡ linked out
        → (i : Incident) × (out ≡ link_alert now a i)
          × (a.hostname ≡ i.hostname)
          × (now ≤ i.updated_at + window)
          × (severity_order medium ≤ severity_order a.severity)
    process_alert_same_host m uuid t is out h =
        let ls = installed f base_name now window in
        let b = try_incidents f a (take max_candidates is) ls (nothing_found f) in
        let (i, l, chosen, able, made) =
          settle-linked f now uuid t a (choose f b) out (processed f m ls now uuid t is a out h) in
        let (positive, found) = choose-positive f b (i, l) chosen in
        let matched : Matched Meets a b.best_score b.best_match =
          try_incidents-Matched Meets a (take max_candidates is) ls (nothing_found f)
            installed-Meets tt in
        let (score, meets) = subst (Matched Meets a b.best_score) found matched in
        let (host, rest) = meets (rw (sym score) positive) in
        (i, made, host, ground arith, ground arith)
