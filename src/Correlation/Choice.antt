-- ===== src/Correlation/Choice.antt =====
-- Which incident server/oseye/correlation/engine.py links an alert to.
use oseye_plateforme.Prelude.{
  ℕ, ◌≤◌, ◌≡◌, refl, sym, ap, ◌∙◌, ◌⊎◌, inl, inr, true, false, Option, none, some, List, [], ◌∷◌,
  arith, Bool-cases, take, All,
}
use mathlib.Core.Path.{subst}
use oseye_plateforme.Prelude.Floats.{Floats, ltb as float_ltb}
use oseye_plateforme.Correlation.{
  Severity, severity_order, max_severity, Alert, Incident, max_candidates, link_alert, linked,
  failed, Linker, Best, nothing_found, consider, try_linkers, try_incidents, choose, settle,
  process_alert,
}

-- Linking an alert leaves the incident with a severity that is neither below the incident's nor
-- below the alert's.
pub severity-link_alert :
    (now : ℕ) (a : Alert) (i : Incident)
    → (severity_order i.severity ≤ severity_order (link_alert now a i).severity)
      × (severity_order a.severity ≤ severity_order (link_alert now a i).severity)
unfolding link_alert max_severity
severity-link_alert now a i = ground arith

module _ (f : Floats) where
  open f use {Float, leb, lit, sub, leb_total, leb_trans}

  consider-le :
      (a : Alert) (i : Incident) (l : Linker f) (b : Best f)
      → (leb b.best_score (consider f a i l b).best_score ≡ true)
        × (leb (l.score a i) (consider f a i l b).best_score ≡ true)
  unfolding consider
  consider-le a i l b = ground (
    arith,
    leb_total b.best_score (l.score a i),
    leb_total (l.score a i) (l.score a i),
    leb_total b.best_score b.best_score,
  )

  -- No linker scores the incident above the bound.
  abbrev pub IsBound : Alert → Float → List (Linker f) → Incident → Type 0
  IsBound a bound ls i = All (λ l. leb (l.score a i) bound ≡ true) ls

  IsBound-mono :
      (a : Alert) (x y : Float) (i : Incident) (ls : List (Linker f))
      → leb x y ≡ true
      → IsBound a x ls i
      → IsBound a y ls i
  IsBound-mono a x y i [] h k = tt
  IsBound-mono a x y i (l ∷ ls) h k =
      (leb_trans (l.score a i) x y k.0 h, IsBound-mono a x y i ls h k.1)

  try_linkers-le :
      (a : Alert) (i : Incident) (ls : List (Linker f)) (b : Best f)
      → leb b.best_score (try_linkers f a i ls b).best_score ≡ true
  unfolding try_linkers
  try_linkers-le a i [] b = ground (arith, leb_total b.best_score b.best_score)
  try_linkers-le a i (l ∷ ls) b =
      leb_trans _ _ _ (consider-le a i l b).0 (try_linkers-le a i ls (consider f a i l b))

  try_linkers-IsBound :
      (a : Alert) (i : Incident) (ls : List (Linker f)) (b : Best f)
      → IsBound a (try_linkers f a i ls b).best_score ls i
  unfolding try_linkers
  try_linkers-IsBound a i [] b = tt
  try_linkers-IsBound a i (l ∷ ls) b = (
    leb_trans _ _ _ (consider-le a i l b).1 (try_linkers-le a i ls (consider f a i l b)),
    try_linkers-IsBound a i ls (consider f a i l b),
  )

  try_incidents-le :
      (a : Alert) (is : List Incident) (ls : List (Linker f)) (b : Best f)
      → leb b.best_score (try_incidents f a is ls b).best_score ≡ true
  unfolding try_incidents
  try_incidents-le a [] ls b = ground (arith, leb_total b.best_score b.best_score)
  try_incidents-le a (i ∷ is) ls b =
      leb_trans _ _ _ (try_linkers-le a i ls b) (try_incidents-le a is ls (try_linkers f a i ls b))

  try_incidents-IsBound :
      (a : Alert) (is : List Incident) (ls : List (Linker f)) (b : Best f)
      → All (IsBound a (try_incidents f a is ls b).best_score ls) is
  unfolding try_incidents
  try_incidents-IsBound a [] ls b = tt
  try_incidents-IsBound a (i ∷ is) ls b = (
    IsBound-mono a _ _ i ls (try_incidents-le a is ls (try_linkers f a i ls b))
        (try_linkers-IsBound a i ls b),
    try_incidents-IsBound a is ls (try_linkers f a i ls b),
  )

  -- The best score is the start, with no incident, or the score that some linker gives to it.
  abbrev pub IsScored : Alert → Best f → Type 0
  IsScored a b =
      ((b.best_match ≡ none) × (b.best_score ≡ sub (lit 0) (lit 1)))
      ⊎ ((i : Incident) × (l : Linker f) × (b.best_match ≡ some (i, l))
          × (b.best_score ≡ l.score a i))

  consider-IsScored :
      (a : Alert) (i : Incident) (l : Linker f) (b : Best f)
      → IsScored a b
      → IsScored a (consider f a i l b)
  unfolding consider
  consider-IsScored a i l b h = elim (Bool-cases (float_ltb f b.best_score (l.score a i))) [
    | inl better ↦ rw better (inr (i, l, refl, refl))
    | inr worse ↦ rw worse h
  ]

  try_linkers-IsScored :
      (a : Alert) (i : Incident) (ls : List (Linker f)) (b : Best f)
      → IsScored a b
      → IsScored a (try_linkers f a i ls b)
  unfolding try_linkers
  try_linkers-IsScored a i [] b h = h
  try_linkers-IsScored a i (l ∷ ls) b h =
      try_linkers-IsScored a i ls (consider f a i l b) (consider-IsScored a i l b h)

  try_incidents-IsScored :
      (a : Alert) (is : List Incident) (ls : List (Linker f)) (b : Best f)
      → IsScored a b
      → IsScored a (try_incidents f a is ls b)
  unfolding try_incidents
  try_incidents-IsScored a [] ls b h = h
  try_incidents-IsScored a (i ∷ is) ls b h =
      try_incidents-IsScored a is ls (try_linkers f a i ls b) (try_linkers-IsScored a i ls b h)

  pub settle-linked :
      (now uuid t : ℕ) (a : Alert) (o : Option (Incident × Linker f)) (out : Incident)
      → settle f now uuid t a o ≡ linked out
      → (i : Incident) × (l : Linker f) × (o ≡ some (i, l))
        × (l.has_max_severity ≡ true)
        × (out ≡ link_alert now a i)
  unfolding settle
  settle-linked now uuid t a none out h = absurd (ground arith)
  settle-linked now uuid t a (some (i, l)) out h = (i, l, refl, ground arith, ground arith)

  pub choose-positive :
      (b : Best f) (m : Incident × Linker f)
      → choose f b ≡ some m
      → (leb b.best_score (lit 0) ≡ false) × (b.best_match ≡ some m)
  unfolding choose
  choose-positive b m h = ground arith

  pub processed :
      (m : Severity) (ls : List (Linker f)) (now uuid t : ℕ) (is : List Incident) (a : Alert)
      (out : Incident)
      → process_alert f m ls now uuid t is a ≡ linked out
      → settle f now uuid t a
          (choose f (try_incidents f a (take max_candidates is) ls (nothing_found f)))
        ≡ linked out
  unfolding process_alert
  processed m ls now uuid t is a out h = ground arith

  -- An alert is linked to an incident only where a linker that has `max_severity` gives it a score
  -- that is positive and that no linker exceeds on any of the first 50 candidates.
  pub process_alert-linked :
      (min_severity : Severity) (ls : List (Linker f)) (now uuid max_timeframe : ℕ)
      (is : List Incident) (a : Alert) (out : Incident)
      → process_alert f min_severity ls now uuid max_timeframe is a ≡ linked out
      → (i : Incident) × (l : Linker f) × (out ≡ link_alert now a i)
        × (l.has_max_severity ≡ true)
        × (leb (l.score a i) (lit 0) ≡ false)
        × All (IsBound a (l.score a i) ls) (take max_candidates is)
  process_alert-linked m ls now uuid t is a out h =
      let b = try_incidents f a (take max_candidates is) ls (nothing_found f) in
      let bound = try_incidents-IsBound a (take max_candidates is) ls (nothing_found f) in
      let (i, l, chosen, able, made) =
        settle-linked now uuid t a (choose f b) out (processed m ls now uuid t is a out h) in
      let (positive, found) = choose-positive b (i, l) chosen in
      elim (try_incidents-IsScored a (take max_candidates is) ls (nothing_found f)
        (inl (refl, refl))) [
          | inl (missing, low_score) ↦ absurd (ground arith)
          | inr (j, k, found', scored) ↦
              let same : ◌≡◌ {A = Incident × Linker f} (j, k) (i, l) = ground arith in
              let scored' : b.best_score ≡ l.score a i =
                scored ∙ ap (λ (m : Incident × Linker f). m.1.score a m.0) same in
              (
                i,
                l,
                made,
                able,
                rw (sym scored') positive,
                subst (λ x. All (IsBound a x ls) (take max_candidates is)) scored' bound,
              )
        ]

  -- If the winning match of an alert that is severe enough has a positive score and a linker
  -- without `max_severity`, the call fails, after the alert's row was added to the incident.
  pub process_alert_fails :
      (min_severity : Severity) (ls : List (Linker f)) (now uuid max_timeframe : ℕ)
      (is : List Incident) (a : Alert) (i : Incident) (l : Linker f)
      → severity_order min_severity ≤ severity_order a.severity
      → choose f (try_incidents f a (take max_candidates is) ls (nothing_found f)) ≡ some (i, l)
      → l.has_max_severity ≡ false
      → process_alert f min_severity ls now uuid max_timeframe is a ≡ failed i
  unfolding process_alert settle
  process_alert_fails m ls now uuid t is a i l severe chosen unable = rw chosen (ground arith)
