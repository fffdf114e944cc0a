-- ===== src/Correlation/Candidates.antt =====
-- The incident that server/oseye/correlation/engine.py links an alert to is a candidate.
use oseye_plateforme.Prelude.{
  ℕ, zero, suc, ◌≡◌, Option, none, some, List, [], ◌∷◌, arith, if-either, take, All,
}
use mathlib.Core.Path.{subst}
use oseye_plateforme.Prelude.Floats.{Floats, ltb as float_ltb}
use oseye_plateforme.Correlation.{
  Severity, Alert, Incident, linked, created, new_incident, settle, Linker, Best, nothing_found,
  consider, try_linkers, try_incidents, choose, process_alert, max_candidates, link_alert,
}
use oseye_plateforme.Correlation.Choice.{settle-linked, choose-positive, processed}

All-take : {A : Type 0} (P : A → Type 0) (n : ℕ) (xs : List A) → All P xs → All P (take n xs)
All-take P zero xs h = tt
All-take P (suc n) [] h = tt
All-take P (suc n) (x ∷ xs) h = (h.0, All-take P n xs h.1)

module _ (f : Floats) (P : Incident → Type 0) (a : Alert) where
  -- The best match so far is one of the candidates.
  abbrev Held : Option (Incident × Linker f) → Type 0
  Held none = Unit
  Held (some (i, l)) = P i

  consider-Held :
      (i : Incident) (l : Linker f) (b : Best f)
      → P i
      → Held b.best_match
      → Held (consider f a i l b).best_match
  unfolding consider
  consider-Held i l b p h =
      if-either (λ (r : Best f). Held r.best_match) (float_ltb f b.best_score (l.score a i))
        (record { best_score = l.score a i; best_match = some (i, l) }) b p h

  try_linkers-Held :
      (i : Incident) (ls : List (Linker f)) (b : Best f)
      → P i
      → Held b.best_match
      → Held (try_linkers f a i ls b).best_match
  unfolding try_linkers
  try_linkers-Held i [] b p h = h
  try_linkers-Held i (l ∷ ls) b p h =
      try_linkers-Held i ls (consider f a i l b) p (consider-Held i l b p h)

  try_incidents-Held :
      (is : List Incident) (ls : List (Linker f)) (b : Best f)
      → All P is
      → Held b.best_match
      → Held (try_incidents f a is ls b).best_match
  unfolding try_incidents
  try_incidents-Held [] ls b p h = h
  try_incidents-Held (i ∷ is) ls b p h =
      try_incidents-Held is ls (try_linkers f a i ls b) p.1 (try_linkers-Held i ls b p.0 h)

  pub linked-candidate :
      (m : Severity) (ls : List (Linker f)) (now uuid t : ℕ) (is : List Incident) (out : Incident)
      → All P is
      → process_alert f m ls now uuid t is a ≡ linked out
      → (i : Incident) × P i × (out ≡ link_alert now a i)
  linked-candidate m ls now uuid t is out all_p h =
      let b = try_incidents f a (take max_candidates is) ls (nothing_found f) in
      let (i, l, chosen, able, made) =
        settle-linked f now uuid t a (choose f b) out (processed f m ls now uuid t is a out h) in
      let (positive, found) = choose-positive f b (i, l) chosen in
      let held : Held b.best_match =
        try_incidents-Held (take max_candidates is) ls (nothing_found f)
          (All-take P max_candidates is all_p) tt in
      (i, subst Held found held, made)

module _ (f : Floats) (m : Severity) (ls : List (Linker f)) (now uuid t : ℕ) (a : Alert) where
  settle-created :
      (o : Option (Incident × Linker f)) (out : Incident)
      → settle f now uuid t a o ≡ created out
      → out ≡ new_incident now uuid t a
  unfolding settle
  settle-created none out h = cc
  settle-created (some (i, l)) out h = ground arith

  pub created_new :
      (is : List Incident) (out : Incident)
      → process_alert f m ls now uuid t is a ≡ created out
      → out ≡ new_incident now uuid t a
  unfolding process_alert
  created_new is out h =
      settle-created (choose f (try_incidents f a (take max_candidates is) ls (nothing_found f)))
        out (ground arith)
