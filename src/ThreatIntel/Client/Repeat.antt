-- ===== src/ThreatIntel/Client/Repeat.antt =====
-- Repeated lookups of the client of server/oseye/threat_intel/client.py, and its aggregate.
use oseye_plateforme.Prelude.{
  sym, str_dec, ℕ, ◌+◌, ◌≤◌, ◌≡◌, refl, ap, ◌∙◌, inl, inr, Bool, true, false, not, ◌||◌, Option,
  none, some, List, [], ◌∷◌, ◌++◌, String, arith, if◌then◌else◌, any, All,
}
use oseye_plateforme.Prelude.Floats.{Floats}
use oseye_plateforme.Decision.Executor.{Address}
use oseye_plateforme.ThreatIntel.Cache.{Cache, key, get, set}
use oseye_plateforme.ThreatIntel.Cache.Laws.{IsValid, get_at-IsValid, get_at-set_at_self}
use oseye_plateforme.ThreatIntel.Client.{
  IndicatorType, type_text, is_valid_indicator, reconstruct, ThreatIntelReport, AggregatedTiReport,
  add_tags, aggregate_from, aggregate, Answers, ask_providers, stub, ttl_of, refresh, lookup_cached,
  lookup_indicator,
}

module _ (f : Floats) where
  open f use {Float, lit, leb_total, leb_trans}

  refresh-get :
      (cache_ttl t0 t1 : ℕ) (type : IndicatorType) (s : String) (got : Answers f)
      (cache : Cache (ThreatIntelReport f))
      → IsValid cache
      → t1 ≤ t0 + ttl_of f cache_ttl (ask_providers f t0 s type got)
      → (get t1 (type_text type) s (refresh f cache_ttl t0 type s got cache).0).1
        ≡ some (stub f s type (ask_providers f t0 s type got))
  unfolding refresh set get
  refresh-get cache_ttl t0 t1 type s got cache v soon =
      let a = ask_providers f t0 s type got in
      get_at-set_at_self t0 t1 (key (type_text type) s) (stub f s type a) (ttl_of f cache_ttl a)
        cache v
      ∙ if-fresh _ (ground arith)
    where
      if-fresh :
          (late : Bool)
          → late ≡ false
          → (if late then none else some (stub f s type (ask_providers f t0 s type got)))
            ≡ some (stub f s type (ask_providers f t0 s type got))
      if-fresh late e = rw e refl

  get-IsValid :
      (t : ℕ) (kind s : String) (cache : Cache (ThreatIntelReport f))
      → IsValid cache
      → IsValid (get t kind s cache).0
  unfolding get
  get-IsValid t kind s cache v = get_at-IsValid t (key kind s) cache v

  -- The two conversions lose the reports of the providers and nothing else.
  reconstruct-stub :
      (s : String) (type : IndicatorType) (a : AggregatedTiReport f)
      → a.indicator ≡ s
      → a.indicator_type ≡ type
      → reconstruct f (stub f s type a) ≡ record a { reports = [] }
  unfolding reconstruct stub
  reconstruct-stub s type a e h =
      ap
        (λ (p : String × IndicatorType). record a {
          indicator = p.0;
          indicator_type = p.1;
          reports = [];
        })
        (λ i. (sym e i, sym h i))

  aggregate_from-indicator :
      (rs : List (ThreatIntelReport f)) (a : AggregatedTiReport f)
      → ((aggregate_from f rs a).indicator ≡ a.indicator)
        × ((aggregate_from f rs a).indicator_type ≡ a.indicator_type)
  unfolding aggregate_from
  aggregate_from-indicator [] a = (refl, refl)
  aggregate_from-indicator (r ∷ rs) a = aggregate_from-indicator rs _

  aggregate-indicator :
      (t : ℕ) (s : String) (type : IndicatorType) (rs : List (ThreatIntelReport f))
      (unavailable : Bool)
      → ((aggregate f t s type rs unavailable).indicator ≡ s)
        × ((aggregate f t s type rs unavailable).indicator_type ≡ type)
  unfolding aggregate
  aggregate-indicator t s type rs unavailable = aggregate_from-indicator rs _

  ask_providers-indicator :
      (t : ℕ) (s : String) (type : IndicatorType) (got : Answers f)
      → ((ask_providers f t s type got).indicator ≡ s)
        × ((ask_providers f t s type got).indicator_type ≡ type)
  unfolding ask_providers
  ask_providers-indicator t s type got = search (aggregate-indicator t s type)

  lookup_cached-hit :
      (cache_ttl now : ℕ) (type : IndicatorType) (s : String) (got : Answers f)
      (o : Cache (ThreatIntelReport f) × Option (ThreatIntelReport f)) (a : AggregatedTiReport f)
      → o.1 ≡ some (stub f s type a)
      → (lookup_cached f cache_ttl now type s got o).1 ≡ reconstruct f (stub f s type a)
  unfolding lookup_cached stub str_dec
  lookup_cached-hit cache_ttl now type s got (cache, o) a e =
      ap (λ o'. (lookup_cached f cache_ttl now type s got (cache, o')).1) e

  lookup_cached-miss :
      (cache_ttl now : ℕ) (type : IndicatorType) (s : String) (got : Answers f)
      (o : Cache (ThreatIntelReport f) × Option (ThreatIntelReport f))
      → o.1 ≡ none
      → lookup_cached f cache_ttl now type s got o ≡ refresh f cache_ttl now type s got o.0
  unfolding lookup_cached
  lookup_cached-miss cache_ttl now type s got (cache, none) e = refl
  lookup_cached-miss cache_ttl now type s got (cache, some b) e = absurd (ground arith)

  lookup_indicator_valid :
      (parse_ip : String → Option (Address × Option Address)) (cache_ttl t : ℕ)
      (type : IndicatorType) (s : String) (got : Answers f) (cache : Cache (ThreatIntelReport f))
      → is_valid_indicator parse_ip type s ≡ true
      → lookup_indicator f parse_ip cache_ttl t type s got cache ≡ (
        (lookup_cached f cache_ttl t type s got (get t (type_text type) s cache)).0,
        some ((lookup_cached f cache_ttl t type s got (get t (type_text type) s cache)).1),
      )
  unfolding lookup_indicator
  lookup_indicator_valid parse_ip cache_ttl t type s got cache valid =
      rw (lookup_indicator, valid) refl

  -- On a valid cache, after a lookup of a valid indicator that the cache did not hold, a lookup of
  -- the same indicator within the time to live returns the same aggregate without the reports of the
  -- providers, whatever the providers would answer then. The time to live is that of the cache, or
  -- 60 where no provider could answer.
  pub lookup_indicator-lookup_indicator :
      (parse_ip : String → Option (Address × Option Address)) (cache_ttl t0 t1 : ℕ)
      (type : IndicatorType) (s : String) (got later : Answers f)
      (cache : Cache (ThreatIntelReport f))
      → IsValid cache
      → is_valid_indicator parse_ip type s ≡ true
      → (get t0 (type_text type) s cache).1 ≡ none
      → t1 ≤ t0 + (if (ask_providers f t0 s type got).ti_unavailable then 60 else cache_ttl)
      → let first = lookup_indicator f parse_ip cache_ttl t0 type s got cache in
        (first.1 ≡ some (ask_providers f t0 s type got))
        × ((lookup_indicator f parse_ip cache_ttl t1 type s later first.0).1
            ≡ some (record (ask_providers f t0 s type got) { reports = [] }))
  unfolding refresh
  lookup_indicator-lookup_indicator parse_ip cache_ttl t0 t1 type s got later cache v valid miss
        soon =
      let missed = get t0 (type_text type) s cache in
      let a = ask_providers f t0 s type got in
      let first : lookup_indicator f parse_ip cache_ttl t0 type s got cache
          ≡ ((refresh f cache_ttl t0 type s got missed.0).0, some a) =
        lookup_indicator_valid parse_ip cache_ttl t0 type s got cache valid
        ∙ ap (λ (d : Cache (ThreatIntelReport f) × AggregatedTiReport f). (d.0, some (d.1)))
            (lookup_cached-miss cache_ttl t0 type s got missed miss) in
      let kept = (refresh f cache_ttl t0 type s got missed.0).0 in
      let (same, kind) = ask_providers-indicator t0 s type got in
      let again : (lookup_indicator f parse_ip cache_ttl t1 type s later kept).1
          ≡ some (record a { reports = [] }) =
        ap (λ (d : Cache (ThreatIntelReport f) × Option (AggregatedTiReport f)). d.1)
          (lookup_indicator_valid parse_ip cache_ttl t1 type s later kept valid)
        ∙ ap some (
            lookup_cached-hit cache_ttl t1 type s later (get t1 (type_text type) s kept) a (
              refresh-get cache_ttl t0 t1 type s got missed.0
                (get-IsValid t0 (type_text type) s cache v) soon)
            ∙ reconstruct-stub s type a same kind) in
      rw first (refl, again)

  leb_refl : (a : Float) → f.leb a a ≡ true
  leb_refl a = elim (leb_total a a) [ inl e ↦ e | inr e ↦ e ]

  -- The greater of two scores, as the loop takes it.
  greater :
      (x y : Float) (b : Bool)
      → f.leb y x ≡ b
      → (f.leb x (if not b then y else x) ≡ true) × (f.leb y (if not b then y else x) ≡ true)
  greater x y true e = (leb_refl x, e)
  greater x y false e = elim (leb_total x y) [
    | inl h ↦ (h, leb_refl y)
    | inr h ↦ absurd (ground arith)
  ]

  aggregate_from-grows :
      (rs : List (ThreatIntelReport f)) (a : AggregatedTiReport f)
      → (f.leb a.max_score (aggregate_from f rs a).max_score ≡ true)
        × (All
              (λ (r : ThreatIntelReport f). f.leb r.score (aggregate_from f rs a).max_score ≡ true)
              rs
            × ((aggregate_from f rs a).malicious ≡ (any (λ r. r.malicious) rs || a.malicious)))
  unfolding aggregate_from
  aggregate_from-grows [] a = (leb_refl a.max_score, (tt, refl))
  aggregate_from-grows (r ∷ rs) a =
      let next = record a {
        max_score = if not (f.leb r.score a.max_score) then r.score else a.max_score;
        malicious = r.malicious || a.malicious;
        providers = a.providers ++ r.provider ∷ [];
        tags = add_tags f a.tags r.tags;
      } in
      let (old, new) = greater a.max_score r.score (f.leb r.score a.max_score) refl in
      let (grows, (bound, flag)) = aggregate_from-grows rs next in
      (leb_trans _ _ _ old grows, ((leb_trans _ _ _ new grows, bound), ground arith))

  -- The score of an aggregate is at least zero and at least that of each report, and the aggregate
  -- is malicious exactly when one of the reports is.
  pub aggregate_bounds :
      (now : ℕ) (s : String) (type : IndicatorType) (rs : List (ThreatIntelReport f))
      (unavailable : Bool)
      → let a = aggregate f now s type rs unavailable in
        (f.leb (lit 0) a.max_score ≡ true)
        × (All (λ (r : ThreatIntelReport f). f.leb r.score a.max_score ≡ true) rs
            × (a.malicious ≡ any (λ r. r.malicious) rs))
  unfolding aggregate
  aggregate_bounds now s type rs unavailable =
      let (grows, (bound, flag)) = aggregate_from-grows rs _ in (grows, (bound, ground arith))
