-- ===== src/ThreatIntel/Client.antt =====
-- ThreatIntelClient of server/oseye/threat_intel/client.py over its cache. The address parser and
-- what each provider answers are parameters.
pub mod Repeat
use oseye_plateforme.Prelude.{
  get_or, ℕ, ◌+◌, Bool, false, not, ◌&&◌, ◌||◌, Option, none, some, List, [], ◌∷◌, ◌++◌, String,
  leb, ◌==◌, if◌then◌else◌, str_dec, length, all, elem, codes,
}
use oseye_plateforme.Prelude.Floats.{Floats}
use oseye_plateforme.Decision.Executor.{Address}
use oseye_plateforme.ThreatIntel.Cache.{Cache, get, set}

pub data IndicatorType : Type 0 where
  ip hash : IndicatorType

abbrev pub type_text : IndicatorType → String
type_text ip = "ip"
type_text hash = "hash"

-- A character of `_HASH_RE`
unfoldable pub is_hex : ℕ → Bool
is_hex c = (leb b'0' c && leb c b'9') || ((leb b'a' c && leb c b'f') || (leb b'A' c && leb c b'F'))

-- An address that is never looked up.
unfoldable pub is_non_public : Address → Bool
is_non_public a = a.is_private || (a.is_loopback || (a.is_link_local || a.is_multicast))

-- The IPv4 form of a mapped address, or the address itself.
abbrev pub normalised : Address × Option Address → Address
normalised (a, none) = a
normalised (a, some mapped) = mapped

-- `_validate_indicator`; `parse_ip` gives an address with its IPv4-mapped one.
unfoldable pub is_valid_indicator :
    (String → Option (Address × Option Address)) → IndicatorType → String → Bool
unfolding is_hex is_non_public
is_valid_indicator parse_ip ip s =
    leb 1 (length (codes s))
    && (leb (length (codes s)) 256
        && elim (parse_ip s) [ none ↦ false | some a ↦ not (is_non_public (normalised a)) ])
is_valid_indicator parse_ip hash s =
    leb 1 (length (codes s))
    && (leb (length (codes s)) 256
        && (all is_hex (codes s)
            && ((length (codes s) == 32)
                || ((length (codes s) == 40) || (length (codes s) == 64)))))

module _ (f : Floats) where
  open f use {Float, lit}

  -- What of `raw` the client reads, each key with its value where it is there.
  pub record Raw : Type 0 where
    pub max_score : Option Float
    pub malicious : Option Bool
    pub providers : Option (List String)
    pub tags : Option (List String)
    pub ti_unavailable : Option Bool

  -- A report of a provider, and what the cache keeps.
  pub record ThreatIntelReport : Type 0 where
    pub indicator : String
    pub indicator_type : IndicatorType
    pub score : Float
    pub malicious : Bool
    pub provider : String
    pub tags : List String
    pub last_seen : Option ℕ
    pub raw : Raw
    pub cached_at : ℕ

  -- What a provider answers: a report, nothing for this kind of indicator, or an exception.
  pub data Answer : Type 0 where
    reported : ThreatIntelReport → Answer
    unsupported raised : Answer

  pub record AggregatedTiReport : Type 0 where
    pub indicator : String
    pub indicator_type : IndicatorType
    pub max_score : Float
    pub malicious : Bool
    pub providers : List String
    pub tags : List String
    pub reports : List ThreatIntelReport
    pub queried_at : ℕ
    pub ti_unavailable : Bool

  -- A tag is listed once.
  unfoldable pub add_tags : List String → List String → List String
  add_tags all_tags [] = all_tags
  add_tags all_tags (t ∷ ts) =
      add_tags (if elem str_dec t all_tags then all_tags else all_tags ++ t ∷ []) ts

  -- The loop of `_aggregate`.
  unfoldable pub aggregate_from : List ThreatIntelReport → AggregatedTiReport → AggregatedTiReport
  unfolding add_tags
  aggregate_from [] a = a
  aggregate_from (r ∷ rs) a = aggregate_from rs (record a {
    max_score = if not (f.leb r.score a.max_score) then r.score else a.max_score;
    malicious = r.malicious || a.malicious;
    providers = a.providers ++ r.provider ∷ [];
    tags = add_tags a.tags r.tags;
  })

  unfoldable pub aggregate :
      ℕ → String → IndicatorType → List ThreatIntelReport → Bool → AggregatedTiReport
  unfolding aggregate_from
  aggregate now s type reports unavailable = aggregate_from reports (record {
    indicator = s;
    indicator_type = type;
    max_score = lit 0;
    malicious = false;
    providers = [];
    tags = [];
    reports = reports;
    queried_at = now;
    ti_unavailable = unavailable;
  })

  -- The reports among the answers, and how many answers are errors.
  unfoldable pub reports_of : List Answer → List ThreatIntelReport
  reports_of [] = []
  reports_of (reported r ∷ as') = r ∷ reports_of as'
  reports_of (_ ∷ as') = reports_of as'

  unfoldable pub errors_of : List Answer → ℕ
  errors_of [] = 0
  errors_of (raised ∷ as') = 1 + errors_of as'
  errors_of (_ ∷ as') = errors_of as'

  -- What the providers answer when they are asked: all of them, or none of them in time.
  pub record Answers : Type 0 where
    pub answers : List Answer
    pub timed_out : Bool

  -- From the provider calls on; a failure of all is `ti_unavailable`.
  unfoldable pub ask_providers : ℕ → String → IndicatorType → Answers → AggregatedTiReport
  unfolding aggregate reports_of errors_of
  ask_providers now s type got =
      let raw = if got.timed_out then [] else got.answers in
      let reports = reports_of raw in
      aggregate now s type reports (
        leb 1 (length got.answers)
        && ((length reports == 0) && (leb 1 (errors_of got.answers) || (length raw == 0))))

  -- The report that the cache keeps of an aggregate.
  unfoldable pub stub : String → IndicatorType → AggregatedTiReport → ThreatIntelReport
  stub s type a = record {
    indicator = s;
    indicator_type = type;
    score = a.max_score;
    malicious = a.malicious;
    provider = "_aggregated";
    tags = a.tags;
    last_seen = none;
    raw = record {
      max_score = some a.max_score;
      malicious = some a.malicious;
      providers = some a.providers;
      tags = some a.tags;
      ti_unavailable = some a.ti_unavailable;
    };
    cached_at = a.queried_at;
  }

  -- The aggregate that a cached report gives.
  unfoldable pub reconstruct : ThreatIntelReport → AggregatedTiReport
  reconstruct cached = record {
    indicator = cached.indicator;
    indicator_type = cached.indicator_type;
    max_score = get_or cached.raw.max_score cached.score;
    malicious = get_or cached.raw.malicious cached.malicious;
    providers = get_or cached.raw.providers [];
    tags = get_or cached.raw.tags cached.tags;
    reports = [];
    queried_at = cached.cached_at;
    ti_unavailable = get_or cached.raw.ti_unavailable false;
  }

  -- `_SHORT_UNAVAILABLE_TTL` where nothing could be learnt, else the cache's time to live.
  abbrev pub ttl_of : ℕ → AggregatedTiReport → ℕ
  ttl_of cache_ttl a = if a.ti_unavailable then 60 else cache_ttl

  -- A lookup that missed the cache.
  unfoldable pub refresh :
      ℕ
      → ℕ
      → IndicatorType
      → String
      → Answers
      → Cache ThreatIntelReport
      → Cache ThreatIntelReport × AggregatedTiReport
  unfolding ask_providers stub
  refresh cache_ttl now type s got cache =
      let a = ask_providers now s type got in
      (set now (type_text type) s (stub s type a) (ttl_of cache_ttl a) cache, a)

  -- With what the cache gave: a report that is not of an aggregate counts as none.
  unfoldable pub lookup_cached :
      ℕ
      → ℕ
      → IndicatorType
      → String
      → Answers
      → Cache ThreatIntelReport × Option ThreatIntelReport
      → Cache ThreatIntelReport × AggregatedTiReport
  unfolding refresh reconstruct
  lookup_cached cache_ttl now type s got (cache, some cached) =
      elim (str_dec cached.provider "_aggregated") [
        | yes aggregated ↦ (cache, reconstruct cached)
        | no other ↦ refresh cache_ttl now type s got cache
      ]
  lookup_cached cache_ttl now type s got (cache, none) = refresh cache_ttl now type s got cache

  -- `lookup`; `none` is the `ValueError` of an indicator that is not valid.
  unfoldable pub lookup_indicator :
      (String → Option (Address × Option Address))
      → ℕ
      → ℕ
      → IndicatorType
      → String
      → Answers
      → Cache ThreatIntelReport
      → Cache ThreatIntelReport × Option AggregatedTiReport
  unfolding lookup_cached is_valid_indicator
  lookup_indicator parse_ip cache_ttl now type s got cache =
      if is_valid_indicator parse_ip type s
      then (let done = lookup_cached cache_ttl now type s got (get now (type_text type) s cache) in
          (done.0, some (done.1)))
      else (cache, none)
