-- ===== src/Tests/Lookups.antt =====
-- Witnesses for the threat-intelligence client.
use oseye_plateforme.Prelude.{◌≡◌, refl, true, false, Option, none, some, [], ◌∷◌, String, arith}
use oseye_plateforme.Prelude.Floats.{thousandths}
use oseye_plateforme.Decision.Executor.{Address}
use oseye_plateforme.ThreatIntel.Cache.{Cache, get, get_at}
use oseye_plateforme.ThreatIntel.Client.{
  ip, is_valid_indicator, is_non_public, ThreatIntelReport, reported, unsupported, raised,
  aggregate, Answers, ask_providers, aggregate_from, reports_of, errors_of, lookup_indicator,
}
use oseye_plateforme.ThreatIntel.Client.Repeat.{lookup_indicator-lookup_indicator}

abbrev public_address : Address
public_address = record {
  is_loopback = false;
  is_link_local = false;
  is_unspecified = false;
  is_private = false;
  is_multicast = false;
  is_reserved = false;
}

abbrev parse_ip : String → Option (Address × Option Address)
parse_ip s = some (public_address, none)

abbrev abuse : ThreatIntelReport thousandths
abuse = record {
  indicator = "203.0.113.9";
  indicator_type = ip;
  score = 80000;
  malicious = true;
  provider = "abuseipdb";
  tags = "tor" ∷ [];
  last_seen = none;
  raw = record {
    max_score = none;
    malicious = none;
    providers = none;
    tags = none;
    ti_unavailable = none;
  };
  cached_at = 10;
}

abbrev first_answers : Answers thousandths
first_answers = record { answers = reported abuse ∷ raised ∷ unsupported ∷ []; timed_out = false }

abbrev later_answers : Answers thousandths
later_answers = record { answers = raised ∷ raised ∷ raised ∷ []; timed_out = true }

-- Nothing is cached.
abbrev cache : Cache (ThreatIntelReport thousandths)
cache = record { max_size = 100; store = [] }

lookup_indicator-lookup_indicator_example :
    let first =
      lookup_indicator thousandths parse_ip 3600 10 ip "203.0.113.9" first_answers cache in
    (first.1 ≡ some (ask_providers thousandths 10 "203.0.113.9" ip first_answers))
    × ((lookup_indicator thousandths parse_ip 3600 3000 ip "203.0.113.9" later_answers first.0).1
        ≡ some
            (record (ask_providers thousandths 10 "203.0.113.9" ip first_answers) { reports = [] }))
unfolding is_valid_indicator is_non_public get get_at ask_providers aggregate aggregate_from
    reports_of errors_of
lookup_indicator-lookup_indicator_example =
    lookup_indicator-lookup_indicator thousandths parse_ip 3600 10 3000 ip "203.0.113.9"
      first_answers later_answers cache
      (record { positive = omega arith; bounded = omega arith; distinct = tt }) refl refl
      (omega arith)
