-- ===== src/Kernel/Metrics.antt =====
-- kernel/observability/metrics.py: counters, histograms and gauges. Measured values are natural
-- numbers; the mirrored OpenTelemetry instruments are outside.
pub mod Laws
use kitematic.Base.{ℕ, ◌+◌, String, Option, List, [], ◌∷◌, ◌++◌, get_or}
use kitematic.Base.Dict.{Dict, lookup, insert}

pub record Metrics : Type 0 where
  pub counters : Dict ℕ
  pub histograms : Dict (List ℕ)
  pub gauges : Dict ℕ

abbrev pub new_metrics : Metrics
new_metrics = record { counters = []; histograms = []; gauges = [] }

module _ (m : Metrics) where
  unfoldable pub get_counter : String → ℕ
  get_counter metric = get_or (lookup metric m.counters) 0

  unfoldable pub increment_by : String → ℕ → Metrics
  unfolding get_counter
  increment_by metric value = record m {
    counters = insert metric (get_counter metric + value) m.counters;
  }

  unfoldable pub increment : String → Metrics
  unfolding increment_by
  increment metric = increment_by metric 1

  unfoldable pub get_histogram : String → List ℕ
  get_histogram metric = get_or (lookup metric m.histograms) []

  unfoldable pub record_value : String → ℕ → Metrics
  unfolding get_histogram
  record_value metric value = record m {
    histograms = insert metric (get_histogram metric ++ value ∷ []) m.histograms;
  }

  unfoldable pub set_gauge : String → ℕ → Metrics
  set_gauge metric value = record m { gauges = insert metric value m.gauges }

  unfoldable pub get_gauge : String → Option ℕ
  get_gauge metric = lookup metric m.gauges

  unfoldable pub increment_gauge : String → ℕ → Metrics
  increment_gauge metric delta = record m {
    gauges = insert metric (get_or (lookup metric m.gauges) 0 + delta) m.gauges;
  }
