-- ===== src/Kernel/Metrics/Laws.antt =====
-- What an update of the metrics registry (kernel/observability/metrics.py) does to each reading.
use kitematic.Base.{ℕ, ◌+◌, String, str_eq, ◌≡◌, refl, [], ◌∷◌, ◌++◌, arith, if◌then◌else◌}
use kitematic.Base.Dict.{lookup-insert}
use kitematic.Kernel.Metrics.{
  Metrics, get_counter, increment_by, increment, get_histogram, record_value,
}

module _ (m : Metrics) (metric j : String) where
  -- Incrementing one counter adds to it and leaves every other counter as it was.
  pub get_counter-increment_by :
      (value : ℕ)
      → get_counter (increment_by m metric value) j
        ≡ (if str_eq metric j then get_counter m metric + value else get_counter m j)
  unfolding get_counter increment_by
  get_counter-increment_by value = rw lookup-insert (ground arith)

  pub get_counter-increment :
      get_counter (increment m metric) j
      ≡ (if str_eq metric j then get_counter m metric + 1 else get_counter m j)
  unfolding increment
  get_counter-increment = get_counter-increment_by 1

  pub get_counter-record_value :
      (value : ℕ) → get_counter (record_value m metric value) j ≡ get_counter m j
  unfolding get_counter record_value
  get_counter-record_value value = refl

  -- Recording a value appends it to one histogram and leaves every other as it was.
  pub get_histogram-record_value :
      (value : ℕ)
      → get_histogram (record_value m metric value) j
        ≡ (if str_eq metric j then get_histogram m metric ++ value ∷ [] else get_histogram m j)
  unfolding get_histogram record_value
  get_histogram-record_value value = rw lookup-insert (ground arith)
