-- ===== src/Calculator/RunTests.antt =====
-- A run of src/kayak/cli/calculator.py with one calculated source, with the theorem applied.
use kayak_python.Base.{
  ℕ, ◌-◌, ◌≡◌, refl, true, false, none, some, List, [], ◌∷◌, codes, decimal, ◌==◌,
}
use kayak_python.Base.Chars.{
  is_space, words_from, split_words, split_from, split_by, replace_from, replace,
}
use kayak_python.Base.Assoc.{get_by, put_by}
use kayak_python.Base.Dict.{get, put}
use kayak_python.Base.Sort.{insert_sorted, sort}
use kayak_python.Base.Attempt.{ok}
use kayak_python.Observations.Store.{flow, data_type_of, Kinds, upsert, store_observation}
use kayak_python.Cache.Tables.{
  first_row, save, get_latest, get_latest_gauge, update_latest, update_latest_gauge,
}
use kayak_python.Calculator.Order.{round, rounds, topo_sort}
use kayak_python.Calculator.Evaluate.{add, number, name, binary, safe_func, eval, safe_eval}
use kayak_python.Calculator.Refs.{
  type_named, ref_value, resolve_list, resolve_refs, put_placeholders, longest_first,
  substitute_placeholders,
}
use kayak_python.Calculator.Sources.{
  Source, Gauge, ids_of_names, gauges_of_sources, names_of_ids, gauge_name, deps_of_refs,
  get_calc_deps, topo_sort_calc_sources,
}
use kayak_python.Calculator.Run.{
  Tables, Setting, store_calc_result, process_calc_source, process_all, with_gauges, calculator,
}
use kayak_python.Calculator.Sound.{IsSound, calculator-Sound}
use kayak_python.Calculator.Tests.{numbers}

-- Values are natural numbers, all finite and none negative.
abbrev kinds : Kinds ℕ ℕ
kinds = record {
  truncate = λ t. t;
  utc = λ t. t;
  same_moment = λ s t. s == t;
  is_finite = λ v. true;
  is_negative = λ v. false;
}

-- The source 9 feeds the gauge "b" with one more than the flow of the gauge "a".
abbrev setting : Setting ℕ
setting = record {
  kinds = kinds;
  numbers = numbers;
  zero_value = 0;
  per_hour = λ v w elapsed. v - w;
  parse = λ s. ok (binary add (name "_v0") (number 1));
  now = 100;
  links = record { gauge_id = 2; source_id = 9 } ∷ [];
  neg_flow_sources = [];
  maps = record { name_to_gauge_id = []; source_to_gauge = []; gauge_id_to_name = [] };
}

abbrev gauges : List Gauge
gauges =
    record { id = 1; name = codes "a"; allow_negative_flow = false }
    ∷ record { id = 2; name = codes "b"; allow_negative_flow = false }
    ∷ []

abbrev sources : List Source
sources =
    record {
      id = 9;
      name = codes "s";
      calc_expression = some record {
        data_type = flow;
        expression = codes "a::flow + 1";
        time_expression = some (codes "a::flow");
      };
    }
    ∷ []

abbrev before : Tables ℕ
before = record {
  observations = [];
  latest = [];
  latest_gauges =
      record {
        gauge_id = 1;
        data_type = flow;
        observed_at = 90;
        value = 41;
        prev_observed_at = none;
        prev_value = none;
        delta_per_hour = none;
        source_id = 3;
      }
      ∷ [];
}

abbrev after_run : Tables ℕ
after_run = record {
  observations = record { source_id = 9; observed_at = 90; data_type = flow; value = 42 } ∷ [];
  latest =
      record {
        source_id = 9;
        data_type = flow;
        observed_at = 90;
        value = 42;
        prev_observed_at = none;
        prev_value = none;
        delta_per_hour = none;
      }
      ∷ [];
  latest_gauges =
      record {
        gauge_id = 1;
        data_type = flow;
        observed_at = 90;
        value = 41;
        prev_observed_at = none;
        prev_value = none;
        delta_per_hour = none;
        source_id = 3;
      }
      ∷ record {
        gauge_id = 2;
        data_type = flow;
        observed_at = 90;
        value = 42;
        prev_observed_at = none;
        prev_value = none;
        delta_per_hour = none;
        source_id = 9;
      }
      ∷ [];
}

one_source : calculator setting gauges sources before ≡ ok after_run
unfolding calculator process_all process_calc_source store_calc_result topo_sort_calc_sources
    topo_sort rounds round get_calc_deps gauge_name deps_of_refs get_by split_words words_from
    is_space split_by split_from resolve_refs resolve_list ref_value put_by type_named
    get_latest_gauge substitute_placeholders put_placeholders longest_first sort insert_sorted
    replace replace_from decimal put get safe_eval eval safe_func store_observation data_type_of
    upsert update_latest update_latest_gauge first_row save ids_of_names gauges_of_sources
    names_of_ids
one_source = refl

before-Sound : IsSound (with_gauges setting gauges) before
unfolding get_latest update_latest first_row
before-Sound = record { acceptable = tt; in_sync = λ i t. refl }

calculator-Sound_example : IsSound (with_gauges setting gauges) after_run
calculator-Sound_example =
    calculator-Sound setting gauges sources before after_run one_source before-Sound
