-- ===== src/Tests/Wiring.antt =====
-- Plugins and the summary on concrete inputs.
use embedded_test_runner.Base.{
  ◌≡◌, refl, ℕ, ◌+◌, Bool, true, false, not, Option, some, none, List, [], ◌∷◌, ◌++◌, codes, Text,
  All, length, ◌==◌, if◌then◌else◌,
}
use embedded_test_runner.Base.Int.{pos}
use embedded_test_runner.Base.Dict.{keys}
use embedded_test_runner.Base.Action.{done, threw}
use embedded_test_runner.Runner.Plugins.{
  PluginApi, Attachments, State, load_receiver_plugins, notify_plugins,
}
use embedded_test_runner.Runner.Plugins.Attached.{plugins_of, put, load_receiver_plugins-put}
use embedded_test_runner.Runner.Results.{Failures, messages_of}
use embedded_test_runner.Runner.Results.Tracked.{Output, track, messages_in, messages_of-track}
use embedded_test_runner.Runner.Summary.{passed_tests, summary_lines}
use embedded_test_runner.Runner.Summary.Counts.{passed_tests-counts}

-- plugins are numbers: 0 cannot be imported, 1 cannot be built, 2 has no `feed`, and the hook of 3
-- raises; the world is the list of the hooks called
abbrev api : PluginApi (Unit {0}) (List ℕ) ℕ ℕ ℕ ℕ
api = record {
  entry_points = λ w. done (0 ∷ 3 ∷ 1 ∷ 2 ∷ 4 ∷ []) w;
  load = λ n w. if n == 0 then threw tt w else done n w;
  new = λ n w. if n == 1 then threw tt w else done n w;
  has_feed = λ n. not (n == 2);
  predicate = λ n. if n == 4 then some 0 else none;
  hook = λ name n. some (λ w. if n == 3 then threw tt (w ++ n ∷ []) else done tt (w ++ n ∷ []));
}

abbrev before : State api
before = record { routes = (9, none) ∷ []; plugins = []; outside = [] }

loads :
    notify_plugins api (codes "on_partition_start") (load_receiver_plugins api before) ≡ record {
      routes = (9, none) ∷ (3, none) ∷ (4, some 0) ∷ [];
      plugins = 3 ∷ 4 ∷ [];
      outside = 3 ∷ 4 ∷ [];
    }
unfolding embedded_test_runner.Runner.Plugins.attach
    embedded_test_runner.Runner.Plugins.attach_checked embedded_test_runner.Runner.Plugins.call_hook
    embedded_test_runner.Runner.Plugins.instantiate embedded_test_runner.Runner.Plugins.load_all
    embedded_test_runner.Runner.Plugins.load_one embedded_test_runner.Runner.Plugins.notify_all
    load_receiver_plugins notify_plugins
loads = refl

load_receiver_plugins-put_example :
    (load_receiver_plugins api before ≡ put api (plugins_of api (0 ∷ 3 ∷ 1 ∷ 2 ∷ 4 ∷ []) []) before)
    × All (λ plugin. api.has_feed plugin ≡ true) (plugins_of api (0 ∷ 3 ∷ 1 ∷ 2 ∷ 4 ∷ []) []).0
load_receiver_plugins-put_example =
    load_receiver_plugins-put api before (0 ∷ 3 ∷ 1 ∷ 2 ∷ 4 ∷ []) [] refl

abbrev ran : List Text
ran = codes "a" ∷ codes "b" ∷ codes "c" ∷ []

abbrev failed_tests : Failures
failed_tests = (codes "b", codes "x" ∷ []) ∷ []

summarizes :
    summary_lines ran failed_tests (pos 4)
    ≡ [] ∷ codes "[runner] 3 ran of 4 expected | 2 passed | 1 failed | 1 NEVER RAN" ∷ []
unfolding embedded_test_runner.Base.Decimal.str_int embedded_test_runner.Base.Dict.contains
    embedded_test_runner.Base.Int.◌-ℤ◌ embedded_test_runner.Base.filter
    embedded_test_runner.Base.text_eq embedded_test_runner.Runner.Summary.falls_short
    embedded_test_runner.Runner.Summary.join_bars embedded_test_runner.Runner.Summary.summary_parts
    keys passed_tests summary_lines
summarizes = refl

passed_tests-counts_example :
    length (passed_tests ran failed_tests) + length (keys failed_tests) ≡ 3
unfolding embedded_test_runner.Base.Dict.contains embedded_test_runner.Base.text_eq keys
passed_tests-counts_example =
    passed_tests-counts ran failed_tests (refl, (refl, (refl, tt))) (refl, tt) (refl, tt)

abbrev test_output : List Output
test_output =
    record { test = codes "a"; line = codes "a.cpp:3: ERROR: CHECK( x ) is NOT correct!" }
    ∷ record { test = codes "b"; line = codes "b.cpp:4: FATAL ERROR: REQUIRE( y )" }
    ∷ record { test = codes "a"; line = codes "values: CHECK( 1 )" }
    ∷ record { test = codes "a"; line = codes "a.cpp:9: ERROR: CHECK( z )" }
    ∷ []

tracks :
    messages_in (codes "a") test_output
    ≡ codes "CHECK( x ) is NOT correct!" ∷ codes "CHECK( z )" ∷ []
unfolding embedded_test_runner.Base.find embedded_test_runner.Base.is_space
    embedded_test_runner.Base.strip embedded_test_runner.Base.text_eq
    embedded_test_runner.Runner.Results.failure_in messages_in
tracks = refl

messages_of-track_example :
    messages_of (codes "a") (track test_output failed_tests)
    ≡ messages_of (codes "a") failed_tests ++ messages_in (codes "a") test_output
messages_of-track_example = messages_of-track (codes "a") test_output failed_tests
