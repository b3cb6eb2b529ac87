-- ===== src/Runner/Receivers/Routed.antt =====
-- The runner's receivers do what the handling of the serial data relies on (src/etst/runner.py).
use embedded_test_runner.Base.{◌≡◌, refl, ap, ◌∙◌, List, [], ◌∷◌, Text, All}
use embedded_test_runner.ReadyRun.Feed.{after, feed}
use embedded_test_runner.Runner.Receivers.{Receiver, Instruments, State, receivers, runner_host}
use embedded_test_runner.Runner.Serial.Heard.{IsRouted}

module _ {C M Suite : Type 0} (d : Instruments C M Suite) where
  abbrev pub feed_each : List (Receiver (State d)) → Receiver (State d)
  feed_each [] line r = r
  feed_each (receiver ∷ rs) line r = feed_each rs line (receiver line r)

  abbrev pub LeavesProtocol : Receiver (State d) → Type 0
  LeavesProtocol receiver = (line : Text) (r : State d) → (receiver line r).protocol ≡ r.protocol

  -- the router feeds a line to each of its receivers, in their order; plugins leave the protocol alone
  pub record IsRouter : Type 0 where
    pub router-each :
        (rs : List (Receiver (State d))) (line : Text) (r : State d)
        → d.router rs line r ≡ feed_each rs line r
    pub plugins-LeavesProtocol : All LeavesProtocol d.plugins

  plugins-protocol :
      (rs : List (Receiver (State d))) (line : Text) (r : State d)
      → All LeavesProtocol rs
      → (feed_each rs line r).protocol ≡ r.protocol
  plugins-protocol [] line r h = refl
  plugins-protocol (receiver ∷ rs) line r h =
      plugins-protocol rs line (receiver line r) h.1 ∙ h.0 line r

  routed-feed :
      IsRouter
      → (line : Text) (r : State d)
      → ((runner_host d).feed line r).protocol ≡ after (feed r.clock r.protocol line)
  unfolding runner_host receivers
  routed-feed laws line r =
      ap (λ (q : State d). q.protocol) (laws.router-each _ line r)
      ∙ plugins-protocol d.plugins line _ laws.plugins-LeavesProtocol

  -- The runner's receivers are an instance of what the handling of the serial data relies on.
  pub runner_host-IsRouted : IsRouter → IsRouted (runner_host d)
  unfolding runner_host
  runner_host-IsRouted laws = record {
    clock = λ r. r.clock;
    protocol-feed = routed-feed laws;
    protocol-set_current_test = λ name r. refl;
    protocol-with_failures = λ failures r. refl;
    protocol-finish = λ r. refl;
    protocol-add_errored = λ name message output r. refl;
    protocol-base_line = λ line r. refl;
  }
