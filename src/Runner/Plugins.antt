-- ===== src/Runner/Plugins.antt =====
-- Receiver plugins (src/etst/runner.py: `_load_receiver_plugins`, `_notify_plugins`,
-- `on_partition_start`, `on_partition_complete`, `setup`).
--
-- importlib.metadata, the plugins' classes and embedded_bridge's router are parameters. Each call of
-- them may change the world and raise. The warnings are left out.
pub mod Attached
use embedded_test_runner.Base.{
  ◌≡◌, Bool, true, false, Option, none, some, List, [], ◌∷◌, ◌++◌, Text, codes,
}
use embedded_test_runner.Base.Action.{Outcome, done, threw, Action, world}

-- `entry_points` are those of the group `embedded_test_runner.receivers`; `new` is
-- `cls(runner=self)`; `predicate` and `hook` are the attributes, where they can be called, and the
-- attribute `feed` can be or not
pub record PluginApi (E W Entry Class Plugin Predicate : Type 0) : Type 0 where
  pub entry_points : Action E W (List Entry)
  pub load : Entry → Action E W Class
  pub new : Class → Action E W Plugin
  pub has_feed : Plugin → Bool
  pub predicate : Plugin → Option Predicate
  pub hook : Text → Plugin → Option (Action E W (Unit {0}))

-- the router's receivers with their predicates, `_plugin_receivers`, and all else
pub record Attachments (W Receiver Predicate : Type 0) : Type 0 where
  pub routes : List (Receiver × Option Predicate)
  pub plugins : List Receiver
  pub outside : W

module _ {E W Entry Class Plugin Predicate : Type 0}
    (d : PluginApi E W Entry Class Plugin Predicate) where
  abbrev pub State : Type 0
  State = Attachments W Plugin Predicate

  -- `router.add`, which appends, and `_plugin_receivers.append`
  unfoldable pub attach : Plugin → State → State
  attach plugin s = record s {
    routes = s.routes ++ (plugin, d.predicate plugin) ∷ [];
    plugins = s.plugins ++ plugin ∷ [];
  }

  unfoldable pub attach_checked : Outcome E W Plugin → State → State
  attach_checked (threw e w) s = record s { outside = w }
  attach_checked (done plugin w) s =
      let made = record s { outside = w } in
      elim (d.has_feed plugin) [ true ↦ attach plugin made | false ↦ made ]

  unfoldable pub instantiate : Outcome E W Class → State → State
  instantiate (threw e w) s = record s { outside = w }
  instantiate (done class w) s = attach_checked (d.new class w) s

  -- one round of the loop over the entry points
  unfoldable pub load_one : Entry → State → State
  load_one entry s = instantiate (d.load entry s.outside) s

  unfoldable pub load_all : List Entry → State → State
  load_all [] s = s
  load_all (entry ∷ entries) s = load_all entries (load_one entry s)

  unfoldable pub enumerated : Outcome E W (List Entry) → State → State
  enumerated (threw e w) s = record s { outside = w }
  enumerated (done entries w) s = load_all entries (record s { outside = w })

  -- `_load_receiver_plugins`
  unfoldable pub load_receiver_plugins : State → State
  unfolding enumerated
  load_receiver_plugins s = enumerated (d.entry_points s.outside) s

  unfoldable pub call_hook : Option (Action E W (Unit {0})) → W → W
  call_hook none w = w
  call_hook (some hook) w = world (hook w)

  unfoldable pub notify_all : Text → List Plugin → W → W
  notify_all name [] w = w
  notify_all name (plugin ∷ plugins) w = notify_all name plugins (call_hook (d.hook name plugin) w)

  -- `_notify_plugins`
  unfoldable pub notify_plugins : Text → State → State
  notify_plugins name s = record s { outside = notify_all name s.plugins s.outside }

  unfoldable pub on_partition_start : State → State
  on_partition_start s = notify_plugins (codes "on_partition_start") s

  unfoldable pub on_partition_complete : State → State
  on_partition_complete s = notify_plugins (codes "on_partition_complete") s

  -- `setup`, whose first call is that of PlatformIO's base class
  unfoldable pub setup : (State → State) → State → State
  setup base s = on_partition_start (base s)
