-- ===== src/Runner/Plugins/Attached.antt =====
-- Which plugins are attached (src/etst/runner.py: `_load_receiver_plugins`, `_notify_plugins`).
use embedded_test_runner.Base.{
  ◌≡◌, refl, sym, ap, ◌∙◌, Bool, true, false, Option, List, [], ◌∷◌, ◌++◌, append_assoc, append-nil,
  Bool-cases, inl, inr, All, All-append,
}
use embedded_test_runner.Base.Action.{Outcome, done, threw, world}
use embedded_test_runner.Runner.Plugins.{
  PluginApi, State, attach, attach_checked, instantiate, load_one, load_all, enumerated,
  load_receiver_plugins,
}

module _ {E W Entry Class Plugin Predicate : Type 0}
    (d : PluginApi E W Entry Class Plugin Predicate) where
  abbrev pub route : Plugin → Plugin × Option Predicate
  route plugin = (plugin, d.predicate plugin)

  abbrev pub routes_of : List Plugin → List (Plugin × Option Predicate)
  routes_of [] = []
  routes_of (plugin ∷ plugins) = route plugin ∷ routes_of plugins

  abbrev if_fed : Bool → Plugin → List Plugin
  if_fed true plugin = plugin ∷ []
  if_fed false plugin = []

  -- the plugins that an entry point adds: the one it makes, if nothing raises and it can be fed
  usable : Outcome E W Plugin → List Plugin
  usable (threw e w) = []
  usable (done plugin w) = if_fed (d.has_feed plugin) plugin

  made : Outcome E W Class → List Plugin × W
  made (threw e w) = ([], w)
  made (done class w) = (usable (d.new class w), world (d.new class w))

  -- the plugins of a list of entry points, loaded one after another
  unfoldable pub plugins_of : List Entry → W → List Plugin × W
  unfolding made usable
  plugins_of [] w = ([], w)
  plugins_of (entry ∷ entries) w =
      let first = made (d.load entry w) in
      let rest = plugins_of entries first.1 in (first.0 ++ rest.0, rest.1)

  -- plugins put behind those that are there
  unfoldable pub put : List Plugin × W → State d → State d
  put (plugins, w) s = record {
    routes = s.routes ++ routes_of plugins;
    plugins = s.plugins ++ plugins;
    outside = w;
  }

  routes_of-append : (ps qs : List Plugin) → routes_of (ps ++ qs) ≡ routes_of ps ++ routes_of qs
  routes_of-append [] qs = refl
  routes_of-append (p ∷ ps) qs = ap (◌∷◌ (route p)) (routes_of-append ps qs)

  attachments :
      {r r' : List (Plugin × Option Predicate)} {ps ps' : List Plugin}
      → r ≡ r'
      → ps ≡ ps'
      → (w : W)
      → ◌≡◌ {A = State d}
          (record { routes = r; plugins = ps; outside = w })
          (record { routes = r'; plugins = ps'; outside = w })
  attachments e f w = rw (e, f) refl

  put-none : (w : W) (s : State d) → put ([], w) s ≡ record s { outside = w }
  unfolding put
  put-none w s = attachments (append-nil s.routes) (append-nil s.plugins) w

  put-put :
      (ps qs : List Plugin) (v w : W) (s : State d)
      → put (qs, w) (put (ps, v) s) ≡ put (ps ++ qs, w) s
  unfolding put
  put-put ps qs v w s =
      attachments
        (append_assoc s.routes (routes_of ps) (routes_of qs)
          ∙ ap (◌++◌ s.routes) (sym (routes_of-append ps qs)))
        (append_assoc s.plugins ps qs) w

  attach_checked-put :
      (r : Outcome E W Plugin) (s : State d) → attach_checked d r s ≡ put (usable r, world r) s
  unfolding attach_checked usable attach put
  attach_checked-put (threw e w) s = sym (put-none w s)
  attach_checked-put (done plugin w) s = elim (Bool-cases (d.has_feed plugin)) [
    | inl fed ↦ rw (fed, attach_checked) refl
    | inr other ↦ rw (other, attach_checked) (sym (put-none w s))
  ]

  instantiate-put : (r : Outcome E W Class) (s : State d) → instantiate d r s ≡ put (made r) s
  unfolding instantiate made
  instantiate-put (threw e w) s = sym (put-none w s)
  instantiate-put (done class w) s = attach_checked-put (d.new class w) s

  load_all-put :
      (entries : List Entry) (s : State d)
      → load_all d entries s ≡ put (plugins_of entries s.outside) s
  unfolding load_all load_one plugins_of put
  load_all-put [] s = sym (put-none s.outside s)
  load_all-put (entry ∷ entries) s =
      let first = made (d.load entry s.outside) in
      let rest = plugins_of entries first.1 in
      ap (load_all d entries) (instantiate-put (d.load entry s.outside) s)
      ∙ load_all-put entries (put first s)
      ∙ put-put first.0 rest.0 first.1 rest.1 s

  if_fed-fed :
      (b : Bool) (plugin : Plugin)
      → d.has_feed plugin ≡ b
      → All (λ p. d.has_feed p ≡ true) (if_fed b plugin)
  if_fed-fed true plugin h = (h, tt)
  if_fed-fed false plugin h = tt

  usable-fed : (r : Outcome E W Plugin) → All (λ plugin. d.has_feed plugin ≡ true) (usable r)
  unfolding usable
  usable-fed (threw e w) = tt
  usable-fed (done plugin w) = if_fed-fed (d.has_feed plugin) plugin refl

  made-fed : (r : Outcome E W Class) → All (λ plugin. d.has_feed plugin ≡ true) (made r).0
  unfolding made
  made-fed (threw e w) = tt
  made-fed (done class w) = usable-fed (d.new class w)

  plugins_of-fed :
      (entries : List Entry) (w : W)
      → All (λ plugin. d.has_feed plugin ≡ true) (plugins_of entries w).0
  unfolding plugins_of
  plugins_of-fed [] w = tt
  plugins_of-fed (entry ∷ entries) w =
      All-append _ (made (d.load entry w)).0 (plugins_of entries (made (d.load entry w)).1).0
        (made-fed (d.load entry w)) (plugins_of-fed entries (made (d.load entry w)).1)

  -- Where the entry points can be enumerated, loading them attaches exactly the plugins that those
  -- entry points make whose import and construction do not raise and that have a `feed`, in their
  -- order: each behind what the router has, with its predicate, and each among the plugins that are
  -- notified. A broken plugin keeps no other from being attached.
  pub load_receiver_plugins-put :
      (s : State d) (entries : List Entry) (w : W)
      → d.entry_points s.outside ≡ done entries w
      → let added = plugins_of entries w in
        (load_receiver_plugins d s ≡ put added s) × All (λ plugin. d.has_feed plugin ≡ true) added.0
  unfolding load_receiver_plugins enumerated put
  load_receiver_plugins-put s entries w h = (
    ap (λ r. enumerated d r s) h ∙ load_all-put entries (record s { outside = w }),
    plugins_of-fed entries w,
  )
