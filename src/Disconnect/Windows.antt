-- ===== src/Disconnect/Windows.antt =====
-- Disconnect windows open and close in turn.
use embedded_test_runner.Base.{
  ℕ, ◌+◌, ◌≡◌, ◌≢◌, ◌↔◌, refl, Bool, true, false, Option, none, List, [], ◌∷◌, ◌++◌, Text, arith,
  strip, subst,
}
use embedded_test_runner.Base.Int.{ℤ}
use embedded_test_runner.Protocol.Line.{ParsedTag, parse_line}
use embedded_test_runner.Disconnect.{
  Handler, Call, disconnected, reconnected, Fed, returned, raised, feed_parsed, feed,
}

abbrev pub after : Fed → Handler
after (returned h calls) = h
after (raised h) = h

abbrev pub calls_of : Fed → List Call
calls_of (returned h calls) = calls
calls_of (raised h) = []

-- the lines with their times, and the state and all calls at the end
abbrev pub play : Handler → List (ℤ × Text) → Handler
play h [] = h
play h ((now, message) ∷ lines) = play (after (feed now h message)) lines

abbrev pub all_calls : Handler → List (ℤ × Text) → List Call
all_calls h [] = []
all_calls h ((now, message) ∷ lines) =
    calls_of (feed now h message) ++ all_calls (after (feed now h message)) lines

-- A window is open, or not, before the calls and after them; a call of `on_reconnect` closes one
-- that is open, and a call of `on_disconnect` opens one or announces it anew.
abbrev pub Windows : Bool → List Call → Bool → Type 0
Windows open' [] end = end ≡ open'
Windows open' (disconnected ms ∷ calls) end = Windows true calls end
Windows true (reconnected ∷ calls) end = Windows false calls end
Windows false (reconnected ∷ calls) end = ⊥

abbrev pub closings : List Call → ℕ
closings [] = 0
closings (disconnected ms ∷ calls) = closings calls
closings (reconnected ∷ calls) = closings calls + 1

Windows-append :
    (a b c : Bool) (xs ys : List Call) → Windows a xs b → Windows b ys c → Windows a (xs ++ ys) c
Windows-append a b c [] ys h k = subst (λ x. Windows x ys c) h k
Windows-append a b c (disconnected ms ∷ xs) ys h k = Windows-append true b c xs ys h k
Windows-append true b c (reconnected ∷ xs) ys h k = Windows-append false b c xs ys h k
Windows-append false b c (reconnected ∷ xs) ys h k = absurd h

closings-append : (xs ys : List Call) → closings (xs ++ ys) ≡ closings xs + closings ys
closings-append [] ys = omega arith
closings-append (disconnected ms ∷ xs) ys = closings-append xs ys
closings-append (reconnected ∷ xs) ys = omega (arith, closings-append xs ys)

-- the callbacks that a handler has
abbrev pub HasCallbacks : Handler → Type 0
HasCallbacks h = (h.on_disconnect ≡ true) × (h.on_reconnect ≡ true)

record Opens (h : Handler) (r : Fed) : Type 0 where
  callbacks : HasCallbacks (after r)
  windows : Windows h.active (calls_of r) (after r).active
  count : (after r).disconnect_count ≡ h.disconnect_count + closings (calls_of r)

feed_parsed-Opens :
    (now : ℤ) (h : Handler) (t : Option ParsedTag) → HasCallbacks h → Opens h (feed_parsed now h t)
unfolding feed_parsed
feed_parsed-Opens now h t cb = record {
  callbacks = ground arith;
  windows = ground arith;
  count = ground arith;
}

feed-Opens :
    (now : ℤ) (h : Handler) (message : Text) → HasCallbacks h → Opens h (feed now h message)
unfolding feed
feed-Opens now h message cb = feed_parsed-Opens now h (parse_line (strip message)) cb

-- Over any lines the callbacks of a handler that has both are called in turn: `on_reconnect` only
-- while a window is open, which it closes, so that it is never called twice with no `on_disconnect`
-- between; the window is open at the end exactly if the handler is active; and the count of cycles
-- grows by the number of `on_reconnect` calls.
pub play-Windows :
    (h : Handler) (lines : List (ℤ × Text))
    → HasCallbacks h
    → Windows h.active (all_calls h lines) (play h lines).active
      × ((play h lines).disconnect_count ≡ h.disconnect_count + closings (all_calls h lines))
play-Windows h [] cb = (refl, omega arith)
play-Windows h ((now, message) ∷ lines) cb =
    let first = feed-Opens now h message cb in
    let (windows, count) = play-Windows (after (feed now h message)) lines first.callbacks in
    let h' = after (feed now h message) in
    (
      Windows-append h.active h'.active (play h' lines).active (calls_of (feed now h message))
          (all_calls h' lines) first.windows windows,
      omega (
        arith,
        count,
        first.count,
        closings-append (calls_of (feed now h message))
            (all_calls (after (feed now h message)) lines),
      ),
    )

-- the start of the window is known exactly while it is open
abbrev pub IsTimed : Handler → Type 0
IsTimed h = (h.active ≡ true) ↔ (h.disconnect_time ≢ none)

feed_parsed-IsTimed :
    (now : ℤ) (h : Handler) (t : Option ParsedTag)
    → IsTimed h
    → IsTimed (after (feed_parsed now h t))
unfolding feed_parsed
feed_parsed-IsTimed now h t timed = ground arith

-- Whatever the lines, the time of the disconnect is known exactly while the handler is active.
pub play-IsTimed : (h : Handler) (lines : List (ℤ × Text)) → IsTimed h → IsTimed (play h lines)
unfolding feed
play-IsTimed h [] timed = timed
play-IsTimed h ((now, message) ∷ lines) timed =
    play-IsTimed (after (feed now h message)) lines
      (feed_parsed-IsTimed now h (parse_line (strip message)) timed)
