-- ===== src/Events/Dispatcher.antt =====
-- event.go: the dispatcher, which hands an event to every handler in turn.
use airbnb.Common.{◌≡◌, refl, List, [], ◌∷◌, ◌++◌}

-- How a handler ended, with what it left behind: a panic is recovered from and logged.
pub data Ending (S : Type 0) : Type 0 where
  returned panicked : S → Ending S

abbrev pub Handler : Type 0 → Type 0 → Type 0
Handler S E = E → S → Ending S

abbrev pub left_by : {S : Type 0} → Ending S → S
left_by (returned s) = s
left_by (panicked s) = s

module _ {S E : Type 0} where
  -- `Dispatcher.Subscribe`
  unfoldable pub subscribe : Handler S E → List (Handler S E) → List (Handler S E)
  subscribe h handlers = handlers ++ h ∷ []

  -- `Dispatcher.Publish`
  unfoldable pub publish : List (Handler S E) → E → S → S
  publish [] e s = s
  publish (h ∷ rest) e s = publish rest e (left_by (h e s))

  -- A handler subscribed last runs after all others, on what they left, whether or not they panicked.
  publish-subscribe :
      (h : Handler S E) (handlers : List (Handler S E)) (e : E) (s : S)
      → publish (subscribe h handlers) e s ≡ left_by (h e (publish handlers e s))
  unfolding publish subscribe
  publish-subscribe h [] e s = refl
  publish-subscribe h (g ∷ rest) e s = publish-subscribe h rest e (left_by (g e s))
