-- ===== src/Events/Bus.antt =====
-- core/events/bus.py. Handlers are numbered, since they are compared by identity; what one does is a
-- parameter of `publish`. A handler does not subscribe or unsubscribe while it runs.
pub mod Delivery
use Prim.Native.Char.{code}
use kanna_pa.Prelude.{
  ℕ, String, Bool, true, false, ◌&&◌, List, [], ◌∷◌, ◌++◌, ◌==◌, ◌=ₛ◌, if◌then◌else◌,
}
use kanna_pa.Events.{Event, topic}

pub record Subscription : Type 0 where
  pub topic_prefix : String
  pub handlers : List ℕ

-- The prefixes stand in the order in which they were first used, as in a dict.
pub record EventBus : Type 0 where
  pub wildcard_handlers : List ℕ
  pub subscriptions : List Subscription

-- text.startswith(prefix)
unfoldable pub starts_with : String → String → Bool
starts_with text String.[] = true
starts_with String.[] (String.◌∷◌ d p) = false
starts_with (String.◌∷◌ c t) (String.◌∷◌ d p) = code c == code d && starts_with t p

unfoldable pub add_handler : String → ℕ → List Subscription → List Subscription
add_handler p h [] = record { topic_prefix = p; handlers = h ∷ [] } ∷ []
add_handler p h (s ∷ rest) =
    let others = add_handler p h rest in
    if s.topic_prefix =ₛ p then record s { handlers = s.handlers ++ h ∷ [] } ∷ rest else s ∷ others

unfoldable pub subscribe : String → ℕ → EventBus → EventBus
unfolding add_handler
subscribe p h bus =
    if p =ₛ ""
    then record bus { wildcard_handlers = bus.wildcard_handlers ++ h ∷ [] }
    else record bus { subscriptions = add_handler p h bus.subscriptions }

-- `if handler in handlers: handlers.remove(handler)`
unfoldable pub remove_first : ℕ → List ℕ → List ℕ
remove_first h [] = []
remove_first h (x ∷ xs) = let rest = remove_first h xs in if x == h then xs else x ∷ rest

unfoldable pub remove_handler : String → ℕ → List Subscription → List Subscription
unfolding remove_first
remove_handler p h [] = []
remove_handler p h (s ∷ rest) =
    let others = remove_handler p h rest in
    if s.topic_prefix =ₛ p
    then record s { handlers = remove_first h s.handlers } ∷ rest
    else s ∷ others

unfoldable pub unsubscribe : String → ℕ → EventBus → EventBus
unfolding remove_handler remove_first
unsubscribe p h bus =
    if p =ₛ ""
    then record bus { wildcard_handlers = remove_first h bus.wildcard_handlers }
    else record bus { subscriptions = remove_handler p h bus.subscriptions }

unfoldable pub matching : String → List Subscription → List ℕ
unfolding starts_with
matching t [] = []
matching t (s ∷ rest) =
    let others = matching t rest in
    if starts_with t s.topic_prefix then s.handlers ++ others else others

-- The handlers in the order in which `publish` calls them.
unfoldable pub receivers : EventBus → String → List ℕ
unfolding matching
receivers bus t = bus.wildcard_handlers ++ matching t bus.subscriptions

-- A handler's exception leaves `publish`.
pub data Published (W : Type 0) : Type 0 where
  delivered raised : W → Published W

module _ {W : Type 0} (handle : ℕ → Event → W → Published W) where
  unfoldable pub call_all : List ℕ → Event → W → Published W
  call_all [] e w = delivered w
  call_all (h ∷ hs) e w = elim (handle h e w) [
    | delivered v ↦ call_all hs e v
    | raised v ↦ raised v
  ]

  unfoldable pub publish : EventBus → Event → W → Published W
  unfolding call_all receivers topic
  publish bus e w = call_all (receivers bus (topic e)) e w
