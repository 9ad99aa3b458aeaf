-- ===== src/Events/Tests.antt =====
-- A bus with one subscriber to everything and one to the tools.
use kanna_pa.Prelude.{◌≡◌, refl, [], ◌∷◌}
use kanna_pa.Events.Bus.{EventBus, starts_with, subscribe, unsubscribe, receivers, matching}
use kanna_pa.Events.Bus.Delivery.{count, unsubscribe-subscribe}

abbrev two_subscribers : EventBus
two_subscribers = record {
  wildcard_handlers = 1 ∷ [];
  subscriptions = record { topic_prefix = "tool."; handlers = 2 ∷ [] } ∷ [];
}

tool_event : receivers two_subscribers "tool.executed" ≡ 1 ∷ 2 ∷ []
unfolding receivers matching starts_with
tool_event = refl

unsubscribe-subscribe_example :
    count 2
      (receivers (unsubscribe "tool." 2 (subscribe "tool." 2 two_subscribers)) "tool.executed")
    ≡ count 2 (receivers two_subscribers "tool.executed")
unsubscribe-subscribe_example = unsubscribe-subscribe "tool." 2 2 two_subscribers "tool.executed"
