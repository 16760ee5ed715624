-- ===== src/Dispatcher/Mapping.antt =====
-- The mapping of realms and topics to subscriptions of the dispatcher.
use provisioning_api.Base.{String, Bool, false, ◌&&◌, ◌||◌, List, [], ◌∷◌, ◌==◌}
use provisioning_api.Models.Subscription.{RealmTopic, Subscription}

-- The topic of a message is one of the subscription's.
abbrev pub wants : String → String → List RealmTopic → Bool
wants realm topic [] = false
wants realm topic (rt ∷ rts) = (rt.realm == realm && rt.topic == topic) || wants realm topic rts
