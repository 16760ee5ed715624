-- ===== src/Examples/Registry.antt =====
-- The subscription service as a map of names, on the server in memory.
use provisioning_api.Base.{String, true, some, ◌==◌, eq_iff}
use provisioning_api.Adapter.Mq.{stream_config, stream_key}
use provisioning_api.Nats.Streams.{is_stream_name}
use provisioning_api.Memory.{set_stream}
use provisioning_api.Base.{Bool, false, none, List, [], ◌∷◌, ◌≡◌, refl}
use provisioning_api.Models.Subscription.{running}
use provisioning_api.Adapter.Kv.{loads_if}
use provisioning_api.Services.Subscriptions.{validate_if}
use provisioning_api.Services.Subscriptions.Read.{stored_info}
use provisioning_api.Services.Registry.{
  Request, register, look, report, cancel, Registry, perform_all, serve_all,
}
use provisioning_api.Services.Registry.Simulation.{Represents, Admits, perform_all_refines}
use provisioning_api.Memory.{World, blank, codec, conversions, kv, js, passwords}
use provisioning_api.Memory.Laws.{backend}
use provisioning_api.Examples.Subscriptions.{app}

abbrev nobody : Registry
nobody = λ name. none

-- The dispatcher has set up its own stream, a work queue, already.
abbrev dispatching : World
dispatching = set_stream "stream:incoming" (some (stream_config "incoming" false none)) blank

abbrev own : String → Bool
own name = name == "app"

abbrev plain : String → Bool
plain password = true

dispatching-Represents : Represents backend own plain dispatching nobody
unfolding stored_info loads_if validate_if stream_config stream_key is_stream_name
dispatching-Represents = record {
  entries = λ name i. refl;
  streams = λ name i. rw ((eq_iff name "app").0 i) refl;
}

app-Admits : Admits backend own plain
unfolding is_stream_name stream_key
app-Admits = record {
  named = λ name i. rw ((eq_iff name "app").0 i) refl;
  exact = λ p q s i j. refl;
}

abbrev requests : List Request
requests =
    register app ∷ report "app" running ∷ register app ∷ look "app" ∷ cancel "app" ∷ look "app" ∷ []

perform_all_refines_example :
    ((perform_all codec kv conversions js passwords requests dispatching).0
      ≡ (serve_all requests nobody).0)
    × Represents backend own plain
        (perform_all codec kv conversions js passwords requests dispatching).1
        (serve_all requests nobody).1
perform_all_refines_example =
    perform_all_refines backend own plain app-Admits requests dispatching nobody
      ((refl, refl), (refl, ((refl, refl), (refl, (refl, (refl, tt)))))) dispatching-Represents
