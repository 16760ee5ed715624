-- ===== src/Examples/Journey.antt =====
-- The way of a message on the server in memory.
use provisioning_api.Base.{String, none, [], ◌∷◌, map, ◌≡◌, refl}
use provisioning_api.Base.Exec.{ok}
use provisioning_api.Models.Json.{obj}
use provisioning_api.Models.Queue.{dump_message}
use provisioning_api.Nats.{Msg}
use provisioning_api.Adapter.Mq.{provisioning_message_from}
use provisioning_api.Adapter.Mq.Reply.{sequence_text}
use provisioning_api.Adapter.Mq.Push.{wait_for_event}
use provisioning_api.Services.Messages.{add_live_event}
use provisioning_api.Dispatcher.{subscribers}
use provisioning_api.Dispatcher.Delivery.{delivery}
use provisioning_api.Dispatcher.Loop.{Process, take_turn}
use provisioning_api.Memory.{Blob, dumped, World, blank, codec, conversions, js}
use provisioning_api.Memory.Laws.{js-IsJournal, js-IsReliable}
use provisioning_api.Journey.{announcement, Carries, message_arrives}
use provisioning_api.Examples.Dispatcher.{app, mapping, created}

abbrev carrier : String → String → Msg Blob
carrier subject reply = record {
  subject = subject;
  reply = reply;
  payload = dumped (obj (dump_message created));
  headers = none;
  num_delivered = 1;
}

abbrev event : Msg Blob
event = carrier "incoming" "$JS.ACK.stream:incoming.durable_name:incoming.1.17.18.1700000000.0"

abbrev received : Msg Blob
received = carrier "app.main" "$JS.ACK.stream:app.durable_name:app.1.18.17.1700000000.0"

abbrev process : Process World Blob
process = record { world = blank; queue = event ∷ []; mapping = mapping }

event-Carries : Carries conversions event (announcement codec created).content 17
unfolding sequence_text
event-Carries = record { payload_is = refl; text = "17"; reply_is = refl; number_is = refl }

received-Carries : Carries conversions received (delivery codec created app).content 18
unfolding sequence_text
received-Carries = record { payload_is = refl; text = "18"; reply_is = refl; number_is = refl }

message_arrives_example :
    let after =
      take_turn codec js conversions [] (wait_for_event codec conversions (event ∷ [])) process in
    ((add_live_event codec js created blank).1.published ≡ announcement codec created ∷ [])
    × (after.0 ≡ ok tt)
    × (after.1.queue ≡ [])
    × (after.1.world.published
        ≡ map (delivery codec created) (subscribers created.realm created.topic mapping))
    × (provisioning_message_from conversions codec received
        ≡ ok (record { message = created; sequence_number = 18; num_delivered = 1 }))
message_arrives_example =
    message_arrives codec js conversions created refl (λ fs. refl) js-IsJournal js-IsReliable blank
      process event 17 [] [] app received 18 event-Carries refl received-Carries
