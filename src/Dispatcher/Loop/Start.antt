-- ===== src/Dispatcher/Loop/Start.antt =====
-- The dispatcher from its start on.
use provisioning_api.Base.{String, List, ◌++◌, map, ◌≡◌, refl, ◌∙◌}
use provisioning_api.Base.Exec.{Exec, ok, ◌>>◌}
use provisioning_api.Base.Outcome.{bind_ok, group_ok}
use provisioning_api.Models.Pydantic.{Conversions}
use provisioning_api.Models.Subscription.{subscriptions}
use provisioning_api.Models.Queue.{dispatcher_stream}
use provisioning_api.Nats.{Codec, KeyValue, JetStream, Msg}
use provisioning_api.Nats.Journal.{Publication, IsJournal, KeepsAcked, SetsUp}
use provisioning_api.Adapter.Mq.Opens.{Steps-subscribe_to_queue}
use provisioning_api.Adapter.Mq.Push.{subscribe_to_queue}
use provisioning_api.Dispatcher.{update_subscriptions_mapping}
use provisioning_api.Dispatcher.Loop.{Process, Happening, in_world, run_tasks, dispatch_events}
use provisioning_api.Dispatcher.Loop.Conservation.{
  AllQuiet, arrivals, ledger, ledger-run_tasks, acked-update_subscriptions_mapping,
}

module _ {S B : Type 0} (codec : Codec B) (js : JetStream S B) (c : Conversions) (kv : KeyValue S B)
    {published : S → List (Publication B)} {acked : S → List (Msg B)}
    (J : IsJournal js published acked) (K : KeepsAcked kv acked) (U : SetsUp js acked) where
  acked-subscribe_to_queue :
      (subject deliver : String) (s : S)
      → acked (subscribe_to_queue js subject deliver s).1 ≡ acked s
  acked-subscribe_to_queue subject deliver =
      (Steps-subscribe_to_queue js {R = λ s t. acked t ≡ acked s} (λ s. refl) (λ s t u e f. f ∙ e)
        (λ n. record { at = U.acked-stream_info n }) (λ c. record { at = U.acked-add_stream c })
        (λ c. record { at = U.acked-update_stream c })
        (λ n d. record { at = U.acked-consumer_info n d })
        (λ n c. record { at = U.acked-add_consumer n c })
        (λ subj d n. record { at = U.acked-subscribe subj d n }) subject deliver).at

  module _ (hs : List (Happening S B)) (quiet : AllQuiet codec js c kv J K hs) where
    -- The two tasks with the opening of the watch.
    abbrev watched : Exec (Process S B) (Unit {0})
    watched = do
      in_world (kv.key_value subscriptions)
      in_world (kv.watchall subscriptions)
      run_tasks codec js c kv hs

    ledger-watched :
        (p : Process S B)
        → (watched p).0 ≡ ok tt
        → ledger codec js c kv J K (watched p).1
          ≡ ledger codec js c kv J K p ++ map (λ m. m.reply) (arrivals hs)
    ledger-watched p h =
        let (_, _, opened, same) = bind_ok (in_world (kv.key_value subscriptions)) _ p tt h in
        let (_, _, ran, alike) = bind_ok (in_world (kv.watchall subscriptions)) _ _ tt opened in
        rw (same, alike)
          (ledger-run_tasks codec js c kv J K hs _ quiet ran
            ∙ rw (K.acked-watchall subscriptions _, K.acked-key_value subscriptions p.world) refl)

    -- From the start of `dispatch_events` on, as long as nothing is raised: however the pushed
    -- messages, the changes of the subscriptions, the rounds of the loop and other processes
    -- interleave, the messages that were acknowledged, followed by those in the queue, are the ones
    -- that were acknowledged or in the queue before and those that have arrived since, in that
    -- order. None is lost, acknowledged twice or overtaken.
    pub ledger-dispatch_events :
        (p : Process S B)
        → (dispatch_events codec js c kv hs p).0 ≡ ok tt
        → ledger codec js c kv J K (dispatch_events codec js c kv hs p).1
          ≡ ledger codec js c kv J K p ++ map (λ m. m.reply) (arrivals hs)
    unfolding dispatch_events
    ledger-dispatch_events p h =
        let (_, _, subscribed, same) =
          bind_ok (in_world (subscribe_to_queue js dispatcher_stream "dispatcher-service")) _ p tt
            h in
        let (mapping, _, filled, alike) =
          bind_ok (in_world (update_subscriptions_mapping codec kv c)) _ _ tt subscribed in
        let (ran, equal) = group_ok watched _ tt filled in
        rw (same, alike, equal)
          (ledger-watched _ ran
            ∙ rw
                (
                  acked-update_subscriptions_mapping codec js c kv J K _,
                  acked-subscribe_to_queue dispatcher_stream "dispatcher-service" p.world,
                )
                refl)
