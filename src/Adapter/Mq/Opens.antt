-- ===== src/Adapter/Mq/Opens.antt =====
-- Subscribing does to the world no more than the single calls do.
use provisioning_api.Base.{String, Bool, true, false, Option, none, some, List}
use provisioning_api.Base.Exec.{Exn, not_found}
use provisioning_api.Base.Steps.{Steps, Steps-pure, Steps-raise, Steps-bind, Steps-try, Steps-if}
use provisioning_api.Nats.{JetStream, StreamConfig, ConsumerConfig}
use provisioning_api.Adapter.Mq.{
  stream_config, consumer_config, stream_key, durable_key, on_missing_stream, on_missing_consumer,
  ensure_stream, ensure_consumer,
}
use provisioning_api.Adapter.Mq.Push.{subscribe_to_queue}

module _ {S B : Type 0} (js : JetStream S B) {R : S → S → Type 0} (here : (s : S) → R s s)
    (onward : (s t u : S) → R s t → R t u → R s u)
    (stream_info : (n : String) → Steps R (js.stream_info n))
    (add_stream : (c : StreamConfig) → Steps R (js.add_stream c))
    (update_stream : (c : StreamConfig) → Steps R (js.update_stream c))
    (consumer_info : (n d : String) → Steps R (js.consumer_info n d))
    (add_consumer : (n : String) (c : ConsumerConfig) → Steps R (js.add_consumer n c))
    (subscribe : (subj d n : String) → Steps R (js.subscribe subj d n)) where
  Steps-on_missing_stream :
      (config : StreamConfig) (e : Exn) → Steps R (on_missing_stream js config e)
  unfolding on_missing_stream
  Steps-on_missing_stream config not_found =
      Steps-bind here onward _ _ (add_stream config) (λ _. Steps-pure here false)
  Steps-on_missing_stream config e = Steps-raise here e

  Steps-ensure_stream :
      (stream : String) (manual : Bool) (subjects : Option (List String))
      → Steps R (ensure_stream js stream manual subjects)
  unfolding ensure_stream
  Steps-ensure_stream stream manual subjects =
      Steps-bind here onward _ _
        (Steps-try here onward _ _
          (Steps-bind here onward _ _ (stream_info (stream_key stream)) (λ _. Steps-pure here true))
          (Steps-on_missing_stream (stream_config stream manual subjects)))
        (λ exists.
          Steps-if exists _ _ (λ _. update_stream (stream_config stream manual subjects))
            (λ _. Steps-pure here tt))

  Steps-on_missing_consumer :
      (name : String) (config : ConsumerConfig) (e : Exn)
      → Steps R (on_missing_consumer js name config e)
  unfolding on_missing_consumer
  Steps-on_missing_consumer name config not_found = add_consumer name config
  Steps-on_missing_consumer name config e = Steps-raise here e

  Steps-ensure_consumer :
      (stream : String) (deliver : Option String) → Steps R (ensure_consumer js stream deliver)
  unfolding ensure_consumer
  Steps-ensure_consumer stream deliver =
      Steps-try here onward _ _ (consumer_info (stream_key stream) (durable_key stream))
        (Steps-on_missing_consumer (stream_key stream) (consumer_config stream deliver))

  pub Steps-subscribe_to_queue :
      (subject deliver : String) → Steps R (subscribe_to_queue js subject deliver)
  unfolding subscribe_to_queue
  Steps-subscribe_to_queue subject deliver =
      Steps-bind here onward _ _ (Steps-ensure_stream subject false none) (λ _.
        Steps-bind here onward _ _ (Steps-ensure_consumer subject (some deliver))
          (λ _. subscribe subject (durable_key subject) (stream_key subject)))
