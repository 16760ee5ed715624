-- ===== src/Adapter/Mq/Streams.antt =====
-- `ensure_stream`, `ensure_consumer` and the deletions, over a server that can be reached.
use provisioning_api.Base.{
  String, Bool, ◌&&◌, true, Option, none, some, List, ◌≡◌, refl, ◌==◌, eq_iff, arith, if◌then◌else◌,
}
use mathlib.Core.Option.{get_or}
use provisioning_api.Base.Exec.{ok}
use provisioning_api.Nats.{JetStream, StreamConfig, ConsumerConfig}
use provisioning_api.Nats.Streams.{is_stream_name, IsJetStream}
use provisioning_api.Adapter.Mq.{
  stream_key, durable_key, stream_config, consumer_config, ensure_stream, ensure_consumer,
  delete_stream, delete_consumer,
}

-- A stream of that name has the retention policy of the new configuration; where there is none, the
-- name is one that a stream may have.
abbrev pub Compatible : Option StreamConfig → StreamConfig → Type 0
Compatible none config = is_stream_name config.name ≡ true
Compatible (some old) config = old.retention ≡ config.retention

module _ {S B : Type 0} (js : JetStream S B) {stream : S → String → Option StreamConfig}
    {consumer : S → String → String → Option ConsumerConfig}
    (J : IsJetStream js stream consumer) where
  module _ (name : String) (manual_delete : Bool) (subjects : Option (List String)) (s : S) where
    ensure_stream_cases :
        (o : Option StreamConfig)
        → stream s (stream_key name) ≡ o
        → Compatible o (stream_config name manual_delete subjects)
        → ((ensure_stream js name manual_delete subjects s).0 ≡ ok tt)
          × ((m : String)
              → stream (ensure_stream js name manual_delete subjects s).1 m ≡ (
                  if stream_key name == m
                  then some (stream_config name manual_delete subjects)
                  else stream s m))
    unfolding ensure_stream
    ensure_stream_cases none e h = (
      simp (J.stream_info_lem, e, J.add_stream-ok _ s e h),
      λ m. simp (J.stream_info_lem, e, J.add_stream-ok _ s e h, J.stream-add_stream _ s m e h),
    )
    ensure_stream_cases (some old) e h = (
      simp (J.stream_info_lem, e, J.update_stream-ok _ old s e h),
      λ m. simp (J.stream_info_lem, e, J.stream-update_stream _ old s m e h),
    )

    pub ensure_stream_lem :
        Compatible (stream s (stream_key name)) (stream_config name manual_delete subjects)
        → ((ensure_stream js name manual_delete subjects s).0 ≡ ok tt)
          × ((m : String)
              → stream (ensure_stream js name manual_delete subjects s).1 m ≡ (
                  if stream_key name == m
                  then some (stream_config name manual_delete subjects)
                  else stream s m))
    ensure_stream_lem h = ensure_stream_cases (stream s (stream_key name)) refl h

    consumer-ensure_stream_cases :
        (o : Option StreamConfig)
        → stream s (stream_key name) ≡ o
        → consumer (ensure_stream js name manual_delete subjects s).1 ≡ consumer s
    unfolding ensure_stream
    consumer-ensure_stream_cases none e =
        simp (J.stream_info_lem, e)
          (ground (arith, J.consumer-add_stream (stream_config name manual_delete subjects) s))
    consumer-ensure_stream_cases (some old) e =
        simp (J.stream_info_lem, e, J.consumer-update_stream)

    pub consumer-ensure_stream :
        consumer (ensure_stream js name manual_delete subjects s).1 ≡ consumer s
    consumer-ensure_stream = consumer-ensure_stream_cases (stream s (stream_key name)) refl

  module _ (name : String) (deliver : Option String) (s : S) where
    ensure_consumer_cases :
        (o : Option ConsumerConfig)
        → consumer s (stream_key name) (durable_key name) ≡ o
        → ((ensure_consumer js name deliver s).0 ≡ ok tt)
          × ((m d : String)
              → consumer (ensure_consumer js name deliver s).1 m d ≡ (
                  if stream_key name == m && durable_key name == d
                  then some (get_or o (consumer_config name deliver))
                  else consumer s m d))
    unfolding ensure_consumer
    ensure_consumer_cases none e = (
      simp (J.consumer_info_lem, e, J.add_consumer-ok _ _ s e),
      λ m d. simp (J.consumer_info_lem, e, J.consumer-add_consumer _ _ s m d e),
    )
    ensure_consumer_cases (some old) e = (
      simp (J.consumer_info_lem, e),
      λ m d.
          simp (J.consumer_info_lem, e)
            (ground (arith, eq_iff (stream_key name) m, eq_iff (durable_key name) d)),
    )

    -- The durable consumer is there afterwards, with its old configuration if it had one, and every
    -- other consumer is as before.
    pub ensure_consumer_lem :
        ((ensure_consumer js name deliver s).0 ≡ ok tt)
        × ((m d : String)
            → consumer (ensure_consumer js name deliver s).1 m d ≡ (
                if stream_key name == m && durable_key name == d
                then some (
                    get_or
                      (consumer s (stream_key name) (durable_key name))
                      (consumer_config name deliver))
                else consumer s m d))
    ensure_consumer_lem =
        ensure_consumer_cases (consumer s (stream_key name) (durable_key name)) refl

  module _ (name : String) (s : S) where
    -- Deleting succeeds whether the stream exists or not, and takes its consumers with it.
    pub delete_stream-ok : (delete_stream js name s).0 ≡ ok tt
    unfolding delete_stream
    delete_stream-ok = ground (arith, J.delete_stream_lem (stream_key name) s)

    pub stream-delete_stream :
        (m : String)
        → stream (delete_stream js name s).1 m ≡ (if stream_key name == m then none else stream s m)
    unfolding delete_stream
    stream-delete_stream m = ground (
      arith,
      J.delete_stream_lem (stream_key name) s,
      J.stream-delete_stream (stream_key name) s m,
    )

    pub delete_consumer-ok : (delete_consumer js name s).0 ≡ ok tt
    unfolding delete_consumer
    delete_consumer-ok =
        ground (arith, J.delete_consumer_lem (stream_key name) (durable_key name) s)
