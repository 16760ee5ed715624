-- ===== src/Journey.antt =====
-- The way of a message through the components: from `MessageService.add_live_event` of
-- `src/server/services/messages.py` to the queue `incoming`, from there by the loop of
-- `src/server/core/dispatcher/service/dispatcher.py` to the queues of the subscriptions, and from
-- those to the consumers by `NatsMQAdapter.provisioning_message_from`.
use provisioning_api.Base.{arith, ℕ, String, Bool, some, List, [], ◌∷◌, ◌++◌, map, ◌≡◌, refl, ◌∙◌}
use provisioning_api.Base.Exec.{ok}
use provisioning_api.Models.Json.{Fields, str, obj, get_field}
use provisioning_api.Models.Pydantic.{Conversions}
use provisioning_api.Models.Subscription.{Subscription}
use provisioning_api.Models.Queue.{Message, MqMessage, dump_message, dispatcher_stream}
use provisioning_api.Models.Queue.Laws.{validate_message-dump_message}
use provisioning_api.Nats.{Codec, JetStream, Msg}
use provisioning_api.Nats.Journal.{Publication, IsJournal, IsReliable}
use provisioning_api.Adapter.Mq.{
  message_keys, require_keys, stream_key, add_message, mq_message_from, build_mq_message,
  provisioning_message_from,
}
use provisioning_api.Adapter.Mq.Reply.{sequence_text}
use provisioning_api.Services.Messages.{add_live_event}
use provisioning_api.Dispatcher.{Mapping, subscribers, log_details}
use provisioning_api.Dispatcher.Delivery.{delivery}
use provisioning_api.Adapter.Mq.Push.{wait_for_event}
use provisioning_api.Dispatcher.Loop.{Process, checked, dispatch_message, take_turn}
use provisioning_api.Dispatcher.Loop.Parts.{dispatch_message_lem, Dispatched}
use provisioning_api.Dispatcher.Loop.Draining.{dispatch_message-ok}

-- The message in the queue `incoming`.
abbrev pub announcement : {B : Type 0} → Codec B → Message → Publication B
announcement codec m = record {
  subject = dispatcher_stream;
  content = codec.dumps (obj (dump_message m));
  stream = stream_key dispatcher_stream;
}

-- A message of the server has `content` as its payload, and is the one with the number `n` by its
-- reply subject.
pub record Carries {B : Type 0} (c : Conversions) (msg : Msg B) (content : B) (n : ℕ) : Type 0 where
  pub payload_is : msg.payload ≡ content
  pub text : String
  pub reply_is : sequence_text msg.reply ≡ ok text
  pub number_is : c.as_int text ≡ some n

log_details-dump_message : (m : Message) → log_details (dump_message m) ≡ ok tt
unfolding log_details dump_message get_field
log_details-dump_message m = ground arith

require_keys-dump_message : (m : Message) → require_keys message_keys (dump_message m) ≡ ok tt
unfolding dump_message get_field
require_keys-dump_message m = refl

module _ {S B : Type 0} (codec : Codec B) (js : JetStream S B) (c : Conversions) (m : Message)
    (reads : c.as_datetime (str m.ts) ≡ some m.ts)
    (loads-dumps : (fs : Fields) → codec.loads (codec.dumps (obj fs)) ≡ some (obj fs)) where
  checked-dump_message :
      (message : MqMessage) → message.content ≡ dump_message m → checked c message ≡ ok m
  unfolding checked
  checked-dump_message message e =
      rw (e, log_details-dump_message m) ((validate_message-dump_message c).0 m reads)

  abbrev received_as : Msg B → ℕ → MqMessage
  received_as msg n = record {
    subject = msg.subject;
    reply = msg.reply;
    content = dump_message m;
    num_delivered = msg.num_delivered;
    sequence_number = n;
    headers = msg.headers;
  }

  mq_message_from-carried :
      (msg : Msg B) (n : ℕ)
      → Carries c msg (codec.dumps (obj (dump_message m))) n
      → mq_message_from c codec.loads msg ≡ ok (received_as msg n)
  unfolding mq_message_from build_mq_message
  mq_message_from-carried msg n h =
      rw (h.payload_is, loads-dumps (dump_message m), h.reply_is, h.number_is) refl

  provisioning_message_from-carried :
      (msg : Msg B) (n : ℕ)
      → Carries c msg (codec.dumps (obj (dump_message m))) n
      → provisioning_message_from c codec msg
        ≡ ok (record { message = m; sequence_number = n; num_delivered = msg.num_delivered })
  unfolding provisioning_message_from
  provisioning_message_from-carried msg n h =
      rw
        (
          h.payload_is,
          loads-dumps (dump_message m),
          h.reply_is,
          require_keys-dump_message m,
          (validate_message-dump_message c).0 m reads,
          h.number_is,
        )
        refl

  module _ {published : S → List (Publication B)} {acked : S → List (Msg B)}
      (J : IsJournal js published acked) (L : IsReliable js) where
    published-add_live_event :
        (s : S)
        → published (add_live_event codec js m s).1 ≡ published s ++ (announcement codec m ∷ [])
    unfolding add_live_event add_message
    published-add_live_event s = J.published-publish _ _ _ s ∙ rw (L.publish-ok)

    Dispatched-same :
        (mapping : Mapping) (message : MqMessage) (s t : S) (v : Message)
        → checked c message ≡ ok m
        → checked c message ≡ ok v
        → Dispatched codec js c J mapping message v s t
        → Dispatched codec js c J mapping message m s t
    Dispatched-same mapping message s t v e f d = let same : v ≡ m = cc in rw (← same) d

    Dispatched-dump_message :
        (mapping : Mapping) (message : MqMessage) (schedule : List Bool) (s : S)
        → message.content ≡ dump_message m
        → let after = dispatch_message codec js c mapping schedule message s in
          (after.0 ≡ ok tt) × Dispatched codec js c J mapping message m s after.1
    Dispatched-dump_message mapping message schedule s e =
        let is_m = checked-dump_message message e in
        let done = dispatch_message-ok codec js c L mapping schedule message m s is_m in
        let (v, f, d) = dispatch_message_lem codec js c J mapping message schedule s done in
        (done, Dispatched-same mapping message s _ v is_m f d)

    -- On a server that takes every message and acknowledgement, where JSON texts are read as what
    -- was dumped and the timestamp of `m` reads as itself: `add_live_event` puts one message into
    -- the incoming queue. With a message of the server that carries it in front, a round of the
    -- dispatcher's loop takes that out, whatever its schedule, and puts one message into the queue
    -- of each subscription that its mapping has for the realm and topic of `m`, and nothing else.
    -- A consumer that gets what was put there for `sub` reads `m` again, unchanged, with the
    -- number of the message in its own queue.
    pub message_arrives :
        (s : S) (p : Process S B) (event : Msg B) (n : ℕ) (rest : List (Msg B))
        (schedule : List Bool) (sub : Subscription) (received : Msg B) (k : ℕ)
        → Carries c event (announcement codec m).content n
        → p.queue ≡ event ∷ rest
        → Carries c received (delivery codec m sub).content k
        → let after = take_turn codec js c schedule (wait_for_event codec c p.queue) p in
          (published (add_live_event codec js m s).1 ≡ published s ++ (announcement codec m ∷ []))
          × (after.0 ≡ ok tt)
          × (after.1.queue ≡ rest)
          × (published after.1.world
              ≡ published p.world ++ map (delivery codec m) (subscribers m.realm m.topic p.mapping))
          × (provisioning_message_from c codec received
              ≡ ok (record {
                message = m;
                sequence_number = k;
                num_delivered = received.num_delivered;
              }))
    unfolding take_turn wait_for_event
    message_arrives s p event n rest schedule sub received k arrives q reaches =
        let (done, d) =
          Dispatched-dump_message p.mapping (received_as event n) schedule p.world refl in
        rw (q, mq_message_from-carried event n arrives)
          (
            published-add_live_event s,
            done,
            refl,
            d.published_then,
            provisioning_message_from-carried received k reaches,
          )
