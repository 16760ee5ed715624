-- ===== src/Prefill/Interleaved.antt =====
-- Among the extensions of an acknowledgement the servers are servers of a prefill, too.
use provisioning_api.Base.{String, List}
use provisioning_api.Base.Exec.{Exec}
use provisioning_api.Models.Json.{Json}
use provisioning_api.Nats.{JetStream, Msg}
use provisioning_api.Nats.Journal.{Publication}
use provisioning_api.Adapter.Rest.{Http}
use provisioning_api.AckManager.Interleaved.{
  at_once, interleaved_js, interleaved_http, view-awaited, adds-awaited,
}
use provisioning_api.Prefill.Progress.{IsPrefillWorld}

module _ {S B : Type 0} {js : JetStream S B} {udm api : Http S} {now : Exec S String}
    {published : S → List (Publication B)} {acked : S → List (Msg B)}
    {reported : S → List (String × Json)}
    (W : IsPrefillWorld js udm api now published acked reported) (msg : Msg B) where
  abbrev extend : Exec S (Unit {0})
  extend = js.in_progress msg

  -- The extensions leave no trace in the journals.
  pub interleaved-IsPrefillWorld :
      IsPrefillWorld
        (interleaved_js extend js)
        (interleaved_http extend udm)
        (interleaved_http extend api)
        (at_once now)
        (λ p. published p.0)
        (λ p. acked p.0)
        (λ p. reported p.0)
  unfolding at_once
  interleaved-IsPrefillWorld =
      let P = W.journal.published-in_progress msg in
      let A = W.journal.acked-in_progress msg in
      let R = W.reported-in_progress msg in
      record {
        journal = record {
          published-publish = λ subj b n.
              adds-awaited extend published P (js.publish subj b n) _
                (W.journal.published-publish subj b n);
          acked-publish = λ subj b n.
              view-awaited extend acked A (js.publish subj b n) (W.journal.acked-publish subj b n);
          published-ack =
              λ m. view-awaited extend published P (js.ack m) (W.journal.published-ack m);
          acked-ack = λ m. adds-awaited extend acked A (js.ack m) m (W.journal.acked-ack m);
          published-in_progress = λ m.
              view-awaited extend published P (js.in_progress m)
                (W.journal.published-in_progress m);
          acked-in_progress =
              λ m. view-awaited extend acked A (js.in_progress m) (W.journal.acked-in_progress m);
        };
        reported-in_progress =
            λ m. view-awaited extend reported R (js.in_progress m) (W.reported-in_progress m);
        reported-publish = λ subj b n.
            view-awaited extend reported R (js.publish subj b n) (W.reported-publish subj b n);
        reported-patch =
            λ u j. adds-awaited extend reported R (api.patch u j) (u, j) (W.reported-patch u j);
        published-patch =
            λ u j. view-awaited extend published P (api.patch u j) (W.published-patch u j);
        acked-patch = λ u j. view-awaited extend acked A (api.patch u j) (W.acked-patch u j);
        published-get = λ u l. view-awaited extend published P (udm.get u l) (W.published-get u l);
        acked-get = λ u l. view-awaited extend acked A (udm.get u l) (W.acked-get u l);
        reported-get = λ u l. view-awaited extend reported R (udm.get u l) (W.reported-get u l);
        published-now = λ p. W.published-now p.0;
        acked-now = λ p. W.acked-now p.0;
        reported-now = λ p. W.reported-now p.0;
        published-purge = λ n subj.
            view-awaited extend published P (js.purge_stream n subj) (W.published-purge n subj);
        acked-purge =
            λ n subj. view-awaited extend acked A (js.purge_stream n subj) (W.acked-purge n subj);
        reported-purge = λ n subj.
            view-awaited extend reported R (js.purge_stream n subj) (W.reported-purge n subj);
      }
