-- ===== src/AckManager/Interleaved.antt =====
-- `process_message_with_ack_wait_extension` of `src/server/utils/message_ack_manager.py`, for a
-- handler that waits for servers. Before each call that it waits for, the other task may have
-- extended the acknowledgement: a schedule goes along with the world, of which `true` is an extension
-- and `false` goes on to the call. An extension that raises cancels the handler.
use provisioning_api.Base.{Bool, true, false, List, [], ◌∷◌, ◌++◌, ◌≡◌, refl, ◌∙◌, sym}
use mathlib.Core.List.{append-nil}
use provisioning_api.Base.Exec.{
  Exec, Exn, Result, ok, raised, is_ok, handle, raise, try, group, cancelled,
}
use provisioning_api.Nats.{JetStream, KeyValue}
use provisioning_api.Nats.Journal.{if_ok}
use provisioning_api.Adapter.Rest.{Http}

-- A call that the handler does not wait for: there is no extension before it.
unfoldable pub at_once : {S A : Type 0} → Exec S A → Exec (S × List Bool) A
at_once m (s, schedule) = let (r, t) = m s in (r, (t, schedule))

module _ {S : Type 0} (in_progress : Exec S (Unit {0})) where
  -- The extensions up to the next call, each a turn of `while True` in `extend_ack_wait`.
  unfoldable pub extend_ack_wait : List Bool → S → Result (Unit {0}) × (S × List Bool)
  extend_ack_wait [] s = (ok tt, (s, []))
  extend_ack_wait (false ∷ schedule) s = (ok tt, (s, schedule))
  extend_ack_wait (true ∷ schedule) s =
      let (r, t) = in_progress s in
      elim r [
        | ok _ ↦ extend_ack_wait schedule t
        | raised x ↦ (raised (cancelled x), (t, schedule))
      ]

  abbrev then_call :
      {A : Type 0} → Exec S A → Result (Unit {0}) → S × List Bool → Result A × (S × List Bool)
  then_call m (ok _) (t, rest) = let (r, u) = m t in (r, (u, rest))
  then_call m (raised x) p = (raised x, p)

  unfoldable pub awaited : {A : Type 0} → Exec S A → Exec (S × List Bool) A
  unfolding extend_ack_wait
  awaited m (s, schedule) = let (r, p) = extend_ack_wait schedule s in then_call m r p

  abbrev pub interleaved_js : {B : Type 0} → JetStream S B → JetStream (S × List Bool) B
  interleaved_js js = record {
    stream_info = λ n. awaited (js.stream_info n);
    add_stream = λ c. awaited (js.add_stream c);
    update_stream = λ c. awaited (js.update_stream c);
    delete_stream = λ n. awaited (js.delete_stream n);
    consumer_info = λ n d. awaited (js.consumer_info n d);
    add_consumer = λ n c. awaited (js.add_consumer n c);
    delete_consumer = λ n d. awaited (js.delete_consumer n d);
    publish = λ subj b n. awaited (js.publish subj b n);
    pull_subscribe = λ subj d n. awaited (js.pull_subscribe subj d n);
    subscribe = λ subj d n. awaited (js.subscribe subj d n);
    fetch = λ n d subj t. awaited (js.fetch n d subj t);
    ack = λ m. awaited (js.ack m);
    nak = λ m. awaited (js.nak m);
    in_progress = λ m. awaited (js.in_progress m);
    get_msg = λ n i. awaited (js.get_msg n i);
    delete_msg = λ n i. awaited (js.delete_msg n i);
    purge_stream = λ n subj. awaited (js.purge_stream n subj);
  }

  abbrev pub interleaved_kv : {B : Type 0} → KeyValue S B → KeyValue (S × List Bool) B
  interleaved_kv kv = record {
    key_value = λ b. awaited (kv.key_value b);
    create_key_value = λ b. awaited (kv.create_key_value b);
    get = λ b k. awaited (kv.get b k);
    put = λ b k v. awaited (kv.put b k v);
    update = λ b k v n. awaited (kv.update b k v n);
    delete = λ b k. awaited (kv.delete b k);
    keys = λ b. awaited (kv.keys b);
    watchall = λ b. awaited (kv.watchall b);
  }

  abbrev pub interleaved_http : Http S → Http (S × List Bool)
  interleaved_http http = record {
    get = λ u l. awaited (http.get u l);
    patch = λ u j. awaited (http.patch u j);
    post = λ u j. awaited (http.post u j);
    delete = λ u. awaited (http.delete u);
  }

  -- What a view of the world keeps through the extensions, it keeps through a call behind them.
  module _ {V : Type 0} (view : S → V) (keeps : (t : S) → view (in_progress t).1 ≡ view t) where
    view-extend_cases :
        (schedule : List Bool) (r : Result (Unit {0})) (t : S)
        → ((u : S) → view (extend_ack_wait schedule u).1.0 ≡ view u)
        → view
            (elim r as (λ _. Result (Unit {0}) × (S × List Bool)) [
              | ok _ ↦ extend_ack_wait schedule t
              | raised x ↦ (raised (cancelled x), (t, schedule))
            ]).1.0
          ≡ view t
    view-extend_cases schedule (ok _) t later = later t
    view-extend_cases schedule (raised x) t later = refl

    view-extend_ack_wait :
        (schedule : List Bool) (s : S) → view (extend_ack_wait schedule s).1.0 ≡ view s
    unfolding extend_ack_wait
    view-extend_ack_wait [] s = refl
    view-extend_ack_wait (false ∷ schedule) s = refl
    view-extend_ack_wait (true ∷ schedule) s =
        view-extend_cases schedule (in_progress s).0 (in_progress s).1
          (view-extend_ack_wait schedule)
        ∙ keeps s

    view-then_call :
        {A : Type 0} (m : Exec S A) (r : Result (Unit {0})) (p : S × List Bool)
        → ((t : S) → view (m t).1 ≡ view t)
        → view (then_call m r p).1.0 ≡ view p.0
    view-then_call m (ok _) (t, rest) same = same t
    view-then_call m (raised x) p same = refl

    pub view-awaited :
        {A : Type 0} (m : Exec S A)
        → ((t : S) → view (m t).1 ≡ view t)
        → (p : S × List Bool) → view (awaited m p).1.0 ≡ view p.0
    unfolding awaited
    view-awaited m same (s, schedule) =
        view-then_call m (extend_ack_wait schedule s).0 (extend_ack_wait schedule s).1 same
        ∙ view-extend_ack_wait schedule s

  -- A journal that a call adds to where it succeeds.
  module _ {X : Type 0} (view : S → List X)
      (keeps : (t : S) → view (in_progress t).1 ≡ view t) where
    adds-then_call :
        {A : Type 0} (m : Exec S A) (x : X) (r : Result (Unit {0})) (p : S × List Bool)
        → ((t : S) → view (m t).1 ≡ view t ++ if_ok (is_ok (m t).0) x)
        → view (then_call m r p).1.0 ≡ view p.0 ++ if_ok (is_ok (then_call m r p).0) x
    adds-then_call m x (ok _) (t, rest) law = law t
    adds-then_call m x (raised e) p law = sym (append-nil (view p.0))

    pub adds-awaited :
        {A : Type 0} (m : Exec S A) (x : X)
        → ((t : S) → view (m t).1 ≡ view t ++ if_ok (is_ok (m t).0) x)
        → (p : S × List Bool) → view (awaited m p).1.0 ≡ view p.0 ++ if_ok (is_ok (awaited m p).0) x
    unfolding awaited
    adds-awaited m x law (s, schedule) =
        adds-then_call m x (extend_ack_wait schedule s).0 (extend_ack_wait schedule s).1 law
        ∙ rw (view-extend_ack_wait view keeps schedule s)

-- What the task group raises is the exception of the task that failed first.
abbrev cause : Exn → Exn
cause (cancelled x) = x
cause e = e

module _ {S : Type 0} where
  abbrev run_handler : Exec (S × List Bool) (Unit {0}) → List Bool → Exec S (Unit {0})
  run_handler handler schedule s = let (r, (t, rest)) = handler (s, schedule) in (r, t)

  unfoldable pub process_interleaved_message :
      Exec (S × List Bool) (Unit {0}) → List Bool → Exec S (Unit {0})
  process_interleaved_message handler schedule =
      try (run_handler handler schedule) (λ e. raise (group (cause e)))

  group_cases :
      (r : Result (Unit {0})) (t : S) (e : Exn)
      → (handle r (λ x. raise (group (cause x))) t).0 ≡ raised e
      → (x : Exn) × (e ≡ group x)
  group_cases (ok _) t e h = absurd cc
  group_cases (raised x) t e h = (cause x, cc)

  pub process_interleaved_message_raises_group :
      (handler : Exec (S × List Bool) (Unit {0})) (schedule : List Bool) (s : S) (e : Exn)
      → (process_interleaved_message handler schedule s).0 ≡ raised e
      → (x : Exn) × (e ≡ group x)
  unfolding process_interleaved_message
  process_interleaved_message_raises_group handler schedule s e h = group_cases _ _ e h

  handle-world : (r : Result (Unit {0})) (t : S) → (handle r (λ x. raise (group (cause x))) t).1 ≡ t
  handle-world (ok _) t = refl
  handle-world (raised x) t = refl

  pub process_interleaved_message-world :
      (handler : Exec (S × List Bool) (Unit {0})) (schedule : List Bool) (s : S)
      → (process_interleaved_message handler schedule s).1 ≡ (handler (s, schedule)).1.0
  unfolding process_interleaved_message
  process_interleaved_message-world handler schedule s = handle-world _ _
