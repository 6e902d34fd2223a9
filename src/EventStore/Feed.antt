-- ===== src/EventStore/Feed.antt =====
-- Real-time subscriptions: what a subscriber finds in its channel.
use draftea_payment.Prelude.{
  ℕ, ◌+◌, ◌≤◌, ◌<◌, ◌≡◌, refl, sym, ap, ◌∙◌, true, false, none, some, List, [], ◌∷◌, ◌++◌, arith,
  Bool-cases, inl, inr, length, length-append, lt→ltb, keep, keep-append,
}
use mathlib.Core.List.{append-nil, append_assoc}
use draftea_payment.EventStore.Event.{Event, EventFilter, matches_filter}
use draftea_payment.EventStore.Memory.{
  Store, Chan, Subscriber, try_send, notify_filtered, notify_subscribers, record_event,
  record_events, append_event, commit_event, subscribe, deliver_backlog, send_backlog,
}
use draftea_payment.EventStore.Append.{append_event_stored}

module _ {D : Type 0} where
  -- The events of `es` that a subscriber asked for.
  abbrev pub wanted : List (Event D) → Subscriber D → List (Event D)
  wanted es u = keep (λ e. matches_filter e u.filter) es

  -- The subscriber after it was handed all of those, with no limit on its buffer.
  abbrev pub deliver : List (Event D) → Subscriber D → Subscriber D
  deliver es u = record u {
    channel = record (u.channel) { buffer = u.channel.buffer ++ wanted es u };
  }

  -- There is room in the channel for all of those.
  abbrev pub HasRoom : List (Event D) → Subscriber D → Type 0
  HasRoom es u = length u.channel.buffer + length (wanted es u) ≤ u.channel.capacity

  notify_filtered_room :
      (e : Event D) (u : Subscriber D) (us : List (Subscriber D))
      → HasRoom (e ∷ []) u
      → (notify_filtered e (u ∷ us)).0 ≡ deliver (e ∷ []) u ∷ (notify_filtered e us).0
  unfolding notify_filtered try_send
  notify_filtered_room e u us h = elim (Bool-cases (matches_filter e u.filter)) [
    | inl asked ↦
        let room : length u.channel.buffer < u.channel.capacity = ground arith in
        rw (asked, lt→ltb _ _ room)
    | inr skipped ↦ rw (skipped, append-nil u.channel.buffer)
  ]

  notify_filtered-append :
      (e : Event D) (us vs : List (Subscriber D))
      → (notify_filtered e (us ++ vs)).0 ≡ (notify_filtered e us).0 ++ (notify_filtered e vs).0
  unfolding notify_filtered try_send
  notify_filtered-append e [] vs = refl
  notify_filtered-append e (u ∷ us) vs = let rest = notify_filtered-append e us vs in ground arith

  HasRoom-later :
      (e : Event D) (es : List (Event D)) (u : Subscriber D)
      → HasRoom (e ∷ es) u
      → HasRoom (e ∷ []) u × HasRoom es (deliver (e ∷ []) u)
  HasRoom-later e es u h = elim (Bool-cases (matches_filter e u.filter)) [
    | inl asked ↦
        let room = rw asked at h in
        (rw asked (omega arith), rw asked (omega (arith, length-append u.channel.buffer (e ∷ []))))
    | inr skipped ↦
        let room = rw skipped at h in
        (rw skipped (omega arith), rw (skipped, append-nil u.channel.buffer) room)
  ]

  deliver-deliver :
      (e : Event D) (es : List (Event D)) (u : Subscriber D)
      → deliver es (deliver (e ∷ []) u) ≡ deliver (e ∷ es) u
  deliver-deliver e es u = elim (Bool-cases (matches_filter e u.filter)) [
    | inl asked ↦ rw (asked, append_assoc u.channel.buffer (e ∷ []) (wanted es u))
    | inr skipped ↦ rw (skipped, append-nil u.channel.buffer)
  ]

  deliver_none : (u : Subscriber D) → deliver [] u ≡ u
  deliver_none u = rw (append-nil u.channel.buffer)

  subscribers-record_event :
      (e : Event D) (s : Store D)
      → (notify_subscribers e (record_event e s)).event_subscribers
        ≡ (notify_filtered e s.event_subscribers).0
  unfolding notify_subscribers record_event
  subscribers-record_event e s = refl

  -- A batch that is recorded reaches a subscriber that has room for what it asked for, whatever room
  -- the subscribers before and after it have: it stays subscribed, and its channel has exactly the
  -- matching events, in the order of the log, behind what was already waiting.
  pub subscriber-record_events :
      (es : List (Event D)) (u : Subscriber D) (s : Store D) (before after : List (Subscriber D))
      → s.event_subscribers ≡ before ++ u ∷ after
      → HasRoom es u
      → (before' after' : List (Subscriber D)) × ((record_events es s).event_subscribers
          ≡ before' ++ deliver es u ∷ after')
  unfolding record_events
  subscriber-record_events [] u s before after there h =
      (before, after, there ∙ ap (λ v. before ++ v ∷ after) (sym (deliver_none u)))
  subscriber-record_events (e ∷ es) u s before after there h =
      let (now, later) = HasRoom-later e es u h in
      let s' = notify_subscribers e (record_event e s) in
      let step : s'.event_subscribers
          ≡ (notify_filtered e before).0 ++ deliver (e ∷ []) u ∷ (notify_filtered e after).0 =
        subscribers-record_event e s
        ∙ ap (λ us. (notify_filtered e us).0) there
        ∙ notify_filtered-append e before (u ∷ after)
        ∙ ap (λ us. (notify_filtered e before).0 ++ us) (notify_filtered_room e u after now) in
      let (before', after', found) =
        subscriber-record_events es (deliver (e ∷ []) u) s' _ _ step later in
      (before', after', found ∙ ap (λ v. before' ++ v ∷ after') (deliver-deliver e es u))

  send_backlog_room :
      (f : EventFilter) (es : List (Event D)) (c : Chan D)
      → length c.buffer + length (keep (λ e. matches_filter e f) es) ≤ c.capacity
      → send_backlog f es c ≡ record c { buffer = c.buffer ++ keep (λ e. matches_filter e f) es }
  unfolding send_backlog try_send
  send_backlog_room f [] c h = rw (append-nil c.buffer)
  send_backlog_room f (e ∷ es) c h = elim (Bool-cases (matches_filter e f)) [
    | inr skipped ↦ rw skipped (send_backlog_room f es c (rw skipped at h))
    | inl asked ↦
        let h' = rw asked at h in
        let room : length c.buffer < c.capacity = omega arith in
        let c' = record c { buffer = c.buffer ++ e ∷ [] } in
        rw (asked, lt→ltb _ _ room)
          (send_backlog_room f es c' (omega (arith, length-append c.buffer (e ∷ [])))
            ∙ rw (append_assoc c.buffer (e ∷ []) (keep (λ e'. matches_filter e' f) es)))
  ]

  -- The subscriber that Subscribe makes for a store that numbers its channels from `n` on.
  abbrev fresh : ℕ → EventFilter → List (Event D) → Subscriber D
  fresh n f es = record { channel = record { id = n; capacity = 100; buffer = es }; filter = f }

  commit_event-fresh :
      (n now : ℕ) (f : EventFilter) (e : Event D) (s : Store D)
      → s.event_subscribers ≡ fresh n f [] ∷ []
      → matches_filter (commit_event now e s).1 f ≡ true
      → let (s', e') = commit_event now e s in
        (s'.event_subscribers ≡ fresh n f (e' ∷ []) ∷ []) × (s'.events ≡ s.events ++ e' ∷ [])
  unfolding commit_event notify_subscribers notify_filtered try_send record_event
  commit_event-fresh n now f e s alone asked = (rw (alone, asked), refl)

  subscribe-fresh :
      (f : EventFilter) (s : Store D)
      → s.closed ≡ false
      → s.event_subscribers ≡ []
      → let s' = (subscribe none f s).0 in
        (s'.event_subscribers ≡ fresh s.next_channel f [] ∷ []) × (s'.events ≡ s.events)
  unfolding subscribe
  subscribe-fresh f s live alone = (rw (live, alone), rw live)

  subscribe_then_append :
      (f : EventFilter) (now : ℕ) (e : Event D) (s : Store D)
      → s.closed ≡ false
      → s.event_subscribers ≡ []
      → let (s', e', r) = append_event none now e (subscribe none f s).0 in
        r ≡ none
        → matches_filter e' f ≡ true
        → (s'.event_subscribers ≡ fresh s.next_channel f (e' ∷ []) ∷ [])
          × (s'.events ≡ s.events ++ e' ∷ [])
  subscribe_then_append f now e s live alone done asked =
      let s1 = (subscribe none f s).0 in
      let stored = append_event_stored now e s1 done in
      let (only, log) = subscribe-fresh f s live alone in
      let (alone', log') = commit_event-fresh s.next_channel now f e s1 only (rw stored at asked) in
      rw stored (alone', log' ∙ ap (λ l. l ++ (commit_event now e s1).1 ∷ []) log)

  deliver_backlog-fresh :
      (n : ℕ) (f : EventFilter) (es : List (Event D)) (s : Store D)
      → s.event_subscribers ≡ fresh n f es ∷ []
      → f.from_sequence_number ≡ none
      → deliver_backlog n f s
        ≡ some (record s {
          event_subscribers =
              record (fresh n f es) { channel = send_backlog f s.events (fresh n f es).channel }
              ∷ [];
        })
  unfolding deliver_backlog
  deliver_backlog-fresh n f es s alone from_start = ground arith

  -- In an open store that nobody has subscribed to, let a subscription be made that names no
  -- sequence number, and then AppendEvent accept an event that it asks for, before the backlog
  -- goroutine runs. If at most 98 events of the log match, that goroutine leaves the event in the
  -- subscriber's channel twice: as it was appended, and again behind the backlog.
  pub subscribe_duplicates :
      (f : EventFilter) (now : ℕ) (e : Event D) (s : Store D)
      → s.closed ≡ false
      → s.event_subscribers ≡ []
      → f.from_sequence_number ≡ none
      → length (keep (λ e'. matches_filter e' f) s.events) ≤ 98
      → let (s', e', r) = append_event none now e (subscribe none f s).0 in
        r ≡ none
        → matches_filter e' f ≡ true
        → let backlog = keep (λ e''. matches_filter e'' f) s.events in
          (s'' : Store D) × (deliver_backlog s.next_channel f s' ≡ some s'')
          × (s''.event_subscribers
              ≡ record {
                channel = record {
                  id = s.next_channel;
                  capacity = 100;
                  buffer = (e' ∷ []) ++ (backlog ++ e' ∷ []);
                };
                filter = f;
              }
                ∷ [])
  subscribe_duplicates f now e s live alone from_start room done asked =
      let (s', e', _) = append_event none now e (subscribe none f s).0 in
      let (alone', log) = subscribe_then_append f now e s live alone done asked in
      let c = (fresh s.next_channel f (e' ∷ [])).channel in
      let more : keep (λ e''. matches_filter e'' f) s'.events
          ≡ keep (λ e''. matches_filter e'' f) s.events ++ e' ∷ [] =
        rw (log, keep-append (λ e''. matches_filter e'' f) s.events (e' ∷ []), asked) in
      let sent = send_backlog_room f s'.events c (
        rw more
          (omega (arith, length-append (keep (λ e''. matches_filter e'' f) s.events) (e' ∷ [])))) in
      (
        record s' {
          event_subscribers =
              record (fresh s.next_channel f (e' ∷ [])) { channel = send_backlog f s'.events c }
              ∷ [];
        },
        deliver_backlog-fresh s.next_channel f (e' ∷ []) s' alone' from_start,
        rw (sent, more),
      )
