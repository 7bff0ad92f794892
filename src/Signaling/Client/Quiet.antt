-- ===== src/Signaling/Client/Quiet.antt =====
-- What a client of internal/signaling/client.go gets while nothing fails.
use mathlib.Core.List.{append_assoc, append-nil}
use lalo_lao_alo.Base.{
  ℕ, zero, suc, ◌+◌, ◌-◌, ◌≤◌, ◌≡◌, refl, Bool, true, false, ◌&&◌, List, [], ◌∷◌, ◌++◌, none, some,
  length, length-append, sym, ap, ◌∙◌, arith,
}
use lalo_lao_alo.Text.{Text}
use lalo_lao_alo.Signaling.Client
use lalo_lao_alo.Signaling.Client.Delivery.{sent, texts, delivered, delivered-write, sent-cons}

-- A step in which neither the hub closes the client nor the network fails.
abbrev pub is_calm : Client.Step → Bool
is_calm (Client.Step.sends m) = true
is_calm Client.Step.closes = false
is_calm (Client.Step.receives accepts) = accepts
is_calm (Client.Step.ticks accepts) = accepts
is_calm (Client.Step.reads none) = false
is_calm (Client.Step.reads (some m)) = true
is_calm Client.Step.takes_message = true
is_calm Client.Step.takes_unregister = true
is_calm Client.Step.stops_reading = false

abbrev pub all_calm : List Client.Step → Bool
all_calm [] = true
all_calm (s ∷ ss) = is_calm s && all_calm ss

record IsOpen (c : Client.Connection) : Type 0 where
  open_flag : c.closed ≡ false
  open_channel : c.channel.is_closed ≡ false
  writes : c.writing ≡ true

record Kept (s : Client.Step) (c : Client.Connection) : Type 0 where
  stays : IsOpen (Client.step s c)
  nothing_lost : delivered (Client.step s c) ≡ delivered c ++ sent (s ∷ [])
  room :
      length (Client.step s c).channel.buffered ≤ length c.channel.buffered + length (sent (s ∷ []))

received-Kept :
    (c : Client.Connection) (b : List Text)
    → c.channel.buffered ≡ b
    → IsOpen c
    → Kept (Client.Step.receives true) c
unfolding Client.step
received-Kept c [] e h = record {
  stays = ground arith;
  nothing_lost = ground (arith, append-nil (delivered c));
  room = ground arith;
}
received-Kept c (m ∷ rest) e h = record {
  stays = ground arith;
  nothing_lost = rw (h.writes, e, append-nil) (delivered-write (Client.text_message m) rest c);
  room = ground arith;
}

calm-Kept :
    (s : Client.Step) (c : Client.Connection)
    → is_calm s ≡ true
    → length c.channel.buffered + length (sent (s ∷ [])) ≤ 64
    → IsOpen c
    → Kept s c
unfolding Client.step
calm-Kept (Client.Step.sends none) c k l h = record {
  stays = h;
  nothing_lost = rw append-nil;
  room = ground arith;
}
calm-Kept (Client.Step.sends (some m)) c k l h = record {
  stays = ground arith;
  nothing_lost = ground (arith, append_assoc (texts c.written) c.channel.buffered (m ∷ []));
  room = ground (arith, length-append c.channel.buffered (m ∷ []));
}
calm-Kept Client.Step.closes c k l h = cc
calm-Kept (Client.Step.receives true) c k l h = received-Kept c c.channel.buffered refl h
calm-Kept (Client.Step.receives false) c k l h = cc
calm-Kept (Client.Step.ticks true) c k l h = record {
  stays = ground arith;
  nothing_lost =
      rw (h.writes, append-nil) (delivered-write Client.ping_message c.channel.buffered c);
  room = ground arith;
}
calm-Kept (Client.Step.ticks false) c k l h = cc
calm-Kept (Client.Step.reads none) c k l h = cc
calm-Kept (Client.Step.reads (some m)) c k l h = record {
  stays = ground arith;
  nothing_lost = ground (arith, append-nil (delivered c));
  room = ground arith;
}
calm-Kept Client.Step.takes_message c k l h = record {
  stays = ground arith;
  nothing_lost = ground (arith, append-nil (delivered c));
  room = ground arith;
}
calm-Kept Client.Step.takes_unregister c k l h = record {
  stays = ground arith;
  nothing_lost = ground (arith, append-nil (delivered c));
  room = ground arith;
}
calm-Kept Client.Step.stops_reading c k l h = cc

calm_run :
    (ss : List Client.Step) (c : Client.Connection)
    → all_calm ss ≡ true
    → length c.channel.buffered + length (sent ss) ≤ 64
    → IsOpen c
    → IsOpen (Client.run ss c)
      × (delivered (Client.run ss c) ≡ delivered c ++ sent ss)
      × (length (Client.run ss c).channel.buffered ≤ length c.channel.buffered + length (sent ss))
unfolding Client.run
calm_run [] c k l h = (h, rw append-nil, omega arith)
calm_run (s ∷ ss) c k l h =
    let counted : length (sent (s ∷ ss)) ≡ length (sent (s ∷ [])) + length (sent ss) =
      rw (sent-cons s ss) (length-append (sent (s ∷ [])) (sent ss)) in
    let one = calm-Kept s c (ground (arith, k)) (omega (arith, counted)) h in
    let rest =
      calm_run ss (Client.step s c) (ground (arith, k)) (omega (arith, counted, one.room))
        one.stays in
    (
      rest.0,
      rw (rest.1, one.nothing_lost, sent-cons s ss)
          (append_assoc (delivered c) (sent (s ∷ [])) (sent ss)),
      omega (arith, counted, one.room, rest.2),
    )

-- `WritePump` receives `n` times, and the connection takes what it writes.
abbrev pub receptions : ℕ → List Client.Step
receptions zero = []
receptions (suc n) = Client.Step.receives true ∷ receptions n

one_received :
    (c : Client.Connection)
    → IsOpen c
    → length (Client.step (Client.Step.receives true) c).channel.buffered
      ≡ length c.channel.buffered - 1
unfolding Client.step
one_received c h = by_queue c.channel.buffered refl
  where
    by_queue :
        (b : List Text)
        → c.channel.buffered ≡ b
        → length (Client.step (Client.Step.receives true) c).channel.buffered
          ≡ length c.channel.buffered - 1
    by_queue [] e = ground (arith, h, e)
    by_queue (m ∷ rest) e = ground (arith, h, e)

drained :
    (n : ℕ) (c : Client.Connection)
    → length c.channel.buffered ≤ n
    → length c.channel.buffered ≤ 64
    → IsOpen c
    → ((Client.run (receptions n) c).channel.buffered ≡ [])
      × (delivered (Client.run (receptions n) c) ≡ delivered c)
unfolding Client.run
drained zero c l b h = (empty c.channel.buffered l, refl)
  where
    empty : (q : List Text) → length q ≤ 0 → q ≡ []
    empty [] e = refl
    empty (m ∷ q) e = absurd (omega arith)
drained (suc n) c l b h =
    let one = calm-Kept (Client.Step.receives true) c refl (omega arith) h in
    let fewer = one_received c h in
    let rest =
      drained n (Client.step (Client.Step.receives true) c) (omega (arith, fewer))
        (omega (arith, fewer)) one.stays in
    (rest.0, rw (rest.1, one.nothing_lost) (append-nil (delivered c)))

-- The hub sends at most 64 messages to a new client, whose queue is then never full, the hub does
-- not close the client, and no read or write fails. Once `WritePump` has received as often as there
-- were messages, the queue is empty, and what was written, pings aside, are the messages in order.
pub all_delivered :
    (ss : List Client.Step)
    → all_calm ss ≡ true
    → length (sent ss) ≤ 64
    → let c = Client.run (receptions (length (sent ss))) (Client.run ss Client.new_client) in
      (c.channel.buffered ≡ []) × (texts c.written ≡ sent ss)
unfolding Client.new_client
all_delivered ss k l =
    let fresh : IsOpen Client.new_client = record {
      open_flag = refl;
      open_channel = refl;
      writes = refl;
    } in
    let calm = calm_run ss Client.new_client k (omega (arith, l)) fresh in
    let done =
      drained (length (sent ss)) (Client.run ss Client.new_client) (omega (arith, calm.2))
        (omega (arith, calm.2)) calm.0 in
    let last = Client.run (receptions (length (sent ss))) (Client.run ss Client.new_client) in
    (
      done.0,
      sym (append-nil (texts last.written))
          ∙ ap (λ q. texts last.written ++ q) (sym done.0)
          ∙ (done.1 ∙ calm.1),
    )
