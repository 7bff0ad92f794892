-- ===== src/Events/Deliveries.antt =====
-- How often JetStream delivers a message to a consumer of internal/events/bus.go, and what the
-- handler's service has seen then.
use native.Mathlib.Nat.{suc-add}
use lalo_lao_alo.Base.{
  ℕ, zero, suc, ◌+◌, ◌≤◌, ◌<◌, ◌≡◌, refl, ap, ◌∙◌, Bool, true, false, ◌&&◌, List, [], ◌∷◌, ◌++◌,
  Option, none, some, ltb, length, if◌then◌else◌, arith,
}
use lalo_lao_alo.Text.{Text}
use lalo_lao_alo.Events.Bus.{
  Envelope, Codec, Handler, Reply, term, nak, ack, on_message, ConsumerConfig, consumer_config,
}

-- What JetStream documents of the `n`-th delivery of a message to a consumer with explicit replies:
-- whether there is another one, after the reply that has come in time, if one has.
pub record Broker : Type 0 where
  pub again : ConsumerConfig → ℕ → Option Reply → Bool
  pub acked : (c : ConsumerConfig) (n : ℕ) → again c n (some ack) ≡ false
  pub terminated : (c : ConsumerConfig) (n : ℕ) → again c n (some term) ≡ false
  pub refused : (c : ConsumerConfig) (n : ℕ) → again c n (some nak) ≡ ltb n c.max_deliver
  pub unanswered : (c : ConsumerConfig) (n : ℕ) → again c n none ≡ ltb n c.max_deliver

abbrev pub replicate {ℓ} : {A : Type ℓ} → ℕ → A → List A
replicate zero a = []
replicate (suc n) a = a ∷ replicate n a

module _ {S : Type 0} (h : Handler S) (raw : Text) where
  -- The service's state after `k` deliveries.
  abbrev pub after : Envelope → ℕ → S → S
  after env zero s = s
  after env (suc k) s = after env k (h env raw s).0

  -- The handler refuses the first `k` deliveries.
  abbrev pub refuses : Envelope → ℕ → S → Bool
  refuses env zero s = true
  refuses env (suc k) s = (h env raw s).1 && refuses env k (h env raw s).0

module _ {S : Type 0} (j : Codec) (h : Handler S) (b : Broker) (c : ConsumerConfig)
    (raw : Text) where
  -- The deliveries from the `n`-th on, of which at most `left` are looked at; `arrives` is which
  -- replies come in time. The state of the service, and the replies.
  unfoldable pub deliver : (ℕ → Bool) → ℕ → ℕ → S → S × List Reply
  deliver arrives zero n s = (s, [])
  deliver arrives (suc left) n s =
      let x = on_message j h raw s in
      let rest = deliver arrives left (suc n) x.0 in
      if b.again c n (if arrives n then some x.1 else none)
      then (rest.0, x.1 ∷ rest.1)
      else (x.0, x.1 ∷ [])

  again_stops : (n : ℕ) (r : Option Reply) → c.max_deliver ≤ n → b.again c n r ≡ false
  again_stops n none l = ground (arith, b.unanswered c n)
  again_stops n (some term) l = b.terminated c n
  again_stops n (some nak) l = ground (arith, b.refused c n)
  again_stops n (some ack) l = b.acked c n

  -- `left` counts the deliveries after this one.
  deliver_enough :
      (arrives : ℕ → Bool) (left more n : ℕ) (s : S)
      → c.max_deliver ≤ n + left
      → deliver arrives (suc (left + more)) n s ≡ deliver arrives (suc left) n s
  unfolding deliver
  deliver_enough arrives zero more n s l =
      rw (
        again_stops n (if arrives n then some (on_message j h raw s).1 else none)
          (omega (arith, l)))
  deliver_enough arrives (suc left) more n s l =
      let ih =
        deliver_enough arrives left more (suc n) (on_message j h raw s).0 (omega (arith, l)) in
      rw suc-add (
        ap
          (λ (rest : S × List Reply).
            if b.again c n (if arrives n then some (on_message j h raw s).1 else none)
            then (rest.0, (on_message j h raw s).1 ∷ rest.1)
            else ((on_message j h raw s).0, (on_message j h raw s).1 ∷ []))
          ih)

  length-deliver :
      (arrives : ℕ → Bool) (left n : ℕ) (s : S) → length (deliver arrives left n s).1 ≤ left
  unfolding deliver
  length-deliver arrives zero n s = omega arith
  length-deliver arrives (suc left) n s =
      ground (arith, length-deliver arrives left (suc n) (on_message j h raw s).0)

  module _ (env : Envelope) (u : j.unmarshal raw ≡ some env) where
    taken :
        (arrives : ℕ → Bool) (left n : ℕ) (s : S)
        → (h env raw s).1 ≡ false
        → arrives n ≡ true
        → deliver arrives (suc left) n s ≡ ((h env raw s).0, ack ∷ [])
    unfolding deliver on_message
    taken arrives left n s e a = rw (u, e, a, b.acked c n)

    lost_again :
        (arrives : ℕ → Bool) (left n : ℕ) (s : S)
        → (h env raw s).1 ≡ false
        → arrives n ≡ false
        → n < c.max_deliver
        → deliver arrives (suc left) n s ≡ (
          (deliver arrives left (suc n) (h env raw s).0).0,
          ack ∷ (deliver arrives left (suc n) (h env raw s).0).1,
        )
    unfolding deliver on_message
    lost_again arrives left n s e a l =
        let again : ltb n c.max_deliver ≡ true = ground arith in
        rw (u, e, a, b.unanswered c n, again)

    refused_again :
        (left n : ℕ) (s : S)
        → (h env raw s).1 ≡ true
        → n < c.max_deliver
        → deliver (λ i. true) (suc left) n s ≡ (
          (deliver (λ i. true) left (suc n) (h env raw s).0).0,
          nak ∷ (deliver (λ i. true) left (suc n) (h env raw s).0).1,
        )
    unfolding deliver on_message
    refused_again left n s e l =
        let again : ltb n c.max_deliver ≡ true = ground arith in rw (u, e, b.refused c n, again)

    retried_from :
        (left k n : ℕ) (s : S)
        → n + left ≡ c.max_deliver
        → k ≤ left
        → refuses h raw env k s ≡ true
        → (h env raw (after h raw env k s)).1 ≡ false
        → deliver (λ i. true) (suc left) n s
          ≡ (after h raw env (suc k) s, replicate k nak ++ ack ∷ [])
    retried_from left zero n s m l r e = taken (λ i. true) left n s e refl
    retried_from zero (suc k) n s m l r e = absurd (omega arith)
    retried_from (suc left) (suc k) n s m l r e =
        let ih =
          retried_from left k (suc n) (h env raw s).0 (omega (arith, m)) (omega arith)
            (ground (arith, r)) e in
        rw (refused_again (suc left) n s (ground (arith, r)) (omega (arith, m)), ih)

    -- The handler takes every delivery, and the replies to the deliveries up to the `k`-th are lost.
    repeated_from :
        (k lost left n : ℕ) (s : S)
        → ((s' : S) → (h env raw s').1 ≡ false)
        → n + left ≡ c.max_deliver
        → n + lost ≡ suc k
        → lost ≤ left
        → deliver (λ i. ltb k i) (suc left) n s
          ≡ (after h raw env (suc lost) s, replicate (suc lost) ack)
    repeated_from k zero left n s t m l e = taken (λ i. ltb k i) left n s (t s) (ground (arith, l))
    repeated_from k (suc lost) zero n s t m l e = absurd (omega arith)
    repeated_from k (suc lost) (suc left) n s t m l e =
        let ih =
          repeated_from k lost left (suc n) (h env raw s).0 t (omega (arith, m)) (omega (arith, l))
            (omega arith) in
        rw (
          lost_again (λ i. ltb k i) (suc left) n s (t s) (ground (arith, l)) (omega (arith, m)),
          ih,
        )

module _ {S : Type 0} (j : Codec) (h : Handler S) (b : Broker) (subject consumer raw : Text) where
  abbrev pub deliver_all : (ℕ → Bool) → ℕ → S → S × List Reply
  deliver_all arrives fuel s = deliver j h b (consumer_config subject consumer) raw arrives fuel 1 s

  -- A message is delivered at most five times to a consumer of `Subscribe`, whatever its handler
  -- returns and whichever replies are lost: if more deliveries are looked at,
  -- the outcome is the same.
  pub at_most_five :
      (arrives : ℕ → Bool) (more : ℕ) (s : S)
      → (deliver_all arrives (5 + more) s ≡ deliver_all arrives 5 s)
        × (length (deliver_all arrives 5 s).1 ≤ 5)
  unfolding consumer_config
  at_most_five arrives more s = (
    ap (λ n. deliver_all arrives n s) (omega arith)
        ∙ deliver_enough j h b (consumer_config subject consumer) raw arrives 4 more 1 s
            (omega arith),
    length-deliver j h b (consumer_config subject consumer) raw arrives 5 1 s,
  )

  -- A handler that refuses the first `k` deliveries of a well-formed message, at most four, and takes
  -- the next one, where every reply comes in time: it is run exactly `k + 1` times, and the replies
  -- are `k` times `Nak` and then `Ack`.
  pub retried_until_taken :
      (env : Envelope) (k : ℕ) (s : S)
      → j.unmarshal raw ≡ some env
      → k ≤ 4
      → refuses h raw env k s ≡ true
      → (h env raw (after h raw env k s)).1 ≡ false
      → deliver_all (λ i. true) 5 s ≡ (after h raw env (suc k) s, replicate k nak ++ ack ∷ [])
  unfolding consumer_config
  retried_until_taken env k s u l r e =
      retried_from j h b (consumer_config subject consumer) raw env u 4 k 1 s (omega arith) l r e

  -- A handler that takes every delivery of a well-formed message, of whose replies the first `k` are
  -- lost, at most four: it is run `k + 1` times, and replies `Ack` each time.
  pub repeated_while_lost :
      (env : Envelope) (k : ℕ) (s : S)
      → j.unmarshal raw ≡ some env
      → ((s' : S) → (h env raw s').1 ≡ false)
      → k ≤ 4
      → deliver_all (λ i. ltb k i) 5 s ≡ (after h raw env (suc k) s, replicate (suc k) ack)
  unfolding consumer_config
  repeated_while_lost env k s u t l =
      repeated_from j h b (consumer_config subject consumer) raw env u k k 4 1 s t (omega arith)
        (omega arith) l
