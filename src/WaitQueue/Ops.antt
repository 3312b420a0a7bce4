-- ===== src/WaitQueue/Ops.antt =====
-- `waitq_push`, `waitq_push_front` and `waitq_pop` on a queue that holds a list.
use libchan.Base.{
  ℕ, Option, none, some, List, [], ◌∷◌, ◌++◌, ◌≡◌, ◌≢◌, subst, ap, NotIn, Distinct, Distinct-append,
  arith,
}
use libchan.WaitQueue.{WaitQueue, set_next, relink, push, push_front, pop}
use libchan.WaitQueue.Linked.{Chain, Holds, Chain-set_next, Chain-tail, tail-ne}

-- The `next` fields after `waitq_push` of `w` behind the tail `t`.
abbrev appended : (ℕ → Option ℕ) → ℕ → ℕ → ℕ → Option ℕ
appended next w t = set_next (set_next next w none) t (some w)

Chain-appended :
    (next : ℕ → Option ℕ) (w p : ℕ) (xs : List ℕ) (t : ℕ)
    → Chain next (some p) (next p) xs (some t)
    → NotIn p xs
    → Distinct xs
    → w ≢ p
    → NotIn w xs
    → Chain (appended next w t) (some p) (appended next w t p) (xs ++ (w ∷ [])) (some w)
Chain-appended next w p [] t c np d ne nw = ground arith
Chain-appended next w p (x ∷ xs) t c np d ne nw = (
  ground (arith, tail-ne next x (next x) xs t p c.1 np.0 np.1),
  Chain-appended next w x xs t c.1 d.0 d.1 nw.0 nw.1,
)

push-tail :
    (q : WaitQueue) (w t : ℕ)
    → q.tail ≡ some t
    → push q w ≡ record { head = q.head; tail = some w; next = appended q.next w t }
unfolding push
push-tail q w t e =
    ap
      (λ o. record (relink o (some w) (record q { next = set_next q.next w none })) {
        tail = some w;
      })
      e

-- `waitq_push` puts a waiter that is not queued behind the waiters that the queue holds.
pub push-Holds :
    {q : WaitQueue} (w : ℕ) (xs : List ℕ)
    → Holds q xs
    → NotIn w xs
    → Holds (push q w) (xs ++ (w ∷ []))
unfolding push
push-Holds {q} w [] h n = record { chain = ground arith; distinct = (tt, tt) }
push-Holds {q} w (x ∷ xs) h n =
    let (t, e) = Chain-tail q.next x (q.next x) xs q.tail h.chain.1 in
    rw (push-tail q w t e) (record {
      chain = (
        h.chain.0,
        Chain-appended q.next w x xs t (subst (Chain q.next (some x) (q.next x) xs) e h.chain.1)
            h.distinct.0 h.distinct.1 n.0 n.1,
      );
      distinct = Distinct-append w (x ∷ xs) n h.distinct;
    })

-- `waitq_push_front` puts a waiter that is not queued in front of those that the queue holds.
pub push_front-Holds :
    {q : WaitQueue} (w : ℕ) (xs : List ℕ)
    → Holds q xs
    → NotIn w xs
    → Holds (push_front q w) (w ∷ xs)
unfolding push_front
push_front-Holds {q} w [] h n = record { chain = ground arith; distinct = (tt, tt) }
push_front-Holds {q} w (x ∷ xs) h n = record {
  chain =
      ground (arith, Chain-set_next q.next w q.head (some x) (q.next x) xs q.tail n.1 h.chain.1);
  distinct = (n, h.distinct);
}

-- `waitq_pop` returns NULL on an empty queue and changes nothing.
pub pop-nil : {q : WaitQueue} → Holds q [] → pop q ≡ (none, q)
unfolding pop
pop-nil h = rw (h.chain.0)

-- `waitq_pop` on a queue with waiters returns the first, and leaves the others in order.
pub pop-cons :
    {q : WaitQueue} (x : ℕ) (xs : List ℕ)
    → Holds q (x ∷ xs)
    → ((pop q).0 ≡ some x) × Holds (pop q).1 xs
unfolding pop
pop-cons {q} x [] h = (rw (h.chain.0), record { chain = ground arith; distinct = tt })
pop-cons {q} x (y ∷ ys) h = (
  rw (h.chain.0),
  record {
    chain = ground (
      arith,
      Chain-set_next q.next x none (some y) (q.next y) ys q.tail h.distinct.0.1 h.chain.1.1,
    );
    distinct = h.distinct.1;
  },
)
