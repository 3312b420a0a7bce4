-- ===== src/WaitQueue/Remove.antt =====
-- `waitq_remove` on a queue that holds a list.
use libchan.Base.{
  ℕ, zero, suc, ◌<◌, Bool, true, false, Option, none, some, List, [], ◌∷◌, ◌≡◌, ◌≢◌, refl, sym, ap,
  subst, ◌∙◌, inl, inr, length, NotIn, Distinct, mem, erase, NotIn-erase, Distinct-erase, ◌==◌,
  if◌then◌else◌, Bool-cases, arith,
}
use libchan.WaitQueue.{WaitQueue, set_next, unlink, remove_from, remove}
use libchan.WaitQueue.Linked.{Chain, Holds, Chain-set_next, Chain-tail, tail-ne}

-- What the loop has done when it stops, entered behind the node `p` with the nodes `xs` ahead.
record Removed (q : WaitQueue) (target p : ℕ) (xs : List ℕ) (out : Option (Bool × WaitQueue))
    : Type 0 where
  last : WaitQueue
  returned : out ≡ some (mem target xs, last)
  chain : Chain last.next (some p) (last.next p) (erase target xs) last.tail
  head_kept : last.head ≡ q.head
  frame : (x : ℕ) → x ≢ p → NotIn x xs → last.next x ≡ q.next x

-- The tail after a removal, from a chain in which `x` is not the last node.
tail_kept :
    (x : ℕ) (p : Option ℕ) (t : Option ℕ) (l : ℕ)
    → t ≡ some l
    → x ≢ l
    → (let r : Option ℕ = elim t [ none ↦ none | some t' ↦ if t' == x then p else some t' ] in r)
      ≡ t
tail_kept x p none l e ne = refl
tail_kept x p (some t) l e ne = ground arith

-- What the two writes of an unlinking leave in the node before, and in a node behind.
here :
    (next : ℕ → Option ℕ) (p x : ℕ) (v : Option ℕ)
    → p ≢ x
    → next x ≡ set_next (set_next next p (next x)) x v p
here next p x v ne = ground arith

beside : (next : ℕ → Option ℕ) (x y : ℕ) → x ≢ y → next y ≡ set_next next x none y
beside next x y ne = ground arith

there :
    (next : ℕ → Option ℕ) (p x y : ℕ) (v : Option ℕ)
    → p ≢ y
    → x ≢ y
    → next y ≡ set_next (set_next next p v) x none y
there next p x y v np nx = ground arith

Chain-unlink :
    (q : WaitQueue) (p x : ℕ) (xs : List ℕ)
    → Chain q.next (some x) (q.next x) xs q.tail
    → p ≢ x
    → NotIn p xs
    → NotIn x xs
    → Chain (unlink x (some p) q).next (some p) (q.next x) xs (unlink x (some p) q).tail
Chain-unlink q p x [] c ne np nx = ground arith
Chain-unlink q p x (y ∷ ys) c ne np nx =
    let (l, e) = Chain-tail q.next y (q.next y) ys q.tail c.1 in
    let next' : ℕ → Option ℕ = set_next (set_next q.next p (q.next x)) x none in
    (
      c.0,
      subst (λ t. Chain next' (some y) (next' y) ys t)
          (sym (
            tail_kept x (some p) q.tail l e (
              tail-ne q.next y (q.next y) ys l x (subst (Chain q.next (some y) (q.next y) ys) e c.1)
                nx.0 nx.1)))
          (subst (λ o. Chain next' (some y) o ys q.tail) (there q.next p x y (q.next x) np.0 nx.0)
            (Chain-set_next (set_next q.next p (q.next x)) x none (some y) (q.next y) ys q.tail nx.1
              (Chain-set_next q.next p (q.next x) (some y) (q.next y) ys q.tail np.1 c.1))),
    )

-- One round of the loop.
remove_from_found :
    (fuel : ℕ) (q : WaitQueue) (target : ℕ) (prev : Option ℕ) {cur : Option ℕ} (x : ℕ)
    → cur ≡ some x
    → (x == target) ≡ true
    → remove_from (suc fuel) q target prev cur ≡ some (true, unlink x prev q)
unfolding remove_from
remove_from_found fuel q target prev x e f = rw (e, remove_from) (rw f refl)

remove_from_next :
    (fuel : ℕ) (q : WaitQueue) (target : ℕ) (prev : Option ℕ) {cur : Option ℕ} (x : ℕ)
    → cur ≡ some x
    → (x == target) ≡ false
    → remove_from (suc fuel) q target prev cur ≡ remove_from fuel q target (some x) (q.next x)
unfolding remove_from
remove_from_next fuel q target prev x e f = rw (e, remove_from) (rw f refl)

mem-found : (target x : ℕ) (xs : List ℕ) → (x == target) ≡ true → true ≡ mem target (x ∷ xs)
mem-found target x xs f = rw f

mem-next :
    (target x : ℕ) (xs : List ℕ) → (x == target) ≡ false → mem target xs ≡ mem target (x ∷ xs)
mem-next target x xs f = rw f

remove_from-Removed :
    (fuel : ℕ) (q : WaitQueue) (target p : ℕ) (xs : List ℕ)
    → length xs < fuel
    → Chain q.next (some p) (q.next p) xs q.tail
    → NotIn p xs
    → Distinct xs
    → Removed q target p xs (remove_from fuel q target (some p) (q.next p))
unfolding remove_from
remove_from-Removed zero q target p xs h c np d = absurd (omega arith)
remove_from-Removed (suc fuel) q target p [] h c np d = record {
  last = q;
  returned = rw (c.0);
  chain = c;
  head_kept = refl;
  frame = λ x ne n. refl;
}
remove_from-Removed (suc fuel) q target p (x ∷ xs) h c np d = elim (Bool-cases (x == target)) [
  | inl found ↦ record {
    last = unlink x (some p) q;
    returned =
        remove_from_found fuel q target (some p) x c.0 found
        ∙ ap (λ b. some (b, unlink x (some p) q)) (mem-found target x xs found);
    chain = rw found (
        subst (λ o. Chain (unlink x (some p) q).next (some p) o xs (unlink x (some p) q).tail)
          (here q.next p x none np.0) (Chain-unlink q p x xs c.1 np.0 np.1 d.0));
    head_kept = refl;
    frame = λ y ne n. ground arith;
  }
  | inr other ↦
      let r = remove_from-Removed fuel q target x xs (omega arith) c.1 d.0 d.1 in
      record {
        last = r.last;
        returned =
            remove_from_next fuel q target (some p) x c.0 other
            ∙ r.returned
            ∙ ap (λ b. some (b, r.last)) (mem-next target x xs other);
        chain = rw other (r.frame p np.0 np.1 ∙ c.0, r.chain);
        head_kept = r.head_kept;
        frame = λ y ne n. r.frame y n.0 n.1;
      }
]

-- The first node goes: the head moves on.
Chain-unlink_first :
    (q : WaitQueue) (x : ℕ) (xs : List ℕ)
    → Chain q.next (some x) (q.next x) xs q.tail
    → NotIn x xs
    → Chain (unlink x none q).next none (q.next x) xs (unlink x none q).tail
Chain-unlink_first q x [] c nx = ground arith
Chain-unlink_first q x (y ∷ ys) c nx =
    let (l, e) = Chain-tail q.next y (q.next y) ys q.tail c.1 in
    let next' : ℕ → Option ℕ = set_next q.next x none in
    (
      c.0,
      subst (λ t. Chain next' (some y) (next' y) ys t)
          (sym (
            tail_kept x none q.tail l e (
              tail-ne q.next y (q.next y) ys l x (subst (Chain q.next (some y) (q.next y) ys) e c.1)
                nx.0 nx.1)))
          (subst (λ o. Chain next' (some y) o ys q.tail) (beside q.next x y nx.0)
            (Chain-set_next q.next x none (some y) (q.next y) ys q.tail nx.1 c.1)),
    )

-- `waitq_remove` reports whether the waiter was queued, and takes it out; the others stay in
-- order. As many rounds as there are waiters, and one, are enough.
pub remove-Holds :
    {q : WaitQueue} (fuel target : ℕ) (xs : List ℕ)
    → Holds q xs
    → length xs < fuel
    → (q' : WaitQueue) × (remove fuel q target ≡ some (mem target xs, q'))
      × Holds q' (erase target xs)
unfolding remove remove_from
remove-Holds {q} zero target xs h lt = absurd (omega arith)
remove-Holds {q} (suc fuel) target [] h lt = (q, rw (h.chain.0), h)
remove-Holds {q} (suc fuel) target (x ∷ xs) h lt = elim (Bool-cases (x == target)) [
  | inl found ↦ (
    unlink x none q,
    remove_from_found fuel q target none x h.chain.0 found
        ∙ ap (λ b. some (b, unlink x none q)) (mem-found target x xs found),
    rw found (record {
      chain = Chain-unlink_first q x xs h.chain.1 h.distinct.0;
      distinct = h.distinct.1;
    }),
  )
  | inr other ↦
      let r =
        remove_from-Removed fuel q target x xs (omega arith) h.chain.1 h.distinct.0 h.distinct.1 in
      (
        r.last,
        remove_from_next fuel q target none x h.chain.0 other
            ∙ r.returned
            ∙ ap (λ b. some (b, r.last)) (mem-next target x xs other),
        rw other (record {
          chain = (r.head_kept ∙ h.chain.0, r.chain);
          distinct = (NotIn-erase x target xs h.distinct.0, Distinct-erase target xs h.distinct.1);
        }),
      )
]
