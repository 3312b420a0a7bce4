-- ===== src/Select/Call/Locks.antt =====
-- The order in which `chan_select_impl` takes the locks of its channels.
use libchan.Base.{
  ℕ, zero, suc, ◌+◌, ◌≤◌, ◌<◌, true, List, [], ◌∷◌, ◌≡◌, refl, sym, ap, subst, ◌∙◌, ◌⊎◌, inl, inr,
  length, mem, ltb, ◌==◌, ==_iff, if_true, if_false, Bool-cases, arith,
}
use libchan.Select.{
  Case, ch_of, insert_order, sort_rounds, reverse_onto, sort_order, sort_order_2, lock_from,
  lock_all,
}
use libchan.Select.Call.{lock_order}

-- The channels of the indices fall from `b`, or rise from it.
abbrev FallingFrom : List Case → ℕ → List ℕ → Type 0
FallingFrom cases b [] = Unit
FallingFrom cases b (x ∷ xs) = (ch_of cases x ≤ b) × FallingFrom cases (ch_of cases x) xs

abbrev RisingFrom : List Case → ℕ → List ℕ → Type 0
RisingFrom cases b [] = Unit
RisingFrom cases b (x ∷ xs) = (b ≤ ch_of cases x) × RisingFrom cases (ch_of cases x) xs

-- Addresses in strictly increasing order, all above `b`.
abbrev pub Above : ℕ → List ℕ → Type 0
Above b [] = Unit
Above b (a ∷ rest) = (b < a) × Above a rest

abbrev pub Increasing : List ℕ → Type 0
Increasing [] = Unit
Increasing (a ∷ rest) = Above a rest

falling-le :
    (cases : List Case) (a b : ℕ) (xs : List ℕ)
    → a ≤ b
    → FallingFrom cases a xs
    → FallingFrom cases b xs
falling-le cases a b [] h f = tt
falling-le cases a b (x ∷ xs) h f = (omega (arith, f.0, h), f.1)

rising-le :
    (cases : List Case) (a b : ℕ) (xs : List ℕ)
    → a ≤ b
    → RisingFrom cases b xs
    → RisingFrom cases a xs
rising-le cases a b [] h f = tt
rising-le cases a b (x ∷ xs) h f = (omega (arith, f.0, h), f.1)

insert-falling :
    (cases : List Case) (key b : ℕ) (xs : List ℕ)
    → ch_of cases key ≤ b
    → FallingFrom cases b xs
    → FallingFrom cases b (insert_order cases key xs)
insert-falling cases key b [] h f = (h, tt)
insert-falling cases key b (x ∷ xs) h f =
    elim (Bool-cases (ltb (ch_of cases key) (ch_of cases x))) [
      | inl e ↦
          subst (FallingFrom cases b) (sym (if_true _ _ e))
            (f.0, insert-falling cases key (ch_of cases x) xs (ground arith) f.1)
      | inr e ↦ subst (FallingFrom cases b) (sym (if_false _ _ e)) (h, (ground arith, f.1))
    ]

rounds-falling :
    (cases : List Case) (left i b : ℕ) (sorted : List ℕ)
    → FallingFrom cases b sorted
    → (t : ℕ) × FallingFrom cases t (sort_rounds cases left i sorted)
rounds-falling cases zero i b sorted f = (b, f)
rounds-falling cases (suc left) i b sorted f =
    rounds-falling cases left (i + 1) (b + ch_of cases i) (insert_order cases i sorted) (
      insert-falling cases i (b + ch_of cases i) sorted (omega arith)
        (falling-le cases b (b + ch_of cases i) sorted (omega arith) f))

reverse-rising :
    (cases : List Case) (b : ℕ) (xs ys : List ℕ)
    → FallingFrom cases b xs
    → RisingFrom cases b ys
    → RisingFrom cases 0 (reverse_onto xs ys)
reverse-rising cases b [] ys f r = rising-le cases 0 b ys (omega arith) r
reverse-rising cases b (x ∷ xs) ys f r =
    reverse-rising cases (ch_of cases x) xs (x ∷ ys) f.1
      (omega arith, rising-le cases (ch_of cases x) b ys f.0 r)

-- `sort_order` sorts by address.
sort_order-rising : (cases : List Case) → RisingFrom cases 0 (sort_order cases)
unfolding sort_order
sort_order-rising cases =
    let (b, f) = rounds-falling cases (length cases) 0 0 [] tt in reverse-rising cases b _ [] f tt

lock_from-Above :
    (cases : List Case) (prev : ℕ) (is : List ℕ)
    → RisingFrom cases prev is
    → Above prev (lock_from cases prev is)
lock_from-Above cases prev [] r = tt
lock_from-Above cases prev (i ∷ is) r = elim (Bool-cases (ch_of cases i == prev)) [
  | inl e ↦
      let same : ch_of cases i ≡ prev = ground arith in
      subst (Above prev) (sym (if_true _ _ e)) (
        subst (λ t. Above t (lock_from cases (ch_of cases i) is)) same
          (lock_from-Above cases (ch_of cases i) is r.1))
  | inr e ↦
      subst (Above prev) (sym (if_false _ _ e))
        (ground arith, lock_from-Above cases (ch_of cases i) is r.1)
]

lock_all-Increasing :
    (cases : List Case) (is : List ℕ) → RisingFrom cases 0 is → Increasing (lock_all cases is)
unfolding lock_all
lock_all-Increasing cases [] r = tt
lock_all-Increasing cases (i ∷ is) r = lock_from-Above cases (ch_of cases i) is r.1

-- `sort_order_2` is the sort, on two cases.
sort_order_2-eq-sort_order :
    (cases : List Case) → length cases ≡ 2 → sort_order_2 cases ≡ sort_order cases
unfolding sort_order sort_order_2
sort_order_2-eq-sort_order cases two =
    sym (ap (λ (n : ℕ). reverse_onto (sort_rounds cases n 0 []) []) two ∙ sorted_pair)
  where
    sorted_pair : reverse_onto (sort_rounds cases 2 0 []) [] ≡ sort_order_2 cases
    sorted_pair = elim (Bool-cases (ltb (ch_of cases 1) (ch_of cases 0))) [
      | inl e ↦ rw e refl
      | inr e ↦ rw e refl
    ]

-- Every index is in the order.
mem-insert :
    (cases : List Case) (key i : ℕ) (xs : List ℕ)
    → (mem i (key ∷ xs)) ≡ true
    → mem i (insert_order cases key xs) ≡ true
mem-insert cases key i [] h = h
mem-insert cases key i (x ∷ xs) h = elim (Bool-cases (ltb (ch_of cases key) (ch_of cases x))) [
  | inl e ↦
      subst (λ t. mem i t ≡ true) (sym (if_true _ _ e)) (ground (arith, mem-insert cases key i xs))
  | inr e ↦ subst (λ t. mem i t ≡ true) (sym (if_false _ _ e)) h
]

mem-rounds :
    (cases : List Case) (left i j : ℕ) (sorted : List ℕ)
    → (j < i + left)
    → ((k : ℕ) → k < i → mem k sorted ≡ true)
    → mem j (sort_rounds cases left i sorted) ≡ true
mem-rounds cases zero i j sorted lt all = all j (omega arith)
mem-rounds cases (suc left) i j sorted lt all =
    mem-rounds cases left (i + 1) j (insert_order cases i sorted) (omega arith)
      (λ k l. mem-insert cases i k sorted (ground (arith, all k)))

mem-reverse :
    (i : ℕ) (xs ys : List ℕ)
    → (mem i xs ≡ true) ⊎ (mem i ys ≡ true)
    → mem i (reverse_onto xs ys) ≡ true
mem-reverse i [] ys (inl h) = cc
mem-reverse i [] ys (inr h) = h
mem-reverse i (x ∷ xs) ys h = mem-reverse i xs (x ∷ ys) (ground (arith))

mem-sort_order : (cases : List Case) (i : ℕ) → i < length cases → mem i (sort_order cases) ≡ true
unfolding sort_order
mem-sort_order cases i lt =
    mem-reverse i (sort_rounds cases (length cases) 0 []) []
      (inl (mem-rounds cases (length cases) 0 i [] (omega arith) (λ k l. absurd (omega arith))))

mem-locked :
    (cases : List Case) (x i : ℕ) (is : List ℕ)
    → mem i (x ∷ is) ≡ true
    → (mem i is ≡ true
        → mem (ch_of cases i) (ch_of cases x ∷ lock_from cases (ch_of cases x) is) ≡ true)
    → mem (ch_of cases i) (ch_of cases x ∷ lock_from cases (ch_of cases x) is) ≡ true
mem-locked cases x i is h later = elim (Bool-cases (x == i)) [
  | inl f ↦
      subst
        (λ (t : ℕ). mem (ch_of cases t) (ch_of cases x ∷ lock_from cases (ch_of cases x) is) ≡ true)
        ((==_iff x i).0 f) (ground arith)
  | inr f ↦ later (rw f at h)
]

mem-lock_from :
    (cases : List Case) (prev i : ℕ) (is : List ℕ)
    → mem i is ≡ true
    → mem (ch_of cases i) (prev ∷ lock_from cases prev is) ≡ true
mem-lock_from cases prev i [] h = cc
mem-lock_from cases prev i (x ∷ is) h =
    let locked = mem-locked cases x i is h (mem-lock_from cases (ch_of cases x) i is) in
    elim (Bool-cases (ch_of cases x == prev)) [
      | inl e ↦
          subst (λ t. mem (ch_of cases i) (prev ∷ t) ≡ true) (sym (if_true _ _ e))
            (subst (λ (t : ℕ). mem (ch_of cases i) (t ∷ lock_from cases (ch_of cases x) is) ≡ true)
              ((==_iff (ch_of cases x) prev).0 e) locked)
      | inr e ↦
          subst (λ t. mem (ch_of cases i) (prev ∷ t) ≡ true) (sym (if_false _ _ e))
            (ground (arith, locked))
    ]

mem-lock_all :
    (cases : List Case) (i : ℕ) (order : List ℕ)
    → mem i order ≡ true
    → mem (ch_of cases i) (lock_all cases order) ≡ true
unfolding lock_all
mem-lock_all cases i [] h = cc
mem-lock_all cases i (x ∷ is) h =
    mem-locked cases x i is h (mem-lock_from cases (ch_of cases x) i is)

-- The order that the call uses, also on two cases.
lock_order-sorted : (cases : List Case) → lock_order cases ≡ lock_all cases (sort_order cases)
unfolding lock_order
lock_order-sorted cases = elim (Bool-cases (length cases == 2)) [
  | inl e ↦ ap (lock_all cases) (if_true _ _ e ∙ sort_order_2-eq-sort_order cases (ground arith))
  | inr e ↦ ap (lock_all cases) (if_false _ _ e)
]

-- The channels that a `chan_select` locks come in strictly increasing order of their addresses, for
-- any cases, also where several name one channel.
pub lock_order-Increasing : (cases : List Case) → Increasing (lock_order cases)
lock_order-Increasing cases =
    subst Increasing (sym (lock_order-sorted cases))
      (lock_all-Increasing cases (sort_order cases) (sort_order-rising cases))

-- The channel of each case of a `chan_select` is among those that it locks.
pub lock_order-covers :
    (cases : List Case) (i : ℕ) → i < length cases → mem (ch_of cases i) (lock_order cases) ≡ true
lock_order-covers cases i lt =
    rw (lock_order-sorted cases)
      (mem-lock_all cases i (sort_order cases) (mem-sort_order cases i lt))
