-- ===== src/Sieve/Output.antt =====
-- What the sieve prints, under every schedule of its threads.
use libchan.Base.{
  ℕ, zero, suc, ◌+◌, ◌%◌, ◌≤◌, ◌<◌, Bool, true, false, Option, none, some, List, [], ◌∷◌, ◌++◌,
  append_assoc, length, leb, ◌==◌, if◌then◌else◌, if_true, if_false, Bool-cases, ◌≡◌, refl, sym, ap,
  subst, ◌∙◌, inl, inr, arith,
}
use libchan.Sieve.{
  limit, Chain, generate, filter, has_room, receive, generate_step, received, filter_step,
  thread_step, Main, sieved, Event, threads, mains, step, run,
}
use libchan.Sieve.Stream.{
  survivors, held, stream, Tidy, generate_step-stream, receive-stream, receive-Tidy, ended-stream,
}

-- No thread changes what is to come out of the chain.
received-stream :
    (p : ℕ) (q : List ℕ) (up : Chain) (o : Option (ℕ × Chain))
    → receive up ≡ o
    → stream (received p q up o) ≡ q ++ survivors p (stream up)
unfolding stream survivors
received-stream p q up none e = refl
received-stream p q up (some (i, up')) e = elim (Bool-cases (i % p == 0)) [
  | inl d ↦
      ap stream (if_true _ (filter p (some i) q false up') d)
      ∙ ap (λ t. q ++ t)
          (sym
            (ap (survivors p) (receive-stream up i up' e) ∙ if_true (survivors p (stream up')) _ d))
  | inr d ↦
      ap stream (if_false (filter p none q false up') _ d)
      ∙ ap (λ t. q ++ t)
          (sym (
            ap (survivors p) (receive-stream up i up' e) ∙ if_false (survivors p (stream up')) _ d))
]

filter_step-stream :
    (p : ℕ) (hand : Option ℕ) (q : List ℕ) (closed : Bool) (up : Chain)
    → stream (filter_step p hand q closed up) ≡ stream (filter p hand q closed up)
unfolding stream
filter_step-stream p hand q true up = refl
filter_step-stream p none q false up = received-stream p q up (receive up) refl
filter_step-stream p (some i) q false up = elim (Bool-cases (has_room q)) [
  | inl room ↦
      ap stream (if_true _ (filter p (some i) q false up) room)
      ∙ append_assoc q (i ∷ []) (survivors p (stream up))
  | inr full ↦ ap stream (if_false _ (filter p (some i) q false up) full)
]

pub thread_step-stream : (n : ℕ) (ch : Chain) → stream (thread_step n ch) ≡ stream ch
unfolding stream
thread_step-stream n (generate i q closed) = generate_step-stream i q closed
thread_step-stream zero (filter p hand q closed up) = filter_step-stream p hand q closed up
thread_step-stream (suc n) (filter p hand q closed up) =
    ap (λ t. q ++ (held hand ++ survivors p t)) (thread_step-stream n up)

received-Tidy :
    (p : ℕ) (q : List ℕ) (up : Chain) (o : Option (ℕ × Chain))
    → receive up ≡ o
    → Tidy up
    → Tidy (received p q up o)
received-Tidy p q up none e h = (λ c. (refl, ended-stream up h c), h)
received-Tidy p q up (some (i, up')) e h =
    let h' = receive-Tidy up i up' e h in
    elim (Bool-cases (i % p == 0)) [
      | inl d ↦
          subst Tidy {x = filter p none q false up'}
            (sym (if_true (filter p none q false up') (filter p (some i) q false up') d))
            (λ c. cc, h')
      | inr d ↦
          subst Tidy {x = filter p (some i) q false up'}
            (sym (if_false (filter p none q false up') (filter p (some i) q false up') d))
            (λ c. cc, h')
    ]

generate_step-Tidy :
    (i : ℕ) (q : List ℕ) (closed : Bool)
    → Tidy (generate i q closed)
    → Tidy (generate_step i q closed)
unfolding generate_step
generate_step-Tidy i q true h = h
generate_step-Tidy i q false h =
    let more = if has_room q then generate (i + 1) (q ++ (i ∷ [])) false else generate i q false in
    elim (Bool-cases (leb i limit)) [
      | inl e ↦
          subst Tidy (sym (if_true more (generate i q true) e)) (elim (Bool-cases (has_room q)) [
            | inl room ↦
                subst Tidy {x = generate (i + 1) (q ++ (i ∷ [])) false}
                  (sym (if_true _ (generate i q false) room)) (λ c. cc)
            | inr full ↦
                subst Tidy {x = generate i q false}
                  (sym (if_false (generate (i + 1) (q ++ (i ∷ [])) false) _ full)) (λ c. cc)
          ])
      | inr e ↦
          subst Tidy {x = generate i q true} (sym (if_false more (generate i q true) e))
            (λ c. beyond i e)
    ]
  where
    beyond : (k : ℕ) → leb k limit ≡ false → limit < k
    beyond k e = ground arith

filter_step-Tidy :
    (p : ℕ) (hand : Option ℕ) (q : List ℕ) (closed : Bool) (up : Chain)
    → Tidy (filter p hand q closed up)
    → Tidy (filter_step p hand q closed up)
filter_step-Tidy p hand q true up h = h
filter_step-Tidy p none q false up h = received-Tidy p q up (receive up) refl h.1
filter_step-Tidy p (some i) q false up h = elim (Bool-cases (has_room q)) [
  | inl room ↦
      subst Tidy {x = filter p none (q ++ (i ∷ [])) false up}
        (sym (if_true _ (filter p (some i) q false up) room)) (λ c. cc, h.1)
  | inr full ↦
      subst Tidy {x = filter p (some i) q false up}
        (sym (if_false (filter p none (q ++ (i ∷ [])) false up) _ full)) (λ c. cc, h.1)
]

pub thread_step-Tidy : (n : ℕ) (ch : Chain) → Tidy ch → Tidy (thread_step n ch)
thread_step-Tidy n (generate i q closed) h = generate_step-Tidy i q closed h
thread_step-Tidy zero (filter p hand q closed up) h = filter_step-Tidy p hand q closed up h
thread_step-Tidy (suc n) (filter p hand q closed up) h =
    (λ c. ((h.0 c).0, thread_step-stream n up ∙ (h.0 c).1), thread_step-Tidy n up h.1)

-- The sieve of a list: its first number, and the sieve of those behind that are no multiples of it.
unfoldable pub sieve : ℕ → List ℕ → List ℕ
sieve zero xs = []
sieve (suc n) [] = []
sieve (suc n) (p ∷ xs) = p ∷ sieve n (survivors p xs)

pub length-survivors : (p : ℕ) (xs : List ℕ) → length (survivors p xs) ≤ length xs
unfolding survivors
length-survivors p [] = omega arith
length-survivors p (x ∷ xs) = elim (Bool-cases (x % p == 0)) [
  | inl e ↦
      omega
        (arith, length-survivors p xs, ap length (if_true (survivors p xs) (x ∷ survivors p xs) e))
  | inr e ↦
      omega
        (arith, length-survivors p xs, ap length (if_false (survivors p xs) (x ∷ survivors p xs) e))
]

-- One round for each number is enough.
sieve-enough : (n m : ℕ) (xs : List ℕ) → length xs ≤ n → n ≤ m → sieve m xs ≡ sieve n xs
unfolding sieve
sieve-enough zero zero xs h g = refl
sieve-enough zero (suc m) [] h g = refl
sieve-enough zero (suc m) (x ∷ xs) h g = absurd (omega (arith, h))
sieve-enough (suc n) zero xs h g = absurd (omega (arith, g))
sieve-enough (suc n) (suc m) [] h g = refl
sieve-enough (suc n) (suc m) (x ∷ xs) h g =
    ap (λ t. x ∷ t)
      (sieve-enough n m (survivors x xs) (omega (arith, h, length-survivors x xs))
        (omega (arith, g)))

-- What was printed, and the sieve of what is to come.
pub record Sieving (all : List ℕ) (m : Main) : Type 0 where
  pub output : m.printed ++ sieve limit (stream m.chain) ≡ sieve limit all
  pub short : length (stream m.chain) ≤ limit
  pub tidy : Tidy m.chain
  pub finished : m.over ≡ true → stream m.chain ≡ []

pub sieved-Sieving :
    (all : List ℕ) (m : Main) (o : Option (ℕ × Chain))
    → receive m.chain ≡ o
    → m.over ≡ false
    → Sieving all m
    → Sieving all (sieved m o)
unfolding stream sieve
sieved-Sieving all m none e going h = record {
  output = h.output;
  short = h.short;
  tidy = h.tidy;
  finished = λ c. ended-stream m.chain h.tidy c;
}
sieved-Sieving all m (some (p, up)) e going h =
    let came = receive-stream m.chain p up e in
    let small = length-survivors p (stream up) in
    record {
      output =
          append_assoc m.printed (p ∷ []) (sieve limit (survivors p (stream up)))
          ∙ ap (λ t. m.printed ++ (p ∷ t))
              (sieve-enough 540 limit (survivors p (stream up))
                (omega (arith, small, h.short, ap length came)) (omega arith))
          ∙ ap (λ t. m.printed ++ sieve limit t) (sym came)
          ∙ h.output;
      short = omega (arith, small, h.short, ap length came);
      tidy = (λ c. cc, receive-Tidy m.chain p up e h.tidy);
      finished = λ c. cc;
    }

step-Sieving : (all : List ℕ) (m : Main) (e : Event) → Sieving all m → Sieving all (step m e)
step-Sieving all m (threads n) h =
    let same = thread_step-stream n m.chain in
    record {
      output = ap (λ t. m.printed ++ sieve limit t) same ∙ h.output;
      short = omega (arith, h.short, ap length same);
      tidy = thread_step-Tidy n m.chain h.tidy;
      finished = λ c. same ∙ h.finished c;
    }
step-Sieving all m mains h = elim (Bool-cases m.over) [
  | inl c ↦ subst (Sieving all) (sym (if_true m (sieved m (receive m.chain)) c)) h
  | inr c ↦
      subst (Sieving all) (sym (if_false m (sieved m (receive m.chain)) c))
        (sieved-Sieving all m (receive m.chain) refl c h)
]

pub run-Sieving :
    (all : List ℕ) (es : List Event) (m : Main) → Sieving all m → Sieving all (run m es)
unfolding run
run-Sieving all [] m h = h
run-Sieving all (e ∷ es) m h = run-Sieving all es (step m e) (step-Sieving all m e h)
