-- ===== src/Sieve/Pull.antt =====
-- How the threads of the sieve bring the next number to the end of the chain.
use mathlib.Core.Option.{some-injective}
use libchan.Base.{
  ℕ, zero, suc, ◌+◌, ◌%◌, Bool, true, false, Option, none, some, List, [], ◌∷◌, ◌++◌, leb, ◌==◌,
  if_true, if_false, Bool-cases, ◌≡◌, refl, sym, ap, subst, ◌∙◌, ◌⊎◌, inl, inr,
}
use libchan.Sieve.{
  limit, Chain, generate, filter, has_room, receive, ended, generate_step, received, filter_step,
  thread_step,
}
use libchan.Sieve.Stream.{stream, Tidy}
use libchan.Sieve.Output.{thread_step-stream, thread_step-Tidy}

abbrev pub threads_run : List ℕ → Chain → Chain
threads_run [] ch = ch
threads_run (n ∷ ns) ch = threads_run ns (thread_step n ch)

abbrev pub depth : Chain → ℕ
depth (generate i q closed) = 0
depth (filter p hand q closed up) = suc (depth up)

-- The next number is there, or the channel is closed and empty.
abbrev pub Comes : Chain → Type 0
Comes ch = ((t : ℕ × Chain) × (receive ch ≡ some t)) ⊎ (ended ch ≡ true)

abbrev pub Pulled : Chain → Type 0
Pulled ch = (ns : List ℕ) × Comes (threads_run ns ch)

pub later-Pulled : (n : ℕ) (ch ch' : Chain) → thread_step n ch ≡ ch' → Pulled ch' → Pulled ch
later-Pulled n ch ch' e (ns, c) = (n ∷ ns, subst (λ t. Comes (threads_run ns t)) (sym e) c)

append-run :
    (ns ms : List ℕ) (ch : Chain) → threads_run (ns ++ ms) ch ≡ threads_run ms (threads_run ns ch)
append-run [] ms ch = refl
append-run (n ∷ ns) ms ch = append-run ns ms (thread_step n ch)

pub after-Pulled : (ns : List ℕ) (ch ch' : Chain) → threads_run ns ch ≡ ch' → Pulled ch' → Pulled ch
after-Pulled ns ch ch' e (ms, c) =
    (ns ++ ms, subst Comes (sym (append-run ns ms ch ∙ ap (threads_run ms) e)) c)

-- The threads before the last filter.
abbrev pub sucs : List ℕ → List ℕ
sucs [] = []
sucs (n ∷ ns) = suc n ∷ sucs ns

pub sucs-run :
    (ns : List ℕ) (p : ℕ) (hand : Option ℕ) (q : List ℕ) (closed : Bool) (up : Chain)
    → threads_run (sucs ns) (filter p hand q closed up) ≡ filter p hand q closed (threads_run ns up)
sucs-run [] p hand q closed up = refl
sucs-run (n ∷ ns) p hand q closed up = sucs-run ns p hand q closed (thread_step n up)

pub run-Tidy : (ns : List ℕ) (ch : Chain) → Tidy ch → Tidy (threads_run ns ch)
run-Tidy [] ch h = h
run-Tidy (n ∷ ns) ch h = run-Tidy ns (thread_step n ch) (thread_step-Tidy n ch h)

pub run-stream : (ns : List ℕ) (ch : Chain) → stream (threads_run ns ch) ≡ stream ch
run-stream [] ch = refl
run-stream (n ∷ ns) ch = run-stream ns (thread_step n ch) ∙ thread_step-stream n ch

-- No thread goes.
generate_step-depth : (i : ℕ) (q : List ℕ) (closed : Bool) → depth (generate_step i q closed) ≡ 0
unfolding generate_step
generate_step-depth i q true = refl
generate_step-depth i q false = elim (Bool-cases (leb i limit)) [
  | inl e ↦ ap depth (if_true _ (generate i q true) e) ∙ elim (Bool-cases (has_room q)) [
    | inl room ↦ ap depth (if_true _ (generate i q false) room)
    | inr full ↦ ap depth (if_false (generate (i + 1) (q ++ (i ∷ [])) false) _ full)
  ]
  | inr e ↦ ap depth (if_false _ (generate i q true) e)
]

pub receive-depth :
    (ch : Chain) (x : ℕ) (ch' : Chain) → receive ch ≡ some (x, ch') → depth ch' ≡ depth ch
receive-depth (generate i [] closed) x ch' e = cc
receive-depth (generate i (y ∷ q) closed) x ch' e =
    ap (λ (t : ℕ × Chain). depth t.1) (sym (some-injective _ _ e))
receive-depth (filter p hand [] closed up) x ch' e = cc
receive-depth (filter p hand (y ∷ q) closed up) x ch' e =
    ap (λ (t : ℕ × Chain). depth t.1) (sym (some-injective _ _ e))

received-depth :
    (p : ℕ) (q : List ℕ) (up : Chain) (o : Option (ℕ × Chain))
    → receive up ≡ o
    → depth (received p q up o) ≡ suc (depth up)
received-depth p q up none e = refl
received-depth p q up (some (i, up')) e =
    elim (Bool-cases (i % p == 0)) [
      | inl d ↦ ap depth (if_true (filter p none q false up') (filter p (some i) q false up') d)
      | inr d ↦ ap depth (if_false (filter p none q false up') (filter p (some i) q false up') d)
    ]
    ∙ ap suc (receive-depth up i up' e)

filter_step-depth :
    (p : ℕ) (hand : Option ℕ) (q : List ℕ) (closed : Bool) (up : Chain)
    → depth (filter_step p hand q closed up) ≡ suc (depth up)
filter_step-depth p hand q true up = refl
filter_step-depth p none q false up = received-depth p q up (receive up) refl
filter_step-depth p (some i) q false up = elim (Bool-cases (has_room q)) [
  | inl room ↦ ap depth (if_true _ (filter p (some i) q false up) room)
  | inr full ↦ ap depth (if_false (filter p none (q ++ (i ∷ [])) false up) _ full)
]

thread_step-depth : (n : ℕ) (ch : Chain) → depth (thread_step n ch) ≡ depth ch
thread_step-depth n (generate i q closed) = generate_step-depth i q closed
thread_step-depth zero (filter p hand q closed up) = filter_step-depth p hand q closed up
thread_step-depth (suc n) (filter p hand q closed up) = ap suc (thread_step-depth n up)

pub run-depth : (ns : List ℕ) (ch : Chain) → depth (threads_run ns ch) ≡ depth ch
run-depth [] ch = refl
run-depth (n ∷ ns) ch = run-depth ns (thread_step n ch) ∙ thread_step-depth n ch
