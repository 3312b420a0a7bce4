-- ===== src/Snake/Input.antt =====
-- What the input thread makes of the bytes that it reads.
use libchan.Base.{
  ℕ, zero, suc, Bool, true, false, ◌||◌, ◌==◌, if_true, if_false, Bool-cases, Option, none, some,
  List, [], ◌∷◌, ◌≡◌, refl, sym, subst, ◌∙◌, inl, inr,
}
use libchan.Snake.Keys.{
  Dir, dir_up, dir_down, dir_left, dir_right, dir_none, arrow, is_final, read_csi, read_escape_seq,
  read_dir, sent, input_thread,
}
use libchan.Snake.Turns.{Sendable}

sent-Sendable : (d : Dir) (ds : List Dir) → Sendable ds → Sendable (sent d ds)
sent-Sendable dir_up ds s = (refl, s)
sent-Sendable dir_down ds s = (refl, s)
sent-Sendable dir_left ds s = (refl, s)
sent-Sendable dir_right ds s = (refl, s)
sent-Sendable dir_none ds s = s

-- Whatever it reads, the input thread never sends DIR_NONE.
pub input_thread-Sendable :
    (turns : ℕ) (bytes : List (Option ℕ)) → Sendable (input_thread turns bytes).0
unfolding input_thread
input_thread-Sendable zero bytes = tt
input_thread-Sendable (suc turns) [] = tt
input_thread-Sendable (suc turns) (none ∷ rest) = input_thread-Sendable turns rest
input_thread-Sendable (suc turns) (some c ∷ rest) = elim (Bool-cases (c == 113 || c == 81)) [
  | inl e ↦ subst (λ (t : List Dir × Bool). Sendable t.0) (sym (if_true _ _ e)) tt
  | inr e ↦
      subst (λ (t : List Dir × Bool). Sendable t.0) (sym (if_false _ _ e))
        (sent-Sendable (read_dir c rest).0 _ (input_thread-Sendable turns (read_dir c rest).1))
]

-- Bytes that do not end an escape sequence.
abbrev pub Parameters : List ℕ → Type 0
Parameters [] = Unit
Parameters (p ∷ ps) = (is_final p ≡ false) × Parameters ps

abbrev pub typed : List ℕ → List (Option ℕ) → List (Option ℕ)
typed [] rest = rest
typed (b ∷ bs) rest = some b ∷ typed bs rest

read_csi-lem :
    (ps : List ℕ) (f : ℕ) (rest : List (Option ℕ))
    → Parameters ps
    → is_final f ≡ true
    → read_csi (typed ps (some f ∷ rest)) ≡ (arrow f, rest)
unfolding read_csi
read_csi-lem [] f rest h e = if_true _ _ e
read_csi-lem (p ∷ ps) f rest h e = if_false _ _ h.0 ∙ read_csi-lem ps f rest h.1 e

-- An escape sequence that begins with ESC [, whatever parameters it has, is read to its final byte
-- and no further, and gives the arrow of that byte, or DIR_NONE where it is not an arrow's.
pub read_escape_seq-csi :
    (ps : List ℕ) (f : ℕ) (rest : List (Option ℕ))
    → Parameters ps
    → is_final f ≡ true
    → read_escape_seq (some 91 ∷ typed ps (some f ∷ rest)) ≡ (arrow f, rest)
unfolding read_escape_seq
read_escape_seq-csi ps f rest h e = read_csi-lem ps f rest h e
