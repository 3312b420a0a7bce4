-- ===== src/Snake/Body.antt =====
-- A move keeps the snake inside the walls, in one piece and off itself.
use libchan.Base.{
  ℕ, zero, suc, ◌+◌, ◌-◌, ◌≤◌, ◌<◌, min, false, leb, ltb, if◌then◌else◌, if_true, if_false,
  Bool-cases, ◌≡◌, sym, subst, inl, inr, arith,
}
use libchan.Snake.Keys.{is_none}
use libchan.Snake.Game.{maxlen, Pos, Game, same, hit_self, shift, eat, advance}
use libchan.Snake.Board.{Inside, place_food-Inside, among-off, Beside, Beside-apart}

-- The first `len` cells are inside the walls, each is beside the next, and no two are the same.
pub record Body (snake : ℕ → Pos) (len : ℕ) : Type 0 where
  pub inside : (i : ℕ) → i < len → Inside (snake i)
  pub joined : (i : ℕ) → suc i < len → Beside (snake i) (snake (suc i))
  pub apart : (i j : ℕ) → i < j → j < len → same (snake j) (snake i) ≡ false

-- A game that can go on.
pub record Playing (g : Game) : Type 0 where
  pub body : Body g.snake g.len
  pub heading : is_none g.cur ≡ false
  pub food_inside : Inside g.food
  pub len_lem : g.len ≡ min maxlen (3 + g.score)

shift-back :
    (snake : ℕ → Pos) (n : ℕ) (head : Pos) (i : ℕ) → i < n → shift snake n head (suc i) ≡ snake i
unfolding shift
shift-back snake n head i l = if_true {b = leb (suc i) n} _ _ (ground arith)

-- The snake moves to a cell beside its head that it does not cover, and keeps its last cell or not.
pub shift-Body :
    (snake : ℕ → Pos) (len n : ℕ) (head : Pos)
    → Body snake len
    → n ≤ len
    → Inside head
    → Beside head (snake 0)
    → hit_self snake len head ≡ false
    → Body (shift snake n head) (suc n)
unfolding shift
shift-Body snake len n head h few clear near free = record {
  inside = all;
  joined = chain;
  apart = off;
}
  where
    back : (i : ℕ) → i < n → shift snake n head (suc i) ≡ snake i
    back i l = shift-back snake n head i l

    all : (i : ℕ) → i < suc n → Inside (shift snake n head i)
    all zero l = clear
    all (suc i) l =
        subst Inside (sym (back i (omega (arith, l)))) (h.inside i (omega (arith, l, few)))

    chain : (i : ℕ) → suc i < suc n → Beside (shift snake n head i) (shift snake n head (suc i))
    chain zero l = subst (Beside head) (sym (back 0 (omega (arith, l)))) near
    chain (suc i) l =
        subst (λ p. Beside p (shift snake n head (suc (suc i)))) (sym (back i (omega (arith, l))))
          (subst (Beside (snake i)) (sym (back (suc i) (omega (arith, l))))
            (h.joined i (omega (arith, l, few))))

    fresh : (k : ℕ) → k < len → same (snake k) head ≡ false
    fresh zero l = Beside-apart head (snake 0) near
    fresh (suc k) l =
        subst (λ (t : ℕ). same (snake t) head ≡ false) {x = 1 + k} {y = suc k} (omega arith)
          (among-off (len - 1) snake 1 head free k (omega (arith, l)))

    off : (i j : ℕ) → i < j → j < suc n → same (shift snake n head j) (shift snake n head i) ≡ false
    off i zero l m = absurd (omega (arith, l))
    off zero (suc j) l m =
        subst (λ p. same p head ≡ false) (sym (back j (omega (arith, m))))
          (fresh j (omega (arith, m, few)))
    off (suc i) (suc j) l m =
        subst (λ p. same p (shift snake n head (suc i)) ≡ false) (sym (back j (omega (arith, m))))
          (subst (λ p. same (snake j) p ≡ false) (sym (back i (omega (arith, l, m))))
            (h.apart i j (omega (arith, l)) (omega (arith, m, few))))

len-shift : (len : ℕ) (snake : ℕ → Pos) → 1 ≤ len → Body snake (suc (len - 1)) → Body snake len
len-shift len snake l h = subst (Body snake) {x = suc (len - 1)} {y = len} (omega (arith, l)) h

-- The move to a head that hits nothing.
pub advance-Playing :
    (rand : ℕ → ℕ) (g : Game) (head : Pos)
    → Playing g
    → Inside head
    → Beside head (g.snake 0)
    → hit_self g.snake g.len head ≡ false
    → Playing (advance rand g head)
unfolding advance eat
advance-Playing rand g head h clear near free = elim (Bool-cases (same head g.food)) [
  | inl e ↦
      subst (λ t. Playing (record t { snake = shift t.snake (t.len - 1) head }))
        (sym (if_true _ _ e))
        (record {
          body =
              len-shift longer _ (ground (arith, h.len_lem))
                (shift-Body g.snake g.len (longer - 1) head h.body (ground arith) clear near free);
          heading = h.heading;
          food_inside = place_food-Inside rand 1000 g.calls g.snake longer g.food h.food_inside;
          len_lem = ground (arith, h.len_lem);
        })
  | inr e ↦
      subst (λ t. Playing (record t { snake = shift t.snake (t.len - 1) head }))
        (sym (if_false _ _ e))
        (record {
          body =
              len-shift g.len _ (omega (arith, h.len_lem))
                (shift-Body g.snake g.len (g.len - 1) head h.body (omega arith) clear near free);
          heading = h.heading;
          food_inside = h.food_inside;
          len_lem = h.len_lem;
        })
]
  where
    longer : ℕ
    longer = if ltb g.len maxlen then g.len + 1 else g.len
