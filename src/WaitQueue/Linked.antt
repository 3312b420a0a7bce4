-- ===== src/WaitQueue/Linked.antt =====
-- Which queues of pointers hold a list of addresses, and what a write to a `next` field keeps.
use libchan.Base.{ℕ, Option, none, some, List, [], ◌∷◌, ◌≡◌, ◌≢◌, NotIn, Distinct, arith}
use libchan.WaitQueue.{WaitQueue, set_next}

-- From a pointer `o` held by `prev`, the nodes are `xs`, and the last of them, or else `prev`, is
-- the tail.
abbrev pub Chain : (ℕ → Option ℕ) → Option ℕ → Option ℕ → List ℕ → Option ℕ → Type 0
Chain next prev o [] t = (o ≡ none) × (t ≡ prev)
Chain next prev o (x ∷ xs) t = (o ≡ some x) × Chain next (some x) (next x) xs t

-- The queue holds the nodes `xs`, first to last.
pub record Holds (q : WaitQueue) (xs : List ℕ) : Type 0 where
  pub chain : Chain q.next none q.head xs q.tail
  pub distinct : Distinct xs

-- A write to a node outside the chain does not touch it.
pub Chain-set_next :
    (next : ℕ → Option ℕ) (w : ℕ) (v prev o : Option ℕ) (xs : List ℕ) (t : Option ℕ)
    → NotIn w xs
    → Chain next prev o xs t
    → Chain (set_next next w v) prev o xs t
Chain-set_next next w v prev o [] t n c = c
Chain-set_next next w v prev o (x ∷ xs) t n c =
    (c.0, ground (arith, Chain-set_next next w v (some x) (next x) xs t n.1 c.1, n.0))

-- The tail of a chain is its holder or one of its nodes.
pub tail-ne :
    (next : ℕ → Option ℕ) (p : ℕ) (o : Option ℕ) (xs : List ℕ) (t x : ℕ)
    → Chain next (some p) o xs (some t)
    → x ≢ p
    → NotIn x xs
    → x ≢ t
tail-ne next p o [] t x c ne n = ground arith
tail-ne next p o (y ∷ ys) t x c ne n = tail-ne next y (next y) ys t x c.1 n.0 n.1

pub Chain-tail :
    (next : ℕ → Option ℕ) (p : ℕ) (o : Option ℕ) (xs : List ℕ) (t : Option ℕ)
    → Chain next (some p) o xs t
    → (l : ℕ) × (t ≡ some l)
Chain-tail next p o [] t c = (p, c.1)
Chain-tail next p o (x ∷ xs) t c = Chain-tail next x (next x) xs t c.1
