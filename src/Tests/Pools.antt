-- ===== src/Tests/Pools.antt =====
-- A pool of three objects, of which one user holds the second.
use fuxi_n.Prelude.{
  ℕ, ◌+◌, ◌*◌, ◌%◌, ◌≡◌, refl, List, [], ◌∷◌, ◌++◌, Array, true, false, some, arith, ℤ, pos,
}
use mathlib.Core.List.{Nodup}
use mathlib.Core.List.Perm
use fuxi_n.Ring.{RteRing}
use fuxi_n.ObjectPool.{FlatObjectQueue}
use fuxi_n.ObjectPool.Laws.{IsShared}
use fuxi_n.ObjectPool.History.{Call, takes, gives_back, run, run-IsShared}

abbrev four : ℕ → ℕ
four n = 4

abbrev words : Array ℤ
words j = pos j

abbrev objects : Array ℕ
objects j = 100 + j

-- A ring of four slots with the given ids and counters
abbrev ring_of : Array ℤ → ℕ → ℕ → RteRing ℤ
ring_of ids produced consumed = record {
  size = 4;
  mask = 3;
  capacity = 4;
  is_sp = false;
  is_sc = false;
  inited = true;
  prod = record { head = produced; tail = produced };
  cons = record { head = consumed; tail = consumed };
  storage = ids;
  use_outer_buffer = true;
}

abbrev pool_of : RteRing ℤ → FlatObjectQueue ℕ
pool_of r = record { inited = true; queue_capacity = 3; free_ids = r; storage = objects }

-- 0 and 2 are free, 1 is held.
abbrev one_held : FlatObjectQueue ℕ
one_held = pool_of (ring_of (λ j. pos (2 * (j % 4))) 2 0)

one_held-IsShared : IsShared one_held (0 ∷ 2 ∷ []) (1 ∷ [])
one_held-IsShared = record {
  ring_valid = record {
    bits = 2;
    is_pow = refl;
    small = omega arith;
    masked = refl;
    capacity_eq = refl;
    prod_rest = refl;
    cons_rest = refl;
    prod_word = omega arith;
    cons_word = omega arith;
    fill = omega arith;
  };
  free_eq = refl;
  small = omega arith;
  room = omega arith;
  shares = Perm.cons 0 (Perm.swap 1 2 []);
}

-- All three are held.
abbrev all_held : FlatObjectQueue ℕ
all_held = pool_of (ring_of words 3 3)

all_held-IsShared : IsShared all_held [] (0 ∷ 1 ∷ 2 ∷ [])
all_held-IsShared = record {
  ring_valid = record {
    bits = 2;
    is_pow = refl;
    small = omega arith;
    masked = refl;
    capacity_eq = refl;
    prod_rest = refl;
    cons_rest = refl;
    prod_word = omega arith;
    cons_word = omega arith;
    fill = omega arith;
  };
  free_eq = refl;
  small = omega arith;
  room = omega arith;
  shares = Perm.refl _;
}

abbrev calls : List Call
calls = takes ∷ gives_back 1 ∷ takes ∷ takes ∷ takes ∷ []

run_five_calls :
    (q' : FlatObjectQueue ℕ) × (free' held' : List ℕ) × (run 0 one_held (1 ∷ []) calls
      ≡ some (q', held'))
    × IsShared q' free' held'
    × Nodup (free' ++ held')
    × (q'.queue_capacity ≡ 3)
run_five_calls = run-IsShared 0 one_held (0 ∷ 2 ∷ []) (1 ∷ []) calls one_held-IsShared
