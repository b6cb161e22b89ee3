-- ===== src/Memory/Buffer/Cover.antt =====
-- How many of some ranges of addresses hold an address.
use fuxi_n.Prelude.{
  ℕ, ◌+◌, ◌-◌, ◌*◌, ◌/◌, ◌%◌, ◌≤◌, ◌<◌, ◌≡◌, ap, ◌∙◌, List, [], ◌∷◌, ◌++◌, ltb, leb, ◌&&◌,
  if◌then◌else◌, tally, tally_self, count, arith,
}
use native.Mathlib.Decide.{dec_lt}
use native.Mathlib.Nat.{mod-eq_of_lt, div-add-mod, add-mul-mod_self_left}

abbrev pub cover : ℕ → ℕ → ℕ → ℕ
cover x start bytes = if leb start x && ltb x (start + bytes) then 1 else 0

pub cover-split : (x s m n : ℕ) → cover x s (m + n) ≡ cover x s m + cover x (s + m) n
cover-split x s m n = ground arith

pub cover_part : (x s m n k : ℕ) → m + n ≤ k → cover x (s + m) n ≤ cover x s k
cover_part x s m n k h = ground arith

pub cover_rest : (x s m m' k : ℕ) → m ≤ m' → cover x (s + m') (k - m') ≤ cover x (s + m) (k - m)
cover_rest x s m m' k h = ground arith

pub cover_bump :
    (x s m n k : ℕ)
    → m + n ≤ k
    → cover x (s + m) (k - m) ≡ cover x (s + m) n + cover x (s + (m + n)) (k - (m + n))
cover_bump x s m n k h = ground arith

pub cover_within :
    (x s m m' n k : ℕ) → m ≤ m' → m' + n ≤ k → cover x (s + m') n ≤ cover x (s + m) (k - m)
cover_within x s m m' n k le fits = ground arith

pub cover_whole : (x s n k : ℕ) → n ≤ k → cover x s k ≡ cover x s n + cover x (s + n) (k - n)
cover_whole x s n k h = ground arith

pub cover_three :
    (x s b m n k : ℕ)
    → b ≤ m
    → m + n ≤ k
    → cover x s b + cover x (s + m) n + cover x (s + (m + n)) (k - (m + n)) ≤ cover x s k
cover_three x s b m n k le fits = ground arith

pub cover_none : (x s n : ℕ) → n ≡ 0 → cover x s n ≡ 0
cover_none x s n h = ground arith

pub cover_start : (x n : ℕ) → 1 ≤ n → cover x x n ≡ 1
cover_start x n h = ground arith

abbrev pub cover_pages : ℕ → ℕ → List ℕ → ℕ
cover_pages x size [] = 0
cover_pages x size (p ∷ ps) = cover x p size + cover_pages x size ps

page_start : (size p r : ℕ) → p % size ≡ 0 → r < size → (p + r) % size ≡ r
page_start size p r m lt =
    ap (λ t. t % size) joined ∙ (add-mul-mod_self_left r size (p / size) ∙ mod-eq_of_lt lt)
  where
    joined : p + r ≡ r + size * (p / size)
    joined = omega (arith, div-add-mod p size, m)

-- The page of an address is the only one that holds it.
cover-aligned : (x size p : ℕ) → p % size ≡ 0 → cover x p size ≤ tally (x - x % size) p
cover-aligned x size p m = elim (dec_lt x p) [
  | yes before ↦ ground arith
  | no after ↦ elim (dec_lt (x - p) size) [
    | yes inside ↦
        let offset : (p + (x - p)) % size ≡ x - p = page_start size p (x - p) m inside in
        let same : x % size ≡ x - p = ap (λ t. t % size) (omega (arith, after)) ∙ offset in
        let start : p ≡ x - x % size = omega (arith, same, after) in ground arith
    | no beyond ↦ ground arith
  ]
]

-- No address is in two pages, where no page is held twice.
pub cover_pages-count :
    (x size : ℕ) (ps : List ℕ)
    → ((p : ℕ) → 1 ≤ count p ps → p % size ≡ 0)
    → cover_pages x size ps ≤ count (x - x % size) ps
cover_pages-count x size [] m = omega arith
cover_pages-count x size (p ∷ ps) m = omega (
  arith,
  cover-aligned x size p (m p (omega (arith, tally_self p))),
  cover_pages-count x size ps (λ q h. m q (omega (arith, h))),
)

pub cover_pages-append :
    (x size : ℕ) (ps qs : List ℕ)
    → cover_pages x size (ps ++ qs) ≡ cover_pages x size ps + cover_pages x size qs
cover_pages-append x size [] qs = omega arith
cover_pages-append x size (p ∷ ps) qs = omega (arith, cover_pages-append x size ps qs)
