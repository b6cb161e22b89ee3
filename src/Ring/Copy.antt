-- ===== src/Ring/Copy.antt =====
-- The copy loops of `EnqueueValues` and `DequeueValues`: values go from `src`, at offset `s` on, to
-- `dst`, at offset `d` on.
use fuxi_n.Prelude.{
  ℕ, zero, suc, ◌+◌, ◌-◌, ◌*◌, ◌/◌, ◌%◌, ◌<◌, ◌≡◌, sym, ◌∙◌, Array, update, ltb, leb, ◌==◌,
  if◌then◌else◌, ◌&&◌, arith, bit_and,
}
use fuxi_n.Prelude.Bits.{bit_and-mask}
use mathlib.Core.Path.{fun_ext}

module _ {A : Type 0} where
  -- `for (...; i++, idx++) ring[idx] = obj_table[i];`, by the rounds that it makes
  pub copy_run : ℕ → Array A → ℕ → Array A → ℕ → Array A
  copy_run zero dst d src s = dst
  copy_run (suc n) dst d src s = copy_run n (update dst d (src s)) (d + 1) src (s + 1)

  -- `for (i = 0; i < (n & ~3u); i += 4, idx += 4) {...}`, by the rounds that it makes
  pub copy_quads : ℕ → Array A → ℕ → Array A → ℕ → Array A
  copy_quads zero dst d src s = dst
  copy_quads (suc q) dst d src s =
      let one = update dst d (src s) in
      let two = update one (d + 1) (src (s + 1)) in
      let three = update two (d + 2) (src (s + 2)) in
      let four = update three (d + 3) (src (s + 3)) in copy_quads q four (d + 4) src (s + 4)

  -- `switch (n & 0x3)`: each case falls through to the next.
  case_one : Array A → ℕ → Array A → ℕ → Array A
  case_one dst d src s = update dst d (src s)

  case_two : Array A → ℕ → Array A → ℕ → Array A
  unfolding case_one
  case_two dst d src s = case_one (update dst d (src s)) (d + 1) src (s + 1)

  case_three : Array A → ℕ → Array A → ℕ → Array A
  unfolding case_two
  case_three dst d src s = case_two (update dst d (src s)) (d + 1) src (s + 1)

  pub copy_rest : ℕ → Array A → ℕ → Array A → ℕ → Array A
  unfolding case_one case_two case_three
  copy_rest r dst d src s =
      if r == 3
      then case_three dst d src s
      else if r == 2
      then case_two dst d src s
      else if r == 1
      then case_one dst d src s
      else dst

  -- The branch for a range that does not go round the end.
  pub copy_unrolled : ℕ → Array A → ℕ → Array A → ℕ → Array A
  copy_unrolled n dst d src s =
      let rounds = n / 4 in
      copy_rest (bit_and n 3) (copy_quads rounds dst d src s) (d + 4 * rounds) src (s + 4 * rounds)

  -- What a copy of `n` values leaves at offset `j`.
  abbrev pub copied : ℕ → Array A → ℕ → Array A → ℕ → ℕ → A
  copied n dst d src s j = if leb d j && ltb j (d + n) then src (s + (j - d)) else dst j

  pub copy_run_lem :
      (n : ℕ) (dst : Array A) (d : ℕ) (src : Array A) (s j : ℕ)
      → copy_run n dst d src s j ≡ copied n dst d src s j
  unfolding copy_run
  copy_run_lem zero dst d src s j = ground arith
  copy_run_lem (suc n) dst d src s j =
      copy_run_lem n (update dst d (src s)) (d + 1) src (s + 1) j ∙ ground arith

  copy_quads_lem :
      (q : ℕ) (dst : Array A) (d : ℕ) (src : Array A) (s j : ℕ)
      → copy_quads q dst d src s j ≡ copied (4 * q) dst d src s j
  unfolding copy_quads
  copy_quads_lem zero dst d src s j = ground arith
  copy_quads_lem (suc q) dst d src s j = copy_quads_lem q _ (d + 4) src (s + 4) j ∙ ground arith

  copy_rest_lem :
      (r : ℕ) (dst : Array A) (d : ℕ) (src : Array A) (s j : ℕ)
      → r < 4
      → copy_rest r dst d src s j ≡ copied r dst d src s j
  unfolding copy_rest
  copy_rest_lem r dst d src s j h = ground arith

  pub copy_unrolled_lem :
      (n : ℕ) (dst : Array A) (d : ℕ) (src : Array A) (s j : ℕ)
      → copy_unrolled n dst d src s j ≡ copied n dst d src s j
  unfolding copy_unrolled
  copy_unrolled_lem n dst d src s j = rw (bit_and-mask 2 n) (
      copy_rest_lem (n % 4) (copy_quads (n / 4) dst d src s) (d + 4 * (n / 4)) src (s + 4 * (n / 4))
        j (omega arith)
      ∙ ground (arith, copy_quads_lem (n / 4) dst d src s j))

  -- The copy in fours, with the rest by a `switch` that falls through, is the plain loop.
  pub copy_unrolled-copy_run :
      (n : ℕ) (dst : Array A) (d : ℕ) (src : Array A) (s : ℕ)
      → copy_unrolled n dst d src s ≡ copy_run n dst d src s
  copy_unrolled-copy_run n dst d src s =
      fun_ext λ j. copy_unrolled_lem n dst d src s j ∙ sym (copy_run_lem n dst d src s j)
