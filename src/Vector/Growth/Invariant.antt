-- ===== src/Vector/Growth/Invariant.antt =====
-- The invariant holds of a new vector and after each access of a thread.
use fuxi_n.Prelude.{
  ℕ, suc, ◌+◌, ◌<◌, ◌≡◌, inl, inr, refl, sym, ap, ◌∙◌, Array, update, total-eq-zero, [], ◌∷◌, ◌++◌,
  count-append, tally, arith,
}
use mathlib.Core.Path.{subst}
use fuxi_n.Vector.Growth.{
  Memory, block_table, Pc, idle, creating, deleting, returning, publish, Move, qualifies, starts,
  creates, exchanges, fails, deletes, repeats, settles, returns, System, Step, pick, Run, here,
  later, new_vector,
}
use fuxi_n.Vector.Growth.Defs.{holds, Owns, Good, given, Inv}
use fuxi_n.Vector.Growth.Keeps.{Inv-adjusted}
use fuxi_n.Vector.Growth.Exchange.{Inv-exchange}

none-given : (x : ℕ) → given 0 x ≡ 0
none-given x = ground arith

Inv-new : (n : ℕ) → Inv n new_vector.mem new_vector.pc
Inv-new n = record {
  conserved = λ x. omega (arith, total-eq-zero (holds x) n new_vector.pc (λ i. refl), none-given x);
  known = λ t h. elim h [ inl e ↦ omega (arith, e) | inr none ↦ absurd none ];
  prefixes = λ t h. ([], refl);
  shorter = λ t h. absurd h;
  distinct = (λ h. h, tt);
  unique = λ a b t h. absurd h;
  good = λ a. tt;
}

given-suc : (next x : ℕ) → tally x next + given next x ≡ given (suc next) x
given-suc next x = ground arith

module _ {n a : ℕ} {m : Memory} {pc : Array Pc} (inv : Inv n m pc) (lt : a < n) where
  -- An access that changes no memory and gives up at most a table
  Inv-local :
      (p : Pc)
      → ((x : ℕ) → holds x p ≡ holds x (pc a))
      → ((t : ℕ) → Owns p t → Owns (pc a) t)
      → Good m p
      → Inv n m (update pc a p)
  Inv-local p same own good =
      Inv-adjusted inv lt m.next_table m.next_block m.deleted p (omega arith)
        (λ x. omega (arith, same x)) (λ t h. inl (own t h)) good

  Owns-here : {p : Pc} (t : ℕ) → pc a ≡ p → Owns p t → Owns (pc a) t
  Owns-here t at h = subst (λ q. Owns q t) (sym at) h

-- The thread is at `p`; a match on `Move` needs a variable there.
Move-Inv :
    {n a : ℕ} {m m' : Memory} {pc : Array Pc} {p p' : Pc}
    → Inv n m pc
    → a < n
    → pc a ≡ p
    → Good m p
    → Move m p m' p'
    → Inv n m' (update pc a p')
Move-Inv {m} inv lt at own (qualifies {expect} enough) =
    Inv-local inv lt (returning expect m.current) (λ x. sym (ap (holds x) at)) (λ t h. absurd h)
      (inl refl, enough)
Move-Inv {m} inv lt at own (starts {expect} short) =
    Inv-adjusted inv lt (suc m.next_table) m.next_block m.deleted
      (creating expect m.current m.next_table (block_table m) []) (omega arith)
      (λ x. omega (arith, ap (holds x) at)) (λ t h. inr (omega (arith, h)))
      (inl refl, refl, short, omega arith, λ h. omega (arith, inv.known m.next_table h))
Move-Inv {m} inv lt at own (creates {expect} {old} {own = t} {copied} {created} room) =
    Inv-adjusted inv lt m.next_table (suc m.next_block) m.deleted
      (creating expect old t copied (created ++ (m.next_block ∷ []))) (omega arith)
      (λ x. omega (
        arith,
        ap (holds x) at,
        count-append x created (m.next_block ∷ []),
        given-suc m.next_block x,
      ))
      (λ u h. inl (Owns-here inv lt u at h)) own
Move-Inv {n} {a} {m} {pc} inv lt at own
      (exchanges {expect} {old} {own = t} {copied} {created} full same) =
    subst (λ o. Inv n (publish m o t (copied ++ created)) (update pc a (returning expect t))) same
      (Inv-exchange inv lt expect t copied created
        (at ∙ ap (λ o. creating expect o t copied created) (sym same))
        (subst (λ o. Good m (creating expect o t copied created)) (sym same) own) full)
Move-Inv {m} inv lt at own (fails {expect} {old} {own = t} {copied} {created} full other) =
    Inv-local inv lt (deleting expect m.current t created) (λ x. sym (ap (holds x) at))
      (λ u h. Owns-here inv lt u at h) (inl refl, own.3, own.4)
Move-Inv {m} inv lt at own (deletes {expect} {old} {own = t} {block} {created}) =
    Inv-adjusted inv lt m.next_table m.next_block (block ∷ m.deleted)
      (deleting expect old t created) (omega arith) (λ x. omega (arith, ap (holds x) at))
      (λ u h. inl (Owns-here inv lt u at h)) own
Move-Inv {m} inv lt at own (repeats {expect} {old} {own = t} short) =
    Inv-local inv lt (creating expect old t (m.blocks old) []) (λ x. sym (ap (holds x) at))
      (λ u h. Owns-here inv lt u at h) (own.0, refl, short, own.1, own.2)
Move-Inv {m} inv lt at own (settles {expect} {old} {own = t} enough) =
    Inv-local inv lt (returning expect old) (λ x. sym (ap (holds x) at)) (λ u h. absurd h)
      (own.0, enough)
Move-Inv {m} inv lt at own (returns {expect} {table}) =
    Inv-local inv lt idle (λ x. sym (ap (holds x) at)) (λ u h. absurd h) tt

pub Step-Inv : {n : ℕ} {s t : System} → Inv n s.mem s.pc → Step n s t → Inv n t.mem t.pc
Step-Inv {s} inv (pick a lt move) = Move-Inv inv lt refl (inv.good a) move

pub Run-Inv : {n : ℕ} {s t : System} → Inv n s.mem s.pc → Run n s t → Inv n t.mem t.pc
Run-Inv inv here = inv
Run-Inv inv (later run step) = Step-Inv (Run-Inv inv run) step

pub reached-Inv : {n : ℕ} {s : System} → Run n new_vector s → Inv n s.mem s.pc
reached-Inv {n} run = Run-Inv (Inv-new n) run
