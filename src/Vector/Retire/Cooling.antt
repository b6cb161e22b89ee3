-- ===== src/Vector/Retire/Cooling.antt =====
-- How long a node of a `RetireList` stays.
use fuxi_n.Prelude.{
  Bool-cases, true, ℕ, ◌+◌, ◌/◌, ◌%◌, ◌≤◌, ◌<◌, ◌≡◌, inl, inr, refl, ltb→lt, u16_mod, List, [], ◌∷◌,
  ◌++◌, arith,
}
use fuxi_n.Vector.Retire.{
  Node, RetireList, new_list, get_current_timestamp, expire, Call, retires, collects, call,
  Deletion, deletions, run,
}

-- The seconds of the calls, in the order of the clock
abbrev pub IsOrdered : ℕ → List (ℕ × Call) → Type 0
IsOrdered start [] = Unit
IsOrdered start ((seconds, c) ∷ rest) = (start ≤ seconds) × IsOrdered seconds rest

-- Each was deleted more than 64 seconds after it was retired.
abbrev pub IsCooled : List Deletion → Type 0
IsCooled [] = Unit
IsCooled (d ∷ rest) = (d.node.retired_at + 64 < d.deleted_at) × IsCooled rest

-- Retired in a unit of time, or before
abbrev AreBefore : ℕ → List Node → Type 0
AreBefore unit [] = Unit
AreBefore unit (node ∷ rest) = (node.retired_at / 64 ≤ unit) × AreBefore unit rest

-- The timestamp stands for a unit that no node comes after.
record IsDated (start : ℕ) (head : RetireList) : Type 0 where
  unit : ℕ
  stamped : head.timestamp ≡ unit % u16_mod
  past : unit ≤ start / 64
  before : AreBefore unit head.nodes

AreBefore-le :
    (unit later : ℕ) (nodes : List Node)
    → unit ≤ later
    → AreBefore unit nodes
    → AreBefore later nodes
AreBefore-le unit later [] le h = tt
AreBefore-le unit later (node ∷ rest) le (first, h) =
    (omega (arith, le, first), AreBefore-le unit later rest le h)

-- A list that expires has had no node for two units.
deletions-IsCooled :
    (unit seconds : ℕ) (nodes : List Node)
    → unit + 2 ≤ seconds / 64
    → AreBefore unit nodes
    → IsCooled (deletions seconds nodes)
deletions-IsCooled unit seconds [] le h = tt
deletions-IsCooled unit seconds (node ∷ rest) le (first, h) =
    (omega (arith, le, first), deletions-IsCooled unit seconds rest le h)

append-IsCooled : (xs ys : List Deletion) → IsCooled xs → IsCooled ys → IsCooled (xs ++ ys)
append-IsCooled [] ys h k = k
append-IsCooled (x ∷ xs) ys (first, h) k = (first, append-IsCooled xs ys h k)

module _ {start seconds : ℕ} {head : RetireList} (dated : IsDated start head)
    (le : start ≤ seconds) where
  expire-le : expire head (get_current_timestamp seconds) ≡ true → dated.unit + 2 ≤ seconds / 64
  expire-le e = omega (arith, dated.stamped, dated.past, le, ltb→lt 1 _ e)

  call-IsDated :
      (c : Call)
      → IsDated seconds (call seconds c head).0
        × IsCooled (deletions seconds (call seconds c head).1)
  call-IsDated (retires item) = elim (Bool-cases (expire head (get_current_timestamp seconds))) [
    | inl old ↦ rw old (
      record {
        unit = seconds / 64;
        stamped = refl;
        past = omega arith;
        before = (omega arith, tt);
      },
      deletions-IsCooled dated.unit seconds head.nodes (expire-le old) dated.before,
    )
    | inr young ↦ rw young (
      record {
        unit = seconds / 64;
        stamped = refl;
        past = omega arith;
        before = (
          omega arith,
          AreBefore-le dated.unit (seconds / 64) head.nodes (omega (arith, le, dated.past))
              dated.before,
        );
      },
      tt,
    )
  ]
  call-IsDated collects = elim (Bool-cases (expire head (get_current_timestamp seconds))) [
    | inl old ↦ rw old (
      record { unit = 0; stamped = refl; past = omega arith; before = tt },
      deletions-IsCooled dated.unit seconds head.nodes (expire-le old) dated.before,
    )
    | inr young ↦ rw young (
      record {
        unit = dated.unit;
        stamped = dated.stamped;
        past = omega (arith, le, dated.past);
        before = dated.before;
      },
      tt,
    )
  ]

IsCooled-from :
    (start : ℕ) (head : RetireList) (calls : List (ℕ × Call))
    → IsDated start head
    → IsOrdered start calls
    → IsCooled (run head calls).1
IsCooled-from start head [] dated ordered = tt
IsCooled-from start head ((seconds, c) ∷ rest) dated (le, ordered) =
    let (next, cooled) = call-IsDated dated le c in
    append-IsCooled (deletions seconds (call seconds c head).1) (run (call seconds c head).0 rest).1
      cooled (IsCooled-from seconds (call seconds c head).0 rest next ordered)

-- For calls of `retire` and `gc` at seconds of a clock that does not go back: what they delete was
-- retired more than 64 seconds before, whatever 16 bits of the time tell.
pub run-IsCooled :
    (start : ℕ) (calls : List (ℕ × Call)) → IsOrdered start calls → IsCooled (run new_list calls).1
run-IsCooled start calls ordered =
    IsCooled-from start new_list calls
      (record { unit = 0; stamped = refl; past = omega arith; before = tt }) ordered
