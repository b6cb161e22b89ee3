-- ===== src/Names.antt =====
-- Names in the shared memory: `SetName` and `IsEquel` of `WriterSlot` (src/fuxi/shm/topo/topo_state.cc)
-- and of `SegmentIndicator` (src/fuxi/shm/topo/domain_layout.cc), which are written alike. A
-- `std::string` is the list of its bytes; `strncpy` and `strncmp` stop at a NUL, as in C.
use fuxi_n.Prelude.{
  ℕ, zero, suc, ◌-◌, ◌≤◌, ◌≢◌, ◌≡◌, refl, Bool, true, false, ◌==◌, if◌then◌else◌, List, [], ◌∷◌,
  ◌++◌, length, replicate, ltb, arith,
}
use native.Mathlib.Decide.{ℕ_discrete}

-- MAX_DATA_NAME_LENGTH, and the size of each `name` field
abbrev pub max_data_name_length : ℕ
max_data_name_length = 256

-- `name` and `name_len`
pub record NameField : Type 0 where
  pub name : List ℕ
  pub name_len : ℕ

-- `strncpy(name, a.c_str(), n)` into zeroed bytes: what goes there before the first NUL.
pub strncpy : ℕ → List ℕ → List ℕ
strncpy zero a = []
strncpy (suc n) [] = []
strncpy (suc n) (c ∷ a) = let rest = c ∷ strncpy n a in if c == 0 then [] else rest

-- `strncmp(x, y, n) == 0`, where a list that ends is followed by a NUL
pub strncmp_eq : ℕ → List ℕ → List ℕ → Bool
strncmp_eq zero x y = true
strncmp_eq (suc n) [] [] = true
strncmp_eq (suc n) [] (d ∷ y) = d == 0
strncmp_eq (suc n) (c ∷ x) [] = c == 0
strncmp_eq (suc n) (c ∷ x) (d ∷ y) =
    let rest = strncmp_eq n x y in if c == d then (if c == 0 then true else rest) else false

-- The result, and the field after the call: a name that is too long changes nothing.
pub set_name : NameField → List ℕ → Bool × NameField
unfolding strncpy
set_name f a =
    let text = strncpy (length a) a in
    if ltb max_data_name_length (length a) then (false, f) else (
      true,
      record {
        name = text ++ replicate (max_data_name_length - length text) 0;
        name_len = length a;
      },
    )

pub is_equal : NameField → List ℕ → Bool
unfolding strncmp_eq
is_equal f a =
    let text = strncmp_eq f.name_len f.name a in if f.name_len == length a then text else false

-- No byte of the text is a NUL.
abbrev pub IsText : List ℕ → Type 0
IsText [] = Unit {0}
IsText (c ∷ a) = (c ≢ 0) × IsText a

-- Equality of names
abbrev pub same_name : List ℕ → List ℕ → Bool
same_name [] [] = true
same_name [] (d ∷ y) = false
same_name (c ∷ x) [] = false
same_name (c ∷ x) (d ∷ y) = if c == d then same_name x y else false

-- What a field holds once a text was set.
pub record IsNamed (f : NameField) (a : List ℕ) : Type 0 where
  pub is_text : IsText a
  pub len_eq : f.name_len ≡ length a
  pub padding : ℕ
  pub name_eq : f.name ≡ a ++ replicate padding 0

strncpy-text : (a : List ℕ) → IsText a → strncpy (length a) a ≡ a
unfolding strncpy
strncpy-text [] h = refl
strncpy-text (c ∷ a) h = ground (arith, strncpy-text a h.1)

strncmp_eq-text :
    (b a pad : List ℕ)
    → IsText b
    → length b ≡ length a
    → strncmp_eq (length b) (b ++ pad) a ≡ same_name b a
unfolding strncmp_eq
strncmp_eq-text [] [] pad h e = refl
strncmp_eq-text [] (d ∷ a) pad h e = absurd (omega arith)
strncmp_eq-text (c ∷ b) [] pad h e = absurd (omega arith)
strncmp_eq-text (c ∷ b) (d ∷ a) pad h e = ground (arith, strncmp_eq-text b a pad h.1)

same_name-length : (b a : List ℕ) → same_name b a ≡ true → length b ≡ length a
same_name-length [] [] e = refl
same_name-length [] (d ∷ a) e = cc
same_name-length (c ∷ b) [] e = cc
same_name-length (c ∷ b) (d ∷ a) e = ground (arith, same_name-length b a)

pub same_name_sound : (b a : List ℕ) → same_name b a ≡ true → b ≡ a
same_name_sound [] [] e = refl
same_name_sound [] (d ∷ a) e = cc
same_name_sound (c ∷ b) [] e = cc
same_name_sound (c ∷ b) (d ∷ a) e = ground (arith, same_name_sound b a)

pub same_name_refl : (a : List ℕ) → same_name a a ≡ true
same_name_refl [] = refl
same_name_refl (c ∷ a) = ground (arith, same_name_refl a)

-- `SetName` of a name without a NUL, of at most 256 bytes, returns `true`, and the field holds
-- the name, padded with NULs, and its length.
pub set_name-IsNamed :
    (f : NameField) (a : List ℕ)
    → IsText a
    → length a ≤ max_data_name_length
    → ((set_name f a).0 ≡ true) × IsNamed (set_name f a).1 a
unfolding set_name
set_name-IsNamed f a h le =
    rw (short, strncpy-text a h)
      (
        refl,
        record {
          is_text = h;
          len_eq = refl;
          padding = max_data_name_length - length a;
          name_eq = refl;
        },
      )
  where
    short : ltb max_data_name_length (length a) ≡ false
    short = ground arith

-- On a field that holds a text, `IsEquel` is equality of names.
pub is_equal-IsNamed : (f : NameField) (b a : List ℕ) → IsNamed f b → is_equal f a ≡ same_name b a
unfolding is_equal
is_equal-IsNamed f b a h =
    rw (h.len_eq, h.name_eq)
      (elim (ℕ_discrete (length b) (length a)) [
        | yes e ↦ ground (arith, strncmp_eq-text b a (replicate h.padding 0) h.is_text e)
        | no ne ↦ ground (arith, same_name-length b a)
      ])
