-- ===== src/Vector/Growth/Exchange.antt =====
-- The exchange of `_block_table`.
use fuxi_n.Prelude.{
  ℕ, ◌+◌, ◌<◌, ◌≡◌, inl, inr, refl, sym, ap, ◌∙◌, Array, update, update_self, update-ne, moved,
  total, total-update, List, [], ◌++◌, length, length-append, count, count-append, Prefix, arith,
}
use mathlib.Core.Path.{subst}
use mathlib.Core.List.{append_assoc, append-nil}
use fuxi_n.Vector.Growth.{Memory, block_table, publish, Pc, idle, creating, deleting, returning}
use fuxi_n.Vector.Growth.Defs.{IsPublished, holds, Owns, Good, given, Inv}
use fuxi_n.Vector.Growth.Keeps.{unique-update}

module _ {n a : ℕ} {m : Memory} {pc : Array Pc} (inv : Inv n m pc) (lt : a < n) (expect own : ℕ)
    (copied created : List ℕ) (at : pc a ≡ creating expect m.current own copied created)
    (good : Good m (creating expect m.current own copied created))
    (full : length copied + length created ≡ expect) where
  abbrev after_exchange : Memory
  after_exchange = publish m m.current own (copied ++ created)

  table_own : after_exchange.blocks own ≡ block_table m ++ created
  table_own = update_self m.blocks own (copied ++ created) ∙ ap (λ t. t ++ created) good.1

  table_old : (t : ℕ) → IsPublished m t → after_exchange.blocks t ≡ m.blocks t
  table_old t pub_t =
      update-ne m.blocks own (copied ++ created) t (λ e. good.4 (subst (IsPublished m) e pub_t))

  outgrown : length (block_table m) < length (after_exchange.blocks own)
  outgrown = omega (
    arith,
    ap length table_own,
    length-append (block_table m) created,
    ap length good.1,
    good.2,
    full,
  )

  Prefix_old :
      (t : ℕ) → IsPublished m t → Prefix (after_exchange.blocks t) (after_exchange.blocks own)
  Prefix_old t pub_t =
      let (zs, e) = inv.prefixes t pub_t in
      (
        zs ++ created,
        table_own
            ∙ ap (λ u. u ++ created) e
            ∙ append_assoc (m.blocks t) zs created
            ∙ ap (λ u. u ++ (zs ++ created)) (sym (table_old t pub_t)),
      )

  IsPublished-after :
      (t : ℕ) → (own ≡ t → ⊥) → (IsPublished m t → ⊥) → IsPublished after_exchange t → ⊥
  IsPublished-after t other not_old (inl e) = other (sym e)
  IsPublished-after t other not_old (inr h) = not_old h

  Good-after : (p : Pc) → (Owns p own → ⊥) → Good m p → Good after_exchange p
  Good-after idle other g = tt
  Good-after (creating expect' old own' copied' created') other g = (
    inr g.0,
    g.1 ∙ sym (table_old old g.0),
    g.2,
    g.3,
    IsPublished-after own' (λ e. other (sym e)) g.4,
  )
  Good-after (deleting expect' old own' created') other g =
      (inr g.0, g.1, IsPublished-after own' (λ e. other (sym e)) g.2)
  Good-after (returning expect' t) other g =
      (inr g.0, omega (arith, g.1, ap length (table_old t g.0)))

  conserved_after :
      (x : ℕ)
      → total (holds x) n (update pc a (returning expect own))
          + count x (after_exchange.blocks own)
          + count x m.deleted
        ≡ given m.next_block x
  conserved_after x = omega (
    arith,
    total-update (holds x) n pc a (returning expect own) lt,
    ap (holds x) at,
    inv.conserved x,
    ap (count x) table_own,
    count-append x (block_table m) created,
  )

  shorter_after :
      (t : ℕ)
      → IsPublished m t
      → length (after_exchange.blocks t) < length (after_exchange.blocks own)
  shorter_after t h =
      let (zs, e) = inv.prefixes t h in
      omega (arith, outgrown, ap length (table_old t h), ap length e, length-append (m.blocks t) zs)

  Prefix_after :
      (t : ℕ)
      → IsPublished after_exchange t
      → Prefix (after_exchange.blocks t) (after_exchange.blocks own)
  Prefix_after t (inl e) =
      subst (λ u. Prefix (after_exchange.blocks u) (after_exchange.blocks own)) (sym e)
        ([], sym (append-nil (after_exchange.blocks own)))
  Prefix_after t (inr h) = Prefix_old t h

  known_after : (t : ℕ) → IsPublished after_exchange t → t < m.next_table
  known_after t (inl e) = omega (arith, e, good.3)
  known_after t (inr h) = inv.known t h

  pub Inv-exchange : Inv n after_exchange (update pc a (returning expect own))
  Inv-exchange = record {
    conserved = conserved_after;
    known = known_after;
    prefixes = Prefix_after;
    shorter = shorter_after;
    distinct = (good.4, inv.distinct);
    unique = unique-update inv lt (returning expect own) (λ t h. absurd h);
    good = λ b.
        moved (Good after_exchange) pc a (returning expect own) b
          (λ e. (
            inl refl,
            omega (
              arith,
              ap length (update_self m.blocks own (copied ++ created)),
              length-append copied created,
              full,
            ),
          ))
          (λ ne.
            Good-after (pc b)
              (λ h. ne (inv.unique b a own h (subst (λ q. Owns q own) (sym at) refl)))
              (inv.good b));
  }
