-- ===== src/Positions/Orders.antt =====
-- How a fill moves an order's filled quantity and status.
use w16crypto_engine.Db.State.{Db}
use w16crypto_engine.Db.Orders.{update_order_fill, filled_order}
use w16crypto_engine.Common.Types.{Order, remaining, Fill, OrderStatus}
use w16crypto_engine.Positions.{update_one, update_orders}
use w16crypto_engine.Base.{
  ℕ, i64_bound, lookup, insert, ◌+◌, ◌≤◌, ◌<◌, ◌≡◌, ◌⊎◌, inl, inr, some, ◌==◌, if◌then◌else◌,
  Option-cases, Table, sym, subst, none, [], ◌∷◌, arith, ltb, Bool-cases, lookup-insert, refl, ap,
  ◌∙◌, Bool, false, ◌||◌, Option,
}

-- An order with its filled quantity, as a row of the table can hold it.
pub record IsSound (o : Order) : Type 0 where
  pub filled_le : o.filled_quantity ≤ o.quantity
  pub fits : o.quantity < i64_bound

-- What an order is once `n` of its quantity is filled.
abbrev pub status_at : ℕ → Order → OrderStatus
status_at n o = if n == o.quantity then OrderStatus.filled else OrderStatus.partial

-- A fill within the remaining quantity of an order that is there, filled to its quantity at most, and
-- of a quantity that fits `i64`, is added to what is filled; the order is then filled if nothing
-- remains and partial if something does.
pub update_one_within :
    (f : Fill) (now id : ℕ) (db : Db) (o : Order)
    → lookup id db.orders ≡ some o
    → IsSound o
    → f.quantity ≤ remaining o
    → let n = o.filled_quantity + f.quantity in
      update_one f now id db
      ≡ record db { orders = insert id (filled_order (status_at n o) n now o) db.orders }
unfolding update_one update_order_fill remaining
update_one_within f now id db o e h le = ground arith

-- A fill of more than remains of an order that is there, filled to its quantity at most, and of a
-- quantity that fits `i64`, is not recorded at all: the table's CHECK refuses the new quantity, the
-- error is dropped, and nothing changes.
pub update_one_beyond :
    (f : Fill) (now id : ℕ) (db : Db) (o : Order)
    → lookup id db.orders ≡ some o
    → IsSound o
    → remaining o < f.quantity
    → update_one f now id db ≡ db
unfolding update_one update_order_fill remaining
update_one_beyond f now id db o e h gt = ground arith

-- All orders of a table are sound.
unfoldable pub AreSound : Table Order → Type 0
AreSound [] = Unit
AreSound ((_, o) ∷ t) = IsSound o × AreSound t

insert-AreSound :
    (id : ℕ) (o : Order) (t : Table Order) → IsSound o → AreSound t → AreSound (insert id o t)
unfolding AreSound
insert-AreSound id o [] h a = (h, tt)
insert-AreSound id o (e ∷ t) h a = ground (arith, insert-AreSound id o t h a.1)

lookup-AreSound :
    (id : ℕ) (o : Order) (t : Table Order) → AreSound t → lookup id t ≡ some o → IsSound o
unfolding AreSound
lookup-AreSound id o [] a e = cc
lookup-AreSound id o (x ∷ t) a e = ground (arith, lookup-AreSound id o t a.1)

update_one_absent :
    (f : Fill) (now id : ℕ) (db : Db) → lookup id db.orders ≡ none → update_one f now id db ≡ db
unfolding update_one
update_one_absent f now id db absent = ground arith

within_or_beyond : (f : Fill) (o : Order) → (f.quantity ≤ remaining o) ⊎ (remaining o < f.quantity)
unfolding remaining
within_or_beyond f o = omega arith

IsSound-after :
    (f : Fill) (o : Order) (now : ℕ)
    → IsSound o
    → f.quantity ≤ remaining o
    → let n = o.filled_quantity + f.quantity in IsSound (filled_order (status_at n o) n now o)
unfolding remaining
IsSound-after f o now h le = omega (arith, h.filled_le, h.fits)

update_one-AreSound :
    (f : Fill) (now id : ℕ) (db : Db)
    → AreSound db.orders
    → AreSound (update_one f now id db).orders
update_one-AreSound f now id db a = elim (Option-cases (lookup id db.orders)) [
  | inl absent ↦ subst (λ d. AreSound d.orders) (sym (update_one_absent f now id db absent)) a
  | inr (o, e) ↦
      let h = lookup-AreSound id o db.orders a e in
      elim (within_or_beyond f o) [
        | inl le ↦
            let n = o.filled_quantity + f.quantity in
            subst (λ d. AreSound d.orders) (sym (update_one_within f now id db o e h le))
              (insert-AreSound id (filled_order (status_at n o) n now o) db.orders
                (IsSound-after f o now h le) a)
        | inr gt ↦ subst (λ d. AreSound d.orders) (sym (update_one_beyond f now id db o e h gt)) a
      ]
]

-- If no order is filled beyond its quantity, and every quantity fits `i64`, this is so after the
-- update for any fill.
pub update_orders-AreSound :
    (f : Fill) (now : ℕ) (db : Db) → AreSound db.orders → AreSound (update_orders f now db).1.orders
unfolding update_orders
update_orders-AreSound f now db a =
    update_one-AreSound f now f.taker_order_id (update_one f now f.maker_order_id db)
      (update_one-AreSound f now f.maker_order_id db a)

-- An order after a fill: the quantity is added to what is filled, and the order is filled if nothing
-- remains and partial if something does; a fill of more than remains leaves it alone.
unfoldable pub moved : Fill → ℕ → Order → Order
moved f now o = if ltb o.quantity (o.filled_quantity + f.quantity) then o else record o {
  filled_quantity = o.filled_quantity + f.quantity;
  status =
      if o.filled_quantity + f.quantity == o.quantity
      then OrderStatus.filled
      else OrderStatus.partial;
  updated_at = now;
}

unfoldable pub moved_if : Bool → Fill → ℕ → Option Order → Option Order
unfolding moved
moved_if b f now none = none
moved_if b f now (some o) = some (if b then moved f now o else o)

moved_if_not : (f : Fill) (now : ℕ) (x : Option Order) → moved_if false f now x ≡ x
unfolding moved_if
moved_if_not f now none = refl
moved_if_not f now (some o) = refl

-- What a key's order is after the key `id` is updated.
update_one-lookup :
    (f : Fill) (now id i : ℕ) (db : Db)
    → AreSound db.orders
    → lookup i (update_one f now id db).orders ≡ moved_if (i == id) f now (lookup i db.orders)
unfolding moved moved_if remaining
update_one-lookup f now id i db a = elim (Option-cases (lookup id db.orders)) [
  | inl absent ↦
      ap (λ d. lookup i d.orders) (update_one_absent f now id db absent)
      ∙ elim (Bool-cases (i == id)) [
        | inl same ↦ ground (arith, same, absent)
        | inr other ↦ rw other (sym (moved_if_not f now (lookup i db.orders)))
      ]
  | inr (o, e) ↦
      let h = lookup-AreSound id o db.orders a e in
      elim (within_or_beyond f o) [
        | inl le ↦
            let n = o.filled_quantity + f.quantity in
            ap (λ d. lookup i d.orders) (update_one_within f now id db o e h le)
            ∙ elim (Bool-cases (i == id)) [
              | inl same ↦ ground (
                arith,
                same,
                h.filled_le,
                lookup-insert i id (filled_order (status_at n o) n now o) db.orders,
              )
              | inr other ↦
                  lookup-insert i id (filled_order (status_at n o) n now o) db.orders
                  ∙ rw other (sym (moved_if_not f now (lookup i db.orders)))
            ]
        | inr gt ↦
            ap (λ d. lookup i d.orders) (update_one_beyond f now id db o e h gt)
            ∙ elim (Bool-cases (i == id)) [
              | inl same ↦ ground (arith, same, h.filled_le)
              | inr other ↦ rw other (sym (moved_if_not f now (lookup i db.orders)))
            ]
      ]
]

-- If no order is filled beyond its quantity and every quantity fits `i64`, this is so after a fill
-- is recorded; the fill's two orders are then as it moves them, and every other order as it was. It
-- is assumed that the two orders are different.
pub update_orders-moves :
    (f : Fill) (now i : ℕ) (db : Db)
    → AreSound db.orders
    → (f.maker_order_id == f.taker_order_id) ≡ false
    → let after = (update_orders f now db).1.orders in
      (lookup i after
        ≡ moved_if ((i == f.maker_order_id) || (i == f.taker_order_id)) f now (lookup i db.orders))
      × AreSound after
unfolding update_orders moved_if
update_orders-moves f now i db a apart =
    let first = update_one-lookup f now f.maker_order_id i db a in
    let sound = update_one-AreSound f now f.maker_order_id db a in
    let second =
      update_one-lookup f now f.taker_order_id i (update_one f now f.maker_order_id db) sound in
    (
      second
          ∙ ap (moved_if (i == f.taker_order_id) f now) first
          ∙ elim (Option-cases (lookup i db.orders)) [
            | inl absent ↦ rw absent refl
            | inr (o, e) ↦ rw e (grind (arith, apart))
          ],
      update_orders-AreSound f now db a,
    )
