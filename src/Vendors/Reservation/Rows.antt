-- ===== src/Vendors/Reservation/Rows.antt =====
-- The table of reservations under the writes of vendors/services.py.
use quant_tool.Base.{ℕ, ◌≡◌, refl, Option, none, some, [], ◌∷◌, arith, ◌==◌, if◌then◌else◌}
use quant_tool.Base.Table.{Table, update, create}
use quant_tool.Vendors.Models.{Reservation}
use quant_tool.Vendors.Reservation.{Row, reservation_of}

pub reservation_of-create :
    (a k : ℕ) (r : Reservation) (rows : Table Reservation)
    → reservation_of (create k r rows) a ≡ (
        let old = reservation_of rows a in
        elim old [ some row ↦ some row | none ↦ if r.attempt_id == a then some (k, r) else none ])
reservation_of-create a k r [] = ground arith
reservation_of-create a k r (row ∷ rows) = ground (arith, reservation_of-create a k r rows)

-- A change of row `k` that keeps its attempt is seen by the attempt whose row it is.
abbrev pub at_key : ℕ → (Reservation → Reservation) → Option Row → Option Row
at_key k f none = none
at_key k f (some (j, r)) = if j == k then some (j, f r) else some (j, r)

pub reservation_of-update :
    (a k : ℕ) (f : Reservation → Reservation) (rows : Table Reservation)
    → ((r : Reservation) → (f r).attempt_id ≡ r.attempt_id)
    → reservation_of (update k f rows) a ≡ at_key k f (reservation_of rows a)
reservation_of-update a k f [] keeps = refl
reservation_of-update a k f ((j, r) ∷ rows) keeps =
    ground (arith, reservation_of-update a k f rows keeps, keeps r)
