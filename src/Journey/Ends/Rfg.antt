-- ===== src/Journey/Ends/Rfg.antt =====
-- A second server callback of RFG for an attempt (surveys/views.py `RFGCallbackAPIView.get`).
use quant_tool.Base.{ℕ, ◌≡◌, refl, true, false, Option, some}
use quant_tool.Base.Table.{lookup}
use quant_tool.Vendors.Models.{AttemptStatus, Reservation}
use quant_tool.Vendors.Reservation.{reservation_of, is_reserved}
use quant_tool.Vendors.Reservation.Lifecycle.{finalize_ended}
use quant_tool.Journey.{State, save_final}
use quant_tool.Journey.Ends.{rfg_status_map, recorded, rfg_recorded, rfg_callback_view}

-- A trusted callback with a known result writes its status over the one that the attempt has, even
-- after another result, and keeps the time of the first; a reservation that has ended stays as the
-- first result left it.
pub second_result_splits :
    (result now k : ℕ) (ip : Option ℕ) (s : State) (status : AttemptStatus) (j first : ℕ)
    (r : Reservation)
    → lookup result rfg_status_map ≡ some status
    → s.attempt.callback_at ≡ some first
    → reservation_of s.vendors.reservations k ≡ some (j, r)
    → is_reserved r.status ≡ false
    → let (answer, after) = rfg_callback_view result true true now k ip s in
      (answer ≡ recorded status)
      × (after.attempt.status ≡ status)
      × (after.attempt.callback_at ≡ some first)
      × (after.vendors ≡ s.vendors)
unfolding rfg_callback_view save_final rfg_recorded
second_result_splits result now k ip s status j first r known before has ended = (
  rw (known, rfg_callback_view) refl,
  rw (known, rfg_callback_view) refl,
  rw (known, rfg_callback_view, before) refl,
  rw (known, rfg_callback_view, finalize_ended now k status s.vendors j r has ended) refl,
)
