-- ===== src/Hal/Telemetry/Operations/Closing.antt =====
-- A telemetry that has been closed.
use linuxcnc_ctrl.Prelude.{ℕ, String, ◌≡◌, refl, Bool, false, Option, none, List, []}
use linuxcnc_ctrl.Hal.Telemetry.{ResolvedItem, Telemetry, expire}
use linuxcnc_ctrl.Hal.Telemetry.Operations.{
  create, update, claim, detach, erase, close, due, publish,
}

-- Once an open telemetry is closed, every later operation fails and changes nothing: no subscription is
-- created, updated, claimed, detached or erased, nothing is due, and published values are dropped.
pub close-refuses :
    (same_value : ℕ → ℕ → Bool) (t : Telemetry) (now : ℕ) (draws : List String) (id token : String)
    (revision : ℕ) (items : List ResolvedItem) (sample_period : ℕ) (values : List (Option ℕ))
    → t.closed ≡ false
    → let c = (close t).0 in
      (create c now draws items sample_period ≡ ((c, none), []))
      × (update c now id revision items sample_period ≡ ((c, none), []))
      × (claim c now token ≡ ((c, none), []))
      × (detach c now id ≡ (c, false))
      × (erase c id ≡ ((c, false), []))
      × (due c now ≡ ((c, []), []))
      × (publish same_value c id revision values ≡ (c, []))
unfolding close create update claim detach erase due publish expire
close-refuses same_value t now draws id token revision items sample_period values open_ =
    rw open_ (refl, refl, refl, refl, refl, refl, refl)
