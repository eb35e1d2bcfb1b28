-- ===== src/Models/Conformal/Miscoverage.antt =====
-- The rate that `update` of deepCab/models/conformal.py adapts, and what it leaves alone.
use deep_cab.Prelude.{false, List, [], ◌∷◌, ◌≡◌, refl, arith}
use deep_cab.Prelude.Floats.{FloatOps}
use deep_cab.Models.Conformal.{AciRegressor, clip, update, update_all}

module _ {F : Type 0} (fl : FloatOps F) where
  abbrev pub lowest : F
  lowest = fl.decimal 1 4

  abbrev pub highest : F
  highest = fl.sub (fl.of_ℕ 1) (fl.decimal 1 4)

module _ {F : Type 0} (fl : FloatOps F) where
  clip-not_below :
      (x : F)
      → ((x : F) → fl.lt x x ≡ false)
      → fl.lt (highest fl) (lowest fl) ≡ false
      → fl.lt (clip fl x (lowest fl) (highest fl)) (lowest fl) ≡ false
  unfolding clip
  clip-not_below x irreflexive ordered = ground (arith, irreflexive (lowest fl), ordered)

  clip-not_above :
      (x : F)
      → ((x : F) → fl.lt x x ≡ false)
      → fl.lt (highest fl) (lowest fl) ≡ false
      → fl.lt (highest fl) (clip fl x (lowest fl) (highest fl)) ≡ false
  unfolding clip
  clip-not_above x irreflexive ordered = ground (arith, irreflexive (highest fl), ordered)

module _ {F X : Type 0} (fl : FloatOps F) where
  -- What the loop of updates keeps: the rate is not below the one bound nor above the other, and only
  -- the rate changes.
  pub record IsCalibrated (before aci : AciRegressor F X) : Type 0 where
    pub not_below : fl.lt aci.alpha_t (lowest fl) ≡ false
    pub not_above : fl.lt (highest fl) aci.alpha_t ≡ false
    pub same_base : aci.base ≡ before.base
    pub same_alpha : aci.alpha ≡ before.alpha
    pub same_gamma : aci.gamma ≡ before.gamma
    pub same_residuals : aci.residuals ≡ before.residuals

  module _ (irreflexive : (x : F) → fl.lt x x ≡ false)
      (ordered : fl.lt (highest fl) (lowest fl) ≡ false) where
    -- After one or more observations the rate is neither below the lower bound nor above the upper
    -- one, and nothing else of the regressor has changed, if the comparison is irreflexive and
    -- does not put the upper bound below the lower.
    pub update_all-IsCalibrated :
        (seen : List (F × F × F)) (y lower upper : F) (aci : AciRegressor F X)
        → IsCalibrated aci (update_all fl ((y, lower, upper) ∷ seen) aci)
    unfolding update_all update
    update_all-IsCalibrated [] y lower upper aci = record {
      not_below = clip-not_below fl _ irreflexive ordered;
      not_above = clip-not_above fl _ irreflexive ordered;
      same_base = refl;
      same_alpha = refl;
      same_gamma = refl;
      same_residuals = refl;
    }
    update_all-IsCalibrated ((y', lower', upper') ∷ seen) y lower upper aci =
        let h = update_all-IsCalibrated seen y' lower' upper' (update fl y lower upper aci) in
        record {
          not_below = h.not_below;
          not_above = h.not_above;
          same_base = h.same_base;
          same_alpha = h.same_alpha;
          same_gamma = h.same_gamma;
          same_residuals = h.same_residuals;
        }
