-- ===== src/Float64/Order.antt =====
-- The order of float64: what Go's comparisons satisfy, NaN included.
use inwheel_api.Common.{◌≡◌, true, false, arith}
use inwheel_api.Float64.{Float64, is_nan, rank, lt, le, neg}

pub lt_irrefl : (x : Float64) → lt x x ≡ false
unfolding lt
lt_irrefl x = ground arith

pub lt_trans : (x y z : Float64) → lt x y ≡ true → lt y z ≡ true → lt x z ≡ true
unfolding lt
lt_trans x y z h k = ground arith

pub le_trans : (x y z : Float64) → le x y ≡ true → le y z ≡ true → le x z ≡ true
unfolding le
le_trans x y z h k = ground arith

pub lt-le_trans : (x y z : Float64) → lt x y ≡ true → le y z ≡ true → lt x z ≡ true
unfolding lt le
lt-le_trans x y z h k = ground arith

pub le-lt_trans : (x y z : Float64) → le x y ≡ true → lt y z ≡ true → lt x z ≡ true
unfolding lt le
le-lt_trans x y z h k = ground arith

pub le_of_lt : (x y : Float64) → lt x y ≡ true → le x y ≡ true
unfolding lt le
le_of_lt x y h = ground arith

pub not_lt_of_le : (x y : Float64) → le x y ≡ true → lt y x ≡ false
unfolding lt le
not_lt_of_le x y h = ground arith

-- Two numbers are comparable; only a NaN is not.
pub le_of_not_lt :
    (x y : Float64) → is_nan x ≡ false → is_nan y ≡ false → lt x y ≡ false → le y x ≡ true
unfolding lt le
le_of_not_lt x y h k e = ground arith

pub not_nan_of_le : (x y : Float64) → le x y ≡ true → (is_nan x ≡ false) × (is_nan y ≡ false)
unfolding le
not_nan_of_le x y h = ground arith

pub not_nan_of_lt : (x y : Float64) → lt x y ≡ true → (is_nan x ≡ false) × (is_nan y ≡ false)
unfolding lt
not_nan_of_lt x y h = ground arith

-- A number that is not below another one: if the second is not NaN, neither is `lt` transitive back.
pub not_lt_trans :
    (x y z : Float64)
    → lt x y ≡ false
    → is_nan x ≡ false
    → lt x z ≡ true
    → is_nan y ≡ false
    → lt y z ≡ true
unfolding lt
not_lt_trans x y z h n k m = ground arith

-- The sign change turns a negative number into one that is not negative.
pub not_lt_zero-neg : (x : Float64) → lt x 0 ≡ true → lt (neg x) 0 ≡ false
unfolding lt neg rank is_nan
not_lt_zero-neg x h = ground arith
