-- ===== src/Identity/Score.antt =====
-- score.go: the three components of a candidate's score. Where Go folds a product of constants
-- (WeightAddress * WeightDistance is 0.05) the rounded constant stands here.
pub mod Address
use inwheel_api.Common.{
  ℕ, ◌+◌, ◌-◌, String, ◌==◌, Bool, true, false, not, ◌&&◌, ◌||◌, List, [], ◌∷◌, contains, keep,
  length, eqb, if◌then◌else◌,
}
use inwheel_api.Float64.{Float64, Arithmetic, le, one, two}
use inwheel_api.Identity.Normalize.{Unicode, normalize}

-- 50.0
abbrev pub radius_m : Float64
radius_m = 0x4049000000000000

-- 0.80
abbrev pub confident_threshold : Float64
confident_threshold = 0x3FE999999999999A

-- 0.55
abbrev pub low_confidence_threshold : Float64
low_confidence_threshold = 0x3FE199999999999A

-- 0.5
abbrev pub weight_distance : Float64
weight_distance = 0x3FE0000000000000

-- 0.4
abbrev pub weight_name : Float64
weight_name = 0x3FD999999999999A

-- 0.1
abbrev pub weight_address : Float64
weight_address = 0x3FB999999999999A

-- 0.5
abbrev pub half : Float64
half = 0x3FE0000000000000

module _ (arithmetic : Arithmetic) where
  open arithmetic use {add, sub, mul, div, sin, cos, atan2, sqrt, of_count}

  -- d * math.Pi / 180
  to_rad : Float64 → Float64
  to_rad d = div (mul d 0x400921FB54442D18) 0x4066800000000000

  pub haversine_meters : Float64 → Float64 → Float64 → Float64 → Float64
  unfolding to_rad
  haversine_meters lat1 lng1 lat2 lng2 =
      let d_lat = to_rad (sub lat2 lat1) in
      let d_lng = to_rad (sub lng2 lng1) in
      let a = add (mul (sin (div d_lat two)) (sin (div d_lat two))) (
        mul (mul (mul (cos (to_rad lat1)) (cos (to_rad lat2))) (sin (div d_lng two)))
          (sin (div d_lng two))) in
      let c = mul two (atan2 (sqrt a) (sqrt (sub one a))) in mul 0x41584DB033333333 c

  unfoldable pub distance_score : Float64 → Float64 → Float64 → Float64 → Float64
  unfolding haversine_meters
  distance_score r_lat r_lng p_lat p_lng =
      let meters = haversine_meters r_lat r_lng p_lat p_lng in
      if le radius_m meters then 0 else sub one (div meters radius_m)

  -- A set of tokens as a list without repetitions.
  token_set : List String → List String
  token_set [] = []
  token_set (t ∷ ts) = let set = token_set ts in if contains set t then set else t ∷ set

  jaccard : List String → List String → Float64
  jaccard r p =
      if eqb (length r) 0 || eqb (length p) 0
      then 0
      else (let intersect = length (keep (contains p) r) in
          let union = length r + length p - intersect in
          if eqb union 0 then 0 else div (of_count intersect) (of_count union))

  unfoldable pub name_score : Unicode → String → String → Float64
  unfolding token_set jaccard
  name_score unicode r_name p_name =
      jaccard (token_set (normalize unicode r_name)) (token_set (normalize unicode p_name))

  unfoldable pub combined_score : Float64 → Float64 → Float64 → Bool → Float64
  combined_score distance name address addr_present =
      if addr_present
      then add (add (mul weight_distance distance) (mul weight_name name))
          (mul weight_address address)
      else
          -- 0.9, 0.05 and 0.04
          (let denom : Float64 = 0x3FECCCCCCCCCCCCD in
          let w_dist = add weight_distance (div 0x3FA999999999999A denom) in
          let w_name = add weight_name (div 0x3FA47AE147AE147B denom) in
          add (mul w_dist distance) (mul w_name name))

same_tokens : List String → List String → Bool
same_tokens [] [] = true
same_tokens [] (b ∷ bs) = false
same_tokens (a ∷ as_) [] = false
same_tokens (a ∷ as_) (b ∷ bs) = a == b && same_tokens as_ bs

module _ (unicode : Unicode) where
  open unicode use {equal_fold}

  unfoldable pub streets_match : String → String → Bool
  unfolding same_tokens
  streets_match a b = same_tokens (normalize unicode a) (normalize unicode b)

  -- (score, present)
  unfoldable pub address_score : String → String → String → String → Float64 × Bool
  address_score r_street r_house p_street p_house =
      if r_street == "" || p_street == ""
      then (0, false)
      else if not (streets_match r_street p_street)
      then (0, true)
      else if not (r_house == "") && (not (p_house == "") && equal_fold r_house p_house)
      then (one, true)
      else (half, true)
