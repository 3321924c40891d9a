-- ===== src/Keys/Tests.antt =====
-- Rotations of small rings.
use realtime_collaborative_e.Base.{String, ◌≡◌, refl, ◌≢◌, inl, none, some, [], ◌∷◌, arith, eq_iff}
use realtime_collaborative_e.Base.Map
use realtime_collaborative_e.Keys.{
  KeyRing, kid_of, rotate, ensure_rotation, get_current, get_by_kid,
}
use realtime_collaborative_e.Keys.Rotation.{
  IsReady, HasKey, get_current-IsReady, ensure_rotation-overwrites,
}

abbrev no_ring : KeyRing
no_ring = record { current_kid = ""; keys = [] }

get_current-IsReady_example :
    let (s', key) = get_current 30 no_ring 5 none "r" in
    IsReady s'
    × ((secret : String) × (key ≡ some (s'.current_kid, secret))
        × (get_by_kid s' s'.current_kid ≡ some secret))
get_current-IsReady_example = get_current-IsReady 30 no_ring 5 none "r" (inl refl)

-- A rotation after the first thirty-one days.
abbrev first_month : KeyRing
first_month = record {
  current_kid = "k1";
  keys = ("k1", record { secret = "one"; created_at = 0 }) ∷ [];
}

first_month-HasKey : HasKey first_month
unfolding Map.get
first_month-HasKey e = cc

k1_not_new : ◌≢◌ {A = String} "k1" (kid_of 2)
unfolding kid_of
k1_not_new = ground (arith, eq_iff "k1" "k2")

-- What four rotations, thirty-one days apart, leave: the first key is pruned.
abbrev fourth_month : KeyRing
fourth_month = record {
  current_kid = "k4";
  keys =
      ("k2", record { secret = "two"; created_at = 2678400 })
      ∷ ("k3", record { secret = "three"; created_at = 5356800 })
      ∷ ("k4", record { secret = "four"; created_at = 8035200 })
      ∷ [];
}

abbrev third_month : KeyRing
third_month = rotate 30 (rotate 30 first_month 2678400 "two") 5356800 "three"

fourth_month-reached : rotate 30 third_month 8035200 "four" ≡ fourth_month
unfolding rotate kid_of Map.get Map.set Map.delete
fourth_month-reached = refl

ensure_rotation-overwrites_example :
    let s' = ensure_rotation 30 fourth_month 10713600 none "five" in
    (s'.current_kid ≡ "k4")
    × (get_by_kid s' "k4" ≡ some "five")
    × (get_by_kid s' "k4" ≢ get_by_kid fourth_month "k4")
unfolding Map.get kid_of
ensure_rotation-overwrites_example =
    ensure_rotation-overwrites 30 fourth_month 10713600 none "five"
      (record { secret = "four"; created_at = 8035200 }) refl refl (omega arith)
      (ground (arith, eq_iff "four" "five"))
