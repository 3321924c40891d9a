-- ===== src/Gateway/Fanout/Tests.antt =====
-- Three instances, two of them subscribed.
use realtime_collaborative_e.Base.{String, ◌≡◌, refl, true, List, [], ◌∷◌, ◌===◌, if◌then◌else◌}
use realtime_collaborative_e.Base.Set
use realtime_collaborative_e.Gateway.Fanout.{Node, is_known, emit_everywhere}
use realtime_collaborative_e.Gateway.Fanout.Once.{Distinct, times, emit_everywhere-once}

abbrev first : Node
first = record { instance_id = "i1"; subscribed = "doc" ∷ [] }

abbrev second : Node
second = record { instance_id = "i2"; subscribed = "doc" ∷ [] }

abbrev third : Node
third = record { instance_id = "i3"; subscribed = [] }

abbrev nodes : List Node
nodes = first ∷ second ∷ third ∷ []

nodes-Distinct : Distinct String nodes
unfolding Set.has
nodes-Distinct = (refl, (refl, (refl, tt)))

update_known : is_known String "y-update" ≡ true
unfolding is_known
update_known = refl

emit_everywhere-once_example :
    times String "i2" (emit_everywhere String nodes first "doc" "y-update" "u")
    ≡ (if "i1" === "i2" then 1 else if Set.has ("doc" ∷ []) "doc" then 1 else 0)
emit_everywhere-once_example =
    emit_everywhere-once String nodes first second "doc" "y-update" "u" nodes-Distinct refl
      update_known refl
