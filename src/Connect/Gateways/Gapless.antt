-- ===== src/Connect/Gateways/Gapless.antt =====
-- How a connection is replaced when its gateway drains.
use inngestgo.Prelude.{String, true, false, List, [], ◌∷◌, ◌≡◌, refl, subst, ◌⊎◌, inl, inr, All}
use inngestgo.Connect.Gateways.{
  Draining, Stage, preparing, announced, handling, Chain, tell, Shut, in_time, too_late, further,
  move_on, Move, tells, drains, shuts,
}

-- The connections that were replaced have been told so.
abbrev pub IsTold : Draining → Type 0
IsTold o = o.told ≡ true

-- The connection that is replaced last keeps its socket until its wait has timed out.
abbrev pub IsWaiting : Draining → Type 0
IsWaiting o = (o.told ≡ false) × ((o.shut ≡ false) ⊎ (o.late ≡ true))

abbrev pub LastWaits : List Draining → Type 0
LastWaits [] = Unit
LastWaits (o ∷ os) = IsWaiting o × All IsTold os

-- The API is asked to leave out the group of the connection that is replaced.
abbrev pub LeavesOut : List String → List Draining → Type 0
LeavesOut gs [] = gs ≡ []
LeavesOut gs (o ∷ os) = gs ≡ o.group ∷ []

abbrev pub IsGapless : List String → Stage → List Draining → Type 0
IsGapless gs preparing os = LeavesOut gs os × LastWaits os
IsGapless gs (announced g) os = LeavesOut gs os × LastWaits os
IsGapless gs (handling g) os = All IsTold os

abbrev pub IsGood : Chain → Type 0
IsGood c = IsGapless c.excluded c.stage c.old

Shut-IsTold : {os ps : List Draining} → Shut os ps → All IsTold os → All IsTold ps
Shut-IsTold (in_time t) (h, hs) = (h, hs)
Shut-IsTold too_late (h, hs) = (h, hs)
Shut-IsTold (further s) (h, hs) = (h, Shut-IsTold s hs)

Shut-LastWaits : {os ps : List Draining} → Shut os ps → LastWaits os → LastWaits ps
Shut-LastWaits (in_time t) ((n, w), hs) = cc
Shut-LastWaits too_late ((n, w), hs) = ((n, inr refl), hs)
Shut-LastWaits (further s) (w, hs) = (w, Shut-IsTold s hs)

Shut-LeavesOut :
    (gs : List String) {os ps : List Draining} → Shut os ps → LeavesOut gs os → LeavesOut gs ps
Shut-LeavesOut gs (in_time t) h = h
Shut-LeavesOut gs too_late h = h
Shut-LeavesOut gs (further s) h = h

Shut-IsGapless :
    (gs : List String) (s : Stage) {os ps : List Draining}
    → Shut os ps
    → IsGapless gs s os
    → IsGapless gs s ps
Shut-IsGapless gs preparing m (l, w) = (Shut-LeavesOut gs m l, Shut-LastWaits m w)
Shut-IsGapless gs (announced g) m (l, w) = (Shut-LeavesOut gs m l, Shut-LastWaits m w)
Shut-IsGapless gs (handling g) m w = Shut-IsTold m w

tell-IsTold : (os : List Draining) → LastWaits os → All IsTold (tell os)
unfolding tell
tell-IsTold [] w = tt
tell-IsTold (o ∷ os) (w, t) = (refl, t)

pub Move-IsGood : {c d : Chain} → Move c d → IsGood c → (d.key ≡ c.key) × IsGood d
unfolding move_on
Move-IsGood {c} (tells g e) good =
    (refl, tell-IsTold c.old (subst (λ (s : Stage). IsGapless c.excluded s c.old) e good).1)
Move-IsGood {c} (drains g x e d) good =
    let told = subst (λ (s : Stage). IsGapless c.excluded s c.old) e good in
    (refl, (refl, ((refl, inl refl), told)))
Move-IsGood {c} (shuts os m) good = (refl, Shut-IsGapless c.excluded c.stage m good)

pub announced-IsGood :
    (c : Chain) (g : String)
    → c.stage ≡ preparing
    → IsGood c
    → IsGood (record c { stage = announced g })
announced-IsGood c g s good = subst (λ (x : Stage). IsGapless c.excluded x c.old) s good
