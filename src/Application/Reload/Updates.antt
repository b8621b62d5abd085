-- ===== src/Application/Reload/Updates.antt =====
-- What a subscriber of `ConfigHolder` sees of a row of updates.
use domain_watcher.Application.Reload.{Subscriber, ConfigHolder, safe, fan_out, update}
use domain_watcher.Prelude.{◌≡◌, refl, Option, some, List, [], ◌∷◌, ◌++◌, All, ◌∙◌, ap}

-- `update` for each of the configurations in turn
unfoldable pub updates : {C R : Type 0} → List C → ConfigHolder C R → R → ConfigHolder C R × R
unfolding update
updates [] holder r = (holder, r)
updates (c ∷ cs) holder r = let (h, s) = update c holder r in updates cs h s

-- The part after one call for each configuration, with the one before it as the old one.
unfoldable pub acted : {C P : Type 0} → (Option C → C → P → P) → List C → Option C → P → P
acted act [] old p = p
acted act (c ∷ cs) old p = acted act cs (some c) (act old c p)

module _ {C R P : Type 0} (part : R → P) (act : Option C → C → P → P) where
  -- A subscriber that leaves the part alone, whether it raises or not.
  abbrev pub LeavesPart : Subscriber C R → Type 0
  LeavesPart f = (old : Option C) (new : C) (r : R) → part (f old new r).1 ≡ part r

  -- A subscriber that acts on the part, whether it raises or not.
  abbrev pub ActsOnPart : Subscriber C R → Type 0
  ActsOnPart f = (old : Option C) (new : C) (r : R) → part (f old new r).1 ≡ act old new (part r)

  fan_out-leaves :
      (fs : List (Subscriber C R)) (old : Option C) (new : C) (r : R)
      → All LeavesPart fs
      → part (fan_out fs old new r) ≡ part r
  unfolding fan_out safe
  fan_out-leaves [] old new r h = refl
  fan_out-leaves (f ∷ fs) old new r (h, hs) =
      fan_out-leaves fs old new (f old new r).1 hs ∙ h old new r

  fan_out-acts :
      (fs gs : List (Subscriber C R)) (f : Subscriber C R) (old : Option C) (new : C) (r : R)
      → All LeavesPart fs
      → ActsOnPart f
      → All LeavesPart gs
      → part (fan_out (fs ++ (f ∷ gs)) old new r) ≡ act old new (part r)
  unfolding fan_out safe
  fan_out-acts [] gs f old new r hs a ks =
      fan_out-leaves gs old new (f old new r).1 ks ∙ a old new r
  fan_out-acts (g ∷ fs) gs f old new r (h, hs) a ks =
      fan_out-acts fs gs f old new (g old new r).1 hs a ks ∙ ap (act old new) (h old new r)

  -- Through a row of updates a part of the program that one subscriber alone acts on is acted on
  -- once for each new configuration, with the configuration before it as the old one, whichever of
  -- the subscribers raise.
  pub updates-acted :
      (fs gs : List (Subscriber C R)) (f : Subscriber C R) (cs : List C) (old : Option C) (r : R)
      → All LeavesPart fs
      → ActsOnPart f
      → All LeavesPart gs
      → part (updates cs (record { current = old; subscribers = fs ++ (f ∷ gs) }) r).1
        ≡ acted act cs old (part r)
  unfolding updates acted update
  updates-acted fs gs f [] old r hs a ks = refl
  updates-acted fs gs f (c ∷ cs) old r hs a ks =
      updates-acted fs gs f cs (some c) (fan_out (fs ++ (f ∷ gs)) old c r) hs a ks
      ∙ ap (acted act cs (some c)) (fan_out-acts fs gs f old c r hs a ks)
