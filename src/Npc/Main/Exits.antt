-- ===== src/Npc/Main/Exits.antt =====
-- What the controller's program has done when it exits before the controller runs.
use cni_genie.Base.{
  Text, Bool, List, GoMap, err, ◌>>◌, ◌≡◌, ap, sym, ◌∙◌, ◌⊎◌, inl, inr, bind-panic, bind-run,
  bind-stop,
}
use cni_genie.Client.Library.{Library}
use cni_genie.Npc.World.{World}
use cni_genie.Npc.Start.{Kube}
use cni_genie.Npc.Main.{Platform, Failure, usage, Program, parse_flags, set_up_signals, main}
use cni_genie.Npc.Main.Early.{
  IsRunning, IsBuilding, Failure-inj, Same, waiting, set_up_signals_run, parse_flags_run,
  after_signals, after_signals-Early,
}

module _ (lib : Library) (kube : Kube) (w : World) (platform : Platform lib kube) where
  -- If main exits with an error that is not one of the controller's `Run`, there are two cases. On the
  -- flags' usage it has done nothing. On an error of its configuration or of its clients it has left
  -- the world as it was, with the filter table in it, and the one goroutine that was started is the
  -- one that waits for signals.
  pub main_exits :
      (args : List Text) (synced : Bool) (keys : List Text) (p : Program lib kube w)
      (e : Failure lib.Error)
      → (main lib kube w platform args synced keys p).0 ≡ err e
      → IsRunning lib kube w e
        ⊎ (((e ≡ usage) × (main lib kube w platform args synced keys p ≡ (err usage, p)))
            ⊎ (IsBuilding lib kube w e
                × Same lib kube w
                    (waiting lib kube w p)
                    (main lib kube w platform args synced keys p).1))
  unfolding main
  main_exits args synced keys p e h =
      let parse = parse_flags lib kube w platform args in
      let rest = λ (values : GoMap Text).
        set_up_signals lib kube w >> after_signals lib kube w platform synced keys values in
      elim (parse_flags_run lib kube w platform args p) [
        | inr k ↦
            (let run = bind-stop parse rest p p usage k in
              inr (inl (sym (Failure-inj lib kube w (sym (ap (λ r. r.0) run) ∙ h)), run)))
        | inl (values, _, k) ↦
            (let parsed = bind-run parse rest p p values k in
              elim (set_up_signals_run lib kube w p) [
                | inl (first, set) ↦
                    (let run =
                        parsed
                        ∙ bind-run (set_up_signals lib kube w)
                            (λ _. after_signals lib kube w platform synced keys values) p
                            (waiting lib kube w p) tt set in
                      elim (after_signals-Early lib kube w platform synced keys values
                        (waiting lib kube w p) e (sym (ap (λ r. r.0) run) ∙ h)) [
                          | inl x ↦ inl x
                          | inr (b, s) ↦ inr (inr (b, rw run s))
                        ])
                | inr crash ↦
                    (let run =
                        bind-panic (set_up_signals lib kube w)
                          (λ _. after_signals lib kube w platform synced keys values) p crash in
                      let bad = sym (ap (λ r. r.0) (parsed ∙ run)) ∙ h in cc)
              ])
      ]
