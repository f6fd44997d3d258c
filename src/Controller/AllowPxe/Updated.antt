-- ===== src/Controller/AllowPxe/Updated.antt =====
-- A toggle that succeeds has written allowPXE on each interface of a hardware.
use tinkerbell.Base.{
  ℕ, zero, suc, String, Bool, true, false, Option, none, some, List, [], ◌∷◌, All, map, ◌≡◌, refl,
  sym, ap, ◌∙◌, arith, ◌⊎◌, inl, inr, if◌then◌else◌,
}
use Prim.Native.String.{◌++◌ as text_append}
use mathlib.Core.Path.{subst}
use tinkerbell.Base.Fallible.{Result, ok, err, Exec, continue-ok, relabel, ◌>>=◌}
use tinkerbell.Api.{Workflow, WorkflowStatus, Hardware, Interface}
use tinkerbell.Controller.{KubeError, Cluster, State, on_failure, after_failure}
use tinkerbell.Controller.AllowPxe.{
  allow_pxe, is_zero, settle, fetch, set_allow_pxe, toggled, set_toggled, toggle_hardware,
  toggle_fetch, toggle_set, toggle_done, toggle_with, max_retries, hardware_from,
}

-- Each interface of the hardware has allowPXE set to `b`.
abbrev pub AllAllow : Bool → List Interface → Type 0
AllAllow b is = All (λ (i : Interface). i.netboot ≡ some (some b)) is

allow_pxe-AllAllow : (b : Bool) (h : Hardware) → AllAllow b (allow_pxe b h).interfaces
unfolding allow_pxe
allow_pxe-AllAllow b h = each h.interfaces
  where
    each :
        (is : List Interface)
        → AllAllow b (map (λ (i : Interface). record i { netboot = some (some b) }) is)
    each [] = tt
    each (i ∷ is) = (refl, each is)

if-false : {A : Type 0} (b : Bool) (x y z : A) → b ≡ false → (if b then x else y) ≡ z → y ≡ z
if-false true x y z n h = absurd (cc)
if-false false x y z n h = h

module _ {S : Type 0} (c : Cluster S) where
  -- The hardware is what the cluster gave for the name and namespace that the workflow refers to.
  abbrev pub IsRead : Workflow → Hardware → Type 0
  IsRead w h = (s : S) × (s₁ : S) × (c.get_hardware w.spec.hardware_ref w.namespace s ≡ (ok h, s₁))

  -- The state came from a successful update of the hardware of the workflow, as it was read but for
  -- allowPXE, which is set on each interface.
  abbrev pub IsUpdated : Workflow → Bool → S → Type 0
  IsUpdated w b s' =
      (h : Hardware) × (is : List Interface) × (s : S) × IsRead w h
      × (c.update_hardware (record h { interfaces = is }) s ≡ (ok tt, s'))
      × (is ≡ map (λ (i : Interface). record i { netboot = some (some b) }) h.interfaces)
      × AllAllow b is

  Known : Workflow → Option Hardware → Type 0
  Known w none = Unit
  Known w (some h) = IsRead w h

  hardware_from-IsRead :
      (w : Workflow) (x : Result KubeError Hardware × S) (s : S) (h : Hardware)
      → c.get_hardware w.spec.hardware_ref w.namespace s ≡ x
      → relabel (λ (e : KubeError). text_append "hardware not found: " e.text) x.0 ≡ ok h
      → IsRead w h
  hardware_from-IsRead w (ok g, s₁) s h e q = (s, s₁, ground (arith, e, q))
  hardware_from-IsRead w (err x, s₁) s h e q = absurd (cc)

  fetch-IsRead :
      (w : Workflow) (o : Option Hardware) (s : S) (h : Hardware)
      → Known w o
      → (fetch c w o s).0 ≡ ok h
      → IsRead w h
  unfolding Known fetch hardware_from
  fetch-IsRead w none s h k q =
      hardware_from-IsRead w (c.get_hardware w.spec.hardware_ref w.namespace s) s h refl q
  fetch-IsRead w (some g) s h k q = subst (IsRead w) (ground (arith, q)) k

  abbrev updated : S → Result KubeError (Unit {0}) × S
  updated s = (ok tt, s)

  settle-ok :
      (last : Bool) (next : Exec S String (Unit {0})) (x : Result KubeError (Unit {0}) × S) (s' : S)
      → settle c last next x ≡ (ok tt, s')
      → (x ≡ (ok tt, s')) ⊎ ((last ≡ false) × (next x.1 ≡ (ok tt, s')))
  unfolding settle
  settle-ok last next (ok u, s) s' h =
      inl (ap updated (ap (λ (r : Result String (Unit {0}) × S). r.1) h))
  settle-ok last next (err e, s) s' h = ground (arith, h)

  set_allow_pxe-IsUpdated :
      (n : ℕ) (w : Workflow) (h : Option Hardware) (b : Bool) (s s' : S)
      → is_zero n ≡ false
      → Known w h
      → set_allow_pxe c n w h b s ≡ (ok tt, s')
      → IsUpdated w b s'
  unfolding set_allow_pxe is_zero Known allow_pxe
  set_allow_pxe-IsUpdated zero w h b s s' z g e = absurd (cc)
  set_allow_pxe-IsUpdated (suc n) w h b s s' z g e =
      let f = fetch c w h s in
      let (hw, got, k) = continue-ok f.0 _ f.1 e in
      let u = c.update_hardware (allow_pxe b hw) f.1 in
      elim (settle-ok (is_zero n) (set_allow_pxe c n w none b) u s' k) [
        | inl done ↦ (
          hw,
          (allow_pxe b hw).interfaces,
          f.1,
          fetch-IsRead w h s hw g got,
          done,
          refl,
          allow_pxe-AllAllow b hw,
        )
        | inr (more, again) ↦ set_allow_pxe-IsUpdated n w none b u.1 s' more tt again
      ]

  toggled-toggle_fetch :
      (b : Bool) (st : State S)
      → toggled b (toggle_fetch c st).1.workflow.status ≡ toggled b st.workflow.status
  unfolding toggle_fetch toggled on_failure
  toggled-toggle_fetch true st = ground arith
  toggled-toggle_fetch false st = ground arith

  toggle_set-IsUpdated :
      (b : Bool) (hw : Hardware) (st : State S)
      → IsRead st.workflow hw
      → (toggle_set c b hw st).0 ≡ ok tt
      → IsUpdated st.workflow b (toggle_set c b hw st).1.cluster
  unfolding toggle_set on_failure after_failure is_zero Known
  toggle_set-IsUpdated b hw st g h = answered _ _ refl h
    where
      set : Exec S String (Unit {0})
      set = set_allow_pxe c max_retries st.workflow (some hw) b

      answered :
          (f : String → State S → WorkflowStatus) (r : Result String (Unit {0}))
          → (set st.cluster).0 ≡ r
          → (after_failure f (r, record st { cluster = (set st.cluster).1 })).0 ≡ ok tt
          → IsUpdated st.workflow b
              (after_failure f (r, record st { cluster = (set st.cluster).1 })).1.cluster
      answered f (ok u) e h =
          set_allow_pxe-IsUpdated max_retries st.workflow (some hw) b st.cluster (set st.cluster).1
            refl g (λ i. (e i, (set st.cluster).1))
      answered f (err q) e h = absurd (cc)

  toggle_done-toggled :
      (b : Bool) (st st' : State S)
      → toggle_done c b st ≡ (ok tt, st')
      → (st.cluster ≡ st'.cluster) × (toggled b st'.workflow.status ≡ true)
  unfolding toggle_done set_toggled toggled
  toggle_done-toggled true st st' h = ground (arith, h)
  toggle_done-toggled false st st' h = ground (arith, h)

  untoggled :
      (b : Bool) (hw : Hardware) (st st' : State S)
      → toggled b st.workflow.status ≡ false
      → toggle_with c b hw st ≡ (ok tt, st')
      → (toggle_set c b hw >>= λ _. toggle_done c b) st ≡ (ok tt, st')
  unfolding toggle_with
  untoggled b hw st st' n h = if-false (toggled b st.workflow.status) _ _ _ n h

  toggle_fetch-IsRead :
      (st : State S) (hw : Hardware)
      → (toggle_fetch c st).0 ≡ ok hw
      → IsRead st.workflow hw × ((toggle_fetch c st).1.workflow ≡ st.workflow)
  unfolding toggle_fetch on_failure after_failure hardware_from
  toggle_fetch-IsRead st hw h =
      found _ (c.get_hardware st.workflow.spec.hardware_ref st.workflow.namespace st.cluster) refl h
    where
      found :
          (f : String → State S → WorkflowStatus) (x : Result KubeError Hardware × S)
          → c.get_hardware st.workflow.spec.hardware_ref st.workflow.namespace st.cluster ≡ x
          → (after_failure f (
            relabel (λ (e : KubeError). text_append "hardware not found: " e.text) x.0,
            record st { cluster = x.1 },
          )).0
            ≡ ok hw
          → IsRead st.workflow hw
            × ((after_failure f (
              relabel (λ (e : KubeError). text_append "hardware not found: " e.text) x.0,
              record st { cluster = x.1 },
            )).1.workflow
                ≡ st.workflow)
      found f (ok g, s₁) e q = ((st.cluster, s₁, ground (arith, e, q)), refl)
      found f (err x, s₁) e q = absurd (cc)

  -- `toggleHardware`, where the workflow does not record that it was done: if it succeeds, the last
  -- call of the cluster was a successful update of the hardware that was read for the reference of the
  -- workflow, unchanged but for allowPXE, which has the wanted value on each of its interfaces, and
  -- the workflow records that it was done.
  pub toggle_hardware-IsUpdated :
      (b : Bool) (st st' : State S)
      → toggled b st.workflow.status ≡ false
      → toggle_hardware c b st ≡ (ok tt, st')
      → IsUpdated st.workflow b st'.cluster × (toggled b st'.workflow.status ≡ true)
  unfolding toggle_hardware
  toggle_hardware-IsUpdated b st st' n h =
      let f = toggle_fetch c st in
      let (hw, got, k) = continue-ok f.0 (toggle_with c b) f.1 h in
      let (known, same) = toggle_fetch-IsRead st hw got in
      let x = toggle_set c b hw f.1 in
      let (_, e, d) =
        continue-ok x.0 (λ _. toggle_done c b) x.1
          (untoggled b hw f.1 st' (toggled-toggle_fetch b st ∙ n) k) in
      let q = toggle_done-toggled b x.1 st' d in
      let known' = subst (λ w. IsRead w hw) (sym same) known in
      (
        subst (λ w. IsUpdated w b st'.cluster) same
            (subst (IsUpdated f.1.workflow b) q.0 (toggle_set-IsUpdated b hw f.1 known' e)),
        q.1,
      )
