-- ===== src/Symspi/Switch/Open.antt =====
-- The strict switch on a device that is not being closed.
use iccom_utils.Base.{◌≡◌, refl, ap, sym, ◌∙◌, true, false}
use iccom_utils.Symspi.{State, SymspiDev}
use iccom_utils.Symspi.Switch.{same_state, cmpxchg, switch_strict}

module _ (d : SymspiDev) (s : State) (e : d.state ≡ s) (opened : d.close_request ≡ false) where
  pub missed :
      (expected dst : State)
      → same_state s expected ≡ false
      → switch_strict d expected dst ≡ (false, d)
  unfolding switch_strict cmpxchg
  missed expected dst other =
      let other' = ap (λ t. same_state t expected) e ∙ other in simp (opened, other') refl

  pub hit :
      (expected dst : State)
      → same_state s expected ≡ true
      → switch_strict d expected dst ≡ (true, record d { state = dst })
  unfolding switch_strict cmpxchg
  hit expected dst same =
      let same' = ap (λ t. same_state t expected) e ∙ same in simp (opened, same') refl

  pub stayed : same_state s s ≡ true → switch_strict d s s ≡ (true, d)
  stayed same = hit s s same ∙ ap (λ t. (true, record d { state = t })) (sym e)
