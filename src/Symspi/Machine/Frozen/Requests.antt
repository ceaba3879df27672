-- ===== src/Symspi/Machine/Frozen/Requests.antt =====
-- Requests while a device is in XFER.
use iccom_utils.Base.{if_both, ℕ, ◌≡◌, refl, ◌-◌, Bool, true, false, ◌||◌, ltb, Option, none, some}
use iccom_utils.Symspi.{State, SpiError, SpiXfer, SymspiDev, Result, success, failure}
use iccom_utils.Symspi.Switch.{number, same_state}
use iccom_utils.Symspi.Switch.Open.{missed}
use iccom_utils.Symspi.Errors.{is_success}
use iccom_utils.Symspi.Leave.{Outside, stop_timeout_timer, is_their_request}
use iccom_utils.Symspi.Exchange.{
  Updated, verify_consumer_input, prepared, checked_input, switch_to_xfer_prepare_sequence,
  xchanged, repeat_xchange, checked_idle, started_or_idle, to_idle_sequence, update_xfer_sequence,
  data_xchange, default_updated, update_of, default_data_update,
}
use iccom_utils.Symspi.Safe.{Returns, Returns-bind}
use iccom_utils.Symspi.Machine.Frozen.{Frozen, try_to_error-Frozen}

module _ (d0 : SymspiDev) where
  abbrev pub FrozenUpdate : Result × Option ℕ × SymspiDev → Type 0
  FrozenUpdate r = (is_success r.0 ≡ false) × Frozen d0 r.2

  checked_input-Frozen :
      (e : Option SpiError) (update : SymspiDev → Updated) (s : State) (d : SymspiDev)
      → same_state State.xfer s ≡ false
      → Frozen d0 d
      → Returns FrozenUpdate (checked_input e update s d)
  unfolding checked_input prepared
  checked_input-Frozen none update s d other h =
      simp (missed d State.xfer h.1 h.0 s State.xfer_prepare other) (refl, h)
  checked_input-Frozen (some e) update s d other h = (refl, h)

  pub switch_to_xfer_prepare-Frozen :
      (xfer : Option SpiXfer) (update : SymspiDev → Updated) (s : State) (d : SymspiDev)
      → same_state State.xfer s ≡ false
      → Frozen d0 d
      → Returns FrozenUpdate (switch_to_xfer_prepare_sequence xfer update s d)
  unfolding switch_to_xfer_prepare_sequence
  switch_to_xfer_prepare-Frozen xfer update s d other h =
      checked_input-Frozen (verify_consumer_input d xfer) update s d other h

  xchanged-Frozen :
      (o : Outside) (repeated : Bool) (res : Result) (id : Option ℕ) (d : SymspiDev)
      → FrozenUpdate (res, id, d)
      → Returns FrozenUpdate (xchanged o repeated res id d)
  unfolding xchanged
  xchanged-Frozen o repeated success id d h = cc
  xchanged-Frozen o true (failure SpiError.not_ready) id d h = h
  xchanged-Frozen o false (failure e) id d h = h
  xchanged-Frozen o true (failure _) id d h = h

  repeat_xchange-Frozen :
      (o : Outside) (s : State) (d : SymspiDev)
      → same_state State.xfer s ≡ false
      → Frozen d0 d
      → Returns FrozenUpdate (repeat_xchange o s d)
  unfolding repeat_xchange
  repeat_xchange-Frozen o s d other h =
      if_both (Returns FrozenUpdate) d.close_request (refl, h)
        (Returns-bind FrozenUpdate FrozenUpdate
          (switch_to_xfer_prepare_sequence none (λ d1. some (success, none, d1)) s d)
          (λ r. xchanged o (same_state s State.idle) r.0 r.1 r.2)
          (switch_to_xfer_prepare-Frozen none (λ d1. some (success, none, d1)) s d other h)
          (λ r h'. xchanged-Frozen o (same_state s State.idle) r.0 r.1 r.2 h'))

  started_or_idle-Frozen :
      (o : Outside) (s : State) (start : Bool) (d : SymspiDev)
      → same_state State.xfer s ≡ false
      → Frozen d0 d
      → Returns (λ r. Frozen d0 r.1) (started_or_idle o s start d)
  unfolding started_or_idle
  started_or_idle-Frozen o s start d other h =
      let P = λ (r : Bool × SymspiDev). Frozen d0 r.1 in
      if_both (Returns P) (start || is_their_request o d)
        (Returns-bind FrozenUpdate P (repeat_xchange o s d) (λ r. some (is_success r.0, r.2))
          (repeat_xchange-Frozen o s d other h) (λ r h'. h'.1))
        (simp (missed d State.xfer h.1 h.0 s State.idle other) h)

  checked_idle-Frozen :
      (s : State) (e : Option SpiError) (started : Bool) (d : SymspiDev)
      → Frozen d0 d
      → Returns (λ r. Frozen d0 r.1) (checked_idle s e started d)
  unfolding checked_idle
  checked_idle-Frozen s e started d h =
      if_both (Returns (λ (r : Result × SymspiDev). Frozen d0 r.1))
        (started || same_state s State.error) h (try_to_error-Frozen d0 e d h)

  pub to_idle-Frozen :
      (o : Outside) (s : State) (start : Bool) (e : Option SpiError) (d : SymspiDev)
      → same_state State.xfer s ≡ false
      → Frozen d0 d
      → Returns (λ r. Frozen d0 r.1) (to_idle_sequence o s start e d)
  unfolding to_idle_sequence stop_timeout_timer
  to_idle-Frozen o s start e d other h =
      let d1 = record (stop_timeout_timer d) {
        delayed_xfer_request = d.delayed_xfer_request - 1;
      } in
      Returns-bind (λ (r : Bool × SymspiDev). Frozen d0 r.1)
        (λ (r : Result × SymspiDev). Frozen d0 r.1)
        (started_or_idle o s (start || ltb 0 d.delayed_xfer_request) d1)
        (λ r. checked_idle s e r.0 r.1)
        (started_or_idle-Frozen o s (start || ltb 0 d.delayed_xfer_request) d1 other h)
        (λ r h'. checked_idle-Frozen s e r.0 r.1 h')

  pub data_xchange-Frozen :
      (o : Outside) (xfer : Option SpiXfer) (force : Bool) (d : SymspiDev)
      → Frozen d0 d
      → Returns FrozenUpdate (data_xchange o xfer force d)
  unfolding data_xchange number
  data_xchange-Frozen o none force d h = repeat_xchange-Frozen o State.idle d refl h
  data_xchange-Frozen o (some xfer) force d h =
      let update = λ (d1 : SymspiDev). update_xfer_sequence o xfer State.xfer_prepare force d1 in
      if_both (Returns FrozenUpdate) d.close_request (refl, h)
        (Returns-bind FrozenUpdate FrozenUpdate
          (switch_to_xfer_prepare_sequence (some xfer) update State.idle d)
          (λ r. xchanged o false r.0 r.1 r.2)
          (switch_to_xfer_prepare-Frozen (some xfer) update State.idle d refl h)
          (λ r h'. xchanged-Frozen o false r.0 r.1 r.2 h'))

  default_updated-Frozen :
      (o : Outside) (res : Result) (id : Option ℕ) (d : SymspiDev)
      → FrozenUpdate (res, id, d)
      → Returns FrozenUpdate (default_updated o res id d)
  unfolding default_updated
  default_updated-Frozen o success id d h = cc
  default_updated-Frozen o (failure e) id d h = h

  pub default_data_update-Frozen :
      (o : Outside) (xfer : Option SpiXfer) (force : Bool) (d : SymspiDev)
      → Frozen d0 d
      → Returns FrozenUpdate (default_data_update o xfer force d)
  unfolding default_data_update number
  default_data_update-Frozen o xfer force d h =
      if_both (Returns FrozenUpdate) d.close_request (refl, h)
        (Returns-bind FrozenUpdate FrozenUpdate
          (switch_to_xfer_prepare_sequence xfer (update_of o xfer force) State.idle d)
          (λ r. default_updated o r.0 r.1 r.2)
          (switch_to_xfer_prepare-Frozen xfer (update_of o xfer force) State.idle d refl h)
          (λ r h'. default_updated-Frozen o r.0 r.1 r.2 h'))
