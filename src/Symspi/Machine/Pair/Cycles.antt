-- ===== src/Symspi/Machine/Pair/Cycles.antt =====
-- Any number of transfers between a master and a slave.
use iccom_utils.Base.{
  ℕ, ◌+◌, ◌%◌, ◌^◌, ◌≡◌, refl, sym, subst, arith, length, Bool, Option, none, some, List, [], ◌∷◌,
  ◌++◌,
}
use iccom_utils.Symspi.{SpiXfer, SpiTransfer, SymspiInfo, SymspiDev}
use iccom_utils.Symspi.Xfer.{inc_current_xfer_counter}
use iccom_utils.Symspi.Errors.{◌>>=◌}
use iccom_utils.Symspi.Safe.{Returns, Returns-map}
use iccom_utils.Symspi.Machine.{Event}
use iccom_utils.Symspi.Machine.Pair.{Side, step_at, run_pair}
use iccom_utils.Symspi.Machine.Pair.Cycle.{start, finish, counted_up, pair, run_pair-cycle}

-- Transfers that the given sides ask for.
abbrev pub transfers : List Side → List (Side × Event)
transfers [] = []
transfers (side ∷ sides) = (start side ++ finish) ++ transfers sides

run_pair-append :
    (xs ys : List (Side × Event)) (p : SymspiDev × SymspiDev)
    → run_pair (xs ++ ys) p ≡ (run_pair xs p >>= λ p'. run_pair ys p')
run_pair-append [] ys p = refl
run_pair-append ((side, e) ∷ xs) ys p = go (run_pair-append xs ys) (step_at side e p)
  where
    go :
        ((p' : SymspiDev × SymspiDev)
          → run_pair (xs ++ ys) p' ≡ (run_pair xs p' >>= λ p2. run_pair ys p2))
        → (m : Option (SymspiDev × SymspiDev))
        → (m >>= λ p'. run_pair (xs ++ ys) p')
          ≡ ((m >>= λ p'. run_pair xs p') >>= λ p'. run_pair ys p')
    go later none = refl
    go later (some p') = later p'

module _ (n k c e : ℕ) (x y : SpiTransfer) (u v : Bool) where
  -- Both devices are at rest, with the buffers as they were, and so many transfers have been counted.
  abbrev pub RestAfter :
      ℕ → SpiXfer → SpiXfer → SymspiInfo → SymspiInfo → SymspiDev × SymspiDev → Type 0
  RestAfter count a b i j p =
      (a' : SpiXfer) × (b' : SpiXfer) × (i' : SymspiInfo) × (j' : SymspiInfo) × (p
        ≡ pair n k c e a' b' x y i' j' u v)
      × (a'.data_tx ≡ a.data_tx)
      × (a'.data_rx_buf ≡ a.data_rx_buf)
      × (b'.data_tx ≡ b.data_tx)
      × (b'.data_rx_buf ≡ b.data_rx_buf)
      × (i'.xfers_done_ok % 2 ^ 64 ≡ (i.xfers_done_ok + count) % 2 ^ 64)
      × (j'.xfers_done_ok % 2 ^ 64 ≡ (j.xfers_done_ok + count) % 2 ^ 64)

  -- A master without SPI_RDY and a slave whose flag lines are connected are at rest: open, idle,
  -- with their lines dropped, the drops counted, a callback for the end of the transfer and
  -- nothing pending. For any list of sides that ask for a transfer one after the other, and the
  -- order of the edges and callbacks given by start and finish, every handler returns and both are
  -- at rest again, with the buffers they had, the same IDs and callbacks, and as many transfers
  -- counted as done modulo 2^64 as there were requests.
  pub cycles-RestAfter :
      (sides : List Side) (a b : SpiXfer) (i j : SymspiInfo)
      → Returns
          (RestAfter (length sides) a b i j)
          (run_pair (transfers sides) (pair n k c e a b x y i j u v))
  unfolding inc_current_xfer_counter
  cycles-RestAfter [] a b i j = (
    record a { done_callback = some c },
    record b { done_callback = some e },
    i,
    j,
    refl,
    refl,
    refl,
    refl,
    refl,
    omega arith,
    omega arith,
  )
  cycles-RestAfter (side ∷ sides) a b i j =
      let p = pair n k c e a b x y i j u v in
      let a1 = (inc_current_xfer_counter p.0).current_xfer in
      let b1 = (inc_current_xfer_counter p.1).current_xfer in
      let later = cycles-RestAfter sides a1 b1 (counted_up i) (counted_up j) in
      subst (Returns (RestAfter (length (side ∷ sides)) a b i j))
        (sym (run_pair-append (start side ++ finish) (transfers sides) p))
        (subst
          (λ m.
            Returns (RestAfter (length (side ∷ sides)) a b i j)
              (m >>= λ p'. run_pair (transfers sides) p'))
          (sym (run_pair-cycle n k c e a b x y i j u v side))
          (Returns-map (RestAfter (length sides) a1 b1 (counted_up i) (counted_up j))
            (RestAfter (length (side ∷ sides)) a b i j)
            (run_pair (transfers sides) (pair n k c e a1 b1 x y (counted_up i) (counted_up j) u v))
            later
            (λ p' h.
              let (a', b', i', j', eq, t, r, t', r', m, m') = h in
              (a', b', i', j', eq, t, r, t', r', omega arith, omega arith))))
