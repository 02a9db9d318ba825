-- ===== src/Bridges/AhbApb.antt =====
-- bridges/ahb_apb_bridge.h: from the AHB to the APB.
use systemc_model.Base.{ℕ, ◌+◌, ◌≤◌, true, false, Option, some, arith}
use systemc_model.Tlm.{Command, ApbExtension, Txn, IsSameRequest, Transport, IsTarget}

-- A request with another extension and delay is the same request.
same_of_down :
    (t u : Txn) (ext : Option ApbExtension) (ns : ℕ)
    → IsSameRequest (record t { extension = ext; delay = ns }) u
    → IsSameRequest t u
same_of_down t u ext ns h = ground arith

later_of_down : (d period e : ℕ) → d + (period + period) ≤ e → d ≤ e
later_of_down d period e h = omega arith

module _ {S : Type 0} (apb : Transport S) where
  -- The extension is made where the transaction has none; its three members are set in any case.
  unfoldable pub b_transport : ℕ → Transport S
  b_transport pclk_period s t =
      let ext : ApbExtension = record {
        psel = true;
        penable = true;
        pwrite = elim t.command [ Command.write ↦ true | _ ↦ false ];
      } in
      apb s (record t { extension = some ext; delay = t.delay + (pclk_period + pclk_period) })

  -- The bridge in front of a target is a target.
  pub bridge-IsTarget : (period : ℕ) → IsTarget apb → IsTarget (b_transport period)
  unfolding b_transport
  bridge-IsTarget period h = record {
    answers = λ s t. h.answers s _;
    keeps = λ s t. same_of_down t _ _ _ (h.keeps s _);
    delays = λ s t. later_of_down t.delay period _ (h.delays s _);
  }
