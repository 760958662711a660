-- ===== src/Pim/Sending/Window.antt =====
-- The timeout and the window of a flow before it sends, in `PimHost::send`: the asserts of `gap` and
-- `relax_gap` hold.
use ruf.Prelude.{ℕ, ◌≡◌, inl, inr, true, false, some, Bool-cases, arith}
use ruf.Prelude.Int.{ℤ, pos, negsuc, ◌-ℤ◌, ltb_ℤ, leb_ℤ, -ℤ_parts}
use ruf.Prelude.Faults.{◌>>=◌}
use ruf.Params.{Params}
use ruf.Pim.{PimParams, PimFlow, gap, relax_gap}
use ruf.Pim.Sending.{earlier, end_timeout, window_timeout, open_window}

-- The flow with other values in the fields that `send` writes before it sends.
abbrev pub retimed : PimFlow → (timeout largest : ℤ) → PimFlow
retimed f timeout largest = record f {
  redundancy_ctrl_timeout = timeout;
  largest_seq_ack = largest;
}

-- The packets sent and not acknowledged, as the window counts them.
abbrev pub in_flight : PimFlow → ℤ
in_flight f = pos f.next_seq_no -ℤ f.largest_seq_ack

-- No number is acknowledged before it is sent.
abbrev pub InOrder : PimFlow → Type 0
InOrder f = leb_ℤ (pos 0) (in_flight f) ≡ true

pub gap-InOrder : (f : PimFlow) → InOrder f → gap f ≡ some (in_flight f)
unfolding gap
gap-InOrder f h = rw h

pub end_timeout-retimed : (f : PimFlow) → (t : ℤ) × (end_timeout f ≡ retimed f t f.largest_seq_ack)
end_timeout-retimed f = elim (Bool-cases (ltb_ℤ (pos 0) f.redundancy_ctrl_timeout)) [
  | inl past ↦ (negsuc 0, rw past)
  | inr never_set ↦ (f.redundancy_ctrl_timeout, rw never_set)
]

module _ (params : Params) (pim : PimParams) (now : ℕ) where
  -- The window is open, or a flow that sent lately waits for it.
  pub data Opened (f : PimFlow) (closet : ℤ) : Type 0 where
    free :
        (largest : ℤ)
        → open_window params pim now f closet
          ≡ some (record f { largest_seq_ack = largest }, closet)
        → InOrder (record f { largest_seq_ack = largest })
        → leb_ℤ (pos f.next_seq_no -ℤ largest) (pos pim.pim_window_size) ≡ true
        → Opened f closet
    full :
        open_window params pim now f closet
          ≡ some (f, earlier (window_timeout params pim now f) closet)
        → leb_ℤ (in_flight f) (pos pim.pim_window_size) ≡ false
        → leb_ℤ (window_timeout params pim now f) (pos now) ≡ false
        → Opened f closet

  relaxed :
      (n w : ℕ)
      → (leb_ℤ (pos 0) (pos n -ℤ (pos n -ℤ pos w)) ≡ true)
        × (leb_ℤ (pos n -ℤ (pos n -ℤ pos w)) (pos w) ≡ true)
  relaxed n w =
      let outer = -ℤ_parts (pos n) (pos n -ℤ pos w) in
      let inner = -ℤ_parts (pos n) (pos w) in
      (ground (arith, outer, inner), ground (arith, outer, inner))

  pub open_window-Opened : (f : PimFlow) (closet : ℤ) → InOrder f → Opened f closet
  unfolding open_window relax_gap
  open_window-Opened f closet h =
      elim (Bool-cases (leb_ℤ (in_flight f) (pos pim.pim_window_size))) [
        | inl room ↦ free f.largest_seq_ack (rw (gap-InOrder f h, ◌>>=◌, room)) h room
        | inr shut ↦ elim (Bool-cases (leb_ℤ (window_timeout params pim now f) (pos now))) [
          | inl late ↦
              let (order, room) = relaxed f.next_seq_no pim.pim_window_size in
              free (pos f.next_seq_no -ℤ pos pim.pim_window_size)
                (rw (gap-InOrder f h, ◌>>=◌, shut, late, h)) order room
          | inr early ↦ full (rw (gap-InOrder f h, ◌>>=◌, shut, early)) shut early
        ]
      ]
