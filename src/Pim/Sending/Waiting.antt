-- ===== src/Pim/Sending/Waiting.antt =====
-- What an attempt of `PimHost::send` means for its loop: the flow can be tried again, and a flow that
-- does not send waits until a time that `closet_timeout` does not miss.
use ruf.Prelude.{ℕ, ◌≡◌, sym, subst, ◌⊎◌, inl, inr, true, false, none, some, Bool-cases, arith}
use ruf.Prelude.Int.{ℤ, pos, negsuc, ltb_ℤ, leb_ℤ}
use ruf.Params.{Params}
use ruf.Pim.{PimParams, PimFlow}
use ruf.Pim.Host.{in_timeout}
use ruf.Pim.Sending.{Attempt, earlier, end_timeout, window_timeout, attempt}
use ruf.Pim.Sending.Window.{in_flight, end_timeout-retimed}
use ruf.Pim.Sending.Tried.{waits, window_full, sends, attempt-Attempted}
use ruf.Pim.Life.Ready.{HasLevel}
use ruf.Pim.Life.Alive.{IsReady, retimed-IsReady}

-- A flow that an attempt does not fail on.
pub record CanTry (pim : PimParams) (f : PimFlow) : Type 0 where
  pub ready : IsReady f
  pub level : ℕ
  pub leveled : HasLevel pim level f.size_in_pkt

module _ (params : Params) (pim : PimParams) (now : ℕ) where
  -- The flow is in its timeout or its window is full, and `time` is not after the end of that.
  abbrev pub WaitsUntil : (time : ℤ) → PimFlow → Type 0
  WaitsUntil time f =
      ((in_timeout now f ≡ true) × (leb_ℤ time f.redundancy_ctrl_timeout ≡ true))
      ⊎ ((leb_ℤ (in_flight f) (pos pim.pim_window_size) ≡ false)
          × (leb_ℤ time (window_timeout params pim now f) ≡ true))

  pub WaitsUntil-mono : (t u : ℤ) (f : PimFlow) → leb_ℤ t u ≡ true → WaitsUntil u f → WaitsUntil t f
  WaitsUntil-mono t u f h (inl (early, le)) = inl (early, ground arith)
  WaitsUntil-mono t u f h (inr (full, le)) = inr (full, ground arith)

  WaitsUntil-end_timeout : (t : ℤ) (f : PimFlow) → WaitsUntil t (end_timeout f) → WaitsUntil t f
  WaitsUntil-end_timeout t f w = elim (Bool-cases (ltb_ℤ (pos 0) f.redundancy_ctrl_timeout)) [
    | inl past ↦
        let v : WaitsUntil t (record f { redundancy_ctrl_timeout = negsuc 0 }) = rw past at w in
        elim v [ inl e ↦ absurd (ground (arith, e.0)) | inr e ↦ inr e ]
    | inr set ↦ let v : WaitsUntil t f = rw set at w in v
  ]

  -- What the loop needs to know of an attempt.
  pub record Outcome (f : PimFlow) (closet : ℤ) (a : Attempt) : Type 0 where
    pub can_try : CanTry pim a.flow
    pub later : (a.closet_timeout ≡ closet) ⊎ (ltb_ℤ (pos now) a.closet_timeout ≡ true)
    pub earliest : leb_ℤ a.closet_timeout closet ≡ true
    pub waiting : a.packet ≡ none → WaitsUntil a.closet_timeout f
    pub same : a.packet ≡ none → (t : ℤ) → WaitsUntil t a.flow → WaitsUntil t f

  earlier_le : (t closet : ℤ) → leb_ℤ (earlier t closet) closet ≡ true
  earlier_le t closet = ground arith

  le_earlier : (t closet : ℤ) → leb_ℤ (earlier t closet) t ≡ true
  le_earlier t closet = ground arith

  earlier_later :
      (t closet : ℤ)
      → ltb_ℤ (pos now) t ≡ true
      → (earlier t closet ≡ closet) ⊎ (ltb_ℤ (pos now) (earlier t closet) ≡ true)
  earlier_later t closet h = elim (Bool-cases (ltb_ℤ t closet)) [
    | inl less ↦ inr (rw less h)
    | inr more ↦ inl (rw more)
  ]

  end_timeout-CanTry : (f : PimFlow) → CanTry pim f → CanTry pim (end_timeout f)
  end_timeout-CanTry f c =
      let (t, e) = end_timeout-retimed f in
      subst (CanTry pim) (sym e)
        (record { ready = retimed-IsReady f t c.ready; level = c.level; leveled = c.leveled })

  pub attempt-Outcome :
      (f : PimFlow) (closet : ℤ)
      → CanTry pim f
      → (a : Attempt) × (attempt params pim now none f closet ≡ some a) × Outcome f closet a
  attempt-Outcome f closet c =
      elim (attempt-Attempted params pim now f closet c.level c.ready.consistent c.ready.more
        c.ready.in_order c.leveled) [
          | waits early runs ↦ (
            _,
            runs,
            record {
              can_try = c;
              later = earlier_later f.redundancy_ctrl_timeout closet early;
              earliest = earlier_le f.redundancy_ctrl_timeout closet;
              waiting = λ e. inl (early, le_earlier f.redundancy_ctrl_timeout closet);
              same = λ e t w. w;
            },
          )
          | window_full shut soon runs ↦ (
            _,
            runs,
            record {
              can_try = end_timeout-CanTry f c;
              later = earlier_later (window_timeout params pim now f) closet soon;
              earliest = earlier_le (window_timeout params pim now f) closet;
              waiting = λ e. inr (shut, le_earlier (window_timeout params pim now f) closet);
              same = λ e t w. WaitsUntil-end_timeout t f w;
            },
          )
          | sends a late runs s ↦ (
            a,
            runs,
            record {
              can_try = record {
                ready = record { consistent = s.kept; more = s.more; in_order = s.in_order };
                level = c.level;
                leveled = subst (HasLevel pim c.level) (sym s.same_size) c.leveled;
              };
              later = inl s.same_closet;
              earliest = ground (arith, s.same_closet);
              waiting = λ e. absurd (cc (e, s.is_sent));
              same = λ e. absurd (cc (e, s.is_sent));
            },
          )
        ]
