-- ===== src/Params.antt =====
-- simulator/run/params.h and params.cpp: the experiment's parameters, as far as the modelled code
-- reads them. A time is a number of ticks of 1e-12 seconds, which is INFINITESIMAL_TIME.
pub mod Priority
use ruf.Prelude.{
  ℕ, zero, suc, Bool, true, false, Option, none, some, ◌+◌, ◌*◌, ◌/◌, ◌^◌, ◌==◌, ltb, min,
  if◌then◌else◌,
}
use ruf.Prelude.Faults.{◌>>=◌}

pub record Params : Type 0 where
  pub num_hosts : ℕ
  pub num_flows_to_run : ℕ
  pub bandwidth : ℕ
  pub mss : ℕ
  pub hdr_size : ℕ
  pub bdp : ℕ
  pub token_initial : ℕ
  pub token_window : ℕ
  pub token_timeout : ℕ
  pub token_resend_timeout : ℕ
  pub token_window_timeout : ℕ
  pub ranking_max_tokens : ℕ
  pub rankinghost_idle_timeout : ℕ
  pub ranking_controller_epoch : ℕ
  pub ranking_reset_epoch : ℕ
  pub propagation_delay : ℕ
  -- `deadline && schedule_by_deadline`
  pub by_deadline : Bool

-- INFINITESIMAL_TIME
abbrev pub infinitesimal_time : ℕ
infinitesimal_time = 1

-- `size_in_byte * 8 / bandwidth` seconds, in ticks.
unfoldable pub get_full_pkt_tran_delay : Params → ℕ → ℕ
get_full_pkt_tran_delay params size_in_byte = size_in_byte * 8 * 10 ^ 12 / params.bandwidth

-- An `int` that is not negative; a product beyond it overflows, which is undefined.
abbrev pub int_limit : ℕ
int_limit = 2 ^ 31

-- The loop of `packet_priority`, on fuel.
unfoldable pub priority_loop : (base size_in_pkt fuel size priority : ℕ) → Option ℕ
priority_loop base size_in_pkt zero size priority = none
priority_loop base size_in_pkt (suc n) size priority = elim (ltb size size_in_pkt) [
  | false ↦ some priority
  | true ↦ elim (ltb (size * base) int_limit) [
    | false ↦ none
    | true ↦ priority_loop base size_in_pkt n (size * base) (priority + 1)
  ]
]

-- `packet_priority`
unfoldable pub packet_priority : (fuel size_in_pkt base : ℕ) → Option ℕ
packet_priority fuel size_in_pkt base = if base == 0 then some 1 else (do
  priority ← priority_loop base size_in_pkt fuel base 1
  some (if ltb 6 priority then 6 else priority))
