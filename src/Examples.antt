-- ===== src/Examples.antt =====
-- Runs of the models on small inputs, and each theorem at an input that meets its hypotheses.
mod Arbiter
mod Flow
mod Acks
mod Host
mod Queues
mod Topology
mod Events
mod ListQueue
mod Lookups
mod Sender
mod Capability
mod Pim
mod PimData
use ruf.Prelude.{false}
use ruf.Params.{Params}

-- Ten gigabits, eight packets to the bandwidth-delay product: one packet takes 1,200,000 ticks.
abbrev pub small : Params
small = record {
  num_hosts = 4;
  num_flows_to_run = 10;
  bandwidth = 10_000_000_000;
  mss = 1460;
  hdr_size = 40;
  bdp = 8;
  token_initial = 8;
  token_window = 8;
  token_timeout = 1_800_000;
  token_resend_timeout = 9_600_000;
  token_window_timeout = 9_600_000;
  ranking_max_tokens = 16;
  rankinghost_idle_timeout = 19_200_000;
  ranking_controller_epoch = 4_800_000;
  ranking_reset_epoch = 96_000_000;
  propagation_delay = 200_000;
  by_deadline = false;
}
