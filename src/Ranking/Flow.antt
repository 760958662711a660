-- ===== src/Ranking/Flow.antt =====
-- simulator/ext/rankingflow.cpp and rankingflow.h: one flow of the RUF protocol, with its tokens at
-- the sender and its bookkeeping at the receiver. The fields are those of RankingFlow, FountainFlow
-- and Flow that the protocol's code reads. The `std::set` of received packets is a list; a signed
-- field that starts at -1 is an integer, and one that never falls below 0 a number.
pub mod Tokens
pub mod Received
pub mod Next
use ruf.Prelude.{
  ℕ, zero, suc, ◌+◌, ◌-◌, ◌*◌, ◌/◌, ◌%◌, Bool, true, false, ◌&&◌, List, [], ◌∷◌, ◌++◌, Option, none,
  some, ltb, leb, ◌==◌, if◌then◌else◌,
}
use ruf.Prelude.Int.{ℤ, pos, negsuc, pos_part, ◌+ℤ◌, ◌-ℤ◌, ltb_ℤ, leb_ℤ}
use ruf.Prelude.Slots.{contains}
use ruf.Prelude.Words.{add32, sub32}
use ruf.Prelude.Faults.{◌>>=◌, ◌>>◌, assert}
use ruf.Params.{Params, get_full_pkt_tran_delay, packet_priority}

pub record Token : Type 0 where
  pub timeout : ℕ
  pub seq_num : ℕ
  pub data_seq_num : ℕ
  pub ranking_round : ℤ

pub record RankingFlow : Type 0 where
  pub id : ℕ
  pub start_time : ℕ
  pub size : ℕ
  pub size_in_pkt : ℕ
  pub goal : ℕ
  pub src : ℕ
  pub dst : ℕ
  pub finished : Bool
  pub deadline : ℕ
  pub next_seq_no : ℕ
  pub total_pkt_sent : ℕ
  pub latest_data_pkt_sent_time : ℤ
  pub tokens : List Token
  pub remaining_pkts_at_sender : ℕ
  pub first_byte_receive_time : ℤ
  pub rts_received : Bool
  pub packets_received : List ℕ
  pub received_count : ℕ
  pub received_until : ℕ
  pub received_bytes : ℕ
  pub finished_at_receiver : Bool
  pub token_count : ℕ
  pub token_packet_sent_count : ℕ
  pub token_goal : ℕ
  pub last_token_data_seq_num_sent : ℤ
  pub largest_token_seq_received : ℤ
  pub largest_token_data_seq_received : ℤ
  pub redundancy_ctrl_timeout : ℤ
  pub latest_token_sent_time : ℤ

-- `(int)ceil((double)size / mss)`
abbrev pub packets_of : ℕ → ℕ → ℕ
packets_of size mss = (size + mss - 1) / mss

-- The constructors of RankingFlow, FountainFlow and Flow; they leave `deadline` to the caller.
unfoldable pub new : Params → (id start_time size src dst deadline : ℕ) → RankingFlow
new params id start_time size src dst deadline = record {
  id = id;
  start_time = start_time;
  size = size;
  size_in_pkt = packets_of size params.mss;
  goal = packets_of size params.mss;
  src = src;
  dst = dst;
  finished = false;
  deadline = deadline;
  next_seq_no = 0;
  total_pkt_sent = 0;
  latest_data_pkt_sent_time = negsuc 0;
  tokens = [];
  remaining_pkts_at_sender = packets_of size params.mss;
  first_byte_receive_time = negsuc 0;
  rts_received = false;
  packets_received = [];
  received_count = 0;
  received_until = 0;
  received_bytes = 0;
  finished_at_receiver = false;
  token_count = 0;
  token_packet_sent_count = 0;
  token_goal = packets_of size params.mss;
  last_token_data_seq_num_sent = negsuc 0;
  largest_token_seq_received = negsuc 0;
  largest_token_data_seq_received = negsuc 0;
  redundancy_ctrl_timeout = negsuc 0;
  latest_token_sent_time = negsuc 0;
}

unfoldable pub init_token_size : Params → RankingFlow → ℕ
init_token_size params f = if leb f.size_in_pkt params.token_initial then f.size_in_pkt else 0

-- `std::max(0, size_in_pkt - received_count)`
unfoldable pub remaining_pkts : RankingFlow → ℕ
remaining_pkts f = f.size_in_pkt - f.received_count

-- `token_count - largest_token_seq_received`
abbrev pub outstanding : RankingFlow → ℤ
outstanding f = pos f.token_count -ℤ f.largest_token_seq_received

-- The value of `token_gap`, and the function with its assert.
unfoldable pub gap : RankingFlow → ℤ
gap f = outstanding f -ℤ pos 1

unfoldable pub token_gap : RankingFlow → Option ℤ
unfolding gap
token_gap f = do assert (leb_ℤ (pos 0) (outstanding f)); some (gap f)

unfoldable pub relax_token_gap : Params → RankingFlow → Option RankingFlow
relax_token_gap params f = do
  assert (leb_ℤ (pos 0) (outstanding f))
  some (record f { largest_token_seq_received = pos f.token_count -ℤ pos params.token_window })

-- The `while` of `get_next_token_seq_num` with `count` rounds left. It fails with the final
-- `assert(false)`, or with the one on the result.
unfoldable pub next_seq_loop : RankingFlow → (rounds data_seq : ℕ) → Option ℕ
next_seq_loop f zero data_seq = none
next_seq_loop f (suc rounds) data_seq =
    let next = if leb f.size_in_pkt (data_seq + 1) then f.received_until else data_seq + 1 in
    let rest = next_seq_loop f rounds next in
    if contains f.packets_received data_seq
    then rest
    else (if ltb data_seq f.size_in_pkt then some data_seq else none)

-- `last_token_data_seq_num_sent + 1` is at least 0.
unfoldable pub get_next_token_seq_num : RankingFlow → Option ℕ
unfolding next_seq_loop ◌+ℤ◌
get_next_token_seq_num f =
    next_seq_loop f f.size_in_pkt
      (pos_part (f.last_token_data_seq_num_sent +ℤ pos 1) % f.size_in_pkt)

-- Sender side.

-- The loop of `assign_init_token` from `i` on, with `n` rounds left.
unfoldable pub init_tokens : (timeout i n : ℕ) → List Token
init_tokens timeout i zero = []
init_tokens timeout i (suc n) =
    record { timeout = timeout; seq_num = i; data_seq_num = i; ranking_round = negsuc 0 }
    ∷ init_tokens timeout (i + 1) n

unfoldable pub assign_init_token : Params → ℕ → RankingFlow → RankingFlow
assign_init_token params now f =
    let n = init_token_size params f in
    let timeout = now + n * get_full_pkt_tran_delay params 1500 + params.token_timeout in
    record f { tokens = f.tokens ++ init_tokens timeout 0 n }

-- `has_token` drops the expired tokens at the front.
unfoldable pub drop_expired : ℕ → List Token → List Token
drop_expired now [] = []
drop_expired now (t ∷ ts) = if ltb t.timeout now then drop_expired now ts else t ∷ ts

unfoldable pub is_empty : List Token → Bool
is_empty [] = true
is_empty (t ∷ ts) = false

unfoldable pub has_token : ℕ → RankingFlow → Bool × RankingFlow
unfolding is_empty
has_token now f =
    let ts = drop_expired now f.tokens in
    (if is_empty ts then false else true, record f { tokens = ts })

unfoldable pub clear_token : RankingFlow → RankingFlow
clear_token f = record f { tokens = [] }

take_token : ℕ → RankingFlow → List Token → Option (Token × RankingFlow)
take_token now f [] = none
take_token now f (t ∷ ts) = do assert (leb now t.timeout); some (t, record f { tokens = ts })

unfoldable pub use_token : ℕ → RankingFlow → Option (Token × RankingFlow)
unfolding take_token
use_token now f = take_token now f f.tokens

-- A data packet of the flow, as far as the protocol reads it.
pub record DataPacket : Type 0 where
  pub seq_no : ℕ
  pub size : ℕ
  pub pf_priority : ℕ
  pub capability_seq_num_in_data : ℕ
  pub capa_data_seq : ℕ
  pub ranking_round : ℤ

-- `send`: the packet that it queues at the source, and the flow after it.
unfoldable pub send : ℕ → RankingFlow → Token → (priority : ℕ) → DataPacket × RankingFlow
send now f t priority = (
  record {
    seq_no = f.next_seq_no;
    size = 1500;
    pf_priority = priority;
    capability_seq_num_in_data = t.seq_num;
    capa_data_seq = t.data_seq_num;
    ranking_round = t.ranking_round;
  },
  record f { latest_data_pkt_sent_time = pos now; total_pkt_sent = f.total_pkt_sent + 1 },
)

-- The `assert` that the host has no event.
unfoldable pub has_no_event : Option ℕ → Bool
has_no_event none = true
has_no_event (some _) = false

-- `send_pending_data` at the host's event, up to the new event, which `Sender.transmit` makes. The
-- loop of `packet_priority` ends within its fuel or not at all.
unfoldable pub send_pending_data :
    Params → ℕ → (host_proc_event : Option ℕ) → RankingFlow → Option (DataPacket × RankingFlow)
unfolding send has_no_event
send_pending_data params now host_proc_event f = do
  (t, f') ← use_token now f
  priority ← packet_priority (suc f'.size_in_pkt) f'.size_in_pkt params.token_initial
  (p, g) ← some (send now f' t priority)
  assert (has_no_event host_proc_event)
  let next = add32 g.next_seq_no params.mss
  some (p, record g { next_seq_no = if leb next g.size then next else g.size })

-- Receiver side.

-- `while (received_until < size_in_pkt && packets_received.count(received_until) > 0)`
unfoldable pub advance : List ℕ → (size fuel received_until : ℕ) → ℕ
advance received size zero u = u
advance received size (suc n) u =
    let rest = advance received size n (u + 1) in
    if ltb u size && contains received u then rest else u

-- The body of the test that the data packet is new. `size_in_pkt` rounds are enough.
unfoldable pub mark_new : ℕ → RankingFlow → RankingFlow
mark_new data_seq f = record f {
  packets_received = received;
  received_count = f.received_count + 1;
  received_until = advance received f.size_in_pkt f.size_in_pkt f.received_until;
  largest_token_data_seq_received =
      if ltb_ℤ f.largest_token_data_seq_received (pos data_seq)
      then pos data_seq
      else f.largest_token_data_seq_received;
}
  where
    received : List ℕ
    received = data_seq ∷ f.packets_received

unfoldable pub mark_received : ℕ → RankingFlow → RankingFlow
unfolding mark_new
mark_received data_seq f = if contains f.packets_received data_seq then f else mark_new data_seq f

-- The global `num_outstanding_packets` after a data packet.
unfoldable pub less_outstanding : Params → RankingFlow → DataPacket → ℕ → ℕ
less_outstanding params f p n =
    let k = sub32 p.size params.hdr_size / params.mss in
    if contains f.packets_received p.capa_data_seq then n else (if leb k n then n - k else 0)

-- What `receive` does to the flow for a data packet, before it tests for the end of the flow.
unfoldable pub receive_data : Params → RankingFlow → DataPacket → RankingFlow
unfolding mark_received
receive_data params f p = record g {
  received_bytes = add32 g.received_bytes (sub32 p.size params.hdr_size);
  largest_token_seq_received =
      if ltb_ℤ g.largest_token_seq_received (pos p.capability_seq_num_in_data)
      then pos p.capability_seq_num_in_data
      else g.largest_token_seq_received;
}
  where
    g : RankingFlow
    g = mark_received p.capa_data_seq f
