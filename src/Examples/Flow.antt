-- ===== src/Examples/Flow.antt =====
-- A flow of three packets of which the first was received, and the token that follows.
use ruf.Prelude.{ℕ, ◌≡◌, refl, [], ◌∷◌, some, arith}
use ruf.Prelude.Int.{pos, negsuc, ◌+ℤ◌}
use ruf.Params.{packet_priority, priority_loop}
use ruf.Ranking.Flow.{
  RankingFlow, Token, DataPacket, new, receive_data, mark_received, advance, get_next_token_seq_num,
  next_seq_loop,
}
use ruf.Ranking.Flow.Received.{IsConsistent, missing, receive_data-IsConsistent}
use ruf.Ranking.Flow.Next.{IsNext, search_start, get_next_token_seq_num-IsNext}
use ruf.Ranking.Flow.Tokens.{Sends, has_token-Sends}
use ruf.Examples.{small}

program : Unit {0}
unfolding new receive_data mark_received advance get_next_token_seq_num next_seq_loop ◌+ℤ◌ missing
program = tt

-- Three packets from host 0 to host 1.
abbrev fresh : RankingFlow
unfolding program
fresh = new small 7 1_000 4_000 0 1 0

abbrev data_packet : ℕ → DataPacket
data_packet n = record {
  seq_no = 0;
  size = 1500;
  pf_priority = 1;
  capability_seq_num_in_data = n;
  capa_data_seq = n;
  ranking_round = negsuc 0;
}

fresh-IsConsistent : IsConsistent fresh
unfolding program
fresh-IsConsistent = record {
  whole = refl;
  counted = refl;
  until = record { within = omega arith; prefix = λ i h. absurd (omega arith); stops = λ h. refl };
}

abbrev first_in : RankingFlow
unfolding program
first_in = receive_data small fresh (data_packet 0)

-- Packet 0 came twice: it counts once.
twice_counts : (receive_data small first_in (data_packet 0)).received_count ≡ 1
unfolding program
twice_counts = refl

receive_data-IsConsistent_example : IsConsistent first_in
unfolding program
receive_data-IsConsistent_example =
    receive_data-IsConsistent small fresh (data_packet 0) (omega arith) fresh-IsConsistent

-- Tokens 0 and 1 were sent; the next asks for packet 2, the one after it for packet 1.
abbrev two_asked : RankingFlow
unfolding program
two_asked = record first_in { last_token_data_seq_num_sent = pos 1 }

next_is_two : get_next_token_seq_num two_asked ≡ some 2
unfolding program
next_is_two = refl

next_wraps :
    get_next_token_seq_num (record two_asked { last_token_data_seq_num_sent = pos 2 }) ≡ some 1
unfolding program
next_wraps = refl

get_next_token_seq_num-IsNext_example :
    (d : ℕ) × (get_next_token_seq_num first_in ≡ some d) × IsNext first_in (search_start first_in) d
unfolding program
get_next_token_seq_num-IsNext_example =
    get_next_token_seq_num-IsNext first_in receive_data-IsConsistent_example (omega arith)

abbrev token_until : ℕ → ℕ → Token
token_until t n = record { timeout = t; seq_num = n; data_seq_num = n; ranking_round = negsuc 0 }

has_token-Sends_example :
    Sends small 50 1 (record fresh { tokens = token_until 40 0 ∷ token_until 60 1 ∷ [] })
unfolding program packet_priority priority_loop
has_token-Sends_example =
    has_token-Sends small 50 1 (record fresh { tokens = token_until 40 0 ∷ token_until 60 1 ∷ [] })
      refl
