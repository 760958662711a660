-- ===== src/Ranking/Flow/Tokens.antt =====
-- The sender's tokens: what `has_token` drops, and the one that `send_pending_data` then uses.
use ruf.Prelude.{
  ℕ, suc, ◌+◌, ◌≤◌, ◌<◌, ◌≡◌, refl, ap, ◌∙◌, inl, inr, true, false, List, [], ◌∷◌, ◌++◌, none, some,
  All, ltb, leb, le→leb, if◌then◌else◌, Bool-cases, arith,
}
use ruf.Prelude.Int.{pos}
use ruf.Prelude.Words.{add32}
use ruf.Params.{Params, packet_priority}
use ruf.Ranking.Flow.{
  RankingFlow, Token, DataPacket, drop_expired, has_token, use_token, send_pending_data,
}

-- The list is a run of expired tokens and then nothing, or a token that is still good.
pub data Fresh (now : ℕ) (ts : List Token) : Type 0 where
  none_left : drop_expired now ts ≡ [] → All (λ t. t.timeout < now) ts → Fresh now ts
  front :
      (old : List Token) (t : Token) (rest : List Token)
      → ts ≡ old ++ t ∷ rest
      → All (λ s. s.timeout < now) old
      → now ≤ t.timeout
      → drop_expired now ts ≡ t ∷ rest
      → Fresh now ts

Fresh-cons :
    (now : ℕ) (s : Token) (ts : List Token) → s.timeout < now → Fresh now ts → Fresh now (s ∷ ts)
unfolding drop_expired
Fresh-cons now s ts h (none_left e all) = none_left (ground arith) (h, all)
Fresh-cons now s ts h (front old t rest split all le e) =
    front (s ∷ old) t rest (ap (◌∷◌ s) split) (h, all) le (ground arith)

drop_expired-Fresh : (now : ℕ) (ts : List Token) → Fresh now ts
unfolding drop_expired
drop_expired-Fresh now [] = none_left refl tt
drop_expired-Fresh now (s ∷ ts) = elim (Bool-cases (ltb s.timeout now)) [
  | inl old ↦ Fresh-cons now s ts (ground arith) (drop_expired-Fresh now ts)
  | inr good ↦ front [] s ts refl tt (ground arith) (rw good)
]

-- The priority of the flow's packets.
abbrev pub HasLevel : Params → RankingFlow → ℕ → Type 0
HasLevel params f level =
    packet_priority (suc f.size_in_pkt) f.size_in_pkt params.token_initial ≡ some level

-- What a call of `has_token` and, if it says yes, of `send_pending_data` does: either every token
-- had expired and none is kept, or the first one that has not expired is used, the expired ones before it are
-- gone, and the packet carries its numbers and the flow's priority.
pub data Sends (params : Params) (now level : ℕ) (f : RankingFlow) : Type 0 where
  idle :
      (has_token now f).0 ≡ false
      → (has_token now f).1 ≡ record f { tokens = [] }
      → All (λ t. t.timeout < now) f.tokens
      → Sends params now level f
  sends :
      (old : List Token) (t : Token) (rest : List Token) (p : DataPacket) (g : RankingFlow)
      → (has_token now f).0 ≡ true
      → f.tokens ≡ old ++ t ∷ rest
      → All (λ s. s.timeout < now) old
      → now ≤ t.timeout
      → send_pending_data params now none (has_token now f).1 ≡ some (p, g)
      → g.tokens ≡ rest
      → p.capa_data_seq ≡ t.data_seq_num
      → p.capability_seq_num_in_data ≡ t.seq_num
      → p.pf_priority ≡ level
      → g.total_pkt_sent ≡ f.total_pkt_sent + 1
      → Sends params now level f

module _ (params : Params) (now level : ℕ) (f : RankingFlow) (t : Token) (rest : List Token) where
  abbrev sent_packet : DataPacket
  sent_packet = record {
    seq_no = f.next_seq_no;
    size = 1500;
    pf_priority = level;
    capability_seq_num_in_data = t.seq_num;
    capa_data_seq = t.data_seq_num;
    ranking_round = t.ranking_round;
  }

  abbrev after_send : RankingFlow
  after_send = record f {
    tokens = rest;
    latest_data_pkt_sent_time = pos now;
    total_pkt_sent = f.total_pkt_sent + 1;
    next_seq_no =
        let next = add32 f.next_seq_no params.mss in if leb next f.size then next else f.size;
  }

  send_good :
      now ≤ t.timeout
      → HasLevel params f level
      → send_pending_data params now none (record f { tokens = t ∷ rest })
        ≡ some (sent_packet, after_send)
  unfolding send_pending_data use_token
  send_good le leveled = rw (le→leb now t.timeout le, leveled)

has_token_good :
    (now : ℕ) (f : RankingFlow) (t : Token) (rest : List Token)
    → drop_expired now f.tokens ≡ t ∷ rest
    → has_token now f ≡ (true, record f { tokens = t ∷ rest })
unfolding has_token
has_token_good now f t rest e = rw e

has_token_none :
    (now : ℕ) (f : RankingFlow)
    → drop_expired now f.tokens ≡ []
    → has_token now f ≡ (false, record f { tokens = [] })
unfolding has_token
has_token_none now f e = rw e

pub has_token-emptied :
    (now : ℕ) (f : RankingFlow)
    → (has_token now f).0 ≡ false
    → (has_token now f).1 ≡ record f { tokens = [] }
has_token-emptied now f says = elim (drop_expired-Fresh now f.tokens) [
  | none_left e all ↦ ap (λ r. r.1) (has_token_none now f e)
  | front old t rest split all le e ↦
      let yes = ap (λ r. r.0) (has_token_good now f t rest e) in absurd (cc)
]

-- For a flow whose size has a priority, `has_token` says no exactly when it dropped every token as
-- expired. When it says yes, the call of `send_pending_data` after it, at a host with no event,
-- hits no assert: it sends one packet with the priority and the numbers of the first token that has
-- not expired, uses that token, and drops only the expired ones before it.
pub has_token-Sends :
    (params : Params) (now level : ℕ) (f : RankingFlow)
    → HasLevel params f level
    → Sends params now level f
has_token-Sends params now level f leveled = elim (drop_expired-Fresh now f.tokens) [
  | none_left e all ↦
      let empty = has_token_none now f e in idle (ap (λ r. r.0) empty) (ap (λ r. r.1) empty) all
  | front old t rest split all le e ↦
      let good = has_token_good now f t rest e in
      sends old t rest (sent_packet params now level f t rest)
        (after_send params now level f t rest) (ap (λ r. r.0) good) split all le
        (ap (λ r. send_pending_data params now none r.1) good
          ∙ send_good params now level f t rest le leveled)
        refl refl refl refl refl
]
