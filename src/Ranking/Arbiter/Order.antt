-- ===== src/Ranking/Arbiter/Order.antt =====
-- ListSrcsComparator is a strict weak order, whatever the ranks.
use ruf.Prelude.{ℕ, List, arith}
use ruf.PriorityQueue.Best.{IsStrictWeak}
use ruf.Ranking.Arbiter.{list_srcs_comp}

pub list_srcs_comp-IsStrictWeak : (ranking : List ℕ) → IsStrictWeak (list_srcs_comp ranking)
unfolding list_srcs_comp
list_srcs_comp-IsStrictWeak ranking = record {
  asym = λ a b h. ground arith;
  irrefl = λ a. ground arith;
  trans = λ a b c h k. ground arith;
}
