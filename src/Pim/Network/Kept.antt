-- ===== src/Pim/Network/Kept.antt =====
-- The invariant of the hosts of PIM: an accept, from the moment that its sender takes the receiver, is
-- on its way, matched, or on its way back, once.
use ruf.Prelude.{
  ℕ, ◌+◌, ◌≤◌, ◌≡◌, refl, sym, ap, ◌∙◌, subst, Bool, true, false, ◌&&◌, List, Option, none, some,
  count, one_if, ◌==◌, leb, Bool-cases, inl, inr, arith, if◌then◌else◌, All-map,
}
use ruf.Prelude.{==_refl, and_false_right}
use ruf.Prelude.Faults.{some_inj}
use ruf.Pim.{PimFlow}
use mathlib.Core.Path.{fun_ext}
use ruf.Pim.Host.{PimEpoch, PimHost, NewEpochEvent, Message, rts, grants, accept, grantsr}
use ruf.Pim.Epoch.{is_host, put_epoch}
use ruf.Pim.Network.{System, SameEnds, set_host}
use ruf.Pim.Network.Balance.{carries, Own, Acted}

-- A receiver's match is the sender `a`.
abbrev pub match_of : Option PimEpoch → ℕ → Bool
match_of none a = false
match_of (some e) a = is_host e.match_sender a

-- The host has begun the epoch `k`, or a later one.
abbrev pub is_begun : Option ℕ → ℕ → Bool
is_begun none k = false
is_begun (some c) k = leb k c

-- What is known of an epoch `e` that the host has under the number `k`.
abbrev pub Named : (ℕ → PimFlow) → PimHost → Option ℕ → (i k : ℕ) → PimEpoch → Type 0
Named flows h partner i k e =
    (e.epoch ≡ k) × (h.cur_epoch ≡ some k) × (e.match_receiver ≡ partner) × Own flows i e

-- `partner k a` is the receiver that the sender `a` took last in the epoch `k`, if it was not given
-- back.
pub record IsKept (s : System) : Type 0 where
  pub partner : ℕ → ℕ → Option ℕ
  pub named :
      (i k : ℕ) (e : PimEpoch)
      → (s.hosts i).epochs k ≡ some e
      → Named s.flows (s.hosts i) (partner k i) i k e
  pub present :
      (i k : ℕ) → (s.hosts i).cur_epoch ≡ some k → (e : PimEpoch) × ((s.hosts i).epochs k ≡ some e)
  pub later : (i k : ℕ) → is_begun (s.hosts i).cur_epoch k ≡ false → partner k i ≡ none
  pub upcoming :
      (i : ℕ) (evt : NewEpochEvent)
      → (s.hosts i).new_epoch_evt ≡ some evt
      → (c : ℕ) × ((s.hosts i).cur_epoch ≡ some c) × (evt.epoch ≡ c + 1)
  pub bounded :
      (k a b : ℕ)
      → count (carries s.flows k a b) s.net + one_if (match_of ((s.hosts b).epochs k) a)
        ≤ one_if (is_host (partner k a) b)

-- An operation on the epoch `k` of the host `i` that is balanced keeps the invariant.
module _ (s : System) (v : IsKept s) (i k : ℕ) (removed : List Message) (e : PimEpoch)
    (e' : PimEpoch) (h' : PimHost) (sent net : List Message) (here : (s.hosts i).epochs k ≡ some e)
    (acted : Acted s.flows k i removed e (s.hosts i) e' h' sent)
    (moved : (f : Message → Bool)
      → count f net + count f removed ≡ count f s.net + count f sent) where
  abbrev after : System
  after = record s { hosts = set_host i (put_epoch k (some e') h') s.hosts; net = net }

  abbrev partner_after : ℕ → ℕ → Option ℕ
  partner_after l a = if (k == l) && (i == a) then e'.match_receiver else v.partner l a

  match_after :
      (l a b : ℕ)
      → one_if (match_of ((after.hosts b).epochs l) a)
          + one_if ((k == l) && ((i == b) && is_host e.match_sender a))
        ≡ one_if (match_of ((s.hosts b).epochs l) a)
          + one_if ((k == l) && ((i == b) && is_host e'.match_sender a))
  match_after l a b = elim (Bool-cases (i == b)) [
    | inr other ↦ rw other refl
    | inl this ↦ elim (Bool-cases (k == l)) [
      | inr past ↦
          let same_host : i ≡ b = ground arith in
          rw (this, past)
            (ap (λ x. one_if (match_of x a) + 0)
              (ap (λ f. f l) acted.same.epochs ∙ ap (λ j. (s.hosts j).epochs l) same_host))
      | inl now ↦
          let same_host : i ≡ b = ground arith in
          let same_epoch : k ≡ l = ground arith in
          let there : (s.hosts b).epochs l ≡ some e =
            subst (λ j. (s.hosts j).epochs l ≡ some e) same_host
              (subst (λ m. (s.hosts i).epochs m ≡ some e) same_epoch here) in
          rw (this, now, there) (omega arith)
    ]
  ]

  partner_moves :
      (l a b : ℕ)
      → one_if (is_host (partner_after l a) b)
          + one_if ((k == l) && ((i == a) && is_host e.match_receiver b))
        ≡ one_if (is_host (v.partner l a) b)
          + one_if ((k == l) && ((i == a) && is_host e'.match_receiver b))
  partner_moves l a b = elim (Bool-cases (k == l)) [
    | inr past ↦ rw past refl
    | inl now ↦ elim (Bool-cases (i == a)) [
      | inr other ↦ rw (now, other) refl
      | inl this ↦
          let same_host : i ≡ a = ground arith in
          let same_epoch : k ≡ l = ground arith in
          let known : v.partner l a ≡ e.match_receiver =
            subst (λ j. v.partner l j ≡ e.match_receiver) same_host
              (subst (λ m. v.partner m i ≡ e.match_receiver) same_epoch
                (sym (v.named i k e here).2)) in
          rw (now, this, known) (omega arith)
    ]
  ]

  bounded_after :
      (l a b : ℕ)
      → count (carries s.flows l a b) net + one_if (match_of ((after.hosts b).epochs l) a)
        ≤ one_if (is_host (partner_after l a) b)
  bounded_after l a b = omega (
    arith,
    v.bounded l a b,
    acted.balanced l a b,
    moved (carries s.flows l a b),
    match_after l a b,
    partner_moves l a b,
  )

  -- The epoch `k` is the one that the host has.
  Named-at :
      (l : ℕ) (d : PimEpoch)
      → (put_epoch k (some e') h').epochs l ≡ some d
      → Named s.flows (put_epoch k (some e') h') (partner_after l i) i l d
  Named-at l d found = elim (Bool-cases (k == l)) [
    | inr past ↦
        let old : (s.hosts i).epochs l ≡ some d =
          sym (ap (λ f. f l) acted.same.epochs) ∙ (rw past at found) in
        let one = v.named i k e here in
        let two = v.named i l d old in absurd (ground (arith, one.1, two.1))
    | inl now ↦
        let same_epoch : k ≡ l = ground arith in
        let is_new : e' ≡ d = some_inj (rw now at found) in
        let one = v.named i k e here in
        subst (λ x. Named s.flows (put_epoch k (some e') h') (partner_after l i) i l x) is_new
          (
            acted.epoch ∙ one.0 ∙ same_epoch,
            acted.same.cur ∙ one.1 ∙ ap some same_epoch,
            rw (now, ==_refl i) refl,
            acted.own,
          )
  ]

  host_after : after.hosts i ≡ put_epoch k (some e') h'
  host_after = rw (==_refl i) refl

  Named-after :
      (j l : ℕ) (d : PimEpoch)
      → (after.hosts j).epochs l ≡ some d
      → Named s.flows (after.hosts j) (partner_after l j) j l d
  Named-after j l d found = elim (Bool-cases (i == j)) [
    | inr other ↦ rw other (rw (and_false_right (k == l)) (v.named j l d (rw other at found)))
    | inl this ↦
        let same_host : i ≡ j = ground arith in
        subst
          (λ (x : ℕ).
            (after.hosts x).epochs l ≡ some d
            → Named s.flows (after.hosts x) (partner_after l x) x l d)
          same_host
          (subst (λ h. h.epochs l ≡ some d → Named s.flows h (partner_after l i) i l d)
            (sym host_after) (Named-at l d))
          found
  ]

  present_after :
      (j l : ℕ)
      → (after.hosts j).cur_epoch ≡ some l
      → (d : PimEpoch) × ((after.hosts j).epochs l ≡ some d)
  present_after j l cur = elim (Bool-cases (i == j)) [
    | inr other ↦ let (d, found) = v.present j l (rw other at cur) in (d, rw other found)
    | inl this ↦
        let same_host : i ≡ j = ground arith in
        subst
          (λ (x : ℕ).
            (after.hosts x).cur_epoch ≡ some l
            → (d : PimEpoch) × ((after.hosts x).epochs l ≡ some d))
          same_host
          (subst (λ h. h.cur_epoch ≡ some l → (d : PimEpoch) × (h.epochs l ≡ some d))
            (sym host_after) present_at)
          cur
  ]
    where
      present_at :
          (put_epoch k (some e') h').cur_epoch ≡ some l
          → (d : PimEpoch) × ((put_epoch k (some e') h').epochs l ≡ some d)
      present_at now =
          let is_k : k ≡ l = some_inj (sym (v.named i k e here).1 ∙ sym acted.same.cur ∙ now) in
          let hit : (k == l) ≡ true = ground arith in (e', rw hit refl)

  cur_after : (j : ℕ) → (after.hosts j).cur_epoch ≡ (s.hosts j).cur_epoch
  cur_after j = elim (Bool-cases (i == j)) [
    | inr other ↦ rw other refl
    | inl this ↦
        let same_host : i ≡ j = ground arith in
        rw this (acted.same.cur ∙ ap (λ x. (s.hosts x).cur_epoch) same_host)
  ]

  evt_after : (j : ℕ) → (after.hosts j).new_epoch_evt ≡ (s.hosts j).new_epoch_evt
  evt_after j = elim (Bool-cases (i == j)) [
    | inr other ↦ rw other refl
    | inl this ↦
        let same_host : i ≡ j = ground arith in
        rw this (acted.same.evt ∙ ap (λ x. (s.hosts x).new_epoch_evt) same_host)
  ]

  later_after : (j l : ℕ) → is_begun (after.hosts j).cur_epoch l ≡ false → partner_after l j ≡ none
  later_after j l ahead = elim (Bool-cases ((k == l) && (i == j))) [
    | inr other ↦ rw other (v.later j l (subst (λ c. is_begun c l ≡ false) (cur_after j) ahead))
    | inl this ↦
        let same_host : i ≡ j = ground arith in
        let cur : (s.hosts j).cur_epoch ≡ some k =
          subst (λ x. (s.hosts x).cur_epoch ≡ some k) same_host (v.named i k e here).1 in
        let begun : leb l k ≡ false = subst (λ c. is_begun c l ≡ false) (cur_after j ∙ cur) ahead in
        absurd (ground arith)
  ]

  upcoming_after :
      (j : ℕ) (evt : NewEpochEvent)
      → (after.hosts j).new_epoch_evt ≡ some evt
      → (c : ℕ) × ((after.hosts j).cur_epoch ≡ some c) × (evt.epoch ≡ c + 1)
  upcoming_after j evt next =
      let (c, cur, follows) = v.upcoming j evt (sym (evt_after j) ∙ next) in
      (c, cur_after j ∙ cur, follows)

  pub act-IsKept : IsKept after
  act-IsKept = record {
    partner = partner_after;
    named = Named-after;
    present = present_after;
    later = later_after;
    upcoming = upcoming_after;
    bounded = bounded_after;
  }

-- So does whatever changes no epoch and adds no packet that carries an accept.
pub record Idles (s t : System) : Type 0 where
  pub ends : SameEnds s.flows t.flows
  pub epochs : (i : ℕ) → (t.hosts i).epochs ≡ (s.hosts i).epochs
  pub cur : (i : ℕ) → (t.hosts i).cur_epoch ≡ (s.hosts i).cur_epoch
  pub evt :
      (i : ℕ) (e : NewEpochEvent)
      → (t.hosts i).new_epoch_evt ≡ some e
      → (s.hosts i).new_epoch_evt ≡ some e
  pub fewer :
      (k a b : ℕ) → count (carries s.flows k a b) t.net ≤ count (carries s.flows k a b) s.net

carries-ends :
    (flows flows' : ℕ → PimFlow)
    → SameEnds flows flows'
    → (k a b : ℕ) (m : Message) → carries flows' k a b m ≡ carries flows k a b m
carries-ends flows flows' ends k a b (rts f iter epoch) = refl
carries-ends flows flows' ends k a b (grants f iter epoch prompt) = refl
carries-ends flows flows' ends k a b (accept f accepted iter epoch) =
    rw ((ends f).0, (ends f).1) refl
carries-ends flows flows' ends k a b (grantsr f iter epoch) = rw ((ends f).0, (ends f).1) refl

pub idle-IsKept : (s t : System) → IsKept s → Idles s t → IsKept t
idle-IsKept s t v d = record {
  partner = v.partner;
  named = λ i k e found.
      let (number, cur, match, own) = v.named i k e (ap (λ f. f k) (sym (d.epochs i)) ∙ found) in
      (number, d.cur i ∙ cur, match, All-map e.grants_q (λ g q. (d.ends g.f).0 ∙ q) own);
  present = λ i k cur.
      let (e, found) = v.present i k (sym (d.cur i) ∙ cur) in
      (e, ap (λ f. f k) (d.epochs i) ∙ found);
  later = λ i k ahead. v.later i k (subst (λ c. is_begun c k ≡ false) (d.cur i) ahead);
  upcoming = λ i evt next.
      let (c, cur, follows) = v.upcoming i evt (d.evt i evt next) in (c, d.cur i ∙ cur, follows);
  bounded = λ k a b.
      let same : carries t.flows k a b ≡ carries s.flows k a b =
        fun_ext (carries-ends s.flows t.flows d.ends k a b) in
      rw (same, ap (λ f. f k) (d.epochs b)) (omega (arith, d.fewer k a b, v.bounded k a b));
}
