-- ===== src/Pim/Network/Begin.antt =====
-- A new epoch of a host of PIM keeps the invariant: the epoch before it is forgotten, and nothing is on
-- its way in the new one.
use ruf.Prelude.{
  ℕ, zero, suc, ◌+◌, ◌≤◌, ◌≡◌, refl, sym, ap, ◌∙◌, subst, false, Option, none, some, count, one_if,
  ◌==◌, ==_refl, leb, Bool-cases, Option-cases, inl, inr, ◌⊎◌, arith,
}
use ruf.Prelude.Faults.{some_inj, none_ne_some}
use ruf.Params.{Params}
use ruf.Pim.{PimParams}
use ruf.Pim.Host.{PimEpoch, PimHost, NewEpochEvent}
use ruf.Pim.Epoch.{is_host, put_epoch, erase_before, fresh_epoch, start_new_epoch}
use ruf.Pim.Network.{System, set_host}
use ruf.Pim.Network.Balance.{carries}
use ruf.Pim.Network.Kept.{IsKept, Named, match_of, is_begun}

-- The host has the epoch `k`, which is untouched, and no other.
pub record Started (k : ℕ) (h : PimHost) : Type 0 where
  pub only :
      (l : ℕ) (d : PimEpoch)
      → h.epochs l ≡ some d
      → (time : ℕ) × (l ≡ k) × (d ≡ fresh_epoch k time h.iter_epoch)
  pub there : (d : PimEpoch) × (h.epochs k ≡ some d)
  pub cur : h.cur_epoch ≡ some k
  pub evt : (e : NewEpochEvent) → h.new_epoch_evt ≡ some e → e.epoch ≡ k + 1

-- The epoch `k` is the first, or comes after the current one.
abbrev pub Follows : Option ℕ → ℕ → Type 0
Follows none k = k ≡ 0
Follows (some c) k = k ≡ c + 1

Follows-begun :
    (cur : Option ℕ) (k l : ℕ) → Follows cur k → leb l k ≡ false → is_begun cur l ≡ false
Follows-begun none k l f h = refl
Follows-begun (some c) k l f h = ground arith

Follows-ahead : (cur : Option ℕ) (k : ℕ) → Follows cur k → is_begun cur k ≡ false
Follows-ahead none k f = refl
Follows-ahead (some c) k f = ground arith

-- The host with its new epoch.
abbrev pub begun : PimParams → (time k : ℕ) → PimHost → PimHost
begun pim time k h = erase_before k (
    put_epoch k (some (fresh_epoch k time h.iter_epoch)) (record h {
      receiver = none;
      sender = none;
      cur_epoch = some k;
      new_epoch_evt = some (record { time = time + pim.pim_epoch; epoch = k + 1 });
    }))

pub start_new_epoch_lem :
    (params : Params) (pim : PimParams) (finished time k : ℕ) (h h' : PimHost)
    → start_new_epoch params pim finished time k h ≡ some h'
    → (h ≡ h') ⊎ (begun pim time k h ≡ h')
unfolding start_new_epoch
start_new_epoch_lem params pim finished time k h h' runs = elim (Option-cases (h.epochs k)) [
  | inr (d, old) ↦
      let bad : ◌≡◌ {A = Option PimHost} none (some h') = rw (old, start_new_epoch) at runs in
      absurd (none_ne_some bad)
  | inl new ↦ elim (Bool-cases (leb params.num_flows_to_run finished)) [
    | inl over ↦ inl (some_inj (rw (new, over, start_new_epoch) at runs))
    | inr more ↦ inr (some_inj (rw (new, more, start_new_epoch) at runs))
  ]
]

pub begun-Started :
    (pim : PimParams) (time k : ℕ) (h : PimHost)
    → Follows h.cur_epoch k
    → ((l : ℕ) (d : PimEpoch) → h.epochs l ≡ some d → h.cur_epoch ≡ some l)
    → Started k (begun pim time k h)
begun-Started pim time zero h follows current = record {
  only = λ l d found. elim (Bool-cases (0 == l)) [
    | inl this ↦ (time, ground arith, sym (some_inj (rw this at found)))
    | inr other ↦
        let next : 0 ≡ l + 1 = subst (λ c. Follows c 0) (current l d (rw other at found)) follows in
        absurd (omega arith)
  ];
  there = (fresh_epoch zero time h.iter_epoch, refl);
  cur = refl;
  evt = λ e next. ap (λ (e : NewEpochEvent). e.epoch) (sym (some_inj next));
}
begun-Started pim time (suc c) h follows current = record {
  only = λ l d found. elim (Bool-cases (c == l)) [
    | inl past ↦
        let bad : ◌≡◌ {A = Option PimEpoch} none (some d) = rw past at found in
        absurd (none_ne_some bad)
    | inr kept ↦ elim (Bool-cases (suc c == l)) [
      | inl this ↦ (time, ground arith, sym (some_inj (rw (kept, this) at found)))
      | inr other ↦
          let next : suc c ≡ l + 1 =
            subst (λ x. Follows x (suc c)) (current l d (rw (kept, other) at found)) follows in
          absurd (ground arith)
    ]
  ];
  there = (
    fresh_epoch (suc c) time h.iter_epoch,
    (let before : (c == suc c) ≡ false = ground arith in rw (before, ==_refl (suc c)) refl),
  );
  cur = refl;
  evt = λ e next. ap (λ (e : NewEpochEvent). e.epoch) (sym (some_inj next));
}

-- A statement on every host, from one on the others and one on this.
pub on_host :
    (i : ℕ) (h : PimHost) (hosts : ℕ → PimHost) (P : ℕ → PimHost → Type 0)
    → P i h
    → ((j : ℕ) → P j (hosts j))
    → (j : ℕ) → P j (set_host i h hosts j)
on_host i h hosts P here others j = elim (Bool-cases (i == j)) [
  | inr other ↦ rw other (others j)
  | inl this ↦
      let same : i ≡ j = ground arith in
      let self : h ≡ set_host i h hosts i = rw (==_refl i) refl in
      subst (λ (x : ℕ). P x (set_host i h hosts x)) same (subst (P i) self here)
]

module _ (s : System) (v : IsKept s) (i k : ℕ) (h : PimHost)
    (follows : Follows (s.hosts i).cur_epoch k) (started : Started k h) where
  abbrev after : System
  after = record s { hosts = set_host i h s.hosts }

  bounded_at : (l a : ℕ) → one_if (match_of (h.epochs l) a) ≡ 0
  bounded_at l a = elim (Option-cases (h.epochs l)) [
    | inl e ↦ rw e refl
    | inr (d, e) ↦ let (time, is_k, fresh) = started.only l d e in rw (e, fresh) refl
  ]

  pub start-IsKept : IsKept after
  start-IsKept = record {
    partner = v.partner;
    named = λ j l d found.
        on_host i h s.hosts (λ j h. h.epochs l ≡ some d → Named s.flows h (v.partner l j) j l d)
          (λ f.
            let (time, is_k, fresh) = started.only l d f in
            let ahead : is_begun (s.hosts i).cur_epoch l ≡ false =
              subst (λ m. is_begun (s.hosts i).cur_epoch m ≡ false) (sym is_k)
                (Follows-ahead (s.hosts i).cur_epoch k follows) in
            subst (λ x. Named s.flows h (v.partner l i) i l x) (sym fresh)
              (sym is_k, started.cur ∙ ap some (sym is_k), sym (v.later i l ahead), tt))
          (λ j f. v.named j l d f) j found;
    present = λ j l cur.
        on_host i h s.hosts (λ j h. h.cur_epoch ≡ some l → (d : PimEpoch) × (h.epochs l ≡ some d))
          (λ c.
            let is_k : k ≡ l = some_inj (sym started.cur ∙ c) in
            subst (λ m. (d : PimEpoch) × (h.epochs m ≡ some d)) is_k started.there)
          (λ j c. v.present j l c) j cur;
    later = λ j l ahead.
        on_host i h s.hosts (λ j h. is_begun h.cur_epoch l ≡ false → v.partner l j ≡ none)
          (λ a. v.later i l (
            Follows-begun (s.hosts i).cur_epoch k l follows
              (subst (λ c. is_begun c l ≡ false) started.cur a)))
          (λ j a. v.later j l a) j ahead;
    upcoming = λ j evt next.
        on_host i h s.hosts
          (λ j h.
            h.new_epoch_evt ≡ some evt → (c : ℕ) × (h.cur_epoch ≡ some c) × (evt.epoch ≡ c + 1))
          (λ e. (k, started.cur, started.evt evt e)) (λ j e. v.upcoming j evt e) j next;
    bounded = λ l a b.
        on_host i h s.hosts
          (λ b h.
            count (carries s.flows l a b) s.net + one_if (match_of (h.epochs l) a)
            ≤ one_if (is_host (v.partner l a) b))
          (omega (arith, bounded_at l a, v.bounded l a i)) (λ b. v.bounded l a b) b;
  }
