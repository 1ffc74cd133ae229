-- ===== src/Scheduler/Choice.antt =====
-- What `select_next_work_item` selects and rejects.
use dotclaude_ecosystem.Db.{Db, WorkItemRow}
use dotclaude_ecosystem.Scheduler.{
  judge, all_ready, Rejected, sort_out, triage, risk_weight, sort_before, choose,
  select_next_work_item,
}
use dotclaude_ecosystem.Scheduler.Runnable.{IsRunnable}
use dotclaude_ecosystem.Scheduler.Passing.{judge-IsRunnable, judge-runnable, runnable-listed}
use mathlib.Core.List.Memᴰ.{head, tail}
use dotclaude_ecosystem.Prelude.Members.{any-false, from_order_by, into_order_by}
use dotclaude_ecosystem.Prelude.Orders.{
  lex, lex-asym, lex_trans, IsSortKey, str_ltb-asym, str_ltb_trans, order_by-least,
}
use dotclaude_ecosystem.Prelude.{
  ℕ, ◌≤◌, String, ◌≡◌, refl, sym, ap, ◌∙◌, subst, inl, inr, false, none, some, List, [], ◌∷◌, arith,
  eqb, Option-cases, order_by, str_ltb, Memᴰ,
}

eqb_sym : (m n : ℕ) → eqb m n ≡ eqb n m
eqb_sym m n = ground arith

-- `sort_key` with both descending components in the order that `lex` compares them.
sort_before-lex :
    (a b : WorkItemRow)
    → sort_before a b
      ≡ lex b.priority a.priority (
          lex
            (risk_weight b.risk_class)
            (risk_weight a.risk_class)
            (lex a.created_at_utc b.created_at_utc (str_ltb a.work_item_id b.work_item_id)))
unfolding sort_before
sort_before-lex a b =
    rw
      (eqb_sym a.priority b.priority, eqb_sym (risk_weight a.risk_class) (risk_weight b.risk_class))
      refl

sort_before-IsSortKey : IsSortKey sort_before
sort_before-IsSortKey = record {
  asym = λ a b h.
      sort_before-lex b a
      ∙ lex-asym b.priority a.priority _ _
          (lex-asym (risk_weight b.risk_class) (risk_weight a.risk_class) _ _ (
            lex-asym a.created_at_utc b.created_at_utc _ _
              (str_ltb-asym a.work_item_id b.work_item_id)))
          (sym (sort_before-lex a b) ∙ h);
  trans = λ a b c h k.
      sort_before-lex c a
      ∙ lex_trans c.priority b.priority a.priority _ _ _
          (lex_trans (risk_weight c.risk_class) (risk_weight b.risk_class)
            (risk_weight a.risk_class) _ _ _
            (λ k h.
              lex_trans a.created_at_utc b.created_at_utc c.created_at_utc _ _ _
                (str_ltb_trans a.work_item_id b.work_item_id c.work_item_id) h k))
          (sym (sort_before-lex c b) ∙ k) (sym (sort_before-lex b a) ∙ h);
}

module _ (clock : WorkItemRow → ℕ) (db : Db) where
  from_triage :
      (ws : List WorkItemRow) (w : WorkItemRow)
      → Memᴰ w ((triage clock db ws).eligible)
      → Memᴰ w ws × (judge db (clock w) w ≡ none)
  unfolding triage
  from_triage [] w m = elim m [ ]
  from_triage (v ∷ vs) w m = elim (Option-cases (judge db (clock v) v)) [
    | inl e ↦
        kept (from_triage vs w) e
          (subst (λ o. Memᴰ w ((sort_out v o (triage clock db vs)).eligible)) e m)
    | inr (r, e) ↦
        later (
          from_triage vs w (subst (λ o. Memᴰ w ((sort_out v o (triage clock db vs)).eligible)) e m))
  ]
    where
      later :
          Memᴰ w vs × (judge db (clock w) w ≡ none)
          → Memᴰ w (v ∷ vs) × (judge db (clock w) w ≡ none)
      later (m, h) = (tail m, h)

      kept :
          (Memᴰ w ((triage clock db vs).eligible) → Memᴰ w vs × (judge db (clock w) w ≡ none))
          → judge db (clock v) v ≡ none
          → Memᴰ w (v ∷ (triage clock db vs).eligible)
          → Memᴰ w (v ∷ vs) × (judge db (clock w) w ≡ none)
      kept ih e (head h) = (head h, ap (λ x. judge db (clock x) x) h ∙ e)
      kept ih e (tail m) = later (ih m)

  into_triage :
      (ws : List WorkItemRow) (w : WorkItemRow)
      → Memᴰ w ws
      → judge db (clock w) w ≡ none
      → Memᴰ w ((triage clock db ws).eligible)
  unfolding triage
  into_triage [] w m h = elim m [ ]
  into_triage (v ∷ vs) w (head e) h = rw (ap (λ x. judge db (clock x) x) (sym e) ∙ h) (head e)
  into_triage (v ∷ vs) w (tail m) h = elim (Option-cases (judge db (clock v) v)) [
    | inl e ↦ rw e (tail (into_triage vs w m h))
    | inr (r, e) ↦ rw e (into_triage vs w m h)
  ]

choose-some :
    (ws : List WorkItemRow) (rs : List Rejected) (w : WorkItemRow)
    → (choose ws rs).selected ≡ some w
    → (vs : List WorkItemRow) × (ws ≡ w ∷ vs)
choose-some [] rs w h = cc
choose-some (v ∷ vs) rs w h = (vs, ap (λ x. x ∷ vs) (some-inj h))
  where
    some-inj : some v ≡ some w → v ≡ w
    some-inj h = cc h

choose-nonempty :
    (ws : List WorkItemRow) (rs : List Rejected) (v : WorkItemRow)
    → Memᴰ v ws
    → (w : WorkItemRow) × ((choose ws rs).selected ≡ some w)
choose-nonempty [] rs v m = elim m [ ]
choose-nonempty (w ∷ ws) rs v m = (w, refl)

-- What is selected is the head of the sorted list.
selected-head :
    (clock : WorkItemRow → ℕ) (repo : String) (db : Db) (w : WorkItemRow)
    → (select_next_work_item clock repo db).selected ≡ some w
    → (vs : List WorkItemRow) × (order_by sort_before
          ((triage clock db (all_ready repo db)).eligible)
        ≡ w ∷ vs)
unfolding select_next_work_item
selected-head clock repo db w h = choose-some _ _ w h

-- A selected work item is READY, of the repository asked for, has all its dependencies completed,
-- has a valid GO if its risk class is R2 or R3, and runs a heavy test suite only while no request
-- fills the pool host:heavy.
pub select-IsRunnable :
    (clock : WorkItemRow → ℕ) (repo : String) (db : Db) (w : WorkItemRow)
    → (select_next_work_item clock repo db).selected ≡ some w
    → IsRunnable db repo (clock w) w
select-IsRunnable clock repo db w h =
    let s = selected-head clock repo db w h in
    let t =
      from_triage clock db (all_ready repo db) w
        (from_order_by sort_before _ (subst (λ l. Memᴰ w l) (sym (s.1)) (head refl))) in
    judge-IsRunnable db repo (clock w) w (t.0) (t.1)

-- `w` comes no later than `v`: the higher priority first, then the riskier class, then the older
-- item, then the smaller id.
pub record IsServedBefore (w v : WorkItemRow) : Type 0 where
  pub by_priority : v.priority ≤ w.priority
  pub by_risk : v.priority ≡ w.priority → risk_weight v.risk_class ≤ risk_weight w.risk_class
  pub by_age :
      v.priority ≡ w.priority
      → risk_weight v.risk_class ≡ risk_weight w.risk_class
      → w.created_at_utc ≤ v.created_at_utc
  pub by_id :
      v.priority ≡ w.priority
      → risk_weight v.risk_class ≡ risk_weight w.risk_class
      → w.created_at_utc ≡ v.created_at_utc
      → str_ltb v.work_item_id w.work_item_id ≡ false

served_before : (v w : WorkItemRow) → sort_before v w ≡ false → IsServedBefore w v
unfolding sort_before
served_before v w h = record {
  by_priority = ground (arith, h);
  by_risk = λ e. ground (arith, h, e);
  by_age = λ e f. ground (arith, h, e, f);
  by_id = λ e f g. ground (arith, h, e, f, g);
}

-- No runnable work item has precedence over the selected one: by priority, then risk class, then
-- age, then id.
pub select-first :
    (clock : WorkItemRow → ℕ) (repo : String) (db : Db) (w v : WorkItemRow)
    → (select_next_work_item clock repo db).selected ≡ some w
    → IsRunnable db repo (clock v) v
    → IsServedBefore w v
select-first clock repo db w v h k =
    let s = selected-head clock repo db w h in
    served_before v w (
      any-false (λ x. sort_before x w) (order_by-least sort_before-IsSortKey _ w (s.0) (s.1))
        (into_triage clock db (all_ready repo db) v (runnable-listed db repo (clock v) v k)
          (judge-runnable db repo (clock v) v k)))

-- While a runnable work item waits, one is selected.
pub select-progress :
    (clock : WorkItemRow → ℕ) (repo : String) (db : Db) (v : WorkItemRow)
    → IsRunnable db repo (clock v) v
    → (w : WorkItemRow) × ((select_next_work_item clock repo db).selected ≡ some w)
      × IsRunnable db repo (clock w) w
unfolding select_next_work_item
select-progress clock repo db v k = chosen (
    choose-nonempty _ _ v (
      into_order_by sort_before _ (
        into_triage clock db (all_ready repo db) v (runnable-listed db repo (clock v) v k)
          (judge-runnable db repo (clock v) v k))))
  where
    chosen :
        (w : WorkItemRow) × ((select_next_work_item clock repo db).selected ≡ some w)
        → (w : WorkItemRow) × ((select_next_work_item clock repo db).selected ≡ some w)
          × IsRunnable db repo (clock w) w
    chosen (w, e) = (w, e, select-IsRunnable clock repo db w e)
