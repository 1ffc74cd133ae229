-- ===== src/Resources/Quota/Updates.antt =====
-- How the writes of the manager move the quotas.
use dotclaude_ecosystem.Db.{HostResourceRequestState, HostResourceRequest, HostResourcePool}
use dotclaude_ecosystem.Prelude.Counts.{
  count-snoc, count-update-le, count-update_same, count-update-add, count-update-add_where,
  count-split-le, any-false→count,
}
use dotclaude_ecosystem.Resources.Rows.{is_active, is_inherited, has_id}
use dotclaude_ecosystem.Resources.Quota.{Quota, pool, slot, source, uses, bound, RowsFit}
use dotclaude_ecosystem.Prelude.{
  ◌<◌, ◌≡◌, ap, subst, inl, inr, Bool, true, false, not, ◌&&◌, ◌||◌, List, [], ◌∷◌, ◌++◌, arith,
  Bool-cases, any, count, update, ◌==◌, ==→≡,
}

-- At work: active, or running under a parent's lease.
abbrev pub at_work : HostResourceRequestState → Bool
at_work s = is_active s || is_inherited s

pub uses-at_work : (q : Quota) (r : HostResourceRequest) → uses q r ≡ true → at_work r.state ≡ true
uses-at_work (pool key) r h = ground (arith, h)
uses-at_work (slot key name) r h = ground (arith, h)
uses-at_work (source name) r h = ground (arith, h)

module _ {pools : List HostResourcePool} {rows : List HostResourceRequest}
    (fit : RowsFit pools rows) where
  -- Rows that stop working use nothing up.
  pub RowsFit-demote :
      (p : HostResourceRequest → Bool) (f : HostResourceRequest → HostResourceRequest)
      → ((r : HostResourceRequest) → (f r).request_id ≡ r.request_id)
      → ((r : HostResourceRequest) → at_work (f r).state ≡ false)
      → RowsFit pools (update p f rows)
  RowsFit-demote p f same idle = record {
    unique = λ id.
        rw (count-update_same (has_id id) p f rows (λ r _. ap (λ x. x == id) (same r)))
          (fit.unique id);
    bounded = λ q. omega (
      arith,
      fit.bounded q,
      count-update-le (uses q) p f rows (λ r _ h. cc (uses-at_work q (f r) h, idle r)),
    );
  }

  -- An update that no quota looks at.
  pub RowsFit-annotate :
      (p : HostResourceRequest → Bool) (f : HostResourceRequest → HostResourceRequest)
      → ((r : HostResourceRequest) → (f r).request_id ≡ r.request_id)
      → ((q : Quota) (r : HostResourceRequest) → uses q (f r) ≡ uses q r)
      → RowsFit pools (update p f rows)
  RowsFit-annotate p f same keep = record {
    unique = λ id.
        rw (count-update_same (has_id id) p f rows (λ r _. ap (λ x. x == id) (same r)))
          (fit.unique id);
    bounded = λ q. rw (count-update_same (uses q) p f rows (λ r _. keep q r)) (fit.bounded q);
  }

  -- A new row with a fresh id, where there is room in every quota that it uses.
  pub RowsFit-snoc :
      (r : HostResourceRequest)
      → any (has_id r.request_id) rows ≡ false
      → ((q : Quota) → uses q r ≡ true → count (uses q) rows < bound pools q)
      → RowsFit pools (rows ++ r ∷ [])
  RowsFit-snoc r fresh room = record {
    unique = λ id. rw count-snoc (elim (Bool-cases (r.request_id == id)) [
      | inl e ↦ rw e (
          omega (
            arith,
            subst (λ x. count (has_id x) rows ≡ 0) (==→≡ r.request_id id e)
                (any-false→count (has_id r.request_id) rows fresh),
          ))
      | inr e ↦ rw e (omega (arith, fit.unique id))
    ]);
    bounded = λ q. rw count-snoc (elim (Bool-cases (uses q r)) [
      | inl e ↦ rw e (omega (arith, room q e))
      | inr e ↦ rw e (omega (arith, fit.bounded q))
    ]);
  }

  -- One row goes to work, where there is room in every quota that it then uses. `t` is what is
  -- known of the row by the query that found it.
  pub RowsFit-activate :
      (f : HostResourceRequest → HostResourceRequest) (t : HostResourceRequest → Bool)
      (r : HostResourceRequest)
      → ((x : HostResourceRequest) → (f x).request_id ≡ x.request_id)
      → ((q : Quota) (x : HostResourceRequest) → t x ≡ true → uses q (f x) ≡ uses q (f r))
      → 0 < count (λ x. has_id r.request_id x && t x) rows
      → ((q : Quota) → uses q (f r) ≡ true → count (uses q) rows < bound pools q)
      → RowsFit pools (update (has_id r.request_id) f rows)
  RowsFit-activate f t r same alike there room = record {
    unique = λ id.
        rw
          (count-update_same (has_id id) (has_id r.request_id) f rows
            (λ x _. ap (λ y. y == id) (same x)))
          (fit.unique id);
    bounded = λ q. elim (Bool-cases (uses q (f r))) [
      | inl e ↦ omega (
        arith,
        room q e,
        fit.unique r.request_id,
        count-update-add (uses q) (has_id r.request_id) f rows,
      )
      | inr e ↦ omega (
        arith,
        there,
        fit.bounded q,
        fit.unique r.request_id,
        count-split-le (has_id r.request_id) (λ x. not (t x)) t rows (λ x h. ground (arith, h)),
        count-update-add_where (uses q) (has_id r.request_id) (λ x. not (t x)) f rows
            (λ x _ h. other_row q x e h),
      )
    ];
  }
    where
      other_row :
          (q : Quota) (x : HostResourceRequest)
          → uses q (f r) ≡ false
          → uses q (f x) ≡ true
          → not (t x) ≡ true
      other_row q x e h = elim (Bool-cases (t x)) [ inl k ↦ cc (e, h, alike q x k) | inr k ↦ rw k ]
