-- ===== src/Resources/Rounds.antt =====
-- The sweep's loop ends within its fuel.
use dotclaude_ecosystem.Db.{Db, HostResourceRequest}
use dotclaude_ecosystem.Session.{
  Result, ok, err, Host, Session, Tx, ◌>>=◌, pure, gets, on_row, continue,
}
use dotclaude_ecosystem.Session.Keeps.{
  Both, Keeps, Keeps-bind, Keeps-pure, Keeps-gets, Keeps-get_host, Keeps-on_row, Keeps-if,
}
use dotclaude_ecosystem.Resources.Rows.{oldest_before}
use dotclaude_ecosystem.Resources.Sweep.{
  Cutoffs, sweep_rows, sweep_rounds, verdict, candidates, sweepable, in_scope,
}
use dotclaude_ecosystem.Prelude.{
  ℕ, zero, suc, ◌+◌, ◌≤◌, ◌<◌, String, ◌≡◌, refl, sym, ap, ◌∙◌, subst, inl, inr, Bool, true, false,
  not, ◌&&◌, ◌||◌, Option, none, some, List, [], ◌∷◌, ◌++◌, arith, ltb, eqb, if◌then◌else◌, ltb→lt,
  Bool-cases, length, select, count, ◌==◌, eq_refl, mem_str, ==→≡,
}
use dotclaude_ecosystem.Prelude.Counts.{count-order_by, count-select-le}
use dotclaude_ecosystem.Resources.Ids.{ids_of, SameIds, auto_release-SameIds}

-- The ids that the sweep has yet to sweep.
abbrev left : List String → List String → ℕ
left swept ids = count (λ id. not (mem_str id swept)) ids

mem_str-snoc :
    (a b : String) (xs : List String) → mem_str a (xs ++ b ∷ []) ≡ (mem_str a xs || (a == b))
mem_str-snoc a b [] = ground arith
mem_str-snoc a b (x ∷ xs) = ground (arith, mem_str-snoc a b xs)

left-snoc-le :
    (id : String) (swept ids : List String) → left (swept ++ id ∷ []) ids ≤ left swept ids
unfolding count
left-snoc-le id swept [] = omega arith
left-snoc-le id swept (x ∷ xs) = ground (arith, left-snoc-le id swept xs, mem_str-snoc x id swept)

left-snoc :
    (id : String) (swept ids : List String)
    → mem_str id ids ≡ true
    → mem_str id swept ≡ false
    → left (swept ++ id ∷ []) ids < left swept ids
unfolding count
left-snoc id swept [] m new = cc
left-snoc id swept (x ∷ xs) m new = elim (Bool-cases (id == x)) [
  | inl e ↦
      let x_is : id ≡ x = ==→≡ id x e in
      let old : mem_str x swept ≡ false = subst (λ y. mem_str y swept ≡ false) x_is new in
      let now_in : mem_str x (swept ++ id ∷ []) ≡ true =
        mem_str-snoc x id swept
        ∙ subst (λ y. (mem_str x swept || (x == y)) ≡ true) (sym x_is) (rw (old, eq_refl) refl) in
      ground (arith, old, now_in, left-snoc-le id swept xs)
  | inr e ↦ ground (arith, left-snoc id swept xs (rw e at m) new, mem_str-snoc x id swept)
]

length-snoc : (x : String) (xs : List String) → length (xs ++ x ∷ []) ≡ length xs + 1
length-snoc x [] = omega arith
length-snoc x (y ∷ ys) = omega (arith, length-snoc x ys)

-- What is swept on top of `swept` was not swept before.
abbrev Progress : List String → List String → Result (List String) → Type 0
Progress ids swept (ok swept') =
    (left swept' ids + length swept' ≤ left swept ids + length swept)
    × (length swept ≤ length swept')
Progress ids swept (err e) = Unit

Progress-snoc :
    (ids swept : List String) (id : String) (r : Result (List String))
    → mem_str id ids ≡ true
    → mem_str id swept ≡ false
    → Progress ids (swept ++ id ∷ []) r
    → Progress ids swept r
Progress-snoc ids swept id (ok swept') m new h = (
  omega (arith, h.0, left-snoc id swept ids m new, length-snoc id swept),
  omega (arith, h.1, length-snoc id swept),
)
Progress-snoc ids swept id (err e) m new h = tt

record Advances (ids swept : List String) (m : Tx (List String)) : Type 0 where
  pub at : (host : Host) (s : Session) → Progress ids swept (m host s).0

module _ {ids swept : List String} where
  Advances-continue :
      {A : Type 0} (r : Result A) (k : A → Tx (List String)) (host : Host) (s : Session)
      → ((a : A) → Advances ids swept (k a))
      → Progress ids swept (continue r k host s).0
  Advances-continue (ok a) k host s h = (h a).at host s
  Advances-continue (err e) k host s h = tt

  Advances-bind :
      {A : Type 0} (m : Tx A) (k : A → Tx (List String))
      → ((a : A) → Advances ids swept (k a))
      → Advances ids swept (m >>= k)
  unfolding ◌>>=◌
  Advances-bind m k h = record {
    at = λ host s. let (r, t) = m host s in Advances-continue r k host t h;
  }

  Advances-gets :
      {A : Type 0} (f : Db → A) (k : A → Tx (List String))
      → ((db : Db) → Advances ids swept (k (f db)))
      → Advances ids swept (gets f >>= k)
  unfolding gets ◌>>=◌
  Advances-gets f k h = record { at = λ host s. (h s.db).at host s }

  Advances-on_row :
      {A : Type 0} (o : Option A) (absent : Tx (List String)) (present : A → Tx (List String))
      → Advances ids swept absent
      → ((a : A) → o ≡ some a → Advances ids swept (present a))
      → Advances ids swept (on_row o absent present)
  unfolding on_row
  Advances-on_row none absent present ha hp = ha
  Advances-on_row (some a) absent present ha hp = hp a refl

verdict-new :
    (c : Cutoffs) (host : Host) (time : ℕ) (swept : List String) (r : HostResourceRequest) (db : Db)
    (e : String)
    → verdict c host time swept r db ≡ some e
    → mem_str r.request_id swept ≡ false
unfolding verdict
verdict-new c host time swept r db e h = elim (Bool-cases (mem_str r.request_id swept)) [
  | inl m ↦ cc (rw m at h)
  | inr m ↦ m
]

abbrev foreign : List String → HostResourceRequest → Bool
foreign ids r = not (mem_str r.request_id ids)

sweep_rows-Advances :
    (c : Cutoffs) (time : ℕ) (dry_run : Bool) (actor : String) (ids : List String)
    (rows : List HostResourceRequest) (swept : List String)
    → count (foreign ids) rows ≡ 0
    → Advances ids swept (sweep_rows c time dry_run actor rows swept)
unfolding sweep_rows pure count
sweep_rows-Advances c time dry_run actor ids [] swept own = record {
  at = λ host s. (omega arith, omega arith);
}
sweep_rows-Advances c time dry_run actor ids (r ∷ rs) swept own =
    let mine : mem_str r.request_id ids ≡ true = ground (arith, own) in
    let others : count (foreign ids) rs ≡ 0 = omega (arith, own) in
    Advances-bind _ _ (λ host. Advances-gets _ _ (λ db.
      Advances-on_row (verdict c host time swept r db) _ _
        (sweep_rows-Advances c time dry_run actor ids rs swept others)
        (λ e n. Advances-bind _ _ (λ u. record {
          at = λ host' s.
              Progress-snoc ids swept r.request_id _ mine (verdict-new c host time swept r db e n) (
                (sweep_rows-Advances c time dry_run actor ids rs (swept ++ r.request_id ∷ [])
                    others).at
                  host' s);
        }))))

sweep_rows-SameIds :
    {ids : List String} (c : Cutoffs) (time : ℕ) (dry_run : Bool) (actor : String)
    (rows : List HostResourceRequest) (swept : List String)
    → Keeps (SameIds ids) (sweep_rows c time dry_run actor rows swept)
unfolding sweep_rows
sweep_rows-SameIds c time dry_run actor [] swept = Keeps-pure swept
sweep_rows-SameIds c time dry_run actor (r ∷ rs) swept = Keeps-bind _ _ Keeps-get_host (λ host.
    Keeps-bind _ _ (Keeps-gets _) (λ found.
      Keeps-on_row found _ _ (sweep_rows-SameIds c time dry_run actor rs swept) (λ e _.
        Keeps-bind _ _
          (Keeps-if dry_run _ _ (λ _. Keeps-pure tt) (λ _. auto_release-SameIds r e actor time))
          (λ _. sweep_rows-SameIds c time dry_run actor rs (swept ++ r.request_id ∷ [])))))

own_ids :
    (rows : List HostResourceRequest) (ids : List String)
    → ((id : String) → mem_str id (ids_of rows) ≡ true → mem_str id ids ≡ true)
    → count (foreign ids) rows ≡ 0
unfolding count
own_ids [] ids h = refl
own_ids (r ∷ rs) ids h =
    let mine : mem_str r.request_id ids ≡ true = h r.request_id (rw eq_refl refl) in
    let rest : count (foreign ids) rs ≡ 0 = own_ids rs ids (λ id k. h id (ground (arith, k))) in
    rw mine (omega (arith, rest))

candidates-own :
    (ids : List String) (include_active : Bool) (key : Option String) (db : Db)
    → SameIds ids db
    → count (foreign ids) (candidates include_active key db) ≡ 0
unfolding candidates
candidates-own ids include_active key db h = omega (
  arith,
  count-order_by oldest_before (foreign ids)
      (select (λ r. sweepable include_active r.state && in_scope key r) db.requests),
  count-select-le (foreign ids) (λ r. sweepable include_active r.state && in_scope key r)
      db.requests,
  own_ids db.requests ids (λ id k. subst (λ l. mem_str id l ≡ true) h k),
)

-- With fuel beyond what is left to sweep, one more round of fuel changes nothing.
sweep_rounds-enough :
    (fuel : ℕ) (c : Cutoffs) (time : ℕ) (dry_run : Bool) (actor : String) (include_active : Bool)
    (key : Option String) (swept ids : List String) (host : Host) (s : Session)
    → left swept ids < fuel
    → Both (SameIds ids) s
    → sweep_rounds (suc fuel) c time dry_run actor include_active key swept host s
      ≡ sweep_rounds fuel c time dry_run actor include_active key swept host s
unfolding sweep_rounds ◌>>=◌ gets
sweep_rounds-enough zero c time dry_run actor include_active key swept ids host s small h =
    absurd (omega (arith, small))
sweep_rounds-enough (suc fuel) c time dry_run actor include_active key swept ids host s small h =
    let rows : List HostResourceRequest = candidates include_active key s.db in
    step (sweep_rows c time dry_run actor rows swept host s).0
      (sweep_rows c time dry_run actor rows swept host s).1
      ((sweep_rows-Advances c time dry_run actor ids rows swept
          (candidates-own ids include_active key s.db h.0)).at
        host s)
      (λ swept' apart p.
        sweep_rounds-enough fuel c time dry_run actor include_active key swept' ids host _
          (omega (arith, small, p, apart))
          ((sweep_rows-SameIds c time dry_run actor rows swept).after host s h))
  where
    round : ℕ → List String → Tx (List String)
    round n swept' =
        let more = sweep_rounds n c time dry_run actor include_active key swept' in
        if eqb (length swept') (length swept) then pure swept' else more

    step :
        (r : Result (List String)) (t : Session)
        → Progress ids swept r
        → ((swept' : List String)
            → length swept < length swept'
            → left swept' ids + length swept' ≤ left swept ids + length swept
            → sweep_rounds (suc fuel) c time dry_run actor include_active key swept' host t
              ≡ sweep_rounds fuel c time dry_run actor include_active key swept' host t)
        → continue r (round (suc fuel)) host t ≡ continue r (round fuel) host t
    step (err e) t p again = refl
    step (ok swept') t p again = elim (Bool-cases (eqb (length swept') (length swept))) [
      | inl e ↦ rw e refl
      | inr e ↦
          let apart : length swept < length swept' = ground (arith, e, p.1) in
          rw e (again swept' apart p.0)
    ]

left-le : (swept ids : List String) → left swept ids ≤ length ids
unfolding count
left-le swept [] = omega arith
left-le swept (x ∷ xs) = ground (arith, left-le swept xs)

length-ids_of : (rows : List HostResourceRequest) → length (ids_of rows) ≡ length rows
length-ids_of [] = refl
length-ids_of (r ∷ rs) = omega (arith, length-ids_of rs)

more_fuel :
    (fuel : ℕ) (c : Cutoffs) (time : ℕ) (dry_run : Bool) (actor : String) (include_active : Bool)
    (key : Option String) (ids : List String) (host : Host) (s : Session)
    → length ids < fuel
    → Both (SameIds ids) s
    → sweep_rounds fuel c time dry_run actor include_active key [] host s
      ≡ sweep_rounds (suc (length ids)) c time dry_run actor include_active key [] host s
more_fuel zero c time dry_run actor include_active key ids host s big h =
    absurd (omega (arith, big))
more_fuel (suc n) c time dry_run actor include_active key ids host s big h =
    elim (Bool-cases (ltb (length ids) n)) [
      | inl e ↦
          let more : length ids < n = ltb→lt (length ids) n e in
          sweep_rounds-enough n c time dry_run actor include_active key [] ids host s
            (omega (arith, more, left-le [] ids)) h
          ∙ more_fuel n c time dry_run actor include_active key ids host s more h
      | inr e ↦
          let same : suc n ≡ suc (length ids) = ground (arith, e, big) in
          ap (λ f. sweep_rounds f c time dry_run actor include_active key [] host s) same
    ]

-- The sweep's loop never runs out of its fuel: in a transaction that has not yet written, every
-- larger fuel gives the same outcome and leaves the same database.
pub sweep_rounds-fuel :
    (fuel : ℕ) (c : Cutoffs) (time : ℕ) (dry_run : Bool) (actor : String) (include_active : Bool)
    (key : Option String) (host : Host) (s : Session)
    → s.committed ≡ s.db
    → suc (length s.db.requests) ≤ fuel
    → sweep_rounds fuel c time dry_run actor include_active key [] host s
      ≡ sweep_rounds (suc (length s.db.requests)) c time dry_run actor include_active key [] host s
sweep_rounds-fuel fuel c time dry_run actor include_active key host s unwritten big =
    let n : length (ids_of s.db.requests) ≡ length s.db.requests = length-ids_of s.db.requests in
    more_fuel fuel c time dry_run actor include_active key (ids_of s.db.requests) host s
      (omega (arith, big, n)) (refl, ap (λ d. ids_of d.requests) unwritten)
    ∙ ap (λ k. sweep_rounds (suc k) c time dry_run actor include_active key [] host s) n
