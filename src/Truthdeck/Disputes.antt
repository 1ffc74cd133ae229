-- ===== src/Truthdeck/Disputes.antt =====
-- Conflicting evidence, from the facts to the gates that `evaluate` returns.
use dotclaude_ecosystem.Truthdeck.{
  unknown, Stage, Fact, GateResult, NextAction, Value, null, boolean, number, negative, text,
  same_repr, usable,
}
use dotclaude_ecosystem.Truthdeck.Evaluate.{
  same_evidence, several, eligible_of, same_name, same_pair, pair_of, distinct_pairs, in_group,
  repo_label, conflict_label, find_conflicts, earliest_stage, repos_of, concat, gate_before,
}
use dotclaude_ecosystem.Truthdeck.Action.{final_gates, evaluate}
use dotclaude_ecosystem.Truthdeck.Evidence.{same_repr_refl, same_evidence_refl}
use dotclaude_ecosystem.Truthdeck.Proven.{conclude-some}
use dotclaude_ecosystem.Truthdeck.Conflicts.{is_plain, mark_conflicts-unknown}
use dotclaude_ecosystem.Prelude.Members.{into_select, any-false, from_order_by, into_order_by}
use mathlib.Core.List.Memᴰ.{head, tail}
use dotclaude_ecosystem.Prelude.{
  ℕ, String, ◌≡◌, refl, sym, ap, ◌∙◌, subst, inl, inr, Bool, true, false, not, Option, none, some,
  List, [], ◌∷◌, map, arith, Bool-cases, &&-left, &&-right, select, any, delete, ◌==◌, eq_refl,
  ==→≡, str_ltb, Memᴰ,
}

same_repr→≡ : (a b : Value) → same_repr a b ≡ true → a ≡ b
unfolding same_repr
same_repr→≡ null null h = refl
same_repr→≡ (boolean true) (boolean true) h = refl
same_repr→≡ (boolean false) (boolean false) h = refl
same_repr→≡ (number m) (number n) h = ap (λ k. number k) (ground (arith, h))
same_repr→≡ (negative m) (negative n) h = ap (λ k. negative k) (ground (arith, h))
same_repr→≡ (text s) (text t) h = ap (λ k. text k) (==→≡ s t h)
same_repr→≡ _ _ h = cc h

same_evidence_trans :
    (h x y : Fact) → same_evidence h x ≡ true → same_evidence h y ≡ true → same_evidence x y ≡ true
same_evidence_trans h x y a b =
    let (d, v) = equal h x a in
    let (e, w) = equal h y b in rw (sym d, sym e, sym v, sym w, eq_refl, same_repr_refl) refl
  where
    equal :
        (a b : Fact)
        → same_evidence a b ≡ true
        → (a.evidence_sha256 ≡ b.evidence_sha256) × (a.value ≡ b.value)
    equal a b h = (
      ==→≡ a.evidence_sha256 b.evidence_sha256
          (&&-left (a.evidence_sha256 == b.evidence_sha256) (same_repr a.value b.value) h),
      same_repr→≡ a.value b.value
          (&&-right (a.evidence_sha256 == b.evidence_sha256) (same_repr a.value b.value) h),
    )

-- Where no fact differs from the first one, all agree with it.
like_first :
    (h x : Fact) (xs : List Fact)
    → any (λ y. not (same_evidence h y)) xs ≡ false
    → Memᴰ x (h ∷ xs)
    → same_evidence h x ≡ true
like_first h x xs none_differs (head e) =
    subst (λ z. same_evidence h z ≡ true) (sym e) (same_evidence_refl h)
like_first h x xs none_differs (tail m) =
    ground (arith, any-false (λ y. not (same_evidence h y)) none_differs m)

several-two :
    (x y : Fact) (xs : List Fact)
    → Memᴰ x xs
    → Memᴰ y xs
    → same_evidence x y ≡ false
    → several xs ≡ true
unfolding several
several-two x y [] m n differ = elim m [ ]
several-two x y (h ∷ xs) m n differ = elim (Bool-cases (any (λ z. not (same_evidence h z)) xs)) [
  | inl e ↦ e
  | inr e ↦ cc (same_evidence_trans h x y (like_first h x xs e m) (like_first h y xs e n), differ)
]

same_name→≡ : (a b : Option String) → same_name a b ≡ true → a ≡ b
same_name→≡ none none h = refl
same_name→≡ (some a) (some b) h = ap (λ k. some k) (==→≡ a b h)
same_name→≡ _ _ h = cc h

same_pair→≡ : (p q : Option String × String) → same_pair p q ≡ true → p ≡ q
same_pair→≡ (r, k) (s, l) h =
    let names : r ≡ s = same_name→≡ r s (&&-left (same_name r s) (k == l) h) in
    let keys : k ≡ l = ==→≡ k l (&&-right (same_name r s) (k == l) h) in rw (names, keys) refl

same_pair_refl : (p : Option String × String) → same_pair p p ≡ true
same_pair_refl (none, k) = eq_refl k
same_pair_refl (some r, k) = rw (eq_refl r, eq_refl k) refl

into_delete :
    (p : Option String × String → Bool) (x : Option String × String)
    (xs : List (Option String × String))
    → Memᴰ x xs
    → p x ≡ false
    → Memᴰ x (delete p xs)
unfolding delete
into_delete p x [] m h = elim m [ ]
into_delete p x (y ∷ ys) (head e) h = rw (sym (ap p e) ∙ h) (head e)
into_delete p x (y ∷ ys) (tail m) h = elim (Bool-cases (p y)) [
  | inl e ↦ rw e (into_delete p x ys m h)
  | inr e ↦ rw e (tail (into_delete p x ys m h))
]

pair-listed : (x : Fact) (xs : List Fact) → Memᴰ x xs → Memᴰ (pair_of x) (distinct_pairs xs)
unfolding distinct_pairs
pair-listed x [] m = elim m [ ]
pair-listed x (y ∷ ys) (head e) = head (ap (λ z. pair_of z) e)
pair-listed x (y ∷ ys) (tail m) = elim (Bool-cases (same_pair (pair_of y) (pair_of x))) [
  | inl e ↦ head (sym (same_pair→≡ (pair_of y) (pair_of x) e))
  | inr e ↦
      tail
        (into_delete (same_pair (pair_of y)) (pair_of x) (distinct_pairs ys) (pair-listed x ys m) e)
]

into_map : {A B : Type 0} (f : A → B) (x : A) (xs : List A) → Memᴰ x xs → Memᴰ (f x) (map f xs)
into_map f x [] m = elim m [ ]
into_map f x (y ∷ ys) (head e) = head (ap f e)
into_map f x (y ∷ ys) (tail m) = tail (into_map f x ys m)

-- Two usable facts of one repository and key that differ are a conflict.
pub find_conflicts-listed :
    (tuple_str : Option String × String → String) (facts : List Fact) (x y : Fact)
    → Memᴰ x facts
    → Memᴰ y facts
    → usable x.state ≡ true
    → usable y.state ≡ true
    → pair_of x ≡ pair_of y
    → same_evidence x y ≡ false
    → Memᴰ (conflict_label (pair_of x)) (find_conflicts tuple_str facts)
unfolding find_conflicts
find_conflicts-listed tuple_str facts x y m n u v same differ =
    into_map conflict_label (pair_of x) _ (
      into_select (λ p. several (select (in_group p) (eligible_of facts)))
        (into_order_by (λ p q. str_ltb (tuple_str p) (tuple_str q)) _
          (pair-listed x (eligible_of facts) x_in))
        (several-two x y (select (in_group (pair_of x)) (eligible_of facts))
          (into_select (in_group (pair_of x)) x_in (same_pair_refl (pair_of x)))
          (into_select (in_group (pair_of x)) y_in
            (subst (λ p. same_pair (pair_of x) p ≡ true) same (same_pair_refl (pair_of x))))
          differ))
  where
    x_in : Memᴰ x (eligible_of facts)
    x_in = into_select (λ z. usable z.state) m u

    y_in : Memᴰ y (eligible_of facts)
    y_in = into_select (λ z. usable z.state) n v

-- Where two usable facts of one repository and key differ in digest or value, every gate of that
-- repository for the earliest required stage that `evaluate` returns is UNKNOWN, if the name of the
-- repository holds no colon.
pub evaluate-unknown :
    (tuple_str : Option String × String → String) (facts : List Fact) (s : Stage)
    (required : List Stage) (now : Option ℕ) (violation : Bool) (repo_order : List String)
    (gates : List GateResult) (action : NextAction) (g : GateResult) (x y : Fact)
    → evaluate tuple_str facts (s ∷ required) now violation repo_order ≡ some (gates, action)
    → Memᴰ x facts
    → Memᴰ y facts
    → usable x.state ≡ true
    → usable y.state ≡ true
    → pair_of x ≡ pair_of y
    → same_evidence x y ≡ false
    → is_plain (repo_label x.repo_id) ≡ true
    → Memᴰ g gates
    → g.repo_id ≡ x.repo_id
    → g.stage ≡ earliest_stage s required
    → g.state ≡ unknown
unfolding evaluate
evaluate-unknown tuple_str facts s required now violation repo_order gates action g x y h m n u v
      same differ plain listed repo stage =
    reported (
      conclude-some tuple_str facts (s ∷ required) violation (repos_of facts repo_order) _ gates
        action h)
  where
    repos : List (Option String)
    repos = repos_of facts repo_order

    reported :
        {o : Option (List (List GateResult))}
        → (gss : List (List GateResult)) × (o ≡ some gss)
          × (final_gates tuple_str facts (s ∷ required) repos (concat gss) ≡ gates)
        → g.state ≡ unknown
    reported (gss, e, q) =
        mark_conflicts-unknown x.repo_id x.key (find_conflicts tuple_str facts) s required
          (concat gss) g (find_conflicts-listed tuple_str facts x y m n u v same differ) plain
          (from_order_by (gate_before repos) _ (subst (λ l. Memᴰ g l) (sym q) listed)) repo stage
