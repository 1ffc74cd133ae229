-- ===== src/Truthdeck/Evaluate.antt =====
-- From facts to gates in `evaluate`: freshness, the index of facts, conflicts and the orders.
use Prim.Native.String.{[] as empty, ◌∷◌ as char, ◌++◌ as append}
use Prim.Native.Char.{code}
use dotclaude_ecosystem.Model.{Stamp, at, unreadable}
use dotclaude_ecosystem.Truthdeck.{
  stale, conflict, unknown, Stage, stage_index, evidence_conflict, null, same_repr, Fact,
  GateResult, usable, Index,
}
use dotclaude_ecosystem.Truthdeck.Gates.{repo_gates}
use dotclaude_ecosystem.Prelude.{
  ℕ, suc, String, Bool, true, false, not, ◌&&◌, ◌||◌, Option, none, some, List, [], ◌∷◌, ◌++◌, map,
  ltb, leb, eqb, if◌then◌else◌, length, select, any, update, delete, order_by, ◌==◌, str_ltb,
  mem_str,
}

abbrev pub freshened : ℕ → Fact → Option Stamp → Option Fact
freshened now fact none = some fact
freshened now fact (some (at t)) = some (if leb t now then record fact { state = stale } else fact)
freshened now fact (some unreadable) = none

-- `_freshen`; `none` is the error of `parse_utc`.
unfoldable pub freshen : Option ℕ → Fact → Option Fact
freshen none fact = some fact
freshen (some now) fact = freshened now fact fact.fresh_until_utc

abbrev pub prepend {ℓ} : {B : Type ℓ} → Option B → Option (List B) → Option (List B)
prepend none ys = none
prepend (some y) none = none
prepend (some y) (some ys) = some (y ∷ ys)

-- `tuple(f(x) for x in xs)`, where `f` may raise.
unfoldable pub each {ℓ} : {A B : Type ℓ} → (A → Option B) → List A → Option (List B)
each f [] = some []
each f (x ∷ xs) = prepend (f x) (each f xs)

abbrev pub same_evidence : Fact → Fact → Bool
same_evidence a b = (a.evidence_sha256 == b.evidence_sha256) && same_repr a.value b.value

-- Whether the set of the pairs of digest and value has more than one element.
unfoldable pub several : List Fact → Bool
unfolding same_repr
several [] = false
several (x ∷ xs) = any (λ y. not (same_evidence x y)) xs

abbrev pub eligible_of : List Fact → List Fact
eligible_of facts = select (λ x. usable x.state) facts

abbrev pub last_of : Fact → List Fact → Fact
last_of x [] = x
last_of x (y ∷ ys) = last_of y ys

-- What stands for the facts of one key, the first of them apart.
abbrev pub agreed : Fact → List Fact → List Fact → Fact
agreed x xs [] = last_of x xs
agreed x xs (e ∷ es) = if several (e ∷ es) then record e { value = null; state = conflict } else e

abbrev pub resolve_group : List Fact → Option Fact
resolve_group [] = none
resolve_group (x ∷ xs) = some (agreed x xs (eligible_of (x ∷ xs)))

-- `_resolve_index`
unfoldable pub resolve_index : List Fact → Index
unfolding several
resolve_index facts key = resolve_group (select (λ x. x.key == key) facts)

-- Equality of two optional names.
abbrev pub same_name : Option String → Option String → Bool
same_name none none = true
same_name (some a) (some b) = a == b
same_name _ _ = false

-- `f.repo_id in {repo, None}`
unfoldable pub concerns : Option String → Fact → Bool
concerns repo fact = same_name fact.repo_id repo || same_name fact.repo_id none

abbrev pub gates_from : Option String → Option (List Fact) → Option (List GateResult)
gates_from repo none = none
gates_from repo (some fresh) = repo_gates (resolve_index fresh) repo

-- The gates of one repository.
unfoldable pub gates_of : Option ℕ → List Fact → Option String → Option (List GateResult)
unfolding freshen each resolve_index repo_gates concerns
gates_of now facts repo = gates_from repo (each (freshen now) (select (concerns repo) facts))

abbrev pub add_new : Option String → List String → List String
add_new none xs = xs
add_new (some a) xs = if (a == "") || mem_str a xs then xs else a ∷ xs

-- `{f.repo_id for f in fact_list if f.repo_id}`, in some order.
unfoldable pub observed_repos : List Fact → List String
observed_repos [] = []
observed_repos (x ∷ xs) = add_new x.repo_id (observed_repos xs)

-- The repositories in the order asked for, then the others sorted; `none` alone where there are
-- none.
unfoldable pub ordered_repos : List String → List String → List String
ordered_repos repo_order seen =
    let named = select (λ r. mem_str r seen) repo_order in
    named ++ order_by str_ltb (select (λ r. not (mem_str r named)) seen)

abbrev pub or_none : List String → List (Option String)
or_none [] = none ∷ []
or_none (r ∷ rs) = map some (r ∷ rs)

unfoldable pub repos_of : List Fact → List String → List (Option String)
unfolding observed_repos ordered_repos
repos_of facts repo_order = or_none (ordered_repos repo_order (observed_repos facts))

abbrev pub concat {ℓ} : {A : Type ℓ} → List (List A) → List A
concat [] = []
concat (xs ∷ xss) = xs ++ concat xss

abbrev pub same_pair : Option String × String → Option String × String → Bool
same_pair (r, k) (s, l) = same_name r s && (k == l)

abbrev pub pair_of : Fact → Option String × String
pair_of x = (x.repo_id, x.key)

-- The keys of the dictionary of groups, in the order of their first facts.
unfoldable pub distinct_pairs : List Fact → List (Option String × String)
distinct_pairs [] = []
distinct_pairs (x ∷ xs) = pair_of x ∷ delete (same_pair (pair_of x)) (distinct_pairs xs)

abbrev pub in_group : Option String × String → Fact → Bool
in_group p x = same_pair p (pair_of x)

-- f"{repo or 'global'}"
abbrev pub repo_label : Option String → String
repo_label none = "global"
repo_label (some r) = if r == "" then "global" else r

abbrev pub conflict_label : Option String × String → String
conflict_label (r, k) = append (repo_label r) (append ":" k)

-- `tuple_str` is Python's `str` of a pair.
unfoldable pub find_conflicts : (Option String × String → String) → List Fact → List String
unfolding several distinct_pairs
find_conflicts tuple_str facts =
    let chosen = eligible_of facts in
    map conflict_label (
      select (λ p. several (select (in_group p) chosen))
        (order_by (λ p q. str_ltb (tuple_str p) (tuple_str q)) (distinct_pairs chosen)))

-- `item.split(":", 1)[0]`
unfoldable pub before_colon : String → String
before_colon empty = ""
before_colon (char c s) = let rest = before_colon s in if eqb (code c) 58 then "" else char c rest

abbrev pub mem_stage : Stage → List Stage → Bool
mem_stage s ts = any (λ t. eqb (stage_index s) (stage_index t)) ts

-- `min(required, key=STAGE_ORDER.index)`
unfoldable pub earliest_stage : Stage → List Stage → Stage
unfolding stage_index
earliest_stage s [] = s
earliest_stage s (t ∷ ts) = earliest_stage (if ltb (stage_index t) (stage_index s) then t else s) ts

abbrev pub conflicted : List String → GateResult → GateResult
conflicted conflicts g = record g {
  state = unknown;
  reason_codes = evidence_conflict ∷ [];
  evidence_keys = conflicts;
  detail = "Eligible evidence sources conflict.";
}

abbrev pub is_affected : List String → GateResult → Bool
is_affected affected g = mem_str "global" affected || mem_str (repo_label g.repo_id) affected

-- The gates of the earliest required stage, where their repository has conflicts.
unfoldable pub mark_conflicts : List String → List Stage → List GateResult → List GateResult
unfolding earliest_stage before_colon stage_index
mark_conflicts [] required gates = gates
mark_conflicts conflicts [] gates = gates
mark_conflicts (c ∷ cs) (s ∷ ss) gates =
    update
      (λ g.
        eqb (stage_index g.stage) (stage_index (earliest_stage s ss))
        && is_affected (map before_colon (c ∷ cs)) g)
      (conflicted (c ∷ cs)) gates

-- `{repo: index for index, repo in enumerate(repos)}.get(repo, default)`, counted from `n`.
unfoldable pub repo_rank : ℕ → List (Option String) → Option String → ℕ → ℕ
repo_rank n [] r default = default
repo_rank n (x ∷ xs) r default = repo_rank (suc n) xs r (if same_name x r then n else default)

abbrev pub distinct_names : List (Option String) → List (Option String)
distinct_names [] = []
distinct_names (x ∷ xs) = x ∷ delete (same_name x) (distinct_names xs)

-- `repo_rank.get(repo, len(repo_rank))`
abbrev pub rank_in : List (Option String) → Option String → ℕ
rank_in repos r = repo_rank 0 repos r (length (distinct_names repos))

unfoldable pub gate_before : List (Option String) → GateResult → GateResult → Bool
unfolding repo_rank stage_index
gate_before repos a b =
    ltb (rank_in repos a.repo_id) (rank_in repos b.repo_id)
    || eqb (rank_in repos a.repo_id) (rank_in repos b.repo_id)
      && ltb (stage_index a.stage) (stage_index b.stage)
