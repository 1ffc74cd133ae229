-- ===== src/Truthdeck/Conflicts.antt =====
-- Where evidence conflicts, the earliest required gate of the repository is held open.
use Prim.Native.String.{[] as empty, ◌∷◌ as char, ◌++◌ as append}
use Prim.Native.String.append as Append
use Prim.Native.Char.{Char, code}
use dotclaude_ecosystem.Truthdeck.{unknown, Stage, stage_index, GateResult}
use dotclaude_ecosystem.Truthdeck.Evaluate.{
  before_colon, earliest_stage, conflicted, mark_conflicts, repo_label, conflict_label,
}
use mathlib.Core.List.Memᴰ.{head, tail}
use dotclaude_ecosystem.Prelude.{
  ℕ, String, ◌≡◌, refl, sym, ap, ◌∙◌, subst, inl, inr, Bool, true, false, not, ◌&&◌, ◌||◌, Option,
  List, [], ◌∷◌, map, arith, eqb, if◌then◌else◌, Bool-cases, update, ◌==◌, eq_refl, mem_str, Memᴰ,
}

-- A text without a colon.
unfoldable pub is_plain : String → Bool
is_plain empty = true
is_plain (char c s) = let rest = is_plain s in not (eqb (code c) 58) && rest

before_colon-colon : (c : Char) (k : String) → eqb (code c) 58 ≡ true → before_colon (char c k) ≡ ""
unfolding before_colon
before_colon-colon c k e = rw e refl

before_colon-other :
    (c : Char) (k : String)
    → eqb (code c) 58 ≡ false
    → before_colon (char c k) ≡ char c (before_colon k)
unfolding before_colon
before_colon-other c k e = rw e refl

abbrev colon : Char
colon = ":"

before_colon-label : (s k : String) → is_plain s ≡ true → before_colon (append s (append ":" k)) ≡ s
unfolding is_plain
before_colon-label empty k h =
    ap before_colon (Append.nil (append ":" k) ∙ Append.cons colon empty k)
    ∙ before_colon-colon colon (append empty k) refl
before_colon-label (char c s) k h = elim (Bool-cases (eqb (code c) 58)) [
  | inl e ↦ cc (rw e at h)
  | inr e ↦
      ap before_colon (Append.cons c s (append ":" k))
      ∙ before_colon-other c (append s (append ":" k)) e
      ∙ ap (λ t. char c t) (before_colon-label s k (rw e at h))
]

mem_str-map :
    (x : String) (xs : List String)
    → Memᴰ x xs
    → mem_str (before_colon x) (map before_colon xs) ≡ true
mem_str-map x [] m = elim m [ ]
mem_str-map x (y ∷ ys) (head e) =
    rw (subst (λ z. (before_colon x == before_colon z) ≡ true) e (eq_refl (before_colon x))) refl
mem_str-map x (y ∷ ys) (tail m) = ground (arith, mem_str-map x ys m)

update-hit :
    (p : GateResult → Bool) (conflicts : List String) (gs : List GateResult) (g : GateResult)
    → ((y : GateResult) → p (conflicted conflicts y) ≡ p y)
    → Memᴰ g (update p (conflicted conflicts) gs)
    → p g ≡ true
    → g.state ≡ unknown
unfolding update
update-hit p conflicts [] g q m h = elim m [ ]
update-hit p conflicts (x ∷ xs) g q m h = step (update-hit p conflicts xs g q) (p x) refl m
  where
    step :
        (Memᴰ g (update p (conflicted conflicts) xs) → p g ≡ true → g.state ≡ unknown)
        → (b : Bool) → p x ≡ b
        → Memᴰ g ((if b then conflicted conflicts x else x) ∷ update p (conflicted conflicts) xs)
        → g.state ≡ unknown
    step ih true e (head k) = ap (λ v. v.state) k
    step ih false e (head k) = cc (sym h ∙ ap p k ∙ e)
    step ih b e (tail k) = ih k h

-- A listed conflict of a repository whose name has no colon reaches its gate of the earliest required
-- stage: the label of a conflict is split at its first colon.
pub mark_conflicts-unknown :
    (repo : Option String) (key : String) (conflicts : List String) (s : Stage)
    (required : List Stage) (gates : List GateResult) (g : GateResult)
    → Memᴰ (conflict_label (repo, key)) conflicts
    → is_plain (repo_label repo) ≡ true
    → Memᴰ g (mark_conflicts conflicts (s ∷ required) gates)
    → g.repo_id ≡ repo
    → g.stage ≡ earliest_stage s required
    → g.state ≡ unknown
unfolding mark_conflicts stage_index
mark_conflicts-unknown repo key [] s required gates g c plain m r e = elim c [ ]
mark_conflicts-unknown repo key (l ∷ ls) s required gates g c plain m r e =
    update-hit _ (l ∷ ls) gates g (λ y. refl) m
      (both _ _ (same_stage g.stage (earliest_stage s required) e) (
        or-right _ _ (
          subst (λ o. mem_str (repo_label o) (map before_colon (l ∷ ls)) ≡ true) (sym r)
            (subst (λ t. mem_str t (map before_colon (l ∷ ls)) ≡ true)
              (before_colon-label (repo_label repo) key plain)
              (mem_str-map (conflict_label (repo, key)) (l ∷ ls) c)))))
  where
    both : (a b : Bool) → a ≡ true → b ≡ true → a && b ≡ true
    both a b h k = ground (arith, h, k)

    or-right : (a b : Bool) → b ≡ true → a || b ≡ true
    or-right a b h = ground (arith, h)

    same_stage : (a b : Stage) → a ≡ b → eqb (stage_index a) (stage_index b) ≡ true
    same_stage a b e =
        subst (λ x. eqb (stage_index a) (stage_index x) ≡ true) e (eqb_refl (stage_index a))
      where
        eqb_refl : (n : ℕ) → eqb n n ≡ true
        eqb_refl n = ground arith
