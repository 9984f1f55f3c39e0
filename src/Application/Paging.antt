-- ===== src/Application/Paging.antt =====
-- src/application-domain.ts: what the pages of `authorization.grant.list` hold together.
use agent_task_orchestrator.Base.{
  Text, ℕ, zero, suc, ◌≤◌, ◌<◌, ◌≡◌, refl, ap, sym, ◌∙◌, true, false, ◌&&◌, List, [], ◌∷◌, ◌++◌,
  Option, none, some, arith, before, before_trans, before_irrefl, before_asym, keep, sort, map,
  length, ltb, is_unique, All, IsStrict, sort-IsStrict, keep-sort, keep-keep, is_unique-keep,
  All-sort, Bool-cases, inl, inr,
}
use agent_task_orchestrator.Authorization.Grants.{AuthorizationGrant}
use agent_task_orchestrator.Application.Model.{ApplicationState}
use agent_task_orchestrator.Application.Grants.{
  grant_key, actor_of, is_after, is_listed, matches, take, last, list_grants,
}

-- Every key of the list stands behind a key.
abbrev AreBehind : Text → List AuthorizationGrant → Type 0
AreBehind k gs = All (λ g. before k g.grant_id ≡ true) gs

take_all : (n : ℕ) (gs : List AuthorizationGrant) → ltb n (length gs) ≡ false → take n gs ≡ gs
take_all zero [] h = refl
take_all zero (g ∷ gs) h = absurd (ground arith)
take_all (suc n) [] h = refl
take_all (suc n) (g ∷ gs) h =
    ap (λ (l : List AuthorizationGrant). g ∷ l) (take_all n gs (ground arith))

keep_all_behind :
    (k : Text) (gs : List AuthorizationGrant) → AreBehind k gs → keep (is_after (some k)) gs ≡ gs
keep_all_behind k [] h = refl
keep_all_behind k (g ∷ gs) h =
    rw h.0 (ap (λ (l : List AuthorizationGrant). g ∷ l) (keep_all_behind k gs h.1))

-- A page that is not the last: its cursor, which is a key of the list, and what is behind it.
record IsSplit (n : ℕ) (gs : List AuthorizationGrant) : Type 0 where
  cursor : Text
  at_end : last (take (suc n) gs) ≡ some cursor
  behind : (k : Text) → AreBehind k gs → before k cursor ≡ true
  joined : gs ≡ take (suc n) gs ++ keep (is_after (some cursor)) gs

split :
    (n : ℕ) (gs : List AuthorizationGrant)
    → IsStrict grant_key gs
    → ltb (suc n) (length gs) ≡ true
    → IsSplit n gs
split n [] h k = absurd (ground arith)
split n (g ∷ []) h k = absurd (ground arith)
split zero (g ∷ g' ∷ gs) h k = record {
  cursor = g.grant_id;
  at_end = refl;
  behind = λ k' b. b.0;
  joined = rw (before_irrefl g.grant_id) (
      ap (λ (l : List AuthorizationGrant). g ∷ l) (sym (keep_all_behind g.grant_id (g' ∷ gs) h.0)));
}
split (suc n) (g ∷ g' ∷ gs) h k =
    let rest = split n (g' ∷ gs) h.1 (ground arith) in
    let ahead : before g.grant_id rest.cursor ≡ true = rest.behind g.grant_id h.0 in
    let out : before rest.cursor g.grant_id ≡ false =
      before_asym (λ (s : Text). s) rest.cursor g.grant_id ahead in
    record {
      cursor = rest.cursor;
      at_end = rest.at_end;
      behind = λ k' b. rest.behind k' b.1;
      joined = rw out (ap (λ (l : List AuthorizationGrant). g ∷ l) rest.joined);
    }

append_empty : (gs : List AuthorizationGrant) → gs ≡ gs ++ []
append_empty [] = refl
append_empty (g ∷ gs) = ap (λ (l : List AuthorizationGrant). g ∷ l) (append_empty gs)

-- What a cursor leads to.
abbrev pub remaining : ApplicationState → Option Text → List AuthorizationGrant
remaining state none = []
remaining state (some cursor) = matches state (some cursor)

-- The cursor is behind the one before it.
abbrev IsBehind : Option Text → Text → Type 0
IsBehind none cursor = Unit
IsBehind (some k) cursor = before k cursor ≡ true

is_listed_behind :
    (actor : Text) (after : Option Text) (cursor : Text) (g : AuthorizationGrant)
    → IsBehind after cursor
    → (is_after (some cursor) g && is_listed actor after g) ≡ is_listed actor (some cursor) g
is_listed_behind actor none cursor g h = ground arith
is_listed_behind actor (some k) cursor g h = ground (arith, before_trans k cursor g.grant_id)

All-listed_behind :
    (actor : Text) (after : Option Text) (cursor : Text) (gs : List AuthorizationGrant)
    → IsBehind after cursor
    → All
        (λ g.
          (is_after (some cursor) g && is_listed actor after g) ≡ is_listed actor (some cursor) g)
        gs
All-listed_behind actor after cursor [] h = tt
All-listed_behind actor after cursor (g ∷ gs) h =
    (is_listed_behind actor after cursor g h, All-listed_behind actor after cursor gs h)

all_behind_cursor :
    (actor k : Text) (gs : List AuthorizationGrant)
    → AreBehind k (keep (is_listed actor (some k)) gs)
all_behind_cursor actor k [] = tt
all_behind_cursor actor k (g ∷ gs) = elim (Bool-cases (is_listed actor (some k) g)) [
  | inl e ↦ rw e (ground arith, all_behind_cursor actor k gs)
  | inr e ↦ rw e (all_behind_cursor actor k gs)
]

module _ (state : ApplicationState) (unique : is_unique (map grant_key state.grants) ≡ true) where
  matches-IsStrict : (after : Option Text) → IsStrict grant_key (matches state after)
  unfolding matches
  matches-IsStrict after =
      let listed = is_listed (actor_of state.identity_actor state.bootstrap_actor) after in
      sort-IsStrict grant_key (keep listed state.grants)
        (is_unique-keep listed grant_key state.grants unique)

  cursor-IsBehind :
      (after : Option Text) (n : ℕ) (x : IsSplit n (matches state after)) → IsBehind after x.cursor
  unfolding matches
  cursor-IsBehind none n x = tt
  cursor-IsBehind (some k) n x =
      let actor = actor_of state.identity_actor state.bootstrap_actor in
      x.behind k (
        All-sort grant_key (λ g. before k g.grant_id ≡ true)
          (keep (is_listed actor (some k)) state.grants) (all_behind_cursor actor k state.grants))

  keep-matches :
      (after : Option Text) (cursor : Text)
      → IsBehind after cursor
      → keep (is_after (some cursor)) (matches state after) ≡ matches state (some cursor)
  unfolding matches
  keep-matches after cursor h =
      let actor = actor_of state.identity_actor state.bootstrap_actor in
      keep-sort (is_after (some cursor)) grant_key (keep (is_listed actor after) state.grants)
      ∙ ap (sort grant_key) (
          keep-keep (is_listed actor after) (is_after (some cursor)) (is_listed actor (some cursor))
            state.grants (All-listed_behind actor after cursor state.grants h))

  -- For grants without an identifier twice and a limit that is not zero: a page of `authorization.grant.list`, followed by all that its cursor leads to, is all that was to be listed, in order; without a cursor nothing is left.
  pub list_grants-matches :
      (n : ℕ) (after : Option Text)
      → matches state after
        ≡ (list_grants state (suc n) after).grants
          ++ remaining state (list_grants state (suc n) after).next_cursor
  unfolding list_grants
  list_grants-matches n after = elim (Bool-cases (ltb (suc n) (length (matches state after)))) [
    | inl e ↦
        let x = split n (matches state after) (matches-IsStrict after) e in
        rw (e, x.at_end)
          (x.joined
            ∙ ap (λ (l : List AuthorizationGrant). take (suc n) (matches state after) ++ l)
                (keep-matches after x.cursor (cursor-IsBehind after n x)))
    | inr e ↦
        rw e (rw (take_all (suc n) (matches state after) e) (append_empty (matches state after)))
  ]

-- A client that asks for pages until there is no cursor, at most `fuel` of them.
abbrev pub read_pages : ApplicationState → ℕ → ℕ → Option Text → List AuthorizationGrant
read_pages state limit zero after = []
read_pages state limit (suc fuel) after =
    let page = list_grants state limit after in
    page.grants
    ++ elim page.next_cursor [ none ↦ [] | some cursor ↦ read_pages state limit fuel (some cursor) ]

length_of_tail : (xs ys : List AuthorizationGrant) → length ys ≤ length (xs ++ ys)
length_of_tail [] ys = omega arith
length_of_tail (x ∷ xs) ys = let rest = length_of_tail xs ys in omega arith

-- What is left behind a page is shorter.
shorter :
    (n : ℕ) (gs left : List AuthorizationGrant)
    → ltb (suc n) (length gs) ≡ true
    → gs ≡ take (suc n) gs ++ left
    → length left < length gs
shorter n [] left h e = absurd (ground arith)
shorter n (g ∷ gs) left h e =
    let total : length (g ∷ gs) ≡ length (g ∷ (take n gs ++ left)) = ap length e in
    let tail = length_of_tail (take n gs) left in omega arith

-- For grants without an identifier twice and a limit that is not zero: a client that follows the cursors reads, with as many pages as there are grants to list and one more, each grant that is to be listed, once and in order.
pub read_pages-matches :
    (state : ApplicationState)
    → is_unique (map grant_key state.grants) ≡ true
    → (n fuel : ℕ) (after : Option Text) → length (matches state after) < fuel
    → read_pages state (suc n) fuel after ≡ matches state after
unfolding list_grants
read_pages-matches state unique n zero after h = absurd (omega arith)
read_pages-matches state unique n (suc fuel) after h =
    elim (Bool-cases (ltb (suc n) (length (matches state after)))) [
      | inl e ↦
          let x = split n (matches state after) (matches-IsStrict state unique after) e in
          let left =
            keep-matches state unique after x.cursor (cursor-IsBehind state unique after n x) in
          let joined =
            x.joined
            ∙ ap (λ (l : List AuthorizationGrant). take (suc n) (matches state after) ++ l) left in
          let less = shorter n (matches state after) (matches state (some x.cursor)) e joined in
          let rest = read_pages-matches state unique n fuel (some x.cursor) (omega arith) in
          rw (e, x.at_end, rest) (sym joined)
      | inr e ↦
          rw e (
            rw (take_all (suc n) (matches state after) e)
              (sym (append_empty (matches state after))))
    ]
