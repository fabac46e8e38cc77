-- ===== src/Storage/Reading.antt =====
-- What an operation reads before it writes: a part of the state is still the same.
use graphql_prisma_postgres.Prelude.{
  ◌≡◌, ◌⊎◌, inl, inr, refl, sym, ◌∙◌, Bool, true, false, Option, none, some,
}
use mathlib.Core.Path.{subst}
use graphql_prisma_postgres.Effects.{Fate, done, refused, lost, PrismaCode}
use graphql_prisma_postgres.Storage.State.{
  Store, StoreEnv, Failure, Answer, answer, failure, S, ◌>>=◌, and_then, demand, or_fail, query,
  statement, tick,
}

-- A part of the state is as it was, and a result is as described.
abbrev pub Reads : {A X : Type 0} → (Store → X) → X → (A → Type 0) → Answer A × Store → Type 0
Reads view x Q (answer a, w) = (view w ≡ x) × Q a
Reads view x Q (failure e, w) = view w ≡ x

-- Time and the number of calls are not of this part.
abbrev pub Ticks : {X : Type 0} → (Store → X) → Type 0
Ticks view = (env : StoreEnv) (w : Store) → view (tick env w) ≡ view w

pub Fate-cases :
    (x : Fate)
    → (x ≡ done) ⊎ (((c : PrismaCode) × (x ≡ refused c)) ⊎ ((c : PrismaCode) × (x ≡ lost c)))
Fate-cases done = inl refl
Fate-cases (refused c) = inr (inl (c, refl))
Fate-cases (lost c) = inr (inr (c, refl))

module _ {A B X : Type 0} (view : Store → X) (x : X) (Q : A → Type 0) where
  -- What holds of every failure at that part, and of all that goes on from a result.
  pub Reads-and_then :
      (C : Answer B × Store → Type 0) (r : Answer A × Store) (k : A → S B) (env : StoreEnv)
      → Reads view x Q r
      → ((e : Failure) (w : Store) → view w ≡ x → C (failure e, w))
      → ((a : A) (w : Store) → view w ≡ x → Q a → C (k a env w))
      → C (and_then r k env)
  Reads-and_then C (answer a, w) k env (here, q) stop go = go a w here q
  Reads-and_then C (failure e, w) k env here stop go = stop e w here

pub query-Reads :
    {A X : Type 0} (view : Store → X) (ticks : Ticks view) (x : X) (Q : A → Type 0) (f : Store → A)
    (env : StoreEnv) (w : Store)
    → view w ≡ x
    → Q (f (tick env w))
    → Reads view x Q (query f env w)
unfolding query
query-Reads view ticks x Q f env w here q = elim (Fate-cases (env.fate w.calls)) [
  | inl e ↦ rw (Reads, query, e) (ticks env w ∙ here, q)
  | inr (inl (c, e)) ↦ rw (Reads, query, e) (ticks env w ∙ here)
  | inr (inr (c, e)) ↦ rw (Reads, query, e) (ticks env w ∙ here)
]

pub query-view :
    {A X : Type 0} (view : Store → X) (ticks : Ticks view) (f : Store → A) (env : StoreEnv)
    (w : Store)
    → view (query f env w).1 ≡ view w
unfolding query
query-view view ticks f env w = elim (Fate-cases (env.fate w.calls)) [
  | inl e ↦ rw (query, e) (ticks env w)
  | inr (inl (c, e)) ↦ rw (query, e) (ticks env w)
  | inr (inr (c, e)) ↦ rw (query, e) (ticks env w)
]

pub statement-view :
    {A X : Type 0} (view : Store → X) (ticks : Ticks view) (C : X → Type 0)
    (f : Store → Answer A × Store) (env : StoreEnv) (w : Store)
    → C (view w)
    → C (view (f (tick env w)).1)
    → C (view (statement f env w).1)
unfolding statement
statement-view view ticks C f env w before after = elim (Fate-cases (env.fate w.calls)) [
  | inl e ↦ rw (statement, e) after
  | inr (inl (c, e)) ↦ rw (statement, e) (subst C (sym (ticks env w)) before)
  | inr (inr (c, e)) ↦ rw (statement, e) after
]

pub demand-Reads :
    {X : Type 0} (view : Store → X) (x : X) (b : Bool) (e : Failure) (env : StoreEnv) (w : Store)
    → view w ≡ x
    → Reads view x (λ _. b ≡ true) (demand b e env w)
demand-Reads view x true e env w here = (here, refl)
demand-Reads view x false e env w here = here

pub or_fail-Reads :
    {A X : Type 0} (view : Store → X) (x : X) (o : Option A) (e : Failure) (env : StoreEnv)
    (w : Store)
    → view w ≡ x
    → Reads view x (λ a. o ≡ some a) (or_fail o e env w)
or_fail-Reads view x none e env w here = here
or_fail-Reads view x (some a) e env w here = (here, refl)

pub Reads-view :
    {A X : Type 0} (view : Store → X) (x : X) (Q : A → Type 0) (r : Answer A × Store)
    → Reads view x Q r
    → view r.1 ≡ x
Reads-view view x Q (answer a, w) h = h.0
Reads-view view x Q (failure e, w) h = h

-- What only reads leaves that part.
pub and_then-view :
    {A B X : Type 0} (view : Store → X) (C : X → Type 0) (r : Answer A × Store) (k : S B)
    (env : StoreEnv)
    → ((w : Store) → view (k env w).1 ≡ view w)
    → C (view r.1)
    → C (view (and_then r (λ _. k) env).1)
and_then-view view C (answer a, w) k env reads h = subst C (sym (reads w)) h
and_then-view view C (failure e, w) k env reads h = h

-- What never changes that part.
abbrev pub Keeps : {A X : Type 0} → (Store → X) → S A → Type 0
Keeps view m = (env : StoreEnv) (w : Store) → view (m env w).1 ≡ view w

pub Keeps-and_then :
    {A B X : Type 0} (view : Store → X) (m : S A) (k : A → S B)
    → Keeps view m
    → ((a : A) → Keeps view (k a))
    → Keeps view (m >>= k)
Keeps-and_then {A = A} view m k first rest env w = go (m env w) (first env w)
  where
    go : (r : Answer A × Store) → view r.1 ≡ view w → view (and_then r k env).1 ≡ view w
    go (answer a, v) h = rest a env v ∙ h
    go (failure e, v) h = h

pub demand-Keeps :
    {X : Type 0} (view : Store → X) (b : Bool) (e : Failure) → Keeps view (demand b e)
demand-Keeps view true e env w = refl
demand-Keeps view false e env w = refl

pub or_fail-Keeps :
    {A X : Type 0} (view : Store → X) (o : Option A) (e : Failure) → Keeps view (or_fail o e)
or_fail-Keeps view none e env w = refl
or_fail-Keeps view (some a) e env w = refl

pub Reads-of_view :
    {A X : Type 0} (view : Store → X) (x : X) (r : Answer A × Store)
    → view r.1 ≡ x
    → Reads view x (λ _. Unit {0}) r
Reads-of_view view x (answer a, w) h = (h, tt)
Reads-of_view view x (failure e, w) h = h
