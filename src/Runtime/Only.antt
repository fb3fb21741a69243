-- ===== src/Runtime/Only.antt =====
-- What a task may do at all, along any run: properties of the tree of its actions, which hold
-- whatever other tasks do in between.
use cardano_lightning_relay.Prelude.{
  ◌≡◌, ◌⊎◌, inl, inr, Bool, true, false, List, [], ◌∷◌, if◌then◌else◌,
}
use cardano_lightning_relay.Runtime.{
  Cmd, Resp, Call, Reply, Event, Prog, ret, panic, act, call, ◌>>=◌, and_then, for_each,
}
use cardano_lightning_relay.Types.{Result}

-- Every statement that the task can make satisfies `P`.
abbrev pub AllActs : {A : Type 0} → (Cmd → Type 0) → Prog A → Type 0
AllActs P (ret a) = Unit
AllActs P panic = Unit
AllActs P (act c k) = P c × ((r : Resp c) → AllActs P (k r))
AllActs P (call c k) = (r : Reply c) → AllActs P (k r)

pub AllActs-bind :
    {A B : Type 0} (P : Cmd → Type 0) (m : Prog A) (f : A → Prog B)
    → AllActs P m
    → ((a : A) → AllActs P (f a))
    → AllActs P (m >>= f)
AllActs-bind P (ret a) f hm hf = hf a
AllActs-bind P panic f hm hf = tt
AllActs-bind P (act c k) f hm hf = (hm.0, λ r. AllActs-bind P (k r) f (hm.1 r) hf)
AllActs-bind P (call c k) f hm hf = λ r. AllActs-bind P (k r) f (hm r) hf

pub AllActs-if :
    {A : Type 0} (P : Cmd → Type 0) (b : Bool) (m n : Prog A)
    → AllActs P m
    → AllActs P n
    → AllActs P (if b then m else n)
AllActs-if P true m n hm hn = hm
AllActs-if P false m n hm hn = hn

pub AllActs-and_then :
    {A B : Type 0} (P : Cmd → Type 0) (r : Result A) (k : A → Prog (Result B))
    → ((a : A) → AllActs P (k a))
    → AllActs P (and_then r k)
AllActs-and_then P (Result.ok a) k h = h a
AllActs-and_then P (Result.err e) k h = tt

pub AllActs-for_each :
    {A : Type 0} (P : Cmd → Type 0) (body : A → Prog Unit)
    → ((a : A) → AllActs P (body a))
    → (xs : List A) → AllActs P (for_each xs body)
AllActs-for_each P body h [] = tt
AllActs-for_each P body h (x ∷ xs) =
    AllActs-bind P (body x) (λ _. for_each xs body) (h x) (λ _. AllActs-for_each P body h xs)

-- The events of a task, in order: a `bad` one stands behind a `gate`.
abbrev pub Precedes : (Event → Bool) → (Event → Bool) → List Event → Type 0
Precedes gate bad [] = Unit
Precedes gate bad (e ∷ es) = (gate e ≡ true) ⊎ ((bad e ≡ false) × Precedes gate bad es)

-- `Runs p es q`: one run of `p` has the events `es`, as its own, and goes on as `q`.
pub data Runs {A : Type 0} : Prog A → List Event → Prog A → Type 0 where
  stop : {p : Prog A} → Runs p [] p
  acts :
      {c : Cmd} {k : Resp c → Prog A} {es : List Event} {q : Prog A} (r : Resp c)
      → Runs (k r) es q
      → Runs (act c k) (Event.acted c r ∷ es) q
  calls :
      {c : Call} {k : Reply c → Prog A} {es : List Event} {q : Prog A} (r : Reply c)
      → Runs (k r) es q
      → Runs (call c k) (Event.called c r ∷ es) q

-- On no path of the tree does a bad event come before a gate.
abbrev pub Guarded : {A : Type 0} → (Event → Bool) → (Event → Bool) → Prog A → Type 0
Guarded gate bad (ret a) = Unit
Guarded gate bad panic = Unit
Guarded gate bad (act c k) =
    (r : Resp c)
    → (gate (Event.acted c r) ≡ true) ⊎ ((bad (Event.acted c r) ≡ false) × Guarded gate bad (k r))
Guarded gate bad (call c k) =
    (r : Reply c)
    → (gate (Event.called c r) ≡ true) ⊎ ((bad (Event.called c r) ≡ false) × Guarded gate bad (k r))

module _ (gate bad : Event → Bool) where
  Precedes-step :
      {X : Type 0} (e : Event) (es : List Event)
      → (gate e ≡ true) ⊎ ((bad e ≡ false) × X)
      → (X → Precedes gate bad es)
      → Precedes gate bad (e ∷ es)
  Precedes-step e es (inl g) next = inl g
  Precedes-step e es (inr (b, x)) next = inr (b, next x)

  pub Runs-Precedes :
      {A : Type 0} {p q : Prog A} {es : List Event}
      → Runs p es q
      → Guarded gate bad p
      → Precedes gate bad es
  Runs-Precedes stop h = tt
  Runs-Precedes (acts {c} {k} {es} r rest) h =
      Precedes-step (Event.acted c r) es (h r) (λ x. Runs-Precedes rest x)
  Runs-Precedes (calls {c} {k} {es} r rest) h =
      Precedes-step (Event.called c r) es (h r) (λ x. Runs-Precedes rest x)

  pub Guarded-bind :
      {A B : Type 0} (m : Prog A) (f : A → Prog B)
      → Guarded gate bad m
      → ((a : A) → Guarded gate bad (f a))
      → Guarded gate bad (m >>= f)
  Guarded-bind (ret a) f hm hf = hf a
  Guarded-bind panic f hm hf = tt
  Guarded-bind (act c k) f hm hf =
      λ r. elim (hm r) [ inl g ↦ inl g | inr h ↦ inr (h.0, Guarded-bind (k r) f h.1 hf) ]
  Guarded-bind (call c k) f hm hf =
      λ r. elim (hm r) [ inl g ↦ inl g | inr h ↦ inr (h.0, Guarded-bind (k r) f h.1 hf) ]
