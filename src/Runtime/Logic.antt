-- ===== src/Runtime/Logic.antt =====
-- What holds after a task that runs alone, whatever the outside world replies.
use cardano_lightning_relay.Prelude.{
  ◌≡◌, refl, Bool, true, false, Option, none, some, List, [], ◌∷◌, if◌then◌else◌,
}
use cardano_lightning_relay.Runtime.{
  Reply, Event, World, observe, perform, Prog, ret, panic, act, call, ◌>>=◌, for_each,
}

-- After a statement: it has not panicked, and `P` holds of its answer and of the world.
abbrev pub After : {R : Type 0} → Option (R × World) → (R → World → Type 0) → Type 0
After none P = ⊥
After (some p) P = P p.0 p.1

After-map :
    {R : Type 0} (o : Option (R × World)) (P Q : R → World → Type 0)
    → ((r : R) (w : World) → P r w → Q r w)
    → After o P
    → After o Q
After-map none P Q f h = absurd h
After-map (some p) P Q f h = f p.0 p.1 h

-- `Ends p Q w`: from `w`, with no other task in between, `p` ends without a
-- panic, and with `Q`, whatever the outside world replies.
abbrev pub Ends : {A : Type 0} → Prog A → (A → World → Type 0) → World → Type 0
Ends (ret a) Q w = Q a w
Ends panic Q w = ⊥
Ends (act c k) Q w = After (perform c w) (λ r w'. Ends (k r) Q (observe (Event.acted c r) w'))
Ends (call c k) Q w = (r : Reply c) → Ends (k r) Q (observe (Event.called c r) w)

pub Ends-bind :
    {A B : Type 0} (m : Prog A) (f : A → Prog B) (Q : B → World → Type 0) (w : World)
    → Ends m (λ a w'. Ends (f a) Q w') w
    → Ends (m >>= f) Q w
Ends-bind (ret a) f Q w h = h
Ends-bind panic f Q w h = absurd h
Ends-bind (act c k) f Q w h =
    After-map (perform c w)
      (λ r w'. Ends (k r) (λ a w''. Ends (f a) Q w'') (observe (Event.acted c r) w'))
      (λ r w'. Ends (k r >>= f) Q (observe (Event.acted c r) w'))
      (λ r w' x. Ends-bind (k r) f Q (observe (Event.acted c r) w') x) h
Ends-bind (call c k) f Q w h = λ r. Ends-bind (k r) f Q (observe (Event.called c r) w) (h r)

pub Ends-map :
    {A : Type 0} (m : Prog A) (P Q : A → World → Type 0) (w : World)
    → ((a : A) (w' : World) → P a w' → Q a w')
    → Ends m P w
    → Ends m Q w
Ends-map (ret a) P Q w f h = f a w h
Ends-map panic P Q w f h = absurd h
Ends-map (act c k) P Q w f h =
    After-map (perform c w) (λ r w'. Ends (k r) P (observe (Event.acted c r) w'))
      (λ r w'. Ends (k r) Q (observe (Event.acted c r) w'))
      (λ r w' x. Ends-map (k r) P Q (observe (Event.acted c r) w') f x) h
Ends-map (call c k) P Q w f h = λ r. Ends-map (k r) P Q (observe (Event.called c r) w) f (h r)

-- A test, whose outcome each branch may use.
pub Ends-if :
    {A : Type 0} (b : Bool) (m n : Prog A) (Q : A → World → Type 0) (w : World)
    → (b ≡ true → Ends m Q w)
    → (b ≡ false → Ends n Q w)
    → Ends (if b then m else n) Q w
Ends-if true m n Q w hm hn = hm refl
Ends-if false m n Q w hm hn = hn refl

-- A loop over a list, for an invariant that knows what is left of it.
pub Ends-for_each :
    {A : Type 0} (I : List A → World → Type 0) (body : A → Prog Unit)
    → ((x : A) (xs : List A) (w : World) → I (x ∷ xs) w → Ends (body x) (λ _ w'. I xs w') w)
    → (xs : List A) (w : World) → I xs w
    → Ends (for_each xs body) (λ _ w'. I [] w') w
Ends-for_each I body step [] w i = i
Ends-for_each I body step (x ∷ xs) w i =
    Ends-bind (body x) (λ _. for_each xs body) (λ _ w'. I [] w') w
      (Ends-map (body x) (λ _ w'. I xs w') _ w (λ _ w' i'. Ends-for_each I body step xs w' i')
        (step x xs w i))
