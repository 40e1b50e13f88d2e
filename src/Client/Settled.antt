-- ===== src/Client/Settled.antt =====
-- src/client: what actions do to the surfaces, for actions that fail in other states than they succeed.
pub mod Lent
use mathlib.Core.Path.{fun_ext, subst}
use wprs.Base.{
  ==_iff, All-impl, ℕ, Bool, true, false, Option, none, some, List, [], ◌∷◌, ◌++◌, ◌==◌, ◌≡◌, ◌≢◌,
  ◌⊎◌, refl, sym, ap, ◌∙◌, All, Option-cases, inl, inr, if◌then◌else◌, Bool-cases, ==-true,
  ==-false,
}
use wprs.Client.{
  RemoteSurface, Asked, ClientState, Compositor, Outcome, left_by, Action, ◌>>=◌, pure, lift, when,
  get, put, ask, register, ObjectId, Surfaces, insert, wl_surface,
}
use wprs.Client.Stacking.{contains}
use wprs.Client.Stacking.Ids.{IsDistinct}
use wprs.Client.Subsurface.{sub_surface_of}
use wprs.Client.Subsurface.Linked.{
  parent_at, parent_of, IsSurface, IsLinked, KeepsParents, All-linked, insert-same,
  insert-KeepsParents, insert-IsLinked, some-inj, keeps-IsSurface,
}
use wprs.Client.Subsurface.Outcomes.{Takes}

-- An outcome whose surfaces have the first property, for its value, or the second after an error.
abbrev pub Settled :
    {B A : Type 0} → (A → Surfaces → Type 0) → (Surfaces → Type 0) → Outcome B A → Type 0
Settled Q R (Outcome.err c) = R c.surfaces
Settled Q R (Outcome.ok c a) = Q a c.surfaces

pub record Leaves {B A : Type 0} (P : Surfaces → Type 0) (Q : A → Surfaces → Type 0)
    (R : Surfaces → Type 0) (act : Action B A) : Type 0 where
  pub run : (c : ClientState B) → P c.surfaces → Settled Q R (act c)

module _ {B : Type 0} (R : Surfaces → Type 0) where
  pub >>=-Leaves :
      {A C : Type 0} {P : Surfaces → Type 0} (M : A → Surfaces → Type 0) {Q : C → Surfaces → Type 0}
      {m : Action B A} {f : A → Action B C}
      → Leaves P M R m
      → ((a : A) → Leaves (M a) Q R (f a))
      → Leaves P Q R (m >>= f)
  >>=-Leaves {A} {C} {P} M {Q} {m} {f} h k = record { run = λ c p. after (m c) (h.run c p) }
    where
      after :
          (o : Outcome B A)
          → Settled M R o
          → Settled Q R (elim o [ Outcome.err c' ↦ Outcome.err c' | Outcome.ok c' a ↦ f a c' ])
      after (Outcome.err c') p = p
      after (Outcome.ok c' a) p = (k a).run c' p

  pub Takes-Leaves :
      {A : Type 0} (P Q : Surfaces → Type 0) (act : Action B A)
      → ((m : Surfaces) → Q m → R m)
      → Takes P Q act
      → Leaves P (λ a. Q) R act
  Takes-Leaves {A} P Q act w t = record { run = λ c p. settled (act c) (t.run c p) }
    where
      settled : (o : Outcome B A) → Q (left_by o).surfaces → Settled (λ a. Q) R o
      settled (Outcome.err c) q = w c.surfaces q
      settled (Outcome.ok c a) q = q

  module _ (P : Surfaces → Type 0) (weaker : (m : Surfaces) → P m → R m) where
    pub get-Leaves : (k : ℕ) → Leaves P (λ s m. P m × (m k ≡ some s)) R (get {B = B} k)
    unfolding get
    get-Leaves k = record {
      run = λ c p. elim (Option-cases (c.surfaces k)) [
        | inl missing ↦ rw (Settled, missing) (weaker c.surfaces p)
        | inr (s, there) ↦ rw (Settled, there) (p, there)
      ];
    }

    pub lift-Leaves :
        {A : Type 0} (o : Option A) → Leaves P (λ a m. P m × (o ≡ some a)) R (lift {B = B} o)
    lift-Leaves none = record { run = λ c p. weaker c.surfaces p }
    lift-Leaves (some a) = record { run = λ c p. (p, refl) }

    pub get_any-Leaves : (k : ℕ) → Leaves P (λ s. P) R (get {B = B} k)
    unfolding get
    get_any-Leaves k = record {
      run = λ c p. elim (Option-cases (c.surfaces k)) [
        | inl missing ↦ rw (Settled, missing) (weaker c.surfaces p)
        | inr (s, there) ↦ rw (Settled, there) p
      ];
    }

    pub lift_any-Leaves : {A : Type 0} (o : Option A) → Leaves P (λ a. P) R (lift {B = B} o)
    lift_any-Leaves none = record { run = λ c p. weaker c.surfaces p }
    lift_any-Leaves (some a) = record { run = λ c p. p }

    pub ask-Leaves : (a : Asked) → Leaves P (λ u. P) R (ask {B = B} a)
    unfolding ask
    ask-Leaves a = record { run = λ c p. p }

    pub register-Leaves :
        (compositor : Compositor B) (key : ℕ × ObjectId) (l : ℕ)
        → Leaves P (λ u. P) R (register compositor key l)
    unfolding register
    register-Leaves compositor key l = record { run = λ c p. p }

  pub pure-Leaves :
      {A : Type 0} {Q : A → Surfaces → Type 0} (a : A) → Leaves (Q a) Q R (pure {B = B} a)
  pure-Leaves a = record { run = λ c p. p }

  pub when-Leaves :
      (P : Surfaces → Type 0) {Q : Unit {0} → Surfaces → Type 0} (b : Bool)
      {act : Action B (Unit {0})}
      → ((m : Surfaces) → P m → Q tt m)
      → Leaves P Q R act
      → Leaves P Q R (when b act)
  when-Leaves P true h l = l
  when-Leaves P false h l = record { run = λ c p. h c.surfaces p }

  pub put-Leaves :
      (P : Surfaces → Type 0) {Q : Unit {0} → Surfaces → Type 0} (k : ℕ) (t : RemoteSurface)
      → ((m : Surfaces) → P m → Q tt (insert k t m))
      → Leaves P Q R (put {B = B} k t)
  unfolding put
  put-Leaves P k t h = record { run = λ c p. h c.surfaces p }
