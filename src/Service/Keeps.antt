-- ===== src/Service/Keeps.antt =====
-- Invariants of the tables under the actions of the service: one rule for each way to build one.
use code_zard.Prelude.{ℕ, ◌≡◌, refl, Bool, true, false, if◌then◌else◌}
use code_zard.Prelude.Result.{Result, ok, err}
use code_zard.Billing.Errors.{BillingError}
use code_zard.Store.{Db}
use code_zard.Service.World.{
  World, Action, pure, raise, ◌>>=◌, lift, reading, query, write, execute,
}

-- `m` keeps `P` of the tables, whether it returns or raises.
pub record Keeps {A : Type 0} (P : Db → Type 0) (m : Action A) : Type 0 where
  pub at : (w : World) → P w.db → P (m w).1.db

module _ {A : Type 0} {P : Db → Type 0} where
  pub Keeps-pure : (a : A) → Keeps P (pure a)
  Keeps-pure a = record { at = λ w h. h }

  pub Keeps-raise : (e : BillingError) → Keeps P (raise {A = A} e)
  Keeps-raise e = record { at = λ w h. h }

  pub Keeps-lift : (r : Result BillingError A) → Keeps P (lift r)
  Keeps-lift r = record { at = λ w h. h }

  pub Keeps-reading : (f : ℕ → A) → Keeps P (reading f)
  Keeps-reading f = record { at = λ w h. h }

  pub Keeps-query : (f : Db → A) → Keeps P (query f)
  Keeps-query f = record { at = λ w h. h }

  pub Keeps-write : (f : Db → A × Db) → ((db : Db) → P db → P (f db).1) → Keeps P (write f)
  Keeps-write f k = record { at = λ w. k w.db }

  pub Keeps-execute :
      (f : Db → Result BillingError A × Db) → ((db : Db) → P db → P (f db).1) → Keeps P (execute f)
  Keeps-execute f k = record { at = λ w. k w.db }

  pub Keeps-if :
      (test : Bool) (yes_act no_act : Action A)
      → (test ≡ true → Keeps P yes_act)
      → (test ≡ false → Keeps P no_act)
      → Keeps P (if test then yes_act else no_act)
  Keeps-if false _ _ _ on_false = on_false refl
  Keeps-if true _ _ on_true _ = on_true refl

Keeps-result :
    {A B : Type 0} {P : Db → Type 0} (r : Result BillingError A) (f : A → Action B) (w : World)
    → P w.db
    → ((a : A) → Keeps P (f a))
    → P ((lift r >>= f) w).1.db
Keeps-result (ok a) f w h k = (k a).at w h
Keeps-result (err e) f w h k = h

-- The rule at one world, for a first action that keeps `P` only there.
pub bind_at :
    {A B : Type 0} {P : Db → Type 0} (m : Action A) (f : A → Action B) (w : World)
    → P (m w).1.db
    → ((a : A) → Keeps P (f a))
    → P ((m >>= f) w).1.db
bind_at m f w h kf = let (r, w') = m w in Keeps-result r f w' h kf

pub Keeps-bind :
    {R S : Type 0} {P : Db → Type 0} (act : Action R) (next : R → Action S)
    → Keeps P act
    → ((x : R) → Keeps P (next x))
    → Keeps P (act >>= next)
Keeps-bind act next first later = record { at = λ w h. bind_at act next w (first.at w h) later }

pub ruleset keeps_rules =
    (Keeps-pure, Keeps-raise, Keeps-lift, Keeps-reading, Keeps-query, Keeps-if, Keeps-bind)
