-- ===== src/Base/Cases.antt =====
-- To prove something of both branches of a test, and of all cases of an option or a result, where
-- the value tested stands inside what is proved. Each branch has the equation of its case.
use mathlib.Core.Path.{◌≡◌, refl}
use mathlib.Core.Bool.{Bool, true, false}
use mathlib.Core.Option.{Option, none, some}
use nndsk_ro_launcher.Base.Tests.{if◌then◌else◌}
use nndsk_ro_launcher.Base.Results.{Result, ok, err}

pub if_cases {ℓ κ} :
    {B : Type ℓ} (P : B → Type κ) (b : Bool) {x y : B}
    → (b ≡ true → P x)
    → (b ≡ false → P y)
    → P (if b then x else y)
if_cases P true h k = h refl
if_cases P false h k = k refl

pub option_cases {ℓ κ μ} :
    {A : Type ℓ} {B : Type κ} (P : B → Type μ) (o : Option A) {x : B} {f : A → B}
    → (o ≡ none → P x)
    → ((a : A) → o ≡ some a → P (f a))
    → P (elim o [ none ↦ x | some a ↦ f a ])
option_cases P none h k = h refl
option_cases P (some a) h k = k a refl

pub result_cases {ℓ κ μ ν} :
    {E : Type ℓ} {A : Type κ} {B : Type μ} (P : B → Type ν) (r : Result E A) {f : A → B} {g : E → B}
    → ((a : A) → r ≡ ok a → P (f a))
    → ((e : E) → r ≡ err e → P (g e))
    → P (elim r [ ok a ↦ f a | err e ↦ g e ])
result_cases P (ok a) h k = h a refl
result_cases P (err e) h k = k e refl
