-- ===== src/Dynamic/Build/Conditions.antt =====
-- The conditions that definitions compile to (dynamic/definition.go, `compileValidated`).
use rulite.Base.{
  ℕ, suc, ◌+◌, List, [], ◌∷◌, ◌++◌, ◌≡◌, refl, ap, ◌∙◌, length, Zip, arith, inl, inr, All,
}
use rulite.Base.Int.{pos}
use rulite.Errors.{Payload}
use rulite.World.{World, Call, returned, panicked, Eff, Condition, ◌>>=◌}
use rulite.Dynamic.Failure.{DynamicError, compile_error, condition_stage, Outcome, ok, failed}
use rulite.Dynamic.Definition.Passes.{Outcome-cases}
use rulite.Dynamic.Definition.{Definition}
use rulite.Dynamic.Build.{Compiler, prepend, compile_conditions}

-- What holds of the value that a call returns, or of the panic that leaves it.
abbrev pub Ends :
    {Host A : Type 0} → (A → Type 0) → (Payload → World Host → Type 0) → Call Host A → Type 0
Ends P E (returned a w) = P a
Ends P E (panicked p w) = E p w

bind_call :
    {Host A B : Type 0} (P : A → Type 0) (E : Payload → World Host → Type 0) (Q : B → Type 0)
    (F : Payload → World Host → Type 0) (f : A → Eff Host B) (c : Call Host A)
    → Ends P E c
    → ((a : A) (v : World Host) → P a → Ends Q F (f a v))
    → ((p : Payload) (v : World Host) → E p v → F p v)
    → Ends Q F (elim c [ returned a v ↦ f a v | panicked p v ↦ panicked p v ])
bind_call P E Q F f (returned a v) h k fails = k a v h
bind_call P E Q F f (panicked p v) h k fails = fails p v h

pub Ends-bind :
    {Host A B : Type 0} (P : A → Type 0) (E : Payload → World Host → Type 0) (Q : B → Type 0)
    (F : Payload → World Host → Type 0) (m : Eff Host A) (f : A → Eff Host B) (w : World Host)
    → Ends P E (m w)
    → ((a : A) (v : World Host) → P a → Ends Q F (f a v))
    → ((p : Payload) (v : World Host) → E p v → F p v)
    → Ends Q F ((m >>= f) w)
Ends-bind P E Q F m f w h k fails = bind_call P E Q F f (m w) h k fails

-- The end of a call, as what holds of it.
pub Ends-self :
    {Host A : Type 0} (c : Call Host A)
    → Ends
        (λ a. (v : World Host) × (c ≡ returned a v))
        (λ (p : Payload) (v : World Host). c ≡ panicked p v)
        c
Ends-self (returned a v) = (v, refl)
Ends-self (panicked p v) = refl

module _ {Host : Type 0} where
  abbrev pub IsCheckOf : Compiler Host → Definition → Condition Host → Type 0
  IsCheckOf compiler d check = compiler d.condition ≡ ok check

  -- The first definition whose condition does not compile.
  pub record FirstBad (compiler : Compiler Host) (index : ℕ) (ds : List Definition)
      (e : DynamicError) : Type 0 where
    pub before : List Definition
    pub after : List Definition
    pub definition : Definition
    pub cause : DynamicError
    pub split : ds ≡ before ++ definition ∷ after
    pub earlier :
        All (λ (d : Definition). (check : Condition Host) × IsCheckOf compiler d check) before
    pub bad : compiler definition.condition ≡ failed cause
    pub shown : e ≡ compile_error condition_stage (pos (index + length before)) cause

  abbrev pub Conditions :
      Compiler Host → ℕ → List Definition → Outcome (List (Condition Host)) → Type 0
  Conditions compiler index ds (ok checks) = Zip (IsCheckOf compiler) ds checks
  Conditions compiler index ds (failed e) = FirstBad compiler index ds e

  Conditions-cons :
      (compiler : Compiler Host) (index : ℕ) (d : Definition) (ds : List Definition)
      (check : Condition Host) (o : Outcome (List (Condition Host)))
      → IsCheckOf compiler d check
      → Conditions compiler (suc index) ds o
      → Conditions compiler index (d ∷ ds) (prepend check o)
  Conditions-cons compiler index d ds check (ok checks) h k = (h, k)
  Conditions-cons compiler index d ds check (failed e) h k = record {
    before = d ∷ k.before;
    after = k.after;
    definition = k.definition;
    cause = k.cause;
    split = ap (λ xs. d ∷ xs) k.split;
    earlier = ((check, h), k.earlier);
    bad = k.bad;
    shown = k.shown ∙ ap (λ n. compile_error condition_stage (pos n) k.cause) (omega arith);
  }

  -- Conditions compile in order, and the first one that does not decides.
  pub compile_conditions-Conditions :
      (compiler : Compiler Host) (index : ℕ) (ds : List Definition)
      → Conditions compiler index ds (compile_conditions compiler index ds)
  unfolding compile_conditions
  compile_conditions-Conditions compiler index [] = tt
  compile_conditions-Conditions compiler index (d ∷ ds) =
      elim (Outcome-cases (compiler d.condition)) [
        | inl (e, bad) ↦
            rw (bad, compile_conditions)
              (record {
                before = [];
                after = ds;
                definition = d;
                cause = e;
                split = refl;
                earlier = tt;
                bad = bad;
                shown = ap (λ n. compile_error condition_stage (pos n) e) (omega arith);
              })
        | inr (check, good) ↦
            rw (good, compile_conditions)
              (Conditions-cons compiler index d ds check
                (compile_conditions compiler (suc index) ds) good
                (compile_conditions-Conditions compiler (suc index) ds))
      ]
