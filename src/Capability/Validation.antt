-- ===== src/Capability/Validation.antt =====
-- When an agent's file inputs are accepted.
use skrun.Base.{
  ◌≡◌, ◌↔◌, refl, String, true, Option, none, some, List, [], ◌∷◌, ◌++◌, All, inl, inr, Bool-cases,
}
use skrun.Capability.{
  ModelCapabilities, takes, get_model_capabilities, FileInputField, Model, errors_for, model_errors,
  fallback_errors, outcome, validate_agent_capabilities,
}

-- The capabilities, when they are known, take the media of every input.
abbrev pub TakesAll : Option ModelCapabilities → List FileInputField → Type 0
TakesAll none inputs = Unit
TakesAll (some caps) inputs = All (λ (i : FileInputField). takes caps i.media ≡ true) inputs

abbrev pub ModelTakes : Model → List FileInputField → Type 0
ModelTakes m inputs = TakesAll (get_model_capabilities m.matrix m.name) inputs

abbrev pub FallbackTakes : Option Model → List FileInputField → Type 0
FallbackTakes none inputs = Unit
FallbackTakes (some m) inputs = ModelTakes m inputs

errors_for_iff :
    (role : String) (m : Model) (caps : ModelCapabilities) (inputs : List FileInputField)
    → (errors_for role m caps inputs ≡ []) ↔ TakesAll (some caps) inputs
unfolding errors_for
errors_for_iff role m caps [] = (λ h. tt, λ h. refl)
errors_for_iff role m caps (i ∷ inputs) =
    let (to, from) = errors_for_iff role m caps inputs in
    elim (Bool-cases (takes caps i.media)) [
      | inl t ↦ (λ h. (t, to (rw (errors_for, t) at h)), λ h. rw (errors_for, t) (from h.1))
      | inr t ↦ (λ h. cc (rw (errors_for, t) at h), λ h. cc (t, h.0))
    ]

model_errors_iff :
    (role : String) (m : Model) (inputs : List FileInputField)
    → (model_errors role m inputs ≡ []) ↔ ModelTakes m inputs
unfolding model_errors
model_errors_iff role m inputs = go (get_model_capabilities m.matrix m.name)
  where
    go :
        (o : Option ModelCapabilities)
        → ((elim o [ none ↦ [] | some caps ↦ errors_for role m caps inputs ]) ≡ [])
          ↔ TakesAll o inputs
    go none = (λ h. tt, λ h. refl)
    go (some caps) = errors_for_iff role m caps inputs

fallback_errors_iff :
    (fallback : Option Model) (inputs : List FileInputField)
    → (fallback_errors fallback inputs ≡ []) ↔ FallbackTakes fallback inputs
fallback_errors_iff none inputs = (λ h. tt, λ h. refl)
fallback_errors_iff (some m) inputs = model_errors_iff "fallback" m inputs

append_nil : (xs ys : List String) → (outcome (xs ++ ys) ≡ none) ↔ ((xs ≡ []) × (ys ≡ []))
append_nil [] [] = (λ h. (refl, refl), λ h. refl)
append_nil [] (y ∷ ys) = (λ h. cc h, λ h. cc (h.1))
append_nil (x ∷ xs) ys = (λ h. cc h, λ h. cc (h.0))

takes_nothing : (o : Option ModelCapabilities) → TakesAll o []
takes_nothing none = tt
takes_nothing (some caps) = tt

fallback_nothing : (fallback : Option Model) → FallbackTakes fallback []
fallback_nothing none = tt
fallback_nothing (some m) = takes_nothing (get_model_capabilities m.matrix m.name)

-- A configuration passes exactly when the primary model, and the fallback when there is one, takes the
-- media of every file input, as far as the model is known.
pub validate_iff :
    (primary : Model) (fallback : Option Model) (inputs : List FileInputField)
    → (validate_agent_capabilities primary fallback inputs ≡ none)
      ↔ (ModelTakes primary inputs × FallbackTakes fallback inputs)
unfolding validate_agent_capabilities
validate_iff primary fallback [] = (
  λ h. (
    takes_nothing (get_model_capabilities primary.matrix primary.name),
    fallback_nothing fallback,
  ),
  λ h. refl,
)
validate_iff primary fallback (i ∷ inputs) =
    let (split, join) =
      append_nil (model_errors "primary" primary (i ∷ inputs))
        (fallback_errors fallback (i ∷ inputs)) in
    let (p, q) = model_errors_iff "primary" primary (i ∷ inputs) in
    let (f, g) = fallback_errors_iff fallback (i ∷ inputs) in
    (λ h. (p ((split h).0), f ((split h).1)), λ h. join (q h.0, g h.1))
