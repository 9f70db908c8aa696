-- ===== src/Orchestration/Inputs/Vault.antt =====
-- What the vault of inputs gives back, and to whom.
use Prim.Native.String.{◌++◌ as text_append}
use Prim.Native.Char.{code}
use text.Mathlib.TextEquality.{Char-path}
use text.Mathlib.TextLemmas.{nil-append, cons-append, append_assoc, append-eq-nil_iff}
use agent_federation_hub.Base.{
  text_ne, All, ℕ, String, ◌≡◌, ◌≢◌, refl, sym, ap, ap₂, subst, ◌∙◌, true, false, List, [], ◌∷◌,
  ◌++◌, ◌==◌, eq_refl, eq_iff, eqb, arith, Bool-cases, inl, inr,
}
use agent_federation_hub.Base.Text.{codes, starts_with}
use agent_federation_hub.Base.Dict.{Dict, insert, lookup-insert}
use agent_federation_hub.Store.State.{ok}
use agent_federation_hub.Orchestration.Inputs.{
  WorkflowInput, Encoding, input_ref, put_input, get_input,
}

codes-append : (s t : String) → codes (text_append s t) ≡ codes s ++ codes t
codes-append String.[] t = rw nil-append refl
codes-append (String.◌∷◌ c s) t = rw cons-append (ap (λ cs. code c ∷ cs) (codes-append s t))

starts_with-append : (xs ys : List ℕ) → starts_with (xs ++ ys) xs ≡ true
unfolding starts_with
starts_with-append [] ys = refl
starts_with-append (x ∷ xs) ys = ground (arith, starts_with-append xs ys)

abbrev rest_of_ref : String → String → String
rest_of_ref workflow_id step_id = text_append workflow_id (text_append "/" step_id)

ref_split :
    (tenant workflow_id step_id : String)
    → input_ref tenant workflow_id step_id
      ≡ text_append (text_append tenant "/") (rest_of_ref workflow_id step_id)
unfolding input_ref
ref_split tenant workflow_id step_id =
    sym (append_assoc tenant "/" (rest_of_ref workflow_id step_id))

ref-starts_with :
    (tenant workflow_id step_id : String)
    → starts_with (codes (input_ref tenant workflow_id step_id)) (codes (text_append tenant "/"))
      ≡ true
ref-starts_with tenant workflow_id step_id =
    rw
      (
        ref_split tenant workflow_id step_id,
        codes-append (text_append tenant "/") (rest_of_ref workflow_id step_id),
      )
      (starts_with-append (codes (text_append tenant "/"))
        (codes (rest_of_ref workflow_id step_id)))

ref_not_empty :
    (tenant workflow_id step_id : String)
    → (tenant == "") ≡ false
    → (input_ref tenant workflow_id step_id == "") ≡ false
unfolding input_ref
ref_not_empty tenant workflow_id step_id h = text_ne (input_ref tenant workflow_id step_id) "" (λ e.
    let empty : tenant ≡ "" = (append-eq-nil_iff.0 e).0 in
    ground (arith, h, empty, eq_iff tenant ""))

put_input_ok :
    (encoding : Encoding) (tenant workflow_id step_id ref : String) (i : WorkflowInput)
    (values values' : Dict WorkflowInput)
    → put_input encoding tenant workflow_id step_id i values ≡ (ok ref, values')
    → ((tenant == "") ≡ false)
      × (ref ≡ input_ref tenant workflow_id step_id)
      × (values' ≡ insert (input_ref tenant workflow_id step_id) i values)
unfolding put_input
put_input_ok encoding tenant workflow_id step_id ref i values values' h = ground (arith, h)

-- What its tenant gets for a reference.
own_ref :
    (tenant workflow_id step_id : String) (i : WorkflowInput) (values : Dict WorkflowInput)
    → (tenant == "") ≡ false
    → get_input tenant
        (input_ref tenant workflow_id step_id)
        (insert (input_ref tenant workflow_id step_id) i values)
      ≡ ok i
unfolding get_input
own_ref tenant workflow_id step_id i values h =
    let ref = input_ref tenant workflow_id step_id in
    rw
      (
        h,
        ref_not_empty tenant workflow_id step_id h,
        ref-starts_with tenant workflow_id step_id,
        lookup-insert ref ref i values,
        eq_refl ref,
      )
      refl

-- An input that was put into the vault is what its tenant gets for the reference that was answered.
pub get_input-put_input :
    (encoding : Encoding) (tenant workflow_id step_id ref : String) (i : WorkflowInput)
    (values values' : Dict WorkflowInput)
    → put_input encoding tenant workflow_id step_id i values ≡ (ok ref, values')
    → get_input tenant ref values' ≡ ok i
get_input-put_input encoding tenant workflow_id step_id ref i values values' h =
    let (named, answered, stored) =
      put_input_ok encoding tenant workflow_id step_id ref i values values' h in
    rw (answered, stored) (own_ref tenant workflow_id step_id i values named)

-- No code of the list is that of a slash.
abbrev IsPlain : List ℕ → Type 0
IsPlain cs = All (λ c. eqb c b'/' ≡ false) cs

prefix_plain :
    (xs ys zs : List ℕ)
    → IsPlain xs
    → IsPlain ys
    → starts_with (xs ++ b'/' ∷ zs) (ys ++ b'/' ∷ []) ≡ true
    → xs ≡ ys
unfolding starts_with
prefix_plain [] [] zs p q h = refl
prefix_plain [] (y ∷ ys) zs p q h = ground (arith, h, q.0)
prefix_plain (x ∷ xs) [] zs p q h = ground (arith, h, p.0)
prefix_plain (x ∷ xs) (y ∷ ys) zs p q h =
    let rest = prefix_plain xs ys zs p.1 q.1 (ground (arith, h)) in
    let first : x ≡ y = ground (arith, h) in ap₂ (λ c cs. c ∷ cs) first rest

codes_injective : (s t : String) → codes s ≡ codes t → s ≡ t
codes_injective String.[] String.[] h = refl
codes_injective String.[] (String.◌∷◌ d t) h = cc
codes_injective (String.◌∷◌ c s) String.[] h = cc
codes_injective (String.◌∷◌ c s) (String.◌∷◌ d t) h =
    ap₂ String.◌∷◌ (Char-path c d (cc (h))) (codes_injective s t (cc (h)))

codes_ref :
    (tenant workflow_id step_id : String)
    → codes (input_ref tenant workflow_id step_id)
      ≡ codes tenant ++ b'/' ∷ codes (rest_of_ref workflow_id step_id)
unfolding input_ref
codes_ref tenant workflow_id step_id =
    codes-append tenant (text_append "/" (rest_of_ref workflow_id step_id))
    ∙ ap (λ cs. codes tenant ++ cs) (codes-append "/" (rest_of_ref workflow_id step_id))

-- The name of a tenant has no slash.
abbrev pub IsPlainName : String → Type 0
IsPlainName tenant = IsPlain (codes tenant)

-- Of two tenants whose names have no slash, neither gets the input that a reference of the other names,
-- whatever the vault holds.
pub vault_isolates :
    (tenant other workflow_id step_id : String) (values : Dict WorkflowInput)
    → IsPlainName tenant
    → IsPlainName other
    → tenant ≢ other
    → (i : WorkflowInput) → get_input other (input_ref tenant workflow_id step_id) values ≢ ok i
unfolding get_input
vault_isolates tenant other workflow_id step_id values p q ne i h =
    elim (Bool-cases (
      starts_with (codes (input_ref tenant workflow_id step_id)) (codes (text_append other "/")))) [
        | inl t ↦
            let z = codes (rest_of_ref workflow_id step_id) in
            let prefix =
              subst (λ cs. starts_with cs (codes other ++ b'/' ∷ []) ≡ true)
                (codes_ref tenant workflow_id step_id)
                (subst (λ cs. starts_with (codes (input_ref tenant workflow_id step_id)) cs ≡ true)
                  (codes-append other "/") t) in
            ne (
              codes_injective tenant other (prefix_plain (codes tenant) (codes other) z p q prefix))
        | inr f ↦ ground (arith, h, f)
      ]
