-- ===== src/Base/Errors.antt =====
-- Errors as values. The constructors of `Error` are the source's error types and variables;
-- `foreign` is an error that comes from a
-- library, and the errors that the source tells apart from others are `primary_key_taken` (of
-- sqlite3), `no_rows` (of database/sql) and `end_of_file` (of io). `panic` is a Go run-time panic.
use mathlib.Core.Path.{◌≡◌, refl}
use concat.Base.Equality.{Text}

pub data Error : Type 0 where
  query_eval_error query_compile_error value_error : Text → Error
  stream_error push_error : Text → Error
  bad_statement_body bad_statement bad_query bad_result bad_push bad_ruleset : Error
  missing_data unexpected_data bad_data : Error
  unknown_statement no_result node_offline node_must_be_offline : Error
  no_directory directory_error lookup_error unknown_peer : Error
  bad_address_spec malformed_entity_id unknown_id_provider : Error
  unknown_object bad_state bad_method bad_namespace bad_response illegal_state : Error
  bad_handle ifconfig_error entity_key_not_found : Error
  primary_key_taken no_rows end_of_file : Error
  foreign : Text → Error

-- How a Go call ends: with a run-time panic, with an error, or with its value.
pub data Result {ℓ} (Value : Type ℓ) : Type ℓ where
  panic : Result Value
  err : Error → Result Value
  ok : Value → Result Value

module _ {ℓ κ} {A : Type ℓ} {B : Type κ} where
  infixl 5 ◌>>=◌
  abbrev pub ◌>>=◌ : Result A → (A → Result B) → Result B
  panic >>= next = panic
  err failure >>= next = err failure
  ok value >>= next = next value

  -- Both steps of a chain with a value have values.
  pub >>=-eq-ok :
      (step : Result A) (next : A → Result B) {last : B}
      → (step >>= next) ≡ ok last
      → (value : A) × (step ≡ ok value) × (next value ≡ ok last)
  >>=-eq-ok panic next e = cc
  >>=-eq-ok (err failure) next e = cc
  >>=-eq-ok (ok value) next e = (value, refl, e)

-- How a call ended.
pub data Outcome : Type 0 where
  succeeded failed panicked : Outcome

abbrev pub outcome {ℓ} : {A : Type ℓ} → Result A → Outcome
outcome (ok a) = succeeded
outcome (err e) = failed
outcome panic = panicked

-- Two chains that begin alike and go on alike.
pub >>=_cong {ℓ κ} :
    {A : Type ℓ} {B : Type κ} (m : Result A) (f g : A → Result B)
    → ((a : A) → f a ≡ g a)
    → (m >>= f) ≡ (m >>= g)
>>=_cong (ok a) f g h = h a
>>=_cong (err e) f g h = refl
>>=_cong panic f g h = refl

pub >>=_assoc {ℓ κ μ} :
    {A : Type ℓ} {B : Type κ} {C : Type μ} (m : Result A) (f : A → Result B) (g : B → Result C)
    → ((m >>= f) >>= g) ≡ (m >>= λ a. f a >>= g)
>>=_assoc (ok a) f g = refl
>>=_assoc (err e) f g = refl
>>=_assoc panic f g = refl
