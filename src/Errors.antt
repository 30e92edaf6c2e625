-- ===== src/Errors.antt =====
-- The exceptions of hathor/transaction/exceptions.py and those that Python itself raises, as values.
use khathor.Prelude.{Bool, true, false, ◌≡◌, refl, ◌⊎◌, inl, inr, arith, if◌then◌else◌}

-- The classes of hathor/transaction/exceptions.py by their names, then the builtin exceptions,
-- struct.error, and InsufficientFunds of hathor/wallet/exceptions.py.
pub data Exn : Type 0 where
  parent_does_not_exist incorrect_parents timestamp_error double_spend : Exn
  input_output_mismatch invalid_input_data no_input_error too_many_inputs : Exn
  inexistent_input conflicting_inputs too_many_outputs invalid_output_value : Exn
  pow_error weight_error duplicated_parents invalid_token reward_locked : Exn
  block_with_inputs block_with_tokens transaction_data_error : Exn
  script_error out_of_data missing_stack_items equal_verify_failed : Exn
  final_stack_invalid oracle_checksig_failed data_index_error : Exn
  invalid_stack_data verify_failed time_locked : Exn
  transaction_does_not_exist invalid_address aux_pow_error : Exn
  index_error assertion_error struct_error value_error overflow_error key_error type_error : Exn
  zero_division_error insufficient_funds : Exn

-- `except ScriptError`: the class and its subclasses.
unfoldable pub is_script_error : Exn → Bool
is_script_error script_error = true
is_script_error out_of_data = true
is_script_error missing_stack_items = true
is_script_error equal_verify_failed = true
is_script_error final_stack_invalid = true
is_script_error oracle_checksig_failed = true
is_script_error data_index_error = true
is_script_error invalid_stack_data = true
is_script_error verify_failed = true
is_script_error time_locked = true
is_script_error _ = false

-- A call that raises or returns a value.
pub data Result {ℓ} (A : Type ℓ) : Type ℓ where
  err : Exn → Result A
  ok : A → Result A

-- `if not test: raise e`
abbrev pub guard : Bool → Exn → Result (Unit {0})
guard false raised = err raised
guard true raised = ok tt

-- The rest of the code runs where the call returned.
infixl 5 ◌>>=◌ ◌>>◌
abbrev pub ◌>>=◌ {ℓ κ} :
    {A : Type ℓ} {B : Type κ} (call : Result A) (rest : A → Result B) → Result B
err raised >>= rest = err raised
ok value >>= rest = rest value

abbrev pub ◌>>◌ {ℓ} : {B : Type ℓ} (call : Result (Unit {0})) (rest : Result B) → Result B
call >> rest = call >>= λ _. rest

-- Where the whole returned, the call returned and so did the rest.
pub >>=-eq-ok {ℓ κ} :
    {A : Type ℓ} {B : Type κ} (call : Result A) (rest : A → Result B) {result : B}
    → (call >>= rest) ≡ ok result
    → (value : A) × (call ≡ ok value) × (rest value ≡ ok result)
>>=-eq-ok (err raised) rest h = cc
>>=-eq-ok (ok value) rest h = (value, refl, h)

-- Where the code went on behind a test, the test held.
pub guard-ok {ℓ} :
    {B : Type ℓ} (test : Bool) (e : Exn) (rest : Result B) {result : B}
    → (guard test e >> rest) ≡ ok result
    → (test ≡ true) × (rest ≡ ok result)
guard-ok false e rest h = cc
guard-ok true e rest h = (refl, h)

pub Result-cases {ℓ} :
    {A : Type ℓ} (r : Result A) → ((a : A) × (r ≡ ok a)) ⊎ ((e : Exn) × (r ≡ err e))
Result-cases (ok a) = inl (a, refl)
Result-cases (err e) = inr (e, refl)

pub ok-injective {ℓ} : {A : Type ℓ} {a b : A} → ok a ≡ ok b → a ≡ b
ok-injective h = ground arith

pub if-bind {ℓ} :
    {A B : Type ℓ} (c : Bool) (a b : Result A) (f : A → Result B)
    → (if c then (a >>= f) else (b >>= f)) ≡ ((if c then a else b) >>= f)
if-bind true a b f = refl
if-bind false a b f = refl
