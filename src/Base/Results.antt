-- ===== src/Base/Results.antt =====
-- `ValueError` as a value: the errors that the modelled code raises, and the chain of calls that may
-- raise them.
use mathlib.Core.Path.{◌≡◌, refl}
use mathlib.Core.Bool.{Bool}
use codex_context_guard.Base.Tests.{if◌then◌else◌}

pub data Error : Type 0 where
  duplicate_identity duplicate_root_control duplicate_condition : Error
  selection_target_requires_host_call host_call_origin_root_mismatch : Error
  selection_target_kind_pair_required locator_base_requires_root : Error
  locator_base_flavor_pair_required root_source_identity_mismatch : Error
  unit_identity_invalid unit_source_invalid unit_parent_invalid : Error
  supersession_identity_incomplete supersession_interval_invalid : Error
  supersession_source_mismatch requirement_parent_missing : Error
  delivery_digest_missing delivery_digest_invalid delivery_digest_fabricated : Error
  delivery_association_invalid delivery_identity_invalid delivery_not_canonical : Error
  delivery_digest_mismatch delivery_sequence_invalid delivery_timestamp_invalid : Error
  delivery_record_limit delivery_sequence_inconsistent delivery_replayed : Error
  -- `DigestError`, whatever its message.
  digest_error : Error
  -- Not raised by name: a missing key, a method of None, a value of the wrong type, bytes that are not
  -- UTF-8, a text with a surrogate, and `struct.pack` of a number that does not fit.
  key_error attribute_error type_error unicode_decode_error unicode_encode_error : Error
  struct_error : Error

-- What a call returns, or the error that it raises.
pub data Result {ℓ} (A : Type ℓ) : Type ℓ where
  raise : Error → Result A
  ok : A → Result A

-- `if bad: raise ValueError(error)`
abbrev pub raise_if : Bool → Error → Result (Unit {0})
raise_if bad error = if bad then raise error else ok tt

module _ {κ} {B : Type κ} where
  infixl 5 ◌>>=◌
  abbrev pub ◌>>=◌ {ℓ} : {A : Type ℓ} → Result A → (A → Result B) → Result B
  raise error >>= next = raise error
  ok value >>= next = next value

  -- A check, and what comes after it.
  infixl 5 ◌>>◌
  abbrev pub ◌>>◌ : Result (Unit {0}) → Result B → Result B
  check >> next = check >>= λ passed. next

  -- A chain that returns has had every call in it return.
  pub >>=-eq-ok {ℓ} :
      {A : Type ℓ} (call : Result A) (next : A → Result B) {result : B}
      → (call >>= next) ≡ ok result
      → (value : A) × (call ≡ ok value) × (next value ≡ ok result)
  >>=-eq-ok (raise error) next returned = cc
  >>=-eq-ok (ok value) next returned = (value, refl, returned)

pub raise-ne-ok {ℓ} : {A : Type ℓ} {error : Error} {a : A} → raise error ≡ ok a → ⊥
raise-ne-ok e = cc

-- Chains of calls are one chain, and what comes after a call counts by its values.
pub bind_assoc {ℓ κ μ} :
    {A : Type ℓ} {B : Type κ} {C : Type μ} (call : Result A) (f : A → Result B) (g : B → Result C)
    → (call >>= f >>= g) ≡ (call >>= λ value. f value >>= g)
bind_assoc (raise error) f g = refl
bind_assoc (ok value) f g = refl

pub bind_ext {ℓ κ} :
    {A : Type ℓ} {B : Type κ} (call : Result A) (f g : A → Result B)
    → ((value : A) → f value ≡ g value)
    → (call >>= f) ≡ (call >>= g)
bind_ext (raise error) f g e = refl
bind_ext (ok value) f g e = e value

-- The same, for a proof that goes on with the value.
pub after_ok {ℓ κ μ} :
    {A : Type ℓ} {B : Type κ} {P : Type μ} (call : Result A) (next : A → Result B) {result : B}
    → (call >>= next) ≡ ok result
    → ((value : A) → call ≡ ok value → next value ≡ ok result → P)
    → P
after_ok (raise error) next returned go = absurd (raise-ne-ok returned)
after_ok (ok value) next returned go = go value refl returned

pub ok_injective {ℓ} : {A : Type ℓ} {a b : A} → ok a ≡ ok b → a ≡ b
ok_injective e = cc
