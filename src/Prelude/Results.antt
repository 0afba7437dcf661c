-- ===== src/Prelude/Results.antt =====
-- Go's `(value, error)`: a value, or the error that is returned in its place.
pub data Result {ℓ κ} (E : Type ℓ) (A : Type κ) : Type (ℓ ⊔ κ) where
  ok : A → Result E A
  err : E → Result E A
